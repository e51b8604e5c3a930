-- ===== src/Middleware/Vectors.antt =====
-- client/http/middleware/hystrix_metrics.go, circuit_break.go: the vectors of the collector and their
-- registration. The prometheus registry is a parameter.

pub mod Registered
pub mod Tests
use tiki.Base.{
  ℕ, ◌≡◌, Bool, true, false, not, ◌&&◌, ◌||◌, List, [], ◌∷◌, ◌++◌, Option, none, some, Str, codes,
  str_eq, Result, ok, err, panic, All, leb, ◌==◌, if◌then◌else◌,
}

-- The buckets of a histogram are 64-bit patterns.
pub data Kind : Type 0 where
  counter : Kind
  gauge : Kind
  histogram : List ℕ → Kind

-- The options of a vector, with its labels.
pub record Vector : Type 0 where
  pub kind : Kind
  pub namespace : Str
  pub name : Str
  pub help : Str
  pub labels : List Str

-- PrometheusNamespace
abbrev pub prometheus_namespace : Str
prometheus_namespace = codes "hystrix_go"

-- The variable `labels`.
abbrev pub labels : List Str
labels =
    codes "command"
    ∷ codes "method"
    ∷ codes "uri"
    ∷ codes "src"
    ∷ codes "tgt"
    ∷ codes "src_ip"
    ∷ codes "tgt_ip"
    ∷ []

abbrev vector_of : Kind → Str → Str → Vector
vector_of kind name help = record {
  kind = kind;
  namespace = prometheus_namespace;
  name = name;
  help = help;
  labels = labels;
}

pub record PrometheusCollector : Type 0 where
  pub attempts : Vector
  pub errors : Vector
  pub successes : Vector
  pub failures : Vector
  pub rejects : Vector
  pub short_circuits : Vector
  pub timeouts : Vector
  pub fallback_successes : Vector
  pub fallback_failures : Vector
  pub context_canceled : Vector
  pub context_deadline_exceeded : Vector
  pub total_duration : Vector
  pub run_duration : Vector
  pub concurrency_in_use : Vector

unfoldable pub make_vectors : List ℕ → PrometheusCollector
make_vectors buckets = record {
  attempts = vector_of counter (codes "attempts") (codes "The number of updates.");
  errors = vector_of counter (codes "errors") (
      codes
        "The number of unsuccessful attempts. Attempts minus Errors will equal successes within a time range. Errors are any result from an attempt that is not a success.");
  successes = vector_of counter (codes "successes") (codes "The number of requests that succeed.");
  failures = vector_of counter (codes "failures") (codes "The number of requests that fail.");
  rejects = vector_of counter (codes "rejects") (codes "The number of requests that are rejected.");
  short_circuits =
      vector_of counter (codes "short_circuits")
        (codes "The number of requests that short circuited due to the circuit being open.");
  timeouts =
      vector_of counter (codes "timeouts")
        (codes "The number of requests that are timeouted in the circuit breaker.");
  fallback_successes = vector_of counter (codes "fallback_successes") (
      codes "The number of successes that occurred during the execution of the fallback function.");
  fallback_failures =
      vector_of counter (codes "fallback_failures") (
        codes
          "The number of failures that occurred during the execution of the fallback function.");
  context_canceled = vector_of counter (codes "context_canceled") (
      codes
        "The number of contextCanceled that occurred during the execution of the fallback function.");
  context_deadline_exceeded = vector_of counter (codes "context_deadline_exceeded") (
      codes
        "The number of contextDeadlineExceeded that occurred during the execution of the fallback function.");
  total_duration =
      vector_of gauge (codes "total_duration_seconds")
        (codes "The total runtime of this command in seconds.");
  run_duration =
      vector_of (histogram buckets) (codes "run_duration_seconds")
        (codes "Runtime of the Hystrix command.");
  concurrency_in_use =
      vector_of (histogram buckets) (codes "concurrency_inuse")
        (codes "Concurrency in use of the Hystrix command.");
}

-- The arguments of MustRegister.
abbrev pub registered : PrometheusCollector → List Vector
registered hm =
    hm.attempts ∷ hm.errors ∷ hm.failures ∷ hm.rejects ∷ hm.short_circuits ∷ hm.timeouts
    ∷ hm.fallback_successes ∷ hm.fallback_failures ∷ hm.total_duration ∷ hm.run_duration
    ∷ hm.concurrency_in_use ∷ hm.context_canceled ∷ hm.context_deadline_exceeded ∷ []

-- prometheus.Registerer, with whether a registry has a vector with a full name.
pub record Registerer : Type 1 where
  pub Registry : Type 0
  pub must_register : List Vector → Registry → Result Registry
  pub holds : Registry → Str → Bool

-- prometheus.BuildFQName, without a subsystem.
abbrev pub full_name : Str → Str → Str
full_name namespace name =
    if str_eq name [] then [] else if str_eq namespace [] then name else namespace ++ b'_' ∷ name

abbrev pub any_named : Str → List Vector → Bool
any_named n [] = false
any_named n (v ∷ vs) = str_eq (full_name v.namespace v.name) n || any_named n vs

abbrev pub distinct : List Vector → Bool
distinct [] = true
distinct (v ∷ vs) = not (any_named (full_name v.namespace v.name) vs) && distinct vs

-- The names that prometheus allows: of metrics `[a-zA-Z_:][a-zA-Z0-9_:]*`, and of labels
-- `[a-zA-Z_][a-zA-Z0-9_]*` but for those that begin with two underscores.
abbrev is_letter : ℕ → Bool
is_letter c = (leb b'a' c && leb c b'z') || (leb b'A' c && leb c b'Z') || c == b'_'

abbrev goes_on : Bool → Str → Bool
goes_on colons [] = true
goes_on colons (c ∷ cs) =
    (is_letter c || (leb b'0' c && leb c b'9') || (colons && c == b':')) && goes_on colons cs

abbrev is_metric_name : Str → Bool
is_metric_name [] = false
is_metric_name (c ∷ cs) = (is_letter c || c == b':') && goes_on true cs

abbrev reserved : Str → Bool
reserved (c ∷ d ∷ cs) = c == b'_' && d == b'_'
reserved (c ∷ []) = false
reserved [] = false

abbrev is_label_name : Str → Bool
is_label_name [] = false
is_label_name (c ∷ cs) = is_letter c && goes_on false cs && not (reserved (c ∷ cs))

abbrev has_label : Str → List Str → Bool
has_label l [] = false
has_label l (k ∷ ks) = str_eq k l || has_label l ks

abbrev are_labels : List Str → Bool
are_labels [] = true
are_labels (l ∷ ls) = is_label_name l && not (has_label l ls) && are_labels ls

-- A histogram keeps the label `le` for itself.
abbrev spares_le : Kind → List Str → Bool
spares_le counter ls = true
spares_le gauge ls = true
spares_le (histogram buckets) ls = not (has_label (codes "le") ls)

-- Prometheus makes a descriptor of the vector without an error.
abbrev pub is_valid : Vector → Bool
is_valid v =
    is_metric_name (full_name v.namespace v.name)
    && not (str_eq v.help [])
    && are_labels v.labels
    && spares_le v.kind v.labels

abbrev pub all_valid : List Vector → Bool
all_valid [] = true
all_valid (v ∷ vs) = is_valid v && all_valid vs

-- The documented behaviour of a registry: valid vectors with full names of their own, none of which is
-- taken, are registered; where MustRegister returns, the registry has what was registered, and what it
-- had; and a vector that was registered makes it panic when it comes again.
pub record IsRegistry (R : Registerer) : Type 0 where
  pub fresh :
      (vs : List Vector) (s : R.Registry)
      → all_valid vs ≡ true
      → distinct vs ≡ true
      → All (λ (v : Vector). R.holds s (full_name v.namespace v.name) ≡ false) vs
      → (t : R.Registry) × (R.must_register vs s ≡ ok t)
  pub kept :
      (vs : List Vector) (s t : R.Registry) (n : Str)
      → R.must_register vs s ≡ ok t
      → R.holds t n ≡ (any_named n vs || R.holds s n)
  pub again :
      (v : Vector) (vs ws : List Vector) (s t : R.Registry)
      → R.must_register (v ∷ vs) s ≡ ok t
      → R.must_register (v ∷ ws) t ≡ panic

-- The registries, and what metricCollector.Registry has: the vectors of each collector.
pub record MetricState (R : Registerer) : Type 0 where
  pub default_registry : R.Registry
  pub collectors : List PrometheusCollector

abbrev or_default : List ℕ → Option (List ℕ) → List ℕ
or_default def_buckets none = def_buckets
or_default def_buckets (some buckets) = buckets

abbrev pub with_vectors {ℓ} :
    {S : Type ℓ} → PrometheusCollector → Result S → Result (PrometheusCollector × S)
with_vectors hm (ok t) = ok (hm, t)
with_vectors hm (err e) = err e
with_vectors hm panic = panic

-- NewPrometheusCollector on the registry that `reg` or its absence chooses, with
-- prometheus.DefBuckets.
unfoldable pub new_prometheus_collector :
    (R : Registerer)
    → List ℕ
    → Option (List ℕ)
    → R.Registry
    → Result (PrometheusCollector × R.Registry)
unfolding make_vectors
new_prometheus_collector R def_buckets buckets s =
    let hm = make_vectors (or_default def_buckets buckets) in
    with_vectors hm (R.must_register (registered hm) s)

-- `metricCollector.Registry.Register(pc.Collector)`
abbrev pub with_collector :
    (R : Registerer)
    → MetricState R
    → Result (PrometheusCollector × R.Registry)
    → Result (MetricState R)
with_collector R m (ok (pc, t)) =
    ok (record { default_registry = t; collectors = m.collectors ++ pc ∷ [] })
with_collector R m (err e) = err e
with_collector R m panic = panic

-- initHystrixMetrics, which InitMetrics and so SetupClient call.
unfoldable pub init_hystrix_metrics :
    (R : Registerer) → List ℕ → MetricState R → Result (MetricState R)
unfolding new_prometheus_collector
init_hystrix_metrics R def_buckets m =
    with_collector R m (new_prometheus_collector R def_buckets none m.default_registry)
