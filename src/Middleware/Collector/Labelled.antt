-- ===== src/Middleware/Collector/Labelled.antt =====
-- client/http/middleware/hystrix_metrics.go: the labels of the vectors and the values that a collector
-- gives for them.
use tiki.Base.{
  ℕ, zero, suc, ◌≡◌, refl, List, [], ◌∷◌, Option, none, some, Str, codes, ℤ, pos, negsuc, All,
}
use tiki.Middleware.Collector.{
  Series, Sample, touch, inc, set_total_duration, observe_run_duration, observe_concurrency,
  CmdCollector, MetricResult, get_label_values, init_counters, call_n_times, increment, call_all,
  calls, update,
}
use tiki.Middleware.Vectors.{Vector, PrometheusCollector, labels, make_vectors}

-- Each label with its value. A number of values that is not the number of labels makes
-- WithLabelValues panic, which is `none`.
abbrev pub label_values : List Str → List Str → Option (List (Str × Str))
label_values [] [] = some []
label_values [] (v ∷ vs) = none
label_values (l ∷ ls) [] = none
label_values (l ∷ ls) (v ∷ vs) = elim (label_values ls vs) [
  | none ↦ none
  | some rest ↦ some ((l, v) ∷ rest)
]

abbrev pub values_of : Sample → List Str
values_of (touch s vs) = vs
values_of (inc s vs) = vs
values_of (set_total_duration vs d) = vs
values_of (observe_run_duration vs d) = vs
values_of (observe_concurrency vs n) = vs

-- What each label stands for.
abbrev pub meant : Str → CmdCollector → List (Str × Str)
meant ip hc =
    (codes "command", hc.command_name)
    ∷ (codes "method", hc.method)
    ∷ (codes "uri", hc.uri)
    ∷ (codes "src", hc.src)
    ∷ (codes "tgt", hc.tgt)
    ∷ (codes "src_ip", ip)
    ∷ (codes "tgt_ip", hc.addr)
    ∷ []

abbrev pub IsLabelled : Str → CmdCollector → Sample → Type 0
IsLabelled ip hc s = label_values labels (values_of s) ≡ some (meant ip hc)

-- The vectors of the collector.
abbrev pub all_vectors : PrometheusCollector → List Vector
all_vectors hm =
    hm.attempts ∷ hm.errors ∷ hm.successes ∷ hm.failures ∷ hm.rejects ∷ hm.short_circuits
    ∷ hm.timeouts ∷ hm.fallback_successes ∷ hm.fallback_failures ∷ hm.context_canceled
    ∷ hm.context_deadline_exceeded ∷ hm.total_duration ∷ hm.run_duration ∷ hm.concurrency_in_use
    ∷ []

-- Update after Update.
abbrev pub updates : (ℤ → ℕ) → Str → CmdCollector → List MetricResult → List Sample → List Sample
updates seconds ip hc [] log = log
updates seconds ip hc (r ∷ rs) log = updates seconds ip hc rs (update seconds ip hc r log)

module _ (ip : Str) (hc : CmdCollector) where
  call_n_times-IsLabelled :
      (n : ℤ) (s : Series) (log : List Sample)
      → All (IsLabelled ip hc) log
      → All (IsLabelled ip hc) (call_n_times n (increment ip hc s) log)
  unfolding call_n_times increment get_label_values
  call_n_times-IsLabelled (pos zero) s log h = h
  call_n_times-IsLabelled (pos (suc n)) s log h =
      call_n_times-IsLabelled (pos n) s (increment ip hc s log) (refl, h)
  call_n_times-IsLabelled (negsuc n) s log h = h

  call_all-IsLabelled :
      (cs : List (ℤ × Series)) (log : List Sample)
      → All (IsLabelled ip hc) log
      → All (IsLabelled ip hc) (call_all ip hc cs log)
  unfolding call_all
  call_all-IsLabelled [] log h = h
  call_all-IsLabelled ((n, s) ∷ rest) log h =
      call_all-IsLabelled rest (call_n_times n (increment ip hc s) log)
        (call_n_times-IsLabelled n s log h)

  updates-IsLabelled :
      (seconds : ℤ → ℕ) (rs : List MetricResult) (log : List Sample)
      → All (IsLabelled ip hc) log
      → All (IsLabelled ip hc) (updates seconds ip hc rs log)
  unfolding update get_label_values
  updates-IsLabelled seconds [] log h = h
  updates-IsLabelled seconds (r ∷ rs) log h =
      updates-IsLabelled seconds rs (update seconds ip hc r log)
        (refl, (refl, (refl, call_all-IsLabelled (calls r) log h)))

  init_counters-IsLabelled : All (IsLabelled ip hc) (init_counters ip hc [])
  unfolding init_counters get_label_values
  init_counters-IsLabelled =
      (refl, (refl, (refl, (refl, (refl, (refl, (refl, (refl, (refl, (refl, tt))))))))))

-- Every vector that is made has the seven labels of the package, and in every call that a collector
-- makes on a vector, when it is made and in all updates after that, each of the labels has a value and
-- the one that it stands for, so that no call panics on the number of its values.
pub make_vectors-IsLabelled :
    (buckets : List ℕ) (seconds : ℤ → ℕ) (ip : Str) (hc : CmdCollector) (rs : List MetricResult)
    → All (λ (v : Vector). v.labels ≡ labels) (all_vectors (make_vectors buckets))
      × All (IsLabelled ip hc) (updates seconds ip hc rs (init_counters ip hc []))
unfolding make_vectors
make_vectors-IsLabelled buckets seconds ip hc rs = (
  (
    refl,
    (
      refl,
      (
        refl,
        (refl, (refl, (refl, (refl, (refl, (refl, (refl, (refl, (refl, (refl, (refl, tt))))))))))),
      ),
    ),
  ),
  updates-IsLabelled ip hc seconds rs (init_counters ip hc []) (init_counters-IsLabelled ip hc),
)
