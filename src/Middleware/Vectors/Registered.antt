-- ===== src/Middleware/Vectors/Registered.antt =====
-- client/http/middleware/hystrix_metrics.go: which vectors a registry has.
use tiki.Base.{
  arith, ℕ, ◌≡◌, refl, ap, ◌∙◌, Bool, true, false, ◌&&◌, ◌||◌, List, [], ◌∷◌, ◌++◌, Str, codes,
  str_eq, Result, ok, err, panic, All,
}
use tiki.Middleware.Vectors.{
  Vector, prometheus_namespace, make_vectors, registered, Registerer, full_name, any_named,
  distinct, all_valid, IsRegistry, MetricState, with_vectors, with_collector,
  new_prometheus_collector, init_hystrix_metrics,
}

-- The names of the vectors, without the namespace.
abbrev pub names : List Str
names =
    codes "attempts"
    ∷ codes "errors"
    ∷ codes "failures"
    ∷ codes "rejects"
    ∷ codes "short_circuits"
    ∷ codes "timeouts"
    ∷ codes "fallback_successes"
    ∷ codes "fallback_failures"
    ∷ codes "total_duration_seconds"
    ∷ codes "run_duration_seconds"
    ∷ codes "concurrency_inuse"
    ∷ codes "context_canceled"
    ∷ codes "context_deadline_exceeded"
    ∷ []

abbrev pub metric : Str → Str
metric n = full_name prometheus_namespace n

abbrev all_named : List Vector → List Str → Bool
all_named vs [] = true
all_named vs (n ∷ ns) = any_named (metric n) vs && all_named vs ns

-- What the evaluation of the names gives.
evaluated :
    (buckets : List ℕ)
    → let vs = registered (make_vectors buckets) in
      (all_valid vs ≡ true)
      × (distinct vs ≡ true)
      × (all_named vs names ≡ true)
      × (any_named (metric (codes "successes")) vs ≡ false)
unfolding make_vectors str_eq
evaluated buckets = (refl, refl, refl, refl)

module _ (R : Registerer) (s : R.Registry) where
  free-All :
      (buckets : List ℕ)
      → All (λ n. R.holds s (metric n) ≡ false) names
      → All
          (λ (v : Vector). R.holds s (full_name v.namespace v.name) ≡ false)
          (registered (make_vectors buckets))
  unfolding make_vectors str_eq
  free-All buckets free = free

  held-All :
      (vs : List Vector) (ns : List Str)
      → ((n : Str) → any_named n vs ≡ true → R.holds s n ≡ true)
      → all_named vs ns ≡ true
      → All (λ n. R.holds s (metric n) ≡ true) ns
  held-All vs [] holds h = tt
  held-All vs (n ∷ ns) holds h =
      (holds (metric n) (ground (arith, h)), held-All vs ns holds (ground (arith, h)))

-- On a default registry that has none of these thirteen names yet, the metrics are set up: the registry
-- then has each of them, and of the fourteenth vector of the collector, `successes`, only what it had.
pub init-registers :
    (R : Registerer) (def_buckets : List ℕ) (m : MetricState R)
    → IsRegistry R
    → All (λ n. R.holds m.default_registry (metric n) ≡ false) names
    → (t : MetricState R) × (init_hystrix_metrics R def_buckets m ≡ ok t)
      × All (λ n. R.holds t.default_registry (metric n) ≡ true) names
      × (R.holds t.default_registry (metric (codes "successes"))
          ≡ R.holds m.default_registry (metric (codes "successes")))
unfolding init_hystrix_metrics new_prometheus_collector
init-registers R def_buckets m law free =
    let hm = make_vectors def_buckets in
    let s = m.default_registry in
    let (valid, apart, all, none_of) = evaluated def_buckets in
    let (t, done) = law.fresh (registered hm) s valid apart (free-All R s def_buckets free) in
    let kept = law.kept (registered hm) s t in
    (
      record { default_registry = t; collectors = m.collectors ++ hm ∷ [] },
      rw done refl,
      held-All R t (registered hm) names (λ n h. kept n done ∙ ap (λ b. b || R.holds s n) h) all,
      kept (metric (codes "successes")) done
          ∙ ap (λ b. b || R.holds s (metric (codes "successes"))) none_of,
    )

abbrev registry_of : (R : Registerer) → R.Registry → Result (MetricState R) → R.Registry
registry_of R s (ok t) = t.default_registry
registry_of R s (err e) = s
registry_of R s panic = s

-- Where the metrics were set up, the default registry took the vectors.
init_took :
    (R : Registerer) (def_buckets : List ℕ) (m t : MetricState R)
    → init_hystrix_metrics R def_buckets m ≡ ok t
    → R.must_register (registered (make_vectors def_buckets)) m.default_registry
      ≡ ok t.default_registry
unfolding init_hystrix_metrics new_prometheus_collector
init_took R def_buckets m t h =
    go (R.must_register (registered (make_vectors def_buckets)) m.default_registry) h
  where
    go :
        (r : Result R.Registry)
        → with_collector R m (with_vectors (make_vectors def_buckets) r) ≡ ok t
        → r ≡ ok t.default_registry
    go (ok s) h = ap (λ r. ok (registry_of R s r)) h
    go (err e) h = ground arith
    go panic h = ground arith

-- Wherever the metrics were set up once, a second set up panics.
pub init_twice :
    (R : Registerer) (def_buckets : List ℕ) (m t : MetricState R)
    → IsRegistry R
    → init_hystrix_metrics R def_buckets m ≡ ok t
    → init_hystrix_metrics R def_buckets t ≡ panic
unfolding init_hystrix_metrics new_prometheus_collector
init_twice R def_buckets m t law first =
    let hm = make_vectors def_buckets in
    ap (λ r. with_collector R t (with_vectors hm r))
      (law.again hm.attempts _ _ m.default_registry t.default_registry
        (init_took R def_buckets m t first))
