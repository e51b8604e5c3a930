-- ===== src/Middleware/Vectors/Tests.antt =====
-- The theorems on the vectors, at a registry that is a list of what was registered.
use tiki.Base.{
  arith, ◌≡◌, refl, sym, ap, ◌∙◌, Bool-cases, inl, inr, true, false, ◌||◌, List, [], ◌∷◌, Str,
  codes, str_eq_iff, str_eq_refl, if◌then◌else◌, Result, ok, panic, All,
}
use tiki.Middleware.Vectors.{
  Vector, Registerer, full_name, any_named, distinct, all_valid, IsRegistry, MetricState,
  init_hystrix_metrics,
}
use tiki.Middleware.Vectors.Registered.{names, metric, init-registers}

abbrev register_all : List Vector → List Vector → Result (List Vector)
register_all [] s = ok s
register_all (v ∷ vs) s =
    if any_named (full_name v.namespace v.name) s then panic else register_all vs (v ∷ s)

abbrev pub listed : Registerer
listed = record {
  Registry = List Vector;
  must_register = register_all;
  holds = λ s n. any_named n s;
}

IsFree : List Vector → List Vector → Type 0
IsFree s = All (λ (v : Vector). any_named (full_name v.namespace v.name) s ≡ false)

IsFree-cons :
    (v : Vector) (vs s : List Vector)
    → any_named (full_name v.namespace v.name) vs ≡ false
    → IsFree s vs
    → IsFree (v ∷ s) vs
unfolding IsFree
IsFree-cons v [] s apart free = tt
IsFree-cons v (u ∷ vs) s apart free = (
  ground (
    arith,
    str_eq_iff (full_name u.namespace u.name) (full_name v.namespace v.name),
    str_eq_iff (full_name v.namespace v.name) (full_name u.namespace u.name),
    apart,
    free.0,
  ),
  IsFree-cons v vs s (ground (arith, apart)) free.1,
)

listed-fresh :
    (vs s : List Vector)
    → all_valid vs ≡ true
    → distinct vs ≡ true
    → IsFree s vs
    → (t : List Vector) × (register_all vs s ≡ ok t)
unfolding IsFree
listed-fresh [] s valid apart free = (s, refl)
listed-fresh (v ∷ vs) s valid apart free =
    let (t, done) =
      listed-fresh vs (v ∷ s) (ground (arith, valid)) (ground (arith, apart))
        (IsFree-cons v vs s (ground (arith, apart)) free.1) in
    (t, ap (λ b. if b then panic else register_all vs (v ∷ s)) free.0 ∙ done)

listed-kept :
    (vs s t : List Vector) (n : Str)
    → register_all vs s ≡ ok t
    → any_named n t ≡ (any_named n vs || any_named n s)
listed-kept [] s t n h = ground (arith, h)
listed-kept (v ∷ vs) s t n h = elim (Bool-cases (any_named (full_name v.namespace v.name) s)) [
  | inl taken ↦ ground (arith, h, taken)
  | inr free ↦ ground (
    arith,
    listed-kept vs (v ∷ s) t n
        (ap (λ b. if b then panic else register_all vs (v ∷ s)) (sym free) ∙ h),
  )
]

pub listed-IsRegistry : IsRegistry listed
unfolding IsFree
listed-IsRegistry = record {
  fresh = listed-fresh;
  kept = listed-kept;
  again = λ v vs ws s t h.
      let n = full_name v.namespace v.name in
      ap (λ b. if b then panic else register_all ws (v ∷ t))
        (listed-kept (v ∷ vs) s t n h
          ∙ ap (λ b. (b || any_named n vs) || any_named n s) (str_eq_refl n));
}

pub none_taken : All (λ n. any_named (metric n) [] ≡ false) names
none_taken = (
  refl,
  (
    refl,
    (refl, (refl, (refl, (refl, (refl, (refl, (refl, (refl, (refl, (refl, (refl, tt))))))))))),
  ),
)

init-registers_example :
    (t : MetricState listed) × (init_hystrix_metrics listed []
        (record { default_registry = []; collectors = [] })
      ≡ ok t)
    × All (λ n. any_named (metric n) t.default_registry ≡ true) names
    × (any_named (metric (codes "successes")) t.default_registry ≡ false)
init-registers_example =
    init-registers listed [] (record { default_registry = []; collectors = [] }) listed-IsRegistry
      none_taken
