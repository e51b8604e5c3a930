-- ===== src/Go/Maps.antt =====
-- Go's `map[string]V`, as an association list. A `range` loop visits the entries in an order that
-- Go leaves open: here it is the order of the list, and statements hold for every list.
use tiki.Base.{
  ◌≡◌, ◌≢◌, ◌⊎◌, refl, List, [], ◌∷◌, ◌++◌, Option, none, some, arith, if◌then◌else◌, Str, str_eq,
  str_eq_iff, All, Bool-cases, inl, inr, subst, ap₂,
}

abbrev pub Map {ℓ} : Type ℓ → Type ℓ
Map V = List (Str × V)

module _ {ℓ} {V : Type ℓ} where
  -- v, ok := m[k]
  unfoldable pub get : Map V → Str → Option V
  get [] k = none
  get ((j, v) ∷ m) k = if str_eq j k then some v else get m k

  -- m[k] = v
  unfoldable pub put : Map V → Str → V → Map V
  put [] k v = (k, v) ∷ []
  put ((j, w) ∷ m) k v = if str_eq j k then (k, v) ∷ m else (j, w) ∷ put m k v

  -- delete(m, k)
  unfoldable pub delete : Map V → Str → Map V
  delete [] k = []
  delete ((j, v) ∷ m) k = let rest = delete m k in if str_eq j k then rest else (j, v) ∷ rest

  pub get-put :
      (m : Map V) (k j : Str) (v : V) → get (put m k v) j ≡ (if str_eq k j then some v else get m j)
  unfolding get put
  get-put [] k j v = refl
  get-put ((i, w) ∷ m) k j v =
      ground (arith, str_eq_iff k j, str_eq_iff i k, str_eq_iff i j, get-put m k j v)

  pub get-delete :
      (m : Map V) (k j : Str) → get (delete m k) j ≡ (if str_eq k j then none else get m j)
  unfolding get delete
  get-delete [] k j = ground arith
  get-delete ((i, w) ∷ m) k j =
      ground (arith, str_eq_iff k j, str_eq_iff i k, str_eq_iff i j, get-delete m k j)

  pub get-put_self : (m : Map V) (k : Str) (v : V) → get (put m k v) k ≡ some v
  get-put_self m k v = ground (arith, get-put m k k v, str_eq_iff k k)

  pub get-delete_self : (m : Map V) (k : Str) → get (delete m k) k ≡ none
  get-delete_self m k = ground (arith, get-delete m k k, str_eq_iff k k)

  -- No key stands twice in the list: it lists a map.
  abbrev pub UniqueKeys : Map V → Type ℓ
  UniqueKeys [] = Unit
  UniqueKeys ((k, v) ∷ m) = (get m k ≡ none) × UniqueKeys m

  pub put-UniqueKeys : (m : Map V) (k : Str) (v : V) → UniqueKeys m → UniqueKeys (put m k v)
  unfolding put
  put-UniqueKeys [] k v u = (unfold get in refl, tt)
  put-UniqueKeys ((j, w) ∷ m) k v u =
      ground (arith, put-UniqueKeys m k v u.1, get-put m k j v, str_eq_iff j k, str_eq_iff k j)

  pub delete-UniqueKeys : (m : Map V) (k : Str) → UniqueKeys m → UniqueKeys (delete m k)
  unfolding delete
  delete-UniqueKeys [] k u = tt
  delete-UniqueKeys ((j, w) ∷ m) k u = ground (arith, delete-UniqueKeys m k u.1, get-delete m k j)

  pub get-append : (m n : Map V) (k : Str) → get m k ≡ none → get (m ++ n) k ≡ get n k
  unfolding get
  get-append [] n k h = refl
  get-append ((j, w) ∷ m) n k h = ground (arith, get-append m n k)

  pub get-put_ne : (m : Map V) {k j : Str} (v : V) → k ≢ j → get (put m k v) j ≡ get m j
  get-put_ne m {k} {j} v h = ground (arith, get-put m k j v, str_eq_iff k j)

  -- What is found after a write was written or was there before.
  pub get-put_cases :
      (m : Map V) (k j : Str) (v x : V) → get (put m k v) j ≡ some x → (x ≡ v) ⊎ (get m j ≡ some x)
  get-put_cases m k j v x h = ground (arith, get-put m k j v)

  -- What is found after a deletion was there before.
  pub get-delete-some :
      (m : Map V) (k j : Str) (x : V) → get (delete m k) j ≡ some x → get m j ≡ some x
  get-delete-some m k j x h = ground (arith, get-delete m k j)

  -- What holds of all entries is kept by `put`, and holds of what is found.
  pub All-put {κ} :
      (P : Str × V → Type κ) (m : Map V) (k : Str) (v : V) → All P m → P (k, v) → All P (put m k v)
  unfolding put
  All-put P [] k v a p = (p, tt)
  All-put P ((j, w) ∷ m) k v a p = elim (Bool-cases (str_eq j k)) [
    | inl y ↦ rw y (p, a.1)
    | inr n ↦ rw n (a.0, All-put P m k v a.1 p)
  ]

  pub All-get {κ} :
      (P : Str × V → Type κ) (m : Map V) (k : Str) (v : V) → All P m → get m k ≡ some v → P (k, v)
  unfolding get
  All-get P [] k v a h = cc
  All-get P ((j, w) ∷ m) k v a h = elim (Bool-cases (str_eq j k)) [
    | inl y ↦ subst P (ap₂ (λ (x : Str) (z : V). (x, z)) ((str_eq_iff j k).0 y) (ground arith)) a.0
    | inr n ↦ All-get P m k v a.1 (ground arith)
  ]

pub ruleset map_laws = (get-put, get-delete)
