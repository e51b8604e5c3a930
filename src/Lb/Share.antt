-- ===== src/Lb/Share.antt =====
-- client/http/lb/lb.go: how many of the numbers that `rand.Intn` may draw select an address.
use tiki.Base.{
  ℕ, zero, suc, ◌+◌, ◌-◌, ◌≤◌, ◌<◌, ◌≡◌, refl, ap, ap₂, subst, ◌∙◌, Bool, true, false, List, [],
  ◌∷◌, Option, none, some, arith, Str, str_eq, str_eq_iff, str_eq-cases, if◌then◌else◌, inl, inr,
  Result, ok, err, panic, length,
}
use native.Mathlib.Nat.{add-zero, zero-add, add-suc}
use tiki.Go.Maps.{Map, get, UniqueKeys}
use tiki.Lb.Weight.{weight}
use tiki.Lb.Select.{select, total, roulette, slot_lem, roulette-get, select-roulette}

-- The number of the numbers below `n` that pass the test.
abbrev pub count_below : ℕ → (ℕ → Bool) → ℕ
count_below zero test = 0
count_below (suc n) test = (if test n then 1 else 0) + count_below n test

count_below-add :
    (a b : ℕ) (test : ℕ → Bool)
    → count_below (a + b) test ≡ count_below b (λ i. test (a + i)) + count_below a test
count_below-add a zero test = rw add-zero (omega arith)
count_below-add a (suc b) test = rw add-suc (omega (arith, count_below-add a b test))

count_below-congr :
    (n : ℕ) (p q : ℕ → Bool) → ((i : ℕ) → i < n → p i ≡ q i) → count_below n p ≡ count_below n q
count_below-congr zero p q h = refl
count_below-congr (suc n) p q h = rw (h n (omega arith)) (
    ap (λ (k : ℕ). (if q n then 1 else 0) + k)
      (count_below-congr n p q (λ i lt. h i (omega arith))))

count_below-true : (n : ℕ) → count_below n (λ i. true) ≡ n
count_below-true zero = refl
count_below-true (suc n) = omega (arith, count_below-true n)

count_below-false : (n : ℕ) → count_below n (λ i. false) ≡ 0
count_below-false zero = refl
count_below-false (suc n) = omega (arith, count_below-false n)

abbrev pub goes_to {ℓ} : {E : Type ℓ} → Str → Result (Option E × Str) → Bool
goes_to addr (ok (ep, a)) = str_eq a addr
goes_to addr (err e) = false
goes_to addr panic = false

abbrev key_is {ℓ} : {E : Type ℓ} → Str → Option (Str × E) → Bool
key_is addr none = false
key_is addr (some (a, ep)) = str_eq a addr

module _ {ℓ} {E : Type ℓ} (tag_map : Map (List Str)) where
  absent :
      (n : ℕ) (m : Map E) (addr : Str)
      → UniqueKeys m
      → get m addr ≡ none
      → key_is addr (roulette tag_map n m) ≡ false
  absent n m addr u h = go (roulette tag_map n m) refl
    where
      go : (r : Option (Str × E)) → roulette tag_map n m ≡ r → key_is addr r ≡ false
      go none e = refl
      go (some (a, ep)) e = ground (arith, roulette-get tag_map n m a ep u e, str_eq_iff a addr)

  roulette_here :
      (n : ℕ) (a : Str) (ep : E) (rest : Map E)
      → n < weight tag_map a
      → roulette tag_map n ((a, ep) ∷ rest) ≡ some (a, ep)
  unfolding roulette
  roulette_here n a ep rest h = ground arith

  roulette_past :
      (n : ℕ) (a : Str) (ep : E) (rest : Map E)
      → roulette tag_map (weight tag_map a + n) ((a, ep) ∷ rest) ≡ roulette tag_map n rest
  unfolding roulette
  roulette_past n a ep rest = rw (cancel (weight tag_map a) n) (ground arith)
    where
      cancel : (k i : ℕ) → k + i - k ≡ i
      cancel k i = omega arith

  count_cons :
      (addr a : Str) (ep : E) (rest : Map E)
      → count_below
          (weight tag_map a + total tag_map rest)
          (λ n. key_is addr (roulette tag_map n ((a, ep) ∷ rest)))
        ≡ count_below (total tag_map rest) (λ n. key_is addr (roulette tag_map n rest))
          + count_below (weight tag_map a) (λ n. str_eq a addr)
  count_cons addr a ep rest =
      count_below-add (weight tag_map a) (total tag_map rest) _
      ∙ ap₂ ◌+◌
          (count_below-congr (total tag_map rest) _ _
            (λ i lt. ap (key_is addr) (roulette_past i a ep rest)))
          (count_below-congr (weight tag_map a) _ _
            (λ i lt. ap (key_is addr) (roulette_here i a ep rest lt)))

  count-roulette :
      (addr : Str) (ep : E) (m : Map E)
      → UniqueKeys m
      → get m addr ≡ some ep
      → count_below (total tag_map m) (λ n. key_is addr (roulette tag_map n m))
        ≡ weight tag_map addr
  unfolding get
  count-roulette addr ep [] u h = cc
  count-roulette addr ep ((a, e) ∷ rest) u h =
      count_cons addr a e rest ∙ (elim (str_eq-cases a addr) [
        | inl (same, y) ↦
            ap₂ ◌+◌ (none_later same) (
              ap (λ (b : Bool). count_below (weight tag_map a) (λ _. b)) y
              ∙ count_below-true (weight tag_map a))
            ∙ rw zero-add (ap (weight tag_map) same)
        | inr (other, n) ↦
            ap₂ ◌+◌ (count-roulette addr ep rest u.1 (ground arith)) (
              ap (λ (b : Bool). count_below (weight tag_map a) (λ _. b)) n
              ∙ count_below-false (weight tag_map a))
            ∙ rw add-zero refl
      ])
    where
      none_later :
          a ≡ addr
          → count_below (total tag_map rest) (λ n. key_is addr (roulette tag_map n rest)) ≡ 0
      none_later same =
          count_below-congr (total tag_map rest) _ _
            (λ n lt. absent n rest addr u.1 (subst (λ k. get rest k ≡ none) same u.0))
          ∙ count_below-false (total tag_map rest)

  -- Of the numbers that the draw may give, as many select an address as its weight says: with two
  -- endpoints or more, an address is selected with the share of its weight in the total weight, in
  -- whatever order the endpoints are visited; one of weight 0 is never selected.
  pub select-share :
      (uri method : Str) (m : Map E) (addr : Str) (ep : E)
      → UniqueKeys m
      → 2 ≤ length m
      → get m addr ≡ some ep
      → count_below (total tag_map m) (λ n. goes_to addr (select tag_map (λ _. n) uri method m))
        ≡ weight tag_map addr
  select-share uri method m addr ep u two h =
      count_below-congr (total tag_map m) _ _ same ∙ count-roulette addr ep m u h
    where
      same :
          (n : ℕ)
          → n < total tag_map m
          → goes_to addr (select tag_map (λ _. n) uri method m) ≡ key_is addr (roulette tag_map n m)
      same n lt =
          let (a, e, at, stop) = slot_lem tag_map n m lt in
          rw (stop, select-roulette tag_map (λ _. n) uri method m a e u two lt stop)
