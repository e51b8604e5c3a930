-- ===== src/Lb/Draws.antt =====
-- client/http/lb/lb.go: `Select` without endpoints, with one and with weights of 0, and what it
-- returns.
use tiki.Base.{
  ℕ, zero, suc, ◌≤◌, ◌≡◌, refl, sym, subst, ◌∙◌, List, [], ◌∷◌, Option, none, some, arith, Str,
  str_eq, ◌==◌, Result, ok, err, panic, length, get_elem?, Bool-cases, inl, inr, str_eq_iff,
}
use tiki.Go.Maps.{Map, get}
use tiki.Lb.Select.{
  find_step, no_endpoint, build, at_index, choose, select, total, addrs, running, select-choose,
}

module _ {ℓ} {E : Type ℓ} (tag_map : Map (List Str)) where
  -- With no endpoint the result is the error that all nodes are dead; a single endpoint is selected
  -- without a draw, whatever its weight; and two endpoints or more, all of weight 0, make
  -- `rand.Intn` panic.
  pub select_edges :
      (intn : ℕ → ℕ) (uri method : Str)
      → (select {E = E} tag_map intn uri method [] ≡ err (no_endpoint uri method))
        × ((addr : Str) (ep : E)
            → select tag_map intn uri method ((addr, ep) ∷ []) ≡ ok (some ep, addr))
        × ((m : Map E)
            → 2 ≤ length m
            → total tag_map m ≡ 0
            → select tag_map intn uri method m ≡ panic)
  unfolding choose build
  select_edges intn uri method = (
    unfold select in refl,
    λ addr ep.
        select-choose tag_map intn uri method ((addr, ep) ∷ [])
        ∙ (unfold choose get in ground (arith, str_eq_iff addr addr)),
    λ m two empty. select-choose tag_map intn uri method m ∙ all_zero m two empty,
  )
    where
      all_zero :
          (m : Map E)
          → 2 ≤ length m
          → total tag_map m ≡ 0
          → choose tag_map intn uri method m
              (addrs tag_map m)
              (running tag_map 0 m)
              (total tag_map m)
            ≡ panic
      all_zero [] two empty = absurd (omega arith)
      all_zero (x ∷ []) two empty = absurd (omega arith)
      all_zero ((a, e) ∷ (b, f) ∷ rest) two empty = unfold choose in ground arith

  addrs-get :
      (m : Map E) (k : ℕ) (addr : Str)
      → get_elem? (addrs tag_map m) k ≡ some addr
      → (ep : E) × (get m addr ≡ some ep)
  unfolding get
  addrs-get [] k addr h = cc
  addrs-get ((a, e) ∷ rest) zero addr h = (e, ground (arith, str_eq_iff a addr))
  addrs-get ((a, e) ∷ rest) (suc k) addr h = elim (Bool-cases (str_eq a addr)) [
    | inl y ↦ (e, rw y)
    | inr n ↦ let (ep, found) = addrs-get rest k addr h in (ep, rw n found)
  ]

  abbrev Stored : Map E → Result (Option E × Str) → Type ℓ
  Stored m (ok (o, addr)) = (ep : E) × (o ≡ some ep) × (get m addr ≡ some ep)
  Stored m (err e) = Unit
  Stored m panic = Unit

  at_index-Stored : (m : Map E) (k : ℕ) → Stored m (at_index tag_map m (addrs tag_map m) k)
  unfolding at_index
  at_index-Stored m k = go (get_elem? (addrs tag_map m) k) refl
    where
      go :
          (o : Option Str)
          → get_elem? (addrs tag_map m) k ≡ o
          → Stored m (at_index tag_map m (addrs tag_map m) k)
      go none e = rw (e, at_index) tt
      go (some addr) e =
          let (ep, found) = addrs-get m k addr e in rw (e, at_index) (ep, found, found)

  choose-Stored :
      (intn : ℕ → ℕ) (uri method : Str) (m : Map E)
      → Stored m (
          choose tag_map intn uri method m
            (addrs tag_map m)
            (running tag_map 0 m)
            (total tag_map m))
  unfolding choose
  choose-Stored intn uri method [] = tt
  choose-Stored intn uri method ((a, e) ∷ []) = at_index-Stored ((a, e) ∷ []) 0
  choose-Stored intn uri method ((a, e) ∷ (b, f) ∷ rest) =
      let m = (a, e) ∷ (b, f) ∷ rest in
      elim (Bool-cases (total tag_map m == 0)) [
        | inl y ↦ rw y tt
        | inr n ↦
            rw n (at_index-Stored m (find_step 0 (intn (total tag_map m)) (running tag_map 0 m)))
      ]

  -- An endpoint that is selected, by whatever draw, is not nil, and it is the one that the map holds
  -- under the address returned with it.
  pub select-get :
      (intn : ℕ → ℕ) (uri method : Str) (m : Map E) (o : Option E) (addr : Str)
      → select tag_map intn uri method m ≡ ok (o, addr)
      → (ep : E) × (o ≡ some ep) × (get m addr ≡ some ep)
  select-get intn uri method m o addr h =
      subst (Stored m) (sym (select-choose tag_map intn uri method m) ∙ h)
        (choose-Stored intn uri method m)
