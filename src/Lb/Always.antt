-- ===== src/Lb/Always.antt =====
-- client/http/lb/lb.go: `Select` always finds an endpoint where one has a weight above 0.
use tiki.Base.{
  ℕ, ◌<◌, ◌≡◌, ap, List, [], ◌∷◌, some, arith, Str, str_eq, str_eq_iff, ok, Bool-cases, inl, inr,
}
use tiki.Go.Maps.{Map, get, UniqueKeys}
use tiki.Lb.Weight.{weight}
use tiki.Lb.Draws.{select_edges}
use tiki.Lb.Select.{select, total, slot_lem, select-roulette}

-- rand.Intn gives a number below its argument.
abbrev pub IsDraw : (ℕ → ℕ) → Type 0
IsDraw intn = (n : ℕ) → 0 < n → intn n < n

module _ {ℓ} {E : Type ℓ} (tag_map : Map (List Str)) where
  total_pos :
      (m : Map E) (a : Str) (ep : E)
      → get m a ≡ some ep
      → 0 < weight tag_map a
      → 0 < total tag_map m
  unfolding get
  total_pos [] a ep h p = cc
  total_pos ((j, e) ∷ m) a ep h p = elim (Bool-cases (str_eq j a)) [
    | inl y ↦ let same = ap (weight tag_map) ((str_eq_iff j a).0 y) in omega (arith, same)
    | inr n ↦ omega (arith, total_pos m a ep (ground arith) p)
  ]

  -- Whatever numbers are drawn, an endpoint is selected, and the result is no error and no panic,
  -- where the map holds an endpoint under an address with a weight above 0.
  pub select_finds :
      (intn : ℕ → ℕ) (uri method : Str) (m : Map E) (a : Str) (ep : E)
      → IsDraw intn
      → UniqueKeys m
      → get m a ≡ some ep
      → 0 < weight tag_map a
      → (e : E) × (addr : Str) × (select tag_map intn uri method m ≡ ok (some e, addr))
  unfolding get
  select_finds intn uri method [] a ep d u h p = cc
  select_finds intn uri method ((j, e) ∷ []) a ep d u h p =
      (e, j, (select_edges tag_map intn uri method).1 j e)
  select_finds intn uri method ((j, e) ∷ (k, f) ∷ m) a ep d u h p =
      let l = (j, e) ∷ (k, f) ∷ m in
      let below = d (total tag_map l) (total_pos l a ep h p) in
      let (addr, x, _, hit) = slot_lem tag_map (intn (total tag_map l)) l below in
      (x, addr, select-roulette tag_map intn uri method l addr x u (omega arith) below hit)
