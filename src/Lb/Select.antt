-- ===== src/Lb/Select.antt =====
-- client/http/lb/lb.go: `Select`. The endpoints are listed in the order in which the `range` loop
-- visits them; `intn n` is the number that `rand.Intn(n)` draws.
use tiki.Base.{
  ℕ, zero, suc, ◌+◌, ◌-◌, ◌≤◌, ◌<◌, ◌≡◌, ap, ◌∙◌, List, [], ◌∷◌, ◌++◌, Option, none, some, arith,
  Str, codes, ltb, if◌then◌else◌, ◌==◌, Result, ok, err, panic, length, get_elem?, append_assoc,
  append-nil, Bool-cases, inl, inr, str_eq_iff,
}
use native.Mathlib.Nat.{add-zero, add_assoc}
use tiki.Go.Maps.{Map, get, UniqueKeys}
use tiki.Lb.Weight.{weight}

-- The variables of the first loop.
pub record Build : Type 0 where
  pub keys : List Str
  pub steps : List ℕ
  pub total_weight : ℕ

-- `for i, step := range steps { if num < step { idx = i; break } }`, with `idx := 0` before.
unfoldable pub find_step : ℕ → ℕ → List ℕ → ℕ
find_step i num [] = 0
find_step i num (step ∷ steps) =
    let later = find_step (suc i) num steps in if ltb num step then i else later

unfoldable pub no_endpoint : Str → Str → Str
no_endpoint uri method =
    codes "no endpoint for " ++ method ++ codes "-" ++ uri ++ codes ", all nodes dead"

module _ {ℓ} {E : Type ℓ} (tag_map : Map (List Str)) where
  -- The loop over the endpoints builds the keys and the running totals of the weights.
  unfoldable pub build : Build → Map E → Build
  build b [] = b
  build b ((addr, ep) ∷ rest) =
      let total = b.total_weight + weight tag_map addr in
      build
        (record { keys = b.keys ++ addr ∷ []; steps = b.steps ++ total ∷ []; total_weight = total })
        rest

  -- `addr := keys[idx]; ep := endpoints[addr]`; a nil endpoint is `none`.
  unfoldable pub at_index : Map E → List Str → ℕ → Result (Option E × Str)
  at_index endpoints keys idx = elim (get_elem? keys idx) [
    | none ↦ panic
    | some addr ↦ ok (get endpoints addr, addr)
  ]

  -- The tests on `len(keys)`, and the draw: `rand.Intn` panics at 0.
  unfoldable pub choose :
      (ℕ → ℕ) → Str → Str → Map E → List Str → List ℕ → ℕ → Result (Option E × Str)
  unfolding at_index no_endpoint find_step
  choose intn uri method endpoints [] steps total = err (no_endpoint uri method)
  choose intn uri method endpoints (addr ∷ []) steps total = ok (get endpoints addr, addr)
  choose intn uri method endpoints (a ∷ b ∷ keys) steps total =
      if total == 0
      then panic
      else at_index endpoints (a ∷ b ∷ keys) (find_step 0 (intn total) steps)

  unfoldable pub select : (ℕ → ℕ) → Str → Str → Map E → Result (Option E × Str)
  select intn uri method endpoints =
      let b = build (record { keys = []; steps = []; total_weight = 0 }) endpoints in
      choose intn uri method endpoints b.keys b.steps b.total_weight

  -- The sum of the weights.
  abbrev pub total : Map E → ℕ
  total [] = 0
  total ((addr, ep) ∷ rest) = weight tag_map addr + total rest

  -- A roulette wheel: `num` falls into the slot of one entry, slots being as wide as the weights.
  unfoldable pub roulette : ℕ → Map E → Option (Str × E)
  roulette num [] = none
  roulette num ((addr, ep) ∷ rest) =
      let later = roulette (num - weight tag_map addr) rest in
      if ltb num (weight tag_map addr) then some (addr, ep) else later

  abbrev pub addrs : Map E → List Str
  addrs [] = []
  addrs ((addr, ep) ∷ rest) = addr ∷ addrs rest

  abbrev pub running : ℕ → Map E → List ℕ
  running t [] = []
  running t ((addr, ep) ∷ rest) = (t + weight tag_map addr) ∷ running (t + weight tag_map addr) rest

  build_lem :
      (b : Build) (m : Map E)
      → build b m ≡ record {
        keys = b.keys ++ addrs m;
        steps = b.steps ++ running b.total_weight m;
        total_weight = b.total_weight + total m;
      }
  unfolding build
  build_lem b [] = simp (append-nil, add-zero)
  build_lem b ((addr, ep) ∷ rest) = simp (
    build_lem
        (record {
          keys = b.keys ++ addr ∷ [];
          steps = b.steps ++ (b.total_weight + weight tag_map addr) ∷ [];
          total_weight = b.total_weight + weight tag_map addr;
        })
        rest,
    append_assoc,
    add_assoc,
  )

  -- The position of the entry that `num` falls on.
  pub slot : ℕ → Map E → ℕ
  slot num [] = 0
  slot num ((addr, ep) ∷ rest) =
      let later = suc (slot (num - weight tag_map addr) rest) in
      if ltb num (weight tag_map addr) then 0 else later

  find_step-running :
      (i t num : ℕ) (m : Map E)
      → num < total m
      → find_step i (t + num) (running t m) ≡ i + slot num m
  unfolding find_step slot
  find_step-running i t num [] h = absurd (omega arith)
  find_step-running i t num ((addr, ep) ∷ rest) h =
      ground (
        arith,
        find_step-running (suc i) (t + weight tag_map addr) (num - weight tag_map addr) rest,
      )

  -- The entry at the slot is the one on which the wheel stops.
  pub slot_lem :
      (num : ℕ) (m : Map E)
      → num < total m
      → (addr : Str) × (ep : E) × (get_elem? (addrs m) (slot num m) ≡ some addr)
        × (roulette num m ≡ some (addr, ep))
  unfolding slot roulette
  slot_lem num [] h = absurd (omega arith)
  slot_lem num ((addr, ep) ∷ rest) h = elim (Bool-cases (ltb num (weight tag_map addr))) [
    | inl here ↦ (addr, ep, rw here, rw here)
    | inr past ↦
        let (a, e, at, hit) = slot_lem (num - weight tag_map addr) rest (ground arith) in
        (a, e, rw past at, rw past hit)
  ]

  -- The entry that the wheel picks is one of the list, under its own key.
  pub roulette-get :
      (num : ℕ) (m : Map E) (addr : Str) (ep : E)
      → UniqueKeys m
      → roulette num m ≡ some (addr, ep)
      → get m addr ≡ some ep
  unfolding roulette get
  roulette-get num [] addr ep u h = cc
  roulette-get num ((a, e) ∷ rest) addr ep u h = ground (
    arith,
    roulette-get (num - weight tag_map a) rest addr ep u.1,
    str_eq_iff a addr,
    str_eq_iff addr addr,
  )

  pub at_index-roulette :
      (num : ℕ) (m : Map E) (addr : Str) (ep : E)
      → UniqueKeys m
      → num < total m
      → roulette num m ≡ some (addr, ep)
      → at_index m (addrs m) (slot num m) ≡ ok (some ep, addr)
  unfolding at_index
  at_index-roulette num m addr ep u h hit =
      let (a, e, at, stop) = slot_lem num m h in
      rw (at, at_index) (ground (arith, stop, roulette-get num m addr ep u hit))

  choose_two :
      (intn : ℕ → ℕ) (uri method : Str) (m : Map E) (a b : Str) (keys : List Str) (steps : List ℕ)
      (sum : ℕ)
      → 0 < sum
      → choose intn uri method m (a ∷ b ∷ keys) steps sum
        ≡ at_index m (a ∷ b ∷ keys) (find_step 0 (intn sum) steps)
  unfolding choose
  choose_two intn uri method m a b keys steps zero h = elim h [ ]
  choose_two intn uri method m a b keys steps (suc sum) h = ground arith

  pub select-choose :
      (intn : ℕ → ℕ) (uri method : Str) (m : Map E)
      → select intn uri method m ≡ choose intn uri method m (addrs m) (running 0 m) (total m)
  unfolding select
  select-choose intn uri method m =
      rw (build_lem (record { keys = []; steps = []; total_weight = 0 }) m)
        (ap (choose intn uri method m (addrs m) (running 0 m)) (omega arith))

  find_step-slot :
      (num : ℕ) (m : Map E) → num < total m → find_step 0 num (running 0 m) ≡ slot num m
  find_step-slot num m h = ground (arith, find_step-running 0 0 num m h)

  -- With two endpoints or more and a total weight above 0, the loops with their running totals
  -- select what the wheel picks for the number drawn, whatever number below the total that is, and
  -- the endpoint returned is that of the address returned.
  pub select-roulette :
      (intn : ℕ → ℕ) (uri method : Str) (m : Map E) (addr : Str) (ep : E)
      → UniqueKeys m
      → 2 ≤ length m
      → intn (total m) < total m
      → roulette (intn (total m)) m ≡ some (addr, ep)
      → select intn uri method m ≡ ok (some ep, addr)
  select-roulette intn uri method [] addr ep u two h hit = absurd (omega arith)
  select-roulette intn uri method (x ∷ []) addr ep u two h hit = absurd (omega arith)
  select-roulette intn uri method ((a, e) ∷ (b, f) ∷ rest) addr ep u two h hit =
      let m = (a, e) ∷ (b, f) ∷ rest in
      select-choose intn uri method m
      ∙ choose_two intn uri method m a b (addrs rest) (running 0 m) (total m) (omega arith)
      ∙ ap (at_index m (addrs m)) (find_step-slot (intn (total m)) m h)
      ∙ at_index-roulette (intn (total m)) m addr ep u h hit
