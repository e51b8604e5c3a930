-- ===== src/Naming/Minimal.antt =====
-- client/grpc/consul_naming.go: no update is without need.
use tiki.Base.{
  ◌≡◌, refl, Bool, true, false, List, [], ◌∷◌, ◌++◌, Option, none, some, arith, Str, str_eq_refl,
  All, All-append, Option-cases, inl, inr,
}
use tiki.Go.Members.{mem}
use tiki.Go.Maps.{Map, get, put}
use tiki.Instancer.Loop.{Update}
use tiki.Naming.{
  add, remove, Change, members, joined, added, removed, add_all, Diff, scan, drop_gone,
  make_updates,
}
use tiki.Naming.Follows.{known, held, scan_lem}

-- An update adds an instance of the message that was not known, with its tags joined by commas, or
-- removes one that was known and is not in the message.
abbrev pub IsNeeded : Map Bool → Map (List Str) → List Str → Change → Type 0
IsNeeded entries tm is c = elim c.op [
  | add ↦
      (known entries c.addr ≡ false)
      × (mem is c.addr ≡ true)
      × (c.metadata ≡ some (joined tm c.addr))
  | remove ↦ (known entries c.addr ≡ true) × (mem is c.addr ≡ false)
]

get-none : (m : Map Bool) (i : Str) → get m i ≡ none → known m i ≡ false
get-none m i h = ground arith

module _ (entries : Map Bool) (tm : Map (List Str)) (all : List Str) where
  -- The rest of a list is part of the whole.
  abbrev Part : List Str → Type 0
  Part is = (a : Str) → mem is a ≡ true → mem all a ≡ true

  Part-rest : (i : Str) (is : List Str) → Part (i ∷ is) → Part is
  Part-rest i is p a h = ground (arith, p a)

  Part-first : (i : Str) (is : List Str) → Part (i ∷ is) → mem all i ≡ true
  Part-first i is p = p i (ground (arith, str_eq_refl i))

  scan-IsNeeded :
      (is : List Str) (d : Diff)
      → Part is
      → All (IsNeeded entries tm all) d.updates
      → All (IsNeeded entries tm all) (scan entries tm is d).updates
  unfolding scan
  scan-IsNeeded [] d p h = h
  scan-IsNeeded (i ∷ is) d p h = elim (Option-cases (get entries i)) [
    | inl fresh ↦
        rw (fresh, scan)
          (scan-IsNeeded is _ (Part-rest i is p) (
            All-append (IsNeeded entries tm all) d.updates (added tm i ∷ []) h
              ((get-none entries i fresh, Part-first i is p, refl), tt)))
    | inr (b, old) ↦ rw (old, scan) (scan-IsNeeded is _ (Part-rest i is p) h)
  ]

  add_all-IsNeeded :
      (is : List Str) (cs : List Change) (e : Map Bool)
      → ((a : Str) → known entries a ≡ false)
      → Part is
      → All (IsNeeded entries tm all) cs
      → All (IsNeeded entries tm all) (add_all tm is (cs, e)).0
  unfolding add_all
  add_all-IsNeeded [] cs e empty p h = h
  add_all-IsNeeded (i ∷ is) cs e empty p h =
      add_all-IsNeeded is (cs ++ added tm i ∷ []) (put e i true) empty (Part-rest i is p) (
        All-append (IsNeeded entries tm all) cs (added tm i ∷ []) h
          ((empty i, Part-first i is p, refl), tt))

  drop_gone-IsNeeded :
      (ne keys : Map Bool) (cs : List Change) (to_del : List Str)
      → ((a : Str) → known ne a ≡ mem all a)
      → ((a : Str) → known keys a ≡ true → known entries a ≡ true)
      → All (IsNeeded entries tm all) cs
      → All (IsNeeded entries tm all) (drop_gone ne keys (cs, to_del)).0
  unfolding drop_gone get
  drop_gone-IsNeeded ne [] cs to_del all_new old h = h
  drop_gone-IsNeeded ne ((i, b) ∷ rest) cs to_del all_new old h =
      let old' : (a : Str) → known rest a ≡ true → known entries a ≡ true =
        λ a k. ground (arith, old a) in
      elim (Option-cases (get ne i)) [
        | inl gone ↦
            rw (gone, drop_gone)
              (drop_gone-IsNeeded ne rest (cs ++ removed i ∷ []) (to_del ++ i ∷ []) all_new old' (
                All-append (IsNeeded entries tm all) cs (removed i ∷ []) h
                  ((ground (arith, old i, str_eq_refl i), ground (arith, all_new i)), tt)))
        | inr (c, stays) ↦
            rw (stays, drop_gone) (drop_gone-IsNeeded ne rest cs to_del all_new old' h)
      ]

-- Every update that is made, for the first message or a later one, is needed: it adds an instance of
-- the message that was not known, with its tags, or removes one that was known and is gone.
pub make_updates-IsNeeded :
    (msg : Update) (entries : Option (Map Bool))
    → All (IsNeeded (held entries) msg.tag_map (members msg.instances)) (make_updates msg entries).0
unfolding make_updates
make_updates-IsNeeded msg entries = elim (Option-cases msg.error) [
  | inr (e, failed) ↦ rw failed tt
  | inl fine ↦ rw fine (by_entries entries)
]
  where
    by_entries :
        (o : Option (Map Bool))
        → All
            (IsNeeded (held o) msg.tag_map (members msg.instances))
            (make_updates (record msg { error = none }) o).0
    by_entries none =
        add_all-IsNeeded [] msg.tag_map (members msg.instances) (members msg.instances) [] []
          (λ a. unfold get in refl) (λ a h. h) tt
    by_entries (some m) =
        let is = members msg.instances in
        let start : Diff = record { updates = []; ne = []; to_add = [] } in
        drop_gone-IsNeeded m msg.tag_map is (scan m msg.tag_map is start).ne m
          (scan m msg.tag_map is start).updates []
          (λ a. unfold get in ground (arith, (scan_lem m msg.tag_map is start [] a).0)) (λ a h. h)
          (scan-IsNeeded m msg.tag_map is is start (λ a h. h) tt)
