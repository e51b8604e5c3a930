-- ===== src/Naming/Follows.antt =====
-- client/grpc/consul_naming.go: a balancer that does what it is told knows the instances of the
-- last message.
use tiki.Base.{
  ◌≡◌, refl, sym, ap, ◌∙◌, Bool, true, false, not, ◌&&◌, List, [], ◌∷◌, ◌++◌, Option, none, some,
  arith, Str, str_eq, str_eq_iff, if◌then◌else◌, All, Option-cases, inl, inr,
}
use tiki.Go.Members.{mem}
use tiki.Go.Maps.{Map, get, put, delete, get-put, get-delete}
use tiki.Instancer.Cache.{Error}
use tiki.Instancer.Loop.{Update}
use tiki.Naming.{
  add, remove, Change, members, added, removed, add_all, Diff, scan, drop_gone, put_all, delete_all,
  make_updates,
}

-- The key is in the map.
abbrev pub known : Map Bool → Str → Bool
known m a = elim (get m a) [ none ↦ false | some b ↦ true ]

abbrev pub held : Option (Map Bool) → Map Bool
held none = []
held (some m) = m

abbrev pub follow_one : Change → Map Bool → Map Bool
follow_one c m = elim c.op [ add ↦ put m c.addr true | remove ↦ delete m c.addr ]

-- The addresses of a balancer that adds and removes as it is told.
abbrev pub follow : List Change → Map Bool → Map Bool
follow [] m = m
follow (c ∷ cs) m = follow cs (follow_one c m)

follow-append : (cs ds : List Change) (m : Map Bool) → follow (cs ++ ds) m ≡ follow ds (follow cs m)
follow-append [] ds m = refl
follow-append (c ∷ cs) ds m = follow-append cs ds (follow_one c m)

mem-append :
    (l : List Str) (i a : Str) → mem (l ++ i ∷ []) a ≡ (if mem l a then true else str_eq i a)
mem-append [] i a = ground arith
mem-append (x ∷ l) i a = ground (arith, mem-append l i a)

known-put :
    (m : Map Bool) (i a : Str) → known (put m i true) a ≡ (if str_eq i a then true else known m a)
known-put m i a = ground (arith, get-put m i a true)

known-delete :
    (m : Map Bool) (i a : Str) → known (delete m i) a ≡ (if str_eq i a then false else known m a)
known-delete m i a = ground (arith, get-delete m i a)

put_all_lem :
    (is : List Str) (m : Map Bool) (a : Str)
    → known (put_all is m) a ≡ (if mem is a then true else known m a)
unfolding put_all
put_all_lem [] m a = refl
put_all_lem (i ∷ is) m a = ground (arith, put_all_lem is (put m i true) a, known-put m i a)

delete_all_lem :
    (is : List Str) (m : Map Bool) (a : Str)
    → known (delete_all is m) a ≡ (if mem is a then false else known m a)
unfolding delete_all
delete_all_lem [] m a = refl
delete_all_lem (i ∷ is) m a = ground (arith, delete_all_lem is (delete m i) a, known-delete m i a)

-- After the first update: the entries, and the balancer.
add_all_lem :
    (tm : Map (List Str)) (is : List Str) (cs : List Change) (e m : Map Bool) (a : Str)
    → (known (add_all tm is (cs, e)).1 a ≡ (if mem is a then true else known e a))
      × (known (follow (add_all tm is (cs, e)).0 m) a
          ≡ (if mem is a then true else known (follow cs m) a))
unfolding add_all
add_all_lem tm [] cs e m a = (refl, refl)
add_all_lem tm (i ∷ is) cs e m a = ground (
  arith,
  add_all_lem tm is (cs ++ added tm i ∷ []) (put e i true) m a,
  known-put e i a,
  follow-append cs (added tm i ∷ []) m,
  known-put (follow cs m) i a,
)

-- What the loop over the instances leaves: the new entries, those to add, and the balancer.
pub scan_lem :
    (entries : Map Bool) (tm : Map (List Str)) (is : List Str) (d : Diff) (m : Map Bool) (a : Str)
    → let d' = scan entries tm is d in
      (known d'.ne a ≡ (if mem is a then true else known d.ne a))
      × (mem d'.to_add a ≡ (if mem is a && not (known entries a) then true else mem d.to_add a))
      × (known (follow d'.updates m) a
          ≡ (if mem is a && not (known entries a) then true else known (follow d.updates m) a))
unfolding scan
scan_lem entries tm [] d m a = (refl, refl, refl)
scan_lem entries tm (i ∷ is) d m a = ground (
  arith,
  scan_lem entries tm is (record d { ne = put d.ne i true }) m a,
  scan_lem entries tm is
      (record {
        updates = d.updates ++ added tm i ∷ [];
        ne = put d.ne i true;
        to_add = d.to_add ++ i ∷ [];
      })
      m a,
  known-put d.ne i a,
  mem-append d.to_add i a,
  follow-append d.updates (added tm i ∷ []) m,
  known-put (follow d.updates m) i a,
  str_eq_iff i a,
)

drop_gone_lem :
    (ne keys : Map Bool) (cs : List Change) (to_del : List Str) (m : Map Bool) (a : Str)
    → let r = drop_gone ne keys (cs, to_del) in
      (mem r.1 a ≡ (if known keys a && not (known ne a) then true else mem to_del a))
      × (known (follow r.0 m) a
          ≡ (if known keys a && not (known ne a) then false else known (follow cs m) a))
unfolding drop_gone get
drop_gone_lem ne [] cs to_del m a = (refl, refl)
drop_gone_lem ne ((i, b) ∷ rest) cs to_del m a = ground (
  arith,
  drop_gone_lem ne rest cs to_del m a,
  drop_gone_lem ne rest (cs ++ removed i ∷ []) (to_del ++ i ∷ []) m a,
  mem-append to_del i a,
  follow-append cs (removed i ∷ []) m,
  known-delete (follow cs m) i a,
  str_eq_iff i a,
)

-- A message without an error makes the entries, and a balancer that had the entries before and does
-- as it is told, know exactly the instances of the message.
pub make_updates-instances :
    (msg : Update) (entries : Option (Map Bool)) (m : Map Bool) (a : Str)
    → msg.error ≡ none
    → known m a ≡ known (held entries) a
    → (known (held (make_updates msg entries).1) a ≡ mem (members msg.instances) a)
      × (known (follow (make_updates msg entries).0 m) a ≡ mem (members msg.instances) a)
unfolding make_updates get
make_updates-instances msg none m a fine same =
    rw fine (ground (arith, add_all_lem msg.tag_map (members msg.instances) [] [] m a))
make_updates-instances msg (some e) m a fine same =
    let start : Diff = record { updates = []; ne = []; to_add = [] } in
    let d = scan e msg.tag_map (members msg.instances) start in
    let (ups, gone) = drop_gone d.ne e (d.updates, []) in
    rw fine (
      ground (
        arith,
        scan_lem e msg.tag_map (members msg.instances) start m a,
        drop_gone_lem d.ne e d.updates [] m a,
        delete_all_lem gone (put_all d.to_add e) a,
        put_all_lem d.to_add e a,
      ))

-- The watcher and the balancer, message after message.
abbrev pub watch : List Update → Option (Map Bool) × Map Bool → Option (Map Bool) × Map Bool
watch [] s = s
watch (msg ∷ rest) (e, m) = let (us, e') = make_updates msg e in watch rest (e', follow us m)

abbrev pub IsFailed : Update → Type 0
IsFailed msg = (e : Error) × (msg.error ≡ some e)

make_updates_failed :
    (msg : Update) (entries : Option (Map Bool))
    → IsFailed msg
    → make_updates msg entries ≡ ([], entries)
unfolding make_updates
make_updates_failed msg entries (e, h) = rw h

watch_failed :
    (msgs : List Update) (s : Option (Map Bool) × Map Bool) → All IsFailed msgs → watch msgs s ≡ s
watch_failed [] s h = refl
watch_failed (msg ∷ rest) (e, m) h =
    rw (make_updates_failed msg e h.0) (watch_failed rest (e, m) h.1)

one-in_step :
    (msg : Update) (entries : Option (Map Bool)) (m : Map Bool) (a : Str)
    → known m a ≡ known (held entries) a
    → known (follow (make_updates msg entries).0 m) a ≡ known (held (make_updates msg entries).1) a
one-in_step msg entries m a same = elim (Option-cases msg.error) [
  | inl fine ↦ let (mine, its) = make_updates-instances msg entries m a fine same in its ∙ sym mine
  | inr failed ↦ rw (make_updates_failed msg entries failed) same
]

watch-in_step :
    (msgs : List Update) (entries : Option (Map Bool)) (m : Map Bool) (a : Str)
    → known m a ≡ known (held entries) a
    → known (watch msgs (entries, m)).1 a ≡ known (held (watch msgs (entries, m)).0) a
watch-in_step [] entries m a same = same
watch-in_step (msg ∷ rest) entries m a same =
    watch-in_step rest (make_updates msg entries).1 (follow (make_updates msg entries).0 m) a
      (one-in_step msg entries m a same)

pub watch-append :
    (xs ys : List Update) (s : Option (Map Bool) × Map Bool)
    → watch (xs ++ ys) s ≡ watch ys (watch xs s)
watch-append [] ys s = refl
watch-append (x ∷ xs) ys (e, m) = watch-append xs ys _

-- Whatever messages came before, after a message without an error, and any failed ones that follow
-- it, a balancer that began with no address and did as it was told knows exactly the instances of
-- that message.
pub watch-instances :
    (before after : List Update) (msg : Update) (a : Str)
    → msg.error ≡ none
    → All IsFailed after
    → known (watch (before ++ (msg ∷ after)) (none, [])).1 a ≡ mem (members msg.instances) a
watch-instances before after msg a fine failed =
    let (e, m) = watch before (none, []) in
    let (us, e') = make_updates msg e in
    rw (watch-append before (msg ∷ after) (none, [])) (
      ap (λ (s : Option (Map Bool) × Map Bool). known s.1 a)
        (watch_failed after (e', follow us m) failed)
      ∙ (make_updates-instances msg e m a fine (watch-in_step before none [] a refl)).1)
