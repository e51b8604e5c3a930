-- ===== src/Naming.antt =====
-- client/grpc/consul_naming.go: what the gRPC balancer is told of the instances of a service.
pub mod Follows
pub mod Minimal
pub mod Watched
pub mod Direct
pub mod Channel
pub mod Dial
pub mod Dialled
pub mod Tests
use tiki.Base.{
  ◌≡◌, Bool, true, false, List, [], ◌∷◌, ◌++◌, Option, none, some, Str, codes, str_eq,
  if◌then◌else◌, Result, ok, err,
}
use tiki.Go.Maps.{Map, get, put, delete}
use tiki.Go.Strings.{join}
use tiki.Instancer.Cache.{Slice, nil_slice, slice}
use tiki.Instancer.Loop.{Update}

pub data Operation : Type 0 where
  add : Operation
  remove : Operation

-- naming.Update. Metadata that is not set is nil.
pub record Change : Type 0 where
  pub op : Operation
  pub addr : Str
  pub metadata : Option Str

-- The range over a slice.
abbrev pub members : Slice → List Str
members nil_slice = []
members (slice l) = l

-- `strings.Join(tm[i], ",")`, where a missing key gives no tags.
abbrev pub joined : Map (List Str) → Str → Str
joined tm i = elim (get tm i) [ none ↦ join [] (codes ",") | some tags ↦ join tags (codes ",") ]

abbrev pub added : Map (List Str) → Str → Change
added tm i = record { op = add; addr = i; metadata = some (joined tm i) }

abbrev pub removed : Str → Change
removed i = record { op = remove; addr = i; metadata = none }

-- The first update adds all instances.
unfoldable pub add_all : Map (List Str) → List Str → List Change × Map Bool → List Change × Map Bool
add_all tm [] s = s
add_all tm (i ∷ is) (updates, entries) =
    add_all tm is (updates ++ added tm i ∷ [], put entries i true)

-- The variables of the later updates.
pub record Diff : Type 0 where
  pub updates : List Change
  pub ne : Map Bool
  pub to_add : List Str

-- The loop over the instances.
unfoldable pub scan : Map Bool → Map (List Str) → List Str → Diff → Diff
scan entries tm [] d = d
scan entries tm (i ∷ is) d = elim (get entries i) [
  | some b ↦ scan entries tm is (record d { ne = put d.ne i true })
  | none ↦ scan entries tm is (record {
    updates = d.updates ++ added tm i ∷ [];
    ne = put d.ne i true;
    to_add = d.to_add ++ i ∷ [];
  })
]

-- The loop over the entries that were known, in the order in which `range` visits them.
unfoldable pub drop_gone : Map Bool → Map Bool → List Change × List Str → List Change × List Str
drop_gone ne [] s = s
drop_gone ne ((i, b) ∷ rest) (updates, to_del) = elim (get ne i) [
  | some c ↦ drop_gone ne rest (updates, to_del)
  | none ↦ drop_gone ne rest (updates ++ removed i ∷ [], to_del ++ i ∷ [])
]

-- The loops that change the entries.
unfoldable pub put_all : List Str → Map Bool → Map Bool
put_all [] m = m
put_all (i ∷ is) m = put_all is (put m i true)

unfoldable pub delete_all : List Str → Map Bool → Map Bool
delete_all [] m = m
delete_all (i ∷ is) m = delete_all is (delete m i)

abbrev kept : Map Bool → Diff → List Change × List Str → List Change × Option (Map Bool)
kept m d (updates, to_del) = (updates, some (delete_all to_del (put_all d.to_add m)))

abbrev first_time : List Change × Map Bool → List Change × Option (Map Bool)
first_time (updates, entries) = (updates, some entries)

-- makeUpdates: the updates, and the entries afterwards. A nil map is `none`.
unfoldable pub make_updates : Update → Option (Map Bool) → List Change × Option (Map Bool)
unfolding add_all scan drop_gone put_all delete_all
make_updates msg entries = elim msg.error [
  | some e ↦ ([], entries)
  | none ↦ elim entries [
    | none ↦ first_time (add_all msg.tag_map (members msg.instances) ([], []))
    | some m ↦
        let d =
          scan m msg.tag_map (members msg.instances)
            (record { updates = []; ne = []; to_add = [] }) in
        kept m d (drop_gone d.ne m (d.updates, []))
  ]
]

-- Next, for what is received from the channel: a message, or that it is closed.
unfoldable pub next : Option Update → Option (Map Bool) → Result (List Change) × Option (Map Bool)
unfolding make_updates
next none entries = (err (codes "closed"), entries)
next (some msg) entries =
    let (updates, entries') = make_updates msg entries in (ok updates, entries')
