-- ===== src/Instancer/Loop.antt =====
-- client/sd/instancer/consul_instancer.go: the loop that asks consul for the instances. What consul
-- answers in each round is an input.
pub mod Backoff
pub mod Follows
pub mod Channels
use tiki.Base.{
  ℕ, suc, ◌+◌, ◌*◌, ◌%◌, ◌^◌, ◌≡◌, refl, Bool, true, false, List, [], ◌∷◌, ◌++◌, Option, none, some,
  Str, if◌then◌else◌, Result, ok, panic,
}
use tiki.Go.Maps.{Map}
use tiki.Instancer.Cache.{
  Slice, nil_slice, slice, Error, eof, message, Event, Cache, new_cache, sort_slice, update,
}
use tiki.Instancer.Entries.{Entry, wanted, make_instances, make_tag_map}

-- What ends the wait of getInstances: an error of consul, its entries with their index, or the
-- closed quit channel, with what consul answers afterwards to the query that was under way, if it
-- answers.
pub data Poll : Type 0 where
  failed : Error → Poll
  answered : List Entry → ℕ → Poll
  interrupted : Option (List Entry) → Poll

-- The arguments of a call of the listener.
pub record Update : Type 0 where
  pub instances : Slice
  pub tag_map : Map (List Str)
  pub error : Option Error

-- The instancer with the variables of its loop. `delay` is `d` as a 64-bit pattern of nanoseconds.
pub record Instancer : Type 0 where
  pub cache : Cache
  pub tags : List Str
  pub tag_map : Map (List Str)
  pub listening : Bool
  pub heard : List Update
  pub last_index : ℕ
  pub delay : ℕ
  pub slept : List ℕ
  pub stopped : Bool

-- 10 * time.Millisecond
abbrev pub min_delay : ℕ
min_delay = 10000000

-- The results of getInstances.
pub record Instances : Type 0 where
  pub instances : Slice
  pub index : ℕ
  pub error : Option Error

-- getInstances; the tag map is written only with an answer. The goroutine of a query does not hear of
-- the quit channel, and writes the tag map when it gets its answer: here at once, as the loop is over.
unfoldable pub get_instances : Poll → Instancer → Instances × Instancer
get_instances (failed e) s = (record { instances = nil_slice; index = 0; error = some e }, s)
get_instances (answered entries index) s =
    let es = wanted s.tags entries in
    (
      record { instances = slice (make_instances es); index = index; error = none },
      record s { tag_map = make_tag_map es },
    )
get_instances (interrupted none) s =
    (record { instances = nil_slice; index = 0; error = some eof }, s)
get_instances (interrupted (some entries)) s = (
  record { instances = nil_slice; index = 0; error = some eof },
  record s { tag_map = make_tag_map (wanted s.tags entries) },
)

-- `if s.listener != nil`
unfoldable pub notify : Slice → Option Error → Instancer → Instancer
notify instances error s =
    if s.listening
    then record s {
      heard = s.heard ++ record { instances = instances; tag_map = s.tag_map; error = error } ∷ [];
    }
    else s

abbrev publish : Event → Instancer → Instancer
publish e s = record s { cache = update e s.cache }

-- The switch of the loop. `Update` sorts the instances in place before the listener gets them.
unfoldable pub react : Instances → Instancer → Instancer
unfolding notify
react r s = elim r.error [
  | some eof ↦ record s { last_index = r.index; stopped = true }
  | some (message m) ↦ notify r.instances (some (message m)) (
      publish (record { instances = nil_slice; error = some (message m) })
        (record s {
          last_index = r.index;
          slept = s.slept ++ s.delay ∷ [];
          delay = s.delay * 2 % 2 ^ 64;
        }))
  | none ↦
      notify (sort_slice r.instances) none
        (record (publish (record { instances = r.instances; error = none })
          (record s { last_index = r.index })) { delay = min_delay })
]

-- One round of the loop, which ends at io.EOF.
unfoldable pub round : Poll → Instancer → Instancer
unfolding get_instances react
round p s = if s.stopped then s else (let (r, s') = get_instances p s in react r s')

unfoldable pub loop : List Poll → Instancer → Instancer
unfolding round
loop [] s = s
loop (p ∷ ps) s = loop ps (round p s)

-- Stop, where the quit channel is closed already or not.
unfoldable pub stop : Bool → Result Bool
stop true = panic
stop false = ok true

-- SetListener, with a listener or with nil.
abbrev pub set_listener : Bool → Instancer → Instancer
set_listener listening s = record s { listening = listening }

-- NewInstancer: a first query without an index, published whatever it gives.
unfoldable pub new_instancer : List Str → Bool → Poll → Instancer
unfolding get_instances notify
new_instancer tags listening p =
    let (r, s) = get_instances p (record {
      cache = new_cache;
      tags = tags;
      tag_map = [];
      listening = listening;
      heard = [];
      last_index = 0;
      delay = min_delay;
      slept = [];
      stopped = false;
    }) in
    notify (sort_slice r.instances) r.error (
      publish (record { instances = r.instances; error = r.error })
        (record s { last_index = r.index }))
