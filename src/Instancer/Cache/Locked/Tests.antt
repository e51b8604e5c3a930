-- ===== src/Instancer/Cache/Locked/Tests.antt =====
-- The theorems on the cache under its mutex, with two listeners whose channels have room for one
-- event.
use tiki.Base.{ℕ, ◌≡◌, refl, true, arith, [], ◌∷◌, none, some, codes}
use tiki.Instancer.Cache.{has, slice, Event, new_cache, broadcast, sort_slice, deep_equal}
use tiki.Go.Sort.{sort_strings}
use tiki.Instancer.Cache.Current.{Call, updates, registers}
use tiki.Instancer.Cache.Locked.{
  free, held, Shared, put, begin, begin_update, begin_register, logged, new_shared, lock, send,
  unlock, take, Reach, here, later,
}
use tiki.Instancer.Cache.Locked.Atomic.{begun, IsAtomic, Reach-IsAtomic}
use tiki.Instancer.Cache.Locked.Heard.{last_event, heard_current}
use tiki.Instancer.Cache.Locked.Live.{Reach-settles}
use tiki.Instancer.Cache.Locked.Stuck.{stuck_forever}

abbrev cap : ℕ → ℕ
cap ch = 1

abbrev locked : Call → Shared → Shared
locked x w = record w { cache = (begin x w.cache).0; mtx = held (begin x w.cache).1 }

abbrev registered : ℕ → Shared → Shared
registered ch w =
    let c = (begin (registers ch) w.cache).0 in
    let e = w.cache.state in
    record w { cache = logged ch e c; mtx = free; queue = put ch (e ∷ []) w.queue }

abbrev taken : ℕ → Event → Shared → Shared
taken ch e w = record w { queue = put ch [] w.queue; received = put ch (e ∷ []) w.received }

abbrev first : Shared
first = registered 6 new_shared

abbrev second : Shared
second = registered 5 first

to_first : Reach cap new_shared first
unfolding new_shared begin begin_register logged
to_first =
    let e = new_cache.state in
    later (later (later here (lock (registers 6) refl)) (send 6 e [] refl (omega arith)))
      (unlock refl)

to_second : Reach cap new_shared second
unfolding new_shared begin begin_register logged
to_second =
    let e = new_cache.state in
    later (later (later to_first (lock (registers 5) refl)) (send 5 e [] refl (omega arith)))
      (unlock refl)

-- The first listener has emptied its channel.
abbrev third : Shared
third = taken 6 new_cache.state second

to_third : Reach cap new_shared third
unfolding new_shared begin begin_register logged
to_third = later to_second (take 6 new_cache.state [] refl)

Reach-IsAtomic_example : IsAtomic cap (begun to_third) third
Reach-IsAtomic_example = Reach-IsAtomic third to_third

is_free : third.mtx ≡ free
unfolding new_shared
is_free = refl

is_registered : has third.cache.reg 6 ≡ true
unfolding new_shared new_cache begin begin_register logged
is_registered = refl

is_empty : third.queue 6 ≡ []
is_empty = refl

heard_current_example : last_event (third.received 6) ≡ some third.cache.state
heard_current_example = heard_current 6 third to_third is_free is_registered is_empty

abbrev event : Event
event = record { instances = slice (codes "b:1" ∷ codes "a:1" ∷ []); error = none }

abbrev ordered : Event
ordered = record { instances = slice (codes "a:1" ∷ codes "b:1" ∷ []); error = none }

-- An update, with both listeners behind by an event: its first send is to the second of them.
abbrev fourth : Shared
fourth = locked (updates event) second

abbrev fifth : Shared
fifth = taken 6 new_cache.state fourth

is_held : fourth.mtx ≡ held ((5, ordered) ∷ (6, ordered) ∷ [])
unfolding new_shared new_cache begin begin_register begin_update logged broadcast sort_slice
    deep_equal sort_strings
is_held = refl

to_fifth : Reach cap fourth fifth
unfolding new_shared begin begin_update begin_register logged
to_fifth = later here (take 6 new_cache.state [] refl)

stuck_forever_example :
    (fifth.mtx ≡ held ((5, ordered) ∷ (6, ordered) ∷ []))
    × (fifth.queue 5 ≡ fourth.queue 5)
    × (fifth.cache ≡ fourth.cache)
stuck_forever_example =
    stuck_forever 5 ordered ((6, ordered) ∷ []) fourth fifth is_held (omega arith) to_fifth refl

-- From the middle of the update.
to_fourth : Reach cap new_shared fourth
to_fourth = later to_second (lock (updates event) refl)

still_registered : has fourth.cache.reg 5 ≡ true
unfolding new_shared new_cache begin begin_register begin_update logged broadcast sort_slice
    deep_equal sort_strings
still_registered = refl

Reach-settles_example :
    (z : Shared) × Reach cap fourth z
    × (z.mtx ≡ free)
    × (z.cache.state ≡ fourth.cache.state)
    × (z.cache.reg ≡ fourth.cache.reg)
    × (z.queue 5 ≡ [])
    × (last_event (z.received 5) ≡ some fourth.cache.state)
Reach-settles_example = Reach-settles 5 fourth to_fourth still_registered
