-- ===== src/Naming/Channel/Tests.antt =====
-- The theorems on the watcher and its channel, at a consul that fails first.
use tiki.Base.{◌≡◌, refl, false, true, [], ◌∷◌, none, some, Str, codes, ok, pos}
use tiki.Go.Members.{mem}
use tiki.Instancer.Cache.{nil_slice, sort_slice, message}
use tiki.Instancer.Entries.{Entry, make_instances, wanted}
use tiki.Instancer.Loop.{Poll, failed, answered, Update, round, new_instancer}
use tiki.Instancer.Loop.Follows.{published}
use tiki.Naming.Follows.{known}
use tiki.Naming.Channel.{
  asking, calling, sending, crashed, Watcher, place_after, new_consul_watcher, close, ask, call,
  closes, Reach, here, later,
}
use tiki.Naming.Channel.Order.{follow_all, update_of, IsInOrder, Reach-IsInOrder}
use tiki.Naming.Channel.Delivery.{Reach-delivers}
use tiki.Naming.Channel.Closed.{close_crashes, blocked_forever}

abbrev pub down : Poll
down = failed (message (codes "down"))

abbrev entry : Entry
entry = record { node_address = codes "a"; service_address = []; port = pos 80; tags = [] }

abbrev pub first : Watcher
first = record {
  instancer = new_instancer [] true down;
  place = asking;
  update_c = (new_instancer [] true down).heard;
  entries = none;
  received = [];
  told = [];
}

made : new_consul_watcher none down ≡ ok first
unfolding new_consul_watcher
made = refl

-- Consul answers, and the listener is called.
abbrev second : Watcher
second = record first {
  instancer = round (answered (entry ∷ []) 7) first.instancer;
  place = place_after first.instancer (round (answered (entry ∷ []) 7) first.instancer);
}

abbrev u : Update
u = update_of (answered (entry ∷ []) 7) first.instancer

abbrev third : Watcher
third = record second { place = sending u }

calls : second.place ≡ calling u
unfolding round new_instancer sort_slice
calls = refl

listens : second.instancer.listening ≡ true
unfolding round new_instancer
listens = refl

to_third : Reach first third
to_third = later (later here (ask (answered (entry ∷ []) 7) refl)) (call u calls listens)

Reach-IsInOrder_example : IsInOrder third
Reach-IsInOrder_example = Reach-IsInOrder down first third made to_third

runs : third.instancer.stopped ≡ false
unfolding round new_instancer
runs = refl

Reach-delivers_example :
    (z : Watcher) × Reach third z
    × (z.place ≡ asking)
    × (z.update_c ≡ [])
    × (z.instancer.cache.state ≡ published [] (answered [] 8))
    × ((a : Str) → known (follow_all z.told []) a ≡ mem (make_instances (wanted [] [])) a)
Reach-delivers_example = Reach-delivers down first third [] 8 made to_third runs listens

close_crashes_example :
    (z : Watcher) × Reach first z × (z.place ≡ crashed (update_of down first.instancer))
close_crashes_example = close_crashes down down first made tt

abbrev b : Update
b = record { instances = nil_slice; tag_map = []; error = some (message (codes "down")) }

full : third.update_c ≡ b ∷ []
unfolding new_instancer sort_slice
full = refl

blocked_forever_example :
    ((close third).place ≡ sending u)
    × ((close third).update_c ≡ b ∷ [])
    × ((close third).instancer.cache ≡ third.instancer.cache)
unfolding close
blocked_forever_example =
    blocked_forever u b third (close third) refl full (later here (closes refl)) refl
