-- ===== src/Naming/Channel.antt =====
-- client/grpc/consul_naming.go with client/sd/instancer/consul_instancer.go: the watcher, which the
-- goroutine of the instancer sends to over a channel of capacity one, and the balancer that calls
-- Next and Close. Their steps come in any order.
pub mod Order
pub mod Sound
pub mod Delivery
pub mod Closed
pub mod Tests
use tiki.Base.{
  ℕ, zero, suc, ◌<◌, ◌≡◌, Bool, true, false, List, [], ◌∷◌, ◌++◌, Option, none, some, Str,
  if◌then◌else◌, length, drop, Result, ok, err, panic,
}
use tiki.Go.Maps.{Map}
use tiki.Instancer.Loop.{Poll, Update, Instancer, round, new_instancer, set_listener}
use tiki.Naming.{Change, next}

-- Where the goroutine of the instancer stands: in getInstances; behind `s.listener != nil`, with the
-- arguments of the call; in the listener, at the send; back from the loop; or at the call of a
-- listener that is nil by now, which ends the process.
pub data Place : Type 0 where
  asking : Place
  calling : Update → Place
  sending : Update → Place
  returned : Place
  crashed : Update → Place

abbrev pub is_crashed : Place → Bool
is_crashed asking = false
is_crashed (calling u) = false
is_crashed (sending u) = false
is_crashed returned = false
is_crashed (crashed u) = true

-- `received` is what Next has taken from the channel, and `told` what it has returned.
pub record Watcher : Type 0 where
  pub instancer : Instancer
  pub place : Place
  pub update_c : List Update
  pub entries : Option (Map Bool)
  pub received : List Update
  pub told : List (List Change)

-- The capacity of updateC.
abbrev pub capacity : ℕ
capacity = 1

-- A round of the loop decides to call the listener, or not.
abbrev pub place_of : Bool → List Update → Place
place_of stopped [] = if stopped then returned else asking
place_of stopped (u ∷ more) = calling u

abbrev pub place_after : Instancer → Instancer → Place
place_after s t = place_of t.stopped (drop (length s.heard) t.heard)

-- newConsulWatcher, for a client of consul that was made or not: NewInstancer queries once and calls
-- the listener itself, and the channel takes what is sent. Without tags.
unfoldable pub new_consul_watcher : Option Str → Poll → Result Watcher
new_consul_watcher (some e) p = err e
new_consul_watcher none p =
    let s = new_instancer [] true p in
    ok (record {
      instancer = s;
      place = asking;
      update_c = s.heard;
      entries = none;
      received = [];
      told = [];
    })

-- Next, with a message in the channel.
unfoldable pub receive : Update → List Update → Watcher → Watcher
receive u rest w =
    let (r, e) = next (some u) w.entries in
    record w {
      update_c = rest;
      entries = e;
      received = w.received ++ u ∷ [];
      told = w.told ++ (elim r [ ok us ↦ us | err t ↦ [] | panic ↦ [] ]) ∷ [];
    }

-- Close: `SetListener(nil)`.
unfoldable pub close : Watcher → Watcher
close w = record w { instancer = set_listener false w.instancer }

pub data Step (w : Watcher) : Watcher → Type 0 where
  ask :
      (p : Poll)
      → w.place ≡ asking
      → Step w (record w {
        instancer = round p w.instancer;
        place = place_after w.instancer (round p w.instancer);
      })
  call :
      (u : Update)
      → w.place ≡ calling u
      → w.instancer.listening ≡ true
      → Step w (record w { place = sending u })
  call_nil :
      (u : Update)
      → w.place ≡ calling u
      → w.instancer.listening ≡ false
      → Step w (record w { place = crashed u })
  send :
      (u : Update)
      → w.place ≡ sending u
      → length w.update_c < capacity
      → Step w (record w { place = asking; update_c = w.update_c ++ u ∷ [] })
  next_returns :
      (u : Update) (rest : List Update)
      → is_crashed w.place ≡ false
      → w.update_c ≡ u ∷ rest
      → Step w (receive u rest w)
  closes : is_crashed w.place ≡ false → Step w (close w)

-- What a watcher comes to.
pub data Reach (w : Watcher) : Watcher → Type 0 where
  here : Reach w w
  later : {v u : Watcher} → Reach w v → Step v u → Reach w u
