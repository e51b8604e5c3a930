-- ===== src/Naming/Channel/Closed.antt =====
-- client/grpc/consul_naming.go: what Close does to the goroutine of the instancer, and what a balancer
-- that stops calling Next does to it.
use tiki.Base.{
  ok_injective, ◌<◌, ◌≤◌, ◌≡◌, ◌⊎◌, inl, inr, refl, sym, ap, ◌∙◌, true, false, [], ◌∷◌, ◌++◌, none,
  arith, length, length-append, if◌then◌else◌, ok,
}
use tiki.Instancer.Loop.{Poll, Update, round}
use tiki.Instancer.Loop.Follows.{new_instancer_lem, GoesOn, round-Followed}
use tiki.Naming.Channel.{
  asking, sending, crashed, is_crashed, Watcher, place_after, new_consul_watcher, receive, close,
  Step, ask, call, call_nil, send, next_returns, closes, Reach, here, later,
}
use tiki.Naming.Channel.Order.{update_of, place_after-heard}

-- From a query, with a listener.
crash_from :
    (q : Poll) (w : Watcher)
    → GoesOn q
    → w.place ≡ asking
    → w.instancer.stopped ≡ false
    → w.instancer.listening ≡ true
    → (z : Watcher) × Reach w z × (z.place ≡ crashed (update_of q w.instancer))
unfolding close
crash_from q w g asks runs l =
    let s = w.instancer in
    let u = update_of q s in
    let (_, _, _, _, _, _, heard) = round-Followed q s g runs in
    let called = heard ∙ ap (λ b. if b then s.heard ++ u ∷ [] else s.heard) l in
    let calls = place_after-heard s (round q s) (u ∷ []) called in
    let x : Watcher = record w { instancer = round q s; place = place_after s (round q s) } in
    (
      record (close x) { place = crashed u },
      later (later (later here (ask q asks)) (closes (ap is_crashed calls)))
          (call_nil u calls refl),
      refl,
    )

-- Whatever consul answers first, and whatever answer or error its next query ends with, there is an
-- order of steps from newConsulWatcher in which that query is the last: Close comes between the
-- instancer's test of its listener and the call, so that the goroutine calls a nil function.
pub close_crashes :
    (p q : Poll) (v : Watcher)
    → new_consul_watcher none p ≡ ok v
    → GoesOn q
    → (z : Watcher) × Reach v z × (z.place ≡ crashed (update_of q v.instancer))
unfolding new_consul_watcher
close_crashes p q v made g =
    let (running, _, listens) = new_instancer_lem [] true p in
    let same = ok_injective made in
    crash_from q v g (ap (λ (w : Watcher). w.place) (sym same))
      (ap (λ (w : Watcher). w.instancer.stopped) (sym same) ∙ running)
      (ap (λ (w : Watcher). w.instancer.listening) (sym same) ∙ listens)

-- The goroutine is at the send, the channel is full, and the cache is the same.
record IsBlocked (u b : Update) (w z : Watcher) : Type 0 where
  place : z.place ≡ sending u
  full : z.update_c ≡ b ∷ []
  same : z.instancer.cache ≡ w.instancer.cache

-- Next has taken something since.
abbrev Taken : Watcher → Watcher → Type 0
Taken w z = length w.received < length z.received

Step-Blocked :
    (u b : Update) {w y z : Watcher} → IsBlocked u b w y → Step y z → Taken y z ⊎ IsBlocked u b w z
unfolding receive close
Step-Blocked u b k (ask p h) = ground (arith, k.place)
Step-Blocked u b k (call v h l) = ground (arith, k.place)
Step-Blocked u b k (call_nil v h l) = ground (arith, k.place)
Step-Blocked u b k (send v h l) = ground (arith, ap length k.full)
Step-Blocked u b {y = y} k (next_returns v rest h l) =
    inl (omega (arith, length-append y.received (v ∷ [])))
Step-Blocked u b k (closes h) = inr (record { place = k.place; full = k.full; same = k.same })

-- Next takes one update or none in a step.
Step-received : {y z : Watcher} → Step y z → length y.received ≤ length z.received
unfolding receive close
Step-received (ask p h) = omega arith
Step-received (call v h l) = omega arith
Step-received (call_nil v h l) = omega arith
Step-received (send v h l) = omega arith
Step-received {y} (next_returns v rest h l) = omega (arith, length-append y.received (v ∷ []))
Step-received (closes h) = omega arith

Reach-received : {y z : Watcher} → Reach y z → length y.received ≤ length z.received
Reach-received here = omega arith
Reach-received (later r st) = omega (arith, Reach-received r, Step-received st)

Reach-Blocked :
    (u b : Update) {w z : Watcher}
    → w.place ≡ sending u
    → w.update_c ≡ b ∷ []
    → Reach w z
    → Taken w z ⊎ IsBlocked u b w z
Reach-Blocked u b p f here = inr (record { place = p; full = f; same = refl })
Reach-Blocked u b {w = w} p f (later {v = y} {u = z} r st) = elim (Reach-Blocked u b p f r) [
  | inl t ↦ inl (omega (arith, t, Step-received st))
  | inr k ↦ elim (Step-Blocked u b {w = w} k st) [
    | inl t ↦ inl (omega (arith, Reach-received r, t))
    | inr k' ↦ inr k'
  ]
]

-- Once the goroutine of the instancer holds an update while the channel is full, and Next is not called
-- again, it stays at the send for ever, whatever else happens, a call of Close included, and the
-- instancer's cache never changes again.
pub blocked_forever :
    (u b : Update) (w z : Watcher)
    → w.place ≡ sending u
    → w.update_c ≡ b ∷ []
    → Reach w z
    → z.received ≡ w.received
    → (z.place ≡ sending u) × (z.update_c ≡ b ∷ []) × (z.instancer.cache ≡ w.instancer.cache)
blocked_forever u b w z p f r same = elim (Reach-Blocked u b p f r) [
  | inl t ↦ absurd (omega (arith, t, ap length same))
  | inr k ↦ (k.place, k.full, k.same)
]
