-- ===== src/Instancer/Cache/Locked/Live.antt =====
-- client/sd/instancer/cache.go: the mutex is given back, and the listeners come up to date, as long as
-- they take what is sent.
use tiki.Base.{ℕ, ◌≡◌, refl, ap, ◌∙◌, true, List, [], ◌∷◌, ◌++◌, some, arith}
use tiki.Instancer.Cache.{Event, has}
use tiki.Instancer.Cache.Locked.{
  Mutex, free, held, Shared, put, logged, new_shared, hand, unlock, take, Reach, here, later,
}
use tiki.Instancer.Cache.Locked.Heard.{last_event, heard_current}

Reach-trans : {cap : ℕ → ℕ} {w v z : Shared} → Reach cap w v → Reach cap v z → Reach cap w z
Reach-trans r here = r
Reach-trans r (later s st) = later (Reach-trans r s) st

put_same : (ch : ℕ) (l : List Event) (f : ℕ → List Event) → put ch l f ch ≡ l
put_same ch l f = ground arith

-- The same state and listeners, whatever was sent and taken.
record IsSame (w z : Shared) : Type 0 where
  state : z.cache.state ≡ w.cache.state
  reg : z.cache.reg ≡ w.cache.reg

same-trans : {w v z : Shared} → IsSame w v → IsSame v z → IsSame w z
same-trans a b = record { state = b.state ∙ a.state; reg = b.reg ∙ a.reg }

-- A listener takes all that is in its channel.
drain :
    {cap : ℕ → ℕ} (ch : ℕ) (l : List Event) (w : Shared)
    → w.queue ch ≡ l
    → (z : Shared) × Reach cap w z × (z.queue ch ≡ []) × (z.mtx ≡ w.mtx) × IsSame w z
drain ch [] w h = (w, here, h, refl, record { state = refl; reg = refl })
drain ch (e ∷ rest) w h =
    let v : Shared = record w {
      queue = put ch rest w.queue;
      received = put ch (w.received ch ++ e ∷ []) w.received;
    } in
    let (z, r, empty, m, same) = drain ch rest v (put_same ch rest w.queue) in
    (
      z,
      Reach-trans (later here (take ch e rest h)) r,
      empty,
      m,
      record { state = same.state; reg = same.reg },
    )

-- Once there is room for it, the holder does its next send; after the last it gives the mutex back.
finish :
    {cap : ℕ → ℕ} (l : List (ℕ × Event)) (w : Shared)
    → w.mtx ≡ held l
    → (z : Shared) × Reach cap w z × (z.mtx ≡ free) × IsSame w z
unfolding logged
finish [] w h =
    (record w { mtx = free }, later here (unlock h), refl, record { state = refl; reg = refl })
finish ((ch, e) ∷ rest) w h =
    let (v, r, empty, m, same) = drain ch (w.queue ch) w refl in
    let u : Shared = record v {
      cache = logged ch e v.cache;
      mtx = held rest;
      received = put ch (v.received ch ++ e ∷ []) v.received;
    } in
    let (z, s, done, after) = finish rest u refl in
    (
      z,
      Reach-trans (later r (hand ch e rest (m ∙ h) empty)) s,
      done,
      record { state = after.state ∙ same.state; reg = after.reg ∙ same.reg },
    )

give_back :
    {cap : ℕ → ℕ} (m : Mutex) (w : Shared)
    → w.mtx ≡ m
    → (z : Shared) × Reach cap w z × (z.mtx ≡ free) × IsSame w z
give_back free w h = (w, here, h, record { state = refl; reg = refl })
give_back (held l) w h = finish l w h

-- From every state that can come about, there are steps to one in which the mutex is free, the state
-- of the cache and its listeners are the same, and the last event that a given registered listener has
-- taken is that state, with nothing left in its channel.
pub Reach-settles :
    {cap : ℕ → ℕ} (ch : ℕ) (w : Shared)
    → Reach cap new_shared w
    → has w.cache.reg ch ≡ true
    → (z : Shared) × Reach cap w z
      × (z.mtx ≡ free)
      × (z.cache.state ≡ w.cache.state)
      × (z.cache.reg ≡ w.cache.reg)
      × (z.queue ch ≡ [])
      × (last_event (z.received ch) ≡ some w.cache.state)
Reach-settles ch w r h =
    let (v, s, done, same) = give_back w.mtx w refl in
    let (z, t, empty, m, more) = drain ch (v.queue ch) v refl in
    let both = same-trans same more in
    let path = Reach-trans s t in
    let listens = ap (λ l. has l ch) both.reg ∙ h in
    let heard = heard_current ch z (Reach-trans r path) (m ∙ done) listens empty in
    (z, path, m ∙ done, both.state, both.reg, empty, heard ∙ ap some both.state)
