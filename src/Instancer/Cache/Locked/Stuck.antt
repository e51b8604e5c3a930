-- ===== src/Instancer/Cache/Locked/Stuck.antt =====
-- client/sd/instancer/cache.go: what a listener that takes nothing does to every other user of the
-- cache.
use tiki.Base.{
  ℕ, ◌≤◌, ◌<◌, ◌≡◌, ◌⊎◌, inl, inr, refl, ap, List, [], ◌∷◌, ◌++◌, arith, length, length-append,
}
use tiki.Instancer.Cache.{Event}
use tiki.Instancer.Cache.Locked.{
  held, Shared, Step, lock, send, hand, unlock, take, Reach, here, later, put,
}

-- The mutex is held by the same send to a full channel, and the cache is the same.
record IsStuck (ch : ℕ) (e : Event) (rest : List (ℕ × Event)) (w z : Shared) : Type 0 where
  mtx : z.mtx ≡ held ((ch, e) ∷ rest)
  queue : z.queue ch ≡ w.queue ch
  same : z.cache ≡ w.cache

abbrev Taken : ℕ → Shared → Shared → Type 0
Taken ch w z = length (w.received ch) < length (z.received ch)

put_grows :
    (ch j : ℕ) (e : Event) (f : ℕ → List Event)
    → length (f j) ≤ length (put ch (f ch ++ e ∷ []) f j)
put_grows ch j e f = ground (arith, length-append (f ch) (e ∷ []))

Step-received :
    {cap : ℕ → ℕ} (ch : ℕ) {y z : Shared}
    → Step cap y z
    → length (y.received ch) ≤ length (z.received ch)
Step-received ch (lock x h) = omega arith
Step-received ch (send c e rest h l) = omega arith
Step-received ch {y} (hand c e rest h q) = put_grows c ch e y.received
Step-received ch (unlock h) = omega arith
Step-received ch {y} (take c e rest q) = put_grows c ch e y.received

Reach-received :
    {cap : ℕ → ℕ} (ch : ℕ) {y z : Shared}
    → Reach cap y z
    → length (y.received ch) ≤ length (z.received ch)
Reach-received ch here = omega arith
Reach-received ch (later r st) = omega (arith, Reach-received ch r, Step-received ch st)

Step-Stuck :
    {cap : ℕ → ℕ} (ch : ℕ) (e : Event) (rest : List (ℕ × Event)) {w y z : Shared}
    → cap ch ≤ length (w.queue ch)
    → IsStuck ch e rest w y
    → Step cap y z
    → Taken ch y z ⊎ IsStuck ch e rest w z
Step-Stuck ch e rest full k (lock x h) = ground (arith, k.mtx)
Step-Stuck ch e rest full k (send c d more h l) = ground (arith, k.mtx, ap length k.queue)
Step-Stuck ch e rest {y = y} full k (hand c d more h q) =
    ground (arith, k.mtx, length-append (y.received c) (d ∷ []))
Step-Stuck ch e rest full k (unlock h) = ground (arith, k.mtx)
Step-Stuck ch e rest {y = y} full k (take c d more q) =
    ground (arith, k.mtx, k.queue, k.same, length-append (y.received c) (d ∷ []))

Reach-Stuck :
    {cap : ℕ → ℕ} (ch : ℕ) (e : Event) (rest : List (ℕ × Event)) {w z : Shared}
    → w.mtx ≡ held ((ch, e) ∷ rest)
    → cap ch ≤ length (w.queue ch)
    → Reach cap w z
    → Taken ch w z ⊎ IsStuck ch e rest w z
Reach-Stuck ch e rest m full here = inr (record { mtx = m; queue = refl; same = refl })
Reach-Stuck ch e rest {w = w} m full (later {v = y} {u = z} r st) =
    elim (Reach-Stuck ch e rest m full r) [
      | inl t ↦ inl (omega (arith, t, Step-received ch st))
      | inr k ↦ elim (Step-Stuck ch e rest {w = w} full k st) [
        | inl t ↦ inl (omega (arith, Reach-received ch r, t))
        | inr k' ↦ inr k'
      ]
    ]

-- While a call is at its send to a channel without room, and the listener of that channel takes
-- nothing, the call stays at that send for ever: the mutex is never free, so that no other Update,
-- Register or Deregister, of that channel either, begins, and the cache never changes.
pub stuck_forever :
    {cap : ℕ → ℕ} (ch : ℕ) (e : Event) (rest : List (ℕ × Event)) (w z : Shared)
    → w.mtx ≡ held ((ch, e) ∷ rest)
    → cap ch ≤ length (w.queue ch)
    → Reach cap w z
    → z.received ch ≡ w.received ch
    → (z.mtx ≡ held ((ch, e) ∷ rest)) × (z.queue ch ≡ w.queue ch) × (z.cache ≡ w.cache)
stuck_forever ch e rest w z m full r same = elim (Reach-Stuck ch e rest m full r) [
  | inl t ↦ absurd (omega (arith, t, ap length same))
  | inr k ↦ (k.mtx, k.queue, k.same)
]
