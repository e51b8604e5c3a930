-- ===== src/Instancer/Cache/Locked/Heard.antt =====
-- client/sd/instancer/cache.go: what a listener knows that has emptied its channel.
use tiki.Base.{
  ℕ, ◌≡◌, refl, sym, ap, ◌∙◌, subst, true, List, [], ◌∷◌, ◌++◌, Option, none, some, arith,
  append-nil,
}
use tiki.Instancer.Cache.{Event, has}
use tiki.Instancer.Cache.Current.{last_sent, IsCurrent, run-IsCurrent}
use tiki.Instancer.Cache.Locked.{free, Shared, new_shared, Reach}
use tiki.Instancer.Cache.Locked.Atomic.{sent_on, finished-free, begun, Reach-IsAtomic}

abbrev pub last_event : List Event → Option Event
last_event [] = none
last_event (e ∷ l) = elim (last_event l) [ none ↦ some e | some later ↦ some later ]

pub last_event-sent_on :
    (ch : ℕ) (l : List (ℕ × Event)) → last_event (sent_on ch l) ≡ last_sent ch l
last_event-sent_on ch [] = refl
last_event-sent_on ch ((c, e) ∷ l) = ground (arith, last_event-sent_on ch l)

-- Whatever calls came, and in whatever order the steps were taken: while no call holds the mutex, the
-- last event that a registered listener has taken, once its channel is empty, is the state of the
-- cache.
pub heard_current :
    {cap : ℕ → ℕ} (ch : ℕ) (z : Shared)
    → Reach cap new_shared z
    → z.mtx ≡ free
    → has z.cache.reg ch ≡ true
    → z.queue ch ≡ []
    → last_event (z.received ch) ≡ some z.cache.state
heard_current ch z r f h q =
    let k = Reach-IsAtomic z r in
    let same = sym k.agrees ∙ finished-free z f in
    let current = subst IsCurrent same (run-IsCurrent (begun r)) in
    let taken = k.delivered ch ∙ ap (λ l. z.received ch ++ l) q ∙ append-nil (z.received ch) in
    ap last_event (sym taken) ∙ last_event-sent_on ch z.cache.sent ∙ current.at ch h
