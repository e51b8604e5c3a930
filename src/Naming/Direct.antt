-- ===== src/Naming/Direct.antt =====
-- client/grpc/direct_naming.go: a watcher that reports one address, once. The goroutine that
-- `Resolve` starts, `Next` and `Close` are steps of one state.
use tiki.Base.{
  ◌≡◌, refl, Bool, true, false, List, [], ◌∷◌, ◌++◌, Option, none, some, arith, Str, codes,
  if◌then◌else◌, ◌⊎◌, inl, inr,
}
use tiki.Naming.{add, Change}

-- `waiting` tells that the value of the goroutine is in the channel, which has room for it.
pub record Watcher : Type 0 where
  pub addr : Str
  pub waiting : Bool
  pub closed : Bool
  pub updated : Bool

unfoldable pub resolve : Str → Watcher
resolve target = record { addr = target; waiting = false; closed = false; updated = false }

-- What a step gives: nothing to see, updates of Next, its error, or a panic of the channel.
pub data Outcome : Type 0 where
  silent : Outcome
  updates : List Change → Outcome
  failed : Str → Outcome
  panicked : Str → Outcome

-- `w.updateC <- 0`
unfoldable pub send : Watcher → Outcome × Watcher
send w =
    if w.closed
    then (panicked (codes "send on closed channel"), w)
    else (silent, record w { waiting = true })

-- Next with a value in the channel.
abbrev received : Watcher → Outcome × Watcher
received w = if w.updated then (updates [], w) else (
  updates (record { op = add; addr = w.addr; metadata = none } ∷ []),
  record w { updated = true },
)

-- Next: a value that was sent is received also from a closed channel; with no value and the channel
-- open, it blocks, and there is no step.
unfoldable pub next : Watcher → Option (Outcome × Watcher)
next w =
    if w.waiting
    then some (received (record w { waiting = false }))
    else if w.closed
    then some (failed (codes "closed"), w)
    else none

unfoldable pub close : Watcher → Outcome × Watcher
close w =
    if w.closed
    then (panicked (codes "close of closed channel"), w)
    else (silent, record w { closed = true })

-- A step from one state to another. Whether the goroutine has sent is part of the state.
pub data Step : Bool × Watcher → Outcome → Bool × Watcher → Type 0 where
  sends : (w w' : Watcher) (o : Outcome) → send w ≡ (o, w') → Step (false, w) o (true, w')
  nexts : (b : Bool) (w w' : Watcher) (o : Outcome) → next w ≡ some (o, w') → Step (b, w) o (b, w')
  closes : (b : Bool) (w w' : Watcher) (o : Outcome) → close w ≡ (o, w') → Step (b, w) o (b, w')

-- A run, with what it showed.
pub data Run : Bool × Watcher → List Outcome → Bool × Watcher → Type 0 where
  done : (s : Bool × Watcher) → Run s [] s
  step :
      (s t u : Bool × Watcher) (o : Outcome) (os : List Outcome)
      → Step s o t
      → Run t os u
      → Run s (o ∷ os) u

abbrev pub shown : Outcome → List Change
shown silent = []
shown (updates cs) = cs
shown (failed e) = []
shown (panicked reason) = []

-- All updates that a run returned, in order.
abbrev pub told : List Outcome → List Change
told [] = []
told (o ∷ os) = shown o ++ told os

abbrev pub added : Str → Change
added addr = record { op = add; addr = addr; metadata = none }

-- A step either shows nothing and leaves `updated` as it was, or shows the address for the first
-- time.
abbrev Shows : Watcher → Outcome → Watcher → Type 0
Shows w o w' =
    (w'.addr ≡ w.addr)
    × (((shown o ≡ []) × (w'.updated ≡ w.updated))
        ⊎ ((shown o ≡ added w.addr ∷ []) × (w.updated ≡ false) × (w'.updated ≡ true)))

send-Shows : (w w' : Watcher) (o : Outcome) → send w ≡ (o, w') → Shows w o w'
unfolding send
send-Shows w w' o e = ground arith

next-Shows : (w w' : Watcher) (o : Outcome) → next w ≡ some (o, w') → Shows w o w'
unfolding next
next-Shows w w' o e = ground arith

close-Shows : (w w' : Watcher) (o : Outcome) → close w ≡ (o, w') → Shows w o w'
unfolding close
close-Shows w w' o e = ground arith

Step-Shows : (s t : Bool × Watcher) (o : Outcome) → Step s o t → Shows s.1 o t.1
Step-Shows s t o (sends w w' x e) = send-Shows w w' x e
Step-Shows s t o (nexts b w w' x e) = next-Shows w w' x e
Step-Shows s t o (closes b w w' x e) = close-Shows w w' x e

Run-shows :
    (s u : Bool × Watcher) (os : List Outcome)
    → Run s os u
    → (told os ≡ []) ⊎ ((told os ≡ added s.1.addr ∷ []) × (s.1.updated ≡ false))
Run-shows s u os (done x) = inl refl
Run-shows s u os (step x t y o rest now later) =
    let (same, shows) = Step-Shows x t o now in
    let ih = Run-shows t y rest later in
    elim shows [ inl (nothing, kept) ↦ ground arith | inr (told_now, fresh, set) ↦ ground arith ]

-- However the goroutine, `Next` and `Close` interleave, all updates that a watcher ever returns are
-- none, or one, which adds the target.
pub Run-told :
    (target : Str) (u : Bool × Watcher) (os : List Outcome)
    → Run (false, resolve target) os u
    → (told os ≡ []) ⊎ (told os ≡ added target ∷ [])
unfolding resolve
Run-told target u os r = elim (Run-shows (false, resolve target) u os r) [
  | inl nothing ↦ inl nothing
  | inr (once, fresh) ↦ inr once
]

-- As soon as the goroutine has sent, `Next` returns the update that adds the target; after that it
-- blocks, until `Close`, and then it returns an error, again and again.
pub next-send :
    (target : Str)
    → (w : Watcher) × (next (send (resolve target)).1 ≡ some (updates (added target ∷ []), w))
      × (next w ≡ none)
      × (next (close w).1 ≡ some (failed (codes "closed"), (close w).1))
unfolding resolve send next close
next-send target =
    (record { addr = target; waiting = false; closed = false; updated = true }, refl, refl, refl)
