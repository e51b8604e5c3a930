-- ===== src/Instancer/Loop/Backoff.antt =====
-- client/sd/instancer/consul_instancer.go: the wait between failed queries.
use native.Mathlib.Nat.{pow-succ', mul_assoc}
use tiki.Base.{
  ℕ, zero, suc, ◌*◌, ◌%◌, ◌^◌, ◌≤◌, ◌<◌, ◌≡◌, sym, ap, ◌∙◌, subst, false, List, [], ◌∷◌, ◌++◌,
  arith, All, length, append_assoc, append-nil,
}
use tiki.Instancer.Cache.{eof, message}
use tiki.Instancer.Entries.{Entry}
use tiki.Instancer.Loop.{Poll, failed, answered, interrupted, Instancer, round, loop, min_delay}

abbrev pub IsFailure : Poll → Type 0
IsFailure (failed eof) = ⊥
IsFailure (failed (message m)) = Unit
IsFailure (answered es i) = ⊥
IsFailure (interrupted late) = ⊥

-- d, 2 d, 4 d, …
abbrev pub doubling : ℕ → ℕ → List ℕ
doubling d zero = []
doubling d (suc n) = d ∷ doubling (d * 2) n

round_failed :
    (p : Poll) (s : Instancer)
    → IsFailure p
    → s.stopped ≡ false
    → ((round p s).delay ≡ s.delay * 2 % 2 ^ 64)
      × ((round p s).slept ≡ s.slept ++ s.delay ∷ [])
      × ((round p s).stopped ≡ false)
unfolding round
round_failed (failed eof) s f h = absurd f
round_failed (failed (message m)) s f h = rw h (ground arith)
round_failed (answered es i) s f h = absurd f
round_failed (interrupted late) s f h = absurd f

twice : (d n : ℕ) → d * 2 ^ suc n ≡ d * 2 * 2 ^ n
twice d n = ap (λ x. d * x) (pow-succ' 2 n) ∙ sym (mul_assoc d 2 (2 ^ n))

le-doubled : (d n : ℕ) → d ≤ d * 2 ^ n
le-doubled d zero = omega arith
le-doubled d (suc n) =
    let below = le-doubled (d * 2) n in subst (λ x. d ≤ x) (sym (twice d n)) (omega arith)

unwrapped : (d n : ℕ) → d * 2 * 2 ^ n < 2 ^ 63 → d * 2 % 2 ^ 64 ≡ d * 2
unwrapped d n h = let below = le-doubled (d * 2) n in omega arith

-- Through a run of failures the loop sleeps twice as long each time, and then waits as long as the
-- first wait doubled for each failure, as long as that fits an int64.
pub loop-failures :
    (ps : List Poll) (s : Instancer)
    → All IsFailure ps
    → s.stopped ≡ false
    → s.delay * 2 ^ length ps < 2 ^ 63
    → ((loop ps s).delay ≡ s.delay * 2 ^ length ps)
      × ((loop ps s).slept ≡ s.slept ++ doubling s.delay (length ps))
      × ((loop ps s).stopped ≡ false)
unfolding loop
loop-failures [] s f h fits = (omega arith, sym (append-nil s.slept), h)
loop-failures (p ∷ ps) s f h fits =
    let (delay, slept, running) = round_failed p s f.0 h in
    let fits' : s.delay * 2 * 2 ^ length ps < 2 ^ 63 =
      subst (λ x. x < 2 ^ 63) (twice s.delay (length ps)) fits in
    let doubled = delay ∙ unwrapped s.delay (length ps) fits' in
    let (delays, sleeps, runs) =
      loop-failures ps (round p s) f.1 running
        (subst (λ x. x * 2 ^ length ps < 2 ^ 63) (sym doubled) fits') in
    (
      delays ∙ ap (λ x. x * 2 ^ length ps) doubled ∙ sym (twice s.delay (length ps)),
      sleeps
          ∙ ap (λ x. x ++ doubling (round p s).delay (length ps)) slept
          ∙ ap (λ d. (s.slept ++ s.delay ∷ []) ++ doubling d (length ps)) doubled
          ∙ append_assoc s.slept (s.delay ∷ []) (doubling (s.delay * 2) (length ps)),
      runs,
    )

-- An answer sets the wait back to ten milliseconds.
pub delay-answered :
    (es : List Entry) (i : ℕ) (s : Instancer)
    → s.stopped ≡ false
    → ((round (answered es i) s).delay ≡ min_delay) × ((round (answered es i) s).slept ≡ s.slept)
unfolding round
delay-answered es i s h = rw h (ground arith)
