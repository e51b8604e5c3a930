-- ===== src/Naming/Channel/Sound.antt =====
-- client/grpc/consul_naming.go: the goroutine of the instancer goes on, and with a listener it does not crash.
use tiki.Base.{
  ok_injective, ◌≡◌, refl, subst, sym, ap, ◌∙◌, Bool, true, false, List, [], ◌∷◌, none, some, arith,
  append-nil, ok, inl, inr,
}
use tiki.Instancer.Cache.{eof, message}
use tiki.Instancer.Loop.{
  Poll, failed, answered, interrupted, Update, Instancer, round, get_instances, react,
}
use tiki.Instancer.Loop.Follows.{new_instancer_lem, round_begun, GoesOn, round-Followed}
use tiki.Naming.Channel.{
  Place, asking, calling, sending, returned, crashed, is_crashed, Watcher, place_after, place_of,
  new_consul_watcher, receive, close, Step, ask, call, call_nil, send, next_returns, closes, Reach,
  here, later,
}
use tiki.Naming.Channel.Order.{heard-round, place_after-heard}

abbrev pub is_returned : Place → Bool
is_returned asking = false
is_returned (calling u) = false
is_returned (sending u) = false
is_returned returned = true
is_returned (crashed u) = false

-- The instancer has no tags, its goroutine is back just when the loop has ended, and while there is a
-- listener the process has not crashed.
pub record IsSound (w : Watcher) : Type 0 where
  pub tags : w.instancer.tags ≡ []
  pub ended : is_returned w.place ≡ w.instancer.stopped
  pub alive : w.instancer.listening ≡ true → is_crashed w.place ≡ false

crashes-place_of : (b : Bool) (us : List Update) → is_crashed (place_of b us) ≡ false
crashes-place_of true [] = refl
crashes-place_of false [] = refl
crashes-place_of b (u ∷ us) = refl

returns-place_of : (b : Bool) → is_returned (place_of b []) ≡ b
returns-place_of true = refl
returns-place_of false = refl

-- What a round from a loop that goes on leaves: the tags, the listener, and the place.
abbrev Kept : Poll → Instancer → Type 0
Kept p s =
    let t = round p s in
    (t.tags ≡ s.tags) × (t.listening ≡ s.listening) × (is_returned (place_after s t) ≡ t.stopped)

place-quiet : (s t : Instancer) → t.heard ≡ s.heard → is_returned (place_after s t) ≡ t.stopped
place-quiet s t h =
    ap is_returned (place_after-heard s t [] (h ∙ sym (append-nil s.heard)))
    ∙ returns-place_of t.stopped

Kept-going : (p : Poll) (s : Instancer) → GoesOn p → s.stopped ≡ false → Kept p s
Kept-going p s g h =
    let (_, _, _, tags, running, listens, _) = round-Followed p s g h in
    (
      tags,
      listens,
      elim (heard-round p s) [
        | inl quiet ↦ place-quiet s (round p s) quiet
        | inr (u, called) ↦
            ap is_returned (place_after-heard s (round p s) (u ∷ []) called) ∙ sym running
      ],
    )

Kept-ended :
    (p : Poll) (s : Instancer)
    → s.stopped ≡ false
    → let t = react (get_instances p s).0 (get_instances p s).1 in
      (t.tags ≡ s.tags) × (t.listening ≡ s.listening) × (t.heard ≡ s.heard) → Kept p s
Kept-ended p s h (tags, listens, quiet) =
    let same = round_begun p s h in
    (
      ap (λ (t : Instancer). t.tags) same ∙ tags,
      ap (λ (t : Instancer). t.listening) same ∙ listens,
      place-quiet s (round p s) (ap (λ (t : Instancer). t.heard) same ∙ quiet),
    )

round-Kept : (p : Poll) (s : Instancer) → s.stopped ≡ false → Kept p s
unfolding get_instances react
round-Kept (failed eof) s h = Kept-ended (failed eof) s h (refl, refl, refl)
round-Kept (failed (message m)) s h = Kept-going (failed (message m)) s tt h
round-Kept (answered es i) s h = Kept-going (answered es i) s tt h
round-Kept (interrupted none) s h = Kept-ended (interrupted none) s h (refl, refl, refl)
round-Kept (interrupted (some es)) s h = Kept-ended (interrupted (some es)) s h (refl, refl, refl)

Step-IsSound : {v w : Watcher} → IsSound v → Step v w → IsSound w
unfolding receive close
Step-IsSound {v} inv (ask p h) =
    let (tags, listens, back) = round-Kept p v.instancer (sym inv.ended ∙ ap is_returned h) in
    record { tags = tags ∙ inv.tags; ended = back; alive = λ l. crashes-place_of _ _ }
Step-IsSound {v} inv (call u h l) = record {
  tags = inv.tags;
  ended = sym (ap is_returned h) ∙ inv.ended;
  alive = λ l. refl;
}
Step-IsSound {v} inv (call_nil u h l) = record {
  tags = inv.tags;
  ended = sym (ap is_returned h) ∙ inv.ended;
  alive = λ l'. ground arith;
}
Step-IsSound {v} inv (send u h l) = record {
  tags = inv.tags;
  ended = sym (ap is_returned h) ∙ inv.ended;
  alive = λ l. refl;
}
Step-IsSound {v} inv (next_returns u rest h l) = record {
  tags = inv.tags;
  ended = inv.ended;
  alive = inv.alive;
}
Step-IsSound {v} inv (closes h) = record { tags = inv.tags; ended = inv.ended; alive = λ l. h }

pub Reach-IsSound :
    (p : Poll) (v w : Watcher) → new_consul_watcher none p ≡ ok v → Reach v w → IsSound w
unfolding new_consul_watcher
Reach-IsSound p v w h here =
    let (running, tags, listens) = new_instancer_lem [] true p in
    subst IsSound (ok_injective h) (record { tags = tags; ended = sym running; alive = λ l. refl })
Reach-IsSound p v w h (later {v = t} r st) = Step-IsSound (Reach-IsSound p v t h r) st
