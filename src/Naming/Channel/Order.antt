-- ===== src/Naming/Channel/Order.antt =====
-- client/grpc/consul_naming.go: what the watcher returns, in which order.
use tiki.Base.{
  ◌⊎◌, inl, inr, Bool-cases, ◌≤◌, ◌≡◌, refl, subst, sym, ap, ◌∙◌, Bool, true, false, List, [], ◌∷◌,
  ◌++◌, none, some, Str, arith, append_assoc, append-nil, length, length-append, drop, drop-length,
  if◌then◌else◌, ok, ok_injective,
}
use tiki.Go.Maps.{Map}
use tiki.Instancer.Cache.{eof, message}
use tiki.Instancer.Loop.{
  Poll, failed, answered, interrupted, Update, Instancer, notify, react, get_instances, round,
  new_instancer,
}
use tiki.Instancer.Loop.Follows.{
  GoesOn, published, tag_map_after, round-Followed, round_stopped, round_begun,
}
use tiki.Naming.{Change, next, make_updates}
use tiki.Naming.Follows.{watch, watch-append, follow}
use tiki.Naming.Channel.{
  capacity, Place, asking, calling, sending, returned, crashed, Watcher, place_of, place_after,
  new_consul_watcher, receive, close, Step, ask, call, call_nil, send, next_returns, closes, Reach,
  here, later,
}

-- The update that the goroutine holds.
abbrev pub in_flight : Place → List Update
in_flight asking = []
in_flight (calling u) = u ∷ []
in_flight (sending u) = u ∷ []
in_flight returned = []
in_flight (crashed u) = u ∷ []

-- The balancer after all that it was told.
abbrev pub follow_all : List (List Change) → Map Bool → Map Bool
follow_all [] m = m
follow_all (us ∷ rest) m = follow_all rest (follow us m)

-- What the listener is called with in a round that goes on.
abbrev pub update_of : Poll → Instancer → Update
update_of p s = record {
  instances = (published s.tags p).instances;
  tag_map = tag_map_after s.tags p s.tag_map;
  error = (published s.tags p).error;
}

heard_by :
    (p : Poll) (s : Instancer)
    → GoesOn p
    → s.stopped ≡ false
    → ((round p s).heard ≡ s.heard) ⊎ ((u : Update) × ((round p s).heard ≡ s.heard ++ u ∷ []))
heard_by p s g h =
    let (_, _, _, _, _, _, heard) = round-Followed p s g h in
    elim (Bool-cases s.listening) [
      | inl l ↦
          inr (
            update_of p s,
            heard ∙ ap (λ b. if b then s.heard ++ update_of p s ∷ [] else s.heard) l,
          )
      | inr l ↦ inl (heard ∙ ap (λ b. if b then s.heard ++ update_of p s ∷ [] else s.heard) l)
    ]

-- A round calls the listener at most once.
pub heard-round :
    (p : Poll) (s : Instancer)
    → ((round p s).heard ≡ s.heard) ⊎ ((u : Update) × ((round p s).heard ≡ s.heard ++ u ∷ []))
unfolding get_instances react
heard-round p s = elim (Bool-cases s.stopped) [
  | inl h ↦ inl (ap (λ (t : Instancer). t.heard) (round_stopped p s h))
  | inr h ↦
      elim p
        as (λ q.
          ((round q s).heard ≡ s.heard)
          ⊎ ((u : Update) × ((round q s).heard ≡ s.heard ++ u ∷ []))) [
            | failed eof ↦ inl (ap (λ (t : Instancer). t.heard) (round_begun (failed eof) s h))
            | failed (message m) ↦ heard_by (failed (message m)) s tt h
            | answered es i ↦ heard_by (answered es i) s tt h
            | interrupted none ↦
                inl (ap (λ (t : Instancer). t.heard) (round_begun (interrupted none) s h))
            | interrupted (some es) ↦
                inl (ap (λ (t : Instancer). t.heard) (round_begun (interrupted (some es)) s h))
          ]
]

-- What was heard is what was received, then what is in the channel, then what the goroutine holds;
-- the channel is within its capacity; the entries are those that the messages received leave, and so
-- is a balancer that follows what it was told.
pub record IsInOrder (w : Watcher) : Type 0 where
  pub order : w.instancer.heard ≡ w.received ++ (w.update_c ++ in_flight w.place)
  pub bound : length w.update_c ≤ capacity
  pub same : watch w.received (none, []) ≡ (w.entries, follow_all w.told [])

in_flight_idle : (b : Bool) → in_flight (place_of b []) ≡ []
in_flight_idle true = refl
in_flight_idle false = refl

pub place_after-heard :
    (s t : Instancer) (us : List Update)
    → t.heard ≡ s.heard ++ us
    → place_after s t ≡ place_of t.stopped us
place_after-heard s t us h =
    ap (place_of t.stopped) (ap (drop (length s.heard)) h ∙ drop-length s.heard us)

in_flight-place_after :
    (p : Poll) (s : Instancer)
    → (round p s).heard ≡ s.heard ++ in_flight (place_after s (round p s))
in_flight-place_after p s = elim (heard-round p s) [
  | inl h ↦
      let h' = h ∙ sym (append-nil s.heard) in
      h'
      ∙ ap (λ us. s.heard ++ us)
          (sym (
            ap in_flight (place_after-heard s (round p s) [] h')
            ∙ in_flight_idle (round p s).stopped))
  | inr (u, h) ↦
      h ∙ ap (λ q. s.heard ++ in_flight q) (sym (place_after-heard s (round p s) (u ∷ []) h))
]

pub order-at :
    {w : Watcher} (q : Place)
    → IsInOrder w
    → w.place ≡ q
    → w.instancer.heard ≡ w.received ++ (w.update_c ++ in_flight q)
order-at {w} q inv h = inv.order ∙ ap (λ r. w.received ++ (w.update_c ++ in_flight r)) h

order-ask :
    {w : Watcher} (p : Poll)
    → IsInOrder w
    → w.place ≡ asking
    → (round p w.instancer).heard
      ≡ w.received ++ (w.update_c ++ in_flight (place_after w.instancer (round p w.instancer)))
order-ask {w} p inv h =
    let us = in_flight (place_after w.instancer (round p w.instancer)) in
    in_flight-place_after p w.instancer
    ∙ ap (λ l. l ++ us) (order-at asking inv h)
    ∙ append_assoc w.received (w.update_c ++ []) us
    ∙ ap (λ l. w.received ++ (l ++ us)) (append-nil w.update_c)

follow_all-append :
    (xs : List (List Change)) (us : List Change) (m : Map Bool)
    → follow_all (xs ++ us ∷ []) m ≡ follow us (follow_all xs m)
follow_all-append [] us m = refl
follow_all-append (x ∷ xs) us m = follow_all-append xs us (follow x m)

same-receive :
    {w : Watcher} (u : Update) (rest : List Update)
    → IsInOrder w
    → let v = receive u rest w in watch v.received (none, []) ≡ (v.entries, follow_all v.told [])
unfolding receive next
same-receive {w} u rest inv =
    watch-append w.received (u ∷ []) (none, [])
    ∙ ap (watch (u ∷ [])) inv.same
    ∙ ap (λ m. ((make_updates u w.entries).1, m))
        (sym (follow_all-append w.told (make_updates u w.entries).0 []))

Step-IsInOrder : {v w : Watcher} → IsInOrder v → Step v w → IsInOrder w
unfolding receive close
Step-IsInOrder {v} inv (ask p h) = record {
  order = order-ask p inv h;
  bound = inv.bound;
  same = inv.same;
}
Step-IsInOrder {v} inv (call u h l) = record {
  order = order-at (calling u) inv h;
  bound = inv.bound;
  same = inv.same;
}
Step-IsInOrder {v} inv (call_nil u h l) = record {
  order = order-at (calling u) inv h;
  bound = inv.bound;
  same = inv.same;
}
Step-IsInOrder {v} inv (send u h l) = record {
  order =
      order-at (sending u) inv h
      ∙ ap (λ l. v.received ++ l) (sym (append-nil (v.update_c ++ u ∷ [])));
  bound = omega (arith, length-append v.update_c (u ∷ []), l);
  same = inv.same;
}
Step-IsInOrder {v} inv (next_returns u rest h l) = record {
  order =
      inv.order
      ∙ ap (λ l. v.received ++ (l ++ in_flight v.place)) l
      ∙ sym (append_assoc v.received (u ∷ []) (rest ++ in_flight v.place));
  bound = omega (arith, ap length l, inv.bound);
  same = same-receive u rest inv;
}
Step-IsInOrder {v} inv (closes h) = record { order = inv.order; bound = inv.bound; same = inv.same }

-- The listener is called once in newConsulWatcher.
heard-new_instancer :
    (tags : List Str) (p : Poll) → (u : Update) × ((new_instancer tags true p).heard ≡ u ∷ [])
unfolding new_instancer get_instances notify
heard-new_instancer tags (failed e) = (_, refl)
heard-new_instancer tags (answered es i) = (_, refl)
heard-new_instancer tags (interrupted none) = (_, refl)
heard-new_instancer tags (interrupted (some es)) = (_, refl)

new_consul_watcher-IsInOrder :
    (p : Poll) (w : Watcher) → new_consul_watcher none p ≡ ok w → IsInOrder w
unfolding new_consul_watcher
new_consul_watcher-IsInOrder p w h =
    let (u, heard) = heard-new_instancer [] p in
    subst IsInOrder (ok_injective h) (record {
      order = sym (append-nil (new_instancer [] true p).heard);
      bound = omega (arith, ap length heard);
      same = refl;
    })

-- From newConsulWatcher on, in every order in which the instancer's goroutine runs and Next and Close
-- are called: the updates that the listener was called with are those that Next has taken, then the
-- one in the channel, then the one that the goroutine holds, none lost and none twice; the channel
-- is within its capacity; and a balancer that did what Next returned has just the addresses that the
-- updates it took leave.
pub Reach-IsInOrder :
    (p : Poll) (v w : Watcher) → new_consul_watcher none p ≡ ok v → Reach v w → IsInOrder w
Reach-IsInOrder p v w h here = new_consul_watcher-IsInOrder p v h
Reach-IsInOrder p v w h (later {v = t} r st) = Step-IsInOrder (Reach-IsInOrder p v t h r) st
