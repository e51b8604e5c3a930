-- ===== src/Naming/Channel/Delivery.antt =====
-- client/grpc/consul_naming.go: the steps by which an answer of consul reaches the balancer.
use tiki.Base.{
  ℕ, ◌≡◌, refl, sym, ap, ◌∙◌, Bool, true, false, List, [], ◌∷◌, ◌++◌, Option, none, Str, arith,
  append-nil, length, if◌then◌else◌, ok,
}
use tiki.Go.Members.{mem, mem-sort}
use tiki.Go.Maps.{Map}
use tiki.Go.Sort.{sort_strings}
use tiki.Instancer.Cache.{slice}
use tiki.Instancer.Entries.{Entry, wanted, make_instances}
use tiki.Instancer.Loop.{Poll, answered, Update, Instancer, round}
use tiki.Instancer.Loop.Follows.{published, round-Followed}
use tiki.Naming.{members}
use tiki.Naming.Follows.{known, watch, watch-instances}
use tiki.Naming.Channel.{
  Place, asking, calling, sending, returned, crashed, is_crashed, Watcher, place_after,
  new_consul_watcher, receive, ask, call, send, next_returns, Reach, here, later,
}
use tiki.Naming.Channel.Sound.{is_returned, Reach-IsSound}
use tiki.Naming.Channel.Order.{
  follow_all, update_of, place_after-heard, IsInOrder, Reach-IsInOrder, order-at,
}

Reach-trans : {w v u : Watcher} → Reach w v → Reach v u → Reach w u
Reach-trans r here = r
Reach-trans r (later q st) = later (Reach-trans r q) st

-- The steps go on to where the goroutine asks and the channel is empty.
abbrev Settles : Watcher → Type 0
Settles w =
    (z : Watcher) × Reach w z × (z.instancer ≡ w.instancer) × (z.place ≡ asking) × (z.update_c ≡ [])

-- Next empties the channel.
drain :
    (l : List Update) (w : Watcher)
    → w.update_c ≡ l
    → is_crashed w.place ≡ false
    → (z : Watcher) × Reach w z
      × (z.instancer ≡ w.instancer)
      × (z.place ≡ w.place)
      × (z.update_c ≡ [])
unfolding receive
drain [] w h alive = (w, here, refl, refl, h)
drain (u ∷ rest) w h alive =
    let (z, r, same, place, empty) = drain rest (receive u rest w) refl alive in
    (z, Reach-trans (later here (next_returns u rest alive h)) r, same, place, empty)

-- Behind the send, an update is in the empty channel, and Next takes it.
send-Settles : (u : Update) (w : Watcher) → w.place ≡ sending u → w.update_c ≡ [] → Settles w
send-Settles u w h empty =
    let v : Watcher = record w { place = asking; update_c = w.update_c ++ u ∷ [] } in
    let (z, r, same, place, done) = drain v.update_c v refl refl in
    (z, Reach-trans (later here (send u h (omega (arith, ap length empty)))) r, same, place, done)

settle_at :
    (q : Place) (w : Watcher)
    → w.place ≡ q
    → w.update_c ≡ []
    → w.instancer.listening ≡ true
    → is_returned q ≡ false
    → is_crashed q ≡ false
    → Settles w
settle_at asking w h empty l on alive = (w, here, refl, h, empty)
settle_at (calling u) w h empty l on alive =
    let (z, r, same, place, done) = send-Settles u (record w { place = sending u }) refl empty in
    (z, Reach-trans (later here (call u h l)) r, same, place, done)
settle_at (sending u) w h empty l on alive = send-Settles u w h empty
settle_at returned w h empty l on alive = ground arith
settle_at (crashed u) w h empty l on alive = ground arith

-- While there is a listener and the loop goes on, the goroutine comes back to the query with the
-- channel empty.
settle :
    (w : Watcher)
    → w.instancer.listening ≡ true
    → is_returned w.place ≡ false
    → is_crashed w.place ≡ false
    → Settles w
settle w l on alive =
    let (v, r, same, place, empty) = drain w.update_c w refl alive in
    let (z, q, same', asks, done) =
      settle_at w.place v place empty (ap (λ (s : Instancer). s.listening) same ∙ l) on alive in
    (z, Reach-trans r q, same' ∙ same, asks, done)

-- The goroutine asks, consul answers, and the listener is called.
answer_called :
    (es : List Entry) (i : ℕ) (s : Instancer)
    → s.stopped ≡ false
    → s.listening ≡ true
    → let p = answered es i in
      let t = round p s in
      (t.heard ≡ s.heard ++ update_of p s ∷ [])
      × (place_after s t ≡ calling (update_of p s))
      × (t.listening ≡ true)
answer_called es i s h l =
    let p = answered es i in
    let (_, _, _, _, _, listens, heard) = round-Followed p s tt h in
    let called = heard ∙ ap (λ b. if b then s.heard ++ update_of p s ∷ [] else s.heard) l in
    (called, place_after-heard s (round p s) (update_of p s ∷ []) called, listens ∙ l)

-- With nothing left, a balancer knows the instances of the last update.
settled_knows :
    (z : Watcher) (before : List Update) (u : Update) (is : List Str) (a : Str)
    → IsInOrder z
    → z.place ≡ asking
    → z.update_c ≡ []
    → z.instancer.heard ≡ before ++ u ∷ []
    → u.error ≡ none
    → u.instances ≡ slice (sort_strings is)
    → known (follow_all z.told []) a ≡ mem is a
settled_knows z before u is a inv asks done heard fine all =
    let received =
      ap (λ l. z.received ++ (l ++ [])) (sym done) ∙ sym (order-at asking inv asks) ∙ heard in
    ap (λ (s : Option (Map Bool) × Map Bool). known s.1 a) (sym inv.same)
    ∙ ap (λ l. known (watch l (none, [])).1 a) (sym (append-nil z.received) ∙ received)
    ∙ watch-instances before [] u a fine tt
    ∙ ap (λ l. mem (members l) a) all
    ∙ mem-sort is a

-- In whatever order the goroutine of the instancer has run and Next has been called until now, as long
-- as the loop has not ended and Close was not called, there are steps that go on from here to a
-- further answer of consul and on to where the goroutine asks again, nothing is left in the channel,
-- the cache of the instancer holds that answer, and a balancer that did what Next returned has just
-- the addresses of its entries.
pub Reach-delivers :
    (p : Poll) (v w : Watcher) (es : List Entry) (i : ℕ)
    → new_consul_watcher none p ≡ ok v
    → Reach v w
    → w.instancer.stopped ≡ false
    → w.instancer.listening ≡ true
    → (z : Watcher) × Reach w z
      × (z.place ≡ asking)
      × (z.update_c ≡ [])
      × (z.instancer.cache.state ≡ published [] (answered es i))
      × ((a : Str) → known (follow_all z.told []) a ≡ mem (make_instances (wanted [] es)) a)
Reach-delivers p v w es i made r runs l =
    let sound = Reach-IsSound p v w made r in
    let (x, to_x, same_x, asks_x, _) = settle w l (sound.ended ∙ runs) (sound.alive l) in
    let running = ap (λ (s : Instancer). s.stopped) same_x ∙ runs in
    let listening = ap (λ (s : Instancer). s.listening) same_x ∙ l in
    let (heard, calls, listens) = answer_called es i x.instancer running listening in
    let (state, _, _, _, _, _, _) = round-Followed (answered es i) x.instancer tt running in
    let t = round (answered es i) x.instancer in
    let y : Watcher = record x { instancer = t; place = place_after x.instancer t } in
    let (z, to_z, same_z, asks, done) =
      settle y listens (ap is_returned calls) (ap is_crashed calls) in
    let on = Reach-trans (later to_x (ask (answered es i) asks_x)) to_z in
    let inv = Reach-IsInOrder p v z made (Reach-trans r on) in
    let tags = ap (λ (s : Instancer). s.tags) same_x ∙ sound.tags in
    (
      z,
      on,
      asks,
      done,
      ap (λ (s : Instancer). s.cache.state) same_z
          ∙ state
          ∙ ap (λ ts. published ts (answered es i)) tags,
      λ a.
          settled_knows z x.instancer.heard (update_of (answered es i) x.instancer)
            (make_instances (wanted [] es)) a inv asks done
            (ap (λ (s : Instancer). s.heard) same_z ∙ heard) refl
            (ap (λ ts. slice (sort_strings (make_instances (wanted ts es)))) tags),
    )
