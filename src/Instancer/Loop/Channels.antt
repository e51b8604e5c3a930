-- ===== src/Instancer/Loop/Channels.antt =====
-- client/sd/instancer/consul_instancer.go: the channels that are registered with an instancer, and what
-- they are sent while its loop runs.
use tiki.Base.{
  All, All-append, append_assoc, append-nil, ◌++◌, sym, ℕ, ◌≡◌, refl, ap, ◌∙◌, Bool, true, false,
  List, [], ◌∷◌, Option, none, some, arith, Str, ◌==◌, Bool-cases, inl, inr,
}
use tiki.Go.Maps.{Map}
use tiki.Instancer.Cache
use tiki.Instancer.Cache.{
  eof, message, Event, Cache, nil_slice, Slice, Error, new_cache, sort_slice, deep_equal, broadcast,
  update, has,
}
use tiki.Instancer.Cache.Current.{
  IsCurrent, run, run-IsCurrent, update-IsCurrent, register-IsCurrent,
}
use tiki.Instancer.Cache.Locked.Atomic.{sent_on, sent_on-append}
use tiki.Instancer.Cache.Locked.Heard.{last_event, last_event-sent_on}
use tiki.Instancer.Loop.{
  Poll, failed, answered, interrupted, Instancer, notify, react, get_instances, round, loop,
  new_instancer,
}
use tiki.Instancer.Loop.Follows.{round-Followed, round_stopped, round_begun}

-- Register and Deregister hand the channel to the cache.
unfoldable pub register : ℕ → Instancer → Instancer
register ch s = record s { cache = Cache.register ch s.cache }

unfoldable pub deregister : ℕ → Instancer → Instancer
deregister ch s = record s { cache = Cache.deregister ch s.cache }

-- GetTagMap, without a lock.
unfoldable pub get_tag_map : Instancer → Map (List Str)
get_tag_map s = s.tag_map

cache-notify : (i : Slice) (e : Option Error) (s : Instancer) → (notify i e s).cache ≡ s.cache
unfolding notify
cache-notify i e s = ground arith

-- What every update of the cache keeps, the loop keeps.
module _ (P : Cache → Type 0) (keeps : (e : Event) (c : Cache) → P c → P (update e c)) where
  react-keeps :
      (p : Poll) (s : Instancer)
      → P s.cache
      → P (react (get_instances p s).0 (get_instances p s).1).cache
  unfolding get_instances react
  react-keeps (failed eof) s h = h
  react-keeps (failed (message m)) s h =
      rw (cache-notify nil_slice (some (message m)) _) (keeps _ s.cache h)
  react-keeps (answered es i) s h = rw (cache-notify _ none _) (keeps _ s.cache h)
  react-keeps (interrupted none) s h = h
  react-keeps (interrupted (some es)) s h = h

  round-keeps : (p : Poll) (s : Instancer) → P s.cache → P (round p s).cache
  round-keeps p s h = elim (Bool-cases s.stopped) [
    | inl y ↦ rw (round_stopped p s y) h
    | inr n ↦ rw (round_begun p s n) (react-keeps p s h)
  ]

  pub loop-keeps : (ps : List Poll) (s : Instancer) → P s.cache → P (loop ps s).cache
  unfolding loop
  loop-keeps [] s h = h
  loop-keeps (p ∷ ps) s h = loop-keeps ps (round p s) (round-keeps p s h)

  pub new_instancer-keeps :
      (tags : List Str) (listening : Bool) (p : Poll)
      → P new_cache
      → P (new_instancer tags listening p).cache
  unfolding new_instancer get_instances
  new_instancer-keeps tags listening (failed e) h = rw (cache-notify _ _ _) (keeps _ new_cache h)
  new_instancer-keeps tags listening (answered es i) h =
      rw (cache-notify _ _ _) (keeps _ new_cache h)
  new_instancer-keeps tags listening (interrupted none) h =
      rw (cache-notify _ _ _) (keeps _ new_cache h)
  new_instancer-keeps tags listening (interrupted (some es)) h =
      rw (cache-notify _ _ _) (keeps _ new_cache h)

reg-update : (e : Event) (c : Cache) → (update e c).reg ≡ c.reg
unfolding update
reg-update e c =
    elim (Bool-cases (deep_equal c.state (record e { instances = sort_slice e.instances }))) [
      | inl same ↦ rw same
      | inr new ↦ rw new
    ]

has-register : (ch : ℕ) (s : Instancer) → has (register ch s).cache.reg ch ≡ true
unfolding register Cache.register
has-register ch s = ground arith

new_cache-IsCurrent : IsCurrent new_cache
unfolding run
new_cache-IsCurrent = run-IsCurrent []

-- However consul answers before and after, a channel that is registered while the loop runs was last
-- sent the state of the cache.
pub sent_last :
    (tags : List Str) (listening : Bool) (first : Poll) (early : List Poll) (ch : ℕ)
    (ps : List Poll)
    → let t = loop ps (register ch (loop early (new_instancer tags listening first))) in
      last_event (sent_on ch t.cache.sent) ≡ some t.cache.state
sent_last tags listening first early ch ps =
    let s = loop early (new_instancer tags listening first) in
    let t = loop ps (register ch s) in
    let made =
      loop-keeps IsCurrent update-IsCurrent early (new_instancer tags listening first)
        (new_instancer-keeps IsCurrent update-IsCurrent tags listening first new_cache-IsCurrent) in
    let begun : IsCurrent (register ch s).cache =
      unfold register in register-IsCurrent ch s.cache made in
    let current = loop-keeps IsCurrent update-IsCurrent ps (register ch s) begun in
    let still =
      loop-keeps (λ c. has c.reg ch ≡ true) (λ e c h. ap (λ l. has l ch) (reg-update e c) ∙ h) ps
        (register ch s) (has-register ch s) in
    last_event-sent_on ch t.cache.sent ∙ current.at ch still

abbrev pub IsError : Event → Type 0
IsError e = (x : Error) × (e.error ≡ some x)

broadcast-IsError :
    (ch : ℕ) (reg : List ℕ) (e : Event) → IsError e → All IsError (sent_on ch (broadcast reg e))
unfolding broadcast
broadcast-IsError ch [] e h = tt
broadcast-IsError ch (c ∷ reg) e h = elim (Bool-cases (c == ch)) [
  | inl y ↦ rw y (h, broadcast-IsError ch reg e h)
  | inr n ↦ rw n (broadcast-IsError ch reg e h)
]

-- What the channel is sent, only errors.
abbrev pub ErrorsSent : ℕ → Instancer → Instancer → Type 0
ErrorsSent ch s t =
    (l : List Event) × (sent_on ch t.cache.sent ≡ sent_on ch s.cache.sent ++ l) × All IsError l

sent-update :
    (ch : ℕ) (e : Event) (c : Cache)
    → IsError e
    → (l : List Event) × (sent_on ch (update e c).sent ≡ sent_on ch c.sent ++ l) × All IsError l
unfolding update
sent-update ch e c h =
    let e' : Event = record e { instances = sort_slice e.instances } in
    elim (Bool-cases (deep_equal c.state e')) [
      | inl same ↦ ([], rw same (sym (append-nil (sent_on ch c.sent))), tt)
      | inr new ↦ (
        sent_on ch (broadcast c.reg e'),
        rw new (sent_on-append ch c.sent (broadcast c.reg e')),
        broadcast-IsError ch c.reg e' h,
      )
    ]

-- A query that fails, but not with io.EOF.
abbrev pub IsFailure : Poll → Type 0
IsFailure (failed eof) = ⊥
IsFailure (failed (message m)) = Unit
IsFailure (answered es i) = ⊥
IsFailure (interrupted late) = ⊥

cache-round_failed :
    (m : Str) (s : Instancer)
    → s.stopped ≡ false
    → (round (failed (message m)) s).cache
      ≡ update (record { instances = nil_slice; error = some (message m) }) s.cache
unfolding react get_instances
cache-round_failed m s h =
    rw (round_begun (failed (message m)) s h) (cache-notify nil_slice (some (message m)) _)

-- While queries fail, a channel is sent errors only, and the tag map stays as it is.
pub loop_failed :
    (ch : ℕ) (ps : List Poll) (s : Instancer)
    → All IsFailure ps
    → s.stopped ≡ false
    → ErrorsSent ch s (loop ps s) × ((loop ps s).tag_map ≡ s.tag_map)
unfolding loop
loop_failed ch [] s f h = (([], sym (append-nil (sent_on ch s.cache.sent)), tt), refl)
loop_failed ch (failed eof ∷ ps) s f h = absurd f.0
loop_failed ch (answered es i ∷ ps) s f h = absurd f.0
loop_failed ch (interrupted late ∷ ps) s f h = absurd f.0
loop_failed ch (failed (message m) ∷ ps) s f h =
    let t = round (failed (message m)) s in
    let (_, tags, _, _, running, _, _) = round-Followed (failed (message m)) s tt h in
    let ((l, sent, errors), kept) = loop_failed ch ps t f.1 running in
    let e : Event = record { instances = nil_slice; error = some (message m) } in
    let (k, now, error) = sent-update ch e s.cache (message m, refl) in
    let here = ap (λ (c : Cache). sent_on ch c.sent) (cache-round_failed m s h) ∙ now in
    (
      (
        k ++ l,
        sent ∙ ap (λ (x : List Event). x ++ l) here ∙ append_assoc (sent_on ch s.cache.sent) k l,
        All-append IsError k l error errors,
      ),
      kept ∙ tags,
    )
