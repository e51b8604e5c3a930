-- ===== src/HttpClient/Discovered/Follows.antt =====
-- client/http/endpoint.go over client/sd: the endpoints that a client has follow what consul answers.
use tiki.Base.{
  ℕ, ◌≡◌, refl, sym, ap, ◌∙◌, Bool, true, false, List, [], ◌∷◌, ◌++◌, Option, none, some, arith,
  Str, str_eq, if◌then◌else◌, All, All-append, append_assoc,
}
use tiki.Go.Maps.{Map, get, put, delete, get-put, get-delete}
use tiki.Go.Members.{mem, mem-sort}
use tiki.Middleware.Defs.{World, Endpoint}
use tiki.Go.Sort.{sort_strings}
use tiki.Middleware.Circuit.{HystrixDo}
use tiki.Instancer.Cache.{slice, Event}
use tiki.Instancer.Cache.Locked.Heard.{last_event}
use tiki.Instancer.Entries.{Entry, make_instances, make_tag_map, wanted}
use tiki.Instancer.Cache.Locked.Atomic.{sent_on}
use tiki.Instancer.Loop.{Poll, Instancer, new_instancer, answered, loop}
use tiki.Instancer.Loop.Channels
use tiki.Instancer.Loop.Channels.{IsError, IsFailure, register, sent_last, loop_failed}
use tiki.Instancer.Loop.Follows.{
  GoesOn, loop-answered, loop_running, loop-append, new_instancer_lem,
}
use tiki.HttpClient.Endpoint.{HttpDo, Chain, EndpointClient, factory, close}
use tiki.HttpClient.Endpoint.Call.{Change, add, drop, change, changes}
use tiki.HttpClient.Discovered.{
  Kit, members, after, IsEndpointer, connect, get_tag_map, run_loop, Discovered, receive,
  receive_all, events_of, has_endpoint,
}

is_some {ℓ} : {A : Type ℓ} → Option A → Bool
is_some none = false
is_some (some a) = true

present-put :
    (m : Map Endpoint) (k j : Str) (v : Endpoint)
    → is_some (get (put m k v) j) ≡ (if str_eq k j then true else is_some (get m j))
unfolding is_some
present-put m k j v = ap is_some (get-put m k j v) ∙ pushed (str_eq k j)
  where
    pushed :
        (b : Bool)
        → is_some (if b then some v else get m j) ≡ (if b then true else is_some (get m j))
    pushed true = refl
    pushed false = refl

present-delete :
    (m : Map Endpoint) (k j : Str)
    → is_some (get (delete m k) j) ≡ (if str_eq k j then false else is_some (get m j))
unfolding is_some
present-delete m k j = ap is_some (get-delete m k j) ∙ pushed (str_eq k j)
  where
    pushed :
        (b : Bool)
        → is_some (if b then none else get m j) ≡ (if b then false else is_some (get m j))
    pushed true = refl
    pushed false = refl

last_event-cons : (x y : Event) (es : List Event) → last_event (x ∷ y ∷ es) ≡ last_event (y ∷ es)
last_event-cons x y es = ground arith

has_none : (c : EndpointClient) (a : Str) → c.endpoint_map ≡ [] → has_endpoint c a ≡ false
unfolding get
has_none c a h = ap (λ (m : Map Endpoint). is_some_of m) h
  where
    is_some_of : Map Endpoint → Bool
    is_some_of m = elim (get m a) [ none ↦ false | some ep ↦ true ]

-- The instancer of a consul endpointer, after an answer and failures behind it.
answered_then_failed :
    (ch : ℕ) (first : Poll) (early ps : List Poll) (es : List Entry) (i : ℕ) (fs : List Poll)
    → All GoesOn early
    → All GoesOn ps
    → All IsFailure fs
    → let s = register ch (loop early (new_instancer [] false first)) in
      let m = loop (ps ++ answered es i ∷ []) s in
      let t = loop (ps ++ answered es i ∷ fs) s in
      (m.cache.state.instances ≡ slice (sort_strings (make_instances es)))
      × (m.cache.state.error ≡ none)
      × (t.tag_map ≡ make_tag_map es)
      × (l : List Event) × (sent_on ch t.cache.sent ≡ sent_on ch m.cache.sent ++ l)
      × All IsError l
unfolding register wanted
answered_then_failed ch first early ps es i fs before g f =
    let s = register ch (loop early (new_instancer [] false first)) in
    let m = loop (ps ++ answered es i ∷ []) s in
    let (begun, no_tags, _) = new_instancer_lem [] false first in
    let (running, same_tags, _) = loop_running early (new_instancer [] false first) before begun in
    let tags = same_tags ∙ no_tags in
    let (instances, error, tag_map, _) = loop-answered ps es i s g running in
    let (still, _, _) =
      loop_running (ps ++ answered es i ∷ []) s
        (All-append GoesOn ps (answered es i ∷ []) g (tt, tt)) running in
    let ((l, sent, errors), kept) = loop_failed ch fs m f still in
    let split : loop (ps ++ answered es i ∷ fs) s ≡ loop fs m =
      ap (λ l. loop l s) (sym (append_assoc ps (answered es i ∷ []) fs))
      ∙ loop-append (ps ++ answered es i ∷ []) fs s in
    (
      instances ∙ ap (λ ts. slice (sort_strings (make_instances (wanted ts es)))) tags,
      error,
      ap (λ (x : Instancer). x.tag_map) split
          ∙ kept
          ∙ tag_map
          ∙ ap (λ ts. make_tag_map (wanted ts es)) tags,
      l,
      ap (λ (x : Instancer). sent_on ch x.cache.sent) split ∙ sent,
      errors,
    )

module _ (chain : Chain) (hystrix_do : HystrixDo) (source : Str) (http_do : HttpDo) where
  -- The client has an endpoint for what the factory made and no closer closed.
  has_endpoint-changes :
      (xs : List Change) (c : EndpointClient) (w : World) (a : Str)
      → has_endpoint (changes chain hystrix_do source http_do xs (c, w)).0 a
        ≡ after xs a (has_endpoint c a)
  unfolding changes change factory close is_some
  has_endpoint-changes [] c w a = refl
  has_endpoint-changes (add x ∷ xs) c w a =
      has_endpoint-changes xs _ w a ∙ ap (after xs a) (present-put c.endpoint_map x a _)
  has_endpoint-changes (drop x ∷ xs) c w a =
      has_endpoint-changes xs _ _ a ∙ ap (after xs a) (present-delete c.endpoint_map x a)

  module _ (kit : Kit) (documented : IsEndpointer kit) where
    -- The client has an endpoint for just the instances that go-kit's endpointer holds.
    pub record Agrees (d : Discovered kit) : Type 0 where
      pub at : (a : Str) → has_endpoint d.client a ≡ kit.holds d.cached a

    receive-Agrees :
        (e : Event) (d : Discovered kit)
        → Agrees d
        → Agrees (receive kit chain hystrix_do source http_do e d)
    unfolding receive
    receive-Agrees e d h = record {
      at = λ a.
          has_endpoint-changes (kit.handle e d.cached).0 d.client d.world a
          ∙ ap (after (kit.handle e d.cached).0 a) (h.at a)
          ∙ sym (documented.made e d.cached a);
    }

    -- Whatever events come, the client has an endpoint for just the instances that go-kit's endpointer
    -- holds, if it had.
    pub receive_all-Agrees :
        (es : List Event) (d : Discovered kit)
        → Agrees d
        → Agrees (receive_all kit chain hystrix_do source http_do es d)
    unfolding receive_all
    receive_all-Agrees [] d h = h
    receive_all-Agrees (e ∷ es) d h = receive_all-Agrees es _ (receive-Agrees e d h)

    -- After events of which the last has no error it holds the instances of the last.
    holds-receive_all :
        (es : List Event) (d : Discovered kit) (e : Event) (a : Str)
        → last_event es ≡ some e
        → e.error ≡ none
        → kit.holds (receive_all kit chain hystrix_do source http_do es d).cached a
          ≡ mem (members e.instances) a
    unfolding receive_all receive
    holds-receive_all [] d e a l n = cc
    holds-receive_all (x ∷ []) d e a l n =
        let same : x ≡ e = cc in
        documented.follows x d.cached a (ap (λ (y : Event). y.error) same ∙ n)
        ∙ ap (λ (y : Event). mem (members y.instances) a) same
    holds-receive_all (x ∷ y ∷ es) d e a l n =
        holds-receive_all (y ∷ es) _ e a (sym (last_event-cons x y es) ∙ l) n

    receive_errors :
        (es : List Event) (d : Discovered kit)
        → All IsError es
        → receive_all kit chain hystrix_do source http_do es d ≡ d
    unfolding receive_all receive changes
    receive_errors [] d h = refl
    receive_errors (e ∷ es) d (h, rest) =
        ap (receive_all kit chain hystrix_do source http_do es)
          (nothing (kit.handle e d.cached) (documented.error_kept e h.0 d.cached h.1))
        ∙ receive_errors es d rest
      where
        nothing :
            (r : List Change × kit.Cached)
            → r ≡ ([], d.cached)
            → (let (c, w) = changes chain hystrix_do source http_do r.0 (d.client, d.world) in
                let x : Discovered kit = record { client = c; world = w; cached = r.1 } in x)
              ≡ d
        nothing r h = rw h

    receive_all-append :
        (xs ys : List Event) (d : Discovered kit)
        → receive_all kit chain hystrix_do source http_do (xs ++ ys) d
          ≡ receive_all kit chain hystrix_do source http_do ys
              (receive_all kit chain hystrix_do source http_do xs d)
    unfolding receive_all
    receive_all-append [] ys d = refl
    receive_all-append (x ∷ xs) ys d = receive_all-append xs ys _

    -- Whatever consul answers first, and however it answers and fails before the endpointer registers
    -- its channel and after that, once it has answered with entries last and then only failed, a
    -- client that began without endpoints has, when its endpointer has taken all events, an endpoint
    -- for exactly the addresses of those entries, and the tags of the endpointer are those of the
    -- entries.
    pub discovered_follows :
        (ch : ℕ) (first : Poll) (early ps : List Poll) (es : List Entry) (i : ℕ) (fs : List Poll)
        (client : EndpointClient) (w : World)
        → All GoesOn early
        → All GoesOn ps
        → All IsFailure fs
        → client.endpoint_map ≡ []
        → let r = run_loop (ps ++ answered es i ∷ fs) (connect ch first early) in
          let d =
            receive_all kit chain hystrix_do source http_do
              (events_of r)
              (record { client = client; world = w; cached = kit.empty }) in
          ((a : Str) → has_endpoint d.client a ≡ mem (make_instances es) a)
          × (get_tag_map r ≡ make_tag_map es)
    unfolding run_loop connect get_tag_map Channels.get_tag_map
    discovered_follows ch first early ps es i fs client w before g f none_yet =
        let s = register ch (loop early (new_instancer [] false first)) in
        let m = loop (ps ++ answered es i ∷ []) s in
        let d : Discovered kit = record { client = client; world = w; cached = kit.empty } in
        let (instances, error, tag_map, l, sent, errors) =
          answered_then_failed ch first early ps es i fs before g f in
        let all = receive_all kit chain hystrix_do source http_do in
        let same =
          ap (λ evs. all evs d) sent
          ∙ receive_all-append (sent_on ch m.cache.sent) l d
          ∙ receive_errors l (all (sent_on ch m.cache.sent) d) errors in
        let begun : Agrees d = record {
          at = λ a. has_none client a none_yet ∙ sym (documented.none_yet a);
        } in
        (
          λ a.
              ap (λ (x : Discovered kit). has_endpoint x.client a) same
              ∙ (receive_all-Agrees (sent_on ch m.cache.sent) d begun).at a
              ∙ holds-receive_all (sent_on ch m.cache.sent) d m.cache.state a
                  (sent_last [] false first early ch (ps ++ answered es i ∷ [])) error
              ∙ ap (λ x. mem (members x) a) instances
              ∙ mem-sort (make_instances es) a,
          tag_map,
        )
