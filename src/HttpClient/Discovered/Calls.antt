-- ===== src/HttpClient/Discovered/Calls.antt =====
-- client/http/endpoint.go over client/sd: where a call of a client with service discovery goes.
use tiki.Base.{
  ℕ, ◌≡◌, refl, sym, ap, ◌∙◌, true, false, List, [], ◌∷◌, ◌++◌, none, some, arith, Str, codes, ok,
  All, Option-cases, inl, inr, subst, ◌<◌,
}
use tiki.Go.Maps.{Map, get, UniqueKeys, put-UniqueKeys, delete-UniqueKeys}
use tiki.Go.Members.{mem}
use tiki.Go.Strings.Laws.{Lacks}
use tiki.Lb.Weight.{weight}
use tiki.Lb.Always.{IsDraw}
use tiki.Middleware.Defs.{HttpRequest, World, Endpoint}
use tiki.Middleware.Circuit.{HystrixDo}
use tiki.Instancer.Cache.{Event}
use tiki.Instancer.Entries.{Entry, make_instances, make_tag_map}
use tiki.Instancer.Loop.{Poll, answered}
use tiki.Instancer.Loop.Channels.{IsFailure}
use tiki.Instancer.Loop.Follows.{GoesOn}
use tiki.HttpClient.Endpoint.{
  HttpDo, Chain, EndpointClient, Param, Env, body_of, blocked, factory, close, do_raw,
}
use tiki.HttpClient.Endpoint.Call.{
  IsWrapped, Change, add, drop, change, changes, change-IsWrapped, delivered, do_raw-delivered,
}
use tiki.HttpClient.Endpoint.Resolve.{resolve_host-get, resolve_host_finds}
use tiki.HttpClient.Endpoint.Stack.{InOrder, IsHealthy}
use tiki.HttpClient.Discovered.{
  Kit, IsEndpointer, connect, get_tag_map, run_loop, Discovered, receive, receive_all, events_of,
  has_endpoint,
}
use tiki.HttpClient.Discovered.Follows.{discovered_follows}

is_there :
    (c : EndpointClient) (a : Str)
    → has_endpoint c a ≡ true
    → (ep : Endpoint) × (get c.endpoint_map a ≡ some ep)
is_there c a h = elim (Option-cases (get c.endpoint_map a)) [
  | inl n ↦ absurd (ground (arith, n))
  | inr (ep, y) ↦ (ep, y)
]

there :
    (c : EndpointClient) (a : Str) (ep : Endpoint)
    → get c.endpoint_map a ≡ some ep
    → has_endpoint c a ≡ true
there c a ep h = ground (arith, h)

module _ (chain : Chain) (hystrix_do : HystrixDo) (source : Str) (http_do : HttpDo) where
  -- What service discovery keeps of a client, made with the endpoints of its stack and this method.
  record IsKept (method : Str) (c : EndpointClient) : Type 0 where
    wrapped : IsWrapped chain hystrix_do source http_do c
    unique : UniqueKeys c.endpoint_map
    same : c.method ≡ method

  change-IsKept :
      (x : Change) (method : Str) (c : EndpointClient) (w : World)
      → IsKept method c
      → IsKept method (change chain hystrix_do source http_do x (c, w)).0
  unfolding change factory close
  change-IsKept (add a) method c w k = record {
    wrapped = change-IsWrapped chain hystrix_do source http_do (add a) c w k.wrapped;
    unique = put-UniqueKeys c.endpoint_map a _ k.unique;
    same = k.same;
  }
  change-IsKept (drop a) method c w k = record {
    wrapped = change-IsWrapped chain hystrix_do source http_do (drop a) c w k.wrapped;
    unique = delete-UniqueKeys c.endpoint_map a k.unique;
    same = k.same;
  }

  changes-IsKept :
      (xs : List Change) (method : Str) (c : EndpointClient) (w : World)
      → IsKept method c
      → IsKept method (changes chain hystrix_do source http_do xs (c, w)).0
  unfolding changes
  changes-IsKept [] method c w k = k
  changes-IsKept (x ∷ xs) method c w k =
      let s = change chain hystrix_do source http_do x (c, w) in
      changes-IsKept xs method s.0 s.1 (change-IsKept x method c w k)

  module _ (kit : Kit) where
    receive_all-IsKept :
        (es : List Event) (method : Str) (d : Discovered kit)
        → IsKept method d.client
        → IsKept method (receive_all kit chain hystrix_do source http_do es d).client
    unfolding receive_all receive
    receive_all-IsKept [] method d k = k
    receive_all-IsKept (e ∷ es) method d k =
        receive_all-IsKept es method (receive kit chain hystrix_do source http_do e d)
          (changes-IsKept (kit.handle e d.cached).0 method d.client d.world k)

    new-IsKept : (c : EndpointClient) → c.endpoint_map ≡ [] → IsKept c.method c
    unfolding get
    new-IsKept c none_yet = record {
      wrapped = record {
        at = λ a ep h. absurd (is_none (sym (ap (λ (m : Map Endpoint). get m a) none_yet) ∙ h));
      };
      unique = subst UniqueKeys (sym none_yet) tt;
      same = refl;
    }
      where
        is_none : {ep : Endpoint} → none ≡ some ep → ⊥
        is_none h = cc

    -- Whatever consul answers first, and however it answers and fails before the endpointer registers
    -- its channel and after that, once it has answered with entries last and then only failed, and the
    -- endpointer has taken all events: as soon as one of those entries has an address that is not
    -- blocked, and a weight above 0 by its tags, a call goes to http://<address><uri> at the address
    -- of one of the entries that is not blocked, whatever is drawn, and returns the bytes and the
    -- status code of the response or the error of the exchange. This holds for a parameter that is
    -- marshalled, requests that are built, a healthy hystrix and a client that began without
    -- endpoints, with a method without a dash.
    pub discovered_call :
        {V : Type 0} (env : Env V) (ch : ℕ) (first : Poll) (early ps : List Poll) (es : List Entry)
        (i : ℕ) (fs : List Poll) (client : EndpointClient) (uri method : Str) (param : Param V)
        (w v : World) (body b : Str) (request : Str → HttpRequest)
        → IsEndpointer kit
        → InOrder chain
        → IsHealthy hystrix_do
        → IsDraw env.intn
        → All GoesOn early
        → All GoesOn ps
        → All IsFailure fs
        → client.endpoint_map ≡ []
        → Lacks b'-' client.method
        → body_of env.marshal param ≡ ok body
        → ((a : Str) → env.new_request method (codes "http://" ++ (a ++ uri)) body ≡ ok (request a))
        → mem (make_instances es) b ≡ true
        → blocked env.get_circuit env.roll v uri method b ≡ false
        → 0 < weight (make_tag_map es) b
        → let r = run_loop (ps ++ answered es i ∷ fs) (connect ch first early) in
          let c =
            (receive_all kit chain hystrix_do source http_do
              (events_of r)
              (record { client = client; world = w; cached = kit.empty })).client in
          (addr : Str) × (mem (make_instances es) addr ≡ true)
          × (blocked env.get_circuit env.roll v uri method addr ≡ false)
          × ((do_raw (record env { tag_map = get_tag_map r }) c uri method param v).0
              ≡ delivered (http_do (request addr)))
    discovered_call env ch first early ps es i fs client uri method param w v body b request
          documented in_order healthy draw before g f none_yet plain marshalled built member free
          heavy =
        let r = run_loop (ps ++ answered es i ∷ fs) (connect ch first early) in
        let d : Discovered kit = record { client = client; world = w; cached = kit.empty } in
        let c = (receive_all kit chain hystrix_do source http_do (events_of r) d).client in
        let (follows, tags) =
          discovered_follows chain hystrix_do source http_do kit documented ch first early ps es i
            fs client w before g f none_yet in
        let k = receive_all-IsKept (events_of r) client.method d (new-IsKept client none_yet) in
        let (ep, at_b) = is_there c b (follows b ∙ member) in
        let (x, addr, resolved) =
          resolve_host_finds env.get_circuit env.roll v env.intn (get_tag_map r) c uri method b ep
            draw k.unique at_b free (subst (λ m. 0 < weight m b) (sym tags) heavy) in
        let (y, _, at_addr, open') =
          resolve_host-get env.get_circuit env.roll v env.intn (get_tag_map r) c uri method (some x)
            addr resolved in
        (
          addr,
          sym (follows addr) ∙ there c addr y at_addr,
          open',
          ap (λ z. z.0)
              (do_raw-delivered chain hystrix_do source http_do
                (record env { tag_map = get_tag_map r }) c uri method param v body addr (some x)
                (request addr) in_order healthy (subst (Lacks b'-') (sym k.same) plain) k.wrapped
                marshalled resolved (built addr)),
        )
