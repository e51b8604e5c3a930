-- ===== src/HttpClient/Endpoint/Call.antt =====
-- client/http/endpoint.go: a call from its parameter to its result.
use tiki.Base.{
  ◌≡◌, refl, ap, ◌∙◌, inl, inr, List, [], ◌∷◌, ◌++◌, Option, some, arith, Str, codes, Result, ok,
  err, panic, ℤ,
}
use tiki.Go.Maps.{get, get-put_cases, get-delete-some}
use tiki.Go.Strings.Laws.{Lacks}
use tiki.Middleware.Defs.{HttpRequest, http, nil_dereference, Reply, World, Endpoint}
use tiki.Middleware.Circuit.{HystrixDo, config_cmd, dash, endpoint_key}
use tiki.HttpClient.Names.{normal, command_name}
use tiki.HttpClient.Endpoint.{
  Response, no_body, unreadable, content, HttpDo, create_endpoint, Chain, EndpointClient, wrap,
  factory, close, Param, Env, body_of, decode, resolve_host, do_raw,
}
use tiki.HttpClient.Endpoint.Resolve.{resolve_host-get}
use tiki.HttpClient.Endpoint.Stack.{InOrder, IsHealthy, outcome, recorded, wrap-http}

-- What service discovery does to a client: it adds an address or drops one.
pub data Change : Type 0 where
  add : Str → Change
  drop : Str → Change

module _ (chain : Chain) (hystrix_do : HystrixDo) (source : Str) (http_do : HttpDo) where
  -- The middleware was made when the client was initialised, from fields that never change.
  unfoldable pub change : Change → EndpointClient × World → EndpointClient × World
  change (add addr) (c, w) = (factory (wrap chain hystrix_do source c) http_do addr c, w)
  change (drop addr) (c, w) = close addr c w

  unfoldable pub changes : List Change → EndpointClient × World → EndpointClient × World
  unfolding change
  changes [] s = s
  changes (x ∷ xs) s = changes xs (change x s)

  -- Every endpoint of the client is a bare HTTP call behind the stack of the client.
  pub record IsWrapped (c : EndpointClient) : Type 0 where
    pub at :
        (addr : Str) (ep : Endpoint)
        → get c.endpoint_map addr ≡ some ep
        → ep ≡ wrap chain hystrix_do source c (create_endpoint http_do)

  pub change-IsWrapped :
      (x : Change) (c : EndpointClient) (w : World) → IsWrapped c → IsWrapped (change x (c, w)).0
  unfolding change factory close wrap
  change-IsWrapped (add addr) c w h = record {
    at = λ a ep e. elim (get-put_cases c.endpoint_map addr a _ ep e) [
      | inl new ↦ new
      | inr old ↦ h.at a ep old
    ];
  }
  change-IsWrapped (drop addr) c w h = record {
    at = λ a ep e. h.at a ep (get-delete-some c.endpoint_map addr a ep e);
  }

  -- Whatever addresses service discovery adds and drops, every endpoint of the client stays a bare
  -- HTTP call behind the stack of the client.
  pub changes-IsWrapped :
      (xs : List Change) (c : EndpointClient) (w : World)
      → IsWrapped c
      → IsWrapped (changes xs (c, w)).0
  unfolding changes
  changes-IsWrapped [] c w h = h
  changes-IsWrapped (x ∷ xs) c w h =
      let s = change x (c, w) in changes-IsWrapped xs s.0 s.1 (change-IsWrapped x c w h)

-- The result of a call for the outcome of its HTTP exchange.
abbrev pub delivered : Result Response → Result (Str × ℤ)
delivered (ok r) = elim r.body [
  | no_body ↦ err (codes "resp body empty")
  | unreadable e ↦ err e
  | content c ↦ ok (c, r.status_code)
]
delivered (err e) = err e
delivered panic = err (codes "panic error: " ++ nil_dereference)

decode-outcome : (x : Result Response) → decode (outcome x) ≡ delivered x
unfolding decode
decode-outcome (ok r) = ground arith
decode-outcome (err e) = refl
decode-outcome panic = refl

-- A call whose parameter is marshalled, whose host is resolved to an address and whose request is
-- built returns the bytes and the status code of the response, whatever the code is, or the error
-- of the exchange; it never panics. The request goes to http://<address><uri>, and the world is left
-- with the command configured and the span, the call and an error status recorded. This holds for a
-- client with wrapped endpoints, a healthy hystrix and a method without a dash.
pub do_raw-delivered :
    {V : Type 0} (chain : Chain) (hystrix_do : HystrixDo) (source : Str) (http_do : HttpDo)
    (env : Env V) (client : EndpointClient) (uri method : Str) (param : Param V) (w : World)
    (body addr : Str) (o : Option Endpoint) (req : HttpRequest)
    → InOrder chain
    → IsHealthy hystrix_do
    → Lacks b'-' client.method
    → IsWrapped chain hystrix_do source http_do client
    → body_of env.marshal param ≡ ok body
    → resolve_host env.get_circuit env.roll w env.intn env.tag_map client uri method ≡ ok (o, addr)
    → env.new_request method (codes "http://" ++ (addr ++ uri)) body ≡ ok req
    → let cmd = dash (command_name source client.host client.uri client.method) req.host in
      let key = endpoint_key req.host (normal client.uri) client.method in
      do_raw env client uri method param w ≡ (
        delivered (http_do req),
        recorded
            (normal source)
            (normal client.host)
            (normal client.uri)
            client.method
            client.uri
            req
            (http_do req)
            (config_cmd cmd key client.setting.cb_config w),
      )
unfolding do_raw
do_raw-delivered chain hystrix_do source http_do env client uri method param w body addr o req
      in_order healthy plain wrapped b r n =
    let (ep, e, found, free) =
      resolve_host-get env.get_circuit env.roll w env.intn env.tag_map client uri method o addr r in
    let is_wrap = wrapped.at addr ep found in
    let reached =
      ap (λ (f : Endpoint). f (http req) w) is_wrap
      ∙ wrap-http chain hystrix_do source client http_do req w in_order healthy plain in
    rw (b, do_raw)
      (rw (r, e, n)
        (ap (λ (p : Reply × World). (decode p.0, p.1)) reached ∙ rw (decode-outcome (http_do req))))

-- A call that fails before the exchange returns the error of the step that failed and leaves the
-- world as it was: marshalling first, then resolving the host, then building the request.
pub do_raw_fails_early :
    {V : Type 0} (env : Env V) (client : EndpointClient) (uri method : Str) (param : Param V)
    (w : World) (e : Str)
    → (body_of env.marshal param ≡ err e → do_raw env client uri method param w ≡ (err e, w))
      × ((body : Str)
          → body_of env.marshal param ≡ ok body
          → (resolve_host env.get_circuit env.roll w env.intn env.tag_map client uri method ≡ err e
              → do_raw env client uri method param w ≡ (err e, w))
            × ((o : Option Endpoint) (addr : Str)
                → resolve_host env.get_circuit env.roll w env.intn env.tag_map client uri method
                  ≡ ok (o, addr)
                → env.new_request method (codes "http://" ++ (addr ++ uri)) body ≡ err e
                → do_raw env client uri method param w ≡ (err e, w)))
unfolding do_raw
do_raw_fails_early env client uri method param w e = (
  λ b. rw (b, do_raw),
  λ body b. (
    λ r. rw (b, do_raw) (rw r),
    λ o addr r n.
        let (ep, is_ep, found, free) =
          resolve_host-get env.get_circuit env.roll w env.intn env.tag_map client uri method o addr
            r in
        rw (b, do_raw) (rw (r, is_ep, n)),
  ),
)
