-- ===== src/HttpClient/Endpoint.antt =====
-- client/http/endpoint.go: the client of one endpoint, its instances, and a call through it.
-- The HTTP transport, hystrix, the JSON codec, `http.NewRequest` and the tags of service discovery
-- are parameters.
pub mod Resolve
pub mod Stack
pub mod Call
pub mod Tests
pub mod Direct
pub mod Transport
pub mod Refused
pub mod Decoded
use tiki.Base.{
  ℕ, ◌≡◌, refl, Bool, true, false, not, ◌&&◌, List, [], ◌∷◌, ◌++◌, Option, none, some, Str, codes,
  str_eq, if◌then◌else◌, Result, ok, err, panic, ◌>>=◌, ℤ, pos, ◌==◌,
}
use tiki.Go.Maps.{Map, get, put, delete}
use tiki.Lb.Select.{select}
use tiki.Middleware.Defs.{
  HttpRequest, Request, http, nil_http, other_request, Item, bytes, int, other_item, Value, nil,
  array, other_value, Reply, returns, panics, World, Endpoint, nil_dereference, CommandConfig,
}
use tiki.Middleware.Circuit.{
  HystrixDo, circuit_breaker, cleanup_endpoint, is_circuit_open, endpoint_key,
}
use tiki.Middleware.Cleanup.{cleanup}
use tiki.Middleware.Metrics.{metrics}
use tiki.Middleware.Tracing.{tracing}
use tiki.HttpClient.Names.{normal, command_name}
use tiki.HttpClient.Setting.{EndpointSetting}

-- The body of an http.Response: nil, one that cannot be read, or its bytes.
pub data Body : Type 0 where
  no_body : Body
  unreadable : Str → Body
  content : Str → Body

pub record Response : Type 0 where
  pub status_code : ℤ
  pub body : Body

-- `httpClient.Do`: an error or a response.
abbrev pub HttpDo : Type 0
HttpDo = HttpRequest → Result Response

abbrev read_response : Response → Reply
read_response r = elim r.body [
  | no_body ↦ returns nil (some (codes "resp body empty"))
  | unreadable e ↦ returns nil (some e)
  | content c ↦ returns (array (bytes c ∷ int r.status_code ∷ other_item ∷ [])) none
]

abbrev answer : Result Response → Reply
answer (ok r) = read_response r
answer (err e) = returns nil (some e)
answer panic = panics nil_dereference

-- The innermost endpoint, a bare HTTP call.
unfoldable pub create_endpoint : HttpDo → Endpoint
create_endpoint http_do (http r) w = (answer (http_do r), w)
create_endpoint http_do nil_http w = (panics nil_dereference, w)
create_endpoint http_do other_request w = (panics nil_dereference, w)

abbrev pub Middleware : Type 0
Middleware = Endpoint → Endpoint

-- endpoint.Chain of go-kit.
abbrev pub Chain : Type 0
Chain = Middleware → List Middleware → Middleware

-- `setting` is what the pointer led to when `init` read it. NewClientWithSD may give all its endpoint
-- clients the pointer of one loop variable, but nothing reads it after `init`.
pub record EndpointClient : Type 0 where
  pub host : Str
  pub uri : Str
  pub method : Str
  pub setting : EndpointSetting
  pub sd_type : Str
  pub endpoint_map : Map Endpoint

-- The middlewares that `init` puts round each endpoint of a client, where `source` is the global of
-- client.go.
unfoldable pub wrap : Chain → HystrixDo → Str → EndpointClient → Middleware
wrap chain hystrix_do source client =
    chain
      (circuit_breaker hystrix_do (command_name source client.host client.uri client.method)
        client.setting.cb_config)
      (metrics (normal source) (normal client.host) (normal client.uri) client.method
        ∷ tracing client.uri
        ∷ cleanup
        ∷ [])

-- The factory that service discovery calls for each new address.
unfoldable pub factory : Middleware → HttpDo → Str → EndpointClient → EndpointClient
unfolding create_endpoint
factory middleware http_do addr client = record client {
  endpoint_map = put client.endpoint_map addr (middleware (create_endpoint http_do));
}

-- fakeCloser.Close, which service discovery calls for an address that is gone.
unfoldable pub close : Str → EndpointClient → World → EndpointClient × World
close addr client w = (
  record client { endpoint_map = delete client.endpoint_map addr },
  cleanup_endpoint (endpoint_key addr client.uri client.method) w,
)

module _ (get_circuit : Str → Option Bool) (roll : Str → ℕ) (w : World) where
  -- The circuit of the address is open, and `rand.Intn(10)`, which gives `roll addr`, is not 1.
  unfoldable pub blocked : Str → Str → Str → Bool
  unfolding is_circuit_open
  blocked uri method addr =
      let (open', found) = is_circuit_open get_circuit w (endpoint_key addr uri method) in
      found && open' && not (roll addr == 1)

  -- The loop over the endpoints of the client.
  unfoldable pub admitted : Str → Str → Map Endpoint → Map Endpoint
  unfolding blocked
  admitted uri method [] = []
  admitted uri method ((addr, ep) ∷ rest) =
      let later = admitted uri method rest in
      if blocked uri method addr then later else (addr, ep) ∷ later

  unfoldable pub resolve_host :
      (ℕ → ℕ) → Map (List Str) → EndpointClient → Str → Str → Result (Option Endpoint × Str)
  resolve_host intn tag_map client uri method =
      select tag_map intn uri method (admitted uri method client.endpoint_map)

-- The `param interface{}` of a call: nil, []byte, or a value to marshal.
pub data Param (V : Type 0) : Type 0 where
  no_param : Param V
  raw : Str → Param V
  value : V → Param V

unfoldable pub body_of : {V : Type 0} → (V → Result Str) → Param V → Result Str
body_of marshal no_param = ok (codes "")
body_of marshal (raw bs) = ok bs
body_of marshal (value v) = marshal v

-- The type tests on what the endpoint returned. A value beside an error is dropped.
unfoldable pub decode : Reply → Result (Str × ℤ)
decode (returns v (some e)) = err e
decode (returns nil none) = err (codes "resp not []interface{}")
decode (returns other_value none) = err (codes "resp not []interface{}")
decode (returns (array []) none) = panic
decode (returns (array (bytes c ∷ [])) none) = panic
decode (returns (array (bytes c ∷ int code ∷ rest)) none) = ok (c, code)
decode (returns (array (bytes c ∷ bytes b ∷ rest)) none) = err (codes "arr[1] not int")
decode (returns (array (bytes c ∷ other_item ∷ rest)) none) = err (codes "arr[1] not int")
decode (returns (array (int n ∷ rest)) none) = err (codes "arr[0] not []byte")
decode (returns (array (other_item ∷ rest)) none) = err (codes "arr[0] not []byte")
decode (panics reason) = panic

-- `http.NewRequest(method, url, body)`
abbrev pub NewRequest : Type 0
NewRequest = Str → Str → Str → Result HttpRequest

abbrev send : Result HttpRequest → Endpoint → World → Result (Str × ℤ) × World
send (ok req) ep w = let (reply, w') = ep (http req) w in (decode reply, w')
send (err e) ep w = (err e, w)
send panic ep w = (panic, w)

-- Calling a nil endpoint panics.
abbrev call_resolved :
    NewRequest → Str → Str → Str → Result (Option Endpoint × Str) → World → Result (Str × ℤ) × World
call_resolved new_request uri method body (ok (some ep, addr)) w =
    send (new_request method (codes "http://" ++ (addr ++ uri)) body) ep w
call_resolved new_request uri method body (ok (none, addr)) w = (panic, w)
call_resolved new_request uri method body (err e) w = (err e, w)
call_resolved new_request uri method body panic w = (panic, w)

-- Everything outside the program that a call depends on.
pub record Env (V : Type 0) : Type 0 where
  pub marshal : V → Result Str
  pub new_request : NewRequest
  pub get_circuit : Str → Option Bool
  pub roll : Str → ℕ
  pub intn : ℕ → ℕ
  pub tag_map : Map (List Str)

unfoldable pub do_raw :
    {V : Type 0} → Env V → EndpointClient → Str → Str → Param V → World → Result (Str × ℤ) × World
unfolding body_of decode resolve_host
do_raw env client uri method param w = elim (body_of env.marshal param) [
  | err e ↦ (err e, w)
  | panic ↦ (panic, w)
  | ok body ↦
      call_resolved env.new_request uri method body
        (resolve_host env.get_circuit env.roll w env.intn env.tag_map client uri method) w
]

-- `json.Unmarshal(contentBytes, resp)` is a parameter, like the codec of the request.
unfoldable pub do_call :
    {V T : Type 0}
    → Env V
    → (Str → Result T)
    → EndpointClient
    → Str
    → Str
    → Param V
    → World
    → Result T × World
unfolding do_raw
do_call env unmarshal client uri method param w =
    let (result, w') = do_raw env client uri method param w in
    (result >>= (λ r. unmarshal (r.0)), w')
