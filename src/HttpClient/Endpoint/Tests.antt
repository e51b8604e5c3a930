-- ===== src/HttpClient/Endpoint/Tests.antt =====
-- The theorems on endpoints, at a client of one host with one instance.
use tiki.Base.{
  ◌≡◌, refl, ap, true, [], ◌∷◌, arith, Option, none, some, Str, codes, str_eq, ok, err, pos,
}
use tiki.Go.Maps.{get, put}
use tiki.Go.Strings.{replace_all}
use tiki.Lb.Select.{select, build, choose}
use tiki.Middleware.Defs.{World, init, Endpoint, Reply, HttpRequest, Value, nil, returns, panics}
use tiki.Middleware.Circuit.{
  HystrixDo, default_cb_config, config_cmd, is_circuit_open, endpoint_key, dash,
}
use tiki.Middleware.Circuit.Registry.{config, run}
use tiki.HttpClient.Names.{normal, command_name}
use tiki.HttpClient.Endpoint.{
  content, HttpDo, create_endpoint, Chain, EndpointClient, wrap, factory, blocked, admitted,
  resolve_host, no_param, Env, body_of, do_raw, do_call,
}
use tiki.HttpClient.Endpoint.Refused.{do_raw_refused, do_raw_abandoned}
use tiki.HttpClient.Endpoint.Decoded.{do_call_any_status}
use tiki.HttpClient.Endpoint.Resolve.{dashed_uri_never_filtered}
use tiki.HttpClient.Endpoint.Stack.{IsHealthy, recorded}
use tiki.HttpClient.Endpoint.Call.{
  add, change, changes, IsWrapped, changes-IsWrapped, do_raw-delivered,
}

abbrev addr : Str
addr = codes "10.0.0.1:80"

abbrev pub uri : Str
uri = codes "/u"

abbrev pub method : Str
method = codes "GET"

-- endpoint.Chain as go-kit documents it.
abbrev pub chain : Chain
chain outer [] next = outer next
chain outer (m ∷ ms) next = outer (chain m ms next)

abbrev pub passed : Reply × World → (Option Str × Value) × World
passed (returns v e, w) = ((e, v), w)
passed (panics reason, w) = ((some reason, nil), w)

-- A closed circuit.
abbrev pub hystrix_do : HystrixDo
hystrix_do cmd call w = passed (call w)

pub hystrix_do-IsHealthy : IsHealthy hystrix_do
hystrix_do-IsHealthy cmd call w w' resp e h = ap passed h

-- A server that answers 500.
abbrev pub http_do : HttpDo
http_do r = ok (record { status_code = pos 500; body = content (codes "oops") })

abbrev pub new_client : EndpointClient
new_client = record {
  host = codes "svc";
  uri = uri;
  method = method;
  setting = record { uri = uri; method = method; cb_config = default_cb_config };
  sd_type = codes "consul";
  endpoint_map = [];
}

abbrev bare : Endpoint
bare = wrap chain hystrix_do (codes "app") new_client (create_endpoint http_do)

abbrev client : EndpointClient
client = record new_client { endpoint_map = (addr, bare) ∷ [] }

abbrev pub request : HttpRequest
request = record { method = method; host = addr; request_uri = uri; body = [] }

abbrev cmd : Str
cmd = dash (command_name (codes "app") (codes "svc") uri method) addr

abbrev key : Str
key = endpoint_key addr (normal uri) method

abbrev dashed : Str
dashed = codes "/a-b"

abbrev dashed_key : Str
dashed_key = endpoint_key addr (normal dashed) method

dashed_uri_never_filtered_example :
    resolve_host
      (λ _. some true)
      (λ _. 0)
      (run (config cmd dashed_key default_cb_config ∷ []) init)
      (λ _. 0)
      []
      client
      dashed
      method
    ≡ select [] (λ _. 0) dashed method client.endpoint_map
dashed_uri_never_filtered_example =
    dashed_uri_never_filtered (λ _. some true) (λ _. 0)
      (config cmd dashed_key default_cb_config ∷ []) (λ _. 0) [] client dashed method
      ((addr, dashed, method, omega arith, omega arith, refl), tt) (λ e. differ e)
  where
    differ : normal dashed ≡ dashed → ⊥
    differ e = unfold normal replace_all in ground arith

abbrev recorded_call : World
recorded_call =
    recorded (normal (codes "app")) (normal (codes "svc")) (normal uri) method uri request
      (http_do request) (config_cmd cmd key default_cb_config init)

new_client-IsWrapped : IsWrapped chain hystrix_do (codes "app") http_do new_client
unfolding get
new_client-IsWrapped = record { at = λ a ep h. absurd (ground arith) }

client-IsWrapped : IsWrapped chain hystrix_do (codes "app") http_do client
unfolding changes change factory put
client-IsWrapped =
    changes-IsWrapped chain hystrix_do (codes "app") http_do (add addr ∷ []) new_client init
      new_client-IsWrapped

abbrev pub env : Env Str
env = record {
  marshal = λ v. ok v;
  new_request = λ m url body. ok request;
  get_circuit = λ _. none;
  roll = λ _. 0;
  intn = λ _. 0;
  tag_map = [];
}

do_raw-delivered_example :
    do_raw env client uri method no_param init ≡ (ok (codes "oops", pos 500), recorded_call)
unfolding resolve_host admitted blocked is_circuit_open select build choose get str_eq body_of
do_raw-delivered_example =
    do_raw-delivered chain hystrix_do (codes "app") http_do env client uri method no_param init []
      addr (some bare) request (λ a b c d next. refl) hystrix_do-IsHealthy (omega arith)
      client-IsWrapped refl refl refl

-- The client without service discovery, whose host is its address.
abbrev straight : EndpointClient
straight = record new_client { host = addr }

-- A client of the one instance behind another hystrix.
abbrev behind : HystrixDo → EndpointClient
behind h = record new_client {
  endpoint_map = (addr, wrap chain h (codes "app") new_client (create_endpoint http_do)) ∷ [];
}

behind-IsWrapped : (h : HystrixDo) → IsWrapped chain h (codes "app") http_do (behind h)
unfolding changes change factory put get
behind-IsWrapped h =
    changes-IsWrapped chain h (codes "app") http_do (add addr ∷ []) new_client init
      (record { at = λ a ep e. absurd (ground arith) })

abbrev refusing : HystrixDo
refusing _ run w = ((some (codes "hystrix: circuit open"), nil), w)

abbrev impatient : HystrixDo
impatient _ run w = ((some (codes "hystrix: timeout"), nil), (run w).1)

do_raw_refused_example :
    do_raw env (behind refusing) uri method no_param init
    ≡ (err (codes "hystrix: circuit open"), config_cmd cmd key default_cb_config init)
unfolding resolve_host admitted blocked is_circuit_open select build choose get str_eq body_of
do_raw_refused_example =
    do_raw_refused chain refusing (codes "app") http_do env (behind refusing) uri method no_param
      init [] addr (some (wrap chain refusing (codes "app") new_client (create_endpoint http_do)))
      request (codes "hystrix: circuit open") (λ a b c d next. refl) (omega arith)
      (behind-IsWrapped refusing) refl refl refl (λ run w. refl)

do_raw_abandoned_example :
    do_raw env (behind impatient) uri method no_param init
    ≡ (err (codes "hystrix: timeout"), recorded_call)
unfolding resolve_host admitted blocked is_circuit_open select build choose get str_eq body_of
do_raw_abandoned_example =
    do_raw_abandoned chain impatient (codes "app") http_do env (behind impatient) uri method
      no_param init [] addr
      (some (wrap chain impatient (codes "app") new_client (create_endpoint http_do))) request
      (codes "hystrix: timeout") (λ a b c d next. refl) (omega arith) (behind-IsWrapped impatient)
      refl refl refl (λ run w w' r h. ap (λ p. ((some (codes "hystrix: timeout"), nil), p.1)) h)

-- A decoder that takes any text.
do_call_any_status_example :
    do_call env (λ text. ok text) client uri method no_param init
    ≡ (ok (codes "oops"), recorded_call)
unfolding resolve_host admitted blocked is_circuit_open select build choose get str_eq body_of
do_call_any_status_example =
    do_call_any_status chain hystrix_do (codes "app") http_do env (λ text. ok text) client uri
      method no_param init [] addr (some bare) request (pos 500) (codes "oops")
      (λ a b c d next. refl) hystrix_do-IsHealthy (omega arith) client-IsWrapped refl refl refl refl
