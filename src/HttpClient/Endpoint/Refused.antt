-- ===== src/HttpClient/Endpoint/Refused.antt =====
-- client/http/endpoint.go behind a hystrix that does not wait for the call: the circuit is open, too many
-- calls are under way, or the call takes too long.
use tiki.Base.{◌≡◌, ap, ◌∙◌, ok, err, ◌++◌, Option, some, Str, codes}
use tiki.Go.Strings.Laws.{Lacks}
use tiki.Middleware.Defs.{HttpRequest, http, nil, Reply, returns, World, Endpoint}
use tiki.Middleware.Circuit.{HystrixDo, config_cmd, dash, endpoint_key, finish}
use tiki.Middleware.Cleanup.{cleanup, recovered}
use tiki.Middleware.Metrics.{metrics}
use tiki.Middleware.Tracing.{tracing}
use tiki.HttpClient.Names.{normal, command_name, circuit_breaker-command_name}
use tiki.HttpClient.Endpoint.{
  HttpDo, answer, create_endpoint, Chain, EndpointClient, wrap, Param, Env, body_of, decode,
  resolve_host, do_raw,
}
use tiki.HttpClient.Endpoint.Call.{IsWrapped}
use tiki.HttpClient.Endpoint.Resolve.{resolve_host-get}
use tiki.HttpClient.Endpoint.Stack.{InOrder, recorded, inner_lem}

-- hystrix.Do of a command whose circuit is open, or which is at its limit of calls: an error, and the
-- call is not made.
abbrev pub Refuses : HystrixDo → Str → Str → Type 0
Refuses hystrix_do cmd e =
    (run : World → Reply × World) (w : World) → hystrix_do cmd run w ≡ ((some e, nil), w)

-- hystrix.Do of a command that times out: an error, while the call goes on until it returns.
abbrev pub Abandons : HystrixDo → Str → Str → Type 0
Abandons hystrix_do cmd e =
    (run : World → Reply × World) (w w' : World) (r : Reply)
    → run w ≡ (r, w')
    → hystrix_do cmd run w ≡ ((some e, nil), w')

module _ {V : Type 0} (chain : Chain) (hystrix_do : HystrixDo) (source : Str) (http_do : HttpDo)
    (env : Env V) (client : EndpointClient) (uri method : Str) (param : Param V) (w : World)
    (body addr : Str) (o : Option Endpoint) (req : HttpRequest) (e : Str) (in_order : InOrder chain)
    (plain : Lacks b'-' client.method) (wrapped : IsWrapped chain hystrix_do source http_do client)
    (marshalled : body_of env.marshal param ≡ ok body)
    (resolved : resolve_host env.get_circuit env.roll w env.intn env.tag_map client uri method
      ≡ ok (o, addr))
    (built : env.new_request method (codes "http://" ++ (addr ++ uri)) body ≡ ok req) where
  -- What the endpoint of the stack gives is what the call gives.
  through_stack :
      (reply : Reply) (w' : World)
      → wrap chain hystrix_do source client (create_endpoint http_do) (http req) w ≡ (reply, w')
      → do_raw env client uri method param w ≡ (decode reply, w')
  unfolding do_raw
  through_stack reply w' h =
      let (ep, is_ep, found, free) =
        resolve_host-get env.get_circuit env.roll w env.intn env.tag_map client uri method o addr
          resolved in
      let reached = ap (λ (f : Endpoint). f (http req) w) (wrapped.at addr ep found) ∙ h in
      rw (marshalled, do_raw)
        (rw (resolved, is_ep, built) (ap (λ (p : Reply × World). (decode p.0, p.1)) reached))

  to_hystrix :
      wrap chain hystrix_do source client (create_endpoint http_do) (http req) w
      ≡ finish (
          hystrix_do
            (dash (command_name source client.host client.uri client.method) req.host)
            (metrics
              (normal source)
              (normal client.host)
              (normal client.uri)
              client.method
              (tracing client.uri (cleanup (create_endpoint http_do)))
              (http req))
            (config_cmd
              (dash (command_name source client.host client.uri client.method) req.host)
              (endpoint_key req.host (normal client.uri) client.method)
              client.setting.cb_config
              w))
  unfolding wrap
  to_hystrix = rw (
    in_order,
    circuit_breaker-command_name hystrix_do source client.host client.uri client.method _ _ req w
        plain,
  )

  -- A call that hystrix refuses, since the circuit of its command is open or the command is at its limit,
  -- returns the error of hystrix, whatever the transport would do; the command is configured, and no
  -- span, no call, no latency and no error code is recorded. The parameter is marshalled, the host
  -- resolved and the request built.
  pub do_raw_refused :
      let cmd = dash (command_name source client.host client.uri client.method) req.host in
      let key = endpoint_key req.host (normal client.uri) client.method in
      Refuses hystrix_do cmd e
      → do_raw env client uri method param w
        ≡ (err e, config_cmd cmd key client.setting.cb_config w)
  unfolding decode
  do_raw_refused refuses =
      let cmd = dash (command_name source client.host client.uri client.method) req.host in
      let key = endpoint_key req.host (normal client.uri) client.method in
      through_stack (returns nil (some e)) (config_cmd cmd key client.setting.cb_config w)
        (to_hystrix ∙ ap finish (refuses _ _))

  -- A call that takes too long returns the error of hystrix, and the response is lost; but the request
  -- was sent, and once it ends the span, the call, the latency and an error code for a status of 400 or
  -- above are recorded as if the caller had waited.
  pub do_raw_abandoned :
      let cmd = dash (command_name source client.host client.uri client.method) req.host in
      let key = endpoint_key req.host (normal client.uri) client.method in
      Abandons hystrix_do cmd e
      → do_raw env client uri method param w ≡ (
        err e,
        recorded
            (normal source)
            (normal client.host)
            (normal client.uri)
            client.method
            client.uri
            req
            (http_do req)
            (config_cmd cmd key client.setting.cb_config w),
      )
  unfolding decode
  do_raw_abandoned abandons =
      let cmd = dash (command_name source client.host client.uri client.method) req.host in
      let key = endpoint_key req.host (normal client.uri) client.method in
      let w1 = config_cmd cmd key client.setting.cb_config w in
      let run =
        inner_lem (normal source) (normal client.host) (normal client.uri) client.method client.uri
          http_do req w1 in
      through_stack (returns nil (some e)) _
        (to_hystrix ∙ ap finish (abandons _ w1 _ (recovered (answer (http_do req))) run))
