-- ===== src/HttpClient/Endpoint/Decoded.antt =====
-- client/http/endpoint.go: `Do`, which decodes the body of the response.
use tiki.Base.{◌≡◌, ap, ◌∙◌, Result, ok, ◌>>=◌, ◌++◌, Option, Str, codes, ℤ}
use tiki.Go.Strings.Laws.{Lacks}
use tiki.Middleware.Defs.{HttpRequest, World, Endpoint}
use tiki.Middleware.Circuit.{HystrixDo, config_cmd, dash, endpoint_key}
use tiki.HttpClient.Names.{normal, command_name}
use tiki.HttpClient.Endpoint.{
  Response, content, HttpDo, Chain, EndpointClient, Param, Env, body_of, resolve_host, do_call,
}
use tiki.HttpClient.Endpoint.Call.{IsWrapped, delivered, do_raw-delivered}
use tiki.HttpClient.Endpoint.Stack.{InOrder, IsHealthy, recorded}

-- A call of Do whose parameter is marshalled, whose host is resolved and whose request is built returns
-- what is decoded from the body of the response, or the error of the decoder, whatever the status code
-- is: an error page that can be decoded is a result like any other, and one that cannot is an error of
-- the decoder, which knows nothing of the status. The call is recorded as one of DoRaw is, an error
-- status with it. This holds for a client with wrapped endpoints, a healthy hystrix and a method without
-- a dash.
pub do_call_any_status :
    {V T : Type 0} (chain : Chain) (hystrix_do : HystrixDo) (source : Str) (http_do : HttpDo)
    (env : Env V) (unmarshal : Str → Result T) (client : EndpointClient) (uri method : Str)
    (param : Param V) (w : World) (body addr : Str) (o : Option Endpoint) (req : HttpRequest)
    (code : ℤ) (page : Str)
    → InOrder chain
    → IsHealthy hystrix_do
    → Lacks b'-' client.method
    → IsWrapped chain hystrix_do source http_do client
    → body_of env.marshal param ≡ ok body
    → resolve_host env.get_circuit env.roll w env.intn env.tag_map client uri method ≡ ok (o, addr)
    → env.new_request method (codes "http://" ++ (addr ++ uri)) body ≡ ok req
    → http_do req ≡ ok (record { status_code = code; body = content page })
    → let cmd = dash (command_name source client.host client.uri client.method) req.host in
      let key = endpoint_key req.host (normal client.uri) client.method in
      do_call env unmarshal client uri method param w ≡ (
        unmarshal page,
        recorded
            (normal source)
            (normal client.host)
            (normal client.uri)
            client.method
            client.uri
            req
            (ok (record { status_code = code; body = content page }))
            (config_cmd cmd key client.setting.cb_config w),
      )
unfolding do_call
do_call_any_status chain hystrix_do source http_do env unmarshal client uri method param w body addr
      o req code page in_order healthy plain wrapped b r n answered =
    let sent =
      do_raw-delivered chain hystrix_do source http_do env client uri method param w body addr o req
        in_order healthy plain wrapped b r n in
    let cmd = dash (command_name source client.host client.uri client.method) req.host in
    let key = endpoint_key req.host (normal client.uri) client.method in
    ap (λ (x : Result (Str × ℤ) × World). (x.0 >>= (λ p. unmarshal p.0), x.1)) sent
    ∙ ap
        (λ (x : Result Response). (
          delivered x >>= (λ p. unmarshal p.0),
          recorded (normal source) (normal client.host) (normal client.uri) client.method client.uri
              req x (config_cmd cmd key client.setting.cb_config w),
        ))
        answered
