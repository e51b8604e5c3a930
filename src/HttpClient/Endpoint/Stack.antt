-- ===== src/HttpClient/Endpoint/Stack.antt =====
-- client/http/endpoint.go: what the whole stack of middlewares does to an HTTP call.
use tiki.Base.{
  ◌≡◌, refl, ap, ◌∙◌, List, [], ◌∷◌, ◌++◌, Option, none, some, arith, Str, codes, Result, ok, err,
  panic,
}
use tiki.Go.Strings.Laws.{Lacks}
use tiki.Middleware.Defs.{
  HttpRequest, http, bytes, int, other_item, Value, nil, array, Reply, returns, World, Endpoint,
  emit, start_span, finish_span, nil_dereference,
}
use tiki.Middleware.Circuit.{HystrixDo, config_cmd, dash, endpoint_key, finish}
use tiki.Middleware.Cleanup.{cleanup, recovered}
use tiki.Middleware.Metrics.{metrics, call_labels, observe, count_code, inspect}
use tiki.Middleware.Tracing.{tracing}
use tiki.HttpClient.Names.{normal, command_name, circuit_breaker-command_name}
use tiki.HttpClient.Endpoint.{
  Response, no_body, unreadable, content, HttpDo, answer, read_response, create_endpoint,
  Middleware, Chain, EndpointClient, wrap,
}

-- The documented behaviour of endpoint.Chain: requests pass the middlewares in the order given.
abbrev pub InOrder : Chain → Type 0
InOrder chain =
    (a b c d : Middleware) (next : Endpoint) → chain a (b ∷ c ∷ d ∷ []) next ≡ a (b (c (d next)))

-- hystrix.Do with a closed circuit, in time and within its limits: it runs the call and passes on
-- what the call gives.
abbrev pub IsHealthy : HystrixDo → Type 0
IsHealthy hystrix_do =
    (cmd : Str) (run : World → Reply × World) (w w' : World) (resp : Value) (e : Option Str)
    → run w ≡ (returns resp e, w')
    → hystrix_do cmd run w ≡ ((e, resp), w')

-- The status code of a response with a readable body is counted if it is 400 or above.
abbrev pub counted : List Str → Result Response → World → World
counted labels (ok r) w = elim r.body [
  | no_body ↦ w
  | unreadable e ↦ w
  | content c ↦ count_code labels (int r.status_code) w
]
counted labels (err e) w = w
counted labels panic w = w

inspect-answer :
    (labels : List Str) (x : Result Response) (w : World)
    → inspect labels (recovered (answer x)) w ≡ (recovered (answer x), counted labels x w)
unfolding inspect recovered
inspect-answer labels (ok r) w = ground arith
inspect-answer labels (err e) w = refl
inspect-answer labels panic w = refl

-- The world that the inner middlewares leave: a span, the status code if it is an error, and one
-- observation and one count of the call.
abbrev pub recorded : Str → Str → Str → Str → Str → HttpRequest → Result Response → World → World
recorded src tgt label_uri method uri r x w =
    let labels = call_labels src tgt label_uri method in
    observe labels
      (counted labels x (emit (finish_span uri) (emit (start_span uri r.host r.method) w)))

pub inner_lem :
    (src tgt label_uri method uri : Str) (http_do : HttpDo) (r : HttpRequest) (w : World)
    → metrics src tgt label_uri method (tracing uri (cleanup (create_endpoint http_do))) (http r) w
      ≡ (recovered (answer (http_do r)), recorded src tgt label_uri method uri r (http_do r) w)
unfolding metrics tracing cleanup create_endpoint
inner_lem src tgt label_uri method uri http_do r w =
    ap (λ (p : Reply × World). (p.0, observe (call_labels src tgt label_uri method) p.1))
      (inspect-answer (call_labels src tgt label_uri method) (http_do r)
        (emit (finish_span uri) (emit (start_span uri r.host r.method) w)))

-- What the caller gets for the outcome of the HTTP call: the response as an array, or an error.
abbrev pub outcome : Result Response → Reply
outcome (ok r) = read_response r
outcome (err e) = returns nil (some e)
outcome panic = returns nil (some (codes "panic error: " ++ nil_dereference))

-- An outcome is a value or an error, never both, so nothing is lost on the way through hystrix.
outcome_lem :
    (x : Result Response)
    → (resp : Value) × (e : Option Str) × (recovered (answer x) ≡ returns resp e)
      × ((w : World) → finish ((e, resp), w) ≡ (outcome x, w))
unfolding recovered
outcome_lem (ok record_r) = by_body record_r
  where
    by_body :
        (r : Response)
        → (resp : Value) × (e : Option Str) × (recovered (read_response r) ≡ returns resp e)
          × ((w : World) → finish ((e, resp), w) ≡ (read_response r, w))
    by_body r =
        elim (r.body)
          as (λ b.
            let reply : Reply = elim b [
              | no_body ↦ returns nil (some (codes "resp body empty"))
              | unreadable e ↦ returns nil (some e)
              | content c ↦ returns (array (bytes c ∷ int r.status_code ∷ other_item ∷ [])) none
            ] in
            (resp : Value) × (e : Option Str) × (recovered reply ≡ returns resp e)
            × ((w : World) → finish ((e, resp), w) ≡ (reply, w))) [
              | no_body ↦ (nil, some (codes "resp body empty"), refl, λ w. refl)
              | unreadable e ↦ (nil, some e, refl, λ w. refl)
              | content c ↦
                  (array (bytes c ∷ int r.status_code ∷ other_item ∷ []), none, refl, λ w. refl)
            ]
outcome_lem (err e) = (nil, some e, refl, λ w. refl)
outcome_lem panic = (nil, some (codes "panic error: " ++ nil_dereference), refl, λ w. refl)

pub wrap-http :
    (chain : Chain) (hystrix_do : HystrixDo) (source : Str) (client : EndpointClient)
    (http_do : HttpDo) (r : HttpRequest) (w : World)
    → InOrder chain
    → IsHealthy hystrix_do
    → Lacks b'-' client.method
    → let cmd = dash (command_name source client.host client.uri client.method) r.host in
      let key = endpoint_key r.host (normal client.uri) client.method in
      wrap chain hystrix_do source client (create_endpoint http_do) (http r) w ≡ (
        outcome (http_do r),
        recorded
            (normal source)
            (normal client.host)
            (normal client.uri)
            client.method
            client.uri
            r
            (http_do r)
            (config_cmd cmd key client.setting.cb_config w),
      )
unfolding wrap
wrap-http chain hystrix_do source client http_do r w in_order healthy plain =
    let cmd = dash (command_name source client.host client.uri client.method) r.host in
    let key = endpoint_key r.host (normal client.uri) client.method in
    let w1 = config_cmd cmd key client.setting.cb_config w in
    let inner =
      inner_lem (normal source) (normal client.host) (normal client.uri) client.method client.uri
        http_do r w1 in
    let (resp, e, returned, finished) = outcome_lem (http_do r) in
    rw
      (
        in_order,
        circuit_breaker-command_name hystrix_do source client.host client.uri client.method _ _ r w
            plain,
      )
      (ap finish (
          healthy cmd _ w1 _ resp e (
            inner
            ∙ ap
                (λ (p : Reply). (
                  p,
                  recorded (normal source) (normal client.host) (normal client.uri) client.method
                      client.uri r (http_do r) w1,
                ))
                returned))
        ∙ finished _)
