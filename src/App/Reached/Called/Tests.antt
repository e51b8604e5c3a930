-- ===== src/App/Reached/Called/Tests.antt =====
-- The theorem on an application that is called, at a consul that knows one service.
use tiki.Base.{◌≡◌, ◌<◌, refl, false, [], ◌∷◌, ◌++◌, none, some, arith, codes, ok}
use tiki.Go.Maps.{get}
use tiki.Go.Strconv.{itoa}
use tiki.Lb.Weight.{default_weight, tags_weight}
use tiki.Middleware.Defs.{init}
use tiki.Middleware.Circuit.{is_circuit_open}
use tiki.Instancer.Loop.{answered}
use tiki.HttpClient.Endpoint.{no_param, blocked, do_raw, body_of}
use tiki.HttpClient.Endpoint.Call.{delivered}
use tiki.HttpClient.Endpoint.Tests.{
  uri, method, chain, hystrix_do, hystrix_do-IsHealthy, http_do, new_client, env, request,
}
use tiki.HttpClient.Discovered.{connect, get_tag_map, run_loop, receive_all, events_of}
use tiki.HttpClient.Discovered.Tests.{kit, kit-IsEndpointer, down}
use tiki.Registration.{colon, default_consul_addr, make_tags, start_registration}
use tiki.Registration.Started.{started_svc}
use tiki.App.Reached.Tests
use tiki.App.Reached.Tests.{ip, app_name, listed, env-IsCatalog, marshalled}
use tiki.App.Reached.Called.{started_called}

is_free : blocked env.get_circuit env.roll init uri method (colon ip (itoa 8080)) ≡ false
unfolding blocked is_circuit_open get
is_free = refl

is_heavy : 0 < tags_weight default_weight (make_tags [] none)
unfolding tags_weight make_tags
is_heavy = omega arith

-- Consul fails, lists the service, and fails again.
started_called_example :
    let r =
      run_loop ((down ∷ []) ++ answered (listed ∷ []) 7 ∷ down ∷ []) (connect 3 down (down ∷ [])) in
    let c =
      (receive_all kit chain hystrix_do
        (codes "app")
        http_do
        (events_of r)
        (record { client = new_client; world = init; cached = [] })).client in
    (start_registration Tests.env ip app_name 8080
      ≡ ok (record {
        registeror = some default_consul_addr;
        svc = some (started_svc ip app_name 8080);
        error = none;
      }))
    × ((do_raw (record env { tag_map = get_tag_map r }) c uri method no_param init).0
        ≡ delivered (http_do request))
unfolding body_of
started_called_example =
    started_called chain hystrix_do (codes "app") http_do kit Tests.env (λ json. listed) ip app_name
      (codes "json") 8080 (record { status_code = 500; body = [] }) env 3 down (down ∷ [])
      (down ∷ []) 7 (down ∷ []) new_client uri method no_param init init [] (λ a. request)
      (omega arith) (λ e. ground arith) (λ e. ground arith) (omega arith) marshalled refl
      env-IsCatalog is_heavy kit-IsEndpointer (λ a b c d next. refl) hystrix_do-IsHealthy (λ n h. h)
      (tt, tt) (tt, tt) (tt, tt) refl (omega arith) refl (λ a. refl) is_free
