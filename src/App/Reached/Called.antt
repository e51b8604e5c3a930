-- ===== src/App/Reached/Called.antt =====
-- app/app.go, sd, client/sd and client/http together: the calls of an HTTP client to an application that
-- has started.
pub mod Tests
use tiki.Base.{
  ℕ, ◌≡◌, ◌≢◌, refl, sym, ap, ◌∙◌, Bool, true, false, List, [], ◌∷◌, ◌++◌, none, some, arith, Str,
  codes, str_eq, str_eq_iff, if◌then◌else◌, ok, All, ◌<◌, subst,
}
use tiki.Go.Maps.{get, get-put_self}
use tiki.Go.Members.{mem}
use tiki.Go.Strconv.{itoa, int_bound}
use tiki.Go.Strings.Laws.{Lacks}
use tiki.Lb.Weight.{default_weight, tags_weight, weight}
use tiki.Lb.Always.{IsDraw}
use tiki.Middleware.Defs.{HttpRequest, World}
use tiki.Middleware.Circuit.{HystrixDo}
use tiki.Instancer.Entries.{Entry, make_instance, make_instances, make_tag_map, add_tags}
use tiki.Instancer.Loop.{Poll, answered}
use tiki.Instancer.Loop.Channels.{IsFailure}
use tiki.Instancer.Loop.Follows.{GoesOn}
use tiki.HttpClient.Endpoint.{HttpDo, Chain, EndpointClient, Param, Env, body_of, blocked, do_raw}
use tiki.HttpClient.Endpoint.Call.{delivered}
use tiki.HttpClient.Endpoint.Stack.{InOrder, IsHealthy}
use tiki.HttpClient.Discovered.{
  Kit, IsEndpointer, connect, get_tag_map, run_loop, Discovered, receive_all, events_of,
}
use tiki.HttpClient.Discovered.Calls.{discovered_call}
use tiki.Registration.{
  Answer, make_payload, make_tags, non_empty, colon, default_consul_addr, start_registration,
}
use tiki.Registration
use tiki.Registration.Started.{started_svc, start-registers}
use tiki.App.Reached.{IsCatalog, instance_of_started}

-- One entry alone is the only instance, with the weight of its tags.
only_instance : (e : Entry) (a : Str) → mem (make_instances (e ∷ [])) a ≡ true → a ≡ make_instance e
unfolding make_instances
only_instance e a h = ground (arith, h, str_eq_iff (make_instance e) a)

is_instance : (e : Entry) → mem (make_instances (e ∷ [])) (make_instance e) ≡ true
unfolding make_instances
is_instance e = ground (arith, str_eq_iff (make_instance e) (make_instance e))

only_weight :
    (e : Entry)
    → weight (make_tag_map (e ∷ [])) (make_instance e) ≡ tags_weight default_weight e.tags
unfolding make_tag_map add_tags weight
only_weight e = rw (get-put_self [] (make_instance e) e.tags, weight) refl

listed_tags : (ts : List Str) → (elim (non_empty ts) [ none ↦ [] | some us ↦ us ]) ≡ ts
listed_tags [] = refl
listed_tags (t ∷ ts) = refl

-- The tags of the entry of a started application are those that NODE_TYPE gives.
tags_of_started :
    (env : Registration.Env) (entry_of : Str → Entry) (ip app_name json : Str) (port : ℕ)
    → IsCatalog env entry_of
    → env.marshal (make_payload env.node_type (started_svc ip app_name port)) ≡ ok json
    → (entry_of json).tags ≡ make_tags [] env.node_type
unfolding make_payload
tags_of_started env entry_of ip app_name json port documented marshalled =
    let (_, _, tags) = documented.lists _ json marshalled in
    tags ∙ listed_tags (make_tags [] env.node_type)

module _ (chain : Chain) (hystrix_do : HystrixDo) (source : Str) (http_do : HttpDo)
    (kit : Kit) where
  -- An application with a name that starts on an address without a colon, on a port that fits an int,
  -- with a definition that is marshalled, registers, whatever the status that consul answers with; and
  -- once consul has answered a client with service discovery that it lists just what was registered,
  -- and then only failed, however it answered and failed before that, before the endpointer registered
  -- its channel or after, and the endpointer has taken all events, a call of that client goes to
  -- http://<address>:<port><uri> of the application, whatever is drawn, and returns the bytes and the
  -- status code of the response or the error of the exchange. This holds where NODE_TYPE is no tag
  -- that makes the weight 0 and the circuit does not block the address, for a parameter that is
  -- marshalled, requests that are built, a healthy hystrix and a client that began without endpoints,
  -- with a method without a dash.
  pub started_called :
      {V : Type 0} (started : Registration.Env) (entry_of : Str → Entry) (ip app_name json : Str)
      (port : ℕ) (answer : Answer) (env : Env V) (ch : ℕ) (first : Poll) (early ps : List Poll)
      (i : ℕ) (fs : List Poll) (client : EndpointClient) (uri method : Str) (param : Param V)
      (w v : World) (body : Str) (request : Str → HttpRequest)
      → Lacks b':' ip
      → ip ≢ []
      → app_name ≢ []
      → port < int_bound
      → started.marshal (make_payload started.node_type (started_svc ip app_name port)) ≡ ok json
      → started.put (default_consul_addr ++ codes "/v1/agent/service/register") json ≡ ok answer
      → IsCatalog started entry_of
      → 0 < tags_weight default_weight (make_tags [] started.node_type)
      → IsEndpointer kit
      → InOrder chain
      → IsHealthy hystrix_do
      → IsDraw env.intn
      → All GoesOn early
      → All GoesOn ps
      → All IsFailure fs
      → client.endpoint_map ≡ []
      → Lacks b'-' client.method
      → body_of env.marshal param ≡ ok body
      → ((a : Str) → env.new_request method (codes "http://" ++ (a ++ uri)) body ≡ ok (request a))
      → blocked env.get_circuit env.roll v uri method (colon ip (itoa port)) ≡ false
      → let r = run_loop (ps ++ answered (entry_of json ∷ []) i ∷ fs) (connect ch first early) in
        let c =
          (receive_all kit chain hystrix_do source http_do
            (events_of r)
            (record { client = client; world = w; cached = kit.empty })).client in
        (start_registration started ip app_name port
          ≡ ok (record {
            registeror = some default_consul_addr;
            svc = some (started_svc ip app_name port);
            error = none;
          }))
        × ((do_raw (record env { tag_map = get_tag_map r }) c uri method param v).0
            ≡ delivered (http_do (request (colon ip (itoa port)))))
  started_called started entry_of ip app_name json port answer env ch first early ps i fs client uri
        method param w v body request plain some_ip some_name bound marshalled replied documented
        heavy endpointer in_order healthy draw before g f none_yet dashless made built free =
      let e = entry_of json in
      let here =
        instance_of_started started entry_of ip app_name json port documented some_ip marshalled in
      let tags = tags_of_started started entry_of ip app_name json port documented marshalled in
      let weighs =
        subst (λ n. 0 < n) (sym (only_weight e ∙ ap (tags_weight default_weight) tags)) heavy in
      let (addr, member, _, result) =
        discovered_call chain hystrix_do source http_do kit env ch first early ps (e ∷ []) i fs
          client uri method param w v body (make_instance e) request endpointer in_order healthy
          draw before g f none_yet dashless made built (is_instance e)
          (ap (blocked env.get_circuit env.roll v uri method) here ∙ free) weighs in
      (
        (start-registers started ip app_name json port answer plain some_ip some_name bound
            marshalled replied).0,
        result ∙ ap (λ a. delivered (http_do (request a))) (only_instance e addr member ∙ here),
      )
