-- ===== src/App/Reached.antt =====
-- app/app.go, sd, client/sd and client/grpc together: an application that has started is found by the gRPC
-- clients of another. What consul makes of a registration is a parameter.
pub mod Called
pub mod Tests
use tiki.Base.{
  ℕ, non_empty-eq, ◌≡◌, ◌≢◌, refl, sym, ap, ◌∙◌, Bool, true, false, List, [], ◌∷◌, ◌++◌, ◌⊎◌, inl,
  inr, Option, none, some, arith, Str, codes, str_eq, str_eq_iff, str_eq-cases, if◌then◌else◌,
  Result, ok, pos, ◌<◌,
}
use tiki.Go.Members.{mem}
use tiki.Go.Strconv.{itoa, format_int, int_bound}
use tiki.Go.Strings.Laws.{Lacks}
use tiki.GrpcServer.{Library}
use tiki.Instancer.Entries.{Entry, In, make_instance, make_instances, wanted}
use tiki.Instancer.Loop.{answered}
use tiki.Instancer.Loop.Follows.{published}
use tiki.Naming.Channel.{Watcher, new_consul_watcher, Reach}
use tiki.Naming.Channel.Delivery.{Reach-delivers}
use tiki.Naming.Channel.Order.{follow_all}
use tiki.Naming.Dial.{DialOption, resolver_of}
use tiki.Naming.Dialled.{Consul, consul_watcher, new_client_conn, resolve, dialled_made}
use tiki.Naming.Follows.{known}
use tiki.Registration.{
  Answer, Env, Payload, make_payload, colon, default_consul_addr, start_registration,
}
use tiki.Registration.Started.{started_svc, start-registers}
use tiki.App.{Libraries, App, ServiceDiscoveryCfg}

-- NewGRPCConn.
unfoldable pub new_grpc_conn :
    {L : Library} {K : Libraries} {Server Conn : Type 0}
    → (Str → List DialOption → Conn)
    → Str
    → App L K Server
    → Conn
unfolding new_client_conn
new_grpc_conn dial addr app = new_client_conn dial addr app.cfg.service_discovery

-- What consul documents of a registration: the entry of the service has the address, the port and the
-- tags of the body that was put.
pub record IsCatalog (env : Env) (entry_of : Str → Entry) : Type 0 where
  pub lists :
      (p : Payload) (json : Str)
      → env.marshal p ≡ ok json
      → ((entry_of json).service_address ≡ p.address)
        × ((entry_of json).port ≡ p.port)
        × ((entry_of json).tags ≡ elim p.tags [ none ↦ [] | some ts ↦ ts ])

mem-instances :
    (e : Entry) (es : List Entry) → In e es → mem (make_instances es) (make_instance e) ≡ true
unfolding make_instances
mem-instances e [] h = absurd h
mem-instances e (x ∷ es) (inl same) =
    ground (arith, str_eq_iff (make_instance x) (make_instance e), ap make_instance same)
mem-instances e (x ∷ es) (inr h) = ground (arith, mem-instances e es h)

-- The address of the entry of a started application.
pub instance_of_started :
    (env : Env) (entry_of : Str → Entry) (ip app_name json : Str) (port : ℕ)
    → IsCatalog env entry_of
    → ip ≢ []
    → env.marshal (make_payload env.node_type (started_svc ip app_name port)) ≡ ok json
    → make_instance (entry_of json) ≡ colon ip (itoa port)
unfolding make_instance make_payload format_int
instance_of_started env entry_of ip app_name json port documented some_ip marshalled =
    let (address, port_is, _) = documented.lists _ json marshalled in
    let e = entry_of json in
    ap (λ a. (if str_eq a [] then e.node_address else a) ++ b':' ∷ format_int e.port) address
    ∙ ap (λ p. (if str_eq ip [] then e.node_address else ip) ++ b':' ∷ format_int p) port_is
    ∙ ap (λ b. (if b then e.node_address else ip) ++ b':' ∷ itoa port) (non_empty-eq ip some_ip)

-- An application with a name that starts on an address without a colon, on a port that fits an int,
-- with a definition that is marshalled, registers, whatever the status that consul answers with; and
-- a connection of another application to that name, by consul, gets a watcher from which, in whatever
-- order its steps have come until now, as long as its loop has not ended and Close was not called, and
-- for whatever entries that list what was registered, there are steps to where the instancer has got
-- just these entries from consul, nothing is left in the channel, and the balancer that did what it was
-- told knows <address>:<port> of the application.
pub started_found :
    (env : Env) (entry_of : Str → Entry) (ip app_name json : Str) (port : ℕ) (answer : Answer)
    (c : Consul) (cfg : ServiceDiscoveryCfg) (v w : Watcher) (es : List Entry) (i : ℕ)
    → Lacks b':' ip
    → ip ≢ []
    → app_name ≢ []
    → port < int_bound
    → env.marshal (make_payload env.node_type (started_svc ip app_name port)) ≡ ok json
    → env.put (default_consul_addr ++ codes "/v1/agent/service/register") json ≡ ok answer
    → IsCatalog env entry_of
    → In (entry_of json) es
    → cfg.type ≡ codes "consul"
    → resolve c (resolver_of app_name cfg) app_name ≡ ok (consul_watcher v)
    → Reach v w
    → w.instancer.stopped ≡ false
    → w.instancer.listening ≡ true
    → (start_registration env ip app_name port
        ≡ ok (record {
          registeror = some default_consul_addr;
          svc = some (started_svc ip app_name port);
          error = none;
        }))
      × (z : Watcher) × Reach w z
      × (z.instancer.cache.state ≡ published [] (answered es i))
      × (z.update_c ≡ [])
      × (known (follow_all z.told []) (colon ip (itoa port)) ≡ true)
unfolding wanted
started_found env entry_of ip app_name json port answer c cfg v w es i plain some_ip some_name bound
      marshalled replied documented listed is_consul resolved reached runs listens =
    let made = dialled_made c app_name cfg v is_consul resolved in
    let (z, on, _, empty, state, knows) =
      Reach-delivers (c.first app_name) v w es i made reached runs listens in
    let here =
      instance_of_started env entry_of ip app_name json port documented some_ip marshalled in
    (
      (start-registers env ip app_name json port answer plain some_ip some_name bound marshalled
          replied).0,
      z,
      on,
      state,
      empty,
      knows (colon ip (itoa port))
          ∙ ap (mem (make_instances es)) (sym here)
          ∙ mem-instances (entry_of json) es listed,
    )
