-- ===== src/App/Start/Registered.antt =====
-- app/app.go: the events of an application that is started and registers.
use tiki.Base.{
  ◌<◌, ◌≡◌, ◌≢◌, refl, ap, Bool, List, [], ◌∷◌, ◌++◌, none, some, Str, codes, pos, Result, ok, err,
  panic, returned,
}
use tiki.Go.Strings.Laws.{Lacks}
use tiki.Go.Strconv.{int_bound}
use tiki.GrpcServer.{Library, ServerOption}
use tiki.Registration.{Answer, unregister, make_payload, debug_port, default_consul_addr}
use tiki.Registration.Started.{started_svc, start-registers}
use tiki.App.{Libraries, App}
use tiki.App.Start.{
  to_defer, Event, listen, init_discovery, run_group, deregister, Ending, returns, Host, port_addr,
  closing, after_deregister, deferred, actors, base_server, start,
}

module _ (L : Library) (K : Libraries) {Server : Type 0} where
  after_deregister_calm :
      (app : App L K Server) (r : Result Bool)
      → r ≢ panic
      → after_deregister L K app r ≡ (closing L K app, returns)
  after_deregister_calm app (ok b) calm = refl
  after_deregister_calm app (err e) calm = refl
  after_deregister_calm app panic calm = absurd (calm refl)

  -- An application with a name that is started on a machine whose address has no colon, where both
  -- ports are free, listens on the debug port and on its own, registers the service with that name,
  -- address and port before the group runs its three members, and when the group ends deregisters that
  -- very service and then closes the tracing, if it has any. The port fits an int, the definition of the
  -- service is marshalled, consul answers the registration, whatever the status, the deregistration
  -- does not panic, whatever consul answers to it, the gRPC server can be made, and the group ends.
  pub start-registered :
      (make : List (ServerOption L) → Server) (host : Host) (app : App L K Server) (server : Server)
      (json end_text : Str) (answer : Answer)
      → let port = app.cfg.port in
        let svc = started_svc host.ip app.cfg.app_name port in
        host.listen_error (port_addr (debug_port port)) ≡ none
        → host.listen_error (port_addr (pos port)) ≡ none
        → Lacks b':' host.ip
        → host.ip ≢ []
        → app.cfg.app_name ≢ []
        → port < int_bound
        → host.env.marshal (make_payload host.env.node_type svc) ≡ ok json
        → host.env.put (default_consul_addr ++ codes "/v1/agent/service/register") json ≡ ok answer
        → base_server L K make app ≡ returned server
        → host.run (actors L K app) ≡ some end_text
        → unregister host.env default_consul_addr svc ≢ panic
        → start L K make host app ≡ (
          listen (port_addr (debug_port port))
              ∷ listen (port_addr (pos port))
              ∷ init_discovery app.cfg.app_name port
              ∷ run_group (actors L K app)
              ∷ deregister svc
              ∷ closing L K app,
          returns,
        )
  unfolding start deferred to_defer
  start-registered make host app server json end_text answer debug_free grpc_free plain some_ip
        some_name bound marshalled answered made ends calm =
      let port = app.cfg.port in
      let svc = started_svc host.ip app.cfg.app_name port in
      let (done, _) =
        start-registers host.env host.ip app.cfg.app_name json port answer plain some_ip some_name
          bound marshalled answered in
      rw debug_free (
        rw grpc_free (
          rw done (
            rw made (
              rw ends (
                ap
                  (λ (r : List (Event K.Closer) × Ending). (
                    listen (port_addr (debug_port port))
                        ∷ listen (port_addr (pos port))
                        ∷ init_discovery app.cfg.app_name port
                        ∷ run_group (actors L K app)
                        ∷ deregister svc
                        ∷ r.0,
                    r.1,
                  ))
                  (after_deregister_calm app _ calm))))))
