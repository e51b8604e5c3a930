-- ===== src/App/Made.antt =====
-- app/app.go: what New makes, and that a process makes one application only.
use tiki.Base.{
  ◌≡◌, ◌≢◌, refl, sym, ap, ◌∙◌, Bool, true, false, List, [], ◌∷◌, ◌++◌, All, Option, none, some,
  Str, codes, ok, panic, arith, ok_injective, bind-ok,
}
use tiki.GrpcServer.{Library}
use tiki.HttpClient.SdConfig.{disc_info, new_consul_endpointer, or_error, parse-disc_info}
use tiki.HttpClient.Setup.{setup_client}
use tiki.Go.Maps.{Map}
use tiki.Go.Strings.{contains}
use tiki.Go.Strings.Laws.{Lacks}
use tiki.HttpClient.Setting.{EndpointSetting}
use tiki.HttpClient.Client.Invariant.{WellKeyed}
use tiki.HttpClient.Setup.{config_of, new_client}
use tiki.HttpClient.Setup.Keyed.{Dashless, setup-WellKeyed}
use tiki.Middleware.Vectors.{IsRegistry}
use tiki.Middleware.Vectors.Registered.{names, metric, init-registers}
use tiki.App.{
  ConsulConfig, Mux, Libraries, App, Runtime, init_config, init_handlers, init_tracing, closer_of,
  info_of, name_or_config, new,
}

-- The documented behaviour of Handle: a pattern that has no handler yet gets one, and the others stay
-- as they are; a pattern that has one makes it panic.
pub record IsMux (M : Mux) : Type 0 where
  pub fresh :
      (p : Str) (s : M.State) → M.handles s p ≡ false → (t : M.State) × (M.handle p s ≡ ok t)
  pub handled : (p : Str) (s t : M.State) → M.handle p s ≡ ok t → M.handles t p ≡ true
  pub others :
      (p q : Str) (s t : M.State) → p ≢ q → M.handle p s ≡ ok t → M.handles t q ≡ M.handles s q
  pub taken : (p : Str) (s : M.State) → M.handles s p ≡ true → M.handle p s ≡ panic

apart : codes "/metrics" ≢ codes "/healthcheck"
apart h = ground (arith, h)

apart_back : codes "/healthcheck" ≢ codes "/metrics"
apart_back h = ground (arith, h)

-- A mux with neither pattern gets both.
handlers-fresh :
    (K : Libraries) (r : Runtime K)
    → IsMux K.mux
    → K.mux.handles r.mux (codes "/metrics") ≡ false
    → K.mux.handles r.mux (codes "/healthcheck") ≡ false
    → (n : K.mux.State) × (init_handlers K r
        ≡ ok (record { mux = n; timing = true; process = r.process }))
      × (K.mux.handles n (codes "/metrics") ≡ true)
      × (K.mux.handles n (codes "/healthcheck") ≡ true)
unfolding init_handlers
handlers-fresh K r law no_metrics no_health =
    let (m, first) = law.fresh (codes "/metrics") r.mux no_metrics in
    let (n, second) =
      law.fresh (codes "/healthcheck") m (law.others _ _ r.mux m apart first ∙ no_health) in
    (
      n,
      rw first (rw second refl),
      law.others _ _ m n apart_back second ∙ law.handled _ r.mux m first,
      law.handled _ m n second,
    )

-- After New the pattern of the metrics has a handler.
handlers-metrics :
    (K : Libraries) (r s : Runtime K)
    → IsMux K.mux
    → init_handlers K r ≡ ok s
    → K.mux.handles s.mux (codes "/metrics") ≡ true
unfolding init_handlers
handlers-metrics K r s law h =
    let (m, first, rest) = bind-ok (K.mux.handle (codes "/metrics") r.mux) _ s h in
    let (n, second, done) = bind-ok (K.mux.handle (codes "/healthcheck") m) _ s rest in
    ap (λ (q : Runtime K). K.mux.handles q.mux (codes "/metrics")) (sym (ok_injective done))
    ∙ law.others _ _ m n apart_back second
    ∙ law.handled _ r.mux m first

handlers-taken :
    (K : Libraries) (r : Runtime K)
    → IsMux K.mux
    → K.mux.handles r.mux (codes "/metrics") ≡ true
    → init_handlers K r ≡ panic
unfolding init_handlers
handlers-taken K r law h = rw (law.taken (codes "/metrics") r.mux h) refl

-- In a process in which New has returned once, a second New panics, whatever its configuration: the
-- handler of the metrics is registered already.
pub new_twice :
    (L : Library) (K : Libraries) (Server : Type 0) (name name' : Str) (r s : Runtime K)
    (app : App L K Server)
    → IsMux K.mux
    → new L K Server name r ≡ ok (app, s)
    → new L K Server name' s ≡ panic
unfolding new
new_twice L K Server name name' r s app law made =
    let (t, handled, rest) = bind-ok (init_handlers K r) _ (app, s) made in
    let (closer, traced, rest') = bind-ok (closer_of (init_tracing K _ _)) _ (app, s) rest in
    let (process, set_up, done) =
      bind-ok (setup_client K.registerer _ _ _ _ _ _ t.process) _ (app, s) rest' in
    rw
      (handlers-taken K s law (
        ap (λ (q : App L K Server × Runtime K). K.mux.handles q.1.mux (codes "/metrics"))
          (sym (ok_injective done))
        ∙ handlers-metrics K r t law handled))
      refl

disc_info_ne : (address datacenter : Str) → disc_info address datacenter ≢ []
unfolding disc_info
disc_info_ne address datacenter h = ground (arith, h)

-- In a process that has neither of the two handlers and none of the metrics, with a consul in the
-- configuration and a file of settings that is read and parsed and whose methods hold no dash, New
-- returns, whether or not the tracing can be made: the application has the configuration that viper
-- gave and no registrars, /metrics and /healthcheck have handlers, an endpointer looks for instances at
-- the address and in the datacenter of that consul, and every client that is made afterwards is well
-- keyed. Neither the address, which so has no scheme, nor the datacenter holds a slash, and the two with
-- the slash between them hold no `::`.
pub new-makes :
    (L : Library) (K : Libraries) (Server : Type 0) (name content : Str)
    (holder : Map (List EndpointSetting)) (consul : ConsulConfig) (closer : Option K.Closer)
    (r : Runtime K)
    → let cfg = init_config K.viper (name_or_config name) in
      IsMux K.mux
      → IsRegistry K.registerer
      → K.mux.handles r.mux (codes "/metrics") ≡ false
      → K.mux.handles r.mux (codes "/healthcheck") ≡ false
      → All (λ n. K.registerer.holds r.process.metrics.default_registry (metric n) ≡ false) names
      → closer_of (init_tracing K cfg.app_name cfg.tracing) ≡ ok closer
      → cfg.service_discovery.consul ≡ some consul
      → Lacks b'/' consul.address
      → Lacks b'/' consul.datacenter
      → contains (codes "::") (consul.address ++ b'/' ∷ consul.datacenter) ≡ false
      → cfg.upstream_setting ≢ []
      → K.read_file cfg.upstream_setting ≡ ok content
      → K.unmarshal content ≡ ok holder
      → Dashless holder
      → (app : App L K Server) × (s : Runtime K) × (new L K Server name r ≡ ok (app, s))
        × (app.cfg ≡ cfg)
        × (app.tracing_closer ≡ closer)
        × (app.registrars ≡ [])
        × (K.mux.handles s.mux (codes "/metrics") ≡ true)
        × (K.mux.handles s.mux (codes "/healthcheck") ≡ true)
        × ((new_consul_client : Str → Str → Option Str)
            → new_consul_endpointer new_consul_client s.process.globals.service_discovery_cfg
              ≡ or_error (new_consul_client consul.address consul.datacenter))
        × ((new_consul_client : Str → Str → Option Str) (host : Str) (use_sd : Bool)
            → WellKeyed
                (config_of s.process.globals new_consul_client host use_sd)
                (new_client s.process.globals new_consul_client host use_sd))
unfolding new
new-makes L K Server name content holder consul closer r mux_law law no_metrics no_health free
      traced with_consul plain_address plain_datacenter plain_info some_file read parsed dashless =
    let cfg = init_config K.viper (name_or_config name) in
    let info = disc_info consul.address consul.datacenter in
    let (n, handled, metrics, health) = handlers-fresh K r mux_law no_metrics no_health in
    let (m, metered, _, _) = init-registers K.registerer K.def_buckets r.process.metrics law free in
    let (q, set_up, _, discovered, keyed) =
      setup-WellKeyed K.registerer K.def_buckets K.read_file K.unmarshal cfg.app_name
        cfg.upstream_setting info content holder r.process m some_file
        (disc_info_ne consul.address consul.datacenter) metered read parsed dashless in
    let same = ap (λ (o : Option ConsulConfig). info_of o) with_consul in
    (
      record {
        cfg_name = name_or_config name;
        cfg = cfg;
        registrars = [];
        auth_func = none;
        log_entry = none;
        tracing_closer = closer;
      },
      record { mux = n; timing = true; process = q },
      rw handled (rw traced (rw same (rw set_up refl))),
      refl,
      refl,
      refl,
      metrics,
      health,
      λ connect.
          let (_, as_map, _, _, _, connects) =
            parse-disc_info connect consul.address consul.datacenter plain_address plain_datacenter
              plain_info in
          ap (new_consul_endpointer connect) (discovered ∙ as_map) ∙ connects,
      keyed,
    )
