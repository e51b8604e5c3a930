-- ===== src/HttpClient/Setup/Keyed.antt =====
-- client/http/client.go: what the clients that are made after SetupClient have.
use tiki.Base.{
  non_empty-eq, ◌≡◌, ◌≢◌, refl, ℕ, Bool, List, [], ◌∷◌, Option, none, some, Str, Result, ok, All,
}
use tiki.Middleware.Vectors.{Registerer, MetricState, init_hystrix_metrics}
use tiki.Go.Maps.{Map, get, put, All-put, All-get}
use tiki.Go.Strings.Laws.{Lacks}
use tiki.HttpClient.Setting.{
  EndpointSetting, setting_key, add_settings, add_targets, new_file_setting_provider, get_settings,
}
use tiki.HttpClient.SdConfig.{parse_sd_cfg}
use tiki.HttpClient.Client.Invariant.{IsKeyed, WellKeyed, new_client-WellKeyed}
use tiki.HttpClient.Setup.{
  setup_globals, set_service_discovery_cfg, Process, setup_client, config_of, new_client,
}

-- No method in the file holds a dash.
abbrev pub Dashless : Map (List EndpointSetting) → Type 0
Dashless =
    All (λ (t : Str × List EndpointSetting). All (λ (s : EndpointSetting). Lacks b'-' s.method) t.1)

add_settings-IsKeyed :
    (m : Map EndpointSetting) (settings : List EndpointSetting)
    → All IsKeyed m
    → All (λ (s : EndpointSetting). Lacks b'-' s.method) settings
    → All IsKeyed (add_settings m settings)
unfolding add_settings setting_key
add_settings-IsKeyed m [] a l = a
add_settings-IsKeyed m (s ∷ rest) a l =
    add_settings-IsKeyed (put m (setting_key s) s) rest
      (All-put IsKeyed m (setting_key s) s a (refl, l.0)) l.1

abbrev KeyedTarget : Str × Map EndpointSetting → Type 0
KeyedTarget t = All IsKeyed t.1

add_targets-KeyedTarget :
    (m : Map (Map EndpointSetting)) (holder : Map (List EndpointSetting))
    → All KeyedTarget m
    → Dashless holder
    → All KeyedTarget (add_targets m holder)
unfolding add_targets
add_targets-KeyedTarget m [] a l = a
add_targets-KeyedTarget m ((target, settings) ∷ rest) a l =
    add_targets-KeyedTarget (put m target (add_settings [] settings)) rest
      (All-put KeyedTarget m target (add_settings [] settings) a
        (add_settings-IsKeyed [] settings tt l.0))
      l.1

get_settings-IsKeyed :
    (path host : Str) (m : Map (Map EndpointSetting))
    → All KeyedTarget m
    → All IsKeyed (get_settings (record { path = path; setting_map = m }) host)
unfolding get_settings
get_settings-IsKeyed path host m a = go (get m host) refl
  where
    go :
        (o : Option (Map EndpointSetting))
        → get m host ≡ o
        → All IsKeyed (get_settings (record { path = path; setting_map = m }) host)
    go none e = rw (e, get_settings) tt
    go (some s) e = rw (e, get_settings) (All-get KeyedTarget m host s a e)

-- When the metrics can be registered, the file of settings is read and parsed and none of its methods
-- holds a dash, SetupClient succeeds, and in every client that is made afterwards, for whatever host,
-- each pointer of the map leads to an endpoint client of the host whose method and URI make the key.
-- The text of the service discovery, if it is given, replaces the configuration.
pub setup-WellKeyed :
    (R : Registerer) (def_buckets : List ℕ) (read_file : Str → Result Str)
    (unmarshal : Str → Result (Map (List EndpointSetting))) (source path info content : Str)
    (holder : Map (List EndpointSetting)) (p : Process R) (m : MetricState R)
    → path ≢ []
    → info ≢ []
    → init_hystrix_metrics R def_buckets p.metrics ≡ ok m
    → read_file path ≡ ok content
    → unmarshal content ≡ ok holder
    → Dashless holder
    → (q : Process R) × (setup_client R def_buckets read_file unmarshal source path info p ≡ ok q)
      × (q.metrics ≡ m)
      × (q.globals.service_discovery_cfg ≡ parse_sd_cfg info)
      × ((new_consul_client : Str → Str → Option Str) (host : Str) (use_sd : Bool)
          → WellKeyed
              (config_of q.globals new_consul_client host use_sd)
              (new_client q.globals new_consul_client host use_sd))
unfolding new_client setup_client setup_globals set_service_discovery_cfg new_file_setting_provider
setup-WellKeyed R def_buckets read_file unmarshal source path info content holder p m some_path
      some_info metered r u l =
    (
      record {
        globals = record {
          source = source;
          service_discovery_cfg_str = info;
          service_discovery_cfg = parse_sd_cfg info;
          setting_provider = some (record { path = path; setting_map = add_targets [] holder });
        };
        metrics = m;
      },
      rw metered (rw (non_empty-eq path some_path, r, u) (rw (non_empty-eq info some_info))),
      refl,
      refl,
      λ connect host use_sd. new_client-WellKeyed _ _ (
          get_settings-IsKeyed path host (add_targets [] holder)
            (add_targets-KeyedTarget [] holder tt l)),
    )
