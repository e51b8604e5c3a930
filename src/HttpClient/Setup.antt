-- ===== src/HttpClient/Setup.antt =====
-- client/http/client.go: the variables of the package, SetupClient, and a new client from them.
pub mod Effective
pub mod Keyed
pub mod Twice
pub mod Tests
use tiki.Base.{
  non_empty-eq, ◌≡◌, ◌≢◌, refl, ap, ℕ, arith, Bool, List, [], ◌∷◌, Option, none, some, Str, codes,
  str_eq, if◌then◌else◌, Result, ok, err, panic, All,
}
use tiki.Middleware.Vectors.{Registerer, IsRegistry, MetricState, init_hystrix_metrics}
use tiki.Middleware.Vectors.Registered.{init_twice}
use tiki.Go.Maps.{Map, get, put, All-put, All-get}
use tiki.Go.Strings.Laws.{Lacks}
use tiki.HttpClient.Setting.{
  EndpointSetting, FileSettingProvider, setting_key, add_settings, add_targets,
  new_file_setting_provider, get_settings,
}
use tiki.HttpClient.SdConfig.{parse_sd_cfg}
use tiki.HttpClient.Client.{Config, Clients, new_client_with_sd}
use tiki.HttpClient.Client.Invariant.{IsKeyed, WellKeyed, new_client-WellKeyed}

pub record Globals : Type 0 where
  pub source : Str
  pub service_discovery_cfg_str : Str
  pub service_discovery_cfg : Option (Map Str)
  pub setting_provider : Option FileSettingProvider

unfoldable pub initial : Globals
initial = record {
  source = [];
  service_discovery_cfg_str = codes "consul::localhost:8500/dc1";
  service_discovery_cfg = parse_sd_cfg (codes "consul::localhost:8500/dc1");
  setting_provider = none;
}

unfoldable pub set_service_discovery_cfg : Str → Globals → Globals
set_service_discovery_cfg cfg g = record g {
  service_discovery_cfg_str = cfg;
  service_discovery_cfg = parse_sd_cfg cfg;
}

abbrev pub set_source : Str → Globals → Globals
set_source source g = record g { source = source }

abbrev pub set_setting_provider : FileSettingProvider → Globals → Globals
set_setting_provider p g = record g { setting_provider = some p }

-- A provider that cannot be made leaves the one that there is.
abbrev provided : Result FileSettingProvider → Globals → Result Globals
provided (ok p) g = ok (set_setting_provider p g)
provided (err e) g = ok g
provided panic g = panic

abbrev discovered : Str → Result Globals → Result Globals
discovered info (ok g) = ok (if str_eq info [] then g else set_service_discovery_cfg info g)
discovered info (err e) = err e
discovered info panic = panic

-- SetupClient, but for the metrics.
unfoldable pub setup_globals :
    (Str → Result Str)
    → (Str → Result (Map (List EndpointSetting)))
    → Str
    → Str
    → Str
    → Globals
    → Result Globals
unfolding set_service_discovery_cfg new_file_setting_provider
setup_globals read_file unmarshal source upstream_setting discovery_info g =
    let g' = set_source source g in
    discovered discovery_info (
      if str_eq upstream_setting []
      then ok g'
      else provided (new_file_setting_provider read_file unmarshal upstream_setting) g')

-- The variables of the package, and the registries of the metrics.
pub record Process (R : Registerer) : Type 0 where
  pub globals : Globals
  pub metrics : MetricState R

abbrev pub set_up :
    (R : Registerer)
    → Result (MetricState R)
    → (MetricState R → Result Globals)
    → Result (Process R)
set_up R (ok m) rest = elim (rest m) [
  | ok g ↦ ok (record { globals = g; metrics = m })
  | err e ↦ err e
  | panic ↦ panic
]
set_up R (err e) rest = err e
set_up R panic rest = panic

-- initMetrics comes before all that may fail.
unfoldable pub setup_client :
    (R : Registerer)
    → List ℕ
    → (Str → Result Str)
    → (Str → Result (Map (List EndpointSetting)))
    → Str
    → Str
    → Str
    → Process R
    → Result (Process R)
unfolding setup_globals init_hystrix_metrics
setup_client R def_buckets read_file unmarshal source upstream_setting discovery_info p =
    set_up R (init_hystrix_metrics R def_buckets p.metrics)
      (λ m. setup_globals read_file unmarshal source upstream_setting discovery_info p.globals)

abbrev pub settings_of : Option FileSettingProvider → Str → Map EndpointSetting
settings_of none host = []
settings_of (some p) host = get_settings p host

abbrev pub config_of : Globals → (Str → Str → Option Str) → Str → Bool → Config
config_of g new_consul_client host use_service_discovery = record {
  host = host;
  use_service_discovery = use_service_discovery;
  discovery = record {
    service_discovery_cfg = g.service_discovery_cfg;
    new_consul_client = new_consul_client;
  };
}

-- NewClientWithSD, from the provider on.
unfoldable pub new_client : Globals → (Str → Str → Option Str) → Str → Bool → Clients
new_client g new_consul_client host use_service_discovery =
    new_client_with_sd (config_of g new_consul_client host use_service_discovery)
      (settings_of g.setting_provider host)
