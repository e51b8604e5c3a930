-- ===== src/App.antt =====
-- app/app.go, tracing/init.go, config/config.go: an application, from its configuration to its servers.
-- viper, jaeger, the HTTP mux, the listeners and the run group are parameters.
pub mod Start
pub mod Registrars
pub mod Made
pub mod Tests
pub mod Health
pub mod Reached
use tiki.Base.{
  ℕ, ◌≡◌, Bool, true, false, List, [], ◌∷◌, ◌++◌, Option, none, some, Str, codes, str_eq,
  if◌then◌else◌, Result, ok, err, panic, ◌>>=◌, ◌||◌,
}
use tiki.Go.Maps.{Map}
use tiki.GrpcServer.{Library, AuthFunc, AuthConfig}
use tiki.HttpClient.SdConfig.{disc_info}
use tiki.HttpClient.Setting.{EndpointSetting}
use tiki.HttpClient.Setup.{Process, setup_client}
use tiki.Middleware.Vectors.{Registerer}

-- The fields of consulapi.Config that are read.
pub record ConsulConfig : Type 0 where
  pub address : Str
  pub datacenter : Str

-- config.ServiceDiscoveryCfg
pub record ServiceDiscoveryCfg : Type 0 where
  pub type : Str
  pub consul : Option ConsulConfig

-- jaegercfg.Configuration is a type of its own, `Tracing`. A port is not negative.
pub record AppConfig (Tracing : Type 0) : Type 0 where
  pub app_name : Str
  pub port : ℕ
  pub tracing : Option Tracing
  pub service_discovery : ServiceDiscoveryCfg
  pub auth : Option AuthConfig
  pub upstream_setting : Str
  pub properties : Map Str

-- The defaults of initConfig: a text, a number, jaeger's probabilistic sampler with the parameter 1.0,
-- no authentication, or service discovery of a type.
pub data Default : Type 0 where
  text : Str → Default
  number : ℕ → Default
  probabilistic : Default
  no_auth : Default
  discovery : Str → Default

-- viper: its state, and the methods that initConfig calls. ReadInConfig may fail, and Unmarshal fills
-- what it can.
pub record Viper (Tracing : Type 0) : Type 1 where
  pub State : Type 0
  pub new : State
  pub set_default : Str → Default → State → State
  pub set_config_name : Str → State → State
  pub add_config_path : Str → State → State
  pub read_in_config : State → Option State
  pub set_env_prefix : Str → State → State
  pub automatic_env : State → State
  pub unmarshal : State → AppConfig Tracing
  pub get_string_map_string : State → Str → Map Str

abbrev or_unread : {Tracing : Type 0} (V : Viper Tracing) → V.State → Option V.State → V.State
or_unread V s (some t) = t
or_unread V s none = s

-- The defaults, in the order in which they are set.
abbrev defaults : List (Str × Default)
defaults =
    (codes "appname", text [])
    ∷ (codes "port", number 8080)
    ∷ (codes "tracing", probabilistic)
    ∷ (codes "auth", no_auth)
    ∷ (codes "service-discovery", discovery (codes "direct"))
    ∷ []

abbrev set_defaults :
    {Tracing : Type 0} (V : Viper Tracing) → List (Str × Default) → V.State → V.State
set_defaults V [] s = s
set_defaults V ((k, d) ∷ rest) s = set_defaults V rest (V.set_default k d s)

-- initConfig: a file that is not found is only logged.
unfoldable pub init_config : {Tracing : Type 0} → Viper Tracing → Str → AppConfig Tracing
init_config V cfg_name =
    let named =
      V.add_config_path (codes ".") (V.set_config_name cfg_name (set_defaults V defaults V.new)) in
    let s =
      V.automatic_env
        (V.set_env_prefix (codes "TIT") (or_unread V named (V.read_in_config named))) in
    record (V.unmarshal s) { properties = V.get_string_map_string s (codes "props") }

-- http.DefaultServeMux, with the patterns that it has a handler for.
pub record Mux : Type 1 where
  pub State : Type 0
  pub handle : Str → State → Result State
  pub handles : State → Str → Bool

-- What New uses of the libraries: prometheus.DefBuckets, the file of settings and its parser, and
-- InitGlobalTracer of an empty configuration or of one that is given, with the closer that it returns.
pub record Libraries : Type 1 where
  pub Tracing : Type 0
  pub Closer : Type 0
  pub viper : Viper Tracing
  pub registerer : Registerer
  pub mux : Mux
  pub def_buckets : List ℕ
  pub read_file : Str → Result Str
  pub unmarshal : Str → Result (Map (List EndpointSetting))
  pub no_tracing : Tracing
  pub init_global_tracer : Str → Tracing → Result Closer

-- A registrar is a change of the base server.
pub record App (L : Library) (K : Libraries) (Server : Type 0) : Type 0 where
  pub cfg_name : Str
  pub cfg : AppConfig K.Tracing
  pub registrars : List (Server → Server)
  pub auth_func : Option (AuthFunc L)
  pub log_entry : Option L.LogEntry
  pub tracing_closer : Option K.Closer

-- The variables of the process: the mux, whether the handling time is measured, and the HTTP client's.
pub record Runtime (K : Libraries) : Type 0 where
  pub mux : K.mux.State
  pub timing : Bool
  pub process : Process K.registerer

-- tracing.Init
unfoldable pub init_tracing : (K : Libraries) → Str → Option K.Tracing → Result K.Closer
init_tracing K app_name none = K.init_global_tracer app_name K.no_tracing
init_tracing K app_name (some cfg) = K.init_global_tracer app_name cfg

-- initMetrics, then initHealthcheck.
unfoldable pub init_handlers : (K : Libraries) → Runtime K → Result (Runtime K)
init_handlers K r = do
  m ← K.mux.handle (codes "/metrics") r.mux
  n ← K.mux.handle (codes "/healthcheck") m
  ok (record { mux = n; timing = true; process = r.process })

-- An error of tracing is only logged.
abbrev pub closer_of {ℓ} : {A : Type ℓ} → Result A → Result (Option A)
closer_of (ok c) = ok (some c)
closer_of (err e) = ok none
closer_of panic = panic

abbrev pub info_of : Option ConsulConfig → Str
info_of none = []
info_of (some c) = disc_info c.address c.datacenter

abbrev pub name_or_config : Str → Str
name_or_config cfg_name = if str_eq cfg_name [] then codes "config" else cfg_name

-- New: the application, and the process that it sets up.
unfoldable pub new :
    (L : Library) (K : Libraries) (Server : Type 0)
    → Str
    → Runtime K
    → Result (App L K Server × Runtime K)
unfolding init_config init_handlers init_tracing
new L K Server cfg_name r =
    let cfg = init_config K.viper (name_or_config cfg_name) in
    do
      handled ← init_handlers K r
      closer ← closer_of (init_tracing K cfg.app_name cfg.tracing)
      process ←
          setup_client K.registerer K.def_buckets K.read_file K.unmarshal cfg.app_name
            cfg.upstream_setting (info_of cfg.service_discovery.consul) handled.process
      ok (
        record {
          cfg_name = name_or_config cfg_name;
          cfg = cfg;
          registrars = [];
          auth_func = none;
          log_entry = none;
          tracing_closer = closer;
        },
        record handled { process = process },
      )

module _ {L : Library} {K : Libraries} {Server : Type 0} where
  unfoldable pub set_auth_func : Option (AuthFunc L) → App L K Server → App L K Server
  set_auth_func f app = record app { auth_func = f }

  -- A registrar that is nil is left out.
  unfoldable pub register_grpc_server : Option (Server → Server) → App L K Server → App L K Server
  register_grpc_server none app = app
  register_grpc_server (some r) app = record app { registrars = app.registrars ++ r ∷ [] }

  unfoldable pub get_config_props : App L K Server → Map Str
  get_config_props app = app.cfg.properties
