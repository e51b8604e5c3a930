-- ===== src/App/Tests.antt =====
-- The theorems on applications, at one that registers in consul and has a file of settings.
use tiki.Base.{
  ℕ, suc, ◌≡◌, refl, sym, ap, ◌∙◌, Bool, Bool-cases, inl, inr, true, false, List, [], ◌∷◌, Option,
  none, some, Str, codes, str_eq, str_eq_iff, str_eq_refl, if◌then◌else◌, ok, panic, arith, pos,
}
use tiki.Go.Maps.{Map}
use tiki.Go.Strings.{contains}
use tiki.GrpcServer.{new_server}
use tiki.GrpcServer.Tests.{library}
use tiki.HttpClient.Client.{default_setting}
use tiki.HttpClient.Client.Invariant.{WellKeyed}
use tiki.HttpClient.SdConfig.{new_consul_endpointer, or_error}
use tiki.HttpClient.Setting.{EndpointSetting}
use tiki.HttpClient.Setup.{initial, config_of, new_client}
use tiki.Middleware.Vectors.Tests.{listed, listed-IsRegistry, none_taken}
use tiki.Registration.{SvcDef, start_registration, unregister, debug_port}
use tiki.Registration.Started.{started_svc}
use tiki.App.{
  ConsulConfig, AppConfig, Viper, Mux, Libraries, App, Runtime, init_config, init_tracing, new,
}
use tiki.App.Made.{IsMux, new-makes}
use tiki.App.Start.{
  listen, init_discovery, run_group, deregister, returns, Host, port_addr, closing, actors,
  base_server, start,
}
use tiki.App.Start.Balanced.{IsBalanced, registered_by, start-IsBalanced}
use tiki.App.Start.Registered.{start-registered}

abbrev handles : List Str → Str → Bool
handles [] p = false
handles (q ∷ s) p = if str_eq q p then true else handles s p

-- The mux as the list of its patterns.
abbrev patterns : Mux
patterns = record {
  State = List Str;
  handle = λ p s. if handles s p then panic else ok (p ∷ s);
  handles = handles;
}

handle-cons :
    (p : Str) (s t : List Str) → (if handles s p then panic else ok (p ∷ s)) ≡ ok t → p ∷ s ≡ t
handle-cons p s t h = elim (Bool-cases (handles s p)) [
  | inl taken ↦ ground (arith, h, taken)
  | inr free ↦ ground (arith, h, free)
]

patterns-IsMux : IsMux patterns
patterns-IsMux = record {
  fresh = λ p s h. (p ∷ s, ap (λ b. if b then panic else ok (p ∷ s)) h);
  handled = λ p s t h.
      ap (λ u. handles u p) (sym (handle-cons p s t h))
      ∙ ap (λ b. if b then true else handles s p) (str_eq_refl p);
  others = λ p q s t apart h.
      ap (λ u. handles u q) (sym (handle-cons p s t h)) ∙ ground (arith, str_eq_iff p q, apart);
  taken = λ p s h. ap (λ b. if b then panic else ok (p ∷ s)) h;
}

abbrev consul : ConsulConfig
consul = record { address = codes "127.0.0.1:8500"; datacenter = codes "dc1" }

abbrev config : AppConfig ℕ
config = record {
  app_name = codes "a.b";
  port = 8080;
  tracing = none;
  service_discovery = record { type = codes "consul"; consul = some consul };
  auth = none;
  upstream_setting = codes "f";
  properties = [];
}

-- A configuration that is always the same.
abbrev fixed : Viper ℕ
fixed = record {
  State = ℕ;
  new = 0;
  set_default = λ k d s. suc s;
  set_config_name = λ n s. s;
  add_config_path = λ p s. s;
  read_in_config = λ s. none;
  set_env_prefix = λ p s. s;
  automatic_env = λ s. s;
  unmarshal = λ s. config;
  get_string_map_string = λ s k. (codes "k", codes "v") ∷ [];
}

abbrev holder : Map (List EndpointSetting)
holder = (codes "svc", default_setting (codes "/u") (codes "GET") ∷ []) ∷ []

abbrev libraries : Libraries
libraries = record {
  Tracing = ℕ;
  Closer = ℕ;
  viper = fixed;
  registerer = listed;
  mux = patterns;
  def_buckets = [];
  read_file = λ path. ok (codes "yaml");
  unmarshal = λ text. ok holder;
  no_tracing = 0;
  init_global_tracer = λ n t. ok 5;
}

abbrev runtime : Runtime libraries
runtime = record {
  mux = [];
  timing = false;
  process = record {
    globals = initial;
    metrics = record { default_registry = []; collectors = [] };
  };
}

new-makes_example :
    (app : App library libraries (List ℕ)) × (s : Runtime libraries) × (new library libraries
        (List ℕ)
        []
        runtime
      ≡ ok (app, s))
    × (app.cfg ≡ init_config fixed (codes "config"))
    × (app.tracing_closer ≡ some 5)
    × (app.registrars ≡ [])
    × (handles s.mux (codes "/metrics") ≡ true)
    × (handles s.mux (codes "/healthcheck") ≡ true)
    × ((new_consul_client : Str → Str → Option Str)
        → new_consul_endpointer new_consul_client s.process.globals.service_discovery_cfg
          ≡ or_error (new_consul_client consul.address consul.datacenter))
    × ((new_consul_client : Str → Str → Option Str) (host : Str) (use_sd : Bool)
        → WellKeyed
            (config_of s.process.globals new_consul_client host use_sd)
            (new_client s.process.globals new_consul_client host use_sd))
unfolding init_config init_tracing str_eq contains
new-makes_example =
    new-makes library libraries (List ℕ) [] (codes "yaml") holder consul (some 5) runtime
      patterns-IsMux listed-IsRegistry refl refl none_taken refl refl (omega arith) (omega arith)
      refl (λ e. ground arith) refl refl ((omega arith, tt), tt)

abbrev app : App library libraries (List ℕ)
app = record {
  cfg_name = codes "config";
  cfg = config;
  registrars = [];
  auth_func = none;
  log_entry = none;
  tracing_closer = some 5;
}

-- Consul refuses with a 500.
abbrev host : Host
host = record {
  listen_error = λ addr. none;
  env = record {
    node_type = none;
    marshal = λ p. ok (codes "json");
    put = λ url body. ok (record { status_code = 500; body = [] });
  };
  ip = codes "10.0.0.1";
  run = λ members. some (codes "received signal interrupt");
}

start-IsBalanced_example :
    IsBalanced
      (base_server library libraries (λ opts. []) app)
      (registered_by (start_registration host.env host.ip (codes "a.b") 8080))
      (start library libraries (λ opts. []) host app)
start-IsBalanced_example = start-IsBalanced library libraries (λ opts. []) host app

abbrev svc_of_app : SvcDef
svc_of_app = started_svc host.ip (codes "a.b") 8080

start-registered_example : start library libraries (λ opts. []) host app ≡ (
  listen (port_addr (debug_port 8080))
      ∷ listen (port_addr (pos 8080))
      ∷ init_discovery (codes "a.b") 8080
      ∷ run_group (actors library libraries app)
      ∷ deregister svc_of_app
      ∷ closing library libraries app,
  returns,
)
unfolding unregister base_server new_server
start-registered_example =
    start-registered library libraries (λ opts. []) host app [] (codes "json")
      (codes "received signal interrupt") (record { status_code = 500; body = [] }) refl refl
      (omega arith) (λ e. ground arith) (λ e. ground arith) (omega arith) refl refl refl refl
      (λ e. ground arith)

abbrev registrars : List (Option (List ℕ → List ℕ))
registrars = some (λ s. 1 ∷ s) ∷ none ∷ some (λ s. 2 ∷ s) ∷ []
