-- ===== src/HttpClient/Client.antt =====
-- client/http/client.go: the client of one host, which makes the client of an endpoint when it is
-- first asked for, and `newEndpointClient` of client/http/endpoint.go. Endpoint clients are shared by
-- pointer: a pointer is a position in a heap that only grows.
pub mod Invariant
pub mod Sharing
pub mod Calls
pub mod Settings
pub mod Tests
use tiki.Base.{
  ℕ, suc, ◌≡◌, refl, Bool, true, false, List, [], ◌∷◌, ◌++◌, Option, none, some, Str, codes, str_eq,
  if◌then◌else◌, Result, ok, err, panic, ◌>>=◌, length, get_elem?, ℤ,
}
use tiki.Go.Maps.{Map, get, put}
use tiki.Middleware.Defs.{World}
use tiki.Middleware.Circuit.{dash, default_cb_config}
use tiki.HttpClient.Setting.{EndpointSetting, with_defaults}
use tiki.HttpClient.SdConfig.{new_consul_endpointer}
use tiki.HttpClient.Endpoint.{EndpointClient, Env, Param, do_raw, do_call}

-- endpointer.SDTypeConsul and SDTypeNone
abbrev pub sd_type_consul : Str
sd_type_consul = codes "consul"

abbrev pub sd_type_none : Str
sd_type_none = codes "none"

-- What an endpoint client is made from beside its setting: the global service discovery map, nil or
-- not, and consul.NewClient.
pub record Discovery : Type 0 where
  pub service_discovery_cfg : Option (Map Str)
  pub new_consul_client : Str → Str → Option Str

-- The endpointer that `init` makes, by the service discovery type.
unfoldable pub init_endpointer : Discovery → Str → Result (Unit {0})
init_endpointer d sd_type =
    if str_eq sd_type sd_type_consul
    then new_consul_endpointer d.new_consul_client d.service_discovery_cfg
    else if str_eq sd_type sd_type_none
    then ok tt
    else err (codes "unsupported sdType :" ++ sd_type)

unfoldable pub new_endpoint_client : Discovery → Str → EndpointSetting → Str → Result EndpointClient
unfolding init_endpointer
new_endpoint_client d host setting sd_type = init_endpointer d sd_type >>= λ _. ok (record {
  host = host;
  uri = setting.uri;
  method = setting.method;
  setting = setting;
  sd_type = sd_type;
  endpoint_map = [];
})

-- The fields of a DefaultClient that never change.
pub record Config : Type 0 where
  pub host : Str
  pub use_service_discovery : Bool
  pub discovery : Discovery

-- The map of a client, and the heap that its pointers lead into.
pub record Clients : Type 0 where
  pub endpoints : Map ℕ
  pub heap : List EndpointClient

abbrev pub stored : Clients → Result EndpointClient → Result ℕ × Clients
stored s (ok c) = (ok (length s.heap), record s { heap = s.heap ++ c ∷ [] })
stored s (err e) = (err e, s)
stored s panic = (panic, s)

-- createEndpointClient: the defaults, then the service discovery type by the flag.
unfoldable pub create_endpoint_client : Config → EndpointSetting → Clients → Result ℕ × Clients
unfolding new_endpoint_client with_defaults
create_endpoint_client cfg setting s = stored s (
    new_endpoint_client cfg.discovery cfg.host
      (record setting { cb_config = with_defaults setting.cb_config })
      (if cfg.use_service_discovery then sd_type_consul else sd_type_none))

abbrev pub default_setting : Str → Str → EndpointSetting
default_setting uri method = record { uri = uri; method = method; cb_config = default_cb_config }

abbrev pub registered : Str → Result ℕ × Clients → Result ℕ × Clients
registered key (ok p, s) = (ok p, record s { endpoints = put s.endpoints key p })
registered key (err e, s) = (err e, s)
registered key (panic, s) = (panic, s)

-- createByDefaultCfg: the section under the write lock.
unfoldable pub create_by_default_cfg : Config → Str → Str → Str → Clients → Result ℕ × Clients
unfolding create_endpoint_client
create_by_default_cfg cfg key uri method s = elim (get s.endpoints key) [
  | some p ↦ (ok p, s)
  | none ↦ registered key (create_endpoint_client cfg (default_setting uri method) s)
]

-- getEndpointClient: the check under the read lock, then the section under the write lock. The loop
-- over all keys behind these, which holds no lock and whose keys nothing uses, is left out: at the same
-- time as a write of another call it may end the process.
unfoldable pub get_endpoint_client : Config → Str → Str → Clients → Result ℕ × Clients
unfolding create_by_default_cfg
get_endpoint_client cfg uri method s = elim (get s.endpoints (dash method uri)) [
  | some p ↦ (ok p, s)
  | none ↦ create_by_default_cfg cfg (dash method uri) uri method s
]

-- The loop of NewClientWithSD over the settings of the host: one that fails is skipped.
unfoldable pub add_clients : Config → Map EndpointSetting → Clients → Clients
unfolding create_endpoint_client
add_clients cfg [] s = s
add_clients cfg ((key, setting) ∷ rest) s =
    add_clients cfg rest (registered key (create_endpoint_client cfg setting s)).1

unfoldable pub new_client_with_sd : Config → Map EndpointSetting → Clients
unfolding add_clients
new_client_with_sd cfg settings = add_clients cfg settings (record { endpoints = []; heap = [] })

-- A call through the client that was got. A nil pointer is one that leads nowhere.
abbrev pub through :
    {T : Type 0}
    → (EndpointClient → World → Result T × World)
    → Result ℕ × Clients
    → World
    → Result T × Clients × World
through call (err e, s) w = (err e, s, w)
through call (panic, s) w = (panic, s, w)
through call (ok p, s) w = elim (get_elem? s.heap p) [
  | none ↦ (err (codes "nil client"), s, w)
  | some c ↦ let (result, w') = call c w in (result, s, w')
]

-- DoRaw of the client.
unfoldable pub client_do_raw :
    {V : Type 0}
    → Config
    → Env V
    → Str
    → Str
    → Param V
    → Clients × World
    → Result (Str × ℤ) × Clients × World
unfolding get_endpoint_client do_raw
client_do_raw cfg env uri method param (s, w) =
    through (λ c w'. do_raw env c uri method param w') (get_endpoint_client cfg uri method s) w

-- Do of the client.
unfoldable pub client_do :
    {V T : Type 0}
    → Config
    → Env V
    → (Str → Result T)
    → Str
    → Str
    → Param V
    → Clients × World
    → Result T × Clients × World
unfolding get_endpoint_client do_call
client_do cfg env unmarshal uri method param (s, w) =
    through (λ c w'. do_call env unmarshal c uri method param w')
      (get_endpoint_client cfg uri method s) w
