-- ===== src/Registration.antt =====
-- sd/init.go, sd/consul.go, utils/utils.go, and what app/app.go passes to them: the registration of a
-- service in consul. The network interfaces, the environment, the JSON encoder and the HTTP request
-- are parameters.
pub mod Started
pub mod Tests
use tiki.Base.{
  ℕ, suc, ◌-◌, ◌≡◌, Bool, true, false, List, [], ◌∷◌, ◌++◌, Option, none, some, Str, codes, str_eq,
  leb, ◌==◌, if◌then◌else◌, Result, ok, err, panic, ◌>>=◌, ℤ, pos, negsuc,
}
use tiki.Go.Strings.{split, replace_all}
use tiki.Go.Strconv.{atoi, format_int}

-- A network interface: its name and its addresses, which may fail to be read.
pub record Iface : Type 0 where
  pub name : Str
  pub addrs : Option (List Str)

-- The loops of GetIP.
unfoldable pub first_ip : List Iface → Str
first_ip [] = []
first_ip (i ∷ rest) =
    let later = first_ip rest in
    elim i.addrs [
      | none ↦ later
      | some addrs ↦
          if str_eq i.name (codes "lo") then later else (elim addrs [ [] ↦ later | a ∷ more ↦ a ])
    ]

unfoldable pub get_ip : Option (List Iface) → Str
unfolding first_ip
get_ip none = []
get_ip (some ifaces) = first_ip ifaces

pub record ServiceDiscovery : Type 0 where
  pub type : Str
  pub reg_addr : Str
  pub svc_name : Str
  pub check_endpoint : Str
  pub check_addr : Str

pub record HealthCheck : Type 0 where
  pub type : Str
  pub content : Str
  pub interval : ℤ
  pub timeout : ℤ

pub record SvcDef : Type 0 where
  pub name : Str
  pub id : Str
  pub addr : Str
  pub port : ℤ
  pub tags : List Str
  pub health_check : Option HealthCheck

-- The `check` of the payload: `http` or `script` with its content, and the two durations.
pub record Check : Type 0 where
  pub kind : Str
  pub content : Str
  pub interval : Str
  pub timeout : Str

pub record Payload : Type 0 where
  pub name : Str
  pub id : Str
  pub address : Str
  pub port : ℤ
  pub check : Option Check
  pub tags : Option (List Str)

-- `if x > 0`, else the default.
abbrev positive_or : ℤ → ℕ → ℤ
positive_or (pos n) d = if n == 0 then pos d else pos n
positive_or (negsuc n) d = pos d

-- `fmt.Sprintf("%ds", n)`
abbrev in_seconds : ℤ → Str
in_seconds n = format_int n ++ codes "s"

unfoldable pub make_check : HealthCheck → Option Check
make_check h =
    let check : Check = record {
      kind = h.type;
      content = h.content;
      interval = in_seconds (positive_or h.interval 3);
      timeout = in_seconds (positive_or h.timeout 1);
    } in
    if str_eq h.type (codes "http")
    then some check
    else if str_eq h.type (codes "script")
    then some check
    else none

-- The tags of the service, then NODE_TYPE of the environment if it is set and not empty.
unfoldable pub make_tags : List Str → Option Str → List Str
make_tags tags none = tags
make_tags tags (some node_type) = if str_eq node_type [] then tags else tags ++ node_type ∷ []

abbrev pub non_empty : List Str → Option (List Str)
non_empty [] = none
non_empty (t ∷ ts) = some (t ∷ ts)

unfoldable pub make_payload : Option Str → SvcDef → Payload
unfolding make_check make_tags
make_payload node_type svc = record {
  name = svc.name;
  id = svc.id;
  address = svc.addr;
  port = svc.port;
  check = elim svc.health_check [ none ↦ none | some h ↦ make_check h ];
  tags = non_empty (make_tags svc.tags node_type);
}

-- What consul answers.
pub record Answer : Type 0 where
  pub status_code : ℕ
  pub body : Str

-- The world of a registration: NODE_TYPE, json.Marshal, and a PUT of a body to a URL.
pub record Env : Type 0 where
  pub node_type : Option Str
  pub marshal : Payload → Result Str
  pub put : Str → Str → Result Answer

unfoldable pub register : Env → Str → SvcDef → Result Bool
unfolding make_payload
register env addr svc = do
  json ← env.marshal (make_payload env.node_type svc)
  answer ← env.put (addr ++ codes "/v1/agent/service/register") json
  ok true

unfoldable pub unregister : Env → Str → SvcDef → Result Bool
unregister env addr svc = do
  answer ← env.put (addr ++ (codes "/v1/agent/service/deregister/" ++ svc.id)) []
  ok true

abbrev pub default_consul_addr : Str
default_consul_addr = codes "http://127.0.0.1:8500"

abbrev pub default_check_endpoint : Str
default_check_endpoint = codes "/healthcheck"

-- The port of `<host>:<port>`, 80 without a colon, or the error of Atoi on the second segment.
unfoldable pub parse_port : List Str → Option ℤ
parse_port [] = some (pos 80)
parse_port (host ∷ []) = some (pos 80)
parse_port (host ∷ port ∷ rest) = atoi port

-- The slash that the endpoint of the check begins with is added where it is missing.
unfoldable pub check_path : Str → Str
check_path [] = default_check_endpoint
check_path (c ∷ path) = if c == b'/' then c ∷ path else b'/' ∷ c ∷ path

-- `<a>:<b>`
abbrev pub colon : Str → Str → Str
colon a b = a ++ b':' ∷ b

unfoldable pub make_svc : ServiceDiscovery → Str → ℤ → SvcDef
unfolding check_path
make_svc sd ip port = record {
  name = sd.svc_name;
  id = ip ++ b'-' ∷ (format_int port ++ b'-' ∷ replace_all sd.svc_name b'.' b'_');
  addr = ip;
  port = port;
  tags = [];
  health_check = some (record {
    type = codes "http";
    content =
        codes "http://"
        ++ ((if str_eq sd.check_addr [] then colon ip (format_int port) else sd.check_addr)
            ++ check_path sd.check_endpoint);
    interval = pos 0;
    timeout = pos 0;
  });
}

-- The three results: the address of the registeror, the service, and the error.
pub record Initialized : Type 0 where
  pub registeror : Option Str
  pub svc : Option SvcDef
  pub error : Option Str

abbrev pub refused : Str → Initialized
refused e = record { registeror = none; svc = none; error = some e }

abbrev registered : Str → SvcDef → Result Bool → Result Initialized
registered addr svc (ok b) = ok (record { registeror = some addr; svc = some svc; error = none })
registered addr svc (err e) = ok (record { registeror = none; svc = some svc; error = some e })
registered addr svc panic = panic

abbrev with_port : Env → ServiceDiscovery → Str → Str → Str → Option ℤ → Result Initialized
with_port env sd addr ip listen_addr none =
    ok (refused (codes "cannot get port from server->listen_addr: " ++ listen_addr))
with_port env sd addr ip listen_addr (some port) =
    registered addr (make_svc sd ip port) (register env addr (make_svc sd ip port))

-- InitServiceDiscovery, where `ip` is what GetIP gives.
unfoldable pub init_service_discovery : Env → Str → ServiceDiscovery → Str → Result Initialized
unfolding make_svc register parse_port
init_service_discovery env ip sd listen_addr =
    if str_eq sd.type (codes "consul")
    then (if str_eq ip []
        then ok (refused (codes "cannot get IP"))
        else if str_eq sd.svc_name []
        then ok (refused (codes "service name not given"))
        else with_port env sd (if str_eq sd.reg_addr [] then default_consul_addr else sd.reg_addr)
            ip listen_addr (parse_port (split listen_addr (codes ":"))))
    else ok (refused (codes "service discovery type [" ++ (sd.type ++ codes "] not supported")))

-- app.go: `port - 2000`, the port of the debug server.
unfoldable pub debug_port : ℕ → ℤ
debug_port port = if leb 2000 port then pos (port - 2000) else negsuc (2000 - port - 1)

-- What Start registers.
unfoldable pub start_registration : Env → Str → Str → ℕ → Result Initialized
unfolding init_service_discovery debug_port
start_registration env ip app_name port =
    init_service_discovery env ip
      (record {
        type = codes "consul";
        reg_addr = [];
        svc_name = app_name;
        check_endpoint = codes "/healthcheck";
        check_addr = colon ip (format_int (debug_port port));
      })
      (colon ip (format_int (pos port)))
