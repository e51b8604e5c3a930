-- ===== src/Middleware/Circuit.antt =====
-- client/http/middleware/circuit_break.go: the circuit breaker and its registry of commands.
pub mod Registry
pub mod Orphans
pub mod Tests
use tiki.Base.{
  ℕ, ◌≡◌, refl, Bool, true, false, List, [], ◌∷◌, ◌++◌, Option, none, some, Str, codes,
  if◌then◌else◌, ℤ, pos, get_elem?,
}
use tiki.Go.Maps.{Map, get, put, delete}
use tiki.Go.Strings.{split}
use tiki.Middleware.Defs.{
  Request, http, nil_http, other_request, Value, nil, Reply, returns, panics, CommandConfig, World,
  Endpoint, nil_dereference, index_out_of_range,
}

unfoldable pub default_cb_config : CommandConfig
default_cb_config = record {
  timeout = pos 5000;
  max_concurrent_requests = pos 500;
  request_volume_threshold = pos 20;
  sleep_window = pos 5000;
  error_percent_threshold = pos 50;
}

-- `if _, ok := configed[cmd]; ok`
unfoldable pub is_configed : World → Str → Bool
is_configed w cmd = elim (get w.configed cmd) [ none ↦ false | some key ↦ true ]

-- The section of configCmd under the write lock.
unfoldable pub config_locked : Str → Str → CommandConfig → World → World
unfolding is_configed
config_locked cmd key cfg w = if is_configed w cmd then w else record w {
  configed = put w.configed cmd key;
  cmd_map = put w.cmd_map key cmd;
  commands = (cmd, cfg) ∷ w.commands;
}

-- The check under the read lock comes first.
unfoldable pub config_cmd : Str → Str → CommandConfig → World → World
unfolding config_locked
config_cmd cmd key cfg w = if is_configed w cmd then w else config_locked cmd key cfg w

unfoldable pub cleanup_endpoint : Str → World → World
cleanup_endpoint key w =
    let w' : World = elim (get w.cmd_map key) [
      | none ↦ w
      | some cmd ↦ record w { configed = delete w.configed cmd }
    ] in
    record w' { cmd_map = delete w'.cmd_map key }

-- (open, ok); `get_circuit cmd` is hystrix.GetCircuit with IsOpen, `none` its error.
unfoldable pub is_circuit_open : (Str → Option Bool) → World → Str → Bool × Bool
is_circuit_open get_circuit w key = elim (get w.cmd_map key) [
  | none ↦ (false, false)
  | some cmd ↦ elim (get_circuit cmd) [ none ↦ (false, false) | some open' ↦ (open', true) ]
]

-- `<a>-<b>`
abbrev pub dash : Str → Str → Str
dash a b = a ++ b'-' ∷ b

-- The key `<addr>-<uri>-<method>` of an endpoint.
abbrev pub endpoint_key : Str → Str → Str → Str
endpoint_key addr uri method = dash addr (dash uri method)

-- The address of the request, or a panic at a nil one.
unfoldable pub request_addr : Request → Option Str
request_addr (http r) = some r.host
request_addr nil_http = none
request_addr other_request = some (codes "0.0.0.0")

-- `hystrix.Do(cmd, run, nil)` with what it leaves in the captured `resp`: a parameter.
abbrev pub HystrixDo : Type 0
HystrixDo = Str → (World → Reply × World) → World → (Option Str × Value) × World

abbrev pub finish : (Option Str × Value) × World → Reply × World
finish ((some e, resp), w) = (returns nil (some e), w)
finish ((none, resp), w) = (returns resp none, w)

-- `segs[2]` and `segs[3]` panic where there are fewer than four segments.
unfoldable pub breaker_at :
    HystrixDo → Str → CommandConfig → Endpoint → Request → Str → List Str → World → Reply × World
unfolding config_cmd
breaker_at hystrix_do command_name cfg next request addr (_ ∷ _ ∷ uri ∷ method ∷ _) w =
    let cmd = dash command_name addr in
    let w' = config_cmd cmd (endpoint_key addr uri method) cfg w in
    finish (hystrix_do cmd (next request) w')
breaker_at hystrix_do command_name cfg next request addr segs w = (panics index_out_of_range, w)

unfoldable pub circuit_breaker : HystrixDo → Str → CommandConfig → Endpoint → Endpoint
unfolding breaker_at request_addr
circuit_breaker hystrix_do command_name cfg next request w = elim (request_addr request) [
  | none ↦ (panics nil_dereference, w)
  | some addr ↦
      breaker_at hystrix_do command_name cfg next request addr (split command_name (codes "-")) w
]
