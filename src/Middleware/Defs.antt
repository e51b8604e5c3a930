-- ===== src/Middleware/Defs.antt =====
-- client/http/middleware: requests, replies, endpoints, and the variables that the middlewares keep.
use tiki.Base.{List, [], ◌∷◌, ◌++◌, Option, Str, codes, ℤ}
use tiki.Go.Maps.{Map}

-- *http.Request, as far as the middlewares read it.
pub record HttpRequest : Type 0 where
  pub method : Str
  pub host : Str
  pub request_uri : Str
  pub body : Str

-- The `request interface{}` of an endpoint: an *http.Request, a nil one, or another value.
pub data Request : Type 0 where
  http : HttpRequest → Request
  nil_http : Request
  other_request : Request

-- A value of an `[]interface{}`: []byte, int, or another.
pub data Item : Type 0 where
  bytes : Str → Item
  int : ℤ → Item
  other_item : Item

-- The `interface{}` that an endpoint returns: nil, an `[]interface{}`, or another value.
pub data Value : Type 0 where
  nil : Value
  array : List Item → Value
  other_value : Value

-- An endpoint returns a value and an error, or panics with a reason.
pub data Reply : Type 0 where
  returns : Value → Option Str → Reply
  panics : Str → Reply

-- hystrix.CommandConfig
pub record CommandConfig : Type 0 where
  pub timeout : ℤ
  pub max_concurrent_requests : ℤ
  pub request_volume_threshold : ℤ
  pub sleep_window : ℤ
  pub error_percent_threshold : ℤ

-- The calls of the metrics and tracing libraries, with the label values of each.
pub data Event : Type 0 where
  observe_latency : List Str → Event
  add_call : List Str → Event
  add_err_code : List Str → Event
  start_span : Str → Str → Str → Event
  finish_span : Str → Event

-- The package's variables: the two maps of circuit_break.go, the calls of hystrix.ConfigureCommand,
-- latest first, and what metrics and tracing recorded, in order.
pub record World : Type 0 where
  pub configed : Map Str
  pub cmd_map : Map Str
  pub commands : Map CommandConfig
  pub events : List Event

-- The reasons of Go's own panics that the code can meet, without the numbers that Go adds.
abbrev pub nil_dereference : Str
nil_dereference = codes "runtime error: invalid memory address or nil pointer dereference"

abbrev pub index_out_of_range : Str
index_out_of_range = codes "runtime error: index out of range"

abbrev pub init : World
init = record { configed = []; cmd_map = []; commands = []; events = [] }

abbrev pub Endpoint : Type 0
Endpoint = Request → World → Reply × World

abbrev pub emit : Event → World → World
emit e w = record w { events = w.events ++ e ∷ [] }
