-- ===== src/App/Start.antt =====
-- app/app.go: Start, as the events that it brings about in their order. The ports, the registration,
-- grpc.NewServer and the run group are parameters: `g.Run` starts its members, and returns when all of
-- them have.
pub mod Balanced
pub mod Registered
use tiki.Base.{
  ℕ, ◌≡◌, Bool, true, false, List, [], ◌∷◌, ◌++◌, Option, none, some, Str, codes, ℤ, pos,
  if◌then◌else◌, Result, ok, err, panic, Exiting, returned, exited,
}
use tiki.Go.Strconv.{format_int}
use tiki.GrpcServer.{Library, ServerOption, new_server}
use tiki.Registration.{Env, SvcDef, Initialized, unregister, debug_port, start_registration}
use tiki.App.{Libraries, App}

-- The members of the run group: http.Serve on the debug port, the gRPC server, and the wait for a
-- signal.
pub data Actor : Type 0 where
  serve_debug : Str → Actor
  serve_grpc : Str → Actor
  wait_for_signal : Actor

-- What Start does to the outside.
pub data Event (Closer : Type 0) : Type 0 where
  listen : Str → Event Closer
  init_discovery : Str → ℕ → Event Closer
  run_group : List Actor → Event Closer
  deregister : SvcDef → Event Closer
  close_tracing : Closer → Event Closer

-- How Start ends: it returns, the process exits with a status, it panics, or the group runs on.
pub data Ending : Type 0 where
  returns : Ending
  exits : ℕ → Ending
  panics : Ending
  runs_on : Ending

-- The world of Start: the error of net.Listen at an address, the registration's world, the address of
-- the machine, and what `g.Run` returns, if ever, where no member ends the process.
pub record Host : Type 0 where
  pub listen_error : Str → Option Str
  pub env : Env
  pub ip : Str
  pub run : List Actor → Option Str

-- `fmt.Sprintf(":%d", port)`
abbrev pub port_addr : ℤ → Str
port_addr p = codes ":" ++ format_int p

-- The registrars, on the base server, in the order of the list.
abbrev pub register_all {ℓ} : {Server : Type ℓ} → List (Server → Server) → Server → Server
register_all [] s = s
register_all (r ∷ rs) s = register_all rs (r s)

-- `defer reg.Unregister(svc)`, where the registration gave no error: with a nil registeror the statement
-- panics.
unfoldable pub to_defer : Initialized → Result (Option (Str × Option SvcDef))
to_defer i = elim i.error [
  | some e ↦ ok none
  | none ↦ elim i.registeror [ none ↦ panic | some addr ↦ ok (some (addr, i.svc)) ]
]

module _ (L : Library) (K : Libraries) {Server : Type 0} where
  -- The first deferred call, which is made last. os.Exit skips it.
  abbrev pub closing : App L K Server → List (Event K.Closer)
  closing app = elim app.tracing_closer [ none ↦ [] | some c ↦ close_tracing c ∷ [] ]

  abbrev pub after_deregister : App L K Server → Result Bool → List (Event K.Closer) × Ending
  after_deregister app (ok b) = (closing app, returns)
  after_deregister app (err e) = (closing app, returns)
  after_deregister app panic = (closing app, panics)

  -- The deferred calls behind `g.Run`: of a service that was registered, if any, and of the tracing.
  unfoldable pub deferred :
      Host → App L K Server → Option (Str × Option SvcDef) → List (Event K.Closer) × Ending
  deferred host app none = (closing app, returns)
  deferred host app (some (addr, none)) = (closing app, panics)
  deferred host app (some (addr, some svc)) =
      let (events, ending) = after_deregister app (unregister host.env addr svc) in
      (deregister svc ∷ events, ending)

  abbrev pub actors : App L K Server → List Actor
  actors app =
      serve_debug (port_addr (debug_port app.cfg.port))
      ∷ serve_grpc (port_addr (pos app.cfg.port))
      ∷ wait_for_signal
      ∷ []

  abbrev pub served :
      (List (ServerOption L) → Server)
      → List (Server → Server)
      → Exiting (List (ServerOption L))
      → Exiting Server
  served make rs (exited n) = exited n
  served make rs (returned opts) = returned (register_all rs (make opts))

  -- What the gRPC member of the group serves, where grpc.NewServer makes a server of options.
  unfoldable pub base_server : (List (ServerOption L) → Server) → App L K Server → Exiting Server
  base_server make app =
      served make app.registrars (new_server L app.log_entry app.auth_func app.cfg.auth)

  module _ (make : List (ServerOption L) → Server) where
    -- `g.Run`: a server that cannot be made ends the process in its member of the group, and else all
    -- members have returned when the group ends, if it does.
    abbrev pub after_run :
        Host
        → App L K Server
        → Option (Str × Option SvcDef)
        → Exiting Server
        → Option Str
        → List (Event K.Closer) × Ending
    after_run host app p (exited n) e = ([], exits n)
    after_run host app p (returned server) none = ([], runs_on)
    after_run host app p (returned server) (some e) = deferred host app p

    abbrev pub deferring :
        Host
        → App L K Server
        → Result (Option (Str × Option SvcDef))
        → List (Event K.Closer) × Ending
    deferring host app (ok p) =
        let (events, ending) =
          after_run host app p (base_server make app) (host.run (actors app)) in
        (run_group (actors app) ∷ events, ending)
    deferring host app (err e) = (closing app, panics)
    deferring host app panic = (closing app, panics)

    -- From the registration on.
    abbrev pub discovered :
        Host → App L K Server → Result Initialized → List (Event K.Closer) × Ending
    discovered host app (ok i) = deferring host app (to_defer i)
    discovered host app (err e) = (closing app, panics)
    discovered host app panic = (closing app, panics)

    abbrev pub both_listen : Host → App L K Server → List (Event K.Closer) × Ending
    both_listen host app =
        let (events, ending) =
          discovered host app (start_registration host.env host.ip app.cfg.app_name app.cfg.port) in
        (init_discovery app.cfg.app_name app.cfg.port ∷ events, ending)

    -- The gRPC listener, once the debug listener is there.
    abbrev pub debug_listens : Host → App L K Server → Option Str → List (Event K.Closer) × Ending
    debug_listens host app (some e) = ([], exits 1)
    debug_listens host app none = both_listen host app

    abbrev pub begun : Host → App L K Server → Option Str → List (Event K.Closer) × Ending
    begun host app (some e) = ([], exits 1)
    begun host app none =
        let addr = port_addr (pos app.cfg.port) in
        let (events, ending) = debug_listens host app (host.listen_error addr) in
        (listen addr ∷ events, ending)

    -- Start.
    unfoldable pub start : Host → App L K Server → List (Event K.Closer) × Ending
    unfolding deferred to_defer base_server
    start host app =
        let addr = port_addr (debug_port app.cfg.port) in
        let (events, ending) = begun host app (host.listen_error addr) in
        (listen addr ∷ events, ending)
