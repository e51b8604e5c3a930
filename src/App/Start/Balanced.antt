-- ===== src/App/Start/Balanced.antt =====
-- app/app.go: what Start registers and takes back.
use tiki.Base.{
  ℕ, ◌≡◌, ◌≢◌, refl, ap, Bool, true, false, List, [], ◌∷◌, Option, none, some, Str, pos, Result, ok,
  err, panic, Option-cases, inl, inr, arith, Exiting, returned, exited,
}
use tiki.GrpcServer.{Library, AuthConfig, AuthFunc, ServerOption, new_server}
use tiki.Registration.{SvcDef, Initialized, unregister, debug_port, start_registration}
use tiki.App.{Libraries, App}
use tiki.App.Start.{
  to_defer, Event, listen, init_discovery, run_group, deregister, close_tracing, Ending, returns,
  exits, Host, port_addr, closing, after_deregister, deferred, actors, served, base_server,
  after_run, deferring, discovered, debug_listens, begun, start,
}

-- The services that the events deregister.
abbrev pub deregistered : {Closer : Type 0} → List (Event Closer) → List SvcDef
deregistered [] = []
deregistered (listen a ∷ rest) = deregistered rest
deregistered (init_discovery n p ∷ rest) = deregistered rest
deregistered (run_group members ∷ rest) = deregistered rest
deregistered (deregister svc ∷ rest) = svc ∷ deregistered rest
deregistered (close_tracing c ∷ rest) = deregistered rest

-- A registration was tried.
abbrev pub tried : {Closer : Type 0} → List (Event Closer) → Bool
tried [] = false
tried (listen a ∷ rest) = tried rest
tried (init_discovery n p ∷ rest) = true
tried (run_group members ∷ rest) = tried rest
tried (deregister svc ∷ rest) = tried rest
tried (close_tracing c ∷ rest) = tried rest

-- The service that was registered.
abbrev pub registered_by : Result Initialized → List SvcDef
registered_by (ok i) = elim i.error [
  | some e ↦ []
  | none ↦ elim i.svc [ none ↦ [] | some svc ↦ svc ∷ [] ]
]
registered_by (err e) = []
registered_by panic = []

-- An exit has status 1, takes back nothing, and comes behind a registration only where the server of
-- the group cannot be made; a return takes back what was registered, and comes only with such a server.
abbrev pub IsBalanced :
    {Closer : Type 0} {Server : Type 0}
    → Exiting Server
    → List SvcDef
    → List (Event Closer) × Ending
    → Type 0
IsBalanced {Server = Server} base svcs r =
    ((n : ℕ)
      → r.1 ≡ exits n
      → (n ≡ 1) × (deregistered r.0 ≡ []) × (tried r.0 ≡ true → base ≡ exited 1))
    × (r.1 ≡ returns → (deregistered r.0 ≡ svcs) × (server : Server) × (base ≡ returned server))

-- The process is ended here only where the server cannot be made.
abbrev IsLate :
    {Closer : Type 0} {Server : Type 0}
    → Exiting Server
    → List SvcDef
    → List (Event Closer) × Ending
    → Type 0
IsLate {Server = Server} base svcs r =
    ((n : ℕ) → r.1 ≡ exits n → (n ≡ 1) × (deregistered r.0 ≡ []) × (base ≡ exited 1))
    × (r.1 ≡ returns → (deregistered r.0 ≡ svcs) × (server : Server) × (base ≡ returned server))

-- The process is not ended here.
abbrev IsCalm : {Closer : Type 0} → List SvcDef → List (Event Closer) × Ending → Type 0
IsCalm svcs r = ((n : ℕ) → r.1 ≢ exits n) × (r.1 ≡ returns → deregistered r.0 ≡ svcs)

exit_one : (n : ℕ) → exits 1 ≡ exits n → n ≡ 1
exit_one n e = ground (arith, e)

abbrev to_deregister : Option (Str × Option SvcDef) → List SvcDef
to_deregister none = []
to_deregister (some (a, none)) = []
to_deregister (some (a, some svc)) = svc ∷ []

server_exits :
    (L : Library) (entry : Option L.LogEntry) (f : Option (AuthFunc L)) (o : Option AuthConfig)
    (n : ℕ)
    → new_server L entry f o ≡ exited n
    → n ≡ 1
unfolding new_server
server_exits L entry f none n h = ground (arith, h)
server_exits L entry f (some cfg) n h = ground (arith, h)

served_exits :
    (L : Library) (K : Libraries) {Server : Type 0} (make : List (ServerOption L) → Server)
    (rs : List (Server → Server)) (e : Exiting (List (ServerOption L))) (n : ℕ)
    → served L K make rs e ≡ exited n
    → e ≡ exited n
served_exits L K make rs (exited m) n h = ground (arith, h)
served_exits L K make rs (returned opts) n h = ground (arith, h)

module _ (L : Library) (K : Libraries) {Server : Type 0} where
  closing_quiet : (app : App L K Server) → deregistered (closing L K app) ≡ []
  closing_quiet app = elim (Option-cases app.tracing_closer) [
    | inl h ↦ ground (arith, h)
    | inr (c, h) ↦ ground (arith, h)
  ]

  after_deregister-IsCalm :
      (app : App L K Server) (r : Result Bool) → IsCalm [] (after_deregister L K app r)
  after_deregister-IsCalm app (ok b) = (λ n e. ground arith, λ e. closing_quiet app)
  after_deregister-IsCalm app (err t) = (λ n e. ground arith, λ e. closing_quiet app)
  after_deregister-IsCalm app panic = (λ n e. ground arith, λ e. ground arith)

  deferred-IsCalm :
      (host : Host) (app : App L K Server) (p : Option (Str × Option SvcDef))
      → IsCalm (to_deregister p) (deferred L K host app p)
  unfolding deferred
  deferred-IsCalm host app none = (λ n e. ground arith, λ e. closing_quiet app)
  deferred-IsCalm host app (some (a, none)) = (λ n e. ground arith, λ e. ground arith)
  deferred-IsCalm host app (some (a, some svc)) =
      let (on, back) = after_deregister-IsCalm app (unregister host.env a svc) in
      (on, λ e. ap (λ svcs. svc ∷ svcs) (back e))

  -- A server that cannot be made ends the process with the status 1.
  base_exits :
      (make : List (ServerOption L) → Server) (app : App L K Server) (n : ℕ)
      → base_server L K make app ≡ exited n
      → n ≡ 1
  unfolding base_server
  base_exits make app n h = server_exits L app.log_entry app.auth_func app.cfg.auth n (
      served_exits L K make app.registrars (new_server L app.log_entry app.auth_func app.cfg.auth) n
        h)

  module _ (make : List (ServerOption L) → Server) where
    after_run-IsLate :
        (host : Host) (app : App L K Server) (p : Option (Str × Option SvcDef))
        (base : Exiting Server) (o : Option Str)
        → ((n : ℕ) → base ≡ exited n → n ≡ 1)
        → IsLate base (to_deregister p) (after_run L K make host app p base o)
    after_run-IsLate host app p (exited m) o one =
        (λ n e. (ground (arith, e, one m refl), refl, ap exited (one m refl)), λ e. ground arith)
    after_run-IsLate host app p (returned server) none one =
        (λ n e. ground arith, λ e. ground arith)
    after_run-IsLate host app p (returned server) (some t) one =
        let (on, back) = deferred-IsCalm host app p in
        (λ n e. absurd (on n e), λ e. (back e, server, refl))

    group-IsLate :
        (host : Host) (app : App L K Server) (p : Option (Str × Option SvcDef))
        → IsLate (base_server L K make app) (to_deregister p) (deferring L K make host app (ok p))
    group-IsLate host app p =
        after_run-IsLate host app p (base_server L K make app) (host.run (actors L K app))
          (base_exits make app)

    initialized-IsLate :
        (host : Host) (app : App L K Server) (error : Option Str) (registeror : Option Str)
        (svc : Option SvcDef)
        → let i : Initialized = record { registeror = registeror; svc = svc; error = error } in
          IsLate
            (base_server L K make app)
            (registered_by (ok i))
            (discovered L K make host app (ok i))
    unfolding to_defer
    initialized-IsLate host app (some t) a svc = group-IsLate host app none
    initialized-IsLate host app none none svc = (λ n e. ground arith, λ e. ground arith)
    initialized-IsLate host app none (some a) none = group-IsLate host app (some (a, none))
    initialized-IsLate host app none (some a) (some svc) =
        group-IsLate host app (some (a, some svc))

    discovered-IsLate :
        (host : Host) (app : App L K Server) (r : Result Initialized)
        → IsLate (base_server L K make app) (registered_by r) (discovered L K make host app r)
    discovered-IsLate host app (ok i) = initialized-IsLate host app i.error i.registeror i.svc
    discovered-IsLate host app (err t) = (λ n e. ground arith, λ e. ground arith)
    discovered-IsLate host app panic = (λ n e. ground arith, λ e. ground arith)

    -- Before the registration the process ends where a port is not free.
    debug_listens-IsBalanced :
        (host : Host) (app : App L K Server) (o : Option Str)
        → IsBalanced
            (base_server L K make app)
            (registered_by (start_registration host.env host.ip app.cfg.app_name app.cfg.port))
            (debug_listens L K make host app o)
    debug_listens-IsBalanced host app (some t) =
        (λ n e. (exit_one n e, refl, λ h. ground (arith, h)), λ e. ground arith)
    debug_listens-IsBalanced host app none =
        let (on, back) =
          discovered-IsLate host app
            (start_registration host.env host.ip app.cfg.app_name app.cfg.port) in
        (λ n e. ((on n e).0, (on n e).1, λ h. (on n e).2), back)

    begun-IsBalanced :
        (host : Host) (app : App L K Server) (o : Option Str)
        → IsBalanced
            (base_server L K make app)
            (registered_by (start_registration host.env host.ip app.cfg.app_name app.cfg.port))
            (begun L K make host app o)
    begun-IsBalanced host app (some t) =
        (λ n e. (exit_one n e, refl, λ h. ground (arith, h)), λ e. ground arith)
    begun-IsBalanced host app none =
        debug_listens-IsBalanced host app (host.listen_error (port_addr (pos app.cfg.port)))

    -- However Start goes, where it ends the process, the status is 1 and nothing is deregistered, and a
    -- registration was tried before only if the gRPC server cannot be made; and
    -- where it returns, that server was made, and it has deregistered just the service that it
    -- registered, if any.
    pub start-IsBalanced :
        (host : Host) (app : App L K Server)
        → IsBalanced
            (base_server L K make app)
            (registered_by (start_registration host.env host.ip app.cfg.app_name app.cfg.port))
            (start L K make host app)
    unfolding start
    start-IsBalanced host app =
        begun-IsBalanced host app (host.listen_error (port_addr (debug_port app.cfg.port)))
