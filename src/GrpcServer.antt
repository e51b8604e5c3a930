-- ===== src/GrpcServer.antt =====
-- grpc/server.go: the options of the gRPC server. The gRPC library and its interceptors are a parameter.
pub mod Served
pub mod Tests
use tiki.Base.{
  ◌≡◌, Bool, true, false, List, [], ◌∷◌, ◌++◌, map, Option, none, some, Str, if◌then◌else◌, Result,
  ok, err, panic, Exiting, returned, exited,
}

-- config.AuthConfig
pub record AuthConfig : Type 0 where
  pub tls : Bool
  pub cert_file : Str
  pub key_file : Str

-- What the server uses of the libraries: `logrus.NewEntry(logger)`, NewServerTLSFromFile, and for
-- handlers of single requests the interceptors and ChainUnaryServer. A
-- certificate that cannot be loaded is `none`, and `panic_error`
-- is the error that recovery makes of a panic.
pub record Library : Type 1 where
  pub LogEntry : Type 0
  pub Context : Type 0
  pub Creds : Type 0
  pub Reply : Type 0
  pub new_entry : LogEntry
  pub load_creds : Str → Str → Option Creds
  pub ctxtags : (Context → Result Reply) → Context → Result Reply
  pub opentracing : (Context → Result Reply) → Context → Result Reply
  pub prometheus : (Context → Result Reply) → Context → Result Reply
  pub logrus : LogEntry → (Context → Result Reply) → Context → Result Reply
  pub auth : (Context → Result Context) → (Context → Result Reply) → Context → Result Reply
  pub panic_error : Str
  pub recovery : (Context → Result Reply) → Context → Result Reply
  pub validator : (Context → Result Reply) → Context → Result Reply
  pub chain :
      List ((Context → Result Reply) → Context → Result Reply)
      → (Context → Result Reply)
      → Context
      → Result Reply

-- grpc_auth.AuthFunc
abbrev pub AuthFunc : Library → Type 0
AuthFunc L = L.Context → Result L.Context

-- The interceptors that the server makes, for streams or for single requests.
pub data Interceptor (L : Library) : Type 0 where
  with_ctxtags : Interceptor L
  with_opentracing : Interceptor L
  with_prometheus : Interceptor L
  with_logrus : L.LogEntry → Interceptor L
  with_auth : (L.Context → Result L.Context) → Interceptor L
  with_recovery : Interceptor L
  with_validator : Interceptor L

pub data ServerOption (L : Library) : Type 0 where
  creds : L.Creds → ServerOption L
  stream_interceptor : List (Interceptor L) → ServerOption L
  unary_interceptor : List (Interceptor L) → ServerOption L

abbrev pub entry_or : (L : Library) → Option L.LogEntry → L.LogEntry
entry_or L none = L.new_entry
entry_or L (some entry) = entry

-- An auth function that is nil lets every context pass.
abbrev pub auth_or : (L : Library) → Option (AuthFunc L) → AuthFunc L
auth_or L none c = ok c
auth_or L (some f) c = f c

-- The interceptors of both chains.
unfoldable pub chain_of : (L : Library) → L.LogEntry → AuthFunc L → List (Interceptor L)
chain_of L entry f =
    with_ctxtags
    ∷ with_opentracing
    ∷ with_prometheus
    ∷ with_logrus entry
    ∷ with_auth f
    ∷ with_recovery
    ∷ with_validator
    ∷ []

-- A certificate that cannot be loaded ends the process.
abbrev pub with_creds :
    (L : Library) → Option L.Creds → List (ServerOption L) → Exiting (List (ServerOption L))
with_creds L (some c) rest = returned (creds c ∷ rest)
with_creds L none rest = exited 1

-- The options of NewServer.
unfoldable pub new_server :
    (L : Library)
    → Option L.LogEntry
    → Option (AuthFunc L)
    → Option AuthConfig
    → Exiting (List (ServerOption L))
unfolding chain_of
new_server L log_entry auth_func auth_cfg =
    let chain = chain_of L (entry_or L log_entry) (auth_or L auth_func) in
    let rest = stream_interceptor chain ∷ unary_interceptor chain ∷ [] in
    elim auth_cfg [
      | none ↦ returned rest
      | some cfg ↦
          if cfg.tls
          then with_creds L (L.load_creds cfg.cert_file cfg.key_file) rest
          else returned rest
    ]
