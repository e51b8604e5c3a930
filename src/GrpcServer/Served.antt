-- ===== src/GrpcServer/Served.antt =====
-- grpc/server.go: what a request goes through.
use tiki.Base.{
  ◌≡◌, ◌⊎◌, refl, ap, ap₂, Bool, true, false, List, [], ◌∷◌, map, Option, none, some, if◌then◌else◌,
  Result, ok, err, panic, ◌>>=◌, Exiting, returned, exited,
}
use tiki.GrpcServer.{
  AuthConfig, Library, AuthFunc, Interceptor, with_ctxtags, with_opentracing, with_prometheus,
  with_logrus, with_auth, with_recovery, with_validator, ServerOption, creds, stream_interceptor,
  unary_interceptor, entry_or, auth_or, chain_of, with_creds, new_server,
}

abbrev pub Handler : Library → Type 0
Handler L = L.Context → Result L.Reply

abbrev pub interceptor_of : (L : Library) → Interceptor L → Handler L → Handler L
interceptor_of L with_ctxtags = L.ctxtags
interceptor_of L with_opentracing = L.opentracing
interceptor_of L with_prometheus = L.prometheus
interceptor_of L (with_logrus entry) = L.logrus entry
interceptor_of L (with_auth f) = L.auth f
interceptor_of L with_recovery = L.recovery
interceptor_of L with_validator = L.validator

-- How a server with these options answers a request that the handler is registered for.
abbrev pub serve : (L : Library) → List (ServerOption L) → Handler L → Handler L
serve L [] h = h
serve L (creds c ∷ rest) h = serve L rest h
serve L (stream_interceptor is ∷ rest) h = serve L rest h
serve L (unary_interceptor is ∷ rest) h = L.chain (map (interceptor_of L) is) h

abbrev pub outermost_first : (L : Library) → List (Handler L → Handler L) → Handler L → Handler L
outermost_first L [] h = h
outermost_first L (i ∷ is) h = i (outermost_first L is h)

-- An interceptor that hands the request on, in a context of its own, and its reply back.
abbrev PassesOn : (L : Library) → (Handler L → Handler L) → Type 0
PassesOn L i = (h : Handler L) (c : L.Context) → (d : L.Context) × (i h c ≡ h d)

-- A panic is an error.
abbrev pub recovered : (L : Library) → Result L.Reply → Result L.Reply
recovered L (ok r) = ok r
recovered L (err e) = err e
recovered L panic = err L.panic_error

-- The documented behaviour of the libraries: the chain calls the first interceptor first; the first four
-- hand requests on; the auth interceptor calls its function, and the handler only with the context
-- that this returns; and recovery makes an error of a panic of what is behind it.
pub record IsDocumented (L : Library) : Type 0 where
  pub chain :
      (is : List (Handler L → Handler L)) (h : Handler L) (c : L.Context)
      → L.chain is h c ≡ outermost_first L is h c
  pub ctxtags : PassesOn L L.ctxtags
  pub opentracing : PassesOn L L.opentracing
  pub prometheus : PassesOn L L.prometheus
  pub logrus : (entry : L.LogEntry) → PassesOn L (L.logrus entry)
  pub auth : (f : AuthFunc L) (h : Handler L) (c : L.Context) → L.auth f h c ≡ (f c >>= h)
  pub recovery : (h : Handler L) (c : L.Context) → L.recovery h c ≡ recovered L (h c)

-- The options are the two chains, behind the credentials if there are any.
Options : (L : Library) → List (ServerOption L) → List (ServerOption L) → Type 0
Options L rest opts = (opts ≡ rest) ⊎ ((c : L.Creds) × (opts ≡ creds c ∷ rest))

options_of : (L : Library) → Exiting (List (ServerOption L)) → List (ServerOption L)
options_of L (returned opts) = opts
options_of L (exited n) = []

chains : (L : Library) → Option L.LogEntry → Option (AuthFunc L) → List (ServerOption L)
unfolding chain_of
chains L log_entry auth_func =
    let chain = chain_of L (entry_or L log_entry) (auth_or L auth_func) in
    stream_interceptor chain ∷ unary_interceptor chain ∷ []

-- With TLS a certificate and a key that cannot be loaded end the process with status 1; without TLS,
-- or with a certificate that is loaded, the server is made, and has credentials just with TLS.
pub new_server-tls :
    (L : Library) (log_entry : Option L.LogEntry) (auth_func : Option (AuthFunc L))
    (cfg : AuthConfig)
    → let made = new_server L log_entry auth_func (some cfg) in
      (cfg.tls ≡ false → made ≡ new_server L log_entry auth_func none)
      × (cfg.tls ≡ true
          → ((c : L.Creds)
              → L.load_creds cfg.cert_file cfg.key_file ≡ some c
              → (opts : List (ServerOption L)) × (new_server L log_entry auth_func none
                  ≡ returned opts)
                × (made ≡ returned (creds c ∷ opts)))
            × (L.load_creds cfg.cert_file cfg.key_file ≡ none → made ≡ exited 1))
unfolding new_server chains
new_server-tls L log_entry auth_func cfg =
    let rest = chains L log_entry auth_func in
    let load =
      λ (b : Bool) (r : Option L.Creds). if b then with_creds L r rest else returned rest in
    (
      λ off. ap (λ b. load b (L.load_creds cfg.cert_file cfg.key_file)) off,
      λ on. (λ c loaded. (rest, refl, ap₂ load on loaded), λ refused. ap₂ load on refused),
    )
