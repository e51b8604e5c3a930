-- ===== src/App/Registrars.antt =====
-- app/app.go: the registrars of an application and what its gRPC server is made of.
use tiki.Base.{
  ℕ, append-nil, append_assoc, ◌≡◌, refl, sym, ap, ◌∙◌, List, [], ◌∷◌, ◌++◌, Option, none, some,
  returned, exited,
}
use tiki.GrpcServer.{Library, AuthFunc, ServerOption, new_server}
use tiki.App.{Libraries, App, register_grpc_server, set_auth_func}
use tiki.App.Start.{register_all, served, base_server}

-- The registrars that are not nil.
abbrev somes {ℓ} : {A : Type ℓ} → List (Option A) → List A
somes [] = []
somes (none ∷ rs) = somes rs
somes (some r ∷ rs) = r ∷ somes rs

-- They are called on a server, one after another.
abbrev pub apply_each {ℓ} : {Server : Type ℓ} → List (Option (Server → Server)) → Server → Server
apply_each [] s = s
apply_each (none ∷ rs) s = apply_each rs s
apply_each (some r ∷ rs) s = apply_each rs (r s)

register_all-somes {ℓ} :
    {Server : Type ℓ} (rs : List (Option (Server → Server))) (s : Server)
    → register_all (somes rs) s ≡ apply_each rs s
register_all-somes [] s = refl
register_all-somes (none ∷ rs) s = register_all-somes rs s
register_all-somes (some r ∷ rs) s = register_all-somes rs (r s)

module _ (L : Library) (K : Libraries) {Server : Type 0} where
  -- RegisterGRPCServer, call after call.
  abbrev pub register_each : List (Option (Server → Server)) → App L K Server → App L K Server
  register_each [] app = app
  register_each (r ∷ rs) app = register_each rs (register_grpc_server r app)

  register_each_lem :
      (rs : List (Option (Server → Server))) (app : App L K Server)
      → register_each rs app ≡ record app { registrars = app.registrars ++ somes rs }
  unfolding register_grpc_server
  register_each_lem [] app =
      ap (λ l. record app { registrars = l }) (sym (append-nil app.registrars))
  register_each_lem (none ∷ rs) app = register_each_lem rs app
  register_each_lem (some r ∷ rs) app =
      register_each_lem rs (record app { registrars = app.registrars ++ r ∷ [] })
      ∙ ap (λ l. record app { registrars = l }) (append_assoc app.registrars (r ∷ []) (somes rs))

  -- The gRPC server of an application without registrars, after SetAuthFunc and any calls of
  -- RegisterGRPCServer, is made with that auth function and the TLS settings of the configuration, and
  -- then the registrars that are not nil are called on it, each once, in the order of the calls; where
  -- the server cannot be made the process ends and none is called.
  pub base_server-each :
      (make : List (ServerOption L) → Server) (f : Option (AuthFunc L))
      (rs : List (Option (Server → Server))) (app : App L K Server)
      → app.registrars ≡ []
      → let made = new_server L app.log_entry f app.cfg.auth in
        ((opts : List (ServerOption L))
          → made ≡ returned opts
          → base_server L K make (register_each rs (set_auth_func f app))
            ≡ returned (apply_each rs (make opts)))
        × ((n : ℕ)
            → made ≡ exited n
            → base_server L K make (register_each rs (set_auth_func f app)) ≡ exited n)
  unfolding base_server set_auth_func
  base_server-each make f rs app fresh =
      let app' = record app { auth_func = f } in
      let same = register_each_lem rs app' in
      let listed = ap (λ l. l ++ somes rs) fresh in
      (
        λ opts made.
            ap (base_server L K make) same
            ∙ ap (λ m. served L K make (app.registrars ++ somes rs) m) made
            ∙ ap (λ l. returned (register_all l (make opts))) listed
            ∙ ap returned (register_all-somes rs (make opts)),
        λ n made.
            ap (base_server L K make) same
            ∙ ap (λ m. served L K make (app.registrars ++ somes rs) m) made,
      )
