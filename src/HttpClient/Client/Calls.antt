-- ===== src/HttpClient/Client/Calls.antt =====
-- client/http/client.go: which endpoint client makes a call.
use tiki.Base.{ℕ, ◌≡◌, subst, ap, ◌∙◌, some, Str, Result, ok, get_elem?, ℤ}
use tiki.Go.Maps.{get}
use tiki.Go.Strings.Laws.{Lacks}
use tiki.Middleware.Circuit.{dash}
use tiki.HttpClient.Client.Sharing.{Registers, get-Registers}
use tiki.Middleware.Defs.{World}
use tiki.HttpClient.Endpoint.{EndpointClient, Env, Param, do_raw}
use tiki.HttpClient.Client.{Config, Clients, get_endpoint_client, client_do_raw, through}
use tiki.HttpClient.Client.Invariant.{WellKeyed, get_endpoint_client-matches}

-- The result of an endpoint client, with the clients as they are.
abbrev pub beside : Clients → Result (Str × ℤ) × World → Result (Str × ℤ) × Clients × World
beside s (r, w) = (r, s, w)

-- Where the map is well keyed, the method holds no dash and a client can be got for a URI and that
-- method, DoRaw makes its call through the client that was got, the one that the map has under their key,
-- and returns what that returns; it is an endpoint client of this host with just that URI and that
-- method, and the map stays well keyed.
pub client_do_raw-matches :
    {V : Type 0} (cfg : Config) (env : Env V) (uri method : Str) (param : Param V) (s s' : Clients)
    (w : World) (p : ℕ)
    → WellKeyed cfg s
    → Lacks b'-' method
    → get_endpoint_client cfg uri method s ≡ (ok p, s')
    → WellKeyed cfg s'
      × (get s'.endpoints (dash method uri) ≡ some p)
      × (c : EndpointClient) × (get_elem? s'.heap p ≡ some c)
      × (c.host ≡ cfg.host)
      × (c.uri ≡ uri)
      × (c.method ≡ method)
      × (client_do_raw cfg env uri method param (s, w)
          ≡ beside s' (do_raw env c uri method param w))
unfolding client_do_raw
client_do_raw-matches cfg env uri method param s s' w p keyed plain got =
    let (keyed', c, at, host, same_uri, same_method) =
      get_endpoint_client-matches cfg uri method s s' p keyed plain got in
    let via : (q : ℕ) (d : EndpointClient)
        → get_elem? s'.heap q ≡ some d
        → through (λ x v. do_raw env x uri method param v) (ok q, s') w
          ≡ beside s' (do_raw env d uri method param w) =
      λ q d found. rw (found, through) in
    (
      keyed',
      subst (Registers (dash method uri)) got (get-Registers cfg uri method s),
      c,
      at,
      host,
      same_uri,
      same_method,
      ap (λ r. through (λ x v. do_raw env x uri method param v) r w) got ∙ via p c at,
    )
