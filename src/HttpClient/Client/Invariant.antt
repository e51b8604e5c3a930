-- ===== src/HttpClient/Client/Invariant.antt =====
-- client/http/client.go: what the map of a client leads to.
use tiki.Base.{
  ℕ, ◌≡◌, refl, sym, subst, [], ◌∷◌, ◌++◌, some, arith, Str, Result, ok, err, panic, ◌>>=◌, length,
  get_elem?, get_elem?-append, get_elem?-length, All, str_eq-cases, Option-cases, inl, inr,
}
use tiki.Go.Maps.{Map, get, get-put}
use tiki.Go.Strings.Laws.{Lacks}
use tiki.Middleware.Circuit.{dash}
use tiki.HttpClient.Setting.{EndpointSetting, dash-injective}
use tiki.HttpClient.Endpoint.{EndpointClient}
use tiki.HttpClient.Client.Sharing.{Registers, get-Registers}
use tiki.HttpClient.Client.{
  Config, Clients, stored, registered, init_endpointer, new_endpoint_client, create_endpoint_client,
  create_by_default_cfg, get_endpoint_client, add_clients, new_client_with_sd, Discovery,
}

-- A pointer leads to a client of this host, whose method and URI make the key.
abbrev pub Leads : Config → Clients → Str → ℕ → Type 0
Leads cfg s key p =
    (c : EndpointClient) × (get_elem? s.heap p ≡ some c)
    × (c.host ≡ cfg.host)
    × (key ≡ dash c.method c.uri)
    × Lacks b'-' c.method

pub record WellKeyed (cfg : Config) (s : Clients) : Type 0 where
  pub at : (key : Str) (p : ℕ) → get s.endpoints key ≡ some p → Leads cfg s key p

-- A client that is made has the host, the URI and the method that it was asked for.
abbrev Made : Str → Str → Str → Result EndpointClient → Type 0
Made host uri method (ok c) = (c.host ≡ host) × (c.uri ≡ uri) × (c.method ≡ method)
Made host uri method (err e) = Unit
Made host uri method panic = Unit

new_endpoint_client-Made :
    (d : Discovery) (host : Str) (setting : EndpointSetting) (sd_type : Str)
    → Made host setting.uri setting.method (new_endpoint_client d host setting sd_type)
unfolding new_endpoint_client
new_endpoint_client-Made d host setting sd_type = go (init_endpointer d sd_type)
  where
    go :
        (r : Result (Unit {0}))
        → Made host setting.uri setting.method (
            r >>= λ _. ok (record {
              host = host;
              uri = setting.uri;
              method = setting.method;
              setting = setting;
              sd_type = sd_type;
              endpoint_map = [];
            }))
    go (ok x) = (refl, refl, refl)
    go (err e) = tt
    go panic = tt

registered-WellKeyed :
    (cfg : Config) (key uri method : Str) (s : Clients) (r : Result EndpointClient)
    → Made cfg.host uri method r
    → key ≡ dash method uri
    → Lacks b'-' method
    → WellKeyed cfg s
    → WellKeyed cfg (registered key (stored s r)).1
registered-WellKeyed cfg key uri method s (ok c) m k l w = record {
  at = λ j p h. elim (str_eq-cases key j) [
    | inl (same, y) ↦
        let here : length s.heap ≡ p = ground (arith, get-put s.endpoints key j (length s.heap)) in
        (
          c,
          subst (λ i. get_elem? (s.heap ++ c ∷ []) i ≡ some c) here (get_elem?-length s.heap c),
          m.0,
          cc,
          subst (Lacks b'-') (sym m.2) l,
        )
    | inr (other, n) ↦
        let before : get s.endpoints j ≡ some p =
          ground (arith, get-put s.endpoints key j (length s.heap)) in
        let (x, at, host, keyed, plain) = w.at j p before in
        (x, get_elem?-append s.heap (c ∷ []) p x at, host, keyed, plain)
  ];
}
registered-WellKeyed cfg key uri method s (err e) m k l w = w
registered-WellKeyed cfg key uri method s panic m k l w = w

create-WellKeyed :
    (cfg : Config) (key uri method : Str) (s : Clients)
    → key ≡ dash method uri
    → Lacks b'-' method
    → WellKeyed cfg s
    → WellKeyed cfg (create_by_default_cfg cfg key uri method s).1
unfolding create_by_default_cfg
create-WellKeyed cfg key uri method s k l w = elim (Option-cases (get s.endpoints key)) [
  | inl e ↦
      rw (e, create_by_default_cfg)
        (registered-WellKeyed cfg key uri method s _
          (new_endpoint_client-Made cfg.discovery cfg.host _ _) k l w)
  | inr (p, e) ↦ rw (e, create_by_default_cfg) w
]

get_endpoint_client-create :
    (cfg : Config) (uri method : Str) (s : Clients)
    → get_endpoint_client cfg uri method s
      ≡ create_by_default_cfg cfg (dash method uri) uri method s
unfolding get_endpoint_client create_by_default_cfg
get_endpoint_client-create cfg uri method s = ground arith

-- A setting stands under its own key, and its method holds no dash.
abbrev pub IsKeyed : Str × EndpointSetting → Type 0
IsKeyed (key, setting) = (key ≡ dash setting.method setting.uri) × Lacks b'-' setting.method

add_clients-WellKeyed :
    (cfg : Config) (settings : Map EndpointSetting) (s : Clients)
    → All IsKeyed settings
    → WellKeyed cfg s
    → WellKeyed cfg (add_clients cfg settings s)
unfolding add_clients create_endpoint_client
add_clients-WellKeyed cfg [] s a w = w
add_clients-WellKeyed cfg ((key, setting) ∷ rest) s a w = add_clients-WellKeyed cfg rest _ a.1 (
    registered-WellKeyed cfg key setting.uri setting.method s _
      (new_endpoint_client-Made cfg.discovery cfg.host _ _) a.0.0 a.0.1 w)

-- In a new client every pointer of the map leads to a client of the host whose method and URI make
-- the key, if the settings of the host stand under such keys and no method holds a dash.
pub new_client-WellKeyed :
    (cfg : Config) (settings : Map EndpointSetting)
    → All IsKeyed settings
    → WellKeyed cfg (new_client_with_sd cfg settings)
unfolding new_client_with_sd
new_client-WellKeyed cfg settings a =
    add_clients-WellKeyed cfg settings _ a (record { at = λ key p h. absurd (none_yet key p h) })
  where
    none_yet : (key : Str) (p : ℕ) → get [] key ≡ some p → ⊥
    none_yet key p h = unfold get in ground arith

-- The client that is returned for a URI and a method is one of this host, with just that URI and
-- that method, and the map stays well keyed, if it was and the method holds no dash.
pub get_endpoint_client-matches :
    (cfg : Config) (uri method : Str) (s s' : Clients) (p : ℕ)
    → WellKeyed cfg s
    → Lacks b'-' method
    → get_endpoint_client cfg uri method s ≡ (ok p, s')
    → WellKeyed cfg s'
      × (c : EndpointClient) × (get_elem? s'.heap p ≡ some c)
      × (c.host ≡ cfg.host)
      × (c.uri ≡ uri)
      × (c.method ≡ method)
get_endpoint_client-matches cfg uri method s s' p w l h =
    let kept : WellKeyed cfg (get_endpoint_client cfg uri method s).1 =
      rw (get_endpoint_client-create cfg uri method s)
        (create-WellKeyed cfg (dash method uri) uri method s refl l w) in
    let keyed = subst (λ (r : Result ℕ × Clients). WellKeyed cfg r.1) h kept in
    let there = subst (Registers (dash method uri)) h (get-Registers cfg uri method s) in
    let (c, at, host, key, plain) = keyed.at (dash method uri) p there in
    let (same_method, same_uri) = dash-injective method c.method uri c.uri l plain key in
    (keyed, c, at, host, sym same_uri, sym same_method)
