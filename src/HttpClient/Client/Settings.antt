-- ===== src/HttpClient/Client/Settings.antt =====
-- client/http/client.go: the endpoint clients of a new client have the settings of the host, with the
-- defaults for what they leave out.
use tiki.Base.{
  ℕ, ◌≡◌, refl, subst, sym, ap, ◌∙◌, [], ◌∷◌, ◌++◌, Option, none, some, arith, Str, Result, ok,
  length, get_elem?, get_elem?-append, get_elem?-length, if◌then◌else◌, str_eq-cases, inl, inr,
  ◌>>=◌,
}
use tiki.Go.Maps.{Map, get, put, get-put_self, get-put_ne, UniqueKeys}
use tiki.Middleware.Circuit.{dash}
use tiki.HttpClient.Setting.{EndpointSetting, with_defaults}
use tiki.HttpClient.Endpoint.{EndpointClient}
use tiki.HttpClient.Client.{
  Config, Clients, sd_type_consul, sd_type_none, init_endpointer, new_endpoint_client,
  create_endpoint_client, create_by_default_cfg, get_endpoint_client, add_clients,
  new_client_with_sd, default_setting, registered, stored,
}

abbrev pub sd_type_of : Config → Str
sd_type_of cfg = if cfg.use_service_discovery then sd_type_consul else sd_type_none

abbrev pub completed : EndpointSetting → EndpointSetting
completed setting = record setting { cb_config = with_defaults setting.cb_config }

-- The client of a setting.
abbrev pub client_of : Config → EndpointSetting → EndpointClient
client_of cfg setting = record {
  host = cfg.host;
  uri = setting.uri;
  method = setting.method;
  setting = completed setting;
  sd_type = sd_type_of cfg;
  endpoint_map = [];
}

-- The endpointer of every client can be made.
abbrev pub Connects : Config → Type 0
Connects cfg = init_endpointer cfg.discovery (sd_type_of cfg) ≡ ok tt

-- A key leads to a client of this setting.
abbrev pub LeadsTo : Config → Str → EndpointSetting → Clients → ℕ → Type 0
LeadsTo cfg key setting s p =
    (get s.endpoints key ≡ some p) × (get_elem? s.heap p ≡ some (client_of cfg setting))

abbrev pub effective : Str → Str → Option EndpointSetting → EndpointSetting
effective uri method none = default_setting uri method
effective uri method (some x) = x

module _ (cfg : Config) (connects : Connects cfg) where
  create-made :
      (setting : EndpointSetting) (s : Clients)
      → create_endpoint_client cfg setting s
        ≡ (ok (length s.heap), record s { heap = s.heap ++ client_of cfg setting ∷ [] })
  unfolding create_endpoint_client new_endpoint_client
  create-made setting s =
      ap (λ (r : Result (Unit {0})). stored s (r >>= λ _. ok (client_of cfg setting))) connects

  -- The loop over the settings.
  after_one : Str → EndpointSetting → Clients → Clients
  after_one key setting s = record {
    endpoints = put s.endpoints key (length s.heap);
    heap = s.heap ++ client_of cfg setting ∷ [];
  }

  add_clients-cons :
      (key : Str) (setting : EndpointSetting) (rest : Map EndpointSetting) (s : Clients)
      → add_clients cfg ((key, setting) ∷ rest) s ≡ add_clients cfg rest (after_one key setting s)
  unfolding add_clients after_one
  add_clients-cons key setting rest s =
      ap (λ (r : Result ℕ × Clients). add_clients cfg rest (registered key r).1)
        (create-made setting s)

  after_one-leads :
      (key : Str) (setting : EndpointSetting) (s : Clients)
      → LeadsTo cfg key setting (after_one key setting s) (length s.heap)
  unfolding after_one
  after_one-leads key setting s = (
    get-put_self s.endpoints key (length s.heap),
    get_elem?-length s.heap (client_of cfg setting),
  )

  kept :
      (settings : Map EndpointSetting) (s : Clients) (key : Str) (p : ℕ) (x : EndpointSetting)
      → get settings key ≡ none
      → LeadsTo cfg key x s p
      → LeadsTo cfg key x (add_clients cfg settings s) p
  unfolding after_one
  kept [] s key p x n l = unfold add_clients in l
  kept ((k, setting) ∷ rest) s key p x n l = elim (str_eq-cases k key) [
    | inl (same, y) ↦ unfold get in absurd (ground (arith, n, y))
    | inr (other, d) ↦
        let n' : get rest key ≡ none = unfold get in ground (arith, n, d) in
        let there = get-put_ne s.endpoints (length s.heap) other ∙ l.0 in
        subst (λ t. LeadsTo cfg key x t p) (sym (add_clients-cons k setting rest s))
          (kept rest (after_one k setting s) key p x n'
            (there, get_elem?-append s.heap (client_of cfg setting ∷ []) p _ l.1))
  ]

  found :
      (settings : Map EndpointSetting) (s : Clients) (key : Str) (x : EndpointSetting)
      → UniqueKeys settings
      → get settings key ≡ some x
      → (p : ℕ) × LeadsTo cfg key x (add_clients cfg settings s) p
  found [] s key x u h = unfold get in absurd (ground (arith, h))
  found ((k, setting) ∷ rest) s key x u h = elim (str_eq-cases k key) [
    | inl (same, y) ↦
        let is_x : setting ≡ x = unfold get in ground (arith, h, y) in
        let gone = ap (get rest) (sym same) ∙ u.0 in
        let here =
          subst (λ j. LeadsTo cfg j setting (after_one k setting s) (length s.heap)) same
            (after_one-leads k setting s) in
        let now =
          subst (λ z. LeadsTo cfg key z (after_one k setting s) (length s.heap)) is_x here in
        (
          length s.heap,
          subst (λ t. LeadsTo cfg key x t (length s.heap)) (sym (add_clients-cons k setting rest s))
              (kept rest (after_one k setting s) key (length s.heap) x gone now),
        )
    | inr (other, d) ↦
        let (p, l) =
          found rest (after_one k setting s) key x u.1 (unfold get in ground (arith, h, d)) in
        (p, subst (λ t. LeadsTo cfg key x t p) (sym (add_clients-cons k setting rest s)) l)
  ]

  absent :
      (settings : Map EndpointSetting) (s : Clients) (key : Str)
      → get settings key ≡ none
      → get (add_clients cfg settings s).endpoints key ≡ get s.endpoints key
  unfolding after_one
  absent [] s key n = unfold add_clients in refl
  absent ((k, setting) ∷ rest) s key n = elim (str_eq-cases k key) [
    | inl (same, y) ↦ unfold get in absurd (ground (arith, n, y))
    | inr (other, d) ↦
        let n' : get rest key ≡ none = unfold get in ground (arith, n, d) in
        ap (λ (t : Clients). get t.endpoints key) (add_clients-cons k setting rest s)
        ∙ absent rest (after_one k setting s) key n'
        ∙ get-put_ne s.endpoints (length s.heap) other
  ]

  -- What a lookup in the map gives, and the client that it leads to.
  got_known :
      (uri method : Str) (x : EndpointSetting) (s : Clients) (p : ℕ)
      → LeadsTo cfg (dash method uri) x s p
      → get_endpoint_client cfg uri method s ≡ (ok p, s)
  unfolding get_endpoint_client
  got_known uri method x s p l = rw (l.0, get_endpoint_client)

  got_new :
      (uri method : Str) (s : Clients)
      → get s.endpoints (dash method uri) ≡ none
      → get_endpoint_client cfg uri method s
        ≡ (ok (length s.heap), after_one (dash method uri) (default_setting uri method) s)
  unfolding get_endpoint_client create_by_default_cfg after_one
  got_new uri method s n =
      rw (n, get_endpoint_client)
        (rw (n, create_by_default_cfg)
          (ap (registered (dash method uri)) (create-made (default_setting uri method) s)))

  -- In a new client of these settings, the endpoint client for a URI and a method is made of the setting
  -- that stands under their key, or of the default setting.
  pub got_effective :
      (settings : Map EndpointSetting) (uri method : Str) (o : Option EndpointSetting)
      → UniqueKeys settings
      → get settings (dash method uri) ≡ o
      → let s = new_client_with_sd cfg settings in
        (p : ℕ) × (t : Clients) × (get_endpoint_client cfg uri method s ≡ (ok p, t))
        × (get_elem? t.heap p ≡ some (client_of cfg (effective uri method o)))
  unfolding new_client_with_sd
  got_effective settings uri method none u n =
      let s = add_clients cfg settings (record { endpoints = []; heap = [] }) in
      let start : Clients = record { endpoints = []; heap = [] } in
      let nothing : get start.endpoints (dash method uri) ≡ none = unfold get in refl in
      let none_yet = absent settings start (dash method uri) n ∙ nothing in
      (
        length s.heap,
        after_one (dash method uri) (default_setting uri method) s,
        got_new uri method s none_yet,
        (after_one-leads (dash method uri) (default_setting uri method) s).1,
      )
  got_effective settings uri method (some x) u h =
      let s = add_clients cfg settings (record { endpoints = []; heap = [] }) in
      let (p, l) = found settings (record { endpoints = []; heap = [] }) (dash method uri) x u h in
      (p, s, got_known uri method x s p l, l.1)
