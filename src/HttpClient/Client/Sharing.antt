-- ===== src/HttpClient/Client/Sharing.antt =====
-- client/http/client.go: all callers of one endpoint share one client, however their calls
-- interleave.
use tiki.Base.{
  ℕ, ◌≡◌, subst, List, [], ◌∷◌, none, some, arith, Str, str_eq_iff, Result, ok, err, panic, length,
  Option-cases, inl, inr,
}
use tiki.Go.Maps.{get, get-put, get-put_self}
use tiki.Middleware.Circuit.{dash}
use tiki.HttpClient.Endpoint.{EndpointClient}
use tiki.HttpClient.Client.{
  Config, Clients, stored, registered, create_by_default_cfg, get_endpoint_client,
}

-- The sections of createByDefaultCfg that goroutines enter, one after another, for a URI and a
-- method each. What they do between changes nothing.
unfoldable pub run : Config → List (Str × Str) → Clients → Clients
run cfg [] s = s
run cfg ((uri, method) ∷ rest) s =
    run cfg rest (create_by_default_cfg cfg (dash method uri) uri method s).1

abbrev Keeps : Str → ℕ → Result ℕ × Clients → Type 0
Keeps key p (r, s) = get s.endpoints key ≡ some p

registered-Keeps :
    (key j : Str) (p : ℕ) (s : Clients) (r : Result EndpointClient)
    → get s.endpoints key ≡ some p
    → get s.endpoints j ≡ none
    → Keeps key p (registered j (stored s r))
registered-Keeps key j p s (ok c) h n =
    ground (arith, get-put s.endpoints j key (length s.heap), str_eq_iff j key)
registered-Keeps key j p s (err e) h n = h
registered-Keeps key j p s panic h n = h

create-Keeps :
    (cfg : Config) (key j uri method : Str) (p : ℕ) (s : Clients)
    → get s.endpoints key ≡ some p
    → Keeps key p (create_by_default_cfg cfg j uri method s)
unfolding create_by_default_cfg
create-Keeps cfg key j uri method p s h = elim (Option-cases (get s.endpoints j)) [
  | inl e ↦ rw (e, create_by_default_cfg) (registered-Keeps key j p s _ h e)
  | inr (q, e) ↦ rw (e, create_by_default_cfg) h
]

run-Keeps :
    (cfg : Config) (reqs : List (Str × Str)) (key : Str) (p : ℕ) (s : Clients)
    → get s.endpoints key ≡ some p
    → get (run cfg reqs s).endpoints key ≡ some p
unfolding run
run-Keeps cfg [] key p s h = h
run-Keeps cfg ((uri, method) ∷ rest) key p s h =
    run-Keeps cfg rest key p _ (create-Keeps cfg key (dash method uri) uri method p s h)

abbrev pub Registers : Str → Result ℕ × Clients → Type 0
Registers key (ok p, s) = get s.endpoints key ≡ some p
Registers key (err e, s) = Unit
Registers key (panic, s) = Unit

registered-Registers :
    (key : Str) (s : Clients) (r : Result EndpointClient)
    → Registers key (registered key (stored s r))
registered-Registers key s (ok c) = get-put_self s.endpoints key (length s.heap)
registered-Registers key s (err e) = tt
registered-Registers key s panic = tt

pub get-Registers :
    (cfg : Config) (uri method : Str) (s : Clients)
    → Registers (dash method uri) (get_endpoint_client cfg uri method s)
unfolding get_endpoint_client create_by_default_cfg
get-Registers cfg uri method s = elim (Option-cases (get s.endpoints (dash method uri))) [
  | inl e ↦
      rw (e, get_endpoint_client, create_by_default_cfg)
        (rw (e, create_by_default_cfg) (registered-Registers (dash method uri) s _))
  | inr (p, e) ↦ rw (e, get_endpoint_client) e
]

found :
    (cfg : Config) (uri method : Str) (s : Clients) (p : ℕ)
    → get s.endpoints (dash method uri) ≡ some p
    → get_endpoint_client cfg uri method s ≡ (ok p, s)
unfolding get_endpoint_client
found cfg uri method s p h = rw (h, get_endpoint_client)

found_late :
    (cfg : Config) (uri method : Str) (s : Clients) (p : ℕ)
    → get s.endpoints (dash method uri) ≡ some p
    → create_by_default_cfg cfg (dash method uri) uri method s ≡ (ok p, s)
unfolding create_by_default_cfg
found_late cfg uri method s p h = rw (h, create_by_default_cfg)

-- Once a call has returned a client for a URI and a method, every later call for them returns the
-- same pointer and makes nothing, whatever sections of other calls, for the same or for other
-- endpoints, have run between; and so does the section under the write lock of a call that had
-- seen no client before.
pub get_endpoint_client-stable :
    (cfg : Config) (uri method : Str) (s s' : Clients) (p : ℕ) (reqs : List (Str × Str))
    → get_endpoint_client cfg uri method s ≡ (ok p, s')
    → (get_endpoint_client cfg uri method (run cfg reqs s') ≡ (ok p, run cfg reqs s'))
      × (create_by_default_cfg cfg (dash method uri) uri method (run cfg reqs s')
          ≡ (ok p, run cfg reqs s'))
get_endpoint_client-stable cfg uri method s s' p reqs h =
    let there =
      run-Keeps cfg reqs (dash method uri) p s'
        (subst (Registers (dash method uri)) h (get-Registers cfg uri method s)) in
    (
      found cfg uri method (run cfg reqs s') p there,
      found_late cfg uri method (run cfg reqs s') p there,
    )
