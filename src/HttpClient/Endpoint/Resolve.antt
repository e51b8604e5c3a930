-- ===== src/HttpClient/Endpoint/Resolve.antt =====
-- client/http/endpoint.go: `resolveHost`, which keeps endpoints with an open circuit from the load
-- balancer.
use tiki.Base.{
  ℕ, ◌<◌, ◌∙◌, ◌≡◌, ◌≢◌, refl, ap, Bool, true, false, List, [], ◌∷◌, Option, none, some, arith, Str,
  str_eq, str_eq_iff, if◌then◌else◌, ok, err, All, Bool-cases, inl, inr,
}
use tiki.Go.Maps.{Map, get, UniqueKeys}
use tiki.Lb.Always.{IsDraw, select_finds}
use tiki.Lb.Draws.{select_edges, select-get}
use tiki.Lb.Weight.{weight}
use tiki.Lb.Select.{select, no_endpoint}
use tiki.Middleware.Defs.{World, Endpoint, init}
use tiki.Middleware.Circuit.Registry.{Section, run}
use tiki.HttpClient.Names.{normal}
use tiki.HttpClient.Lookup.{FromBreaker, dashed_uri_missed}
use tiki.HttpClient.Endpoint.{EndpointClient, blocked, admitted, resolve_host}

module _ (get_circuit : Str → Option Bool) (roll : Str → ℕ) (w : World) where
  -- The loop drops the blocked endpoints and keeps every other as it is.
  get-admitted :
      (uri method : Str) (m : Map Endpoint) (addr : Str)
      → get (admitted get_circuit roll w uri method m) addr
        ≡ (if blocked get_circuit roll w uri method addr then none else get m addr)
  unfolding admitted get
  get-admitted uri method [] addr = ground arith
  get-admitted uri method ((a, ep) ∷ rest) addr =
      let ih = get-admitted uri method rest addr in
      elim (Bool-cases (str_eq a addr)) [
        | inl y ↦
            let same = (str_eq_iff a addr).0 y in
            ground (arith, ih, ap (blocked get_circuit roll w uri method) same)
        | inr n ↦ ground (arith, ih)
      ]

  -- An endpoint that `resolveHost` returns is not nil, is the one that the client holds under the
  -- address returned, and is not blocked: its circuit is not open, or the draw let it pass.
  pub resolve_host-get :
      (intn : ℕ → ℕ) (tag_map : Map (List Str)) (client : EndpointClient) (uri method : Str)
      (o : Option Endpoint) (addr : Str)
      → resolve_host get_circuit roll w intn tag_map client uri method ≡ ok (o, addr)
      → (ep : Endpoint) × (o ≡ some ep)
        × (get client.endpoint_map addr ≡ some ep)
        × (blocked get_circuit roll w uri method addr ≡ false)
  unfolding resolve_host
  resolve_host-get intn tag_map client uri method o addr h =
      let (ep, e, found) =
        select-get tag_map intn uri method
          (admitted get_circuit roll w uri method client.endpoint_map) o addr h in
      (
        ep,
        e,
        ground (arith, found, get-admitted uri method client.endpoint_map addr),
        ground (arith, found, get-admitted uri method client.endpoint_map addr),
      )

  admitted-UniqueKeys :
      (uri method : Str) (m : Map Endpoint)
      → UniqueKeys m
      → UniqueKeys (admitted get_circuit roll w uri method m)
  unfolding admitted
  admitted-UniqueKeys uri method [] u = u
  admitted-UniqueKeys uri method ((addr, ep) ∷ rest) u =
      let ih = admitted-UniqueKeys uri method rest u.1 in
      elim (Bool-cases (blocked get_circuit roll w uri method addr)) [
        | inl y ↦ rw y ih
        | inr n ↦ rw n (rw (get-admitted uri method rest addr) (rw (n, u.0)), ih)
      ]

  -- `resolveHost` returns an endpoint, whatever is drawn, where the client has one under an address with
  -- a weight above 0 that is not blocked.
  pub resolve_host_finds :
      (intn : ℕ → ℕ) (tag_map : Map (List Str)) (client : EndpointClient) (uri method a : Str)
      (ep : Endpoint)
      → IsDraw intn
      → UniqueKeys client.endpoint_map
      → get client.endpoint_map a ≡ some ep
      → blocked get_circuit roll w uri method a ≡ false
      → 0 < weight tag_map a
      → (e : Endpoint) × (addr : Str) × (resolve_host get_circuit roll w intn tag_map client uri
            method
          ≡ ok (some e, addr))
  unfolding resolve_host
  resolve_host_finds intn tag_map client uri method a ep d u found free p =
      select_finds tag_map intn uri method
        (admitted get_circuit roll w uri method client.endpoint_map) a ep d
        (admitted-UniqueKeys uri method client.endpoint_map u)
        (get-admitted uri method client.endpoint_map a ∙ rw (free, found)) p

  admitted_dead :
      (uri method : Str) (m : Map Endpoint)
      → All (λ e. blocked get_circuit roll w uri method e.0 ≡ true) m
      → admitted get_circuit roll w uri method m ≡ []
  unfolding admitted
  admitted_dead uri method [] h = refl
  admitted_dead uri method ((addr, ep) ∷ rest) h = rw h.0 (admitted_dead uri method rest h.1)

  -- If every endpoint of the client is blocked, or there is none, the result is the error that all
  -- nodes are dead.
  pub resolve_host_dead :
      (intn : ℕ → ℕ) (tag_map : Map (List Str)) (client : EndpointClient) (uri method : Str)
      → All (λ e. blocked get_circuit roll w uri method e.0 ≡ true) client.endpoint_map
      → resolve_host get_circuit roll w intn tag_map client uri method
        ≡ err (no_endpoint uri method)
  unfolding resolve_host
  resolve_host_dead intn tag_map client uri method h =
      rw (admitted_dead uri method client.endpoint_map h) (select_edges tag_map intn uri method).0

admitted_unblocked :
    (get_circuit : Str → Option Bool) (roll : Str → ℕ) (w : World) (uri method : Str)
    (m : Map Endpoint)
    → ((addr : Str) → blocked get_circuit roll w uri method addr ≡ false)
    → admitted get_circuit roll w uri method m ≡ m
unfolding admitted
admitted_unblocked get_circuit roll w uri method [] h = refl
admitted_unblocked get_circuit roll w uri method ((addr, ep) ∷ rest) h = rw (h addr) (
    ap (λ (t : Map Endpoint). (addr, ep) ∷ t)
      (admitted_unblocked get_circuit roll w uri method rest h))

-- For a URI with a dash the circuit breaker never keeps an endpoint from the load balancer: whatever
-- the breakers registered, at addresses and for methods without a dash, `resolveHost` selects among
-- all endpoints of the client, whatever hystrix says of their circuits and whatever is drawn.
pub dashed_uri_never_filtered :
    (get_circuit : Str → Option Bool) (roll : Str → ℕ) (sections : List Section) (intn : ℕ → ℕ)
    (tag_map : Map (List Str)) (client : EndpointClient) (uri method : Str)
    → All FromBreaker sections
    → normal uri ≢ uri
    → resolve_host get_circuit roll (run sections init) intn tag_map client uri method
      ≡ select tag_map intn uri method client.endpoint_map
unfolding resolve_host
dashed_uri_never_filtered get_circuit roll sections intn tag_map client uri method f dashed =
    rw
      (admitted_unblocked get_circuit roll (run sections init) uri method client.endpoint_map never)
  where
    never : (addr : Str) → blocked get_circuit roll (run sections init) uri method addr ≡ false
    never addr =
        unfold blocked in rw (dashed_uri_missed get_circuit sections addr uri method f dashed)
