-- ===== src/HttpClient/Lookup.antt =====
-- client/http/endpoint.go, client/http/middleware/circuit_break.go: the key under which a circuit is
-- registered against the key under which `resolveHost` looks for it.
use tiki.Base.{
  ℕ, ◌+◌, ◌≡◌, ◌≢◌, refl, ap, Bool, true, false, List, [], ◌∷◌, ◌++◌, Option, none, some, arith,
  Str, str_eq_iff, ◌==◌, if◌then◌else◌, All,
}
use tiki.Go.Maps.{get, get-put, get-delete}
use tiki.Go.Strings.Laws.{Lacks, replace_all_absent}
use tiki.Middleware.Defs.{CommandConfig, World, init}
use tiki.Middleware.Circuit.{
  dash, endpoint_key, config_locked, config_cmd, cleanup_endpoint, is_circuit_open,
}
use tiki.Middleware.Circuit.Registry.{Section, config, cleanup, enter, run, config-cleanup}
use tiki.HttpClient.Names.{normal, normal-Lacks}

-- The number of dashes.
dashes : Str → ℕ
dashes [] = 0
dashes (c ∷ s) = (if c == b'-' then 1 else 0) + dashes s

dashes-append : (s t : Str) → dashes (s ++ t) ≡ dashes s + dashes t
unfolding dashes
dashes-append [] t = omega arith
dashes-append (c ∷ s) t = omega (arith, dashes-append s t)

dashes-Lacks : (s : Str) → Lacks b'-' s → dashes s ≡ 0
unfolding dashes
dashes-Lacks [] h = refl
dashes-Lacks (c ∷ s) h = ground (arith, dashes-Lacks s h.1)

Lacks-dashes : (s : Str) → dashes s ≡ 0 → Lacks b'-' s
unfolding dashes
Lacks-dashes [] h = tt
Lacks-dashes (c ∷ s) h = ground (arith, Lacks-dashes s)

dashes-dash : (s t : Str) → dashes (dash s t) ≡ 1 + dashes s + dashes t
dashes-dash s t = ground (arith, dashes-append s (b'-' ∷ t), first t)
  where
    first : (u : Str) → dashes (b'-' ∷ u) ≡ 1 + dashes u
    first u = unfold dashes in refl

dashes-endpoint_key :
    (addr uri method : Str)
    → dashes (endpoint_key addr uri method) ≡ 2 + dashes addr + dashes uri + dashes method
dashes-endpoint_key addr uri method =
    omega (arith, dashes-dash addr (dash uri method), dashes-dash uri method)

-- A section as the circuit breaker of an endpoint enters it: the key is made of an address, a
-- normalised URI and a method, and neither the address nor the method holds a dash. Any cleanup may
-- come between.
abbrev pub FromBreaker : Section → Type 0
FromBreaker (config cmd key cfg) =
    (addr : Str) × (uri : Str) × (method : Str) × Lacks b'-' addr
    × Lacks b'-' method
    × (key ≡ endpoint_key addr (normal uri) method)
FromBreaker (cleanup key) = Unit

record TwoDashes (w : World) : Type 0 where
  at : (key : Str) → dashes key ≢ 2 → get w.cmd_map key ≡ none

enter-TwoDashes : (s : Section) (w : World) → FromBreaker s → TwoDashes w → TwoDashes (enter s w)
unfolding enter config_locked cleanup_endpoint
enter-TwoDashes (config cmd key cfg) w (addr, uri, method, la, lm, e) t = record {
  at = λ k h. ground (
    arith,
    t.at k h,
    get-put w.cmd_map key k cmd,
    str_eq_iff key k,
    dashes-endpoint_key addr (normal uri) method,
    dashes-Lacks addr la,
    dashes-Lacks method lm,
    dashes-Lacks (normal uri) (normal-Lacks uri),
    ap dashes e,
  );
}
enter-TwoDashes (cleanup key) w f t = record {
  at = λ k h. ground (arith, t.at k h, get-delete w.cmd_map key k);
}

run-TwoDashes :
    (sections : List Section) (w : World)
    → All FromBreaker sections
    → TwoDashes w
    → TwoDashes (run sections w)
unfolding run
run-TwoDashes [] w f t = t
run-TwoDashes (s ∷ rest) w f t = run-TwoDashes rest (enter s w) f.1 (enter-TwoDashes s w f.0 t)

-- The circuit of an endpoint whose URI holds a dash is never found: whatever the breakers of any
-- endpoints registered, at addresses and for methods without a dash, the key that `resolveHost` and
-- the closer make of the URI as it is leads to no command, so the circuit counts as not open.
pub dashed_uri_missed :
    (get_circuit : Str → Option Bool) (sections : List Section) (addr uri method : Str)
    → All FromBreaker sections
    → normal uri ≢ uri
    → is_circuit_open get_circuit (run sections init) (endpoint_key addr uri method)
      ≡ (false, false)
unfolding is_circuit_open normal
dashed_uri_missed get_circuit sections addr uri method f dashed = rw (
  (run-TwoDashes sections init f (record { at = λ k h. unfold get in refl })).at
      (endpoint_key addr uri method) more,
  is_circuit_open,
)
  where
    more : dashes (endpoint_key addr uri method) ≢ 2
    more e = dashed (
        replace_all_absent uri b'-' b'_'
          (Lacks-dashes uri (omega (arith, dashes-endpoint_key addr uri method))))

-- Where the URI holds no dash, the key that `resolveHost` makes is the one that the breaker
-- registered, and the circuit's state is found under it.
pub plain_uri_found :
    (get_circuit : Str → Option Bool) (cmd addr uri method : Str) (cfg : CommandConfig) (w : World)
    (open' : Bool)
    → Lacks b'-' uri
    → get w.configed cmd ≡ none
    → get_circuit cmd ≡ some open'
    → is_circuit_open get_circuit
        (config_cmd cmd (endpoint_key addr (normal uri) method) cfg w)
        (endpoint_key addr uri method)
      ≡ (open', true)
unfolding normal
plain_uri_found get_circuit cmd addr uri method cfg w open' plain fresh answer =
    rw (replace_all_absent uri b'-' b'_' plain)
      (config-cleanup cmd (endpoint_key addr uri method) cfg w get_circuit open' fresh answer).0
