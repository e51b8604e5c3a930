-- ===== src/Middleware/Cleanup.antt =====
-- client/http/middleware/cleanup.go: the guard that turns a panic into an error.
use tiki.Base.{◌≡◌, refl, ◌++◌, Option, some, arith, Str, codes}
use tiki.Middleware.Defs.{
  HttpRequest, http, nil_http, other_request, Value, nil, Reply, returns, panics, World, Endpoint,
  nil_dereference,
}

-- The deferred function.
unfoldable pub recovered : Reply → Reply
recovered (returns resp err) = returns resp err
recovered (panics reason) = returns nil (some (codes "panic error: " ++ reason))

-- `req.RequestURI` is read before the function that recovers is deferred.
unfoldable pub cleanup : Endpoint → Endpoint
unfolding recovered
cleanup next (http r) w = let (reply, w') = next (http r) w in (recovered reply, w')
cleanup next nil_http w = (panics nil_dereference, w)
cleanup next other_request w = (panics nil_dereference, w)

abbrev pub IsReturn : Reply → Type 0
IsReturn (returns resp err) = Unit
IsReturn (panics reason) = ⊥

pub recovered-IsReturn : (r : Reply) → IsReturn (recovered r)
unfolding recovered
recovered-IsReturn (returns resp err) = tt
recovered-IsReturn (panics reason) = tt

-- On an HTTP request the guarded endpoint always returns: what the inner endpoint returned, or,
-- where that panicked, no value and an error that gives the reason. On any other request the guard
-- itself panics, and the inner endpoint is not called.
pub cleanup_lem :
    (next : Endpoint) (w : World)
    → ((r : HttpRequest)
        → IsReturn (cleanup next (http r) w).0
          × ((v : Value) (e : Option Str)
              → (next (http r) w).0 ≡ returns v e
              → cleanup next (http r) w ≡ next (http r) w)
          × ((reason : Str)
              → (next (http r) w).0 ≡ panics reason
              → (cleanup next (http r) w).0 ≡ returns nil (some (codes "panic error: " ++ reason))))
      × (cleanup next nil_http w ≡ (panics nil_dereference, w))
      × (cleanup next other_request w ≡ (panics nil_dereference, w))
unfolding cleanup
cleanup_lem next w = (
  λ r. (recovered-IsReturn (next (http r) w).0, λ v e h. ground arith, λ reason h. ground arith),
  refl,
  refl,
)
