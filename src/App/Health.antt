-- ===== src/App/Health.antt =====
-- healthcheck/healthcheck.go: the health check that consul calls.
use tiki.Base.{ℕ, Bool, List, [], ◌∷◌, Str, codes, if◌then◌else◌}

-- A call on the http.ResponseWriter.
pub data Call : Type 0 where
  write_header : ℕ → Call
  write : Str → Call

-- The variable `offline`, which is false at first, is the state.
unfoldable pub set_offline : Bool → Bool → Bool
set_offline off offline = off

unfoldable pub handler : Bool → List Call
handler offline =
    if offline then write_header 500 ∷ write (codes "OFFLINE") ∷ [] else write (codes "OK") ∷ []
