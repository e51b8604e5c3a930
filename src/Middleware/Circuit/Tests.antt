-- ===== src/Middleware/Circuit/Tests.antt =====
-- The theorems on the registry of circuits, at commands of two sources with one key.
use tiki.Base.{◌≡◌, refl, List, [], ◌∷◌, arith, Str, codes}
use tiki.Go.Maps.{get}
use tiki.Middleware.Defs.{init}
use tiki.Middleware.Circuit.{default_cb_config, endpoint_key}
use tiki.Middleware.Circuit.Registry.{
  Section, config, cleanup, enter, run, Agrees, run-Agrees, init-Agrees,
}
use tiki.Middleware.Circuit.Orphans.{IsOrphan, second_command_orphans_first}

abbrev key : Str
key = endpoint_key (codes "10.0.0.1:80") (codes "/u") (codes "GET")

abbrev from_a : Str
from_a = codes "a-h-/u-GET-10.0.0.1:80"

abbrev from_b : Str
from_b = codes "b-h-/u-GET-10.0.0.1:80"

abbrev both : List Section
both = config from_a key default_cb_config ∷ config from_b key default_cb_config ∷ []

run-Agrees_example : Agrees (run (config from_a key default_cb_config ∷ cleanup key ∷ both) init)
run-Agrees_example =
    run-Agrees (config from_a key default_cb_config ∷ cleanup key ∷ both) init init-Agrees

second_command_orphans_first_example : IsOrphan from_a (
    run (cleanup key ∷ []) (
      enter
        (config from_b key default_cb_config)
        (enter (config from_a key default_cb_config) init)))
unfolding get
second_command_orphans_first_example =
    second_command_orphans_first from_a from_b key default_cb_config init (cleanup key ∷ [])
      init-Agrees (λ e. differ e) refl refl
  where
    differ : from_a ≡ from_b → ⊥
    differ e = ground arith
