-- ===== src/Middleware/Circuit/Registry.antt =====
-- client/http/middleware/circuit_break.go: the two maps, under any interleaving of the sections
-- that hold the lock.
use tiki.Base.{
  ◌≡◌, refl, Bool, true, false, List, [], ◌∷◌, Option, none, some, arith, Str, str_eq_iff,
  Option-cases, inl, inr, All,
}
use tiki.Go.Maps.{get, put, get-put, get-delete, UniqueKeys}
use tiki.Middleware.Defs.{CommandConfig, World, init}
use tiki.Middleware.Circuit.{
  config_locked, config_cmd, cleanup_endpoint, is_circuit_open, is_configed,
}

-- A section under the write lock, of configCmd or of CleanupEndpoint. The check of configCmd under
-- the read lock changes nothing.
pub data Section : Type 0 where
  config : Str → Str → CommandConfig → Section
  cleanup : Str → Section

unfoldable pub enter : Section → World → World
enter (config cmd key cfg) w = config_locked cmd key cfg w
enter (cleanup key) w = cleanup_endpoint key w

-- Any interleaving of goroutines is a sequence of such sections.
unfoldable pub run : List Section → World → World
unfolding enter
run [] w = w
run (s ∷ rest) w = run rest (enter s w)

-- Every key of `cmdMap` leads to a command that is configured, under that key.
pub record Agrees (w : World) : Type 0 where
  pub at : (key cmd : Str) → get w.cmd_map key ≡ some cmd → get w.configed cmd ≡ some key

config_locked-Agrees :
    (cmd key : Str) (cfg : CommandConfig) (w : World)
    → Agrees w
    → Agrees (config_locked cmd key cfg w)
unfolding config_locked
config_locked-Agrees cmd key cfg w a = record {
  at = λ k c h. ground (
    arith,
    a.at k c,
    get-put w.cmd_map key k cmd,
    get-put w.configed cmd c key,
    str_eq_iff key k,
    str_eq_iff cmd c,
  );
}

cleanup_endpoint-Agrees : (key : Str) (w : World) → Agrees w → Agrees (cleanup_endpoint key w)
unfolding cleanup_endpoint
cleanup_endpoint-Agrees key w a = record { at = λ k c h. kept k c (get w.cmd_map key) refl h }
  where
    kept :
        (k c : Str) (o : Option Str)
        → get w.cmd_map key ≡ o
        → get (cleanup_endpoint key w).cmd_map k ≡ some c
        → get (cleanup_endpoint key w).configed c ≡ some k
    kept k c none e h =
        rw (e, cleanup_endpoint) (ground (arith, a.at k c, get-delete w.cmd_map key k))
    kept k c (some cmd) e h = ground (
      arith,
      a.at k c,
      a.at key cmd,
      get-delete w.cmd_map key k,
      get-delete w.configed cmd c,
      str_eq_iff key k,
      str_eq_iff cmd c,
    )

enter-Agrees : (s : Section) (w : World) → Agrees w → Agrees (enter s w)
unfolding enter
enter-Agrees (config cmd key cfg) w a = config_locked-Agrees cmd key cfg w a
enter-Agrees (cleanup key) w a = cleanup_endpoint-Agrees key w a

-- From a world in which every key of `cmdMap` leads to a command that is configured under that key,
-- any interleaving of configCmd and CleanupEndpoint ends in such a world.
pub run-Agrees : (sections : List Section) (w : World) → Agrees w → Agrees (run sections w)
unfolding run
run-Agrees [] w a = a
run-Agrees (s ∷ rest) w a = run-Agrees rest (enter s w) (enter-Agrees s w a)

-- The initial maps are empty.
pub init-Agrees : Agrees init
unfolding get
init-Agrees = record { at = λ key cmd h. cc }

abbrev pub IsConfig : Section → Type 0
IsConfig (config cmd key cfg) = Unit
IsConfig (cleanup key) = ⊥

-- hystrix.ConfigureCommand has been called for configured commands only, once for each.
pub record CalledOnce (w : World) : Type 0 where
  pub unique : UniqueKeys w.commands
  pub known : (cmd : Str) → get w.configed cmd ≡ none → get w.commands cmd ≡ none

config_locked-CalledOnce :
    (cmd key : Str) (cfg : CommandConfig) (w : World)
    → CalledOnce w
    → CalledOnce (config_locked cmd key cfg w)
unfolding config_locked get
config_locked-CalledOnce cmd key cfg w c = elim (Option-cases (get w.configed cmd)) [
  | inl fresh ↦
      rw (fresh, config_locked, is_configed)
        (record {
          unique = (c.known cmd fresh, c.unique);
          known = λ j h. ground (arith, c.known j, get-put w.configed cmd j key);
        })
  | inr (k, old) ↦ rw (old, config_locked, is_configed) c
]

-- As long as nothing is cleaned up, however the calls of configCmd interleave, hystrix is configured
-- at most once for each command.
pub run-CalledOnce :
    (sections : List Section) (w : World)
    → All IsConfig sections
    → CalledOnce w
    → CalledOnce (run sections w)
unfolding run enter
run-CalledOnce [] w only c = c
run-CalledOnce (config cmd key cfg ∷ rest) w only c =
    run-CalledOnce rest (config_locked cmd key cfg w) only.1
      (config_locked-CalledOnce cmd key cfg w c)
run-CalledOnce (cleanup key ∷ rest) w only c = absurd only.0

pub init-CalledOnce : CalledOnce init
unfolding get
init-CalledOnce = record { unique = tt; known = λ cmd h. refl }

-- A command that is configured can be looked up under its key, until the key is cleaned up; then
-- neither the key nor the command is known, and the command may be configured anew. The world is
-- one in which `cmdMap` agrees with `configed` and the command is not configured.
pub config-cleanup :
    (cmd key : Str) (cfg : CommandConfig) (w : World) (get_circuit : Str → Option Bool)
    (open' : Bool)
    → get w.configed cmd ≡ none
    → get_circuit cmd ≡ some open'
    → let w' = config_cmd cmd key cfg w in
      (is_circuit_open get_circuit w' key ≡ (open', true))
      × (is_circuit_open get_circuit (cleanup_endpoint key w') key ≡ (false, false))
      × (is_configed (cleanup_endpoint key w') cmd ≡ false)
unfolding config_cmd is_circuit_open cleanup_endpoint
config-cleanup cmd key cfg w get_circuit open' fresh answer =
    rw (fresh, config_locked, is_configed)
      (ground (
        arith,
        get-put w.cmd_map key key cmd,
        str_eq_iff key key,
        str_eq_iff cmd cmd,
        get-delete (put w.cmd_map key cmd) key key,
        get-delete (put w.configed cmd key) cmd cmd,
      ))
