-- ===== src/Middleware/Circuit/Orphans.antt =====
-- client/http/middleware/circuit_break.go: two commands with one key. The key leaves out the source
-- and the host of a command name, so it does not determine the command.
use tiki.Base.{
  ◌≡◌, ◌≢◌, true, List, [], ◌∷◌, none, some, arith, Str, str_eq_iff, Option-cases, inl, inr,
}
use tiki.Go.Maps.{get, put, get-put, get-delete}
use tiki.Middleware.Defs.{CommandConfig, World}
use tiki.Middleware.Circuit.{config_locked, cleanup_endpoint, is_configed}
use tiki.Middleware.Circuit.Registry.{Section, config, cleanup, enter, run, Agrees}

-- The command is configured, and no key leads to it.
pub record IsOrphan (cmd : Str) (w : World) : Type 0 where
  pub configed : is_configed w cmd ≡ true
  pub unreached : (key : Str) → get w.cmd_map key ≢ some cmd

enter-IsOrphan : (cmd : Str) (s : Section) (w : World) → IsOrphan cmd w → IsOrphan cmd (enter s w)
unfolding enter config_locked is_configed cleanup_endpoint
enter-IsOrphan cmd (config c key cfg) w o = record {
  configed = ground (arith, o.configed, get-put w.configed c cmd key, str_eq_iff c cmd);
  unreached = λ k. ground (
    arith,
    o.configed,
    o.unreached k,
    get-put w.cmd_map key k c,
    str_eq_iff c cmd,
    str_eq_iff key k,
  );
}
enter-IsOrphan cmd (cleanup key) w o = record {
  configed = elim (Option-cases (get w.cmd_map key)) [
    | inl e ↦ rw (e, cleanup_endpoint) o.configed
    | inr (c, e) ↦
        rw (e, cleanup_endpoint)
          (ground
            (arith, o.configed, o.unreached key, str_eq_iff c cmd, get-delete w.configed c cmd))
  ];
  unreached = λ k. ground (arith, o.unreached k, get-delete w.cmd_map key k);
}

run-IsOrphan :
    (cmd : Str) (sections : List Section) (w : World)
    → IsOrphan cmd w
    → IsOrphan cmd (run sections w)
unfolding run
run-IsOrphan cmd [] w o = o
run-IsOrphan cmd (s ∷ rest) w o = run-IsOrphan cmd rest (enter s w) (enter-IsOrphan cmd s w o)

-- A section of configCmd for a command that is not configured writes both maps.
abbrev written : Str → Str → CommandConfig → World → World
written cmd key cfg w = record w {
  configed = put w.configed cmd key;
  cmd_map = put w.cmd_map key cmd;
  commands = (cmd, cfg) ∷ w.commands;
}

enter_fresh :
    (cmd key : Str) (cfg : CommandConfig) (w : World)
    → get w.configed cmd ≡ none
    → enter (config cmd key cfg) w ≡ written cmd key cfg w
unfolding enter config_locked
enter_fresh cmd key cfg w h = rw (h, is_configed)

-- When two commands that are not configured are configured under one key, the first becomes an
-- orphan, and whatever configCmd and CleanupEndpoint do afterwards, it stays configured and no key
-- ever leads to it again: its circuit is no longer looked at.
pub second_command_orphans_first :
    (first second key : Str) (cfg : CommandConfig) (w : World) (sections : List Section)
    → Agrees w
    → first ≢ second
    → get w.configed first ≡ none
    → get w.configed second ≡ none
    → IsOrphan first (run sections (enter (config second key cfg) (enter (config first key cfg) w)))
unfolding is_configed
second_command_orphans_first first second key cfg w sections a ne f s =
    run-IsOrphan first sections _ (
      rw (enter_fresh first key cfg w f, enter_fresh second key cfg (written first key cfg w) later)
        orphaned)
  where
    later : get (put w.configed first key) second ≡ none
    later = ground (arith, get-put w.configed first second key, str_eq_iff first second)

    orphaned : IsOrphan first (written second key cfg (written first key cfg w))
    orphaned = record {
      configed = ground (
        arith,
        get-put (put w.configed first key) second first key,
        get-put w.configed first first key,
        str_eq_iff first first,
        str_eq_iff second first,
      );
      unreached = λ k. ground (
        arith,
        get-put (put w.cmd_map key first) key k second,
        get-put w.cmd_map key k first,
        str_eq_iff key k,
        str_eq_iff second first,
        a.at k first,
      );
    }
