-- ===== src/Instancer/Tests.antt =====
-- The theorems on the instancer and its cache, at two instances of a service.
use tiki.Base.{◌≡◌, refl, true, false, [], ◌∷◌, arith, codes, List, some, pos}
use tiki.Instancer.Cache.{message}
use tiki.Instancer.Entries.{Entry, make_tag_map, wanted}
use tiki.Instancer.Loop.{Poll, failed, interrupted, Instancer, loop, new_instancer}
use tiki.Instancer.Loop.Follows.{loop_ended}
use tiki.Instancer.Loop.Backoff.{loop-failures}

abbrev down : Poll
down = failed (message (codes "down"))

abbrev started : Instancer
started = new_instancer (codes "dc1" ∷ codes "stg" ∷ []) true down

-- The query under way when the quit channel is closed is still answered.
abbrev late : List Entry
late =
    record {
      node_address = codes "n";
      service_address = codes "a";
      port = pos 1;
      tags = codes "stg" ∷ [];
    }
    ∷ []

loop_ended_example :
    let t = loop (interrupted (some late) ∷ down ∷ []) started in
    (t.stopped ≡ true)
    × (t.cache ≡ started.cache)
    × (t.heard ≡ started.heard)
    × (t.slept ≡ started.slept)
    × (t.tag_map ≡ make_tag_map (wanted started.tags late))
unfolding new_instancer
loop_ended_example = loop_ended (interrupted (some late)) (down ∷ []) started tt refl

loop-failures_example :
    let t = loop (down ∷ down ∷ []) started in
    (t.delay ≡ 40000000) × (t.slept ≡ 10000000 ∷ 20000000 ∷ []) × (t.stopped ≡ false)
unfolding new_instancer
loop-failures_example = loop-failures (down ∷ down ∷ []) started (tt, (tt, tt)) refl (omega arith)
