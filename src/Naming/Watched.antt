-- ===== src/Naming/Watched.antt =====
-- client/grpc/consul_naming.go with client/sd/instancer/consul_instancer.go: from what consul answers to
-- what the gRPC balancer knows.
use tiki.Base.{
  ℕ, ◌≡◌, refl, ap, ap₂, ◌∙◌, Bool, true, false, List, [], ◌∷◌, ◌++◌, none, Str, All, if◌then◌else◌,
}
use tiki.Go.Members.{mem, mem-sort}
use tiki.Go.Sort.{sort_strings}
use tiki.Instancer.Cache.{slice}
use tiki.Instancer.Entries.{Entry, wanted, make_instances, make_tag_map}
use tiki.Instancer.Loop.{Poll, answered, Update, Instancer, loop, new_instancer}
use tiki.Instancer.Loop.Follows.{
  GoesOn, round-Followed, loop_running, loop-append, new_instancer_lem,
}
use tiki.Naming.Follows.{known, watch, watch-instances}

-- The last update that the listener hears.
abbrev last_update : List Str → List Entry → Update
last_update tags es = record {
  instances = slice (sort_strings (make_instances (wanted tags es)));
  tag_map = make_tag_map (wanted tags es);
  error = none;
}

heard_last :
    (tags : List Str) (ps : List Poll) (es : List Entry) (i : ℕ) (s : Instancer)
    → All GoesOn ps
    → s.stopped ≡ false
    → s.tags ≡ tags
    → s.listening ≡ true
    → (loop (ps ++ answered es i ∷ []) s).heard ≡ (loop ps s).heard ++ last_update tags es ∷ []
unfolding loop
heard_last tags ps es i s g running same listens =
    let (still, kept, listening) = loop_running ps s g running in
    let (_, _, _, _, _, _, heard) = round-Followed (answered es i) (loop ps s) tt still in
    ap (λ (t : Instancer). t.heard) (loop-append ps (answered es i ∷ []) s)
    ∙ heard
    ∙ ap₂
        (λ (b : Bool) (ts : List Str).
          if b then (loop ps s).heard ++ last_update ts es ∷ [] else (loop ps s).heard)
        (listening ∙ listens) (kept ∙ same)

-- Whatever consul answers first, and however it answers and fails after that, once it has answered with
-- entries last, a gRPC balancer that began with no address and did all that the watcher told it knows
-- exactly the addresses of those entries that have the tags asked for.
pub watch-loop :
    (tags : List Str) (first : Poll) (ps : List Poll) (es : List Entry) (i : ℕ) (a : Str)
    → All GoesOn ps
    → known
        (watch (loop (ps ++ answered es i ∷ []) (new_instancer tags true first)).heard (none, [])).1
        a
      ≡ mem (make_instances (wanted tags es)) a
watch-loop tags first ps es i a g =
    let s = new_instancer tags true first in
    let (running, same_tags, listens) = new_instancer_lem tags true first in
    ap (λ (h : List Update). known (watch h (none, [])).1 a)
      (heard_last tags ps es i s g running same_tags listens)
    ∙ watch-instances (loop ps s).heard [] (last_update tags es) a refl tt
    ∙ mem-sort (make_instances (wanted tags es)) a
