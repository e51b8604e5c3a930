-- ===== src/Instancer/Loop/Follows.antt =====
-- client/sd/instancer/consul_instancer.go: what is published follows what consul answers.
use tiki.Base.{
  ℕ, ◌≡◌, refl, ap, ◌∙◌, Bool, true, false, List, [], ◌∷◌, ◌++◌, none, some, arith, Str, All,
  if◌then◌else◌,
}
use tiki.Go.Maps.{Map}
use tiki.Go.Sort.{sort_strings}
use tiki.Instancer.Cache.{nil_slice, slice, eof, message, Event, sort_slice}
use tiki.Instancer.Cache.Current.{state-update}
use tiki.Instancer.Entries.{Entry, wanted, make_instances, make_tag_map}
use tiki.Instancer.Loop.{
  Poll, failed, answered, interrupted, Instancer, get_instances, react, round, loop, new_instancer,
}

-- The loop goes on after this poll.
abbrev pub GoesOn : Poll → Type 0
GoesOn (failed eof) = ⊥
GoesOn (failed (message m)) = Unit
GoesOn (answered es i) = Unit
GoesOn (interrupted late) = ⊥

-- What the cache holds after a round with this poll, and what the listener is told.
abbrev pub published : List Str → Poll → Event
published tags (failed e) = record { instances = nil_slice; error = some e }
published tags (answered es i) = record {
  instances = slice (sort_strings (make_instances (wanted tags es)));
  error = none;
}
published tags (interrupted late) = record { instances = nil_slice; error = some eof }

-- The tag map after a round: an error leaves it as it was, and so does the closed quit channel, unless
-- the query under way is answered.
abbrev pub tag_map_after : List Str → Poll → Map (List Str) → Map (List Str)
tag_map_after tags (failed e) m = m
tag_map_after tags (answered es i) m = make_tag_map (wanted tags es)
tag_map_after tags (interrupted none) m = m
tag_map_after tags (interrupted (some es)) m = make_tag_map (wanted tags es)

-- The index for the next query: an error starts again at 0.
abbrev pub index_after : Poll → ℕ
index_after (failed e) = 0
index_after (answered es i) = i
index_after (interrupted late) = 0

-- The instancer after a round that goes on.
abbrev pub Followed : Poll → Instancer → Instancer → Type 0
Followed p s t =
    (t.cache.state ≡ published s.tags p)
    × (t.tag_map ≡ tag_map_after s.tags p s.tag_map)
    × (t.last_index ≡ index_after p)
    × (t.tags ≡ s.tags)
    × (t.stopped ≡ false)
    × (t.listening ≡ s.listening)
    × (t.heard ≡ (
        if s.listening
        then s.heard
          ++ record {
            instances = (published s.tags p).instances;
            tag_map = tag_map_after s.tags p s.tag_map;
            error = (published s.tags p).error;
          }
            ∷ []
        else s.heard))

-- In a round in which consul answers or fails, the cache takes over the instances, sorted, or the
-- error; the tag map follows an answer and stays at an error; an error makes the next query start
-- without an index; and a listener is told just what was published, with the tag map.
pub round-Followed :
    (p : Poll) (s : Instancer) → GoesOn p → s.stopped ≡ false → Followed p s (round p s)
unfolding round sort_slice
round-Followed (failed eof) s g h = absurd g
round-Followed (failed (message m)) s g h = rw h (
    ground
      (arith, state-update (record { instances = nil_slice; error = some (message m) }) s.cache))
round-Followed (answered es i) s g h = rw h (
    ground (
      arith,
      state-update (record { instances = slice (make_instances (wanted s.tags es)); error = none })
          s.cache,
    ))
round-Followed (interrupted late) s g h = absurd g

pub loop-append : (ps qs : List Poll) (s : Instancer) → loop (ps ++ qs) s ≡ loop qs (loop ps s)
unfolding loop
loop-append [] qs s = refl
loop-append (p ∷ ps) qs s = loop-append ps qs (round p s)

pub loop_running :
    (ps : List Poll) (s : Instancer)
    → All GoesOn ps
    → s.stopped ≡ false
    → ((loop ps s).stopped ≡ false)
      × ((loop ps s).tags ≡ s.tags)
      × ((loop ps s).listening ≡ s.listening)
unfolding loop
loop_running [] s g h = (h, refl, refl)
loop_running (p ∷ ps) s g h =
    let (state, tag_map, index, tags, running, listening, heard) = round-Followed p s g.0 h in
    let (stopped, same, same_listening) = loop_running ps (round p s) g.1 running in
    (stopped, same ∙ tags, same_listening ∙ listening)

-- However consul answered and failed before, after a last answer the cache holds the instances of
-- that answer that have the tags asked for, in order and without an error, and the tag map is that
-- of those entries.
pub loop-answered :
    (ps : List Poll) (es : List Entry) (i : ℕ) (s : Instancer)
    → All GoesOn ps
    → s.stopped ≡ false
    → let t = loop (ps ++ answered es i ∷ []) s in
      (t.cache.state.instances ≡ slice (sort_strings (make_instances (wanted s.tags es))))
      × (t.cache.state.error ≡ none)
      × (t.tag_map ≡ make_tag_map (wanted s.tags es))
      × (t.last_index ≡ i)
unfolding loop
loop-answered ps es i s g h =
    let (running, tags, listening) = loop_running ps s g h in
    let (state, tag_map, index, _, _, _, _) =
      round-Followed (answered es i) (loop ps s) tt running in
    rw (loop-append ps (answered es i ∷ []) s) (
      ap (λ (e : Event). e.instances) state ∙ rw tags,
      ap (λ (e : Event). e.error) state,
      tag_map ∙ rw tags,
      index,
    )

-- NewInstancer leaves the loop running, with its tags and its listener.
pub new_instancer_lem :
    (tags : List Str) (listening : Bool) (p : Poll)
    → let s = new_instancer tags listening p in
      (s.stopped ≡ false) × (s.tags ≡ tags) × (s.listening ≡ listening)
unfolding new_instancer
new_instancer_lem tags true (failed e) = (refl, refl, refl)
new_instancer_lem tags false (failed e) = (refl, refl, refl)
new_instancer_lem tags true (answered es i) = (refl, refl, refl)
new_instancer_lem tags false (answered es i) = (refl, refl, refl)
new_instancer_lem tags true (interrupted none) = (refl, refl, refl)
new_instancer_lem tags true (interrupted (some es)) = (refl, refl, refl)
new_instancer_lem tags false (interrupted none) = (refl, refl, refl)
new_instancer_lem tags false (interrupted (some es)) = (refl, refl, refl)

pub round_stopped : (p : Poll) (s : Instancer) → s.stopped ≡ true → round p s ≡ s
unfolding round
round_stopped p s h =
    ap (λ (b : Bool). if b then s else (let (r, s') = get_instances p s in react r s')) h

pub round_begun :
    (p : Poll) (s : Instancer)
    → s.stopped ≡ false
    → round p s ≡ react (get_instances p s).0 (get_instances p s).1
unfolding round
round_begun p s h = ap (λ b. if b then s else react (get_instances p s).0 (get_instances p s).1) h

loop_stopped : (ps : List Poll) (s : Instancer) → s.stopped ≡ true → loop ps s ≡ s
unfolding loop
loop_stopped [] s h = refl
loop_stopped (p ∷ ps) s h = ap (loop ps) (round_stopped p s h) ∙ loop_stopped ps s h

-- What ends the loop: the closed quit channel, or a query that fails with io.EOF.
abbrev pub IsEnd : Poll → Type 0
IsEnd (failed eof) = Unit
IsEnd (failed (message m)) = ⊥
IsEnd (answered es i) = ⊥
IsEnd (interrupted late) = Unit

abbrev ended_by : Poll → Instancer → Instancer
ended_by p s = record s {
  tag_map = tag_map_after s.tags p s.tag_map;
  last_index = 0;
  stopped = true;
}

round_ended : (p : Poll) (s : Instancer) → IsEnd p → s.stopped ≡ false → round p s ≡ ended_by p s
unfolding round
round_ended (failed eof) s e h = rw h refl
round_ended (failed (message m)) s e h = absurd e
round_ended (answered es i) s e h = absurd e
round_ended (interrupted none) s e h = rw h refl
round_ended (interrupted (some es)) s e h = rw h refl

-- Once the quit channel is closed, or a query of consul has failed with io.EOF, the loop is over:
-- whatever consul would answer to further queries, the cache, what the listener heard and the waits
-- stay as they are. The tag map stays too, unless the query that was under way when the quit channel
-- was closed is still answered: then it is that of this answer, which was never published.
pub loop_ended :
    (p : Poll) (ps : List Poll) (s : Instancer)
    → IsEnd p
    → s.stopped ≡ false
    → let t = loop (p ∷ ps) s in
      (t.stopped ≡ true)
      × (t.cache ≡ s.cache)
      × (t.heard ≡ s.heard)
      × (t.slept ≡ s.slept)
      × (t.tag_map ≡ tag_map_after s.tags p s.tag_map)
unfolding loop
loop_ended p ps s e h =
    let ended = ended_by p s in
    let same : loop ps (round p s) ≡ ended =
      ap (loop ps) (round_ended p s e h) ∙ loop_stopped ps ended refl in
    (
      ap (λ (t : Instancer). t.stopped) same,
      ap (λ (t : Instancer). t.cache) same,
      ap (λ (t : Instancer). t.heard) same,
      ap (λ (t : Instancer). t.slept) same,
      ap (λ (t : Instancer). t.tag_map) same,
    )
