-- ===== src/Naming/Tests.antt =====
-- The theorems on naming, at a service that loses one instance and gains another.
use tiki.Base.{
  ok, arith, ◌⊎◌, ◌≡◌, refl, true, false, List, [], ◌∷◌, none, some, Str, codes, str_eq, All,
}
use tiki.Go.Maps.{get, put}
use tiki.Go.Strings.{join}
use tiki.Instancer.Cache.{nil_slice, slice, message}
use tiki.Instancer.Loop.{Update, failed}
use tiki.Naming.{make_updates, scan, drop_gone, added, removed}
use tiki.App.{ServiceDiscoveryCfg}
use tiki.Naming.Dial.{resolver_of}
use tiki.Naming.Dialled.{Consul, direct_watcher, resolve, dial_direct}
use tiki.Naming.Direct
use tiki.Naming.Minimal.{IsNeeded, make_updates-IsNeeded}

abbrev a : Str
a = codes "a:80"

abbrev b : Str
b = codes "b:80"

abbrev of : List Str → Update
of is = record {
  instances = slice is;
  tag_map = (b, codes "x" ∷ codes "y" ∷ []) ∷ [];
  error = none;
}

abbrev down : Update
down = record { instances = nil_slice; tag_map = []; error = some (message (codes "down")) }

changes_of_b :
    (make_updates (of (b ∷ [])) (some ((a, true) ∷ []))).0
    ≡ added (of []).tag_map b ∷ removed a ∷ []
unfolding make_updates scan drop_gone get put join str_eq
changes_of_b = refl

make_updates-IsNeeded_example :
    All
      (IsNeeded ((a, true) ∷ []) (of []).tag_map (b ∷ []))
      (make_updates (of (b ∷ [])) (some ((a, true) ∷ []))).0
make_updates-IsNeeded_example = make_updates-IsNeeded (of (b ∷ [])) (some ((a, true) ∷ []))

abbrev sent : Direct.Watcher
sent = (Direct.send (Direct.resolve a)).1

-- The goroutine sends, and Next is called.
abbrev shows_a : List Direct.Outcome
shows_a = Direct.silent ∷ Direct.updates (Direct.added a ∷ []) ∷ []

abbrev last : Direct.Watcher
last = record { addr = a; waiting = false; closed = false; updated = true }

told_a : Direct.Run (false, Direct.resolve a) shows_a (true, last)
unfolding Direct.resolve Direct.send Direct.next
told_a =
    Direct.step (false, Direct.resolve a) (true, sent) (true, last) _ _
      (Direct.sends (Direct.resolve a) sent Direct.silent refl)
      (Direct.step (true, sent) (true, last) (true, last) _ _ (Direct.nexts true sent last _ refl)
        (Direct.done (true, last)))

abbrev no_consul : Consul
no_consul = record {
  new_client = λ cfg. some (codes "no consul");
  first = λ name. failed (message (codes "down"));
}

abbrev straight : ServiceDiscoveryCfg
straight = record { type = codes "direct"; consul = none }

dial_direct_example :
    (resolve no_consul (resolver_of a straight) a ≡ ok (direct_watcher (Direct.resolve a)))
    × ((Direct.told shows_a ≡ []) ⊎ (Direct.told shows_a ≡ Direct.added a ∷ []))
    × (v : Direct.Watcher) × (Direct.next (Direct.send (Direct.resolve a)).1
        ≡ some (Direct.updates (Direct.added a ∷ []), v))
dial_direct_example =
    dial_direct no_consul a straight shows_a (true, last) (λ e. ground arith) told_a
