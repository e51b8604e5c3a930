-- ===== src/Instancer/Cache/Current.antt =====
-- client/sd/instancer/cache.go: listeners are up to date, and hear of changes only.
use mathlib.Core.List.{Perm}
use tiki.Base.{
  ℕ, ◌≡◌, refl, sym, ap, ◌∙◌, subst, true, List, [], ◌∷◌, ◌++◌, Option, none, some, arith, Str,
  str_eq_iff, ◌==◌, if◌then◌else◌, Bool-cases, inl, inr,
}
use tiki.Go.Sort.{sort-perm}
use tiki.Instancer.Cache.{
  Slice, nil_slice, slice, Error, eof, message, Event, Cache, new_cache, sort_slice, deep_equal,
  broadcast, update, has, without, register, deregister, list_eq, slice_eq, error_eq,
}

-- The last event that was sent to the channel.
abbrev pub last_sent : ℕ → List (ℕ × Event) → Option Event
last_sent ch [] = none
last_sent ch ((c, e) ∷ rest) = elim (last_sent ch rest) [
  | none ↦ if c == ch then some e else none
  | some later ↦ some later
]

abbrev later_of : Option Event → Option Event → Option Event
later_of (some e) o = some e
later_of none o = o

last_sent-append :
    (ch : ℕ) (l m : List (ℕ × Event))
    → last_sent ch (l ++ m) ≡ later_of (last_sent ch m) (last_sent ch l)
last_sent-append ch [] m = ground arith
last_sent-append ch ((c, e) ∷ l) m = ground (arith, last_sent-append ch l m)

last_sent-broadcast :
    (ch : ℕ) (reg : List ℕ) (e : Event)
    → last_sent ch (broadcast reg e) ≡ (if has reg ch then some e else none)
unfolding broadcast
last_sent-broadcast ch [] e = refl
last_sent-broadcast ch (c ∷ reg) e = ground (arith, last_sent-broadcast ch reg e)

-- Every channel that is registered was last sent the current state.
pub record IsCurrent (c : Cache) : Type 0 where
  pub at : (ch : ℕ) → has c.reg ch ≡ true → last_sent ch c.sent ≡ some c.state

pub update-IsCurrent : (e : Event) (c : Cache) → IsCurrent c → IsCurrent (update e c)
unfolding update
update-IsCurrent e c h =
    let e' : Event = record e { instances = sort_slice e.instances } in
    elim (Bool-cases (deep_equal c.state e')) [
      | inl same ↦ rw same h
      | inr new ↦ rw new (record {
        at = λ ch r.
            rw (last_sent-append ch c.sent (broadcast c.reg e'), last_sent-broadcast ch c.reg e')
              (rw r);
      })
    ]

pub register-IsCurrent : (ch : ℕ) (c : Cache) → IsCurrent c → IsCurrent (register ch c)
unfolding register
register-IsCurrent ch c h = record {
  at = λ j r. ground (arith, h.at j, last_sent-append j c.sent ((ch, c.state) ∷ []));
}

has-without : (l : List ℕ) (ch j : ℕ) → has (without l ch) j ≡ true → has l j ≡ true
has-without [] ch j h = h
has-without (c ∷ l) ch j h = ground (arith, has-without l ch j)

deregister-IsCurrent : (ch : ℕ) (c : Cache) → IsCurrent c → IsCurrent (deregister ch c)
unfolding deregister
deregister-IsCurrent ch c h = record { at = λ j r. h.at j (has-without c.reg ch j r) }

-- A call of the cache. Each holds the lock from start to end.
pub data Call : Type 0 where
  updates : Event → Call
  registers : ℕ → Call
  deregisters : ℕ → Call

unfoldable pub apply : Call → Cache → Cache
apply (updates e) c = update e c
apply (registers ch) c = register ch c
apply (deregisters ch) c = deregister ch c

unfoldable pub run : List Call → Cache → Cache
unfolding apply
run [] c = c
run (x ∷ xs) c = run xs (apply x c)

apply-IsCurrent : (x : Call) (c : Cache) → IsCurrent c → IsCurrent (apply x c)
unfolding apply
apply-IsCurrent (updates e) c h = update-IsCurrent e c h
apply-IsCurrent (registers ch) c h = register-IsCurrent ch c h
apply-IsCurrent (deregisters ch) c h = deregister-IsCurrent ch c h

run-keeps-IsCurrent : (xs : List Call) (c : Cache) → IsCurrent c → IsCurrent (run xs c)
unfolding run
run-keeps-IsCurrent [] c h = h
run-keeps-IsCurrent (x ∷ xs) c h = run-keeps-IsCurrent xs (apply x c) (apply-IsCurrent x c h)

-- After any calls on a new cache, every registered channel was last sent the current state.
pub run-IsCurrent : (xs : List Call) → IsCurrent (run xs new_cache)
unfolding new_cache
run-IsCurrent xs = run-keeps-IsCurrent xs new_cache (record { at = λ ch r. cc })

list_eq_refl : (l : List Str) → list_eq l l ≡ true
list_eq_refl [] = refl
list_eq_refl (a ∷ l) = ground (arith, str_eq_iff a a, list_eq_refl l)

slice_eq_refl : (s : Slice) → slice_eq s s ≡ true
slice_eq_refl nil_slice = refl
slice_eq_refl (slice l) = list_eq_refl l

error_eq_refl : (e : Option Error) → error_eq e e ≡ true
error_eq_refl none = refl
error_eq_refl (some eof) = refl
error_eq_refl (some (message m)) = (str_eq_iff m m).1 refl

deep_equal_refl : (e : Event) → deep_equal e e ≡ true
unfolding deep_equal
deep_equal_refl e = rw (slice_eq_refl e.instances, error_eq_refl e.error)

list_eq→eq : (l m : List Str) → list_eq l m ≡ true → l ≡ m
list_eq→eq [] [] h = refl
list_eq→eq [] (b ∷ m) h = cc
list_eq→eq (a ∷ l) [] h = cc
list_eq→eq (a ∷ l) (b ∷ m) h = ground (arith, str_eq_iff a b, list_eq→eq l m)

slice_eq→eq : (s t : Slice) → slice_eq s t ≡ true → s ≡ t
slice_eq→eq nil_slice nil_slice h = refl
slice_eq→eq nil_slice (slice m) h = cc
slice_eq→eq (slice l) nil_slice h = cc
slice_eq→eq (slice l) (slice m) h = ap slice (list_eq→eq l m h)

error_eq→eq : (a b : Option Error) → error_eq a b ≡ true → a ≡ b
error_eq→eq none none h = refl
error_eq→eq none (some e) h = cc
error_eq→eq (some e) none h = cc
error_eq→eq (some eof) (some eof) h = refl
error_eq→eq (some eof) (some (message m)) h = cc
error_eq→eq (some (message m)) (some eof) h = cc
error_eq→eq (some (message m)) (some (message n)) h = ground (arith, str_eq_iff m n)

deep_equal→eq : (a b : Event) → deep_equal a b ≡ true → a ≡ b
unfolding deep_equal
deep_equal→eq a b h =
    ground (arith, slice_eq→eq a.instances b.instances, error_eq→eq a.error b.error)

-- The state after an update is the event with its instances in order.
pub state-update :
    (e : Event) (c : Cache) → (update e c).state ≡ record e { instances = sort_slice e.instances }
unfolding update
state-update e c =
    let e' : Event = record e { instances = sort_slice e.instances } in
    elim (Bool-cases (deep_equal c.state e')) [
      | inl same ↦ rw same (deep_equal→eq c.state e' same)
      | inr new ↦ rw new
    ]

update_same :
    (e : Event) (c : Cache)
    → c.state ≡ record e { instances = sort_slice e.instances }
    → update e c ≡ c
unfolding update
update_same e c h =
    let e' : Event = record e { instances = sort_slice e.instances } in
    let same : deep_equal c.state e' ≡ true =
      subst (λ s. deep_equal s e' ≡ true) (sym h) (deep_equal_refl e') in
    rw same

-- Consul may report the instances in another order: an update with the same instances and the same
-- error, in whatever order, changes nothing and sends nothing.
pub update_rearranged :
    (l m : List Str) (error : Option Error) (c : Cache)
    → Perm l m
    → let c' = update (record { instances = slice l; error = error }) c in
      update (record { instances = slice m; error = error }) c' ≡ c'
unfolding sort_slice
update_rearranged l m error c p =
    update_same (record { instances = slice m; error = error }) _
      (state-update (record { instances = slice l; error = error }) c
        ∙ ap (λ (t : List Str). let e : Event = record { instances = slice t; error = error } in e)
            (sort-perm l m p))
