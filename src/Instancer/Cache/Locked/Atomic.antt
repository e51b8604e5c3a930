-- ===== src/Instancer/Cache/Locked/Atomic.antt =====
-- client/sd/instancer/cache.go: the calls under the mutex are those of the cache that does each call
-- at once, and what the listeners take is what it sends.
use tiki.Base.{
  ℕ, ◌≤◌, ◌≡◌, refl, sym, ap, ◌∙◌, Bool-cases, inl, inr, List, [], ◌∷◌, ◌++◌, arith, append_assoc,
  append-nil, ◌==◌, if◌then◌else◌, length, length-append,
}
use tiki.Instancer.Cache.{
  Event, Cache, new_cache, sort_slice, deep_equal, update, register, deregister,
}
use tiki.Instancer.Cache.Current.{Call, updates, registers, deregisters, apply, run}
use tiki.Instancer.Cache.Locked.{
  Mutex, free, held, Shared, begin, begin_update, begin_register, begin_deregister, logged,
  new_shared, Step, lock, send, hand, unlock, take, Reach, here, later,
}

-- The sends that the holder has left.
abbrev pub left : Mutex → List (ℕ × Event)
left free = []
left (held l) = l

-- The cache once the holder is through its sends.
abbrev pub finished : Shared → Cache
finished w = record w.cache { sent = w.cache.sent ++ left w.mtx }

-- The events that were sent to a channel, in order.
abbrev pub sent_on : ℕ → List (ℕ × Event) → List Event
sent_on ch [] = []
sent_on ch ((c, e) ∷ l) = let rest = sent_on ch l in if c == ch then e ∷ rest else rest

apply-begin :
    (x : Call) (c : Cache)
    → apply x c ≡ record (begin x c).0 { sent = (begin x c).0.sent ++ (begin x c).1 }
unfolding apply update register deregister begin begin_update begin_register begin_deregister
apply-begin (updates e) c =
    elim (Bool-cases (deep_equal c.state (record e { instances = sort_slice e.instances }))) [
      | inl same ↦ rw same (ap (λ l. record c { sent = l }) (sym (append-nil c.sent)))
      | inr new ↦ rw new
    ]
apply-begin (registers ch) c = refl
apply-begin (deregisters ch) c =
    ap (λ l. record (deregister ch c) { sent = l }) (sym (append-nil c.sent))

run-append : (xs ys : List Call) (c : Cache) → run (xs ++ ys) c ≡ run ys (run xs c)
unfolding run
run-append [] ys c = refl
run-append (x ∷ xs) ys c = run-append xs ys (apply x c)

pub sent_on-append :
    (ch : ℕ) (l m : List (ℕ × Event)) → sent_on ch (l ++ m) ≡ sent_on ch l ++ sent_on ch m
sent_on-append ch [] m = refl
sent_on-append ch ((c, e) ∷ l) m = ground (arith, sent_on-append ch l m)

-- The calls that begin in a step, and in all the steps, in the order in which they get the mutex.
abbrev pub begun_by : {cap : ℕ → ℕ} {w z : Shared} → Step cap w z → List Call
begun_by (lock x h) = x ∷ []
begun_by (send ch e rest h l) = []
begun_by (hand ch e rest h q) = []
begun_by (unlock h) = []
begun_by (take ch e rest q) = []

abbrev pub begun : {cap : ℕ → ℕ} {w z : Shared} → Reach cap w z → List Call
begun here = []
begun (later r st) = begun r ++ begun_by st

-- These calls, each done at once on a new cache, give the cache as it is when the holder of the mutex
-- is through; each listener has taken, or has in its buffer, what was sent to it, in order.
pub record IsAtomic (cap : ℕ → ℕ) (calls : List Call) (w : Shared) : Type 0 where
  pub agrees : finished w ≡ run calls new_cache
  pub delivered : (ch : ℕ) → sent_on ch w.cache.sent ≡ w.received ch ++ w.queue ch
  pub bound : (ch : ℕ) → length (w.queue ch) ≤ cap ch

pub finished-free : (w : Shared) → w.mtx ≡ free → finished w ≡ w.cache
finished-free w h = rw h (ap (λ l. record w.cache { sent = l }) (append-nil w.cache.sent))

-- A send moves the first of the sends that are left to those that are done.
finished-send :
    (w : Shared) (ch : ℕ) (e : Event) (rest : List (ℕ × Event))
    → w.mtx ≡ held ((ch, e) ∷ rest)
    → record (logged ch e w.cache) { sent = (logged ch e w.cache).sent ++ rest } ≡ finished w
unfolding logged
finished-send w ch e rest h =
    rw h (ap (λ l. record w.cache { sent = l }) (append_assoc w.cache.sent ((ch, e) ∷ []) rest))

-- A step begins a call, or is a part of one that has begun.
finished-Step :
    {cap : ℕ → ℕ} {w z : Shared} (st : Step cap w z) → finished z ≡ run (begun_by st) (finished w)
unfolding run
finished-Step {w = w} (lock x h) = sym (ap (apply x) (finished-free w h) ∙ apply-begin x w.cache)
finished-Step {w = w} (send ch e rest h l) = finished-send w ch e rest h
finished-Step {w = w} (hand ch e rest h q) = finished-send w ch e rest h
finished-Step {w = w} (unlock h) =
    ap (λ m. record w.cache { sent = w.cache.sent ++ left m }) (sym h)
finished-Step (take ch e rest q) = refl

abbrev Delivered : Shared → ℕ → Type 0
Delivered w j = sent_on j w.cache.sent ≡ w.received j ++ w.queue j

sent-begin : (x : Call) (c : Cache) → (begin x c).0.sent ≡ c.sent
unfolding begin begin_update begin_register begin_deregister
sent-begin (updates e) c =
    elim (Bool-cases (deep_equal c.state (record e { instances = sort_slice e.instances }))) [
      | inl same ↦ rw same
      | inr new ↦ rw new
    ]
sent-begin (registers ch) c = refl
sent-begin (deregisters ch) c = refl

Step-Delivered : {cap : ℕ → ℕ} {w z : Shared} (j : ℕ) → Delivered w j → Step cap w z → Delivered z j
unfolding logged
Step-Delivered {w = w} j d (lock x h) = ap (sent_on j) (sent-begin x w.cache) ∙ d
Step-Delivered {w = w} j d (send ch e rest h l) = ground (
  arith,
  d,
  sent_on-append j w.cache.sent ((ch, e) ∷ []),
  append_assoc (w.received j) (w.queue j) (e ∷ []),
  append-nil (sent_on j w.cache.sent),
)
Step-Delivered {w = w} j d (hand ch e rest h q) = ground (
  arith,
  d,
  q,
  sent_on-append j w.cache.sent ((ch, e) ∷ []),
  append-nil (w.received j),
  append-nil (w.received j ++ e ∷ []),
  append-nil (sent_on j w.cache.sent),
)
Step-Delivered j d (unlock h) = d
Step-Delivered {w = w} j d (take ch e rest q) =
    ground (arith, d, q, append_assoc (w.received j) (e ∷ []) rest)

Step-bound :
    {cap : ℕ → ℕ} {w z : Shared} (j : ℕ)
    → length (w.queue j) ≤ cap j
    → Step cap w z
    → length (z.queue j) ≤ cap j
Step-bound j b (lock x h) = b
Step-bound {w = w} j b (send ch e rest h l) =
    ground (arith, b, l, length-append (w.queue ch) (e ∷ []))
Step-bound j b (hand ch e rest h q) = b
Step-bound j b (unlock h) = b
Step-bound {w = w} j b (take ch e rest q) = ground (arith, b, ap length q)

-- Whatever calls come, and in whatever order the steps are taken: a cache under its mutex is one that
-- does the calls at once, in the order in which they got the mutex; each listener takes what that one
-- sends to it, in order; and what it has not taken is within the capacity of its channel.
pub Reach-IsAtomic :
    {cap : ℕ → ℕ} (z : Shared) (r : Reach cap new_shared z) → IsAtomic cap (begun r) z
unfolding new_shared run new_cache
Reach-IsAtomic z here = record { agrees = refl; delivered = λ ch. refl; bound = λ ch. omega arith }
Reach-IsAtomic z (later {v = v} r st) =
    let k = Reach-IsAtomic v r in
    record {
      agrees =
          finished-Step st
          ∙ ap (run (begun_by st)) k.agrees
          ∙ sym (run-append (begun r) (begun_by st) new_cache);
      delivered = λ j. Step-Delivered j (k.delivered j) st;
      bound = λ j. Step-bound j (k.bound j) st;
    }
