-- ===== src/Instancer/Cache/Locked.antt =====
-- client/sd/instancer/cache.go: the cache step by step, under its mutex, with the channels that its
-- sends wait for. The calls come from any goroutines, and the listeners take when they like. A
-- broadcast goes through the channels in the order of `reg`; State, which changes nothing, is no step.
pub mod Atomic
pub mod Heard
pub mod Live
pub mod Stuck
pub mod Tests
use tiki.Base.{ℕ, ◌<◌, ◌≡◌, List, [], ◌∷◌, ◌++◌, ◌==◌, if◌then◌else◌, length}
use tiki.Instancer.Cache.{Event, Cache, new_cache, sort_slice, deep_equal, broadcast, has, without}
use tiki.Instancer.Cache.Current.{Call, updates, registers, deregisters}

-- The mutex: free, or held by a call that has these sends left.
pub data Mutex : Type 0 where
  free : Mutex
  held : List (ℕ × Event) → Mutex

-- `queue` is what is in the buffer of each channel, and `received` what its listener has taken.
pub record Shared : Type 0 where
  pub cache : Cache
  pub mtx : Mutex
  pub queue : ℕ → List Event
  pub received : ℕ → List Event

abbrev pub put : ℕ → List Event → (ℕ → List Event) → ℕ → List Event
put ch l f j = if ch == j then l else f j

-- Update up to the broadcast, with the sends that are to come.
unfoldable pub begin_update : Event → Cache → Cache × List (ℕ × Event)
begin_update event c =
    let e : Event = record event { instances = sort_slice event.instances } in
    if deep_equal c.state e then (c, []) else (record c { state = e }, broadcast c.reg e)

-- Register up to its send.
unfoldable pub begin_register : ℕ → Cache → Cache × List (ℕ × Event)
begin_register ch c =
    (record c { reg = if has c.reg ch then c.reg else ch ∷ c.reg }, (ch, c.state) ∷ [])

unfoldable pub begin_deregister : ℕ → Cache → Cache × List (ℕ × Event)
begin_deregister ch c = (record c { reg = without c.reg ch }, [])

unfoldable pub begin : Call → Cache → Cache × List (ℕ × Event)
begin (updates e) c = begin_update e c
begin (registers ch) c = begin_register ch c
begin (deregisters ch) c = begin_deregister ch c

unfoldable pub logged : ℕ → Event → Cache → Cache
logged ch e c = record c { sent = c.sent ++ (ch, e) ∷ [] }

unfoldable pub new_shared : Shared
new_shared = record { cache = new_cache; mtx = free; queue = λ ch. []; received = λ ch. [] }

-- The channels have the capacities that their makers gave them. `hand` is a send to a listener that
-- waits, which needs no buffer.
pub data Step (cap : ℕ → ℕ) (w : Shared) : Shared → Type 0 where
  lock :
      (x : Call)
      → w.mtx ≡ free
      → Step cap w (record w { cache = (begin x w.cache).0; mtx = held (begin x w.cache).1 })
  send :
      (ch : ℕ) (e : Event) (rest : List (ℕ × Event))
      → w.mtx ≡ held ((ch, e) ∷ rest)
      → length (w.queue ch) < cap ch
      → Step cap w (record w {
        cache = logged ch e w.cache;
        mtx = held rest;
        queue = put ch (w.queue ch ++ e ∷ []) w.queue;
      })
  hand :
      (ch : ℕ) (e : Event) (rest : List (ℕ × Event))
      → w.mtx ≡ held ((ch, e) ∷ rest)
      → w.queue ch ≡ []
      → Step cap w (record w {
        cache = logged ch e w.cache;
        mtx = held rest;
        received = put ch (w.received ch ++ e ∷ []) w.received;
      })
  unlock : w.mtx ≡ held [] → Step cap w (record w { mtx = free })
  take :
      (ch : ℕ) (e : Event) (rest : List Event)
      → w.queue ch ≡ e ∷ rest
      → Step cap w (record w {
        queue = put ch rest w.queue;
        received = put ch (w.received ch ++ e ∷ []) w.received;
      })

pub data Reach (cap : ℕ → ℕ) (w : Shared) : Shared → Type 0 where
  here : Reach cap w w
  later : {v u : Shared} → Reach cap w v → Step cap v u → Reach cap w u
