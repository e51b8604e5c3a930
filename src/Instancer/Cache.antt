-- ===== src/Instancer/Cache.antt =====
-- client/sd/instancer/cache.go: the last event of service discovery, and the channels that listen
-- for events. A channel is its number. Each call is done at once, and what is sent
-- is logged; sends that block are in Instancer.Cache.Locked.
pub mod Current
pub mod Locked
use tiki.Base.{
  ℕ, ◌≡◌, refl, Bool, true, false, ◌&&◌, List, [], ◌∷◌, ◌++◌, Option, none, some, Str, str_eq, ◌==◌,
  if◌then◌else◌,
}
use tiki.Go.Sort.{sort_strings}

-- A []string: nil, or not.
pub data Slice : Type 0 where
  nil_slice : Slice
  slice : List Str → Slice

-- An error: io.EOF, or another by its text.
pub data Error : Type 0 where
  eof : Error
  message : Str → Error

-- sd.Event
pub record Event : Type 0 where
  pub instances : Slice
  pub error : Option Error

pub record Cache : Type 0 where
  pub state : Event
  pub reg : List ℕ
  pub sent : List (ℕ × Event)

unfoldable pub new_cache : Cache
new_cache = record { state = record { instances = nil_slice; error = none }; reg = []; sent = [] }

-- sort.Strings works in place: the caller sees the order too.
unfoldable pub sort_slice : Slice → Slice
sort_slice nil_slice = nil_slice
sort_slice (slice l) = slice (sort_strings l)

-- reflect.DeepEqual tells a nil slice from an empty one.
abbrev list_eq : List Str → List Str → Bool
list_eq [] [] = true
list_eq [] (b ∷ m) = false
list_eq (a ∷ l) [] = false
list_eq (a ∷ l) (b ∷ m) = str_eq a b && list_eq l m

abbrev slice_eq : Slice → Slice → Bool
slice_eq nil_slice nil_slice = true
slice_eq nil_slice (slice m) = false
slice_eq (slice l) nil_slice = false
slice_eq (slice l) (slice m) = list_eq l m

abbrev error_eq : Option Error → Option Error → Bool
error_eq none none = true
error_eq none (some e) = false
error_eq (some e) none = false
error_eq (some eof) (some eof) = true
error_eq (some eof) (some (message m)) = false
error_eq (some (message m)) (some eof) = false
error_eq (some (message m)) (some (message n)) = str_eq m n

unfoldable pub deep_equal : Event → Event → Bool
deep_equal a b = slice_eq a.instances b.instances && error_eq a.error b.error

-- The loop of `broadcast`.
unfoldable pub broadcast : List ℕ → Event → List (ℕ × Event)
broadcast [] e = []
broadcast (ch ∷ rest) e = (ch, e) ∷ broadcast rest e

unfoldable pub update : Event → Cache → Cache
unfolding deep_equal
update event c =
    let e : Event = record event { instances = sort_slice event.instances } in
    if deep_equal c.state e then c else record c { state = e; sent = c.sent ++ broadcast c.reg e }

abbrev pub has : List ℕ → ℕ → Bool
has [] ch = false
has (c ∷ l) ch = if c == ch then true else has l ch

abbrev pub without : List ℕ → ℕ → List ℕ
without [] ch = []
without (c ∷ l) ch = let rest = without l ch in if c == ch then rest else c ∷ rest

-- The channel is added, and gets the current state.
unfoldable pub register : ℕ → Cache → Cache
register ch c = record c {
  reg = if has c.reg ch then c.reg else ch ∷ c.reg;
  sent = c.sent ++ (ch, c.state) ∷ [];
}

unfoldable pub deregister : ℕ → Cache → Cache
deregister ch c = record c { reg = without c.reg ch }
