-- ===== src/Go/Strings.antt =====
-- The functions of package strings that the code calls.
pub mod Laws
use tiki.Base.{
  ℕ, zero, suc, ◌-◌, Bool, true, false, ◌&&◌, List, [], ◌∷◌, ◌++◌, Option, none, some, map, length,
  Str, ◌==◌, if◌then◌else◌,
}

-- strings.HasPrefix
unfoldable pub has_prefix : Str → Str → Bool
has_prefix [] s = true
has_prefix (c ∷ p) [] = false
has_prefix (c ∷ p) (d ∷ s) = c == d && has_prefix p s

-- strings.Contains
unfoldable pub contains : Str → Str → Bool
unfolding has_prefix
contains sub [] = has_prefix sub []
contains sub (c ∷ s) = let rest = contains sub s in if has_prefix sub (c ∷ s) then true else rest

-- strings.Index: `none` stands for -1.
unfoldable pub index : Str → Str → Option ℕ
unfolding has_prefix
index [] sub = if has_prefix sub [] then some 0 else none
index (c ∷ s) sub =
    let later : Option ℕ = elim (index s sub) [ none ↦ none | some i ↦ some (suc i) ] in
    if has_prefix sub (c ∷ s) then some 0 else later

abbrev pub cons_head : ℕ → List Str → List Str
cons_head c [] = (c ∷ []) ∷ []
cons_head c (p ∷ ps) = (c ∷ p) ∷ ps

-- The parts of what is left of the text, when `skip` bytes of a separator are still to be passed.
unfoldable pub split_from : Str → Str → ℕ → List Str
unfolding has_prefix
split_from sep [] skip = [] ∷ []
split_from sep (c ∷ s) (suc skip) = split_from sep s skip
split_from sep (c ∷ s) zero = elim (has_prefix sep (c ∷ s)) [
  | true ↦ [] ∷ split_from sep s (length sep - 1)
  | false ↦ cons_head c (split_from sep s zero)
]

-- strings.Split, for a separator that is not empty.
unfoldable pub split : Str → Str → List Str
unfolding split_from
split s sep = split_from sep s 0

-- strings.Replace(s, old, new, -1), where `old` and `new` are one byte each.
unfoldable pub replace_all : Str → ℕ → ℕ → Str
replace_all [] old new = []
replace_all (c ∷ s) old new = (if c == old then new else c) ∷ replace_all s old new

-- strings.Join
unfoldable pub join : List Str → Str → Str
join [] sep = []
join (p ∷ []) sep = p
join (p ∷ q ∷ ps) sep = p ++ sep ++ join (q ∷ ps) sep
