-- ===== src/Go/Members.antt =====
-- Membership in a []string, and what sort.Strings does to it.
use tiki.Base.{◌≡◌, refl, Bool, true, false, List, [], ◌∷◌, arith, Str, str_eq, if◌then◌else◌}
use tiki.Go.Sort.{sort_strings, insert_sorted}

abbrev pub mem : List Str → Str → Bool
mem [] a = false
mem (i ∷ is) a = if str_eq i a then true else mem is a

mem-insert : (x : Str) (l : List Str) (a : Str) → mem (insert_sorted x l) a ≡ mem (x ∷ l) a
unfolding insert_sorted
mem-insert x [] a = refl
mem-insert x (y ∷ l) a = ground (arith, mem-insert x l a)

pub mem-sort : (l : List Str) (a : Str) → mem (sort_strings l) a ≡ mem l a
unfolding sort_strings
mem-sort [] a = refl
mem-sort (x ∷ l) a = ground (arith, mem-insert x (sort_strings l) a, mem-sort l a)
