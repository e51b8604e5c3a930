-- ===== src/Go/Sort.antt =====
-- sort.Strings: it puts strings into byte-wise order. A sorted arrangement of given strings is
-- unique, so the sorting method does not show; insertion is the method here.
use mathlib.Core.List.{Perm, Permᴰ}
use mathlib.Core.List.Permᴰ
use mathlib.Core.Logic.{∥∥₁_elim}
use tiki.Base.{
  ◌≡◌, refl, ap, ◌∙◌, Bool, true, false, List, [], ◌∷◌, arith, Str, ltb, ◌==◌, if◌then◌else◌,
  Bool-cases, inl, inr, ◌⊎◌,
}

-- s <= t
unfoldable pub str_leb : Str → Str → Bool
str_leb [] t = true
str_leb (c ∷ s) [] = false
str_leb (c ∷ s) (d ∷ t) =
    let rest = str_leb s t in if ltb c d then true else if c == d then rest else false

unfoldable pub insert_sorted : Str → List Str → List Str
insert_sorted a [] = a ∷ []
insert_sorted a (b ∷ l) =
    let later = b ∷ insert_sorted a l in if str_leb a b then a ∷ b ∷ l else later

unfoldable pub sort_strings : List Str → List Str
unfolding insert_sorted str_leb
sort_strings [] = []
sort_strings (a ∷ l) = insert_sorted a (sort_strings l)

str_leb_total : (s t : Str) → (str_leb s t ≡ true) ⊎ (str_leb t s ≡ true)
unfolding str_leb
str_leb_total [] t = inl refl
str_leb_total (c ∷ s) [] = inr refl
str_leb_total (c ∷ s) (d ∷ t) = ground (arith, str_leb_total s t)

str_leb_antisymm : (s t : Str) → str_leb s t ≡ true → str_leb t s ≡ true → s ≡ t
unfolding str_leb
str_leb_antisymm [] [] h k = refl
str_leb_antisymm [] (d ∷ t) h k = cc
str_leb_antisymm (c ∷ s) [] h k = cc
str_leb_antisymm (c ∷ s) (d ∷ t) h k = ground (arith, str_leb_antisymm s t)

str_leb_trans : (s t u : Str) → str_leb s t ≡ true → str_leb t u ≡ true → str_leb s u ≡ true
unfolding str_leb
str_leb_trans [] t u h k = refl
str_leb_trans (c ∷ s) [] u h k = cc
str_leb_trans (c ∷ s) (d ∷ t) [] h k = cc
str_leb_trans (c ∷ s) (d ∷ t) (e ∷ u) h k = ground (arith, str_leb_trans s t u)

insert_comm :
    (a b : Str) (l : List Str)
    → insert_sorted a (insert_sorted b l) ≡ insert_sorted b (insert_sorted a l)
unfolding insert_sorted
insert_comm a b [] = ground (arith, str_leb_total a b, str_leb_antisymm a b)
insert_comm a b (c ∷ l) = ground (
  arith,
  insert_comm a b l,
  str_leb_total a b,
  str_leb_antisymm a b,
  str_leb_trans a b c,
  str_leb_trans b a c,
  str_leb_total a c,
  str_leb_total b c,
  str_leb_trans a c b,
  str_leb_trans b c a,
)

sort-Permᴰ : {l m : List Str} → Permᴰ l m → sort_strings l ≡ sort_strings m
unfolding sort_strings
sort-Permᴰ Permᴰ.nil = refl
sort-Permᴰ (Permᴰ.cons e p) = λ i. insert_sorted (e i) (sort-Permᴰ p i)
sort-Permᴰ (Permᴰ.swap {a} {b} {l = l} e f) =
    insert_comm a b (sort_strings l)
    ∙ (λ i. insert_sorted (f i) (insert_sorted (e i) (sort_strings l)))
sort-Permᴰ (Permᴰ.trans p q) = sort-Permᴰ p ∙ sort-Permᴰ q

-- Two arrangements of the same strings are sorted to the same list.
pub sort-perm : (l m : List Str) → Perm l m → sort_strings l ≡ sort_strings m
sort-perm l m p = ∥∥₁_elim p (hlevel) sort-Permᴰ

-- In order.
abbrev Above : Str → List Str → Type 0
Above a [] = Unit
Above a (b ∷ l) = str_leb a b ≡ true

abbrev pub IsSorted : List Str → Type 0
IsSorted [] = Unit
IsSorted (a ∷ l) = Above a l × IsSorted l

insert-IsSorted : (a : Str) (l : List Str) → IsSorted l → IsSorted (insert_sorted a l)
unfolding insert_sorted
insert-IsSorted a [] h = (tt, tt)
insert-IsSorted a (b ∷ []) h = ground (arith, str_leb_total a b)
insert-IsSorted a (b ∷ c ∷ l) h = ground (arith, str_leb_total a b, insert-IsSorted a (c ∷ l) h.1)

pub sort-IsSorted : (l : List Str) → IsSorted (sort_strings l)
unfolding sort_strings
sort-IsSorted [] = tt
sort-IsSorted (a ∷ l) = insert-IsSorted a (sort_strings l) (sort-IsSorted l)

insert_least : (a : Str) (l : List Str) → Above a l → insert_sorted a l ≡ a ∷ l
unfolding insert_sorted
insert_least a [] h = refl
insert_least a (b ∷ l) h = rw h

-- A sorted list is left as it is.
pub sort_sorted : (l : List Str) → IsSorted l → sort_strings l ≡ l
unfolding sort_strings
sort_sorted [] h = refl
sort_sorted (a ∷ l) h = ap (insert_sorted a) (sort_sorted l h.1) ∙ insert_least a l h.0

pub sort-sort : (l : List Str) → sort_strings (sort_strings l) ≡ sort_strings l
sort-sort l = sort_sorted (sort_strings l) (sort-IsSorted l)

insert-Permᴰ : (a : Str) (l : List Str) → Permᴰ (insert_sorted a l) (a ∷ l)
unfolding insert_sorted
insert-Permᴰ a [] = Permᴰ.refl (a ∷ [])
insert-Permᴰ a (b ∷ l) = elim (Bool-cases (str_leb a b)) [
  | inl y ↦ rw y (Permᴰ.refl (a ∷ b ∷ l))
  | inr n ↦ rw n (Permᴰ.trans (Permᴰ.cons refl (insert-Permᴰ a l)) (Permᴰ.swap refl refl))
]

sort-Permᴰ_self : (l : List Str) → Permᴰ (sort_strings l) l
unfolding sort_strings
sort-Permᴰ_self [] = Permᴰ.nil
sort-Permᴰ_self (a ∷ l) =
    Permᴰ.trans (insert-Permᴰ a (sort_strings l)) (Permᴰ.cons refl (sort-Permᴰ_self l))

-- Sorting arranges the given strings.
pub sort-perm_self : (l : List Str) → Perm (sort_strings l) l
sort-perm_self l = ∣ sort-Permᴰ_self l ∣₁
