-- ===== src/Lb/Weight.antt =====
-- client/http/lb/lb.go: the weight that the tags of an instance give it.
use Prim.Native.Nat.{min}
use tiki.Base.{
  ℕ, ◌≤◌, ◌<◌, ◌≡◌, refl, ap, ◌∙◌, str_eq_iff, Bool, true, false, List, [], ◌∷◌, ◌++◌, Option, none,
  some, arith, Str, str_eq, codes, ltb, if◌then◌else◌, ℤ, pos, negsuc, ◌==◌,
}
use tiki.Go.Strings.{index, split}
use tiki.Go.Strings.Laws.{split_at, split_whole, Lacks, index_zero, has_prefix-append}
use tiki.Go.Strconv.{atoi, itoa, int_bound}
use tiki.Go.Strconv.RoundTrip.{atoi-itoa, itoa-Lacks}
use tiki.Go.Maps.{Map, get}

abbrev pub default_weight : ℕ
default_weight = 100

-- The parsed number, held within 0 and 100.
abbrev pub clamp : ℤ → ℕ
clamp (negsuc n) = 0
clamp (pos n) = if ltb 100 n then 100 else n

-- `if w, err := strconv.Atoi(wStr); err == nil`
abbrev pub parsed : ℕ → Option ℤ → ℕ
parsed weight none = weight
parsed weight (some w) = clamp w

-- `arr := strings.Split(tag, "_"); if len(arr) == 2`
abbrev pub from_parts : ℕ → List Str → ℕ
from_parts weight (a ∷ w_str ∷ []) = parsed weight (atoi w_str)
from_parts weight _ = weight

abbrev pub at_start : Option ℕ → Bool
at_start none = false
at_start (some i) = i == 0

-- One round of the loop over the tags.
unfoldable pub tag_weight : ℕ → Str → ℕ
tag_weight weight tag =
    if str_eq tag (codes "stg")
    then 1
    else if at_start (index tag (codes "weight_"))
    then from_parts weight (split tag (codes "_"))
    else weight

unfoldable pub tags_weight : ℕ → List Str → ℕ
tags_weight weight [] = weight
tags_weight weight (tag ∷ tags) = tags_weight (tag_weight weight tag) tags

-- The weight of an address: `if tags, ok := tagMap[addr]; ok`.
unfoldable pub weight : Map (List Str) → Str → ℕ
weight tag_map addr = elim (get tag_map addr) [
  | none ↦ default_weight
  | some tags ↦ tags_weight default_weight tags
]

tag_weight-le : (w : ℕ) (tag : Str) → w ≤ 100 → tag_weight w tag ≤ 100
unfolding tag_weight
tag_weight-le w tag h = ground arith

tags_weight-le : (w : ℕ) (tags : List Str) → w ≤ 100 → tags_weight w tags ≤ 100
unfolding tags_weight
tags_weight-le w [] h = h
tags_weight-le w (tag ∷ tags) h = tags_weight-le (tag_weight w tag) tags (tag_weight-le w tag h)

-- Whatever the tags of the instances are, no weight is above 100.
pub weight-le : (tag_map : Map (List Str)) (addr : Str) → weight tag_map addr ≤ 100
unfolding weight
weight-le tag_map addr =
    elim (get tag_map addr)
      as (λ o.
        elim o [ none ↦ default_weight | some tags ↦ tags_weight default_weight tags ] ≤ 100) [
          | none ↦ omega arith
          | some tags ↦ tags_weight-le 100 tags (omega arith)
        ]

pub tags_weight-append :
    (w : ℕ) (xs ys : List Str) → tags_weight w (xs ++ ys) ≡ tags_weight (tags_weight w xs) ys
unfolding tags_weight
tags_weight-append w [] ys = refl
tags_weight-append w (x ∷ xs) ys = tags_weight-append (tag_weight w x) xs ys

-- The tag `weight_<n>`.
abbrev pub weight_tag : ℕ → Str
weight_tag n = codes "weight_" ++ itoa n

index-weight_tag : (n : ℕ) → at_start (index (weight_tag n) (codes "weight_")) ≡ true
index-weight_tag n =
    rw (index_zero (weight_tag n) (codes "weight_") (has_prefix-append (codes "weight_") (itoa n)))

split-weight_tag : (n : ℕ) → split (weight_tag n) (codes "_") ≡ codes "weight" ∷ itoa n ∷ []
split-weight_tag n =
    split_at b'_' (codes "weight") (itoa n) (omega arith)
    ∙ ap (λ (t : List Str). codes "weight" ∷ t) (split_whole b'_' (itoa n) (digits_only n))
  where
    digits_only : (m : ℕ) → Lacks b'_' (itoa m)
    digits_only m = itoa-Lacks b'_' m (omega arith)

tag_weight-weight_tag : (w n : ℕ) → n < int_bound → tag_weight w (weight_tag n) ≡ min n 100
unfolding tag_weight
tag_weight-weight_tag w n h =
    rw (not_stg, index-weight_tag n, split-weight_tag n, atoi-itoa n h) (ground arith)
  where
    not_stg : str_eq (weight_tag n) (codes "stg") ≡ false
    not_stg = ground (arith, str_eq_iff (weight_tag n) (codes "stg"))

-- A last tag `weight_<n>` gives an instance the weight n, or 100 if n is above, whatever tags it
-- has before. The number n is an int.
pub weight-print :
    (tag_map : Map (List Str)) (addr : Str) (tags : List Str) (n : ℕ)
    → n < int_bound
    → get tag_map addr ≡ some (tags ++ weight_tag n ∷ [])
    → weight tag_map addr ≡ min n 100
unfolding weight
weight-print tag_map addr tags n h e =
    rw (e, weight)
      (tags_weight-append 100 tags (weight_tag n ∷ [])
        ∙ unfold tags_weight in tag_weight-weight_tag (tags_weight 100 tags) n h)

-- A last tag `stg` gives an instance the weight 1, whatever tags it has before.
pub weight-stg :
    (tag_map : Map (List Str)) (addr : Str) (tags : List Str)
    → get tag_map addr ≡ some (tags ++ codes "stg" ∷ [])
    → weight tag_map addr ≡ 1
unfolding weight
weight-stg tag_map addr tags e =
    rw (e, weight)
      (tags_weight-append 100 tags (codes "stg" ∷ [])
        ∙ (unfold tags_weight tag_weight str_eq in refl))
