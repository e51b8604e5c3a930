-- ===== src/Go/Strings/Laws.antt =====
-- Splitting, replacing and searching: the laws that the clients of package strings use.
use tiki.Base.{
  ℕ, zero, suc, ◌+◌, ◌≡◌, ◌≢◌, refl, ap, subst, true, false, List, [], ◌∷◌, ◌++◌, some, arith,
  length, Str, ◌==◌, All, if◌then◌else◌,
}
use tiki.Go.Strings.{has_prefix, contains, index, split_from, split, replace_all, cons_head}

-- No byte of the text is `b`.
abbrev pub Lacks : ℕ → Str → Type 0
Lacks b = All (λ c. c ≢ b)

-- A one-byte separator ends the part before it.
pub split_at :
    (b : ℕ) (p rest : Str) → Lacks b p → split (p ++ b ∷ rest) (b ∷ []) ≡ p ∷ split rest (b ∷ [])
unfolding split
split_at b [] rest h = ground arith
split_at b (c ∷ p) rest h = ground (arith, split_at b p rest h.1)

-- Without the separator there is one part.
pub split_whole : (b : ℕ) (p : Str) → Lacks b p → split p (b ∷ []) ≡ p ∷ []
unfolding split
split_whole b [] h = refl
split_whole b (c ∷ p) h = ground (arith, split_whole b p h.1)

pub split-ne-nil : (s sep : Str) → split s sep ≢ []
unfolding split
split-ne-nil s sep = go s zero
  where
    cons_head-ne-nil : (c : ℕ) (ps : List Str) → cons_head c ps ≢ []
    cons_head-ne-nil c [] = λ e. cc
    cons_head-ne-nil c (p ∷ ps) = λ e. cc

    go : (t : Str) (k : ℕ) → split_from sep t k ≢ []
    go [] k e = cc
    go (c ∷ t) (suc k) e = go t k e
    go (c ∷ t) zero e = ground (arith, cons_head-ne-nil c (split_from sep t zero))

-- A text in which the separator does not occur is its only part.
pub split_absent : (s sep : Str) → contains sep s ≡ false → split s sep ≡ s ∷ []
unfolding split contains
split_absent [] sep h = refl
split_absent (c ∷ s) sep h = ground (arith, split_absent s sep)

pub replace_all-Lacks : (s : Str) (old new : ℕ) → old ≢ new → Lacks old (replace_all s old new)
unfolding replace_all
replace_all-Lacks [] old new h = tt
replace_all-Lacks (c ∷ s) old new h = ground (arith, replace_all-Lacks s old new h)

pub length-replace_all : (s : Str) (old new : ℕ) → length (replace_all s old new) ≡ length s
unfolding replace_all
length-replace_all [] old new = refl
length-replace_all (c ∷ s) old new = ap suc (length-replace_all s old new)

-- Nothing is replaced exactly when the old byte does not occur.
pub replace_all_absent : (s : Str) (old new : ℕ) → Lacks old s → replace_all s old new ≡ s
unfolding replace_all
replace_all_absent [] old new h = refl
replace_all_absent (c ∷ s) old new h = ground (arith, replace_all_absent s old new h.1)

pub replace_all_fixed :
    (s : Str) (old new : ℕ) → old ≢ new → replace_all s old new ≡ s → Lacks old s
replace_all_fixed s old new h e = subst (Lacks old) e (replace_all-Lacks s old new h)

pub index_zero : (s sub : Str) → has_prefix sub s ≡ true → index s sub ≡ some 0
unfolding index
index_zero [] sub h = ground arith
index_zero (c ∷ s) sub h = ground arith

pub index_not_zero : (s sub : Str) → has_prefix sub s ≡ false → index s sub ≢ some 0
unfolding index
index_not_zero [] sub h = ground arith
index_not_zero (c ∷ s) sub h = ground arith

pub has_prefix-append : (p s : Str) → has_prefix p (p ++ s) ≡ true
unfolding has_prefix
has_prefix-append [] s = refl
has_prefix-append (c ∷ p) s = ground (arith, has_prefix-append p s)

-- How often the byte stands in the text.
abbrev pub occurrences : ℕ → Str → ℕ
occurrences b [] = 0
occurrences b (c ∷ s) = (if c == b then 1 else 0) + occurrences b s

pub occurrences-append :
    (b : ℕ) (s t : Str) → occurrences b (s ++ t) ≡ occurrences b s + occurrences b t
occurrences-append b [] t = omega arith
occurrences-append b (c ∷ s) t = omega (arith, occurrences-append b s t)

pub occurrences_absent : (b : ℕ) (s : Str) → occurrences b s ≡ 0 → Lacks b s
occurrences_absent b [] h = tt
occurrences_absent b (c ∷ s) h = ground (arith, occurrences_absent b s)

pub occurrences-Lacks : (b : ℕ) (s : Str) → Lacks b s → occurrences b s ≡ 0
occurrences-Lacks b [] h = refl
occurrences-Lacks b (c ∷ s) h = ground (arith, occurrences-Lacks b s h.1)

length-cons_head : (c : ℕ) (ps : List Str) → ps ≢ [] → length (cons_head c ps) ≡ length ps
length-cons_head c [] h = absurd (h refl)
length-cons_head c (p ∷ ps) h = refl

-- Each one-byte separator makes one more part.
pub length-split : (b : ℕ) (s : Str) → length (split s (b ∷ [])) ≡ suc (occurrences b s)
unfolding split
length-split b [] = refl
length-split b (c ∷ s) =
    ground (arith, length-split b s, length-cons_head c (split s (b ∷ [])), split-ne-nil s (b ∷ []))
