-- ===== src/Go/Strconv/RoundTrip.antt =====
-- What `%d` prints is read back by `Atoi`, and holds digits only.
use tiki.Base.{
  ℕ, zero, suc, ◌+◌, ◌/◌, ◌%◌, ◌≤◌, ◌<◌, ◌≡◌, ◌≢◌, refl, subst, ◌∙◌, [], ◌∷◌, some, arith, Str, All,
  pos,
}
use tiki.Go.Strings.Laws.{Lacks}
use tiki.Go.Strconv.{digits, itoa, scan, number, atoi, int_bound}

abbrev pub IsDigit : ℕ → Type 0
IsDigit c = (b'0' ≤ c) × (c ≤ b'9')

digits-IsDigit : (fuel n : ℕ) (out : Str) → All IsDigit out → All IsDigit (digits fuel n out)
unfolding digits
digits-IsDigit zero n out h = h
digits-IsDigit (suc fuel) n out h =
    ground (arith, digits-IsDigit fuel (n / 10) ((b'0' + n % 10) ∷ out))

pub itoa-IsDigit : (n : ℕ) → All IsDigit (itoa n)
unfolding itoa
itoa-IsDigit n = digits-IsDigit (suc n) n [] tt

All-IsDigit-Lacks : (b : ℕ) (s : Str) → ¬ IsDigit b → All IsDigit s → Lacks b s
All-IsDigit-Lacks b [] h d = tt
All-IsDigit-Lacks b (c ∷ s) h d = (λ e. h (subst IsDigit e d.0), All-IsDigit-Lacks b s h d.1)

-- What is no digit does not occur in a printed number.
pub itoa-Lacks : (b n : ℕ) → ¬ IsDigit b → Lacks b (itoa n)
itoa-Lacks b n h = All-IsDigit-Lacks b (itoa n) h (itoa-IsDigit n)

digits-ne-nil : (fuel n : ℕ) (out : Str) → digits (suc fuel) n out ≢ []
unfolding digits
digits-ne-nil zero n out = ground arith
digits-ne-nil (suc fuel) n out = ground (arith, digits-ne-nil fuel (n / 10) ((b'0' + n % 10) ∷ out))

scan-digits : (fuel n : ℕ) (out : Str) → n < fuel → scan (digits fuel n out) 0 ≡ scan out n
unfolding digits scan
scan-digits zero n out h = absurd (omega arith)
scan-digits (suc fuel) n out h = ground (arith, scan-digits fuel (n / 10) ((b'0' + n % 10) ∷ out))

number-itoa : (n : ℕ) → number (itoa n) ≡ some n
unfolding number itoa
number-itoa n =
    number-scan (digits (suc n) n []) (digits-ne-nil n n [])
    ∙ scan-digits (suc n) n [] (omega arith)
  where
    number-scan : (s : Str) → s ≢ [] → number s ≡ scan s 0
    number-scan [] h = absurd (h refl)
    number-scan (c ∷ s) h = refl

-- Every int that is not negative is read back from its print.
pub atoi-itoa : (n : ℕ) → n < int_bound → atoi (itoa n) ≡ some (pos n)
unfolding atoi
atoi-itoa n h = go (itoa n) (itoa-IsDigit n) (number-itoa n)
  where
    go : (s : Str) → All IsDigit s → number s ≡ some n → atoi s ≡ some (pos n)
    go [] d e = cc
    go (c ∷ s) d e = ground arith
