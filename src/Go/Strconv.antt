-- ===== src/Go/Strconv.antt =====
-- strconv.Atoi, and the decimal print of `%d`.
pub mod RoundTrip
use tiki.Base.{
  ℕ, zero, suc, ◌+◌, ◌-◌, ◌*◌, ◌/◌, ◌%◌, ◌^◌, Bool, ◌||◌, List, [], ◌∷◌, Option, none, some, Str,
  ltb, leb, ◌==◌, if◌then◌else◌, ℤ, pos, negsuc, ◌≡◌, refl, codes,
}

-- One round for each digit; the fuel is more than the number of digits.
unfoldable pub digits : ℕ → ℕ → Str → Str
digits zero n out = out
digits (suc fuel) n out =
    let more = digits fuel (n / 10) ((b'0' + n % 10) ∷ out) in
    if ltb n 10 then (b'0' + n) ∷ out else more

-- `%d` of a number that is not negative.
unfoldable pub itoa : ℕ → Str
unfolding digits
itoa n = digits (suc n) n []

-- `%d`
unfoldable pub format_int : ℤ → Str
unfolding itoa
format_int (pos n) = itoa n
format_int (negsuc n) = b'-' ∷ itoa (suc n)

-- The number that the digits spell behind `n`, or `none` at a byte that is no digit.
unfoldable pub scan : Str → ℕ → Option ℕ
scan [] n = some n
scan (c ∷ s) n =
    let rest = scan s (n * 10 + (c - b'0')) in if ltb c b'0' || ltb b'9' c then none else rest

unfoldable pub number : Str → Option ℕ
unfolding scan
number [] = none
number (c ∷ s) = scan (c ∷ s) 0

-- An int has 64 bits.
abbrev pub int_bound : ℕ
int_bound = 2 ^ 63

abbrev pub positive : Option ℕ → Option ℤ
positive none = none
positive (some n) = if ltb n int_bound then some (pos n) else none

abbrev pub negative : Option ℕ → Option ℤ
negative none = none
negative (some zero) = some (pos 0)
negative (some (suc n)) = if ltb n int_bound then some (negsuc n) else none

-- strconv.Atoi: `none` stands for an error, of syntax or of range.
unfoldable pub atoi : Str → Option ℤ
unfolding number
atoi [] = none
atoi (c ∷ s) =
    if c == b'-'
    then negative (number s)
    else if c == b'+'
    then positive (number s)
    else positive (number (c ∷ s))

itoa_8080 : itoa 8080 ≡ codes "8080"
unfolding itoa
itoa_8080 = refl

atoi_signed : atoi (codes "-25") ≡ some (negsuc 24)
unfolding atoi
atoi_signed = refl
