-- ===== src/Example.antt =====
-- example/services/str/impl/impl.go, example/svcdef/string.pb.validate.go, example/services/math/svc/math.go:
-- the two services of the examples, and the validator of the messages of the first. A proto3 string is
-- valid UTF-8, so that a text here is the list of its runes. strings.ToUpper is a parameter.
pub mod Reversed
pub mod Int32
pub mod Tests
use tiki.Base.{
  ℕ, zero, suc, ◌+◌, ◌-◌, ◌*◌, ◌%◌, ◌^◌, ◌≡◌, Bool, true, false, List, [], ◌∷◌, ◌++◌, Option, none,
  some, Str, codes, if◌then◌else◌, ltb, ◌||◌, length, Result, ok, err, panic, ◌>>=◌,
}

abbrev pub Rune : Type 0
Rune = ℕ

pub record StringMsg : Type 0 where
  pub str : List Rune

-- `l[i]`: an index out of range panics.
unfoldable pub at : List Rune → ℕ → Result Rune
at [] i = panic
at (r ∷ rs) zero = ok r
at (r ∷ rs) (suc i) = at rs i

-- `l[i] = r`
unfoldable pub set : List Rune → ℕ → Rune → Result (List Rune)
set [] i r = panic
set (q ∷ rs) zero r = ok (r ∷ rs)
set (q ∷ rs) (suc i) r = do rest ← set rs i r; ok (q ∷ rest)

-- `l[i], l[j] = l[j], l[i]`
unfoldable pub swap : List Rune → ℕ → ℕ → Result (List Rune)
unfolding at set
swap rs i j = do x ← at rs i; y ← at rs j; once ← set rs i y; set once j x

-- The loop, on fuel. Without fuel it gives an error, which the source has not.
unfoldable pub swap_loop : ℕ → List Rune → ℕ → ℕ → Result (List Rune)
unfolding swap
swap_loop zero rs i j = err (codes "out of fuel")
swap_loop (suc n) rs i j =
    if ltb i j then (swap rs i j >>= λ qs. swap_loop n qs (suc i) (j - 1)) else ok rs

-- Reverse. The last index of an empty slice is -1 in the source, and 0 here: no loop either way. Its
-- fuel is for a round for each rune, and the last test.
unfoldable pub reverse_msg : StringMsg → Result StringMsg
unfolding swap_loop
reverse_msg msg = do
  rs ← swap_loop (suc (length msg.str)) msg.str 0 (length msg.str - 1)
  ok (record { str = rs })

unfoldable pub upper_case : (List Rune → List Rune) → StringMsg → Result StringMsg
upper_case to_upper msg = ok (record { str = to_upper msg.str })

-- StringMsgValidationError. A cause is its text.
pub record ValidationError : Type 0 where
  pub field : Str
  pub reason : Str
  pub cause : Option Str
  pub key : Bool

abbrev pub verdict : ℕ → Option ValidationError
verdict l =
    if ltb l 5 || ltb 100 l
    then some (record {
      field = codes "Str";
      reason = codes "value length must be between 5 and 100 runes, inclusive";
      cause = none;
      key = false;
    })
    else none

-- Validate: the error, if there is one. A nil message has none.
unfoldable pub validate : Option StringMsg → Option ValidationError
validate none = none
validate (some msg) = verdict (length msg.str)

-- The text of an error.
unfoldable pub error_text : ValidationError → Str
error_text e =
    codes "invalid "
    ++ (if e.key then codes "key for " else [])
    ++ codes "StringMsg."
    ++ e.field
    ++ codes ": "
    ++ e.reason
    ++ (elim e.cause [ none ↦ [] | some c ↦ codes " | caused by: " ++ c ])

-- svcdef.OpType, where `other` is a number that the enumeration does not name.
pub data OpType : Type 0 where
  add : OpType
  sub : OpType
  mul : OpType
  other : ℕ → OpType

-- An int32 is its bit pattern.
abbrev pub int32_mod : ℕ
int32_mod = 2 ^ 32

-- Do of the math service.
unfoldable pub calculate : OpType → ℕ → ℕ → ℕ
calculate add a b = (a + b) % int32_mod
calculate sub a b = (a + int32_mod - b) % int32_mod
calculate mul a b = a * b % int32_mod
calculate (other n) a b = 0
