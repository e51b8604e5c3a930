-- ===== src/Example/Tests.antt =====
-- The theorems on the example services, and a message that is too short.
use tiki.Base.{◌-◌, ◌≡◌, refl, [], none, some, codes, arith, ok, reverse}
use tiki.Example.{mul, StringMsg, reverse_msg, validate, error_text, calculate, int32_mod}
use tiki.Example.Reversed.{reverse_msg-reverse}
use tiki.Example.Int32.{signed32, ◌*ℤ◌, calculate-exact}

-- -3 times 5.
calculate-exact_example :
    signed32 (calculate mul (int32_mod - 3) 5) ≡ signed32 (int32_mod - 3) *ℤ signed32 5
calculate-exact_example =
    calculate-exact mul (int32_mod - 3) 5 (omega arith) (omega arith) (omega arith)

abbrev short : StringMsg
short = record { str = codes "abc" }

short_refused :
    (elim (validate (some short)) [ none ↦ [] | some e ↦ error_text e ])
    ≡ codes "invalid StringMsg.Str: value length must be between 5 and 100 runes, inclusive"
unfolding validate error_text
short_refused = refl

abbrev hello : StringMsg
hello = record { str = codes "hello" }

reverse_msg-reverse_example :
    (m : StringMsg) × (reverse_msg hello ≡ ok m)
    × (m.str ≡ reverse (codes "hello"))
    × (validate (some m) ≡ validate (some hello))
    × (reverse_msg m ≡ ok hello)
reverse_msg-reverse_example = reverse_msg-reverse hello
