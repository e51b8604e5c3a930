-- ===== src/Example/Int32.antt =====
-- example/services/math/svc/math.go: the operations on int32 are exact where the result fits.
use tiki.Base.{
  ℕ, suc, ◌+◌, ◌-◌, ◌*◌, ◌%◌, ◌^◌, ◌<◌, ◌≤◌, ◌≡◌, refl, subst, sym, ap, ap₂, ◌∙◌, true, false,
  Bool-cases, inl, inr, ltb, lt→ltb, leb, if◌then◌else◌, ℤ, pos, negsuc, arith,
}
use tiki.Example.{OpType, add, sub, mul, other, int32_mod, calculate}

-- The number that a bit pattern stands for.
abbrev pub signed32 : ℕ → ℤ
signed32 w = if ltb w (2 ^ 31) then pos w else negsuc (int32_mod - w - 1)

-- m - n
abbrev difference : ℕ → ℕ → ℤ
difference m n = if leb n m then pos (m - n) else negsuc (n - m - 1)

infixl 6 ◌+ℤ◌
abbrev pub ◌+ℤ◌ : ℤ → ℤ → ℤ
pos m +ℤ pos n = pos (m + n)
pos m +ℤ negsuc n = difference m (suc n)
negsuc m +ℤ pos n = difference n (suc m)
negsuc m +ℤ negsuc n = negsuc (suc (m + n))

abbrev pub negate : ℤ → ℤ
negate (pos n) = difference 0 n
negate (negsuc n) = pos (suc n)

infixl 7 ◌*ℤ◌
abbrev pub ◌*ℤ◌ : ℤ → ℤ → ℤ
pos m *ℤ pos n = pos (m * n)
pos m *ℤ negsuc n = difference 0 (m * suc n)
negsuc m *ℤ pos n = difference 0 (suc m * n)
negsuc m *ℤ negsuc n = pos (suc m * suc n)

-- An int32 holds the number.
abbrev pub Fits : ℤ → Type 0
Fits (pos n) = n < 2 ^ 31
Fits (negsuc n) = n < 2 ^ 31

abbrev pub exact : OpType → ℤ → ℤ → ℤ
exact add a b = a +ℤ b
exact sub a b = a +ℤ negate b
exact mul a b = a *ℤ b
exact (other n) a b = pos 0

signed32-add :
    (a b : ℕ)
    → a < int32_mod
    → b < int32_mod
    → Fits (signed32 a +ℤ signed32 b)
    → signed32 ((a + b) % int32_mod) ≡ signed32 a +ℤ signed32 b
signed32-add a b ha hb fits = ground arith

signed32-sub :
    (a b : ℕ)
    → a < int32_mod
    → b < int32_mod
    → Fits (signed32 a +ℤ negate (signed32 b))
    → signed32 ((a + int32_mod - b) % int32_mod) ≡ signed32 a +ℤ negate (signed32 b)
signed32-sub a b ha hb fits = ground arith

-- A number that a multiple of the modulus is short of.
signed32-short :
    (q p a : ℕ) → q + p ≡ a * int32_mod → p ≤ 2 ^ 31 → signed32 (q % int32_mod) ≡ difference 0 p
signed32-short q p a h bound = ground (arith, h, bound)

flip : (a b : ℕ) → a * b ≡ b * a
flip a b = omega arith

distributes : (a x y : ℕ) → a * x + a * y ≡ a * (x + y)
distributes a x y = omega arith

restored : (x : ℕ) → x ≤ int32_mod → int32_mod - x + x ≡ int32_mod
restored x h = omega (arith, h)

product_split : (a x : ℕ) → x ≤ int32_mod → a * (int32_mod - x) + a * x ≡ a * int32_mod
product_split a x h = distributes a (int32_mod - x) x ∙ ap (λ t. a * t) (restored x h)

-- A positive and a negative factor.
mixed :
    (a x : ℕ)
    → x ≤ int32_mod
    → a * x ≤ 2 ^ 31
    → signed32 (a * (int32_mod - x) % int32_mod) ≡ difference 0 (a * x)
mixed a x hx fits = signed32-short (a * (int32_mod - x)) (a * x) a (product_split a x hx) fits

mod_from : (q p u y : ℕ) → q + y * int32_mod ≡ u * int32_mod + p → p < 2 ^ 31 → q % int32_mod ≡ p
mod_from q p u y h bound = omega (arith, h, bound)

both_negative :
    (x y : ℕ)
    → x ≤ int32_mod
    → y ≤ int32_mod
    → x * y < 2 ^ 31
    → (int32_mod - x) * (int32_mod - y) % int32_mod ≡ x * y
both_negative x y hx hy fits =
    let u = int32_mod - x in
    mod_from (u * (int32_mod - y)) (x * y) u y
      (omega (arith, product_split u y hy, product_split y x hx)) fits

-- The pattern of a negative number, as the modulus less its size.
signed32-negative :
    (a : ℕ)
    → a < int32_mod
    → ltb a (2 ^ 31) ≡ false
    → (x : ℕ) × (a ≡ int32_mod - suc x) × (suc x ≤ int32_mod) × (signed32 a ≡ negsuc x)
signed32-negative a ha h = (
  int32_mod - a - 1,
  omega arith,
  omega arith,
  ap (λ b. if b then pos a else negsuc (int32_mod - a - 1)) h,
)

Fits-difference : (p : ℕ) → Fits (difference 0 p) → p ≤ 2 ^ 31
Fits-difference p h = ground (arith, h)

signed32-positive : (a : ℕ) → ltb a (2 ^ 31) ≡ true → signed32 a ≡ pos a
signed32-positive a h = ap (λ b. if b then pos a else negsuc (int32_mod - a - 1)) h

-- The pattern p of a product that is the number p.
signed32-small : (p : ℕ) → p < 2 ^ 31 → signed32 (p % int32_mod) ≡ pos p
signed32-small p h = ground (arith, h)

signed32-mul :
    (a b : ℕ)
    → a < int32_mod
    → b < int32_mod
    → Fits (signed32 a *ℤ signed32 b)
    → signed32 (a * b % int32_mod) ≡ signed32 a *ℤ signed32 b
signed32-mul a b ha hb fits = elim (Bool-cases (ltb a (2 ^ 31))) [
  | inl pa ↦ elim (Bool-cases (ltb b (2 ^ 31))) [
    | inl pb ↦
        let same = ap₂ ◌*ℤ◌ (signed32-positive a pa) (signed32-positive b pb) in
        signed32-small (a * b) (subst Fits same fits) ∙ sym same
    | inr nb ↦
        let (y, eb, hy, sb) = signed32-negative b hb nb in
        let same = ap₂ ◌*ℤ◌ (signed32-positive a pa) sb in
        ap (λ t. signed32 (a * t % int32_mod)) eb
        ∙ mixed a (suc y) hy (Fits-difference (a * suc y) (subst Fits same fits))
        ∙ sym same
  ]
  | inr na ↦
      let (x, ea, hx, sa) = signed32-negative a ha na in
      elim (Bool-cases (ltb b (2 ^ 31))) [
        | inl pb ↦
            let same = ap₂ ◌*ℤ◌ sa (signed32-positive b pb) in
            ap (λ p. signed32 (p % int32_mod)) (flip a b)
            ∙ ap (λ t. signed32 (b * t % int32_mod)) ea
            ∙ mixed b (suc x) hx
                (omega (arith, flip (suc x) b, Fits-difference (suc x * b) (subst Fits same fits)))
            ∙ ap (difference 0) (flip b (suc x))
            ∙ sym same
        | inr nb ↦
            let (y, eb, hy, sb) = signed32-negative b hb nb in
            let same = ap₂ ◌*ℤ◌ sa sb in
            let small = subst Fits same fits in
            ap₂ (λ s t. signed32 (s * t % int32_mod)) ea eb
            ∙ ap signed32 (both_negative (suc x) (suc y) hx hy small)
            ∙ signed32-positive (suc x * suc y) (lt→ltb (suc x * suc y) (2 ^ 31) small)
            ∙ sym same
      ]
]

-- The sum, the difference and the product that Do gives of two int32, and the 0 of an operation that it
-- does not know, are the exact ones wherever these fit an int32.
pub calculate-exact :
    (op : OpType) (a b : ℕ)
    → a < int32_mod
    → b < int32_mod
    → Fits (exact op (signed32 a) (signed32 b))
    → signed32 (calculate op a b) ≡ exact op (signed32 a) (signed32 b)
unfolding calculate
calculate-exact add a b ha hb fits = signed32-add a b ha hb fits
calculate-exact sub a b ha hb fits = signed32-sub a b ha hb fits
calculate-exact mul a b ha hb fits = signed32-mul a b ha hb fits
calculate-exact (other n) a b ha hb fits = refl
