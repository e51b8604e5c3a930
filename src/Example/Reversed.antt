-- ===== src/Example/Reversed.antt =====
-- example/services/str/impl/impl.go: the loop that swaps is the reversal.
use tiki.Base.{
  ℕ, zero, suc, ◌+◌, ◌-◌, ◌≤◌, ◌≡◌, refl, sym, ap, ap₂, ◌∙◌, false, List, [], ◌∷◌, ◌++◌, some,
  arith, append_assoc, append-nil, reverse, reverse-cons, reverse-append, reverse-reverse, length,
  length-append, ltb, lt→ltb, if◌then◌else◌, ok, ◌>>=◌,
}
use tiki.Example.{Rune, StringMsg, verdict, at, set, swap, swap_loop, reverse_msg, validate}

length-reversed : (rs : List Rune) → length (reverse rs) ≡ length rs
length-reversed [] = refl
length-reversed (r ∷ rs) =
    ap length (reverse-cons r rs)
    ∙ omega (arith, length-append (reverse rs) (r ∷ []), length-reversed rs)

-- Where an element stands behind a prefix.
at-middle : (xs rest : List Rune) (x : Rune) → at (xs ++ x ∷ rest) (length xs) ≡ ok x
unfolding at
at-middle [] rest x = refl
at-middle (q ∷ xs) rest x = at-middle xs rest x

set-middle :
    (xs rest : List Rune) (x y : Rune) → set (xs ++ x ∷ rest) (length xs) y ≡ ok (xs ++ y ∷ rest)
unfolding set
set-middle [] rest x y = refl
set-middle (q ∷ xs) rest x y = ap (λ r. r >>= λ rs. ok (q ∷ rs)) (set-middle xs rest x y)

-- A list is empty, a single element, or has a first and a last.
data Ends : List Rune → Type 0 where
  empty : Ends []
  single : (x : Rune) → Ends (x ∷ [])
  both : (x : Rune) (mid : List Rune) (y : Rune) → Ends (x ∷ (mid ++ y ∷ []))

ends : (rs : List Rune) → Ends rs
ends [] = empty
ends (x ∷ rs) = with_first x (ends rs)
  where
    with_first : {qs : List Rune} (x : Rune) → Ends qs → Ends (x ∷ qs)
    with_first x empty = single x
    with_first x (single y) = both x [] y
    with_first x (both y mid z) = both x (y ∷ mid) z

at-split : (xs rest : List Rune) (x : Rune) (i : ℕ) → i ≡ length xs → at (xs ++ x ∷ rest) i ≡ ok x
at-split xs rest x i h = ap (at (xs ++ x ∷ rest)) h ∙ at-middle xs rest x

set-split :
    (xs rest : List Rune) (x y : Rune) (i : ℕ)
    → i ≡ length xs
    → set (xs ++ x ∷ rest) i y ≡ ok (xs ++ y ∷ rest)
set-split xs rest x y i h = ap (λ k. set (xs ++ x ∷ rest) k y) h ∙ set-middle xs rest x y

-- The first and the last of a stretch change places.
swap-ends :
    (xs mid ys : List Rune) (x y : Rune) (j : ℕ)
    → j ≡ length xs + suc (length mid)
    → swap (xs ++ x ∷ (mid ++ y ∷ ys)) (length xs) j ≡ ok (xs ++ y ∷ (mid ++ x ∷ ys))
unfolding swap
swap-ends xs mid ys x y j h =
    let far = λ (z : Rune). append_assoc xs (z ∷ mid) (y ∷ ys) in
    let len = λ (z : Rune). h ∙ sym (length-append xs (z ∷ mid)) in
    rw (at-middle xs (mid ++ y ∷ ys) x) (
      rw (ap (λ l. at l j) (sym (far x)) ∙ at-split (xs ++ x ∷ mid) ys y j (len x)) (
        rw (set-middle xs (mid ++ y ∷ ys) x y) (
          ap (λ l. set l j x) (sym (far y))
          ∙ set-split (xs ++ y ∷ mid) ys y x j (len y)
          ∙ ap ok (append_assoc xs (y ∷ mid) (x ∷ ys)))))

loop_done : (n : ℕ) (rs : List Rune) (i j : ℕ) → ltb i j ≡ false → swap_loop (suc n) rs i j ≡ ok rs
unfolding swap_loop
loop_done n rs i j h =
    ap (λ b. if b then (swap rs i j >>= λ qs. swap_loop n qs (suc i) (j - 1)) else ok rs) h

reverse-both :
    (x y : Rune) (mid : List Rune) → reverse (x ∷ (mid ++ y ∷ [])) ≡ y ∷ (reverse mid ++ x ∷ [])
reverse-both x y mid =
    reverse-cons x (mid ++ y ∷ []) ∙ ap (λ l. l ++ x ∷ []) (reverse-append mid (y ∷ []))

-- A stretch between two others, with enough fuel for it, is reversed.
loop-reverse :
    (n : ℕ) (xs m ys : List Rune) (j : ℕ)
    → Ends m
    → length m ≤ n
    → j ≡ length xs + length m - 1
    → swap_loop (suc n) (xs ++ (m ++ ys)) (length xs) j ≡ ok (xs ++ (reverse m ++ ys))
unfolding swap_loop
loop-reverse n xs _ ys j empty fuel h = loop_done n (xs ++ ys) (length xs) j (ground (arith, h))
loop-reverse n xs _ ys j (single x) fuel h =
    loop_done n (xs ++ (x ∷ ys)) (length xs) j (ground (arith, h))
loop-reverse zero xs _ ys j (both x mid y) fuel h = absurd (omega (arith, fuel))
loop-reverse (suc n) xs _ ys j (both x mid y) fuel h =
    let len = length-append mid (y ∷ []) in
    let far = λ (z : Rune) (l : List Rune). append_assoc xs (z ∷ []) l in
    ap (λ l. swap_loop (suc (suc n)) (xs ++ x ∷ l) (length xs) j) (append_assoc mid (y ∷ []) ys)
    ∙ ap
        (λ b.
          if b
          then (swap (xs ++ x ∷ (mid ++ y ∷ ys)) (length xs) j >>= λ qs.
              swap_loop (suc n) qs (suc (length xs)) (j - 1))
          else ok (xs ++ x ∷ (mid ++ y ∷ ys)))
        (lt→ltb (length xs) j (omega (arith, len, h)))
    ∙ ap (λ r. r >>= λ qs. swap_loop (suc n) qs (suc (length xs)) (j - 1))
        (swap-ends xs mid ys x y j (omega (arith, len, h)))
    ∙ ap₂ (λ qs i. swap_loop (suc n) qs i (j - 1)) (sym (far y (mid ++ x ∷ ys)))
        (omega (arith, length-append xs (y ∷ [])))
    ∙ loop-reverse n (xs ++ y ∷ []) mid (x ∷ ys) (j - 1) (ends mid) (omega (arith, len, fuel))
        (omega (arith, len, h, length-append xs (y ∷ [])))
    ∙ ap ok (far y (reverse mid ++ x ∷ ys))
    ∙ ap (λ l. ok (xs ++ l))
        (ap (λ l. y ∷ l) (sym (append_assoc (reverse mid) (x ∷ []) ys))
          ∙ ap (λ l. l ++ ys) (sym (reverse-both x y mid)))

reverse_msg-reversed : (msg : StringMsg) → reverse_msg msg ≡ ok (record { str = reverse msg.str })
unfolding reverse_msg
reverse_msg-reversed msg =
    let rs = msg.str in
    ap (λ l. swap_loop (suc (length rs)) l 0 (length rs - 1) >>= λ qs. ok (record { str = qs }))
      (sym (append-nil rs))
    ∙ ap (λ r. r >>= λ qs. ok (record { str = qs }))
        (loop-reverse (length rs) [] rs [] (length rs - 1) (ends rs) (omega arith) (omega arith))
    ∙ ap (λ l. ok (record { str = l })) (append-nil (reverse rs))

-- On every text the loop of Reverse comes to its end without an index out of range, and what is
-- returned has the runes in reverse order; it is valid just when the message is, with the same error
-- otherwise; and Reverse of it gives the message back.
pub reverse_msg-reverse :
    (msg : StringMsg)
    → (m : StringMsg) × (reverse_msg msg ≡ ok m)
      × (m.str ≡ reverse msg.str)
      × (validate (some m) ≡ validate (some msg))
      × (reverse_msg m ≡ ok msg)
unfolding validate
reverse_msg-reverse msg = (
  record { str = reverse msg.str },
  reverse_msg-reversed msg,
  refl,
  ap (λ n. verdict n) (length-reversed msg.str),
  reverse_msg-reversed (record { str = reverse msg.str })
      ∙ ap (λ l. ok (record { str = l })) (reverse-reverse msg.str),
)
