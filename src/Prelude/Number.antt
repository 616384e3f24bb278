-- ===== src/Prelude/Number.antt =====
-- Decimal numbers in text: `atoi`, and how an `int` that is not negative is written.
use kangle.Prelude.{
  ℕ, zero, suc, ◌+◌, ◌-◌, ◌*◌, ◌/◌, ◌%◌, ◌<◌, [], ◌∷◌, ◌++◌, ◌≡◌, refl, ap, true, ◌∙◌, arith, inl,
  inr, ltb, ◌==◌, if◌then◌else◌, Bytes, is_space, is_digit, Bool-cases, Lacks, Lacks-append,
  if_cases, false,
}
use mathlib.Core.List.{append_assoc, append-nil}
use mathlib.Core.Path.{subst}
use kangle.Prelude.Int.{ℤ, pos, sub_ℕ}

unfoldable pub drop_spaces : Bytes → Bytes
drop_spaces [] = []
drop_spaces (c ∷ cs) = if is_space c then drop_spaces cs else c ∷ cs

-- The number that the digits in front make, behind the digits of `n`.
unfoldable pub digits_value : ℕ → Bytes → ℕ
digits_value n [] = n
digits_value n (c ∷ cs) =
    let rest = digits_value (n * 10 + (c - b'0')) cs in if is_digit c then rest else n

abbrev after_sign : Bytes → ℤ
after_sign [] = pos 0
after_sign (c ∷ cs) =
    if c == b'-'
    then sub_ℕ 0 (digits_value 0 cs)
    else if c == b'+'
    then pos (digits_value 0 cs)
    else pos (digits_value 0 (c ∷ cs))

-- atoi, of a text whose number fits an `int`.
unfoldable pub atoi : Bytes → ℤ
unfolding drop_spaces digits_value
atoi s = after_sign (drop_spaces s)

-- The decimal digits of a number; `fuel` above the number is enough.
show_digits : ℕ → ℕ → Bytes
show_digits zero n = []
show_digits (suc fuel) n =
    let front = show_digits fuel (n / 10) in
    (if ltb n 10 then [] else front) ++ (n % 10 + b'0') ∷ []

unfoldable pub show : ℕ → Bytes
unfolding show_digits
show n = show_digits (suc n) n

digits_value-digit :
    (n d : ℕ) (rest : Bytes)
    → d < 10
    → digits_value n ((d + b'0') ∷ rest) ≡ digits_value (n * 10 + d) rest
unfolding digits_value
digits_value-digit n d rest h = ground arith

ltb_digit : (n : ℕ) → ltb n 10 ≡ true → 0 * 10 + n % 10 ≡ n
ltb_digit n h = ground arith

digits_value-show_digits :
    (fuel n : ℕ) (rest : Bytes)
    → n < fuel
    → digits_value 0 (show_digits fuel n ++ rest) ≡ digits_value n rest
unfolding show_digits
digits_value-show_digits zero n rest h = elim h [ ]
digits_value-show_digits (suc fuel) n rest h = elim (Bool-cases (ltb n 10)) [
  | inl small ↦ rw small (
      digits_value-digit 0 (n % 10) rest (omega arith)
      ∙ ap (λ (m : ℕ). digits_value m rest) (ltb_digit n small))
  | inr large ↦
      rw (large, append_assoc)
        (digits_value-show_digits fuel (n / 10) ((n % 10 + b'0') ∷ rest) (ground arith)
          ∙ digits_value-digit (n / 10) (n % 10) rest (omega arith)
          ∙ ap (λ (m : ℕ). digits_value m rest) (omega arith))
]

show_digits-head :
    (fuel n : ℕ)
    → n < fuel
    → (d : ℕ) × (cs : Bytes) × (show_digits fuel n ≡ d ∷ cs) × (is_digit d ≡ true)
unfolding show_digits
show_digits-head zero n h = elim h [ ]
show_digits-head (suc fuel) n h = elim (Bool-cases (ltb n 10)) [
  | inl small ↦ (n % 10 + b'0', [], rw small, ground arith)
  | inr large ↦
      let (d, cs, e, digit) = show_digits-head fuel (n / 10) (ground arith) in
      (d, cs ++ (n % 10 + b'0') ∷ [], rw (large, e), digit)
]

-- A written number is read back, up to the first byte that is no digit.
pub digits_value-show :
    (n : ℕ) (rest : Bytes) → digits_value 0 (show n ++ rest) ≡ digits_value n rest
unfolding show
digits_value-show n rest = digits_value-show_digits (suc n) n rest (omega arith)

-- A written number begins with a digit.
pub show-head : (n : ℕ) → (d : ℕ) × (cs : Bytes) × (show n ≡ d ∷ cs) × (is_digit d ≡ true)
unfolding show
show-head n = show_digits-head (suc n) n (omega arith)

atoi-digit :
    (d : ℕ) (cs : Bytes) → is_digit d ≡ true → atoi (d ∷ cs) ≡ pos (digits_value 0 (d ∷ cs))
unfolding atoi drop_spaces
atoi-digit d cs h = ground arith

pub atoi-show : (n : ℕ) (rest : Bytes) → digits_value n rest ≡ n → atoi (show n ++ rest) ≡ pos n
atoi-show n rest h =
    let (d, cs, e, digit) = show-head n in
    let value = digits_value-show n rest ∙ h in
    rw e (
      atoi-digit d (cs ++ rest) digit
      ∙ ap pos (subst (λ (s : Bytes). digits_value 0 (s ++ rest) ≡ n) e value))

digit-Lacks : (n b : ℕ) → is_digit b ≡ false → ((n % 10 + b'0') == b) ≡ false
digit-Lacks n b h = ground arith

show_digits-Lacks : (b fuel n : ℕ) → is_digit b ≡ false → Lacks b (show_digits fuel n)
unfolding show_digits
show_digits-Lacks b zero n h = tt
show_digits-Lacks b (suc fuel) n h =
    Lacks-append b (if ltb n 10 then [] else show_digits fuel (n / 10)) ((n % 10 + b'0') ∷ [])
      (if_cases (Lacks b) (ltb n 10) [] (show_digits fuel (n / 10)) tt
        (show_digits-Lacks b fuel (n / 10) h))
      (digit-Lacks n b h, tt)

-- Only digits are written.
pub show-Lacks : (b n : ℕ) → is_digit b ≡ false → Lacks b (show n)
unfolding show
show-Lacks b n h = show_digits-Lacks b (suc n) n h

pub atoi-show_self : (n : ℕ) → atoi (show n) ≡ pos n
unfolding digits_value
atoi-show_self n = subst (λ (s : Bytes). atoi s ≡ pos n) (append-nil (show n)) (atoi-show n [] refl)
