-- ===== src/BigObject/FileBytes.antt =====
-- src/KSharedBigObject.cpp: the file after a write of the body's bytes.
use kangle.Prelude.{
  ℕ, zero, suc, ◌+◌, ◌≤◌, true, false, List, [], ◌∷◌, ◌≡◌, refl, ap, ◌∙◌, ◌⊎◌, inl, inr, arith,
  ◌==◌, if◌then◌else◌, Bool-cases, length, take,
}
use kangle.BigObject.Writes.{write_file}
use kangle.BigObject.Bytes.{in_range}

-- The bytes of a write are those of the body at its offset.
abbrev pub Matches : (ℕ → ℕ) → ℕ → List ℕ → Type 0
Matches body x [] = Unit
Matches body x (c ∷ cs) = (c ≡ body x) × Matches body (suc x) cs

pub take-Matches :
    (body : ℕ → ℕ) (n x : ℕ) (buf : List ℕ) → Matches body x buf → Matches body x (take n buf)
take-Matches body zero x buf h = tt
take-Matches body (suc n) x [] h = tt
take-Matches body (suc n) x (c ∷ cs) h = (h.0, take-Matches body n (suc x) cs h.1)

-- What the file has after a write: the body in the written range, and what was there elsewhere.
write_file-outside :
    (x : ℕ) (buf : List ℕ) (file : ℕ → ℕ) (y : ℕ)
    → in_range x (x + length buf) y ≡ false
    → write_file x buf file y ≡ file y
write_file-outside x [] file y h = refl
write_file-outside x (c ∷ cs) file y h =
    let other : (y == x) ≡ false = ground arith in
    let beyond : in_range (suc x) (suc x + length cs) y ≡ false = ground arith in
    write_file-outside (suc x) cs (λ z. if z == x then c else file z) y beyond ∙ rw other

pub write_file-inside :
    (body : ℕ → ℕ) (x : ℕ) (buf : List ℕ) (file : ℕ → ℕ) (y : ℕ)
    → Matches body x buf
    → (in_range x (x + length buf) y ≡ true) ⊎ (file y ≡ body y)
    → write_file x buf file y ≡ body y
write_file-inside body x [] file y h (inl inside) = absurd (ground arith)
write_file-inside body x [] file y h (inr same) = same
write_file-inside body x (c ∷ cs) file y (first_byte, rest) h =
    write_file-inside body (suc x) cs (λ z. if z == x then c else file z) y rest
      (elim (Bool-cases (y == x)) [
        | inl here ↦ let same : x ≡ y = ground arith in inr (rw here (first_byte ∙ ap body same))
        | inr other ↦ elim h [ inl inside ↦ inl (ground arith) | inr same ↦ inr (rw other same) ]
      ])

pub take_all : (n : ℕ) (buf : List ℕ) → length buf ≤ n → take n buf ≡ buf
take_all zero [] h = refl
take_all zero (c ∷ cs) h = absurd (omega arith)
take_all (suc n) [] h = refl
take_all (suc n) (c ∷ cs) h = ap (λ (r : List ℕ). c ∷ r) (take_all n cs (omega arith))
