-- ===== src/TimeMatch/Fill.antt =====
-- src/KTimeMatch.cpp: which bits the loop of setItem sets.
use kangle.Prelude.{
  ℕ, zero, suc, ◌+◌, ◌-◌, ◌%◌, ◌≤◌, ◌<◌, Bool, true, false, ◌&&◌, ◌||◌, List, [], ◌∷◌, ◌≡◌, ◌≢◌,
  refl, ap, ◌∙◌, arith, ◌==◌, ltb, leb, length, length-set, get_or, set, Bool-cases, inl, inr,
}
use native.Mathlib.Nat.{mod-eq_of_lt, mod-eq-sub-mod, zero-mod}
use mathlib.Core.Path.{subst}
use kangle.TimeMatch.{Result, done, refused, out_of_bounds, overflow, fill}

-- The test that a bit is one of those that the loop sets.
abbrev pub in_steps : ℕ → ℕ → ℕ → ℕ → Bool
in_steps i stop step j = leb i j && (ltb j stop && ((j - i) % step == 0))

pub get_or-set_self :
    (xs : List Bool) (i : ℕ) → i < length xs → get_or (set xs i true) i false ≡ true
get_or-set_self [] i h = elim h [ ]
get_or-set_self (x ∷ xs) zero h = refl
get_or-set_self (x ∷ xs) (suc i) h = get_or-set_self xs i (omega arith)

pub get_or-set_ne :
    (xs : List Bool) (i j : ℕ) → i ≢ j → get_or (set xs i true) j false ≡ get_or xs j false
get_or-set_ne [] i j h = refl
get_or-set_ne (x ∷ xs) zero zero h = absurd (h refl)
get_or-set_ne (x ∷ xs) zero (suc j) h = refl
get_or-set_ne (x ∷ xs) (suc i) zero h = refl
get_or-set_ne (x ∷ xs) (suc i) (suc j) h = get_or-set_ne xs i j (λ e. h (ap suc e))

in_steps_self : (i stop step : ℕ) → ltb i stop ≡ true → in_steps i stop step i ≡ true
in_steps_self i stop step h =
    let e : (i - i) % step ≡ 0 = ap (λ (k : ℕ). k % step) (omega arith) ∙ zero-mod step in
    ground arith

in_steps-next :
    (i stop step j : ℕ)
    → 0 < step
    → i ≢ j
    → in_steps (i + step) stop step j ≡ in_steps i stop step j
in_steps-next i stop step j h ne = elim (Bool-cases (leb (i + step) j)) [
  | inl far ↦
      let e : (j - i) % step ≡ (j - i - step) % step = mod-eq-sub-mod (ground arith) in
      let f : j - i - step ≡ j - (i + step) = omega arith in
      let g : (j - i) % step ≡ (j - (i + step)) % step = e ∙ ap (λ (k : ℕ). k % step) f in
      ground arith
  | inr near ↦ elim (Bool-cases (leb i j)) [
    | inl up ↦ let e : (j - i) % step ≡ j - i = mod-eq_of_lt (ground arith) in ground arith
    | inr down ↦ ground arith
  ]
]

-- The bits of a result, for every position of the array.
abbrev pub HasBits : ℕ → (ℕ → Bool) → Result (List Bool) → Type 0
HasBits n bits (done item) = (j : ℕ) → j < n → get_or item j false ≡ bits j
HasBits n bits _ = ⊥

HasBits-same :
    (m n : ℕ) (f g : ℕ → Bool) (r : Result (List Bool))
    → m ≡ n
    → ((j : ℕ) → j < n → f j ≡ g j)
    → HasBits m f r
    → HasBits n g r
HasBits-same m n f g (done item) size same h = λ j lt. h j (omega arith) ∙ same j lt
HasBits-same m n f g refused size same h = h
HasBits-same m n f g out_of_bounds size same h = h
HasBits-same m n f g overflow size same h = h

-- One bit is set, and the rest of the loop.
one_step :
    (item : List Bool) (i stop step j : ℕ)
    → 0 < step
    → ltb i stop ≡ true
    → j < length item
    → (get_or (set item i true) j false || in_steps (i + step) stop step j)
      ≡ (get_or item j false || in_steps i stop step j)
one_step item i stop step j h more k = elim (Bool-cases (i == j)) [
  | inl same ↦
      let e : i ≡ j = ground arith in
      let bit =
        subst (λ (m : ℕ). get_or (set item i true) m false ≡ true) e
          (get_or-set_self item i (rw e k)) in
      let test =
        subst (λ (m : ℕ). in_steps i stop step m ≡ true) e (in_steps_self i stop step more) in
      ground arith
  | inr ne ↦
      let differ : i ≢ j = λ e. grind arith in
      rw (get_or-set_ne item i j differ, in_steps-next i stop step j h differ) refl
]

-- Beside the bits that were set, the loop sets the bits i, i + step, ... in front of `stop`, and
-- no other.
pub fill-HasBits :
    (fuel : ℕ) (item : List Bool) (i stop step : ℕ)
    → 0 < step
    → stop ≤ i + fuel
    → stop ≤ length item
    → stop + step ≤ 2147483648
    → HasBits
        (length item)
        (λ j. get_or item j false || in_steps i stop step j)
        (fill fuel item i stop step)
unfolding fill
fill-HasBits zero item i stop step h enough size small = λ j k. ground arith
fill-HasBits (suc fuel) item i stop step h enough size small = elim (Bool-cases (ltb i stop)) [
  | inr over ↦ rw over (λ j k. ground arith)
  | inl more ↦
      let inside : ltb i (length item) ≡ true = ground arith in
      let fits : ltb (i + step) 2147483648 ≡ true = ground arith in
      let next = set item i true in
      let ih =
        fill-HasBits fuel next (i + step) stop step h (omega arith)
          (rw (length-set item i true) size) small in
      rw (more, inside, fits)
        (HasBits-same (length next) (length item)
          (λ j. get_or next j false || in_steps (i + step) stop step j)
          (λ j. get_or item j false || in_steps i stop step j) (fill fuel next (i + step) stop step)
          (length-set item i true) (λ j k. one_step item i stop step j h more k) ih)
]
