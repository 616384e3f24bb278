-- ===== src/MultiServer/Rounds.antt =====
-- src/KMultiAcserver.cpp: the rounds of nextActiveNode pass every position but the first one.
use kangle.Prelude.{
  ℕ, zero, suc, ◌+◌, ◌-◌, ◌%◌, ◌≤◌, ◌<◌, Bool, true, false, some, List, [], ◌∷◌, ◌≡◌, ◌≢◌, refl, ap,
  ◌∙◌, arith, ltb, length, get_elem?, Bool-cases, inl, inr,
}
use native.Mathlib.Nat.{mod-eq_of_lt, add-mod_left}
use kangle.MultiServer.{try_position}

pub get_elem?-some : (xs : List ℕ) (i : ℕ) → i < length xs → (n : ℕ) × (get_elem? xs i ≡ some n)
get_elem?-some [] i h = elim h [ ]
get_elem?-some (x ∷ xs) zero h = (x, refl)
get_elem?-some (x ∷ xs) (suc i) h = get_elem?-some xs i (omega arith)

pub get_elem?-lt : (xs : List ℕ) (i n : ℕ) → get_elem? xs i ≡ some n → i < length xs
get_elem?-lt [] i n h = grind arith
get_elem?-lt (x ∷ xs) zero n h = omega arith
get_elem?-lt (x ∷ xs) (suc i) n h = omega (arith, get_elem?-lt xs i n h)

-- Where the round `i` looks.
forward : (index p count : ℕ) → index < p → p < count → (index + (p - index)) % count ≡ p
forward index p count h k =
    let e : index + (p - index) ≡ p = omega arith in ap (λ (m : ℕ). m % count) e ∙ mod-eq_of_lt k

wrapped :
    (index p count : ℕ) → p < index → index < count → (index + (count + p - index)) % count ≡ p
wrapped index p count h k =
    let e : index + (count + p - index) ≡ count + p = omega arith in
    let less : p < count = omega arith in
    ap (λ (m : ℕ). m % count) e ∙ add-mod_left count p ∙ mod-eq_of_lt less

backward :
    (index p count : ℕ) → p < index → index < count → (index + count - (index - p)) % count ≡ p
backward index p count h k =
    let e : index + count - (index - p) ≡ count + p = omega arith in
    let less : p < count = omega arith in
    ap (λ (m : ℕ). m % count) e ∙ add-mod_left count p ∙ mod-eq_of_lt less

wrapped_back :
    (index p count : ℕ) → index < p → p < count → (index + count - (index + count - p)) % count ≡ p
wrapped_back index p count h k =
    let e : index + count - (index + count - p) ≡ p = omega arith in
    ap (λ (m : ℕ). m % count) e ∙ mod-eq_of_lt k

pub try_position-covers :
    (use_next : Bool) (index p count : ℕ)
    → index < count
    → p < count
    → index ≢ p
    → (i : ℕ) × (1 ≤ i) × (i < count) × (try_position use_next index count i ≡ p)
try_position-covers true index p count h k ne = elim (Bool-cases (ltb index p)) [
  | inl lt ↦ (p - index, ground arith, ground arith, forward index p count (ground arith) k)
  | inr ge ↦
      let less : p < index = ground arith in
      (count + p - index, omega arith, omega arith, wrapped index p count less h)
]
try_position-covers false index p count h k ne = elim (Bool-cases (ltb index p)) [
  | inl lt ↦
      let less : index < p = ground arith in
      (index + count - p, omega arith, omega arith, wrapped_back index p count less k)
  | inr ge ↦
      let less : p < index = ground arith in
      (index - p, omega arith, omega arith, backward index p count less h)
]
