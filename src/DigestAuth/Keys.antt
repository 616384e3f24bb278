-- ===== src/DigestAuth/Keys.antt =====
-- src/KHttpDigestAuth.cpp: how often a key occurs, after the changes of the map and of the list.
use kangle.Prelude.{
  ℕ, suc, ◌+◌, ◌<◌, Bool, true, false, none, some, List, [], ◌∷◌, ◌++◌, ◌≡◌, refl, ap, arith,
  if◌then◌else◌, length, Bytes, eq_bytes, eq_bytes_sound, eq_bytes_refl, Bool-cases, inl, inr,
}
use kangle.DigestAuth.{Session, find, erase, remove, touch}

abbrev pub count : Bytes → List Bytes → ℕ
count k [] = 0
count k (j ∷ js) = if eq_bytes j k then suc (count k js) else count k js

abbrev pub one_if : Bool → ℕ
one_if true = 1
one_if false = 0

abbrev pub keys : List (Bytes × Session) → List Bytes
keys [] = []
keys ((j, s) ∷ ss) = j ∷ keys ss

eq_bytes_trans : (i j k : Bytes) → eq_bytes i j ≡ true → eq_bytes i k ≡ eq_bytes j k
eq_bytes_trans i j k h = ap (λ (b : Bytes). eq_bytes b k) (eq_bytes_sound i j h)

-- One occurrence of `j` goes.
pub count-remove :
    (j k : Bytes) (ks : List Bytes)
    → 0 < count j ks
    → count k ks ≡ count k (remove j ks) + one_if (eq_bytes j k)
unfolding remove
count-remove j k [] h = absurd (omega arith)
count-remove j k (i ∷ is) h = elim (Bool-cases (eq_bytes i j)) [
  | inl here ↦ let e = eq_bytes_trans i j k here in ground arith
  | inr there ↦ let ih = count-remove j k is (ground arith) in ground arith
]

pub length-remove :
    (j : Bytes) (ks : List Bytes) → 0 < count j ks → length ks ≡ suc (length (remove j ks))
unfolding remove
length-remove j [] h = absurd (omega arith)
length-remove j (i ∷ is) h = elim (Bool-cases (eq_bytes i j)) [
  | inl here ↦ rw here refl
  | inr there ↦ rw there (ap suc (length-remove j is (ground arith)))
]

pub count-append : (k : Bytes) (xs ys : List Bytes) → count k (xs ++ ys) ≡ count k xs + count k ys
count-append k [] ys = omega arith
count-append k (x ∷ xs) ys = let ih = count-append k xs ys in ground arith

-- The map's changes, on its keys.
pub keys-erase : (k : Bytes) (ss : List (Bytes × Session)) → keys (erase k ss) ≡ remove k (keys ss)
unfolding erase remove
keys-erase k [] = refl
keys-erase k ((j, s) ∷ ss) = elim (Bool-cases (eq_bytes j k)) [
  | inl here ↦ rw here refl
  | inr there ↦ rw there (ap (λ r. j ∷ r) (keys-erase k ss))
]

pub keys-touch :
    (k : Bytes) (now : ℕ) (ss : List (Bytes × Session)) → keys (touch k now ss) ≡ keys ss
unfolding touch
keys-touch k now [] = refl
keys-touch k now ((j, s) ∷ ss) = elim (Bool-cases (eq_bytes j k)) [
  | inl here ↦ rw here refl
  | inr there ↦ rw there (ap (λ r. j ∷ r) (keys-touch k now ss))
]

pub length-keys : (ss : List (Bytes × Session)) → length (keys ss) ≡ length ss
length-keys [] = refl
length-keys ((j, s) ∷ ss) = ap suc (length-keys ss)

pub find-none : (k : Bytes) (ss : List (Bytes × Session)) → find k ss ≡ none → count k (keys ss) ≡ 0
unfolding find
find-none k [] h = refl
find-none k ((j, s) ∷ ss) h = elim (Bool-cases (eq_bytes j k)) [
  | inl here ↦ absurd (ground arith)
  | inr there ↦ rw there (find-none k ss (ground arith))
]

pub find-some :
    (k : Bytes) (ss : List (Bytes × Session)) (s : Session)
    → find k ss ≡ some s
    → 0 < count k (keys ss)
unfolding find
find-some k [] s h = absurd (grind arith)
find-some k ((j, r) ∷ ss) s h = elim (Bool-cases (eq_bytes j k)) [
  | inl here ↦ rw here (omega arith)
  | inr there ↦ rw there (find-some k ss s (ground arith))
]

pub count_self : (k : Bytes) (ks : List Bytes) → count k (k ∷ ks) ≡ suc (count k ks)
count_self k ks = rw (eq_bytes_refl k) refl
