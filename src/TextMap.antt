-- ===== src/TextMap.antt =====
-- std::map<char *, T, lessp>, as include/KPerIpAcl.h and include/KTargetRate.h use it, and sets of
-- pointers: an association list whose order does not show, and a list of numbers.
use mathlib.Core.Path.{subst}
use kangle.Prelude.{
  ℕ, suc, Bool, true, false, Option, none, some, List, [], ◌∷◌, ◌++◌, ◌≡◌, refl, sym, ap, ◌∙◌, inl,
  inr, arith, ◌==◌, if◌then◌else◌, length, Bool-cases, Bytes, eq_bytes, eq_bytes_sound,
}

module _ {V : Type 0} where
  -- find, the change of the entry of a key (at the end where there is none), and erase.
  unfoldable pub find : Bytes → List (Bytes × V) → Option V
  find ip [] = none
  find ip ((key, n) ∷ entries) =
      let rest = find ip entries in if eq_bytes key ip then some n else rest

  unfoldable pub assign : Bytes → V → List (Bytes × V) → List (Bytes × V)
  assign ip n [] = (ip, n) ∷ []
  assign ip n ((key, old) ∷ entries) =
      let rest = assign ip n entries in
      if eq_bytes key ip then (key, n) ∷ entries else (key, old) ∷ rest

  unfoldable pub erase : Bytes → List (Bytes × V) → List (Bytes × V)
  erase ip [] = []
  erase ip ((key, n) ∷ entries) =
      let rest = erase ip entries in if eq_bytes key ip then rest else (key, n) ∷ rest

  -- Each key has one entry.
  unfoldable pub Distinct : List (Bytes × V) → Type 0
  unfolding find
  Distinct [] = Unit
  Distinct ((key, n) ∷ entries) = (find key entries ≡ none) × Distinct entries

  pub find-assign :
      (ip j : Bytes) (n : V) (entries : List (Bytes × V))
      → find j (assign ip n entries) ≡ (if eq_bytes ip j then some n else find j entries)
  unfolding find assign
  find-assign ip j n [] = refl
  find-assign ip j n ((key, old) ∷ entries) = elim (Bool-cases (eq_bytes key ip)) [
    | inl same ↦ rw (same, eq_bytes_sound key ip same) (ground arith)
    | inr other ↦ elim (Bool-cases (eq_bytes ip j)) [
      | inl found ↦
          let e : ip ≡ j = eq_bytes_sound ip j found in
          rw (other, find-assign ip j n entries, found, sym e, other) refl
      | inr missed ↦ rw (other, find-assign ip j n entries, missed) refl
    ]
  ]

  pub find-erase :
      (ip j : Bytes) (entries : List (Bytes × V))
      → find j (erase ip entries) ≡ (if eq_bytes ip j then none else find j entries)
  unfolding find erase
  find-erase ip j [] = ground arith
  find-erase ip j ((key, old) ∷ entries) = elim (Bool-cases (eq_bytes key ip)) [
    | inl same ↦ rw (same, find-erase ip j entries, eq_bytes_sound key ip same) (ground arith)
    | inr other ↦ elim (Bool-cases (eq_bytes ip j)) [
      | inl found ↦
          let e : ip ≡ j = eq_bytes_sound ip j found in
          rw (other, find-erase ip j entries, found, sym e, other) refl
      | inr missed ↦ rw (other, find-erase ip j entries, missed) refl
    ]
  ]

  erase_absent :
      (ip : Bytes) (entries : List (Bytes × V))
      → find ip entries ≡ none
      → erase ip entries ≡ entries
  unfolding find erase
  erase_absent ip [] e = refl
  erase_absent ip ((key, old) ∷ entries) e = elim (Bool-cases (eq_bytes key ip)) [
    | inl same ↦ absurd (ground (arith, e, same))
    | inr other ↦ rw other (
        ap (λ (l : List (Bytes × V)). (key, old) ∷ l)
          (erase_absent ip entries (sym (rw other refl) ∙ e)))
  ]

  -- An erased entry is one less.
  pub length-erase :
      (ip : Bytes) (n : V) (entries : List (Bytes × V))
      → Distinct entries
      → find ip entries ≡ some n
      → suc (length (erase ip entries)) ≡ length entries
  unfolding find erase Distinct
  length-erase ip n [] one e = absurd (ground (arith, e))
  length-erase ip n ((key, old) ∷ entries) (alone, one) e = elim (Bool-cases (eq_bytes key ip)) [
    | inl same ↦ rw same (
        ap (λ (l : List (Bytes × V)). suc (length l))
          (erase_absent ip entries
            (subst (λ (k : Bytes). find k entries ≡ none) (eq_bytes_sound key ip same) alone)))
    | inr other ↦ rw other (ap suc (length-erase ip n entries one (sym (rw other refl) ∙ e)))
  ]

  pub erase-Distinct :
      (ip : Bytes) (entries : List (Bytes × V)) → Distinct entries → Distinct (erase ip entries)
  unfolding erase Distinct
  erase-Distinct ip [] one = tt
  erase-Distinct ip ((key, old) ∷ entries) (alone, one) = elim (Bool-cases (eq_bytes key ip)) [
    | inl same ↦ rw same (erase-Distinct ip entries one)
    | inr other ↦
        rw other
          (find-erase ip key entries ∙ rw alone (ground arith), erase-Distinct ip entries one)
  ]

-- A set of pointers, or the pointers of a linked list: whether one is in it, and its removal.
unfoldable pub contains : ℕ → List ℕ → Bool
contains pool [] = false
contains pool (p ∷ pools) = let rest = contains pool pools in if p == pool then true else rest

unfoldable pub remove : ℕ → List ℕ → List ℕ
remove pool [] = []
remove pool (p ∷ pools) = let rest = remove pool pools in if p == pool then rest else p ∷ rest

pub contains-remove :
    (p q : ℕ) (pools : List ℕ)
    → contains q (remove p pools) ≡ (if p == q then false else contains q pools)
unfolding contains remove
contains-remove p q [] = ground arith
contains-remove p q (r ∷ pools) = ground (arith, contains-remove p q pools)

-- A list without repetitions.
unfoldable pub Once : List ℕ → Type 0
unfolding contains
Once [] = Unit
Once (p ∷ pools) = (contains p pools ≡ false) × Once pools

pub remove_absent : (p : ℕ) (pools : List ℕ) → contains p pools ≡ false → remove p pools ≡ pools
unfolding contains remove
remove_absent p [] e = refl
remove_absent p (q ∷ pools) e = elim (Bool-cases (q == p)) [
  | inl same ↦ absurd (ground (arith, e, same))
  | inr other ↦
      rw other (ap (λ (l : List ℕ). q ∷ l) (remove_absent p pools (sym (rw other refl) ∙ e)))
]

pub length-remove :
    (p : ℕ) (pools : List ℕ)
    → Once pools
    → contains p pools ≡ true
    → suc (length (remove p pools)) ≡ length pools
unfolding contains remove Once
length-remove p [] one e = absurd (ground (arith, e))
length-remove p (q ∷ pools) (alone, one) e = elim (Bool-cases (q == p)) [
  | inl same ↦ rw same (
      ap (λ (l : List ℕ). suc (length l))
        (remove_absent p pools
          (subst (λ (k : ℕ). contains k pools ≡ false) (ground (arith, same)) alone)))
  | inr other ↦ rw other (ap suc (length-remove p pools one (sym (rw other refl) ∙ e)))
]

pub remove-Once : (p : ℕ) (pools : List ℕ) → Once pools → Once (remove p pools)
unfolding remove Once
remove-Once p [] one = tt
remove-Once p (q ∷ pools) (alone, one) = elim (Bool-cases (q == p)) [
  | inl same ↦ rw same (remove-Once p pools one)
  | inr other ↦
      rw other (contains-remove p q pools ∙ rw alone (ground arith), remove-Once p pools one)
]

pub contains-append :
    (q p : ℕ) (pools : List ℕ)
    → contains q (pools ++ p ∷ []) ≡ (if p == q then true else contains q pools)
unfolding contains
contains-append q p [] = ground arith
contains-append q p (r ∷ pools) = ground (arith, contains-append q p pools)

pub append-Once :
    (p : ℕ) (pools : List ℕ) → contains p pools ≡ false → Once pools → Once (pools ++ p ∷ [])
unfolding Once contains
append-Once p [] e one = (refl, tt)
append-Once p (q ∷ pools) e (alone, one) = (
  contains-append q p pools ∙ ground (arith, e, alone),
  append-Once p pools (ground (arith, e)) one,
)
