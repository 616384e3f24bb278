-- ===== src/RwLock/Tests.antt =====
-- Runs of the lock with a concrete atomic number, and the theorems about it.
use kangle.Prelude.{
  ℕ, zero, suc, Bool, true, false, List, [], ◌∷◌, ◌++◌, ◌≡◌, refl, ap, ◌⊎◌, inl, inr, arith, ◌==◌,
  if◌then◌else◌, Bool-cases,
}
use kangle.Prelude.Int.{ℤ, pos, negsuc}
use kangle.RwLock.{
  Atom, outside, reading, w_start, writing, add_one, advance, advance_thread, run, all_outside,
}
use kangle.RwLock.Exclusion.{IsAtomic, IsExclusive, CountsAll, run-IsExclusive}
use kangle.RwLock.Progress.{CasSucceeds, run-writing}

abbrev same_int : ℤ → ℤ → Bool
same_int (pos m) (pos n) = m == n
same_int (negsuc m) (negsuc n) = m == n
same_int _ _ = false

abbrev minus_one : ℤ → ℤ
minus_one (pos zero) = negsuc 0
minus_one (pos (suc n)) = pos n
minus_one (negsuc k) = negsuc (suc k)

abbrev number : Atom
number = record {
  cas = λ c x y. if same_int c x then (y, true) else (c, false);
  inc = add_one;
  dec = minus_one;
}

same_int_sound : (c x : ℤ) → same_int c x ≡ true → c ≡ x
same_int_sound (pos m) (pos n) h = ap pos (ground arith)
same_int_sound (negsuc m) (negsuc n) h = ap negsuc (ground arith)
same_int_sound (pos m) (negsuc n) h = absurd (ground arith)
same_int_sound (negsuc m) (pos n) h = absurd (ground arith)

same_int_refl : (c : ℤ) → same_int c c ≡ true
same_int_refl (pos n) = ground arith
same_int_refl (negsuc n) = ground arith

number-cases :
    (c x y : ℤ) → ((c ≡ x) × (number.cas c x y ≡ (y, true))) ⊎ (number.cas c x y ≡ (c, false))
number-cases c x y = elim (Bool-cases (same_int c x)) [
  | inl same ↦ inl (same_int_sound c x same, rw same refl)
  | inr other ↦ inr (rw other refl)
]

number-IsAtomic : IsAtomic number
number-IsAtomic = record { cas_cases = number-cases; inc_minus = refl; dec_pos = λ n. refl }

number-CasSucceeds : CasSucceeds number
number-CasSucceeds x y = rw (same_int_refl x) refl

-- A writer checks, a reader gets the lock, and the writer's compare and swap fails.
abbrev race : List (ℕ × Bool)
race = (0, true) ∷ (0, true) ∷ (1, false) ∷ (1, false) ∷ (1, false) ∷ (0, true) ∷ []

race-run : run number race (pos 0, all_outside 2) ≡ (pos 1, w_start ∷ reading ∷ [])
unfolding run advance advance_thread
race-run = refl

run-IsExclusive_example :
    IsExclusive (run number race (pos 0, all_outside 2)).1
    × CountsAll (run number race (pos 0, all_outside 2)) 0 0
run-IsExclusive_example = run-IsExclusive number 2 race number-IsAtomic

writer_waits :
    run number ((0, true) ∷ []) (pos 0, all_outside 2) ≡ (pos 0, [] ++ w_start ∷ outside ∷ [])
unfolding run advance advance_thread
writer_waits = refl

run-writing_example :
    run number ((0, false) ∷ (0, false) ∷ []) (pos 0, [] ++ w_start ∷ outside ∷ [])
    ≡ (negsuc 0, [] ++ writing ∷ outside ∷ [])
run-writing_example =
    run-writing number 2 ((0, true) ∷ []) (pos 0) [] (outside ∷ []) number-IsAtomic
      number-CasSucceeds writer_waits refl refl
