-- ===== src/ConnectionLimit/Tests.antt =====
-- Runs of threads at the limit with a concrete counter, and the theorem at one.
use kangle.Prelude.{ℕ, suc, ◌-◌, ◌≤◌, List, [], ◌∷◌, ◌≡◌, refl, arith}
use kangle.ConnectionLimit.{Counter, outside, admitted, advance, advance_thread, run, all_outside}
use kangle.ConnectionLimit.Bound.{IsAtomic, holds, is_in, total, run-is_in}

abbrev number : Counter
number = record { inc = λ n. (suc n, suc n); dec = λ n. n - 1 }

number-IsAtomic : IsAtomic number
number-IsAtomic = record { inc_suc = λ n. refl; dec_suc = λ n. omega arith }

-- Two threads raise the number to 1 and 2; the second one is refused, and then both have left.
abbrev race : List ℕ
race = 0 ∷ 1 ∷ 1 ∷ 0 ∷ []

race-run : run number 1 race (0, all_outside 2) ≡ (1, admitted ∷ outside ∷ [])
unfolding run advance advance_thread
race-run = refl

run-is_in_example :
    (total is_in (run number 1 race (0, all_outside 2)).1 ≤ 1)
    × ((run number 1 race (0, all_outside 2)).0
        ≡ total holds (run number 1 race (0, all_outside 2)).1)
run-is_in_example = run-is_in number 1 2 race number-IsAtomic
