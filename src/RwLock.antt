-- ===== src/RwLock.antt =====
-- include/KRWLock.h: the readers' and writers' lock over one atomic number (ENABLE_ATOM). Each thread
-- is between two accesses to `cnt`; a schedule says which thread makes the next access. The number
-- is an int32_t, which holds the readers of fewer than 2 ^ 31 threads.
pub mod Exclusion
pub mod Progress
mod Tests
use kangle.Prelude.{ℕ, zero, suc, Bool, true, false, List, [], ◌∷◌, if◌then◌else◌}
use kangle.Prelude.Int.{ℤ, pos, negsuc}

-- katom.h, which is not in the repository: katom_cas(p, from, to) with the number and the answer it
-- gives, katom_inc and katom_dec.
pub record Atom : Type 0 where
  pub cas : ℤ → ℤ → ℤ → ℤ × Bool
  pub inc : ℤ → ℤ
  pub dec : ℤ → ℤ

-- Where a thread is. `r_loaded x` is RLock behind `x = cnt`, `w_checked` is WLock behind its test.
pub data Place : Type 0 where
  outside : Place
  r_start : Place
  r_loaded : ℤ → Place
  reading : Place
  w_start : Place
  w_checked : Place
  writing : Place

-- x + 1
abbrev pub add_one : ℤ → ℤ
add_one (pos n) = pos (suc n)
add_one (negsuc zero) = pos 0
add_one (negsuc (suc k)) = negsuc k

-- x < 0
abbrev pub is_negative : ℤ → Bool
is_negative (pos n) = false
is_negative (negsuc n) = true

-- cnt != 0 is false
abbrev pub is_zero : ℤ → Bool
is_zero (pos zero) = true
is_zero (pos (suc n)) = false
is_zero (negsuc n) = false

-- Behind a compare and swap: the loop ends, or it starts again.
abbrev pub after_cas : Place → Place → ℤ × Bool → ℤ × Place
after_cas held again (cnt, true) = (cnt, held)
after_cas held again (cnt, false) = (cnt, again)

-- RLock behind the load: the test x < 0 and the compare and swap.
abbrev pub try_read : Atom → ℤ → ℤ → ℤ × Place
try_read a cnt x =
    let swapped = after_cas reading r_start (a.cas cnt x (add_one x)) in
    if is_negative x then (cnt, r_start) else swapped

-- The next access of a thread; a thread outside calls WLock if `write` is true, else RLock.
unfoldable pub advance : Atom → Bool → ℤ → Place → ℤ × Place
advance a write cnt outside = (cnt, if write then w_start else r_start)
advance a write cnt r_start = (cnt, r_loaded cnt)
advance a write cnt (r_loaded x) = try_read a cnt x
advance a write cnt reading = (a.dec cnt, outside)
advance a write cnt w_start = (cnt, if is_zero cnt then w_checked else w_start)
advance a write cnt w_checked = after_cas writing w_start (a.cas cnt (pos 0) (negsuc 0))
advance a write cnt writing = (a.inc cnt, outside)

-- The access of thread number `i`.
unfoldable pub advance_thread : Atom → ℕ → Bool → ℤ → List Place → ℤ × List Place
unfolding advance
advance_thread a i write cnt [] = (cnt, [])
advance_thread a zero write cnt (p ∷ ps) = let (cnt', p') = advance a write cnt p in (cnt', p' ∷ ps)
advance_thread a (suc i) write cnt (p ∷ ps) =
    let (cnt', ps') = advance_thread a i write cnt ps in (cnt', p ∷ ps')

-- An interleaving of the threads.
unfoldable pub run : Atom → List (ℕ × Bool) → ℤ × List Place → ℤ × List Place
unfolding advance_thread advance
run a [] s = s
run a ((i, write) ∷ schedule) s = run a schedule (advance_thread a i write s.0 s.1)

-- KRWLock(), before any thread uses it.
abbrev pub all_outside : ℕ → List Place
all_outside zero = []
all_outside (suc n) = outside ∷ all_outside n
