-- ===== src/RwLock/Progress.antt =====
-- include/KRWLock.h: a thread that is left alone gets a free lock.
use kangle.Prelude.{
  ℕ, suc, ◌+◌, Bool, true, false, List, [], ◌∷◌, ◌++◌, ◌≡◌, refl, ap, arith, length,
}
use kangle.Prelude.Int.{ℤ, pos, negsuc}
use mathlib.Core.Path.{subst}
use kangle.RwLock.{
  Atom, Place, r_start, r_loaded, reading, w_start, w_checked, writing, advance, advance_thread,
  run, all_outside,
}
use kangle.RwLock.Exclusion.{IsAtomic, readers, writers, Counts, CountsAll, run-IsExclusive}

-- A compare and swap that finds the expected value writes the new one.
abbrev pub CasSucceeds : Atom → Type 0
CasSucceeds a = (x y : ℤ) → a.cas x x y ≡ (y, true)

advance_thread-at :
    (a : Atom) (write : Bool) (cnt : ℤ) (p : Place) (ys zs : List Place)
    → advance_thread a (length ys) write cnt (ys ++ p ∷ zs)
      ≡ (let (cnt', p') = advance a write cnt p in (cnt', ys ++ p' ∷ zs))
unfolding advance_thread
advance_thread-at a write cnt p [] zs = refl
advance_thread-at a write cnt p (y ∷ ys) zs =
    ap (λ (s : ℤ × List Place). (s.0, y ∷ s.1)) (advance_thread-at a write cnt p ys zs)

-- Two accesses of one thread, from a place that the first one only leaves.
run-two :
    (a : Atom) (cnt cnt' : ℤ) (p q held : Place) (ys zs : List Place)
    → advance a false cnt p ≡ (cnt, q)
    → advance a false cnt q ≡ (cnt', held)
    → run a ((length ys, false) ∷ (length ys, false) ∷ []) (cnt, ys ++ p ∷ zs)
      ≡ (cnt', ys ++ held ∷ zs)
unfolding run
run-two a cnt cnt' p q held ys zs first second =
    rw (advance_thread-at a false cnt p ys zs, first, advance_thread-at a false cnt q ys zs, second)

enter_read :
    (a : Atom) (n : ℕ) (ys zs : List Place)
    → CasSucceeds a
    → run a ((length ys, false) ∷ (length ys, false) ∷ []) (pos n, ys ++ r_start ∷ zs)
      ≡ (pos (suc n), ys ++ reading ∷ zs)
unfolding advance
enter_read a n ys zs succeeds =
    run-two a (pos n) (pos (suc n)) r_start (r_loaded (pos n)) reading ys zs refl
      (rw (succeeds (pos n) (pos (suc n))))

enter_write :
    (a : Atom) (ys zs : List Place)
    → CasSucceeds a
    → run a ((length ys, false) ∷ (length ys, false) ∷ []) (pos 0, ys ++ w_start ∷ zs)
      ≡ (negsuc 0, ys ++ writing ∷ zs)
unfolding advance
enter_write a ys zs succeeds =
    run-two a (pos 0) (negsuc 0) w_start w_checked writing ys zs refl
      (rw (succeeds (pos 0) (negsuc 0)))

counted : (cnt : ℤ) (r w : ℕ) → Counts cnt (r + 0) (w + 0) → w ≡ 0 → cnt ≡ pos r
counted (pos n) r w h free = ap pos (omega arith)
counted (negsuc k) r w h free = absurd (omega arith)

reached :
    (a : Atom) (n : ℕ) (schedule : List (ℕ × Bool)) (cnt : ℤ) (ps : List Place)
    → IsAtomic a
    → run a schedule (pos 0, all_outside n) ≡ (cnt, ps)
    → writers ps ≡ 0
    → cnt ≡ pos (readers ps)
reached a n schedule cnt ps atomic here free =
    counted cnt (readers ps) (writers ps)
      (subst (λ (s : ℤ × List Place). CountsAll s 0 0) here (run-IsExclusive a n schedule atomic).1)
      free

-- In a moment that the accesses of any threads lead to, where no thread holds the lock to write, a
-- thread at the start of RLock holds it to read after its next two accesses, if no other thread
-- makes one between them, and the number counts one more reader.
pub run-reading :
    (a : Atom) (n : ℕ) (schedule : List (ℕ × Bool)) (cnt : ℤ) (ys zs : List Place)
    → IsAtomic a
    → CasSucceeds a
    → run a schedule (pos 0, all_outside n) ≡ (cnt, ys ++ r_start ∷ zs)
    → writers (ys ++ r_start ∷ zs) ≡ 0
    → run a ((length ys, false) ∷ (length ys, false) ∷ []) (cnt, ys ++ r_start ∷ zs)
      ≡ (pos (suc (readers (ys ++ r_start ∷ zs))), ys ++ reading ∷ zs)
run-reading a n schedule cnt ys zs atomic succeeds here free =
    rw (reached a n schedule cnt (ys ++ r_start ∷ zs) atomic here free)
      (enter_read a (readers (ys ++ r_start ∷ zs)) ys zs succeeds)

-- In a moment that the accesses of any threads lead to, where no thread holds the lock at all, a
-- thread at the start of WLock holds it to write after its next two accesses, if no other thread
-- makes one between them, and the number is -1.
pub run-writing :
    (a : Atom) (n : ℕ) (schedule : List (ℕ × Bool)) (cnt : ℤ) (ys zs : List Place)
    → IsAtomic a
    → CasSucceeds a
    → run a schedule (pos 0, all_outside n) ≡ (cnt, ys ++ w_start ∷ zs)
    → writers (ys ++ w_start ∷ zs) ≡ 0
    → readers (ys ++ w_start ∷ zs) ≡ 0
    → run a ((length ys, false) ∷ (length ys, false) ∷ []) (cnt, ys ++ w_start ∷ zs)
      ≡ (negsuc 0, ys ++ writing ∷ zs)
run-writing a n schedule cnt ys zs atomic succeeds here free unread =
    rw (reached a n schedule cnt (ys ++ w_start ∷ zs) atomic here free, unread)
      (enter_write a ys zs succeeds)
