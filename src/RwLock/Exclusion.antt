-- ===== src/RwLock/Exclusion.antt =====
-- include/KRWLock.h: in every interleaving a writer is alone.
use kangle.Prelude.{
  ℕ, zero, suc, ◌+◌, Bool, true, false, List, [], ◌∷◌, ◌≡◌, refl, sym, ◌⊎◌, inl, inr, arith,
}
use kangle.Prelude.Int.{ℤ, pos, negsuc}
use mathlib.Core.Path.{subst}
use kangle.RwLock.{
  Atom, Place, outside, r_start, r_loaded, reading, w_start, w_checked, writing, after_cas,
  try_read, advance, advance_thread, run, all_outside,
}

-- What the lock relies on: a compare and swap changes the number only when it has the expected value,
-- and may fail; the other two add and take away one.
pub record IsAtomic (a : Atom) : Type 0 where
  pub cas_cases : (c x y : ℤ) → ((c ≡ x) × (a.cas c x y ≡ (y, true))) ⊎ (a.cas c x y ≡ (c, false))
  pub inc_minus : a.inc (negsuc 0) ≡ pos 0
  pub dec_pos : (n : ℕ) → a.dec (pos (suc n)) ≡ pos n

abbrev pub reads : Place → ℕ
reads reading = 1
reads _ = 0

abbrev pub writes : Place → ℕ
writes writing = 1
writes _ = 0

abbrev pub readers : List Place → ℕ
readers [] = 0
readers (p ∷ ps) = reads p + readers ps

abbrev pub writers : List Place → ℕ
writers [] = 0
writers (p ∷ ps) = writes p + writers ps

-- The number counts the readers, or it is -1 and there is one writer and no reader.
abbrev pub Counts : ℤ → ℕ → ℕ → Type 0
Counts (pos n) r w = (n ≡ r) × (w ≡ 0)
Counts (negsuc k) r w = (k ≡ 0) × (r ≡ 0) × (w ≡ 1)

-- The same with one more thread, which is at a place.
abbrev pub CountsAt : ℤ × Place → ℕ → ℕ → Type 0
CountsAt (cnt, reading) r w = Counts cnt (suc r) w
CountsAt (cnt, writing) r w = Counts cnt r (suc w)
CountsAt (cnt, _) r w = Counts cnt r w

after_cas-Counts :
    (cnt x y : ℤ) (held again : Place) (swap : ℤ × Bool) (r w : ℕ)
    → ((cnt ≡ x) × (swap ≡ (y, true))) ⊎ (swap ≡ (cnt, false))
    → Counts cnt r w
    → (Counts x r w → CountsAt (y, held) r w)
    → CountsAt (cnt, again) r w
    → CountsAt (after_cas held again swap) r w
after_cas-Counts cnt x y held again swap r w (inl (same, swapped)) h won kept =
    subst (λ (s : ℤ × Bool). CountsAt (after_cas held again s) r w) (sym swapped)
      (won (subst (λ (c : ℤ). Counts c r w) same h))
after_cas-Counts cnt x y held again swap r w (inr failed) h won kept =
    subst (λ (s : ℤ × Bool). CountsAt (after_cas held again s) r w) (sym failed) kept

incremented : (n r w : ℕ) → Counts (pos n) r w → CountsAt (pos (suc n), reading) r w
incremented n r w h = (omega arith, omega arith)

first_writer : (r w : ℕ) → Counts (pos 0) r w → CountsAt (negsuc 0, writing) r w
first_writer r w h = (refl, omega arith, omega arith)

try_read-Counts :
    (a : Atom) (cnt x : ℤ) (r w : ℕ) → IsAtomic a → Counts cnt r w → CountsAt (try_read a cnt x) r w
try_read-Counts a cnt (negsuc k) r w atomic h = h
try_read-Counts a cnt (pos n) r w atomic h =
    after_cas-Counts cnt (pos n) (pos (suc n)) reading r_start (a.cas cnt (pos n) (pos (suc n))) r w
      (atomic.cas_cases cnt (pos n) (pos (suc n))) h (incremented n r w) h

dec-Counts :
    (a : Atom) (cnt : ℤ) (r w : ℕ) → IsAtomic a → Counts cnt (suc r) w → Counts (a.dec cnt) r w
dec-Counts a (pos zero) r w atomic h = absurd (omega arith)
dec-Counts a (pos (suc n)) r w atomic h =
    subst (λ (c : ℤ). Counts c r w) (sym (atomic.dec_pos n)) (omega arith, h.1)
dec-Counts a (negsuc k) r w atomic h = absurd (omega arith)

inc-Counts :
    (a : Atom) (cnt : ℤ) (r w : ℕ) → IsAtomic a → Counts cnt r (suc w) → Counts (a.inc cnt) r w
inc-Counts a (pos n) r w atomic h = absurd (omega arith)
inc-Counts a (negsuc zero) r w atomic h =
    subst (λ (c : ℤ). Counts c r w) (sym atomic.inc_minus) (omega arith, omega arith)
inc-Counts a (negsuc (suc k)) r w atomic h = absurd (omega arith)

advance-Counts :
    (a : Atom) (write : Bool) (cnt : ℤ) (p : Place) (r w : ℕ)
    → IsAtomic a
    → CountsAt (cnt, p) r w
    → CountsAt (advance a write cnt p) r w
unfolding advance
advance-Counts a true cnt outside r w atomic h = h
advance-Counts a false cnt outside r w atomic h = h
advance-Counts a write cnt r_start r w atomic h = h
advance-Counts a write cnt (r_loaded x) r w atomic h = try_read-Counts a cnt x r w atomic h
advance-Counts a write cnt reading r w atomic h = dec-Counts a cnt r w atomic h
advance-Counts a write (pos zero) w_start r w atomic h = h
advance-Counts a write (pos (suc n)) w_start r w atomic h = h
advance-Counts a write (negsuc k) w_start r w atomic h = h
advance-Counts a write cnt w_checked r w atomic h =
    after_cas-Counts cnt (pos 0) (negsuc 0) writing w_start (a.cas cnt (pos 0) (negsuc 0)) r w
      (atomic.cas_cases cnt (pos 0) (negsuc 0)) h (first_writer r w) h
advance-Counts a write cnt writing r w atomic h = inc-Counts a cnt r w atomic h

Counts-same : (cnt : ℤ) (r r' w w' : ℕ) → r ≡ r' → w ≡ w' → Counts cnt r w → Counts cnt r' w'
Counts-same (pos n) r r' w w' same_r same_w h = (omega arith, omega arith)
Counts-same (negsuc k) r r' w w' same_r same_w h = (h.0, omega arith, omega arith)

Counts-CountsAt :
    (cnt : ℤ) (p : Place) (r w : ℕ)
    → Counts cnt (reads p + r) (writes p + w)
    → CountsAt (cnt, p) r w
Counts-CountsAt cnt outside r w h =
    Counts-same cnt (0 + r) r (0 + w) w (omega arith) (omega arith) h
Counts-CountsAt cnt r_start r w h =
    Counts-same cnt (0 + r) r (0 + w) w (omega arith) (omega arith) h
Counts-CountsAt cnt (r_loaded x) r w h =
    Counts-same cnt (0 + r) r (0 + w) w (omega arith) (omega arith) h
Counts-CountsAt cnt reading r w h =
    Counts-same cnt (1 + r) (suc r) (0 + w) w (omega arith) (omega arith) h
Counts-CountsAt cnt w_start r w h =
    Counts-same cnt (0 + r) r (0 + w) w (omega arith) (omega arith) h
Counts-CountsAt cnt w_checked r w h =
    Counts-same cnt (0 + r) r (0 + w) w (omega arith) (omega arith) h
Counts-CountsAt cnt writing r w h =
    Counts-same cnt (0 + r) r (1 + w) (suc w) (omega arith) (omega arith) h

CountsAt-Counts :
    (cnt : ℤ) (p : Place) (r w : ℕ)
    → CountsAt (cnt, p) r w
    → Counts cnt (reads p + r) (writes p + w)
CountsAt-Counts cnt outside r w h =
    Counts-same cnt r (0 + r) w (0 + w) (omega arith) (omega arith) h
CountsAt-Counts cnt r_start r w h =
    Counts-same cnt r (0 + r) w (0 + w) (omega arith) (omega arith) h
CountsAt-Counts cnt (r_loaded x) r w h =
    Counts-same cnt r (0 + r) w (0 + w) (omega arith) (omega arith) h
CountsAt-Counts cnt reading r w h =
    Counts-same cnt (suc r) (1 + r) w (0 + w) (omega arith) (omega arith) h
CountsAt-Counts cnt w_start r w h =
    Counts-same cnt r (0 + r) w (0 + w) (omega arith) (omega arith) h
CountsAt-Counts cnt w_checked r w h =
    Counts-same cnt r (0 + r) w (0 + w) (omega arith) (omega arith) h
CountsAt-Counts cnt writing r w h =
    Counts-same cnt r (0 + r) (suc w) (1 + w) (omega arith) (omega arith) h

abbrev pub CountsAll : ℤ × List Place → ℕ → ℕ → Type 0
CountsAll (cnt, ps) r w = Counts cnt (readers ps + r) (writers ps + w)

advance_thread-CountsAll :
    (a : Atom) (i : ℕ) (write : Bool) (cnt : ℤ) (ps : List Place) (r w : ℕ)
    → IsAtomic a
    → CountsAll (cnt, ps) r w
    → CountsAll (advance_thread a i write cnt ps) r w
unfolding advance_thread
advance_thread-CountsAll a i write cnt [] r w atomic h = h
advance_thread-CountsAll a zero write cnt (p ∷ ps) r w atomic h =
    let (cnt', p') = advance a write cnt p in
    let own = Counts-CountsAt cnt p (readers ps + r) (writers ps + w) (
      Counts-same cnt (reads p + readers ps + r) (reads p + (readers ps + r))
        (writes p + writers ps + w) (writes p + (writers ps + w)) (omega arith) (omega arith) h) in
    let next = advance-Counts a write cnt p (readers ps + r) (writers ps + w) atomic own in
    Counts-same cnt' (reads p' + (readers ps + r)) (reads p' + readers ps + r)
      (writes p' + (writers ps + w)) (writes p' + writers ps + w) (omega arith) (omega arith)
      (CountsAt-Counts cnt' p' (readers ps + r) (writers ps + w) next)
advance_thread-CountsAll a (suc i) write cnt (p ∷ ps) r w atomic h =
    let (cnt', ps') = advance_thread a i write cnt ps in
    let others =
      Counts-same cnt (reads p + readers ps + r) (readers ps + (reads p + r))
        (writes p + writers ps + w) (writers ps + (writes p + w)) (omega arith) (omega arith) h in
    let next =
      advance_thread-CountsAll a i write cnt ps (reads p + r) (writes p + w) atomic others in
    Counts-same cnt' (readers ps' + (reads p + r)) (reads p + readers ps' + r)
      (writers ps' + (writes p + w)) (writes p + writers ps' + w) (omega arith) (omega arith) next

run-CountsAll :
    (a : Atom) (schedule : List (ℕ × Bool)) (s : ℤ × List Place)
    → IsAtomic a
    → CountsAll s 0 0
    → CountsAll (run a schedule s) 0 0
unfolding run
run-CountsAll a [] s atomic h = h
run-CountsAll a ((i, write) ∷ schedule) s atomic h =
    run-CountsAll a schedule (advance_thread a i write s.0 s.1) atomic
      (advance_thread-CountsAll a i write s.0 s.1 0 0 atomic h)

outside-CountsAll : (n : ℕ) → CountsAll (pos 0, all_outside n) 0 0
outside-CountsAll zero = (refl, refl)
outside-CountsAll (suc n) = let ih = outside-CountsAll n in (omega arith, omega arith)

-- What a thread may rely on: there is no writer, or one writer and no reader.
abbrev pub IsExclusive : List Place → Type 0
IsExclusive ps = (writers ps ≡ 0) ⊎ ((writers ps ≡ 1) × (readers ps ≡ 0))

Counts-Exclusive : (cnt : ℤ) (r w : ℕ) → Counts cnt (r + 0) (w + 0) → (w ≡ 0) ⊎ ((w ≡ 1) × (r ≡ 0))
Counts-Exclusive (pos n) r w h = inl (omega arith)
Counts-Exclusive (negsuc k) r w h = inr (omega arith, omega arith)

-- Where compare and swap, increment and decrement are atomic, any number of threads that call RLock,
-- RUnlock, WLock and WUnlock in any interleaving of their accesses, from the fresh lock on, exclude
-- each other: at each moment no thread holds the lock to write, or one does and none holds it to
-- read. The number of the lock then counts the readers, or is -1.
pub run-IsExclusive :
    (a : Atom) (n : ℕ) (schedule : List (ℕ × Bool))
    → IsAtomic a
    → let (cnt, ps) = run a schedule (pos 0, all_outside n) in
      IsExclusive ps × CountsAll (cnt, ps) 0 0
run-IsExclusive a n schedule atomic =
    let (cnt, ps) = run a schedule (pos 0, all_outside n) in
    let counts = run-CountsAll a schedule (pos 0, all_outside n) atomic (outside-CountsAll n) in
    (Counts-Exclusive cnt (readers ps) (writers ps) counts, counts)
