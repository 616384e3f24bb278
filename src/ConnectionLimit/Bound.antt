-- ===== src/ConnectionLimit/Bound.antt =====
-- src/KConnectionLimit.cpp: in every interleaving no more requests than the limit are let in.
use kangle.Prelude.{
  ℕ, zero, suc, ◌+◌, ◌≤◌, List, [], ◌∷◌, ◌≡◌, ◌∙◌, refl, ap, inl, inr, arith, ltb, if◌then◌else◌,
  Bool-cases,
}
use mathlib.Core.Path.{subst}
use kangle.ConnectionLimit.{
  Counter, Place, outside, counted, admitted, advance, advance_thread, run, all_outside,
}

-- What the class relies on: katom_inc adds one and gives the new number, katom_dec takes one away.
pub record IsAtomic (k : Counter) : Type 0 where
  pub inc_suc : (n : ℕ) → k.inc n ≡ (suc n, suc n)
  pub dec_suc : (n : ℕ) → k.dec (suc n) ≡ n

-- A thread whose katom_inc is not taken back, and one that is let in or will be.
abbrev pub holds : Place → ℕ
holds outside = 0
holds _ = 1

abbrev pub passes : ℕ → Place → ℕ
passes max outside = 0
passes max (counted x) = if ltb max x then 0 else 1
passes max admitted = 1

abbrev pub is_in : Place → ℕ
is_in admitted = 1
is_in _ = 0

abbrev pub total : (Place → ℕ) → List Place → ℕ
total f [] = 0
total f (p ∷ ps) = f p + total f ps

-- The number counts the threads that hold it, and no more than the limit pass; `h` and `g` are those
-- of the other threads.
abbrev pub Fits : ℕ → ℕ × Place → ℕ → ℕ → Type 0
Fits max (cur, p) h g = (cur ≡ holds p + h) × (passes max p + g ≤ max) × (g ≤ h)

dec_one : (k : Counter) (cur h : ℕ) → IsAtomic k → cur ≡ 1 + h → k.dec cur ≡ 0 + h
dec_one k cur h atomic count =
    let next : cur ≡ suc h = omega (arith, count) in
    let done : k.dec cur ≡ h = ap k.dec next ∙ atomic.dec_suc h in omega (arith, done)

advance-Fits :
    (k : Counter) (max cur : ℕ) (p : Place) (h g : ℕ)
    → IsAtomic k
    → Fits max (cur, p) h g
    → Fits max (advance k max cur p) h g
unfolding advance
advance-Fits k max cur outside h g atomic (count, room, less) =
    rw (atomic.inc_suc cur) (omega (arith, count), passed, less)
  where
    passed : (if ltb max (suc cur) then 0 else 1) + g ≤ max
    passed = elim (Bool-cases (ltb max (suc cur))) [
      | inl full ↦ rw full (omega arith)
      | inr free ↦ rw free (ground (arith, free, count, less))
    ]
advance-Fits k max cur (counted x) h g atomic (count, room, less) = elim (Bool-cases (ltb max x)) [
  | inl full ↦ rw full (dec_one k cur h atomic count, omega arith, less)
  | inr free ↦ rw free (count, subst (λ (n : ℕ). n + g ≤ max) (rw free refl) room, less)
]
advance-Fits k max cur admitted h g atomic (count, room, less) =
    (dec_one k cur h atomic count, omega arith, less)

passes-holds : (max : ℕ) (p : Place) → passes max p ≤ holds p
passes-holds max outside = omega arith
passes-holds max (counted x) = ground arith
passes-holds max admitted = omega arith

is_in-passes : (max : ℕ) (p : Place) → is_in p ≤ passes max p
is_in-passes max outside = omega arith
is_in-passes max (counted x) = ground arith
is_in-passes max admitted = omega arith

total_le : (f g : Place → ℕ) (ps : List Place) → ((p : Place) → f p ≤ g p) → total f ps ≤ total g ps
total_le f g [] h = omega arith
total_le f g (p ∷ ps) h = omega (arith, h p, total_le f g ps h)

abbrev FitsAll : ℕ → ℕ × List Place → ℕ → ℕ → Type 0
FitsAll max (cur, ps) h g = (cur ≡ total holds ps + h) × (total (passes max) ps + g ≤ max) × (g ≤ h)

advance_thread-FitsAll :
    (k : Counter) (max i cur : ℕ) (ps : List Place) (h g : ℕ)
    → IsAtomic k
    → FitsAll max (cur, ps) h g
    → FitsAll max (advance_thread k max i cur ps) h g
unfolding advance_thread
advance_thread-FitsAll k max i cur [] h g atomic fits = fits
advance_thread-FitsAll k max zero cur (p ∷ ps) h g atomic (count, room, less) =
    let rest = total_le (passes max) holds ps (passes-holds max) in
    let (count', room', less') =
      advance-Fits k max cur p (total holds ps + h) (total (passes max) ps + g) atomic
        (omega (arith, count), omega (arith, room), omega (arith, less, rest)) in
    (omega (arith, count'), omega (arith, room'), less)
advance_thread-FitsAll k max (suc i) cur (p ∷ ps) h g atomic (count, room, less) =
    let (count', room', less') =
      advance_thread-FitsAll k max i cur ps (holds p + h) (passes max p + g) atomic
        (omega (arith, count), omega (arith, room), omega (arith, less, passes-holds max p)) in
    (omega (arith, count'), omega (arith, room'), less)

run-FitsAll :
    (k : Counter) (max : ℕ) (schedule : List ℕ) (s : ℕ × List Place)
    → IsAtomic k
    → FitsAll max s 0 0
    → FitsAll max (run k max schedule s) 0 0
unfolding run
run-FitsAll k max [] s atomic fits = fits
run-FitsAll k max (i ∷ schedule) s atomic fits =
    run-FitsAll k max schedule (advance_thread k max i s.0 s.1) atomic
      (advance_thread-FitsAll k max i s.0 s.1 0 0 atomic fits)

outside-FitsAll : (max n : ℕ) → FitsAll max (0, all_outside n) 0 0
outside-FitsAll max zero = (refl, omega arith, omega arith)
outside-FitsAll max (suc n) =
    let (count, room, less) = outside-FitsAll max n in
    (omega (arith, count), omega (arith, room), less)

-- Where increment and decrement are atomic, any number of threads that call addConnection and end
-- their requests, in any interleaving of their accesses to the number: at each moment at most
-- `max_connect` requests are let in, and the number counts the threads that have raised it and not yet
-- taken it back.
pub run-is_in :
    (k : Counter) (max_connect n : ℕ) (schedule : List ℕ)
    → IsAtomic k
    → let (cur_connect, ps) = run k max_connect schedule (0, all_outside n) in
      (total is_in ps ≤ max_connect) × (cur_connect ≡ total holds ps)
run-is_in k max_connect n schedule atomic =
    let (cur_connect, ps) = run k max_connect schedule (0, all_outside n) in
    let (count, room, less) =
      run-FitsAll k max_connect schedule (0, all_outside n) atomic
        (outside-FitsAll max_connect n) in
    (
      omega (arith, room, total_le is_in (passes max_connect) ps (is_in-passes max_connect)),
      omega (arith, count),
    )
