-- ===== src/TimeMatch/Sizes.antt =====
-- src/KTimeMatch.cpp: no text makes `set` write out of bounds, and Sunday has one meaning.
use kangle.Prelude.{
  ℕ, zero, suc, ◌+◌, Bool, true, false, ◌||◌, Option, none, some, List, [], ◌∷◌, ◌≡◌, refl, sym,
  ◌∙◌, arith, ltb, length, length-set, get_or, set, max, if_cases, Bytes, Bool-cases, inl, inr, ◌⊎◌,
  ◌<◌, ◌≤◌, ◌==◌, is_digit, cut,
}
use mathlib.Core.Path.{subst}
use kangle.Prelude.Number.{atoi, drop_spaces}
use kangle.Prelude.Int.{ℤ, pos, negsuc}
use kangle.TimeMatch.Fill.{get_or-set_self, get_or-set_ne}
use kangle.TimeMatch.{
  Result, done, refused, out_of_bounds, overflow, and_then, stop_of, TimeMatch, init, fill,
  set_range, set_entry, set_entries, entries, set_item, set_field, set_fields, set_model,
  both_sundays, range_stop, first_of, step_of, next_item,
}

Bytes-cases : (s : Bytes) → (s ≡ []) ⊎ ((c : ℕ) × (cs : Bytes) × (s ≡ c ∷ cs))
Bytes-cases [] = inl refl
Bytes-cases (c ∷ cs) = inr (c, cs, refl)

-- What holds of a value that is reached. Nothing is written out of bounds; only `i += step` may overflow.
abbrev pub Holds : {A : Type 0} → (A → Type 0) → Result A → Type 0
Holds P (done a) = P a
Holds P refused = ⊥
Holds P out_of_bounds = ⊥
Holds P overflow = Unit {0}

and_then-Holds :
    {A B : Type 0} (P : A → Type 0) (Q : B → Type 0) (r : Result A) (f : A → Result B)
    → Holds P r
    → ((a : A) → P a → Holds Q (f a))
    → Holds Q (and_then r f)
and_then-Holds P Q (done a) f h k = k a h
and_then-Holds P Q refused f h k = absurd h
and_then-Holds P Q out_of_bounds f h k = absurd h
and_then-Holds P Q overflow f h k = tt

-- An array of n bits, where the entry is not refused.
abbrev Keeps : ℕ → Result (List Bool) → Type 0
Keeps n (done item) = length item ≡ n
Keeps n refused = Unit {0}
Keeps n out_of_bounds = ⊥
Keeps n overflow = Unit {0}

fill-Keeps :
    (fuel : ℕ) (item : List Bool) (i stop step : ℕ)
    → stop ≤ length item
    → Keeps (length item) (fill fuel item i stop step)
unfolding fill
fill-Keeps zero item i stop step room = refl
fill-Keeps (suc fuel) item i stop step room = elim (Bool-cases (ltb i stop)) [
  | inr over ↦ rw over refl
  | inl more ↦
      let inside : ltb i (length item) ≡ true = ground arith in
      let next = set item i true in
      let size = length-set item i true in
      let ih = fill-Keeps fuel next (i + step) stop step (rw size room) in
      rw (more, inside)
        (if_cases (Keeps (length item)) (ltb (i + step) 2147483648)
          (fill fuel next (i + step) stop step) overflow
          (subst (λ (n : ℕ). Keeps n (fill fuel next (i + step) stop step)) size ih) tt)
]

stop_of-le : (z : ℤ) (high : ℕ) → stop_of z high ≤ suc high
stop_of-le (pos n) high = omega arith
stop_of-le (negsuc n) high = omega arith

range_stop-le : (z : ℤ) (o : Option Bytes) (high : ℕ) → range_stop z o high ≤ suc high
range_stop-le z none high = stop_of-le z high
range_stop-le z (some text) high = stop_of-le (atoi text) high

set_range-Keeps :
    (hot : Bytes) (step : ℕ) (item : List Bool) (low high : ℕ)
    → high < length item
    → Keeps (length item) (set_range hot step item low high)
unfolding fill
set_range-Keeps [] step item low high room = tt
set_range-Keeps (c ∷ cs) step item low high room =
    let stop = range_stop (atoi (c ∷ cs)) (cut b'-' (c ∷ cs)).1 high in
    let below = range_stop-le (atoi (c ∷ cs)) (cut b'-' (c ∷ cs)).1 high in
    let first = max low (first_of (atoi (c ∷ cs))) in
    if_cases (Keeps (length item)) (c == b'*') (fill (suc high) item low (suc high) step) _
      (fill-Keeps (suc high) item low (suc high) step (omega arith))
      (if_cases (Keeps (length item)) (is_digit c) (fill stop item first stop step) refused
        (fill-Keeps stop item first stop step (omega arith)) tt)

set_entry-Keeps :
    (entry : Bytes) (item : List Bool) (low high : ℕ)
    → high < length item
    → Keeps (length item) (set_entry entry item low high)
unfolding set_entry
set_entry-Keeps entry item low high room =
    set_range-Keeps (cut b'/' entry).0 (step_of (cut b'/' entry).1) item low high room

Result-cases :
    (r : Result (List Bool))
    → (r ≡ refused) ⊎ (r ≡ out_of_bounds) ⊎ (r ≡ overflow) ⊎ ((x : List Bool) × (r ≡ done x))
Result-cases (done x) = inr (inr (inr (x, refl)))
Result-cases refused = inl refl
Result-cases out_of_bounds = inr (inl refl)
Result-cases overflow = inr (inr (inl refl))

abbrev HasLength : ℕ → List Bool → Type 0
HasLength n item = length item ≡ n

set_entries-Holds :
    (es : List Bytes) (item : List Bool) (low high n : ℕ)
    → length item ≡ n
    → high < n
    → Holds (HasLength n) (set_entries es item low high)
unfolding set_entries
set_entries-Holds [] item low high n size room = size
set_entries-Holds (e ∷ es) item low high n size room =
    let keeps = set_entry-Keeps e item low high (omega arith) in
    elim (Result-cases (set_entry e item low high)) [
      | inl early ↦ rw (early, Holds) size
      | inr (inl out) ↦ absurd (subst (Keeps (length item)) out keeps)
      | inr (inr (inl over)) ↦ rw (over, Holds) tt
      | inr (inr (inr (changed, now))) ↦
          rw (now, Holds)
            (set_entries-Holds es changed low high n (subst (Keeps (length item)) now keeps ∙ size)
              room)
    ]

set_item-Holds :
    (text : Bytes) (item : List Bool) (low high n : ℕ)
    → length item ≡ n
    → high < n
    → Holds (HasLength n) (set_item text item low high)
unfolding set_item
set_item-Holds text item low high n size room =
    set_entries-Holds (entries text) item low high n size room

-- The sizes that KTimeMatch.h declares.
abbrev pub IsSized : TimeMatch → Type 0
IsSized t =
    (length t.minute ≡ 60)
    × (length t.hour ≡ 24)
    × (length t.day ≡ 32)
    × (length t.month ≡ 13)
    × (length t.week ≡ 8)

set_field-IsSized :
    (i : ℕ) (text : Bytes) (t : TimeMatch) → IsSized t → Holds IsSized (set_field i text t)
unfolding set_field
set_field-IsSized zero text t (a, b, c, d, e) =
    and_then-Holds (HasLength 60) IsSized (set_item text t.minute 0 59)
      (λ (bits : List Bool). done (record t { minute = bits }))
      (set_item-Holds text t.minute 0 59 60 a (omega arith)) (λ bits size. (size, b, c, d, e))
set_field-IsSized (suc zero) text t (a, b, c, d, e) =
    and_then-Holds (HasLength 24) IsSized (set_item text t.hour 0 23)
      (λ (bits : List Bool). done (record t { hour = bits }))
      (set_item-Holds text t.hour 0 23 24 b (omega arith)) (λ bits size. (a, size, c, d, e))
set_field-IsSized (suc (suc zero)) text t (a, b, c, d, e) =
    and_then-Holds (HasLength 32) IsSized (set_item text t.day 1 31)
      (λ (bits : List Bool). done (record t { day = bits }))
      (set_item-Holds text t.day 1 31 32 c (omega arith)) (λ bits size. (a, b, size, d, e))
set_field-IsSized (suc (suc (suc zero))) text t (a, b, c, d, e) =
    and_then-Holds (HasLength 13) IsSized (set_item text t.month 1 12)
      (λ (bits : List Bool). done (record t { month = bits }))
      (set_item-Holds text t.month 1 12 13 d (omega arith)) (λ bits size. (a, b, c, size, e))
set_field-IsSized (suc (suc (suc (suc zero)))) text t (a, b, c, d, e) =
    and_then-Holds (HasLength 8) IsSized (set_item text t.week 0 7)
      (λ (bits : List Bool). done (record t { week = bits }))
      (set_item-Holds text t.week 0 7 8 e (omega arith)) (λ bits size. (a, b, c, d, size))
set_field-IsSized (suc (suc (suc (suc (suc i))))) text t h = h

set_fields-IsSized :
    (left i : ℕ) (text : Bytes) (t : TimeMatch)
    → IsSized t
    → Holds IsSized (set_fields left i text t)
unfolding set_fields
set_fields-IsSized zero i text t h = h
set_fields-IsSized (suc left) i text t h = elim (Bytes-cases (drop_spaces text)) [
  | inl over ↦ rw (over, set_fields) h
  | inr (c, cs, more) ↦
      let (hot, rest) = next_item (c ∷ cs) in
      rw (more, set_fields)
        (and_then-Holds IsSized IsSized (set_field i hot t) (λ u. set_fields left (suc i) rest u)
          (set_field-IsSized i hot t h) (λ u sized. set_fields-IsSized left (suc i) rest u sized))
]

-- Sunday is 0 or 7: the two bits agree in a week of 8 bits.
both_sundays-agree :
    (week : List Bool)
    → length week ≡ 8
    → get_or (both_sundays week) 0 false ≡ get_or (both_sundays week) 7 false
both_sundays-agree week h = elim (Bool-cases (get_or week 7 false || get_or week 0 false)) [
  | inl one ↦
      let low : 0 < length (set week 0 true) = rw (length-set week 0 true) (omega arith) in
      let seven = get_or-set_self (set week 0 true) 7 (rw (length-set week 0 true) (omega arith)) in
      let zeroth =
        get_or-set_ne (set week 0 true) 7 0 (λ e. grind arith)
        ∙ get_or-set_self week 0 (omega arith) in
      rw one (zeroth ∙ sym seven)
  | inr neither ↦ rw neither (ground arith)
]

length-both_sundays : (week : List Bool) → length (both_sundays week) ≡ length week
length-both_sundays week =
    if_cases (λ (r : List Bool). length r ≡ length week)
      (get_or week 7 false || get_or week 0 false) (set (set week 0 true) 7 true) week
      (length-set (set week 0 true) 7 true ∙ length-set week 0 true) refl

init-IsSized : IsSized init
unfolding init
init-IsSized = (refl, refl, refl, refl, refl)

-- Each array has the size that is declared for it, and bit 0 of the week is bit 7.
abbrev pub WellFormed : TimeMatch → Type 0
WellFormed t = IsSized t × (get_or t.week 0 false ≡ get_or t.week 7 false)

-- With any text, `set` writes to its five arrays only inside their bounds, up to the first `i += step`
-- that overflows, if there is one. If there is none, it ends, the arrays have the sizes that are
-- declared, and bit 0 of the week is bit 7: Sunday matches under both of its numbers or under none.
pub set_model-WellFormed : (text : Bytes) → Holds WellFormed (set_model text)
unfolding set_model init
set_model-WellFormed [] = (init-IsSized, refl)
set_model-WellFormed (c ∷ cs) =
    and_then-Holds IsSized WellFormed (set_fields 5 0 (c ∷ cs) init)
      (λ (t : TimeMatch). done (record t { week = both_sundays t.week }))
      (set_fields-IsSized 5 0 (c ∷ cs) init init-IsSized)
      (λ t (a, b, d, m, w).
        ((a, b, d, m, length-both_sundays t.week ∙ w), both_sundays-agree t.week w))
