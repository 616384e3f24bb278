-- ===== src/TimeMatch/Item.antt =====
-- src/KTimeMatch.cpp: what setItem makes of an entry "a-b/s".
use kangle.Prelude.{
  ℕ, suc, ◌+◌, ◌≤◌, ◌<◌, min, max, Bool, true, false, ◌||◌, Option, some, List, ◌∷◌, ◌++◌, ◌≡◌,
  refl, ap, sym, ◌∙◌, arith, length, get_or, Bytes, cut, cut-Lacks, Lacks-append, is_digit, ◌==◌,
}
use kangle.Prelude.Int.{pos}
use kangle.Prelude.Number.{
  atoi, show, atoi-show, atoi-show_self, show-head, show-Lacks, digits_value,
}
use kangle.TimeMatch.{fill, set_range, set_entry}
use kangle.TimeMatch.Fill.{in_steps, HasBits, fill-HasBits}

-- The text a-b/s.
abbrev pub range_entry : ℕ → ℕ → ℕ → Bytes
range_entry a b s = (show a ++ b'-' ∷ show b) ++ b'/' ∷ show s

digit-star : (d : ℕ) → is_digit d ≡ true → (d == b'*') ≡ false
digit-star d h = ground arith

set_range-digits :
    (d : ℕ) (cs v : Bytes) (a b step : ℕ) (item : List Bool) (low high : ℕ)
    → is_digit d ≡ true
    → atoi (d ∷ cs) ≡ pos a
    → (cut b'-' (d ∷ cs)).1 ≡ some v
    → atoi v ≡ pos b
    → set_range (d ∷ cs) step item low high
      ≡ fill (suc (min b high)) item (max low a) (suc (min b high)) step
unfolding fill
set_range-digits d cs v a b step item low high digit ea ev eb =
    rw (digit-star d digit, digit, ea, ev, eb) refl

atoi-range : (a : ℕ) (rest : Bytes) → atoi (show a ++ b'-' ∷ rest) ≡ pos a
unfolding digits_value
atoi-range a rest = atoi-show a (b'-' ∷ rest) refl

set_range-show :
    (a b step : ℕ) (item : List Bool) (low high : ℕ)
    → set_range (show a ++ b'-' ∷ show b) step item low high
      ≡ fill (suc (min b high)) item (max low a) (suc (min b high)) step
set_range-show a b step item low high =
    let (d, cs, e, digit) = show-head a in
    let text = ap (λ (s : Bytes). s ++ b'-' ∷ show b) e in
    let split =
      ap (λ (p : Bytes × Option Bytes). p.1)
        (cut-Lacks b'-' (show a) (show b) (show-Lacks b'-' a refl)) in
    ap (λ hot. set_range hot step item low high) text
    ∙ set_range-digits d (cs ++ b'-' ∷ show b) (show b) a b step item low high digit
        (ap atoi (sym text) ∙ atoi-range a (show b))
        (ap (λ (s : Bytes). (cut b'-' s).1) (sym text) ∙ split) (atoi-show_self b)

set_entry-show :
    (a b s : ℕ) (item : List Bool) (low high : ℕ)
    → set_entry (range_entry a b (suc s)) item low high
      ≡ fill (suc (min b high)) item (max low a) (suc (min b high)) (suc s)
unfolding set_entry
set_entry-show a b s item low high =
    let front = show a ++ b'-' ∷ show b in
    let lacks =
      Lacks-append b'/' (show a) (b'-' ∷ show b) (show-Lacks b'/' a refl)
        (refl, show-Lacks b'/' b refl) in
    rw (cut-Lacks b'/' front (show (suc s)) lacks, atoi-show_self (suc s))
      (set_range-show a b (suc s) item low high)

-- An entry "a-b/s" with s > 0 is accepted where the array has room for `high` and high + s fits an
-- `int`: beside the bits that were set it sets exactly those at max(low, a), max(low, a) + s, ... up
-- to min(b, high).
pub set_entry-HasBits :
    (a b s : ℕ) (item : List Bool) (low high : ℕ)
    → high < length item
    → high + suc s ≤ 2147483647
    → HasBits
        (length item)
        (λ j. get_or item j false || in_steps (max low a) (suc (min b high)) (suc s) j)
        (set_entry (range_entry a b (suc s)) item low high)
set_entry-HasBits a b s item low high room small =
    let stop = suc (min b high) in
    rw (set_entry-show a b s item low high) (
      fill-HasBits stop item (max low a) stop (suc s) (omega arith) (omega arith) (omega arith)
        (omega arith))
