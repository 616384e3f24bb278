-- ===== src/TimeMatch.antt =====
-- include/KTimeMatch.h, src/KTimeMatch.cpp: the five fields of a time table in the manner of cron,
-- and the check that runs over the minutes since the last one. A time_t is a number of seconds.
pub mod Fill
pub mod Item
pub mod Sizes
pub mod Minutes
mod Tests
use kangle.Prelude.{
  cut, ℕ, zero, suc, ◌+◌, ◌-◌, ◌≤◌, ◌<◌, min, max, Bool, true, false, ◌&&◌, ◌||◌, Option, none,
  some, List, [], ◌∷◌, ltb, leb, ◌==◌, if◌then◌else◌, length, get_or, set, replicate, Bytes,
  cons_front, is_digit, is_space,
}
use kangle.Prelude.Int.{ℤ, pos, negsuc}
use kangle.Prelude.Number.{drop_spaces, atoi}

pub record TimeMatch : Type 0 where
  pub minute : List Bool
  pub hour : List Bool
  pub day : List Bool
  pub month : List Bool
  pub week : List Bool
  pub is_open : Bool
  pub last_check : ℕ

pub init : TimeMatch
init = record {
  minute = replicate 60 false;
  hour = replicate 24 false;
  day = replicate 32 false;
  month = replicate 13 false;
  week = replicate 8 false;
  is_open = false;
  last_check = 0;
}

-- What becomes of a piece of code: it ends with a value or with an early `return false`, or it does
-- what C++ leaves undefined: a write behind the end of an array, or a sum that is no `int`.
pub data Result (A : Type 0) : Type 0 where
  done : A → Result A
  refused : Result A
  out_of_bounds : Result A
  overflow : Result A

abbrev pub and_then : {A B : Type 0} → Result A → (A → Result B) → Result B
and_then (done a) f = f a
and_then refused f = refused
and_then out_of_bounds f = out_of_bounds
and_then overflow f = overflow

abbrev pub done_with : {A B : Type 0} → (A → B) → Result A → Result B
done_with f r = and_then r (λ a. done (f a))

-- The loop of setItem that sets every `step`-th bit from `i` on, in front of `stop`, which is
-- `max + 1`; `i += step` is computed behind the last bit too. The fuel `stop` is enough, since
-- `step` is not zero.
pub fill : ℕ → List Bool → ℕ → ℕ → ℕ → Result (List Bool)
fill zero item i stop step = done item
fill (suc fuel) item i stop step =
    let rest = fill fuel (set item i true) (i + step) stop step in
    let next = if ltb (i + step) 2147483648 then rest else overflow in
    if ltb i stop then (if ltb i (length item) then next else out_of_bounds) else done item

abbrev pub positive : ℤ → ℕ
positive (pos zero) = 1
positive (pos (suc n)) = suc n
positive (negsuc n) = 1

-- `step` of an entry, 1 unless the number is positive.
abbrev pub step_of : Option Bytes → ℕ
step_of none = 1
step_of (some text) = positive (atoi text)

-- `max + 1` of a range, cut to `high`; a negative `max` gives an empty range.
abbrev pub stop_of : ℤ → ℕ → ℕ
stop_of (pos n) high = suc (min n high)
stop_of (negsuc n) high = 0

-- atoi(hot) of a text that begins with a digit.
abbrev pub first_of : ℤ → ℕ
first_of (pos n) = n
first_of (negsuc n) = 0

abbrev pub range_stop : ℤ → Option Bytes → ℕ → ℕ
range_stop first none high = stop_of first high
range_stop first (some text) high = stop_of (atoi text) high

-- One entry of setItem, without its step.
abbrev pub set_range : Bytes → ℕ → List Bool → ℕ → ℕ → Result (List Bool)
unfolding fill
set_range [] step item low high = refused
set_range (c ∷ cs) step item low high =
    let (_, range) = cut b'-' (c ∷ cs) in
    let stop = range_stop (atoi (c ∷ cs)) range high in
    let first = max low (first_of (atoi (c ∷ cs))) in
    if c == b'*'
    then fill (suc high) item low (suc high) step
    else if is_digit c
    then fill stop item first stop step
    else refused

-- One round of the loop of setItem.
unfoldable pub set_entry : Bytes → List Bool → ℕ → ℕ → Result (List Bool)
unfolding fill
set_entry entry item low high =
    let (hot, step) = cut b'/' entry in set_range hot (step_of step) item low high

-- The entries that strchr(hot, ',') cuts; nothing stands behind a last comma.
pub entries : Bytes → List Bytes
entries [] = []
entries (c ∷ cs) = let rest = entries cs in if c == b',' then [] ∷ rest else cons_front c rest

-- The loop of setItem. Its caller does not use whether it returned early: the bits that were set stay.
pub set_entries : List Bytes → List Bool → ℕ → ℕ → Result (List Bool)
unfolding set_entry
set_entries [] item low high = done item
set_entries (e ∷ es) item low high = elim (set_entry e item low high) [
  | refused ↦ done item
  | done changed ↦ set_entries es changed low high
  | out_of_bounds ↦ out_of_bounds
  | overflow ↦ overflow
]

unfoldable pub set_item : Bytes → List Bool → ℕ → ℕ → Result (List Bool)
unfolding entries set_entries
set_item text item low high = set_entries (entries text) item low high

-- The `switch` of `set`.
pub set_field : ℕ → Bytes → TimeMatch → Result TimeMatch
unfolding set_item
set_field zero text t =
    done_with (λ (bits : List Bool). record t { minute = bits }) (set_item text t.minute 0 59)
set_field (suc zero) text t =
    done_with (λ (bits : List Bool). record t { hour = bits }) (set_item text t.hour 0 23)
set_field (suc (suc zero)) text t =
    done_with (λ (bits : List Bool). record t { day = bits }) (set_item text t.day 1 31)
set_field (suc (suc (suc zero))) text t =
    done_with (λ (bits : List Bool). record t { month = bits }) (set_item text t.month 1 12)
set_field (suc (suc (suc (suc zero)))) text t =
    done_with (λ (bits : List Bool). record t { week = bits }) (set_item text t.week 0 7)
set_field _ text t = done t

-- The text up to the next space, and the text behind that space.
pub next_item : Bytes → Bytes × Bytes
next_item [] = ([], [])
next_item (c ∷ cs) =
    let (hot, rest) = next_item cs in if is_space c then ([], cs) else (c ∷ hot, rest)

-- The loop of `set` over the fields from `i` on, of which `left` are left.
pub set_fields : ℕ → ℕ → Bytes → TimeMatch → Result TimeMatch
unfolding set_field next_item
set_fields zero i text t = done t
set_fields (suc left) i text t = elim (drop_spaces text) [
  | [] ↦ done t
  | c ∷ cs ↦
      let (hot, rest) = next_item (c ∷ cs) in
      and_then (set_field i hot t) (λ u. set_fields left (suc i) rest u)
]

-- Sunday is 0 or 7.
abbrev pub both_sundays : List Bool → List Bool
both_sundays week =
    if get_or week 7 false || get_or week 0 false then set (set week 0 true) 7 true else week

-- set(const char *)
unfoldable pub set_model : Bytes → Result TimeMatch
unfolding init set_fields
set_model [] = done (record init { is_open = true })
set_model (c ∷ cs) =
    done_with (λ (t : TimeMatch). record t { week = both_sundays t.week })
      (set_fields 5 0 (c ∷ cs) init)

-- localtime_r: the fields of the broken-down time that are read.
pub record Tm : Type 0 where
  pub tm_min : ℕ
  pub tm_hour : ℕ
  pub tm_mday : ℕ
  pub tm_mon : ℕ
  pub tm_wday : ℕ

module _ (localtime : ℕ → Tm) where
  -- The test of checkTime.
  pub matches : TimeMatch → ℕ → Bool
  matches t now =
      let tm = localtime now in
      t.is_open
      || (get_or t.minute tm.tm_min false
          && get_or t.hour tm.tm_hour false
          && get_or t.day tm.tm_mday false
          && get_or t.month (tm.tm_mon + 1) false
          && get_or t.week tm.tm_wday false)

  -- checkTime
  abbrev pub check_time : TimeMatch → ℕ → TimeMatch × Bool
  unfolding matches
  check_time t now = (record t { last_check = now }, matches t now)

  -- The loop of check from second `i` on. The fuel `now` is enough: `i` grows by 60.
  pub check_minutes : ℕ → TimeMatch → ℕ → ℕ → TimeMatch × Bool
  unfolding matches
  check_minutes zero t i now = (t, false)
  check_minutes (suc fuel) t i now =
      let (checked, found) = check_time t i in
      let rest = check_minutes fuel checked (i + 60) now in
      if leb i now then (if found then (checked, true) else rest) else (t, false)

  -- check(time_t)
  unfoldable pub check : TimeMatch → ℕ → TimeMatch × Bool
  unfolding check_minutes matches
  check t now =
      if ltb (now - t.last_check) 60
      then (t, false)
      else if t.last_check == 0
      then check_time t now
      else check_minutes now t (t.last_check + 60) now
