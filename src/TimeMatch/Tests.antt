-- ===== src/TimeMatch/Tests.antt =====
-- Runs of the time tables, and the theorems about them at concrete inputs.
use kangle.Prelude.{
  cut, ℕ, ◌/◌, ◌%◌, Bool, true, false, ◌||◌, [], ◌∷◌, ◌≡◌, refl, arith, length, get_or, replicate,
  codes, min, max, suc,
}
use kangle.TimeMatch.{
  Result, done, overflow, TimeMatch, Tm, matches, check_minutes, check, set_model, set_entry, init,
  set_fields, set_field, next_item, set_item, entries, set_entries, fill,
}
use kangle.TimeMatch.Fill.{in_steps, HasBits}
use kangle.TimeMatch.Item.{range_entry, set_entry-HasBits}
use kangle.TimeMatch.Sizes.{set_model-WellFormed, WellFormed, Holds}
use kangle.TimeMatch.Minutes.{FirstMatch, check-FirstMatch}
use kangle.Prelude.Number.{atoi, drop_spaces}

-- A clock that stands at Sunday, the first of January, in the minute of the hour that it shows.
abbrev clock : ℕ → Tm
clock now = record { tm_min = now / 60 % 60; tm_hour = 0; tm_mday = 1; tm_mon = 0; tm_wday = 0 }

abbrev half_hours : TimeMatch
half_hours = record {
  minute = true ∷ true ∷ false ∷ true ∷ [];
  hour = true ∷ [];
  day = false ∷ true ∷ [];
  month = false ∷ true ∷ [];
  week = true ∷ [];
  is_open = false;
  last_check = 60;
}

late_run : (check clock half_hours 200).1 ≡ true
unfolding check check_minutes matches
late_run = refl

check-FirstMatch_example : FirstMatch clock half_hours 120 200 (check clock half_hours 200)
check-FirstMatch_example = check-FirstMatch clock half_hours 200 (omega arith) (omega arith)

abbrev sunday_of : Result TimeMatch → Bool
sunday_of (done t) = get_or t.week 0 false
sunday_of _ = false

sunday_run : sunday_of (set_model (codes "*/30 1,2 * * 7")) ≡ true
unfolding set_model init set_fields set_field next_item set_item entries set_entries set_entry fill
    atoi drop_spaces cut
sunday_run = refl

-- A step that fits an `int` makes `i += step` overflow.
overflow_run : set_entry (codes "5-10/2147483647") (replicate 60 false) 0 59 ≡ overflow
unfolding set_entry fill atoi drop_spaces cut
overflow_run = refl

set_model-WellFormed_example : Holds WellFormed (set_model (codes "0 1-5 * * 7"))
set_model-WellFormed_example = set_model-WellFormed (codes "0 1-5 * * 7")

set_entry-HasBits_example :
    HasBits
      (length (replicate 60 false))
      (λ j. get_or (replicate 60 false) j false || in_steps (max 0 3) (suc (min 30 59)) (suc 4) j)
      (set_entry (range_entry 3 30 (suc 4)) (replicate 60 false) 0 59)
set_entry-HasBits_example =
    set_entry-HasBits 3 30 4 (replicate 60 false) 0 59 (omega arith) (omega arith)
