-- ===== src/HttpResponse/Age.antt =====
-- src/KHttpResponseParser.cpp, include/KHttpObject.h: the age that end_parse computes is the age that
-- the stored answer has from then on.
use kangle.Prelude.{
  ℕ, ◌+◌, ◌-◌, ◌≤◌, ◌<◌, min, Bool, true, false, not, ◌&&◌, ◌||◌, Option, none, some, ◌≡◌, refl, ap,
  sym, ◌∙◌, arith, ltb, leb, ◌==◌, if◌then◌else◌, Bool-cases, inl, inr, if_true, if_false, if_cases,
}
use kangle.HttpResponse.{
  Answer, end_parse, end_age, current_age, calculated_age, server_time, uint_max, with_size,
  without_validator,
}

-- What holds of the answer `r` that end_parse makes of `s` at time `now`: get_current_age counts on
-- from its age, or from the age `now` where the age is larger, and stays at 2^32 - 1.
abbrev pub Ages : ℕ → Answer → Answer → Type 0
Ages now s r =
    ((d : ℕ) → current_age r (now + d) ≡ min (min r.age now + d) uint_max)
    × (r.age ≤ uint_max)
    × (min s.age uint_max ≤ r.age)
    × (now - server_time now s < 4294967296 → now - server_time now s ≤ r.age)

-- last_verified is the time at which the answer had the age 0.
age_later :
    (a now d : ℕ) (ranged : Bool) (verified : ℕ)
    → ranged ≡ false
    → verified ≡ now
    → (if leb
          (now + d)
          (if ltb 0 a && not ranged then (if leb now a then 0 else now - a) else verified)
        then 0
        else min
            (now
              + d
              - (if ltb 0 a && not ranged then (if leb now a then 0 else now - a) else verified))
            uint_max)
      ≡ min (min a now + d) uint_max
age_later a now d ranged verified whole fresh = ground arith

end_age-Ages :
    (now begin_msec : ℕ) (s : Answer)
    → s.has_content_range ≡ false
    → s.last_verified ≡ now
    → Ages now s (end_age now begin_msec s)
unfolding end_age current_age
end_age-Ages now begin_msec s whole fresh = (
  λ d.
      let a = min (calculated_age now begin_msec s) uint_max in
      age_later a now d s.has_content_range s.last_verified whole fresh,
  omega arith,
  ground arith,
  λ h. ground arith,
)

-- What the tests in front of the computation leave as it is.
abbrev Agrees : Answer → Answer → Type 0
Agrees s t =
    (t.age ≡ s.age)
    × (t.server_date ≡ s.server_date)
    × (t.has_content_range ≡ s.has_content_range)
    × (t.last_verified ≡ s.last_verified)

without_validator-Agrees : (t : Answer) → Agrees t (without_validator t)
without_validator-Agrees t =
    if_cases (Agrees t) (not t.has_etag && not (t.has_max_age || t.has_expires))
      (record t { no_cache = true }) t (refl, refl, refl, refl) (refl, refl, refl, refl)

checked-Agrees :
    (body_size : Option ℕ) (s : Answer) → Agrees s (without_validator (with_size body_size s))
checked-Agrees none s = without_validator-Agrees s
checked-Agrees (some n) s = without_validator-Agrees (with_size (some n) s)

transfer :
    (now : ℕ) (s t r : Answer)
    → t.age ≡ s.age
    → t.server_date ≡ s.server_date
    → Ages now t r
    → Ages now s r
transfer now s t r age date (later, bound, received, apparent) =
    let clock : server_time now s ≡ server_time now t =
      ap (λ (d : ℕ). if d == 0 then now else d) (sym date) in
    (later, bound, rw (sym age) received, λ h. rw clock (apparent (rw (sym clock) h)))

true-false : true ≡ false → ⊥
true-false e = ground arith

-- Let end_parse leave an answer that may be stored and is no part of a larger one, and that was made in
-- the same second `now`. Then d seconds later get_current_age gives min(age, now) + d, or 2^32 - 1
-- where that is less; `age` is the computed age. That age has 32 bits, is at least the received age
-- cut to 32 bits, and is at least the time since the server's date where that time has 32 bits.
pub end_parse-Ages :
    (now begin_msec : ℕ) (body_size : Option ℕ) (s : Answer)
    → (end_parse now begin_msec body_size s).no_cache ≡ false
    → s.has_content_range ≡ false
    → s.last_verified ≡ now
    → Ages now s (end_parse now begin_msec body_size s)
unfolding end_parse
end_parse-Ages now begin_msec body_size s stored whole fresh =
    let checked = without_validator (with_size body_size s) in
    let (age, date, range, verified) = checked-Agrees body_size s in
    elim (Bool-cases checked.no_cache) [
      | inl refused ↦
          let e =
            if_true (λ (r : Answer). r.no_cache ≡ true) checked.no_cache checked
              (end_age now begin_msec checked) refused refused in
          absurd (true-false (sym e ∙ stored))
      | inr kept ↦
          if_false (Ages now s) checked.no_cache checked (end_age now begin_msec checked) kept (
            transfer now s checked (end_age now begin_msec checked) age date
              (end_age-Ages now begin_msec checked (range ∙ whole) (verified ∙ fresh)))
    ]
