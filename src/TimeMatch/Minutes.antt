-- ===== src/TimeMatch/Minutes.antt =====
-- src/KTimeMatch.cpp: check looks at every minute since the last check and stops at the first one
-- that matches.
use kangle.Prelude.{
  ℕ, zero, suc, ◌+◌, ◌-◌, ◌*◌, ◌≤◌, ◌<◌, Bool, true, false, ◌≡◌, ap, ◌∙◌, arith, ◌==◌, ltb, leb,
  Bool-cases, inl, inr,
}
use kangle.TimeMatch.{TimeMatch, Tm, matches, check_minutes, check}

module _ (localtime : ℕ → Tm) where
  -- What a check of the seconds start + 60, start + 120, ... up to `now` says: the first of them
  -- that matches is recorded as the last check, or none of them matches.
  abbrev pub FirstMatch : TimeMatch → ℕ → ℕ → TimeMatch × Bool → Type 0
  FirstMatch t start now (u, true) =
      (k : ℕ) × (u.last_check ≡ start + 60 * k)
      × (u.last_check ≤ now)
      × (matches localtime t u.last_check ≡ true)
      × ((m : ℕ) → m < k → matches localtime t (start + 60 * m) ≡ false)
  FirstMatch t start now (u, false) =
      (m : ℕ) → start + 60 * m ≤ now → matches localtime t (start + 60 * m) ≡ false

  first_here :
      (t : TimeMatch) (i now : ℕ)
      → i ≤ now
      → matches localtime t i ≡ true
      → FirstMatch t i now (record t { last_check = i }, true)
  unfolding matches
  first_here t i now h e = (0, omega arith, h, e, λ m lt. absurd (omega arith))

  -- A miss at second i, and what holds of the seconds from i + 60 on, in front of minute k.
  shift :
      (t : TimeMatch) (i : ℕ) (In : ℕ → Type 0)
      → matches localtime t i ≡ false
      → ((m : ℕ) → In (suc m) → matches localtime t (i + 60 + 60 * m) ≡ false)
      → (m : ℕ) → In m
      → matches localtime t (i + 60 * m) ≡ false
  shift t i In miss h zero inside = ap (matches localtime t) (omega arith) ∙ miss
  shift t i In miss h (suc m) inside = ap (matches localtime t) (omega arith) ∙ h m inside

  later_match :
      (t : TimeMatch) (i now : ℕ) (r : TimeMatch × Bool)
      → matches localtime t i ≡ false
      → FirstMatch t (i + 60) now r
      → FirstMatch t i now r
  later_match t i now (u, true) miss (k, at, le, there, before) = (
    suc k,
    omega arith,
    le,
    there,
    shift t i (λ m. m < suc k) miss (λ m lt. before m (omega arith)),
  )
  later_match t i now (u, false) miss h =
      shift t i (λ m. i + 60 * m ≤ now) miss (λ m le. h m (omega arith))

  check_minutes-FirstMatch :
      (fuel : ℕ) (t : TimeMatch) (i now : ℕ)
      → now < i + 60 * fuel
      → FirstMatch t i now (check_minutes localtime fuel t i now)
  unfolding check_minutes matches
  check_minutes-FirstMatch zero t i now enough = λ m h. absurd (omega arith)
  check_minutes-FirstMatch (suc fuel) t i now enough = elim (Bool-cases (leb i now)) [
    | inr over ↦ rw over (λ m h. absurd (ground arith))
    | inl due ↦ elim (Bool-cases (matches localtime t i)) [
      | inl found ↦ rw (due, found) (first_here t i now (ground arith) found)
      | inr miss ↦
          let rest = check_minutes localtime fuel (record t { last_check = i }) (i + 60) now in
          rw (due, miss)
            (later_match t i now rest miss (
              check_minutes-FirstMatch fuel (record t { last_check = i }) (i + 60) now
                (omega arith)))
    ]
  ]

  -- If a minute or more has passed since a check before, `check` returns true and records the first
  -- of the seconds last_check + 60, last_check + 120, ... up to `now` that matches, or it returns
  -- false and none of them matches. So a late check misses no minute, and it always ends.
  pub check-FirstMatch :
      (t : TimeMatch) (now : ℕ)
      → 0 < t.last_check
      → t.last_check + 60 ≤ now
      → FirstMatch t (t.last_check + 60) now (check localtime t now)
  unfolding check
  check-FirstMatch t now h late =
      let due : ltb (now - t.last_check) 60 ≡ false = ground arith in
      let before : (t.last_check == 0) ≡ false = ground arith in
      rw (due, before) (check_minutes-FirstMatch now t (t.last_check + 60) now (omega arith))
