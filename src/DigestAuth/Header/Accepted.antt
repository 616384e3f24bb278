-- ===== src/DigestAuth/Header/Accepted.antt =====
-- src/KHttpDigestAuth.cpp: what a header that `parse` accepts holds.
use kangle.Prelude.{
  ℕ, suc, Bool, true, false, Option, none, some, List, [], ◌∷◌, ◌≡◌, refl, ap, sym, arith,
  if◌then◌else◌, Bytes, codes, same, Bool-cases, inl, inr,
}
use mathlib.Core.Path.{subst}
use kangle.DigestAuth.Header.Complete.{
  both, IsGiven, IsComplete, accepts-IsComplete, IsComplete-accepts,
}
use kangle.DigestAuth.Header.{
  Auth, parse, found_of, only_user, scan_user, last_value, accepts, is_set,
}

-- How often a name stands in the header.
abbrev pub occurrences : Bytes → List (Bytes × Option Bytes) → ℕ
occurrences name [] = 0
occurrences name ((attr, val) ∷ fields) =
    if same attr name then suc (occurrences name fields) else occurrences name fields

scan_user-once :
    (fields : List (Bytes × Option Bytes)) (user : Option Bytes)
    → (scan_user fields user).1 ≡ true
    → is_set (scan_user fields user).0 ≡ true
    → occurrences (codes "username") fields ≡ (if is_set user then 0 else 1)
unfolding scan_user
scan_user-once [] none complete found = absurd (ground arith)
scan_user-once [] (some u) complete found = refl
scan_user-once ((attr, val) ∷ fields) (some u) complete found =
    let ih = scan_user-once fields (some u) in
    elim (Bool-cases (same attr (codes "username"))) [
      | inl again ↦ absurd (ground arith)
      | inr other ↦ rw other (ih (ground arith) (ground arith))
    ]
scan_user-once ((attr, none) ∷ fields) none complete found =
    elim (Bool-cases (same attr (codes "username"))) [
      | inl bare ↦ absurd (ground arith)
      | inr other ↦ rw other (scan_user-once fields none (ground arith) (ground arith))
    ]
scan_user-once ((attr, some v) ∷ fields) none complete found =
    elim (Bool-cases (same attr (codes "username"))) [
      | inl name ↦ rw name (ap suc (scan_user-once fields (some v) (ground arith) (ground arith)))
      | inr other ↦ rw other (scan_user-once fields none (ground arith) (ground arith))
    ]

has_user :
    (fields : List (Bytes × Option Bytes))
    → accepts (found_of fields) ≡ true
    → is_set (scan_user fields none).0 ≡ true
unfolding scan_user same
has_user fields h = (both (is_set (scan_user fields none).0) _ h).0

-- The last value of each name in the header.
abbrev pub last_values : List (Bytes × Option Bytes) → Auth
last_values fields = record {
  user = last_value (codes "username") fields none;
  realm = last_value (codes "realm") fields none;
  nonce = last_value (codes "nonce") fields none;
  uri = last_value (codes "uri") fields none;
  response = last_value (codes "response") fields none;
  nc = last_value (codes "nc") fields none;
  cnonce = last_value (codes "cnonce") fields none;
  qop = last_value (codes "qop") fields none;
}

-- No username is left.
scan_user-none :
    (fields : List (Bytes × Option Bytes)) (user : Option Bytes)
    → occurrences (codes "username") fields ≡ 0
    → (scan_user fields user ≡ (user, true)) × (last_value (codes "username") fields user ≡ user)
unfolding scan_user
scan_user-none [] user h = (refl, refl)
scan_user-none ((attr, val) ∷ fields) user h = elim (Bool-cases (same attr (codes "username"))) [
  | inl name ↦ absurd (ground arith)
  | inr other ↦ rw other (scan_user-none fields user (ground arith))
]

scan_user-one :
    (fields : List (Bytes × Option Bytes))
    → occurrences (codes "username") fields ≡ 1
    → IsGiven (last_value (codes "username") fields none)
    → scan_user fields none ≡ (last_value (codes "username") fields none, true)
unfolding scan_user
scan_user-one [] h given = absurd (ground arith)
scan_user-one ((attr, none) ∷ fields) h given = elim (Bool-cases (same attr (codes "username"))) [
  | inl name ↦
      let last = (scan_user-none fields none (ground arith)).1 in
      absurd (subst IsGiven last (rw name at given))
  | inr other ↦ rw other (scan_user-one fields (ground arith) (rw other at given))
]
scan_user-one ((attr, some v) ∷ fields) h given = elim (Bool-cases (same attr (codes "username"))) [
  | inl name ↦
      let (scanned, last) = scan_user-none fields (some v) (ground arith) in
      rw (name, scanned, last) refl
  | inr other ↦ rw other (scan_user-one fields (ground arith) (rw other at given))
]

scan_user-IsGiven :
    (fields : List (Bytes × Option Bytes))
    → (scan_user fields none).1 ≡ true
    → is_set (scan_user fields none).0 ≡ true
    → IsGiven (last_value (codes "username") fields none)
unfolding scan_user
scan_user-IsGiven [] complete found = absurd (ground arith)
scan_user-IsGiven ((attr, none) ∷ fields) complete found =
    elim (Bool-cases (same attr (codes "username"))) [
      | inl bare ↦ absurd (ground arith)
      | inr other ↦ rw other (scan_user-IsGiven fields (rw other at complete) (rw other at found))
    ]
scan_user-IsGiven ((attr, some v) ∷ fields) complete found =
    elim (Bool-cases (same attr (codes "username"))) [
      | inl name ↦
          let rest = scan_user-once fields (some v) (rw name at complete) (rw name at found) in
          let last = (scan_user-none fields (some v) rest).1 in rw (name, last) tt
      | inr other ↦ rw other (scan_user-IsGiven fields (rw other at complete) (rw other at found))
    ]

found_of-last_values :
    (fields : List (Bytes × Option Bytes))
    → occurrences (codes "username") fields ≡ 1
    → IsGiven (last_value (codes "username") fields none)
    → found_of fields ≡ last_values fields
unfolding scan_user found_of
found_of-last_values fields one given =
    ap (λ (r : Option Bytes × Bool). record (last_values fields) { user = r.0 })
      (scan_user-one fields one given)

-- A header with one username, and with all that a digest needs.
abbrev pub IsDigest : List (Bytes × Option Bytes) → Type 0
IsDigest fields = (occurrences (codes "username") fields ≡ 1) × IsComplete (last_values fields)

-- What an accepted header leaves in the object, and what a refused one does.
abbrev pub IsParsed : List (Bytes × Option Bytes) → Auth × Bool → Type 0
IsParsed fields (a, true) = IsDigest fields × (a ≡ last_values fields)
IsParsed fields (a, false) = ¬ IsDigest fields × (a ≡ only_user a.user)

found_of-IsParsed :
    (fields : List (Bytes × Option Bytes))
    → (scan_user fields none).1 ≡ true
    → accepts (found_of fields) ≡ true
    → IsParsed fields (found_of fields, true)
unfolding scan_user
found_of-IsParsed fields complete match =
    let user = has_user fields match in
    let one = scan_user-once fields none complete user in
    let same_values = found_of-last_values fields one (scan_user-IsGiven fields complete user) in
    ((one, subst IsComplete same_values (accepts-IsComplete (found_of fields) match)), same_values)

IsDigest-accepts :
    (fields : List (Bytes × Option Bytes))
    → IsDigest fields
    → ((scan_user fields none).1 ≡ true) × (accepts (found_of fields) ≡ true)
unfolding scan_user
IsDigest-accepts fields (one, complete) =
    let given = complete.0 in
    (
      ap (λ (r : Option Bytes × Bool). r.1) (scan_user-one fields one given),
      subst (λ (a : Auth). accepts a ≡ true) (sym (found_of-last_values fields one given))
          (IsComplete-accepts (last_values fields) complete),
    )

true-false : (b : Bool) → b ≡ true → b ≡ false → ⊥
true-false b h k = ground arith

-- `parse` accepts a header exactly if there is one username in it, and if the last values are there of
-- username, realm, nonce, uri, cnonce, which is not empty, qop, which is "auth" in any case, response
-- with 32 and nc with 8 hexadecimal digits. Then the members are these last values. If it refuses
-- the header, no member but the user is set.
pub parse-IsParsed : (fields : List (Bytes × Option Bytes)) → IsParsed fields (parse fields)
unfolding parse
parse-IsParsed fields = elim (Bool-cases (scan_user fields none).1) [
  | inr cut_short ↦
      rw cut_short (λ digest. true-false _ (IsDigest-accepts fields digest).0 cut_short, refl)
  | inl complete ↦ elim (Bool-cases (accepts (found_of fields))) [
    | inr no_match ↦
        rw (complete, no_match)
          (λ digest. true-false _ (IsDigest-accepts fields digest).1 no_match, refl)
    | inl match ↦ rw (complete, match) (found_of-IsParsed fields complete match)
  ]
]
