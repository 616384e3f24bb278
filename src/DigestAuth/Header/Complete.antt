-- ===== src/DigestAuth/Header/Complete.antt =====
-- src/KHttpDigestAuth.cpp: the tests behind the loop of `parse`, as what the members hold.
use kangle.Prelude.{
  ℕ, ◌<◌, Bool, true, false, ◌&&◌, Option, none, some, [], ◌∷◌, ◌≡◌, refl, arith, length, Bytes,
  codes, same,
}
use kangle.DigestAuth.Header.{
  Auth, accepts, is_set, is_auth, is_hex, is_xdigit, all_xdigit, not_empty, has_length,
}

pub both : (a b : Bool) → a && b ≡ true → (a ≡ true) × (b ≡ true)
both true b h = (refl, h)
both false b h = absurd (ground arith)

-- What the members hold in a header that is accepted.
abbrev pub IsGiven : Option Bytes → Type 0
IsGiven none = ⊥
IsGiven (some s) = Unit {0}

abbrev pub IsFilled : Option Bytes → Type 0
IsFilled none = ⊥
IsFilled (some s) = 0 < length s

abbrev pub AllHex : Bytes → Type 0
AllHex [] = Unit {0}
AllHex (c ∷ cs) = (is_xdigit c ≡ true) × AllHex cs

-- A text of n hexadecimal digits.
abbrev pub IsHex : ℕ → Option Bytes → Type 0
IsHex n none = ⊥
IsHex n (some s) = (length s ≡ n) × AllHex s

-- The qop "auth", in any case of its letters.
abbrev pub IsAuth : Option Bytes → Type 0
IsAuth none = ⊥
IsAuth (some s) = same s (codes "auth") ≡ true

abbrev pub IsComplete : Auth → Type 0
IsComplete a =
    IsGiven a.user
    × IsGiven a.realm
    × IsGiven a.nonce
    × IsGiven a.uri
    × IsHex 32 a.response
    × IsHex 8 a.nc
    × IsFilled a.cnonce
    × IsAuth a.qop

is_set-IsGiven : (o : Option Bytes) → is_set o ≡ true → IsGiven o
is_set-IsGiven none h = absurd (ground arith)
is_set-IsGiven (some s) h = tt

not_empty-IsFilled : (o : Option Bytes) → not_empty o ≡ true → IsFilled o
not_empty-IsFilled none h = absurd (ground arith)
not_empty-IsFilled (some []) h = absurd (ground arith)
not_empty-IsFilled (some (c ∷ cs)) h = omega arith

all_xdigit-AllHex : (s : Bytes) → all_xdigit s ≡ true → AllHex s
all_xdigit-AllHex [] h = tt
all_xdigit-AllHex (c ∷ cs) h =
    let (first, rest) = both (is_xdigit c) (all_xdigit cs) h in (first, all_xdigit-AllHex cs rest)

has_length-IsHex : (n : ℕ) (o : Option Bytes) → has_length n o ≡ true → is_hex o ≡ true → IsHex n o
has_length-IsHex n none h k = absurd (ground arith)
has_length-IsHex n (some s) h k = (ground arith, all_xdigit-AllHex s k)

is_auth-IsAuth : (o : Option Bytes) → is_auth o ≡ true → IsAuth o
is_auth-IsAuth none h = absurd (ground arith)
is_auth-IsAuth (some s) h = h

pub accepts-IsComplete : (a : Auth) → accepts a ≡ true → IsComplete a
accepts-IsComplete a h =
    let (user, h1) = both (is_set a.user) _ h in
    let (realm, h2) = both (is_set a.realm) _ h1 in
    let (nonce, h3) = both (is_set a.nonce) _ h2 in
    let (uri, h4) = both (is_set a.uri) _ h3 in
    let (response, h5) = both (has_length 32 a.response) _ h4 in
    let (nc, h6) = both (has_length 8 a.nc) _ h5 in
    let (cnonce, h7) = both (not_empty a.cnonce) _ h6 in
    let (qop, h8) = both (is_auth a.qop) _ h7 in
    let (response_hex, nc_hex) = both (is_hex a.response) (is_hex a.nc) h8 in
    (
      is_set-IsGiven a.user user,
      is_set-IsGiven a.realm realm,
      is_set-IsGiven a.nonce nonce,
      is_set-IsGiven a.uri uri,
      has_length-IsHex 32 a.response response response_hex,
      has_length-IsHex 8 a.nc nc nc_hex,
      not_empty-IsFilled a.cnonce cnonce,
      is_auth-IsAuth a.qop qop,
    )

IsGiven-is_set : (o : Option Bytes) → IsGiven o → is_set o ≡ true
IsGiven-is_set none h = absurd h
IsGiven-is_set (some s) h = refl

IsFilled-not_empty : (o : Option Bytes) → IsFilled o → not_empty o ≡ true
IsFilled-not_empty none h = absurd h
IsFilled-not_empty (some []) h = absurd (omega arith)
IsFilled-not_empty (some (c ∷ cs)) h = refl

AllHex-all_xdigit : (s : Bytes) → AllHex s → all_xdigit s ≡ true
AllHex-all_xdigit [] h = refl
AllHex-all_xdigit (c ∷ cs) (first, rest) = rw first (AllHex-all_xdigit cs rest)

IsHex-has_length : (n : ℕ) (o : Option Bytes) → IsHex n o → has_length n o ≡ true
IsHex-has_length n none h = absurd h
IsHex-has_length n (some s) (size, hex) = ground arith

IsHex-is_hex : (n : ℕ) (o : Option Bytes) → IsHex n o → is_hex o ≡ true
IsHex-is_hex n none h = absurd h
IsHex-is_hex n (some s) (size, hex) = AllHex-all_xdigit s hex

IsAuth-is_auth : (o : Option Bytes) → IsAuth o → is_auth o ≡ true
IsAuth-is_auth none h = absurd h
IsAuth-is_auth (some s) h = h

pub IsComplete-accepts : (a : Auth) → IsComplete a → accepts a ≡ true
IsComplete-accepts a (user, realm, nonce, uri, response, nc, cnonce, qop) =
    rw
      (
        IsGiven-is_set a.user user,
        IsGiven-is_set a.realm realm,
        IsGiven-is_set a.nonce nonce,
        IsGiven-is_set a.uri uri,
        IsHex-has_length 32 a.response response,
        IsHex-has_length 8 a.nc nc,
        IsFilled-not_empty a.cnonce cnonce,
        IsAuth-is_auth a.qop qop,
        IsHex-is_hex 32 a.response response,
        IsHex-is_hex 8 a.nc nc,
      )
      refl
