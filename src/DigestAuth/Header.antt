-- ===== src/DigestAuth/Header.antt =====
-- src/KHttpDigestAuth.cpp: parse, on the fields into which KHttpField cuts the header at its commas.
-- A field without a value has a null pointer there.
pub mod Complete
pub mod Accepted
use kangle.Prelude.{
  ℕ, zero, suc, Bool, true, false, not, ◌&&◌, ◌||◌, Option, none, some, List, [], ◌∷◌, ◌==◌, leb,
  if◌then◌else◌, length, Bytes, codes, same, is_digit, to_lower,
}

pub record Auth : Type 0 where
  pub user : Option Bytes
  pub realm : Option Bytes
  pub nonce : Option Bytes
  pub uri : Option Bytes
  pub response : Option Bytes
  pub nc : Option Bytes
  pub cnonce : Option Bytes
  pub qop : Option Bytes

-- isxdigit
abbrev pub is_xdigit : ℕ → Bool
is_xdigit c = is_digit c || leb b'a' (to_lower c) && leb (to_lower c) b'f'

abbrev pub all_xdigit : Bytes → Bool
all_xdigit [] = true
all_xdigit (c ∷ cs) = is_xdigit c && all_xdigit cs

-- The last value of a name: the variable that the loop assigns, `old` in front of the loop.
abbrev pub last_value : Bytes → List (Bytes × Option Bytes) → Option Bytes → Option Bytes
last_value name [] old = old
last_value name ((attr, val) ∷ fields) old =
    last_value name fields (if same attr name then val else old)

-- The member `user` after the loop, and whether the loop ran to its end: a second username and one
-- without a value end it.
abbrev pub set_user : Option Bytes → Option Bytes → Option Bytes × Bool → Option Bytes × Bool
set_user none (some val) rest = rest
set_user user val rest = (user, false)

abbrev pub user_or : Option Bytes → Option Bytes → Option Bytes
user_or none val = val
user_or (some u) val = some u

unfoldable pub scan_user : List (Bytes × Option Bytes) → Option Bytes → Option Bytes × Bool
scan_user [] user = (user, true)
scan_user ((attr, val) ∷ fields) user =
    let next = scan_user fields (user_or user val) in
    let rest = scan_user fields user in
    if same attr (codes "username") then set_user user val next else rest

-- The tests behind the loop, and the members that are set in the end.
abbrev pub has_length : ℕ → Option Bytes → Bool
has_length n none = false
has_length n (some s) = length s == n

abbrev pub not_empty : Option Bytes → Bool
not_empty none = false
not_empty (some []) = false
not_empty (some (c ∷ cs)) = true

abbrev pub is_set : Option Bytes → Bool
is_set none = false
is_set (some s) = true

abbrev pub is_auth : Option Bytes → Bool
is_auth none = false
is_auth (some s) = same s (codes "auth")

abbrev pub is_hex : Option Bytes → Bool
is_hex none = false
is_hex (some s) = all_xdigit s

abbrev pub accepts : Auth → Bool
accepts a =
    is_set a.user
    && (is_set a.realm
        && (is_set a.nonce
            && (is_set a.uri
                && (has_length 32 a.response
                    && (has_length 8 a.nc
                        && (not_empty a.cnonce
                            && (is_auth a.qop && (is_hex a.response && is_hex a.nc))))))))

-- The members that a header gives, and those that a refused one leaves.
abbrev pub found_of : List (Bytes × Option Bytes) → Auth
unfolding scan_user same
found_of fields = record {
  user = (scan_user fields none).0;
  realm = last_value (codes "realm") fields none;
  nonce = last_value (codes "nonce") fields none;
  uri = last_value (codes "uri") fields none;
  response = last_value (codes "response") fields none;
  nc = last_value (codes "nc") fields none;
  cnonce = last_value (codes "cnonce") fields none;
  qop = last_value (codes "qop") fields none;
}

abbrev pub only_user : Option Bytes → Auth
only_user user = record {
  user = user;
  realm = none;
  nonce = none;
  uri = none;
  response = none;
  nc = none;
  cnonce = none;
  qop = none;
}

-- parse, on a fresh object.
unfoldable pub parse : List (Bytes × Option Bytes) → Auth × Bool
unfolding scan_user same
parse fields =
    if (scan_user fields none).1 && accepts (found_of fields)
    then (found_of fields, true)
    else (only_user (scan_user fields none).0, false)
