-- ===== src/MultiServer/Cookie.antt =====
-- src/KMultiAcserver.cpp: getCookieStick, and the cookie that connect_result sets.
pub mod RoundTrip
use kangle.Prelude.{
  ℕ, zero, suc, Bool, true, false, Option, none, some, List, [], ◌∷◌, ◌++◌, ◌==◌, if◌then◌else◌,
  Bytes, cut, cons_front, codes, eq_bytes,
}
use kangle.Prelude.Int.{ℤ, pos, negsuc}
use kangle.Prelude.Number.{drop_spaces, atoi, show}

-- The texts between the semicolons.
unfoldable pub parts : Bytes → List Bytes
parts [] = [] ∷ []
parts (c ∷ cs) = let rest = parts cs in if c == b';' then [] ∷ rest else cons_front c rest

-- `atoi(eq + 1) - 1`, where a negative result stands for "no value".
abbrev pub stick_index : ℤ → Option ℕ
stick_index (pos zero) = none
stick_index (pos (suc n)) = some n
stick_index (negsuc n) = none

-- One round of the loop: what the part between two semicolons says of the cookie `name`; the outer
-- option is `none` if it is about something else.
part_value : Bytes → Bytes × Option Bytes → Option (Option ℕ)
part_value name (attr, none) = none
part_value name (attr, some value) =
    if eq_bytes attr name then some (stick_index (atoi value)) else none

-- The `break` of the loop.
abbrev pub pick : Option (Option ℕ) → Option ℕ → Option ℕ
pick none later = later
pick (some value) later = value

find_part : Bytes → List Bytes → Option ℕ
unfolding part_value
find_part name [] = none
find_part name (p ∷ ps) = pick (part_value name (cut b'=' (drop_spaces p))) (find_part name ps)

-- getCookieStick; `none` stands for a negative result.
unfoldable pub get_cookie_stick : Bytes → Bytes → Option ℕ
unfolding find_part parts cut drop_spaces atoi
get_cookie_stick attr name = find_part name (parts attr)

-- The value of the Set-Cookie header of connect_result.
unfoldable pub set_cookie : Bytes → ℕ → Bytes
unfolding show
set_cookie name stick = name ++ b'=' ∷ (show stick ++ codes "; path=/")
