-- ===== src/MultiServer/Sticky.antt =====
-- src/KMultiAcserver.cpp: the cookie of one answer brings the next request to the same server.
use kangle.Prelude.{ℕ, zero, suc, Option, none, some, List, ◌∷◌, ◌++◌, Bytes, ◌≡◌, get_elem?}
use kangle.MultiServer.{Helper, MultiServer}
use kangle.MultiServer.Cookie.{set_cookie}
use kangle.MultiServer.Cookie.RoundTrip.{IsTail, AllOther, behind, kept_cookie}
use kangle.MultiServer.Upstream.{Outcome, connect}

-- The values of the Cookie headers of a request that brings the cookie that was set with name and
-- stick: the first value has it behind other cookies, and in front of nothing or a semicolon.
abbrev pub Brings : Bytes → ℕ → List Bytes → Type 0
Brings name stick cookies =
    (others : List (Bytes × Bytes)) × (tail : Bytes) × (more : List Bytes) × AllOther name others
    × IsTail tail
    × (cookies ≡ behind others (kept_cookie (set_cookie name stick) ++ tail) ∷ more)

module _ {H : Type 0} (api : Helper H) where
  open api use {is_available}

  -- A cookie that is set names the position of the server in `vnodes`.
  abbrev pub NamesPosition : MultiServer H → MultiServer H × Outcome → Type 0
  NamesPosition s (t, connect h zero) = Unit {0}
  NamesPosition s (t, connect h (suc n)) = get_elem? s.vnodes n ≡ some h
  NamesPosition s (t, _) = Unit {0}

  -- A hint for the stick: the node of its position.
  abbrev IsHint : MultiServer H → Option ℕ → ℕ → Type 0
  IsHint s none stick = stick ≡ 0
  IsHint s (some h) zero = Unit {0}
  IsHint s (some h) (suc n) = get_elem? s.vnodes n ≡ some h
