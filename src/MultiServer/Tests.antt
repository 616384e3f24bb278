-- ===== src/MultiServer/Tests.antt =====
-- Runs of the pool of upstream servers, and the theorems about it at concrete inputs.
use kangle.Prelude.{
  ℕ, Bool, true, false, some, List, [], ◌∷◌, ◌≡◌, refl, arith, leb, if◌then◌else◌, zero, suc,
  get_elem?, codes, ◌*◌, ◌||◌,
}
use kangle.Prelude.Int.{pos}
use kangle.MultiServer.{Helper, MultiServer, build_vnode}
use kangle.MultiServer.Upstream.{Request, get_upstream}
use kangle.MultiServer.Primary.{get_upstream-Served, ServedByPrimary}
use kangle.MultiServer.Backup.{get_upstream-fastest, ServedByBackup}
use kangle.MultiServer.Weight.{count, primary_entries, backup_entries, count-build_vnode}

-- The state of a server: its weight, its probe time, whether it is up, and whether it may be tried
-- once although it is not.
record Server : Type 0 where
  tick : ℕ
  up : Bool
  try_again : Bool

abbrev api : Helper Server
api = record {
  weight = λ h. pos (if leb h.tick 10 then 2 else 0);
  avg_monitor_tick = λ h. h.tick;
  is_available = λ h. h.up || h.try_again;
  probe = λ h. if h.up then h else record h { try_again = false };
  is_enabled = λ h. h.up;
  enable = λ h. record h { up = true };
}

-- Nodes 0 and 1 are primary, 2 and 3 are backups.
abbrev servers : Bool → Bool → ℕ → Server
servers a b zero = record { tick = 5; up = a; try_again = false }
servers a b (suc zero) = record { tick = 6; up = b; try_again = false }
servers a b (suc (suc zero)) = record { tick = 30; up = true; try_again = false }
servers a b _ = record { tick = 20; up = true; try_again = false }

abbrev pool : Bool → Bool → MultiServer Server
pool a b = record {
  nodes = 0 ∷ 1 ∷ 2 ∷ 3 ∷ [];
  vnodes = 0 ∷ 0 ∷ 1 ∷ 1 ∷ [];
  bnodes = 2 ∷ 3 ∷ [];
  ip_hash = false;
  url_hash = true;
  cookie_stick = true;
  has_icp = false;
  heap = servers a b;
}

abbrev request : List (List ℕ) → Request
request cookies = record {
  cookies = cookies;
  conf_cookie_name = codes "id";
  url_value = 13;
  ip_value = 7;
  rand_value = 9;
}

vnodes_run : (build_vnode api (pool true true)).vnodes ≡ 0 ∷ 0 ∷ 1 ∷ 1 ∷ []
unfolding build_vnode
vnodes_run = refl

-- A request that sends the cookie of the answer behind another one.
abbrev returning : Request
returning = request (codes "lang=en; id=3; theme=dark" ∷ [])

get_upstream-Served_example :
    ServedByPrimary api (pool false true) (get_upstream api (pool false true) (request []))
get_upstream-Served_example = get_upstream-Served api (pool false true) (request []) 3 1 refl refl

primary_down :
    (p n : ℕ)
    → (get_elem? (0 ∷ 0 ∷ 1 ∷ 1 ∷ []) p ≡ some n)
    → ((servers false false n).up || (servers false false n).try_again) ≡ false
primary_down zero n e = ground arith
primary_down (suc zero) n e = ground arith
primary_down (suc (suc zero)) n e = ground arith
primary_down (suc (suc (suc zero))) n e = ground arith
primary_down (suc (suc (suc (suc p)))) n e = grind arith

get_upstream-fastest_example :
    ServedByBackup api (pool false false) (get_upstream api (pool false false) (request []))
get_upstream-fastest_example =
    get_upstream-fastest api (pool false false) (request []) 1 3 primary_down refl refl

count-build_vnode_example :
    (count 1 (build_vnode api (pool true true)).vnodes ≡ 1 * primary_entries (pos 2))
    × (count 1 (build_vnode api (pool true true)).bnodes ≡ 1 * backup_entries (pos 2))
count-build_vnode_example = count-build_vnode api (pool true true) 1
