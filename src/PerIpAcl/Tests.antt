-- ===== src/PerIpAcl/Tests.antt =====
-- include/KPerIpAcl.h, src/KPerIpAcl.cpp: a run of two clients, and the theorem at it.
use kangle.Prelude.{ℕ, true, false, List, [], ◌∷◌, ◌≡◌, refl, arith, Bytes, codes, eq_bytes}
use kangle.PerIpAcl.{Event, request, closed, match, steps, new_acl}
use kangle.PerIpAcl.Counted.{Counted, turned_away}
use kangle.PerIpAcl.Limit.{steps-turned_away}

abbrev client : Bytes
client = codes "10.0.0.1"

-- Two connections of a client, two requests on the first of them, and another client that leaves.
abbrev events : List Event
events =
    request 1 client
    ∷ request 2 client
    ∷ request 3 (codes "10.0.0.2")
    ∷ request 1 client
    ∷ closed 3
    ∷ []

third_is_denied : (match 4 client (steps events (new_acl 2))).0 ≡ true
unfolding match steps eq_bytes
third_is_denied = refl

second_is_not : (match 2 client (steps events (new_acl 2))).0 ≡ false
unfolding match steps eq_bytes
second_is_not = refl

third_after_end : (match 4 client (steps (closed 1 ∷ []) (steps events (new_acl 2)))).0 ≡ false
unfolding match steps eq_bytes
third_after_end = refl

steps-turned_away_example :
    (Counted 2 (steps events (new_acl 2)))
    × ((pool : ℕ) (ip : Bytes)
        → (match pool ip (steps events (new_acl 2))).0
          ≡ turned_away 2 pool ip (steps events (new_acl 2)))
steps-turned_away_example = steps-turned_away 2 events (omega arith)
