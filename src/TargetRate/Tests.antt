-- ===== src/TargetRate/Tests.antt =====
-- A run of the hits of one target, and the theorem about it at concrete times.
use kangle.Prelude.{ℕ, some, List, [], ◌∷◌, ◌≡◌, refl}
use kangle.Prelude.Int.{pos, ◌-ℤ◌}
use kangle.TargetRate.{new_node, hit, hits, rate_of}

above-run : rate_of 2 (hits 2 (10 ∷ 11 ∷ 15 ∷ 18 ∷ []) new_node) ≡ some (3, pos 7)
unfolding rate_of hits hit ◌-ℤ◌
above-run = refl

abbrev times : List ℕ
times = 10 ∷ 11 ∷ 15 ∷ 18 ∷ []
