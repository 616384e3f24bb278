-- ===== src/TargetRate/Window.antt =====
-- include/KTargetRate.h: the kept times are the latest ones.
use kangle.Prelude.{ℕ, ◌+◌, ◌-◌, min, List, ◌≡◌, length, drop}
use kangle.TargetRate.{TargetNode}

-- The latest `k` of the times.
abbrev pub latest : ℕ → List ℕ → List ℕ
latest k times = drop (length times - k) times

-- What a node knows of all the hits so far.
abbrev pub Keeps : ℕ → TargetNode → List ℕ → Type 0
Keeps m node times = (node.count ≡ min (length times) (m + 1)) × (node.items ≡ latest (m + 1) times)
