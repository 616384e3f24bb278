-- ===== src/TargetRate.antt =====
-- include/KTargetRate.h, src/KTargetRate.cpp: the times of the latest hits of one target, and the
-- answer of getRate on them. `items` is the chain from head to last. The number of requests that a
-- rule allows is not negative.
pub mod Window
pub mod Table
mod Tests
use kangle.Prelude.{
  ℕ, zero, suc, ◌+◌, ◌-◌, Bool, true, false, ◌&&◌, Option, none, some, List, [], ◌∷◌, ◌++◌, ltb,
  if◌then◌else◌,
}
use kangle.Prelude.Int.{ℤ, pos, ◌-ℤ◌}

pub record TargetNode : Type 0 where
  pub count : ℕ
  pub items : List ℕ

-- Init
abbrev pub new_node : TargetNode
new_node = record { count = 0; items = [] }

-- n = head->next, delete head, head = n
abbrev pub without_head : List ℕ → List ℕ
without_head [] = []
without_head (t ∷ ts) = ts

-- hit, behind the item's place at the end.
abbrev pub shorten : ℕ → TargetNode → TargetNode
shorten max_request node =
    if ltb (max_request + 1) node.count && ltb 1 node.count
    then record { count = node.count - 1; items = without_head node.items }
    else node

unfoldable pub hit : ℕ → ℕ → TargetNode → TargetNode
hit max_request now node =
    shorten max_request (record { count = node.count + 1; items = node.items ++ now ∷ [] })

-- node->last->t and node->head->t
abbrev pub last_time : ℕ → List ℕ → ℕ
last_time t [] = t
last_time t (u ∷ us) = last_time u us

-- The end of getRate: whether the count is above `request`, and then the new values of `request` and
-- `t`.
abbrev pub span : List ℕ → ℤ
unfolding ◌-ℤ◌
span [] = pos 0
span (t ∷ ts) = pos (last_time t ts) -ℤ pos t

unfoldable pub rate_of : ℕ → TargetNode → Option (ℕ × ℤ)
unfolding ◌-ℤ◌
rate_of request node = if ltb request node.count then some (node.count, span node.items) else none

-- getRate with `hit` for one target, at each of the times.
unfoldable pub hits : ℕ → List ℕ → TargetNode → TargetNode
unfolding hit
hits request [] node = node
hits request (t ∷ ts) node = hits request ts (hit request t node)
