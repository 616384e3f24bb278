-- ===== src/TargetRate/Table.antt =====
-- src/KTargetRate.cpp, include/KTargetRate.h: the table of the targets. A node is a pointer, a number
-- that `heap` leads to the node; `queue` is the linked list of the nodes, the one used longest ago first.
-- The times are those of time(NULL), and `idleTime` is not negative.
pub mod Linked
pub mod Kept
pub mod Order
pub mod Flush
pub mod Calls
pub mod Runs
mod Tests
use kangle.Prelude.{
  ℕ, zero, suc, ◌+◌, Bool, true, false, Option, none, some, List, [], ◌∷◌, ◌++◌, ◌==◌, ltb, leb,
  if◌then◌else◌, length, Bytes,
}
use kangle.Prelude.Int.{ℤ}
use kangle.TextMap.{find, erase, remove}
use kangle.TargetRate.{TargetNode, new_node, hit, last_time, rate_of}

-- KTargetNode, with its target.
pub record Node : Type 0 where
  target : Bytes
  hits : TargetNode

-- `next` is the pointer that the next `new` gives.
pub record RateTable : Type 0 where
  nodes : List (Bytes × ℕ)
  queue : List ℕ
  heap : ℕ → Node
  next : ℕ

-- KGL_MAX_RATE_TARGETS
abbrev pub max_rate_targets : ℕ
max_rate_targets = 200000

abbrev pub write_heap : ℕ → Node → (ℕ → Node) → ℕ → Node
write_heap p node heap q = if p == q then node else heap q

-- The node goes from the map and from the list.
unfoldable pub drop_node : ℕ → RateTable → RateTable
unfolding erase remove
drop_node p table = record table {
  nodes = erase (table.heap p).target table.nodes;
  queue = remove p table.queue;
}

abbrev pub drop_first : List ℕ → RateTable → RateTable
unfolding drop_node
drop_first [] table = table
drop_first (p ∷ queue) table = drop_node p table

unfoldable pub make_room : RateTable → RateTable
unfolding drop_first
make_room table =
    if leb max_rate_targets (length table.nodes) then drop_first table.queue table else table

unfoldable pub add_node : Bytes → ℕ → ℕ → RateTable → RateTable
unfolding hit
add_node target request now table = record {
  nodes = (target, table.next) ∷ table.nodes;
  queue = table.queue ++ table.next ∷ [];
  heap =
      write_heap table.next (record { target = target; hits = hit request now new_node })
        table.heap;
  next = suc table.next;
}

-- node->hit, removeList, addList
unfoldable pub use_node : ℕ → ℕ → ℕ → RateTable → RateTable
unfolding hit remove
use_node p request now table = record table {
  queue = remove p table.queue ++ p ∷ [];
  heap =
      write_heap p
        (record { target = (table.heap p).target; hits = hit request now (table.heap p).hits })
        table.heap;
}

abbrev pub answer : ℕ → ℕ → RateTable → Option (ℕ × ℤ) × RateTable
unfolding rate_of
answer request p table = (rate_of request (table.heap p).hits, table)

-- getRate: the new values of `request` and `t` where it gives true, and the table.
abbrev pub rate_at : Bytes → ℕ → Bool → ℕ → RateTable → Option ℕ → Option (ℕ × ℤ) × RateTable
unfolding make_room add_node use_node answer
rate_at target request hit now table none =
    if hit
    then answer request (make_room table).next (add_node target request now (make_room table))
    else (none, table)
rate_at target request hit now table (some p) =
    if hit then answer request p (use_node p request now table) else answer request p table

unfoldable pub get_rate : Bytes → ℕ → Bool → ℕ → RateTable → Option (ℕ × ℤ) × RateTable
unfolding rate_at find
get_rate target request hit now table =
    rate_at target request hit now table (find target table.nodes)

-- node->last->t
abbrev pub last_of : List ℕ → ℕ
last_of [] = 0
last_of (t ∷ ts) = last_time t ts

-- The two kasserts of flush: the map leads from the node's target to the node.
abbrev pub is_node : ℕ → Option ℕ → Bool
is_node p none = false
is_node p (some q) = q == p

unfoldable pub asserted : ℕ → RateTable → Bool
unfolding find
asserted p table = is_node p (find (table.heap p).target table.nodes)

-- flush, and `none` where an assertion fails.
unfoldable pub flush_queue : ℕ → ℕ → List ℕ → RateTable → Option RateTable
unfolding asserted drop_node
flush_queue now idle [] table = some table
flush_queue now idle (p ∷ queue) table =
    let rest = flush_queue now idle queue (drop_node p table) in
    if ltb now (last_of (table.heap p).hits.items + idle)
    then some table
    else if asserted p table
    then rest
    else none

unfoldable pub flush : ℕ → ℕ → RateTable → Option RateTable
unfolding flush_queue
flush now idle table = flush_queue now idle table.queue table

-- KTargetRate
abbrev pub empty_table : (ℕ → Node) → RateTable
empty_table heap = record { nodes = []; queue = []; heap = heap; next = 0 }
