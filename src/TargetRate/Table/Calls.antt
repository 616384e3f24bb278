-- ===== src/TargetRate/Table/Calls.antt =====
-- src/KTargetRate.cpp: every run of getRate and flush.
use kangle.Prelude.{
  ℕ, ◌≤◌, ◌<◌, Bool, true, false, Option, none, some, List, [], ◌∷◌, ◌≡◌, refl, ap, ◌∙◌, inl, inr,
  arith, leb, length, Bool-cases, Bytes,
}
use kangle.TextMap.{find, contains, find-erase, length-erase}
use kangle.TargetRate.Table.{
  RateTable, max_rate_targets, drop_node, drop_first, make_room, add_node, use_node, answer,
  rate_at, get_rate,
}
use kangle.TargetRate.Table.Linked.{Linked, drop_node-Linked}
use kangle.TargetRate.Table.Kept.{add_node-Linked, use_node-Linked}
use kangle.TargetRate.Table.Order.{InOrder, drop_node-InOrder, use_node-InOrder, add_node-InOrder}

-- What holds between the calls.
pub record IsTable (clock : ℕ) (table : RateTable) : Type 0 where
  pub linked : Linked table
  pub ordered : InOrder clock table
  pub bounded : length table.nodes ≤ max_rate_targets

-- A table with a place for one more node, and without one of the name.
record HasRoom (clock : ℕ) (target : Bytes) (table : RateTable) : Type 0 where
  linked : Linked table
  ordered : InOrder clock table
  room : length table.nodes < max_rate_targets
  absent : find target table.nodes ≡ none

drop_node-HasRoom :
    (clock p : ℕ) (target : Bytes) (table : RateTable)
    → IsTable clock table
    → contains p table.queue ≡ true
    → find target table.nodes ≡ none
    → HasRoom clock target (drop_node p table)
drop_node-HasRoom clock p target table good here absent = record {
  linked = drop_node-Linked table good.linked p here;
  ordered = drop_node-InOrder clock p table good.ordered;
  room =
      unfold drop_node in
      omega (
        arith,
        good.bounded,
        length-erase (table.heap p).target p table.nodes good.linked.keys
            (good.linked.queued p here),
      );
  absent =
      unfold drop_node in
      find-erase (table.heap p).target target table.nodes ∙ rw absent (ground arith);
}

drop_first-HasRoom :
    (clock : ℕ) (target : Bytes) (queue : List ℕ) (table : RateTable)
    → IsTable clock table
    → table.queue ≡ queue
    → max_rate_targets ≤ length table.nodes
    → find target table.nodes ≡ none
    → HasRoom clock target (drop_first queue table)
unfolding drop_first
drop_first-HasRoom clock target [] table good e full absent =
    absurd (omega (arith, full, good.linked.sizes, ap length e))
drop_first-HasRoom clock target (p ∷ queue) table good e full absent =
    drop_node-HasRoom clock p target table good (unfold contains in rw e (ground arith)) absent

make_room-HasRoom :
    (clock : ℕ) (target : Bytes) (table : RateTable)
    → IsTable clock table
    → find target table.nodes ≡ none
    → HasRoom clock target (make_room table)
unfolding make_room
make_room-HasRoom clock target table good absent =
    elim (Bool-cases (leb max_rate_targets (length table.nodes))) [
      | inl full ↦ rw full (
          drop_first-HasRoom clock target table.queue table good refl (ground (arith, full)) absent)
      | inr room ↦ rw room (record {
        linked = good.linked;
        ordered = good.ordered;
        room = ground (arith, room);
        absent = absent;
      })
    ]

later-InOrder :
    (clock now : ℕ) (table : RateTable) → clock ≤ now → InOrder clock table → InOrder now table
later-InOrder clock now table later ordered = record {
  rising = ordered.rising;
  until = λ p here. omega (arith, ordered.until p here);
}

add_node-IsTable :
    (clock now request : ℕ) (target : Bytes) (table : RateTable)
    → clock ≤ now
    → HasRoom clock target table
    → IsTable now (add_node target request now table)
add_node-IsTable clock now request target table later has = record {
  linked = add_node-Linked table has.linked target request now has.absent;
  ordered = add_node-InOrder clock now request target table later has.linked.fresh has.ordered;
  bounded = unfold add_node in omega (arith, has.room);
}

use_node-IsTable :
    (clock now p request : ℕ) (table : RateTable)
    → clock ≤ now
    → IsTable clock table
    → contains p table.queue ≡ true
    → IsTable now (use_node p request now table)
use_node-IsTable clock now p request table later good here = record {
  linked = use_node-Linked table good.linked p request now here;
  ordered =
      use_node-InOrder clock now p request table later ((good.linked.timed p here).0) good.ordered;
  bounded = unfold use_node in good.bounded;
}

pub later-IsTable :
    (clock now : ℕ) (table : RateTable) → clock ≤ now → IsTable clock table → IsTable now table
later-IsTable clock now table later good = record {
  linked = good.linked;
  ordered = later-InOrder clock now table later good.ordered;
  bounded = good.bounded;
}

rate_at-IsTable :
    (clock now : ℕ) (target : Bytes) (request : ℕ) (hit : Bool) (table : RateTable)
    (entry : Option ℕ)
    → clock ≤ now
    → IsTable clock table
    → find target table.nodes ≡ entry
    → IsTable now (rate_at target request hit now table entry).1
unfolding rate_at answer
rate_at-IsTable clock now target request true table none later good e =
    add_node-IsTable clock now request target (make_room table) later
      (make_room-HasRoom clock target table good e)
rate_at-IsTable clock now target request false table none later good e =
    later-IsTable clock now table later good
rate_at-IsTable clock now target request true table (some p) later good e =
    use_node-IsTable clock now p request table later good (good.linked.found target p e)
rate_at-IsTable clock now target request false table (some p) later good e =
    later-IsTable clock now table later good

pub get_rate-IsTable :
    (clock now : ℕ) (target : Bytes) (request : ℕ) (hit : Bool) (table : RateTable)
    → clock ≤ now
    → IsTable clock table
    → IsTable now (get_rate target request hit now table).1
unfolding get_rate
get_rate-IsTable clock now target request hit table later good =
    rate_at-IsTable clock now target request hit table (find target table.nodes) later good refl
