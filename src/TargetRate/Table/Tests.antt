-- ===== src/TargetRate/Table/Tests.antt =====
-- src/KTargetRate.cpp: calls for two targets, and the theorems at them.
use kangle.Prelude.{
  ℕ, Bool, true, false, Option, none, some, List, [], ◌∷◌, ◌≡◌, refl, arith, Bytes, codes, eq_bytes,
  is_some,
}
use kangle.TextMap.{find}
use kangle.TargetRate.{new_node}
use kangle.TargetRate.Table.{Node, RateTable, get_rate, flush, empty_table}
use kangle.TargetRate.Table.Calls.{IsTable, get_rate-IsTable}
use kangle.TargetRate.Table.Runs.{
  Call, rate, flush_at, run, run-IsTable, keep_recent, flush-recent, empty_table-IsTable,
}

abbrev no_heap : ℕ → Node
no_heap p = record { target = []; hits = new_node }

abbrev calls : List Call
calls =
    rate (codes "a") 1 true 10
    ∷ rate (codes "b") 1 true 12
    ∷ rate (codes "a") 1 true 15
    ∷ flush_at 20 6
    ∷ []

-- After the calls "b" is not known, since its hit is too long ago.
known : Bytes → Option RateTable → Bool
known target none = false
known target (some table) = is_some (find target table.nodes)

a_stays : known (codes "a") (run calls (empty_table no_heap)) ≡ true
unfolding known run get_rate flush eq_bytes
a_stays = refl

b_goes : known (codes "b") (run calls (empty_table no_heap)) ≡ false
unfolding known run get_rate flush eq_bytes
b_goes = refl

run-IsTable_example :
    (table : RateTable) × (run calls (empty_table no_heap) ≡ some table) × IsTable 20 table
run-IsTable_example = run-IsTable no_heap calls (omega arith)

abbrev two_targets : RateTable
unfolding get_rate
two_targets =
    (get_rate (codes "b") 1 true 12 (get_rate (codes "a") 1 true 10 (empty_table no_heap)).1).1

two_targets-IsTable : IsTable 12 two_targets
unfolding two_targets
two_targets-IsTable =
    get_rate-IsTable 10 12 (codes "b") 1 true
      (get_rate (codes "a") 1 true 10 (empty_table no_heap)).1 (omega arith)
      (get_rate-IsTable 0 10 (codes "a") 1 true (empty_table no_heap) (omega arith)
        (empty_table-IsTable no_heap))

flush-recent_example :
    (next : RateTable) × (flush 18 7 two_targets ≡ some next)
    × (next.heap ≡ two_targets.heap)
    × ((target : Bytes)
        → find target next.nodes ≡ keep_recent 18 7 two_targets (find target two_targets.nodes))
flush-recent_example = flush-recent 12 18 7 two_targets two_targets-IsTable
