-- ===== src/TargetRate/Table/Runs.antt =====
-- src/KTargetRate.cpp: the calls one after the other, as the lock makes them.
use kangle.Prelude.{
  ℕ, ◌≤◌, Bool, true, ◌&&◌, Option, none, some, List, [], ◌∷◌, ◌≡◌, refl, sym, ap, ◌∙◌, inl, inr,
  arith, if◌then◌else◌, Bool-cases, Option-cases, Bytes,
}
use kangle.TextMap.{find, contains, Distinct, Once}
use kangle.TargetRate.Table.{Node, RateTable, get_rate, flush, empty_table}
use kangle.TargetRate.Table.Linked.{Linked, some_inj}
use kangle.TargetRate.Table.Order.{Rising}
use kangle.TargetRate.Table.Flush.{recent, Flushed, flush-Flushed}
use kangle.TargetRate.Table.Calls.{IsTable, later-IsTable, get_rate-IsTable}

-- A call of getRate, with its arguments and the time that time(NULL) gives, or one of flush.
pub data Call : Type 0 where
  rate : Bytes → ℕ → Bool → ℕ → Call
  flush_at : ℕ → ℕ → Call

abbrev pub or_failed : (RateTable → Option RateTable) → Option RateTable → Option RateTable
or_failed next none = none
or_failed next (some table) = next table

-- The table after the calls, and `none` where an assertion fails.
unfoldable pub run : List Call → RateTable → Option RateTable
unfolding get_rate flush
run [] table = some table
run (rate target request hit now ∷ calls) table =
    run calls (get_rate target request hit now table).1
run (flush_at now idle ∷ calls) table = or_failed (λ next. run calls next) (flush now idle table)

-- The clock does not go back; `end_of` is its time after the calls.
abbrev pub InTime : ℕ → List Call → Type 0
InTime clock [] = Unit
InTime clock (rate target request hit now ∷ calls) = (clock ≤ now) × InTime now calls
InTime clock (flush_at now idle ∷ calls) = (clock ≤ now) × InTime now calls

abbrev pub end_of : ℕ → List Call → ℕ
end_of clock [] = clock
end_of clock (rate target request hit now ∷ calls) = end_of now calls
end_of clock (flush_at now idle ∷ calls) = end_of now calls

flush-IsTable :
    (clock now idle : ℕ) (table : RateTable)
    → clock ≤ now
    → IsTable clock table
    → (next : RateTable) × (flush now idle table ≡ some next) × IsTable now next
unfolding Flushed
flush-IsTable clock now idle table later good =
    let (next, done, linked, ordered, heap, short, left) =
      flush-Flushed clock now idle table good.linked good.ordered in
    (
      next,
      done,
      later-IsTable clock now next later (record {
        linked = linked;
        ordered = ordered;
        bounded = omega (arith, short, linked.sizes, good.linked.sizes, good.bounded);
      }),
    )

run-next :
    (clock : ℕ) (calls : List Call) (table : RateTable)
    → InTime clock calls
    → IsTable clock table
    → (next : RateTable) × (run calls table ≡ some next) × IsTable (end_of clock calls) next
unfolding run
run-next clock [] table in_time good = (table, refl, good)
run-next clock (rate target request hit now ∷ calls) table (later, in_time) good =
    run-next now calls (get_rate target request hit now table).1 in_time
      (get_rate-IsTable clock now target request hit table later good)
run-next clock (flush_at now idle ∷ calls) table (later, in_time) good =
    let (flushed, done, kept) = flush-IsTable clock now idle table later good in
    let (next, ran, end) = run-next now calls flushed in_time kept in (next, rw done ran, end)

pub empty_table-IsTable : (heap : ℕ → Node) → IsTable 0 (empty_table heap)
empty_table-IsTable heap = record {
  linked = record {
    found = λ t p e. absurd (unfold find in ground (arith, e));
    named = λ t p e. absurd (unfold find in ground (arith, e));
    queued = λ p e. absurd (unfold contains in ground (arith, e));
    timed = λ p e. absurd (unfold contains in ground (arith, e));
    fresh = λ p e. absurd (unfold contains in ground (arith, e));
    keys = unfold Distinct in tt;
    once = unfold Once in tt;
    sizes = refl;
  };
  ordered = record {
    rising = unfold Rising in tt;
    until = λ p e. absurd (unfold contains in ground (arith, e));
  };
  bounded = omega arith;
}

-- Any calls of getRate and flush, where the clock does not go back, leave a table: no assertion of
-- flush fails. In it the map and the list have the same nodes, each node once and with a last time, the
-- list is in the order of these times, and there are at most 200000 nodes.
pub run-IsTable :
    (heap : ℕ → Node) (calls : List Call)
    → InTime 0 calls
    → (table : RateTable) × (run calls (empty_table heap) ≡ some table)
      × IsTable (end_of 0 calls) table
run-IsTable heap calls in_time =
    run-next 0 calls (empty_table heap) in_time (empty_table-IsTable heap)

-- What flush keeps of an entry.
abbrev pub keep_recent : ℕ → ℕ → RateTable → Option ℕ → Option ℕ
keep_recent now idle table none = none
keep_recent now idle table (some p) = if recent now idle table p then some p else none

module _ (clock now idle : ℕ) (table next : RateTable) (before : Linked table) (after : Linked next)
    (heap : next.heap ≡ table.heap)
    (left : (q : ℕ)
      → contains q next.queue ≡ (contains q table.queue && recent now idle table q)) where
  same_name : (q : ℕ) → (next.heap q).target ≡ (table.heap q).target
  same_name q = ap (λ (h : ℕ → Node). (h q).target) heap

  both : (a b : Bool) → (a && b) ≡ true → (a ≡ true) × (b ≡ true)
  both a b e = (ground (arith, e), ground (arith, e))

  was_there :
      (target : Bytes) (q : ℕ)
      → find target next.nodes ≡ some q
      → (find target table.nodes ≡ some q) × (recent now idle table q ≡ true)
  was_there target q e =
      let (old, fit) =
        both (contains q table.queue) (recent now idle table q)
          (sym (left q) ∙ after.found target q e) in
      (
        ap (λ (t : Bytes). find t table.nodes) (sym (sym (same_name q) ∙ after.named target q e))
            ∙ before.queued q old,
        fit,
      )

  still_there :
      (target : Bytes) (p : ℕ)
      → find target table.nodes ≡ some p
      → recent now idle table p ≡ true
      → find target next.nodes ≡ some p
  still_there target p e fit =
      ap (λ (t : Bytes). find t next.nodes) (sym (same_name p ∙ before.named target p e))
      ∙ after.queued p (left p ∙ rw (before.found target p e, fit) refl)

  kept-entry :
      (target : Bytes)
      → find target next.nodes ≡ keep_recent now idle table (find target table.nodes)
  kept-entry target = elim (Option-cases (find target table.nodes)) [
    | inl gone ↦ rw gone (elim (Option-cases (find target next.nodes)) [
      | inl e ↦ e
      | inr (q, e) ↦ absurd (ground (arith, gone, was_there target q e))
    ])
    | inr (p, old) ↦ rw old (elim (Bool-cases (recent now idle table p)) [
      | inl fit ↦ rw fit (still_there target p old fit)
      | inr idle_one ↦ rw idle_one (elim (Option-cases (find target next.nodes)) [
        | inl e ↦ e
        | inr (q, e) ↦
            let (was, fit) = was_there target q e in
            let same : q ≡ p = some_inj q p (sym was ∙ old) in
            absurd (ground (arith, idle_one, fit, ap (recent now idle table) same))
      ])
    ])
  ]

-- flush in a table that calls lead to: it comes to its end, and a target is known afterwards exactly if
-- it was and its latest hit is less than `idle` seconds ago; the times of the nodes stay as they were.
pub flush-recent :
    (clock now idle : ℕ) (table : RateTable)
    → IsTable clock table
    → (next : RateTable) × (flush now idle table ≡ some next)
      × (next.heap ≡ table.heap)
      × ((target : Bytes)
          → find target next.nodes ≡ keep_recent now idle table (find target table.nodes))
unfolding Flushed
flush-recent clock now idle table good =
    let (next, done, linked, ordered, heap, short, left) =
      flush-Flushed clock now idle table good.linked good.ordered in
    (next, done, heap, kept-entry clock now idle table next good.linked linked heap left)
