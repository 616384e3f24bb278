-- ===== src/TargetRate/Table/Flush.antt =====
-- src/KTargetRate.cpp: flush takes the idle nodes, and its assertions hold.
use kangle.Prelude.{
  ℕ, ◌+◌, ◌≤◌, Bool, true, false, ◌&&◌, Option, none, some, List, [], ◌∷◌, ◌≡◌, refl, sym, ap, ◌∙◌,
  inl, inr, arith, ◌==◌, ltb, if◌then◌else◌, length, Bool-cases,
}
use mathlib.Core.Path.{subst}
use kangle.TextMap.{contains, remove, Once, contains-remove, remove_absent}
use kangle.TargetRate.Table.{RateTable, drop_node, asserted, flush_queue, flush}
use kangle.TargetRate.Table.Linked.{Linked, drop_node-Linked}
use kangle.TargetRate.Table.Order.{Rising, last_in, InOrder, drop_node-InOrder}

-- Whether the latest hit of a node is less than `idle` seconds ago.
abbrev pub recent : ℕ → ℕ → RateTable → ℕ → Bool
recent now idle table q = ltb now (last_in table q + idle)

-- A flush that comes to its end: what is kept are the nodes with a recent hit, with their times.
unfoldable pub Flushed : ℕ → ℕ → ℕ → RateTable → Option RateTable → Type 0
unfolding contains
Flushed clock now idle table flushed =
    (next : RateTable) × (flushed ≡ some next)
    × Linked next
    × InOrder clock next
    × (next.heap ≡ table.heap)
    × (length next.queue ≤ length table.queue)
    × ((q : ℕ) → contains q next.queue ≡ (contains q table.queue && recent now idle table q))

asserted-true :
    (p : ℕ) (table : RateTable)
    → Linked table
    → contains p table.queue ≡ true
    → asserted p table ≡ true
unfolding asserted
asserted-true p table linked here = rw (linked.queued p here) (ground arith)

dropped_queue :
    (p : ℕ) (queue : List ℕ) (table : RateTable)
    → table.queue ≡ p ∷ queue
    → Once table.queue
    → (drop_node p table).queue ≡ queue
unfolding drop_node Once
dropped_queue p queue table e once =
    ap (remove p) e
    ∙ (unfold remove in
        rw (refl_test p) (remove_absent p queue ((subst (λ (l : List ℕ). Once l) e once).0)))
  where
    refl_test : (n : ℕ) → (n == n) ≡ true
    refl_test n = ground arith

-- The first node of the list is recent, and so are the others.
all_recent :
    (now idle p q : ℕ) (queue : List ℕ) (table : RateTable)
    → Rising (last_in table) (p ∷ queue)
    → recent now idle table p ≡ true
    → contains q (p ∷ queue) ≡ (contains q (p ∷ queue) && recent now idle table q)
unfolding Rising
all_recent now idle p q queue table (low, rising) first =
    elim (Bool-cases (contains q (p ∷ queue))) [
      | inr e ↦ rw e refl
      | inl e ↦ rw e (elim (Bool-cases (p == q)) [
        | inl same ↦
            let e' : p ≡ q = ground (arith, same) in
            sym (subst (λ (r : ℕ). recent now idle table r ≡ true) e' first)
        | inr other ↦
            let there : contains q queue ≡ true = sym (unfold contains in rw other refl) ∙ e in
            ground (arith, first, low q there)
      ])
    ]

dropped_too :
    (now idle p q : ℕ) (table : RateTable)
    → recent now idle table p ≡ false
    → (contains q (remove p table.queue) && recent now idle table q)
      ≡ (contains q table.queue && recent now idle table q)
dropped_too now idle p q table idle_one =
    rw (contains-remove p q table.queue) (elim (Bool-cases (p == q)) [
      | inl same ↦
          let e' : p ≡ q = ground (arith, same) in
          rw (same, subst (λ (r : ℕ). recent now idle table r ≡ false) e' idle_one)
            (sym (and_false (contains q table.queue)))
      | inr other ↦ rw other refl
    ])
  where
    and_false : (b : Bool) → (b && false) ≡ false
    and_false true = refl
    and_false false = refl

le_refl_length : (table : RateTable) → length table.queue ≤ length table.queue
le_refl_length table = omega arith

flush_queue-first :
    (now idle p : ℕ) (queue : List ℕ) (table : RateTable)
    → flush_queue now idle (p ∷ queue) table ≡ (
        if recent now idle table p
        then some table
        else if asserted p table
        then flush_queue now idle queue (drop_node p table)
        else none)
unfolding flush_queue
flush_queue-first now idle p queue table = refl

flush_queue-Flushed :
    (clock now idle : ℕ) (queue : List ℕ) (table : RateTable)
    → table.queue ≡ queue
    → Linked table
    → InOrder clock table
    → Flushed clock now idle table (flush_queue now idle queue table)
unfolding Flushed
flush_queue-Flushed clock now idle [] table e linked ordered = (
  table,
  unfold flush_queue in refl,
  linked,
  ordered,
  refl,
  le_refl_length table,
  λ q. unfold contains in rw e refl,
)
flush_queue-Flushed clock now idle (p ∷ queue) table e linked ordered =
    elim (Bool-cases (recent now idle table p)) [
      | inl first ↦ (
        table,
        flush_queue-first now idle p queue table ∙ rw first refl,
        linked,
        ordered,
        refl,
        le_refl_length table,
        λ q. rw e (
            all_recent now idle p q queue table (subst (Rising (last_in table)) e ordered.rising)
              first),
      )
      | inr idle_one ↦
          let (next, done, good, kept, heap, short, left) =
            flush_queue-Flushed clock now idle queue (drop_node p table)
              (dropped_queue p queue table e linked.once) (drop_node-Linked table linked p here)
              (drop_node-InOrder clock p table ordered) in
          (
            next,
            flush_queue-first now idle p queue table
                ∙ rw (idle_one, asserted-true p table linked here) done,
            good,
            kept,
            heap ∙ (unfold drop_node in refl),
            omega
                (arith, short, ap length (dropped_queue p queue table e linked.once), ap length e),
            λ q. left q ∙ (unfold drop_node in dropped_too now idle p q table idle_one),
          )
    ]
  where
    here : contains p table.queue ≡ true
    here = unfold contains in rw e (ground arith)

pub flush-Flushed :
    (clock now idle : ℕ) (table : RateTable)
    → Linked table
    → InOrder clock table
    → Flushed clock now idle table (flush now idle table)
unfolding flush
flush-Flushed clock now idle table = flush_queue-Flushed clock now idle table.queue table refl
