-- ===== src/TargetRate/Table/Kept.antt =====
-- src/KTargetRate.cpp: a new node, and one that is used again, keep the map and the list together.
use kangle.Prelude.{
  ℕ, suc, true, false, none, some, [], ◌∷◌, ◌++◌, ◌≡◌, ◌⊎◌, refl, sym, ap, ◌∙◌, inl, inr, arith,
  ◌==◌, length-append, Bool-cases, Bytes, eq_bytes, eq_bytes_sound, eq_bytes_refl,
}
use mathlib.Core.Path.{subst}
use kangle.TextMap.{
  find, contains, remove, Distinct, contains-remove, length-remove, remove-Once, contains-append,
  append-Once,
}
use kangle.TargetRate.{new_node, hit}
use kangle.TargetRate.Table.{Node, RateTable, add_node, use_node, write_heap}
use kangle.TargetRate.Table.Linked.{IsTimed, hit-IsTimed, Linked, some_inj}

module _ (table : RateTable) (linked : Linked table) where
  not_next : (q : ℕ) → contains q table.queue ≡ true → (table.next == q) ≡ false
  not_next q there = ground (arith, linked.fresh q there)

  next_absent : contains table.next table.queue ≡ false
  next_absent = elim (Bool-cases (contains table.next table.queue)) [
    | inl there ↦ absurd (omega (arith, linked.fresh table.next there))
    | inr absent ↦ absent
  ]

  module _ (target : Bytes) (node : Node) (named : node.target ≡ target)
      (is_timed : IsTimed node.hits) (absent : find target table.nodes ≡ none) where
    abbrev added : RateTable
    added = record {
      nodes = (target, table.next) ∷ table.nodes;
      queue = table.queue ++ table.next ∷ [];
      heap = write_heap table.next node table.heap;
      next = suc table.next;
    }

    -- A node of the longer list is the new one or one of the others.
    added-cases :
        (q : ℕ)
        → contains q (table.queue ++ table.next ∷ []) ≡ true
        → (table.next ≡ q) ⊎ (((table.next == q) ≡ false) × (contains q table.queue ≡ true))
    added-cases q e = elim (Bool-cases (table.next == q)) [
      | inl same ↦ inl (ground (arith, same))
      | inr other ↦ inr (other, sym (contains-append q table.next table.queue ∙ rw other refl) ∙ e)
    ]

    entry-cases :
        (t : Bytes) (q : ℕ)
        → find t ((target, table.next) ∷ table.nodes) ≡ some q
        → ((target ≡ t) × (table.next ≡ q)) ⊎ (find t table.nodes ≡ some q)
    unfolding find
    entry-cases t q e = elim (Bool-cases (eq_bytes target t)) [
      | inl same ↦
          inl (eq_bytes_sound target t same, some_inj table.next q (sym (rw same refl) ∙ e))
      | inr other ↦ inr (sym (rw other refl) ∙ e)
    ]

    heap_next : write_heap table.next node table.heap table.next ≡ node
    heap_next = ground arith

    heap_other :
        (q : ℕ)
        → contains q table.queue ≡ true
        → write_heap table.next node table.heap q ≡ table.heap q
    heap_other q there = rw (not_next q there) refl

    added-Linked : Linked added
    unfolding find
    added-Linked = record {
      found = λ t q e. elim (entry-cases t q e) [
        | inl (name, same) ↦ contains-append q table.next table.queue ∙ rw same (ground arith)
        | inr old ↦
            contains-append q table.next table.queue ∙ rw (linked.found t q old) (ground arith)
      ];
      named = λ t q e. elim (entry-cases t q e) [
        | inl (name, same) ↦
            subst (λ (r : ℕ). (write_heap table.next node table.heap r).target ≡ t) same
              (ap (λ (n : Node). n.target) heap_next ∙ named ∙ name)
        | inr old ↦
            ap (λ (n : Node). n.target) (heap_other q (linked.found t q old)) ∙ linked.named t q old
      ];
      queued = λ q e. elim (added-cases q e) [
        | inl same ↦
            subst
              (λ (r : ℕ).
                find (write_heap table.next node table.heap r).target
                  ((target, table.next) ∷ table.nodes)
                ≡ some r)
              same (rw (heap_next, named, eq_bytes_refl target) refl)
        | inr (other, there) ↦
            ap (λ (n : Node). find n.target ((target, table.next) ∷ table.nodes))
              (heap_other q there)
            ∙ rw (old_name q there) (linked.queued q there)
      ];
      timed = λ q e. elim (added-cases q e) [
        | inl same ↦
            subst (λ (r : ℕ). IsTimed (write_heap table.next node table.heap r).hits) same
              (rw heap_next is_timed)
        | inr (other, there) ↦ rw (heap_other q there) (linked.timed q there)
      ];
      fresh = λ q e. elim (added-cases q e) [
        | inl same ↦ omega arith
        | inr (other, there) ↦ omega (arith, linked.fresh q there)
      ];
      keys = unfold Distinct in (absent, linked.keys);
      once = append-Once table.next table.queue next_absent linked.once;
      sizes = omega (arith, linked.sizes, length-append table.queue (table.next ∷ []));
    }
      where
        old_name :
            (q : ℕ) → contains q table.queue ≡ true → eq_bytes target (table.heap q).target ≡ false
        old_name q there = elim (Bool-cases (eq_bytes target (table.heap q).target)) [
          | inl same ↦
              let wrong : none ≡ some q =
                sym absent
                ∙ ap (λ (t : Bytes). find t table.nodes)
                    (eq_bytes_sound target (table.heap q).target same)
                ∙ linked.queued q there in
              cc
          | inr other ↦ other
        ]

  pub add_node-Linked :
      (target : Bytes) (request now : ℕ)
      → find target table.nodes ≡ none
      → Linked (add_node target request now table)
  unfolding add_node
  add_node-Linked target request now absent =
      added-Linked target (record { target = target; hits = hit request now new_node }) refl
        (hit-IsTimed request now new_node refl) absent

  module _ (p : ℕ) (here : contains p table.queue ≡ true) (node : Node)
      (named : node.target ≡ (table.heap p).target) (is_timed : IsTimed node.hits) where
    abbrev used : RateTable
    used = record table {
      queue = remove p table.queue ++ p ∷ [];
      heap = write_heap p node table.heap;
    }

    same_queue : (q : ℕ) → contains q (remove p table.queue ++ p ∷ []) ≡ contains q table.queue
    same_queue q =
        contains-append q p (remove p table.queue)
        ∙ rw (contains-remove p q table.queue) (elim (Bool-cases (p == q)) [
          | inl same ↦
              rw same
                (sym (subst (λ (r : ℕ). contains r table.queue ≡ true) (ground (arith, same)) here))
          | inr other ↦ rw other refl
        ])

    same_name : (q : ℕ) → (write_heap p node table.heap q).target ≡ (table.heap q).target
    same_name q = elim (Bool-cases (p == q)) [
      | inl same ↦ rw same (named ∙ ap (λ (r : ℕ). (table.heap r).target) (ground (arith, same)))
      | inr other ↦ rw other refl
    ]

    used-Linked : Linked used
    used-Linked = record {
      found = λ t q e. same_queue q ∙ linked.found t q e;
      named = λ t q e. same_name q ∙ linked.named t q e;
      queued = λ q e.
          ap (λ (t : Bytes). find t table.nodes) (same_name q)
          ∙ linked.queued q (sym (same_queue q) ∙ e);
      timed = λ q e. elim (Bool-cases (p == q)) [
        | inl same ↦ rw same is_timed
        | inr other ↦ rw other (linked.timed q (sym (same_queue q) ∙ e))
      ];
      fresh = λ q e. linked.fresh q (sym (same_queue q) ∙ e);
      keys = linked.keys;
      once =
          append-Once p (remove p table.queue) (contains-remove p p table.queue ∙ ground arith)
            (remove-Once p table.queue linked.once);
      sizes = omega (
        arith,
        linked.sizes,
        length-append (remove p table.queue) (p ∷ []),
        length-remove p table.queue linked.once here,
      );
    }

  pub use_node-Linked :
      (p request now : ℕ) → contains p table.queue ≡ true → Linked (use_node p request now table)
  unfolding use_node
  use_node-Linked p request now here =
      used-Linked p here
        (record { target = (table.heap p).target; hits = hit request now (table.heap p).hits }) refl
        (hit-IsTimed request now (table.heap p).hits ((linked.timed p here).0))
