-- ===== src/TargetRate/Table/Linked.antt =====
-- src/KTargetRate.cpp: the map and the list of the targets have the same nodes.
use kangle.Prelude.{
  ℕ, ◌+◌, ◌-◌, ◌<◌, true, false, ◌&&◌, some, List, [], ◌∷◌, ◌++◌, ◌≡◌, refl, sym, ap, ◌∙◌, inl, inr,
  arith, ◌==◌, ltb, length, length-append, Bool-cases, Bytes, eq_bytes, eq_bytes_sound,
  eq_bytes_refl,
}
use kangle.TextMap.{
  find, erase, contains, remove, Distinct, Once, find-erase, length-erase, erase-Distinct,
  contains-remove, length-remove, remove-Once,
}
use kangle.TargetRate.{TargetNode, without_head, hit}
use kangle.TargetRate.Table.{RateTable, drop_node}

-- A node has as many times as its count says, and one at least, so that its last one can be read.
abbrev pub IsTimed : TargetNode → Type 0
IsTimed node = (node.count ≡ length node.items) × (0 < node.count)

length-without_head : (items : List ℕ) → length (without_head items) ≡ length items - 1
length-without_head [] = omega arith
length-without_head (t ∷ items) = omega arith

pub hit-IsTimed :
    (request now : ℕ) (node : TargetNode)
    → node.count ≡ length node.items
    → IsTimed (hit request now node)
unfolding hit
hit-IsTimed request now node counted =
    let longer = length-append node.items (now ∷ []) in
    elim (Bool-cases (ltb (request + 1) (node.count + 1) && ltb 1 (node.count + 1))) [
      | inl full ↦ rw full (
        omega (arith, counted, longer, length-without_head (node.items ++ now ∷ [])),
        ground (arith, full),
      )
      | inr room ↦ rw room (omega (arith, counted, longer), omega arith)
    ]

-- Whatever the map leads to is in the list and has that name, and the map leads to whatever is in the
-- list; no name and no node is there twice.
pub record Linked (table : RateTable) : Type 0 where
  pub found :
      (target : Bytes) (p : ℕ) → find target table.nodes ≡ some p → contains p table.queue ≡ true
  pub named :
      (target : Bytes) (p : ℕ) → find target table.nodes ≡ some p → (table.heap p).target ≡ target
  pub queued :
      (p : ℕ) → contains p table.queue ≡ true → find (table.heap p).target table.nodes ≡ some p
  pub timed : (p : ℕ) → contains p table.queue ≡ true → IsTimed (table.heap p).hits
  pub fresh : (p : ℕ) → contains p table.queue ≡ true → p < table.next
  pub keys : Distinct table.nodes
  pub once : Once table.queue
  pub sizes : length table.nodes ≡ length table.queue

pub some_inj : (a b : ℕ) → some a ≡ some b → a ≡ b
some_inj a b e = ground (arith, e)

-- What stays in the list when a node goes.
pub stays :
    (p q : ℕ) (queue : List ℕ)
    → contains q (remove p queue) ≡ true
    → ((p == q) ≡ false) × (contains q queue ≡ true)
stays p q queue e = elim (Bool-cases (p == q)) [
  | inl same ↦ absurd (ground (arith, e, contains-remove p q queue, same))
  | inr other ↦ (other, ground (arith, e, contains-remove p q queue, other))
]

entry_stays :
    (key target : Bytes) (q : ℕ) (nodes : List (Bytes × ℕ))
    → find target (erase key nodes) ≡ some q
    → (eq_bytes key target ≡ false) × (find target nodes ≡ some q)
entry_stays key target q nodes e = elim (Bool-cases (eq_bytes key target)) [
  | inl same ↦ absurd (ground (arith, e, find-erase key target nodes, same))
  | inr other ↦ (other, sym (find-erase key target nodes ∙ rw other refl) ∙ e)
]

module _ (table : RateTable) (linked : Linked table) where
  -- Two nodes of the list have different names.
  names_differ :
      (p q : ℕ)
      → contains p table.queue ≡ true
      → contains q table.queue ≡ true
      → (p == q) ≡ false
      → eq_bytes (table.heap p).target (table.heap q).target ≡ false
  names_differ p q here there differ =
      elim (Bool-cases (eq_bytes (table.heap p).target (table.heap q).target)) [
        | inl same ↦
            let e : p ≡ q = some_inj p q (
              sym (linked.queued p here)
              ∙ ap (λ (t : Bytes). find t table.nodes)
                  (eq_bytes_sound (table.heap p).target (table.heap q).target same)
              ∙ linked.queued q there) in
            absurd (ground (arith, e, differ))
        | inr other ↦ other
      ]

  pub drop_node-Linked : (p : ℕ) → contains p table.queue ≡ true → Linked (drop_node p table)
  unfolding drop_node
  drop_node-Linked p here = record {
    found = λ target q e.
        (let (other, before) = entry_stays (table.heap p).target target q table.nodes e in
          contains-remove p q table.queue
          ∙ rw (apart target q other before) (linked.found target q before));
    named = λ target q e.
        linked.named target q ((entry_stays (table.heap p).target target q table.nodes e).1);
    queued = λ q e.
        (let (differ, there) = stays p q table.queue e in
          find-erase (table.heap p).target (table.heap q).target table.nodes
          ∙ rw (names_differ p q here there differ) (linked.queued q there));
    timed = λ q e. linked.timed q ((stays p q table.queue e).1);
    fresh = λ q e. linked.fresh q ((stays p q table.queue e).1);
    keys = erase-Distinct (table.heap p).target table.nodes linked.keys;
    once = remove-Once p table.queue linked.once;
    sizes = omega (
      arith,
      linked.sizes,
      length-erase (table.heap p).target p table.nodes linked.keys (linked.queued p here),
      length-remove p table.queue linked.once here,
    );
  }
    where
      apart :
          (target : Bytes) (q : ℕ)
          → eq_bytes (table.heap p).target target ≡ false
          → find target table.nodes ≡ some q
          → (p == q) ≡ false
      apart target q other before = elim (Bool-cases (p == q)) [
        | inl same ↦
            let e : p ≡ q = ground (arith, same) in
            let wrong : false ≡ true =
              sym other
              ∙ ap (λ (r : ℕ). eq_bytes (table.heap r).target target) e
              ∙ ap (λ (t : Bytes). eq_bytes t target) (linked.named target q before)
              ∙ eq_bytes_refl target in
            cc
        | inr differ ↦ differ
      ]
