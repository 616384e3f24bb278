-- ===== src/TargetRate/Table/Order.antt =====
-- src/KTargetRate.cpp: the list is in the order of the nodes' last times.
use kangle.Prelude.{
  ℕ, ◌+◌, ◌≤◌, ◌<◌, true, false, ◌&&◌, List, [], ◌∷◌, ◌++◌, ◌≡◌, refl, sym, ap, ◌∙◌, inl, inr,
  arith, ◌==◌, ltb, if◌then◌else◌, length, Bool-cases, Bytes,
}
use mathlib.Core.Path.{subst}
use kangle.TextMap.{contains, remove, contains-remove, contains-append}
use kangle.TargetRate.{TargetNode, new_node, without_head, hit, last_time}
use kangle.TargetRate.Table.{Node, RateTable, last_of, write_heap, drop_node, use_node, add_node}

-- The last time of a node after a hit is that of the hit.
last_time-append : (t now : ℕ) (items : List ℕ) → last_time t (items ++ now ∷ []) ≡ now
last_time-append t now [] = refl
last_time-append t now (u ∷ items) = last_time-append u now items

last_of-append : (now : ℕ) (items : List ℕ) → last_of (items ++ now ∷ []) ≡ now
last_of-append now [] = refl
last_of-append now (t ∷ items) = last_time-append t now items

last_of-without_head :
    (now : ℕ) (items : List ℕ) → 0 < length items → last_of (without_head (items ++ now ∷ [])) ≡ now
last_of-without_head now [] some_time = absurd (omega arith)
last_of-without_head now (t ∷ items) some_time = last_of-append now items

pub last_of-hit :
    (request now : ℕ) (node : TargetNode)
    → node.count ≡ length node.items
    → last_of (hit request now node).items ≡ now
unfolding hit
last_of-hit request now node counted =
    elim (Bool-cases (ltb (request + 1) (node.count + 1) && ltb 1 (node.count + 1))) [
      | inl full ↦ rw full (last_of-without_head now node.items (ground (arith, full, counted)))
      | inr room ↦ rw room (last_of-append now node.items)
    ]

unfoldable pub Rising : (ℕ → ℕ) → List ℕ → Type 0
unfolding contains
Rising last [] = Unit
Rising last (q ∷ queue) = ((r : ℕ) → contains r queue ≡ true → last q ≤ last r) × Rising last queue

remove-Rising :
    (last : ℕ → ℕ) (p : ℕ) (queue : List ℕ) → Rising last queue → Rising last (remove p queue)
unfolding Rising remove
remove-Rising last p [] rising = tt
remove-Rising last p (q ∷ queue) (low, rising) = elim (Bool-cases (q == p)) [
  | inl same ↦ rw same (remove-Rising last p queue rising)
  | inr other ↦ rw other (
    λ r e. low r (ground (arith, e, contains-remove p r queue)),
    remove-Rising last p queue rising,
  )
]

append-Rising :
    (last last' : ℕ → ℕ) (p : ℕ) (queue : List ℕ)
    → ((r : ℕ) → contains r queue ≡ true → last' r ≡ last r)
    → ((r : ℕ) → contains r queue ≡ true → last r ≤ last' p)
    → Rising last queue
    → Rising last' (queue ++ p ∷ [])
unfolding Rising contains
append-Rising last last' p [] same high rising = (λ r e. absurd (ground (arith, e)), tt)
append-Rising last last' p (q ∷ queue) same high (low, rising) = (
  first,
  append-Rising last last' p queue (λ r e. same r (later r e)) (λ r e. high r (later r e)) rising,
)
  where
    later : (r : ℕ) → contains r queue ≡ true → contains r (q ∷ queue) ≡ true
    later r e = ground (arith, e)

    here : contains q (q ∷ queue) ≡ true
    here = ground arith

    first : (r : ℕ) → contains r (queue ++ p ∷ []) ≡ true → last' q ≤ last' r
    first r e = elim (Bool-cases (p == r)) [
      | inl this ↦
          let e' : p ≡ r = ground (arith, this) in
          let bound : last' q ≤ last' p = omega (arith, same q here, high q here) in
          subst (λ (s : ℕ). last' q ≤ last' s) e' bound
      | inr other ↦
          let there : contains r queue ≡ true =
            ground (arith, e, contains-append r p queue, other) in
          omega (arith, same q here, same r (later r there), low r there)
    ]

abbrev pub last_in : RateTable → ℕ → ℕ
last_in table p = last_of (table.heap p).hits.items

-- The order of the list, and that no time is later than the clock.
pub record InOrder (clock : ℕ) (table : RateTable) : Type 0 where
  pub rising : Rising (last_in table) table.queue
  pub until : (p : ℕ) → contains p table.queue ≡ true → last_in table p ≤ clock

pub drop_node-InOrder :
    (clock p : ℕ) (table : RateTable) → InOrder clock table → InOrder clock (drop_node p table)
unfolding drop_node
drop_node-InOrder clock p table ordered = record {
  rising = remove-Rising (last_in table) p table.queue ordered.rising;
  until = λ q e. ordered.until q (ground (arith, e, contains-remove p q table.queue));
}

-- A node at the end of the list with the present time.
latest-InOrder :
    (clock now p : ℕ) (table next : RateTable) (queue : List ℕ)
    → clock ≤ now
    → next.queue ≡ queue ++ p ∷ []
    → last_in next p ≡ now
    → ((q : ℕ) → contains q queue ≡ true → last_in next q ≡ last_in table q)
    → Rising (last_in table) queue
    → ((q : ℕ) → contains q queue ≡ true → last_in table q ≤ clock)
    → InOrder now next
latest-InOrder clock now p table next queue later e time same rising until = record {
  rising = rw e (
      append-Rising (last_in table) (last_in next) p queue same
        (λ r there. omega (arith, time, until r there)) rising);
  until = λ q there. at q (sym (ap (contains q) e ∙ contains-append q p queue) ∙ there);
}
  where
    at : (q : ℕ) → (if p == q then true else contains q queue) ≡ true → last_in next q ≤ now
    at q there = elim (Bool-cases (p == q)) [
      | inl this ↦
          let e' : p ≡ q = ground (arith, this) in
          subst (λ (s : ℕ). last_in next s ≤ now) e' (omega (arith, time))
      | inr other ↦
          let old : contains q queue ≡ true = sym (rw other refl) ∙ there in
          omega (arith, same q old, until q old)
    ]

last_at :
    (table : RateTable) (p q now : ℕ) (node : Node)
    → (p == q) ≡ true
    → last_of node.hits.items ≡ now
    → last_of (write_heap p node table.heap q).hits.items ≡ now
last_at table p q now node same e = rw same e

pub use_node-InOrder :
    (clock now p request : ℕ) (table : RateTable)
    → clock ≤ now
    → (table.heap p).hits.count ≡ length (table.heap p).hits.items
    → InOrder clock table
    → InOrder now (use_node p request now table)
unfolding use_node
use_node-InOrder clock now p request table later counted ordered =
    latest-InOrder clock now p table _ (remove p table.queue) later refl
      (last_at table p p now _ (ground arith) (last_of-hit request now (table.heap p).hits counted))
      (λ q e. rw (others q e) refl) (remove-Rising (last_in table) p table.queue ordered.rising)
      (λ q e. ordered.until q (ground (arith, e, contains-remove p q table.queue)))
  where
    others : (q : ℕ) → contains q (remove p table.queue) ≡ true → (p == q) ≡ false
    others q e = ground (arith, e, contains-remove p q table.queue)

pub add_node-InOrder :
    (clock now request : ℕ) (target : Bytes) (table : RateTable)
    → clock ≤ now
    → ((q : ℕ) → contains q table.queue ≡ true → q < table.next)
    → InOrder clock table
    → InOrder now (add_node target request now table)
unfolding add_node
add_node-InOrder clock now request target table later fresh ordered =
    latest-InOrder clock now table.next table _ table.queue later refl
      (last_at table table.next table.next now _ (ground arith)
        (last_of-hit request now new_node refl))
      (λ q e. rw (others q e) refl) ordered.rising ordered.until
  where
    others : (q : ℕ) → contains q table.queue ≡ true → (table.next == q) ≡ false
    others q e = ground (arith, fresh q e)
