-- ===== src/BigObject/Grown.antt =====
-- src/KSharedBigObject.cpp: write and close_write on the blocks in order.
use kangle.Prelude.{
  ℕ, suc, ◌+◌, ◌≤◌, ◌<◌, Bool, false, not, ◌&&◌, ◌||◌, Option, none, some, List, [], ◌∷◌, ◌++◌, ◌≡◌,
  refl, ap, sym, ◌∙◌, inl, inr, arith, ltb, leb, if◌then◌else◌, if_cases, Bool-cases, ◌==◌, length,
  take,
}
use mathlib.Core.Path.{subst}
use kangle.BigObject.{Block, Tree, RbTree, find_block_node, update, inorder}
use kangle.BigObject.InOrder.{Above, Above-append}
use kangle.BigObject.Located.{IsRbTree, following, without, following-at, without-at, first}
use kangle.BigObject.Operations.{Shared, save_progress, close, KglResult, eio, Wakeup}
use kangle.BigObject.Writes.{
  absorb, merge_next, erase_next, extend, settle, woken, write, write_block, write_file,
}
use kangle.BigObject.Valid.{
  Served, AllServed, IsGood, AllServed-append, find_block_node-Found, inorder-update_at,
  replace-IsGood,
}
use kangle.BigObject.Keeps.{merge-AllUpTo, Waits-AllUpTo, settle-Served}

-- What stays behind a block that has grown to `stop`.
abbrev pub behind : ℕ → List Block → List Block
behind stop [] = []
behind stop (c ∷ zs) = if leb c.from stop then zs else c ∷ zs

abbrev pub grow : ℕ → List Block → Block → Block
unfolding absorb settle
grow stop zs b = settle (merge_next stop (first zs) b)

grow-from : (stop : ℕ) (zs : List Block) (b : Block) → (grow stop zs b).from ≡ b.from
unfolding absorb settle
grow-from stop [] b = refl
grow-from stop (c ∷ zs) b =
    if_cases (λ (d : Block). d.from ≡ b.from) (leb c.from stop) (absorb c (extend stop b))
      (extend stop b) refl refl

module _ (rb : RbTree) (lawful : IsRbTree rb) (x stop : ℕ) (t : Tree) (b : Block) where
  erase_changed :
      (f : Block → Block) (ys zs : List Block)
      → Above 0 (ys ++ b ∷ zs)
      → (f b).from ≡ b.from
      → inorder (update x f t) ≡ ys ++ f b ∷ zs
      → inorder (erase_next rb stop (first zs) (update x f t)) ≡ ys ++ f b ∷ behind stop zs
  erase_changed f ys [] above same updated = updated
  erase_changed f ys (c ∷ zs) above same updated = elim (Bool-cases (leb c.from stop)) [
    | inl reached ↦ rw reached (
        lawful.inorder_erase c.from (update x f t)
        ∙ ap (without c.from) updated
        ∙ without-at b (f b) c zs 0 ys above same)
    | inr apart ↦ rw apart updated
  ]

  pub inorder-erase_next :
      (ys zs : List Block)
      → Above 0 (ys ++ b ∷ zs)
      → inorder t ≡ ys ++ b ∷ zs
      → b.from ≤ x
      → x ≤ b.to
      → inorder (erase_next rb stop (first zs) (update x (grow stop zs) t))
        ≡ ys ++ grow stop zs b ∷ behind stop zs
  unfolding absorb settle
  inorder-erase_next ys zs above e low high =
      erase_changed (grow stop zs) ys zs above (grow-from stop zs b)
        (inorder-update_at x (grow stop zs) t b ys zs (subst (Above 0) (sym e) above) e low high)

-- The grown block and what is behind it are as they should be.
pub grow-Served :
    (stop : ℕ) (zs : List Block) (b : Block)
    → b.from ≤ b.to
    → b.to < stop
    → Above (suc b.to) zs
    → Served b
    → AllServed zs
    → ((grow stop zs b).from ≤ (grow stop zs b).to)
      × Above (suc (grow stop zs b).to) (behind stop zs)
      × Served (grow stop zs b)
      × AllServed (behind stop zs)
unfolding absorb settle
grow-Served stop [] b fits grows above (point, waiting) served = (
  omega arith,
  tt,
  settle-Served (extend stop b) (omega arith)
      (Waits-AllUpTo b.net_fiber b.to stop b.wait_queue (omega arith) waiting),
  tt,
)
grow-Served stop (c ∷ zs) b fits grows (gap, next_fits, above) (point, waiting) (next, served) =
    elim (Bool-cases (leb c.from stop)) [
      | inl reached ↦ rw reached (
        omega arith,
        above,
        settle-Served (absorb c (extend stop b)) (omega arith) (
            merge-AllUpTo c.to b.wait_queue c.wait_queue
              (Waits-AllUpTo b.net_fiber b.to c.to b.wait_queue (omega arith) waiting)
              (Waits-AllUpTo c.net_fiber c.to c.to c.wait_queue (omega arith) next.1)),
        served,
      )
      | inr apart ↦ rw apart (
        omega arith,
        (ground arith, next_fits, above),
        settle-Served (extend stop b) (omega arith)
            (Waits-AllUpTo b.net_fiber b.to stop b.wait_queue (omega arith) waiting),
        (next, served),
      )
    ]

module _ (rb : RbTree) (lawful : IsRbTree rb) where
  -- The blocks after a write that makes a block grow.
  pub inorder-write_block :
      (offset : ℕ) (buf : List ℕ) (s : Shared) (b : Block) (ys zs : List Block)
      → IsGood s.blocks
      → inorder s.blocks ≡ ys ++ b ∷ zs
      → b.from ≤ offset
      → offset ≤ b.to
      → b.to < offset + length buf
      → inorder (write_block rb offset buf s (some b)).0.blocks
        ≡ ys ++ grow (offset + length buf) zs b ∷ behind (offset + length buf) zs
  unfolding update absorb settle woken
  inorder-write_block offset buf s b ys zs good e low high grows =
      let stop = offset + length buf in
      let above = subst (Above 0) e good.apart in
      let next =
        lawful.next_lem b.from s.blocks ∙ ap (following b.from) e ∙ following-at b zs 0 ys above in
      let outside : leb stop b.to ≡ false = ground arith in
      rw (outside, next)
        (inorder-erase_next rb lawful offset stop s.blocks b ys zs above e low high)

  pub write_block-IsGood :
      (offset : ℕ) (buf : List ℕ) (s : Shared) (o : Option Block)
      → IsGood s.blocks
      → find_block_node offset s.blocks ≡ o
      → IsGood (write_block rb offset buf s o).0.blocks
  unfolding update absorb settle woken
  write_block-IsGood offset buf s none good found = good
  write_block-IsGood offset buf s (some b) good found =
      elim (Bool-cases (leb (offset + length buf) b.to)) [
        | inl inside ↦ rw inside good
        | inr outside ↦
            let stop = offset + length buf in
            let (ys, zs, e, low, high) = find_block_node-Found offset s.blocks b good.apart found in
            let grows : b.to < stop = ground arith in
            let (front, from_low, fits, above) =
              Above-append b zs 0 ys (subst (Above 0) e good.apart) in
            let (served_front, (own, served)) =
              AllServed-append ys (b ∷ zs) (subst AllServed e good.served) in
            let (fits', above', own', served') =
              grow-Served stop zs b fits grows above own served in
            replace-IsGood s.blocks (write_block rb offset buf s (some b)).0.blocks b
              (grow stop zs b) ys zs (behind stop zs) good e
              (inorder-write_block offset buf s b ys zs good e low high grows) (grow-from stop zs b)
              fits' above' own' served'
      ]

  pub write-IsGood :
      (seeks : Bool) (written offset : ℕ) (buf : List ℕ) (s : Shared)
      → IsGood s.blocks
      → IsGood (write rb seeks written offset buf s).0.blocks
  unfolding write
  write-IsGood seeks written offset buf s good =
      let s' = record s { file = write_file offset (take written buf) s.file } in
      let rest =
        if ltb written (length buf)
        then (s', eio, [])
        else write_block rb offset buf s' (find_block_node offset s.blocks) in
      if_cases (λ (r : Shared × KglResult × List Wakeup). IsGood r.0.blocks)
        (not s.opened || not seeks) (s, eio, []) rest good
        (if_cases (λ (r : Shared × KglResult × List Wakeup). IsGood r.0.blocks)
          (ltb written (length buf)) (s', eio, [])
          (write_block rb offset buf s' (find_block_node offset s.blocks)) good
          (write_block-IsGood offset buf s' (find_block_node offset s.blocks) good refl))

pub close-blocks : (in_disk : Bool) (s : Shared) → (close in_disk s).blocks ≡ s.blocks
unfolding close
close-blocks in_disk s =
    if_cases (λ (u : Shared). u.blocks ≡ s.blocks)
      (s.read_refs == 0 && s.write_refs == 0 && s.opened)
      (record s {
        opened = false;
        saved = if in_disk then some (save_progress s.blocks) else s.saved;
      })
      s refl refl
