-- ===== src/BigObject/Valid.antt =====
-- src/KSharedBigObject.cpp: what holds of the blocks between the operations.
use kangle.Prelude.{
  ℕ, suc, ◌≤◌, true, Option, none, some, List, [], ◌∷◌, ◌++◌, ◌≡◌, ap, sym, ◌∙◌, inl, inr, arith,
  Option-cases, is_some,
}
use mathlib.Core.Path.{subst}
use kangle.BigObject.{
  Reader, Block, Tree, new_block, RbTree, find_block_node, link, insert, update, inorder,
}
use kangle.BigObject.InOrder.{
  Above, Above-append, find, place, find_block_node-find, inorder-link, inorder-update,
}
use kangle.BigObject.Located.{
  IsRbTree, Found, find-Found, place-at, Above-replace, find-at, find-Gap,
}

-- Readers that wait are at the end of the block, and the block has a writer.
abbrev pub Waits : Option ℕ → ℕ → List Reader → Type 0
Waits writer stop [] = Unit
Waits writer stop (r ∷ rs) = (r.from ≡ stop) × (is_some writer ≡ true) × Waits writer stop rs

abbrev pub Served : Block → Type 0
Served b = (b.read_point ≤ b.to) × Waits b.net_fiber b.to b.wait_queue

abbrev pub AllServed : List Block → Type 0
AllServed [] = Unit
AllServed (b ∷ bs) = Served b × AllServed bs

-- The blocks are in order and apart, and each waiting reader is served.
pub record IsGood (t : Tree) : Type 0 where
  pub apart : Above 0 (inorder t)
  pub served : AllServed (inorder t)

pub AllServed-append : (ys zs : List Block) → AllServed (ys ++ zs) → AllServed ys × AllServed zs
AllServed-append [] zs h = (tt, h)
AllServed-append (y ∷ ys) zs (own, rest) =
    let (front, back) = AllServed-append ys zs rest in ((own, front), back)

pub append-AllServed : (ys zs : List Block) → AllServed ys → AllServed zs → AllServed (ys ++ zs)
append-AllServed [] zs front back = back
append-AllServed (y ∷ ys) zs (own, front) back = (own, append-AllServed ys zs front back)

-- The block that find_block_node has found, with its neighbours.
pub find_block_node-Found :
    (x : ℕ) (t : Tree) (b : Block)
    → Above 0 (inorder t)
    → find_block_node x t ≡ some b
    → Found x (inorder t) b
find_block_node-Found x t b above h =
    find-Found x (inorder t) b (sym (find_block_node-find x 0 t above) ∙ h)

pub inorder-update_at :
    (x : ℕ) (f : Block → Block) (t : Tree) (b : Block) (ys zs : List Block)
    → Above 0 (inorder t)
    → inorder t ≡ ys ++ b ∷ zs
    → b.from ≤ x
    → x ≤ b.to
    → inorder (update x f t) ≡ ys ++ f b ∷ zs
inorder-update_at x f t b ys zs above e low high =
    inorder-update x 0 f t above
    ∙ ap (λ (bs : List Block). place x [] f bs) e
    ∙ place-at b zs x 0 [] f ys (subst (Above 0) e above) low high

-- The blocks after a change of one block, and perhaps of those behind it.
pub replace-IsGood :
    (t t' : Tree) (b b' : Block) (ys zs zs' : List Block)
    → IsGood t
    → inorder t ≡ ys ++ b ∷ zs
    → inorder t' ≡ ys ++ b' ∷ zs'
    → b'.from ≡ b.from
    → b'.from ≤ b'.to
    → Above (suc b'.to) zs'
    → Served b'
    → AllServed zs'
    → IsGood t'
replace-IsGood t t' b b' ys zs zs' good e e' same fits above own rest =
    let front = (AllServed-append ys (b ∷ zs) (subst AllServed e good.served)).0 in
    record {
      apart =
          subst (Above 0) (sym e')
            (Above-replace b zs 0 ys b' zs' (subst (Above 0) e good.apart) same fits above);
      served = subst AllServed (sym e') (append-AllServed ys (b' ∷ zs') front (own, rest));
    }

-- A write through the pointer to a found block that moves none of its ends.
pub update-IsGood :
    (x : ℕ) (f : Block → Block) (t : Tree) (b : Block)
    → IsGood t
    → find_block_node x t ≡ some b
    → (f b).from ≡ b.from
    → (f b).to ≡ b.to
    → (Served b → Served (f b))
    → IsGood (update x f t)
update-IsGood x f t b good found same_from same_to serve =
    let (ys, zs, e, low, high) = find_block_node-Found x t b good.apart found in
    let above = Above-append b zs 0 ys (subst (Above 0) e good.apart) in
    let (front, (own, rest)) = AllServed-append ys (b ∷ zs) (subst AllServed e good.served) in
    replace-IsGood t (update x f t) b (f b) ys zs zs good e
      (inorder-update_at x f t b ys zs good.apart e low high) same_from (omega (arith, above.2))
      (subst (λ (k : ℕ). Above (suc k) zs) (sym same_to) above.3) (serve own) rest

module _ (rb : RbTree) (lawful : IsRbTree rb) where
  insert_new :
      (x : ℕ) (t : Tree)
      → IsGood t
      → find_block_node x t ≡ none
      → IsGood (rb.color (link x t))
        × (find_block_node x (rb.color (link x t)) ≡ some (new_block x))
  insert_new x t good absent =
      let missing = sym (find_block_node-find x 0 t good.apart) ∙ absent in
      let (ys, zs, e, placed, above) = find-Gap x 0 (inorder t) (omega arith) good.apart missing in
      let inserted = lawful.inorder_color (link x t) ∙ inorder-link x 0 t good.apart ∙ placed in
      let (front, back) = AllServed-append ys zs (subst AllServed e good.served) in
      let apart = subst (Above 0) (sym inserted) above in
      (
        record {
          apart = apart;
          served =
              subst AllServed (sym inserted)
                (append-AllServed ys (new_block x ∷ zs) front ((omega arith, tt), back));
        },
        find_block_node-find x 0 (rb.color (link x t)) apart
            ∙ ap (find x) inserted
            ∙ find-at (new_block x) zs x 0 ys above (omega arith) (omega arith),
      )

  -- insert leaves the tree good, and then there is a block around the offset.
  pub insert-IsGood :
      (x : ℕ) (t : Tree)
      → IsGood t
      → IsGood (insert rb x t).0 × ((b : Block) × (find_block_node x (insert rb x t).0 ≡ some b))
  unfolding insert
  insert-IsGood x t good = elim (Option-cases (find_block_node x t)) [
    | inl absent ↦
        let (good', found) = insert_new x t good absent in
        rw (absent, insert) (good', (new_block x, found))
    | inr (b, found) ↦ rw (found, insert) (good, (b, found))
  ]

-- After such a write the walk to the same offset finds the changed block.
pub find-update :
    (x : ℕ) (f : Block → Block) (t : Tree) (b : Block)
    → IsGood t
    → IsGood (update x f t)
    → find_block_node x t ≡ some b
    → (f b).from ≡ b.from
    → (f b).to ≡ b.to
    → find_block_node x (update x f t) ≡ some (f b)
find-update x f t b good good' found same_from same_to =
    let (ys, zs, e, low, high) = find_block_node-Found x t b good.apart found in
    let changed = inorder-update_at x f t b ys zs good.apart e low high in
    find_block_node-find x 0 (update x f t) good'.apart
    ∙ ap (find x) changed
    ∙ find-at (f b) zs x 0 ys (subst (Above 0) changed good'.apart) (omega (arith, low, same_from))
        (omega (arith, high, same_to))
