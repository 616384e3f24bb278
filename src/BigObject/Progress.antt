-- ===== src/BigObject/Progress.antt =====
-- src/KSharedBigObject.cpp: restore, which reads the progress file that save_progress wrote.
use kangle.Prelude.{
  ℕ, suc, Bool, true, false, ◌&&◌, none, List, [], ◌∷◌, ◌++◌, ◌≡◌, refl, ap, sym, ◌∙◌, arith, ltb,
  ◌==◌, if◌then◌else◌, length, map,
}
use mathlib.Core.Path.{subst}
use mathlib.Core.List.{append_assoc, append-nil}
use kangle.BigObject.{
  Block, Tree, leaf, new_block, RbTree, find_block_node, link, insert, update, inorder,
}
use kangle.BigObject.InOrder.{Above, Above-append, find, place, find_block_node-find, inorder-link}
use kangle.BigObject.Located.{IsRbTree}
use kangle.BigObject.Operations.{file_block, save_progress}
use kangle.BigObject.Valid.{inorder-update_at}

-- The loop of restore over the records of the file, and how many of them are then still in `length`:
-- a damaged record stays in it, one that begins inside a block is taken off before the `break`.
unfoldable pub restore_blocks : RbTree → List (ℕ × ℕ) → Tree → Tree × ℕ
unfolding insert update
restore_blocks rb [] t = (t, 0)
restore_blocks rb ((from, to) ∷ entries) t =
    let (t', new_obj) = insert rb from t in
    let rest = restore_blocks rb entries (update from (λ (b : Block). record b { to = to }) t') in
    if ltb to from
    then (t, suc (length entries))
    else if new_obj
    then rest
    else (t', length entries)

-- restore; `rest` is the number of bytes behind the last whole record.
unfoldable pub restore : RbTree → List (ℕ × ℕ) → ℕ → Tree → Tree × Bool
unfolding restore_blocks
restore rb entries rest t =
    let (t', left) = restore_blocks rb entries t in (t', left == 0 && rest == 0)

-- A block that was restored.
abbrev pub restored : Block → Block
restored b = record (new_block b.from) { to = b.to }

Above-restored : (lo : ℕ) (bs : List Block) → Above lo bs → Above lo (map restored bs)
Above-restored lo [] h = tt
Above-restored lo (b ∷ bs) (low, fits, above) = (low, fits, Above-restored (suc b.to) bs above)

module _ (b : Block) (bs : List Block) where
  find-past : (lo : ℕ) (xs : List Block) → Above lo (xs ++ b ∷ bs) → find b.from xs ≡ none
  unfolding find
  find-past lo [] above = refl
  find-past lo (c ∷ xs) (low, fits, above) =
      let (before, behind, ordered, rest) = Above-append b bs (suc c.to) xs above in
      let after : ltb b.from c.from ≡ false = ground arith in
      let past : ltb c.to b.from ≡ true = ground arith in
      rw (after, past, find-past (suc c.to) xs above)

  place-past :
      (miss : List Block) (hit : Block → Block) (lo : ℕ) (xs : List Block)
      → Above lo (xs ++ b ∷ bs)
      → place b.from miss hit xs ≡ xs ++ miss
  unfolding place
  place-past miss hit lo [] above = refl
  place-past miss hit lo (c ∷ xs) (low, fits, above) =
      let (before, behind, ordered, rest) = Above-append b bs (suc c.to) xs above in
      let after : ltb b.from c.from ≡ false = ground arith in
      let past : ltb c.to b.from ≡ true = ground arith in
      rw (after, past, place-past miss hit (suc c.to) xs above)

  -- The blocks in front, with an empty one at their end.
  Above-last :
      (lo : ℕ) (xs : List Block) → Above lo (xs ++ b ∷ bs) → Above lo (xs ++ new_block b.from ∷ [])
  Above-last lo [] (low, fits, above) = (low, omega arith, tt)
  Above-last lo (c ∷ xs) (low, fits, above) = (low, fits, Above-last (suc c.to) xs above)

insert-absent :
    (rb : RbTree) (x : ℕ) (t : Tree)
    → find_block_node x t ≡ none
    → insert rb x t ≡ (rb.color (link x t), true)
unfolding insert
insert-absent rb x t absent = rw (absent, insert)

module _ (rb : RbTree) (lawful : IsRbTree rb) where
  -- One record of the file makes one block behind all the others.
  restored_one :
      (b : Block) (bs : List Block) (t : Tree)
      → Above 0 (inorder t ++ b ∷ bs)
      → (find_block_node b.from t ≡ none)
        × (inorder
              (update b.from (λ (c : Block). record c { to = b.to }) (rb.color (link b.from t)))
            ≡ inorder t ++ restored b ∷ [])
  restored_one b bs t above =
      let x = b.from in
      let front = (Above-append b bs 0 (inorder t) above).0 in
      let linked =
        lawful.inorder_color (link x t)
        ∙ inorder-link x 0 t front
        ∙ place-past b bs (new_block x ∷ []) (λ (c : Block). c) 0 (inorder t) above in
      let apart = subst (Above 0) (sym linked) (Above-last b bs 0 (inorder t) above) in
      (
        find_block_node-find x 0 t front ∙ find-past b bs 0 (inorder t) above,
        inorder-update_at x (λ (c : Block). record c { to = b.to }) (rb.color (link x t))
            (new_block x) (inorder t) [] apart linked (omega arith) (omega arith),
      )

  restore_blocks-all :
      (bs : List Block) (t : Tree)
      → Above 0 (inorder t ++ map restored bs)
      → (inorder (restore_blocks rb (map file_block bs) t).0 ≡ inorder t ++ map restored bs)
        × ((restore_blocks rb (map file_block bs) t).1 ≡ 0)
  unfolding restore_blocks
  restore_blocks-all [] t above = (sym (append-nil (inorder t)), refl)
  restore_blocks-all (b ∷ bs) t above =
      let (absent, one) = restored_one (restored b) (map restored bs) t above in
      let t' = update b.from (λ (c : Block). record c { to = b.to }) (rb.color (link b.from t)) in
      let regroup =
        ap (λ (xs : List Block). xs ++ map restored bs) one
        ∙ append_assoc (inorder t) (restored b ∷ []) (map restored bs) in
      let fits : ltb b.to b.from ≡ false =
        ground (arith, Above-append (restored b) (map restored bs) 0 (inorder t) above) in
      let (all, done) = restore_blocks-all bs t' (subst (Above 0) (sym regroup) above) in
      rw (fits, insert-absent rb b.from t absent) (all ∙ regroup, done)

map-restored : (bs : List Block) → map file_block (map restored bs) ≡ map file_block bs
map-restored [] = refl
map-restored (b ∷ bs) = ap (λ (r : List (ℕ × ℕ)). (b.from, b.to) ∷ r) (map-restored bs)

-- The progress of a big object survives its swapping out: where the blocks are in order, restore accepts
-- the file that save_progress wrote, and the blocks that it makes have the same ends in the same
-- order, with no readers and no writers.
pub restore-save_progress :
    (rb : RbTree) (t : Tree)
    → IsRbTree rb
    → Above 0 (inorder t)
    → ((restore rb (save_progress t) 0 leaf).1 ≡ true)
      × (inorder (restore rb (save_progress t) 0 leaf).0 ≡ map restored (inorder t))
      × (save_progress (restore rb (save_progress t) 0 leaf).0 ≡ save_progress t)
unfolding restore save_progress
restore-save_progress rb t lawful above =
    let (blocks, accepted) =
      restore_blocks-all rb lawful (inorder t) leaf (Above-restored 0 (inorder t) above) in
    (
      rw accepted,
      blocks,
      ap (λ (bs : List Block). map file_block bs) blocks ∙ map-restored (inorder t),
    )
