-- ===== src/BigObject/Bytes.antt =====
-- src/KSharedBigObject.cpp: which bytes are stored, and what a write adds.
use kangle.Prelude.{
  ℕ, suc, ◌+◌, ◌≤◌, ◌<◌, Bool, true, false, not, ◌&&◌, ◌||◌, Option, none, some, List, [], ◌∷◌,
  ◌++◌, ◌≡◌, refl, ap, sym, ◌∙◌, inl, inr, arith, ltb, leb, Bool-cases, Option-cases, length, take,
}
use mathlib.Core.Path.{subst}
use kangle.BigObject.{
  Block, Tree, new_block, RbTree, find_block_node, link, insert, update, inorder,
}
use kangle.BigObject.InOrder.{Above, Above-append, find_block_node-find, inorder-link}
use kangle.BigObject.Located.{IsRbTree, following, following-at, first, find-Gap}
use kangle.BigObject.Operations.{Shared}
use kangle.BigObject.Writes.{absorb, settle, woken, write, write_block, write_file}
use kangle.BigObject.Valid.{IsGood, find_block_node-Found, inorder-update_at}
use kangle.BigObject.Grown.{grow, behind, inorder-write_block}

-- The byte at `x` is in the file.
abbrev pub in_block : ℕ → Block → Bool
in_block x b = leb b.from x && ltb x b.to

abbrev pub cached : ℕ → List Block → Bool
cached x [] = false
cached x (b ∷ bs) = in_block x b || cached x bs

abbrev pub in_range : ℕ → ℕ → ℕ → Bool
in_range from stop x = leb from x && ltb x stop

pub cached-append :
    (x : ℕ) (ys zs : List Block) → cached x (ys ++ zs) ≡ (cached x ys || cached x zs)
cached-append x [] zs = refl
cached-append x (y ∷ ys) zs = let ih = cached-append x ys zs in ground arith

or_middle : (a b c : Bool) → b ≡ true → (a || (b || c)) ≡ true
or_middle true b c h = refl
or_middle false true c h = refl
or_middle false false c h = absurd (ground arith)

pub cached-own :
    (x : ℕ) (b : Block) (ys zs : List Block) → in_block x b ≡ true → cached x (ys ++ b ∷ zs) ≡ true
cached-own x b ys zs h =
    cached-append x ys (b ∷ zs) ∙ or_middle (cached x ys) (in_block x b) (cached x zs) h

-- A change of a block that moves none of its ends.
pub cached-update :
    (x : ℕ) (f : Block → Block) (t : Tree) (b : Block) (y : ℕ)
    → Above 0 (inorder t)
    → find_block_node x t ≡ some b
    → (f b).from ≡ b.from
    → (f b).to ≡ b.to
    → cached y (inorder (update x f t)) ≡ cached y (inorder t)
cached-update x f t b y above found same_from same_to =
    let (ys, zs, e, low, high) = find_block_node-Found x t b above found in
    rw (
      inorder-update_at x f t b ys zs above e low high,
      e,
      cached-append y ys (f b ∷ zs),
      cached-append y ys (b ∷ zs),
      same_from,
      same_to,
    )

-- insert stores no byte.
pub cached-insert :
    (rb : RbTree) (x y : ℕ) (t : Tree)
    → IsRbTree rb
    → Above 0 (inorder t)
    → cached y (inorder (insert rb x t).0) ≡ cached y (inorder t)
unfolding insert
cached-insert rb x y t lawful above = elim (Option-cases (find_block_node x t)) [
  | inl absent ↦
      let missing = sym (find_block_node-find x 0 t above) ∙ absent in
      let (ys, zs, e, placed, above') = find-Gap x 0 (inorder t) (omega arith) above missing in
      let inserted = lawful.inorder_color (link x t) ∙ inorder-link x 0 t above ∙ placed in
      let nothing : in_block y (new_block x) ≡ false = ground arith in
      rw (absent, insert)
        (ap (cached y) inserted
          ∙ cached-append y ys (new_block x ∷ zs)
          ∙ (rw nothing (sym (cached-append y ys zs)))
          ∙ ap (cached y) (sym e))
  | inr (b, found) ↦ rw (found, insert)
]

-- The new end is not behind the end of the next block.
abbrev pub NotBeyond : ℕ → Option Block → Type 0
NotBeyond stop none = Unit
NotBeyond stop (some next) = stop ≤ next.to

grown_apart :
    (x offset stop from to : ℕ) (others : Bool)
    → from ≤ offset
    → offset ≤ to
    → to < stop
    → (in_range from stop x || others) ≡ ((in_range from to x || others) || in_range offset stop x)
grown_apart x offset stop from to true low high grows = ground arith
grown_apart x offset stop from to false low high grows = ground arith

-- What a block that grows to `stop` adds, where the write began in it.
cached-grow :
    (x offset stop : ℕ) (b : Block) (zs : List Block)
    → b.from ≤ offset
    → offset ≤ b.to
    → b.to < stop
    → Above (suc b.to) zs
    → NotBeyond stop (first zs)
    → cached x (grow stop zs b ∷ behind stop zs) ≡ (cached x (b ∷ zs) || in_range offset stop x)
unfolding absorb settle
cached-grow x offset stop b [] low high grows above within = ground arith
cached-grow x offset stop b (c ∷ zs) low high grows (gap, fits, above) within =
    elim (Bool-cases (leb c.from stop)) [
      | inl reached ↦ rw reached (ground arith)
      | inr apart ↦
          rw apart (grown_apart x offset stop b.from b.to (cached x (c ∷ zs)) low high grows)
    ]

-- No byte counts as stored that was not stored before and is not written now.
pub cached-grow_sound :
    (x offset stop : ℕ) (b : Block) (zs : List Block)
    → b.from ≤ offset
    → offset ≤ b.to
    → b.to < stop
    → Above (suc b.to) zs
    → cached x (grow stop zs b ∷ behind stop zs) ≡ true
    → (cached x (b ∷ zs) || in_range offset stop x) ≡ true
unfolding absorb settle
cached-grow_sound x offset stop b [] low high grows above h = ground arith
cached-grow_sound x offset stop b (c ∷ zs) low high grows (gap, fits, above) h =
    elim (Bool-cases (leb c.from stop)) [
      | inl reached ↦ let h' = rw reached at h in ground arith
      | inr apart ↦ let h' = rw apart at h in ground arith
    ]

inside_range :
    (x offset stop from to : ℕ) (others : Bool)
    → from ≤ offset
    → stop ≤ to
    → (in_range from to x || others) ≡ ((in_range from to x || others) || in_range offset stop x)
inside_range x offset stop from to true low high = ground arith
inside_range x offset stop from to false low high = ground arith

or_regroup : (a b c : Bool) → (a || (b || c)) ≡ ((a || b) || c)
or_regroup true b c = refl
or_regroup false b c = refl

module _ (rb : RbTree) (lawful : IsRbTree rb) where
  write_block-cached :
      (offset : ℕ) (buf : List ℕ) (s : Shared) (b : Block) (x : ℕ)
      → IsGood s.blocks
      → find_block_node offset s.blocks ≡ some b
      → NotBeyond (offset + length buf) (rb.next b.from s.blocks)
      → cached x (inorder (write_block rb offset buf s (some b)).0.blocks)
        ≡ (cached x (inorder s.blocks) || in_range offset (offset + length buf) x)
  unfolding update absorb settle woken
  write_block-cached offset buf s b x good found within =
      let stop = offset + length buf in
      let (ys, zs, e, low, high) = find_block_node-Found offset s.blocks b good.apart found in
      let apart = subst (Above 0) e good.apart in
      let before = ap (cached x) e ∙ cached-append x ys (b ∷ zs) in
      elim (Bool-cases (leb stop b.to)) [
        | inl inside ↦
            let same = inside_range x offset stop b.from b.to (cached x zs) low (ground arith) in
            rw (inside, before)
              (ap (λ (c : Bool). cached x ys || c) same
                ∙ or_regroup (cached x ys) (cached x (b ∷ zs)) (in_range offset stop x))
        | inr outside ↦
            let grows : b.to < stop = ground arith in
            let next =
              lawful.next_lem b.from s.blocks
              ∙ ap (following b.from) e
              ∙ following-at b zs 0 ys apart in
            let above = Above-append b zs 0 ys apart in
            ap (cached x) (inorder-write_block rb lawful offset buf s b ys zs good e low high grows)
            ∙ cached-append x ys (grow stop zs b ∷ behind stop zs)
            ∙ ap (λ (c : Bool). cached x ys || c)
                (cached-grow x offset stop b zs low high grows above.3
                  (subst (NotBeyond stop) next within))
            ∙ or_regroup (cached x ys) (cached x (b ∷ zs)) (in_range offset stop x)
            ∙ ap (λ (c : Bool). c || in_range offset stop x) (sym before)
      ]

-- Where the blocks are in order and a block is around the offset, a write that reaches the file and does
-- not go behind the end of the next block stores exactly its own bytes: a byte is in the file
-- afterwards if and only if it was there before or lies in the written range, merged blocks or not.
pub write-cached :
    (rb : RbTree) (s : Shared) (b : Block) (written offset : ℕ) (buf : List ℕ) (x : ℕ)
    → IsRbTree rb
    → IsGood s.blocks
    → s.opened ≡ true
    → length buf ≤ written
    → find_block_node offset s.blocks ≡ some b
    → NotBeyond (offset + length buf) (rb.next b.from s.blocks)
    → cached x (inorder (write rb true written offset buf s).0.blocks)
      ≡ (cached x (inorder s.blocks) || in_range offset (offset + length buf) x)
unfolding write
write-cached rb s b written offset buf x lawful good opened enough found within =
    let full : ltb written (length buf) ≡ false = ground arith in
    let s' = record s { file = write_file offset (take written buf) s.file } in
    let open_file : (not s.opened || false) ≡ false = ground arith in
    rw (open_file, full, found) (write_block-cached rb lawful offset buf s' b x good found within)
