-- ===== src/BigObject/InOrder.antt =====
-- src/KSharedBigObject.cpp: the walks in the tree, as walks along its blocks in order.
use kangle.Prelude.{
  ℕ, suc, ◌≤◌, true, false, Option, none, some, List, [], ◌∷◌, ◌++◌, ◌≡◌, refl, inl, inr, arith,
  ltb, if◌then◌else◌, Bool-cases,
}
use mathlib.Core.List.{append_assoc}
use kangle.BigObject.{
  Block, Tree, leaf, node, new_block, find_block_node, find_next_from, link, update, inorder,
}

-- Each block begins at `lo` or behind the end of the one in front of it, and does not end before it
-- begins.
abbrev pub Above : ℕ → List Block → Type 0
Above lo [] = Unit
Above lo (b ∷ bs) = (lo ≤ b.from) × (b.from ≤ b.to) × Above (suc b.to) bs

unfoldable pub find : ℕ → List Block → Option Block
find x [] = none
find x (b ∷ bs) =
    let rest = find x bs in if ltb x b.from then none else if ltb b.to x then rest else some b

unfoldable pub find_next : ℕ → List Block → Option Block
find_next x [] = none
find_next x (b ∷ bs) = let rest = find_next x bs in if ltb x b.from then some b else rest

abbrev pub or_last : Option Block → Option Block → Option Block
or_last none last = last
or_last (some b) last = some b

abbrev or_block : Option Block → Block → Option Block
or_block none b = some b
or_block (some c) b = some c

or_block-last :
    (o : Option Block) (b : Block) (last : Option Block)
    → or_last o (some b) ≡ or_last (or_block o b) last
or_block-last none b last = refl
or_block-last (some c) b last = refl

pub some-ne-none : (b : Block) → ◌≡◌ {A = Option Block} (some b) none → ⊥
some-ne-none b h = cc

-- What a walk to `x` changes: `miss` is put where no block is, else the block becomes `hit` of it.
unfoldable pub place : ℕ → List Block → (Block → Block) → List Block → List Block
place x miss hit [] = miss
place x miss hit (b ∷ bs) =
    let rest = b ∷ place x miss hit bs in
    if ltb x b.from then miss ++ b ∷ bs else if ltb b.to x then rest else hit b ∷ bs

module _ (b : Block) (ys : List Block) where
  pub Above-append :
      (lo : ℕ) (xs : List Block)
      → Above lo (xs ++ b ∷ ys)
      → Above lo xs × (lo ≤ b.from) × (b.from ≤ b.to) × Above (suc b.to) ys
  Above-append lo [] h = (tt, h.0, h.1, h.2)
  Above-append lo (c ∷ cs) (low, fits, rest) =
      let (before, behind, ordered, above) = Above-append (suc c.to) cs rest in
      ((low, fits, before), omega arith, ordered, above)

  find-left : (x : ℕ) (xs : List Block) → ltb x b.from ≡ true → find x (xs ++ b ∷ ys) ≡ find x xs
  unfolding find
  find-left x [] h = rw h
  find-left x (c ∷ cs) h = rw (find-left x cs h)

  pub find-right :
      (x lo : ℕ) (xs : List Block)
      → Above lo (xs ++ b ∷ ys)
      → ltb x b.from ≡ false
      → find x (xs ++ b ∷ ys) ≡ find x (b ∷ ys)
  unfolding find
  find-right x lo [] above h = refl
  find-right x lo (c ∷ cs) (low, fits, above) h =
      let (before, behind, ordered, rest) = Above-append (suc c.to) cs above in
      let after : ltb x c.from ≡ false = ground arith in
      let past : ltb c.to x ≡ true = ground arith in
      rw (after, past) (find-right x (suc c.to) cs above h)

  place-left :
      (x : ℕ) (miss : List Block) (hit : Block → Block) (xs : List Block)
      → ltb x b.from ≡ true
      → place x miss hit (xs ++ b ∷ ys) ≡ place x miss hit xs ++ b ∷ ys
  unfolding place
  place-left x miss hit [] h = rw h
  place-left x miss hit (c ∷ cs) h =
      let ih = place-left x miss hit cs h in
      elim (Bool-cases (ltb x c.from)) [
        | inl before ↦ rw (before, append_assoc)
        | inr behind ↦
            rw behind
              (elim (Bool-cases (ltb c.to x)) [ inl past ↦ rw (past, ih) | inr inside ↦ rw inside ])
      ]

  pub place-right :
      (x lo : ℕ) (miss : List Block) (hit : Block → Block) (xs : List Block)
      → Above lo (xs ++ b ∷ ys)
      → ltb x b.from ≡ false
      → place x miss hit (xs ++ b ∷ ys) ≡ xs ++ place x miss hit (b ∷ ys)
  unfolding place
  place-right x lo miss hit [] above h = refl
  place-right x lo miss hit (c ∷ cs) (low, fits, above) h =
      let (before, behind, ordered, rest) = Above-append (suc c.to) cs above in
      let after : ltb x c.from ≡ false = ground arith in
      let past : ltb c.to x ≡ true = ground arith in
      rw (after, past, place-right x (suc c.to) miss hit cs above h)

-- In a search tree find_block_node finds the block around an offset: the only one among all blocks.
pub find_block_node-find :
    (x lo : ℕ) (t : Tree) → Above lo (inorder t) → find_block_node x t ≡ find x (inorder t)
unfolding find_block_node find inorder
find_block_node-find x lo leaf above = refl
find_block_node-find x lo (node l b r) above =
    let (left, behind, ordered, right) = Above-append b (inorder r) lo (inorder l) above in
    elim (Bool-cases (ltb x b.from)) [
      | inl before ↦
          rw
            (before, find-left b (inorder r) x (inorder l) before, find_block_node-find x lo l left)
      | inr after ↦ rw (
        after,
        find-right b (inorder r) x lo (inorder l) above after,
        after,
        find_block_node-find x (suc b.to) r right,
      )
    ]

pub inorder-link :
    (x lo : ℕ) (t : Tree)
    → Above lo (inorder t)
    → inorder (link x t) ≡ place x (new_block x ∷ []) (λ (b : Block). b) (inorder t)
unfolding link place inorder
inorder-link x lo leaf above = refl
inorder-link x lo (node l b r) above =
    let (left, behind, ordered, right) = Above-append b (inorder r) lo (inorder l) above in
    let miss : List Block = new_block x ∷ [] in
    elim (Bool-cases (ltb x b.from)) [
      | inl before ↦ rw (
        before,
        place-left b (inorder r) x miss (λ (c : Block). c) (inorder l) before,
        inorder-link x lo l left,
      )
      | inr after ↦
          rw
            (
              after,
              place-right b (inorder r) x lo miss (λ (c : Block). c) (inorder l) above after,
              after,
            )
            (elim (Bool-cases (ltb b.to x)) [
              | inl past ↦ rw (past, inorder-link x (suc b.to) r right)
              | inr inside ↦ rw inside
            ])
    ]

pub inorder-update :
    (x lo : ℕ) (f : Block → Block) (t : Tree)
    → Above lo (inorder t)
    → inorder (update x f t) ≡ place x [] f (inorder t)
unfolding update place inorder
inorder-update x lo f leaf above = refl
inorder-update x lo f (node l b r) above =
    let (left, behind, ordered, right) = Above-append b (inorder r) lo (inorder l) above in
    let miss : List Block = [] in
    elim (Bool-cases (ltb x b.from)) [
      | inl before ↦ rw (
        before,
        place-left b (inorder r) x miss f (inorder l) before,
        inorder-update x lo f l left,
      )
      | inr after ↦
          rw (after, place-right b (inorder r) x lo miss f (inorder l) above after, after)
            (elim (Bool-cases (ltb b.to x)) [
              | inl past ↦ rw (past, inorder-update x (suc b.to) f r right)
              | inr inside ↦ rw inside
            ])
    ]

module _ (b : Block) (ys : List Block) where
  find_next-left :
      (x : ℕ) (xs : List Block)
      → ltb x b.from ≡ true
      → find_next x (xs ++ b ∷ ys) ≡ or_block (find_next x xs) b
  unfolding find_next
  find_next-left x [] h = rw h
  find_next-left x (c ∷ cs) h = elim (Bool-cases (ltb x c.from)) [
    | inl before ↦ rw before
    | inr behind ↦ rw behind (find_next-left x cs h)
  ]

  find_next-right :
      (x lo : ℕ) (xs : List Block)
      → Above lo (xs ++ b ∷ ys)
      → ltb x b.from ≡ false
      → find_next x (xs ++ b ∷ ys) ≡ find_next x ys
  unfolding find_next
  find_next-right x lo [] above h = rw h
  find_next-right x lo (c ∷ cs) (low, fits, above) h =
      let (before, behind, ordered, rest) = Above-append b ys (suc c.to) cs above in
      let after : ltb x c.from ≡ false = ground arith in
      rw after (find_next-right x (suc c.to) cs above h)

-- Where no block is around the offset, find_next_block_node finds the first block behind it.
pub find_next_from-find_next :
    (x lo : ℕ) (last : Option Block) (t : Tree)
    → Above lo (inorder t)
    → find_block_node x t ≡ none
    → find_next_from last x t ≡ or_last (find_next x (inorder t)) last
unfolding find_next_from find_next inorder find_block_node
find_next_from-find_next x lo last leaf above absent = refl
find_next_from-find_next x lo last (node l b r) above absent =
    let (left, behind, ordered, right) = Above-append b (inorder r) lo (inorder l) above in
    elim (Bool-cases (ltb x b.from)) [
      | inl before ↦
          let ih = find_next_from-find_next x lo (some b) l left (rw before at absent) in
          rw (before, ih, find_next-left b (inorder r) x (inorder l) before)
            (or_block-last (find_next x (inorder l)) b last)
      | inr after ↦ elim (Bool-cases (ltb b.to x)) [
        | inl past ↦
            let ih =
              find_next_from-find_next x (suc b.to) last r right (rw (after, past) at absent) in
            rw (after, past, ih, find_next-right b (inorder r) x lo (inorder l) above after)
        | inr inside ↦ absurd (some-ne-none b (rw (after, inside) at absent))
      ]
    ]
