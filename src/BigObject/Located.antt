-- ===== src/BigObject/Located.antt =====
-- src/KSharedBigObject.cpp: a block that a walk has found, between the blocks in front of it and behind
-- it, and what insert, rb_next and rb_erase do there.
use kangle.Prelude.{
  ℕ, suc, ◌≤◌, true, false, Option, none, some, List, [], ◌∷◌, ◌++◌, ◌≡◌, refl, ap, sym, inl, inr,
  arith, ltb, if◌then◌else◌, Bool-cases, ◌==◌,
}
use mathlib.Core.Path.{subst}
use kangle.BigObject.{Block, Tree, new_block, RbTree, inorder}
use kangle.BigObject.InOrder.{
  place-right, find-right, Above, Above-append, find, place, some-ne-none,
}

-- The block behind the one that begins at `k`, and the blocks without the one that begins at `k`.
unfoldable pub following : ℕ → List Block → Option Block
following k [] = none
following k (b ∷ []) = none
following k (b ∷ c ∷ bs) = let rest = following k (c ∷ bs) in if b.from == k then some c else rest

unfoldable pub without : ℕ → List Block → List Block
without k [] = []
without k (b ∷ bs) = let rest = without k bs in if b.from == k then bs else b ∷ rest

-- What krbtree.h does, on the blocks in order.
pub record IsRbTree (rb : RbTree) : Type 0 where
  pub inorder_color : (t : Tree) → inorder (rb.color t) ≡ inorder t
  pub next_lem : (k : ℕ) (t : Tree) → rb.next k t ≡ following k (inorder t)
  pub inorder_erase : (k : ℕ) (t : Tree) → inorder (rb.erase k t) ≡ without k (inorder t)

-- A block around `x` with its neighbours.
abbrev pub Found : ℕ → List Block → Block → Type 0
Found x bs b =
    (ys : List Block) × (zs : List Block) × (bs ≡ ys ++ b ∷ zs) × (b.from ≤ x) × (x ≤ b.to)

pub find-Found : (x : ℕ) (bs : List Block) (b : Block) → find x bs ≡ some b → Found x bs b
unfolding find
find-Found x [] b h = absurd (cc)
find-Found x (c ∷ cs) b h = elim (Bool-cases (ltb x c.from)) [
  | inl before ↦ absurd (some-ne-none b (sym (rw before at h)))
  | inr after ↦ elim (Bool-cases (ltb c.to x)) [
    | inl past ↦
        let (ys, zs, e, low, high) = find-Found x cs b (rw (after, past) at h) in
        (c ∷ ys, zs, ap (λ (bs : List Block). c ∷ bs) e, low, high)
    | inr inside ↦
        let same : c ≡ b = cc (rw (after, inside) at h) in
        let low : c.from ≤ x = ground arith in
        let high : x ≤ c.to = ground arith in
        (
          [],
          cs,
          ap (λ (d : Block). d ∷ cs) same,
          subst (λ (d : Block). d.from ≤ x) same low,
          subst (λ (d : Block). x ≤ d.to) same high,
        )
  ]
]

abbrev keep : Block → Block
keep b = b

module _ (b : Block) (zs : List Block) where
  pub place-at :
      (x lo : ℕ) (miss : List Block) (f : Block → Block) (ys : List Block)
      → Above lo (ys ++ b ∷ zs)
      → b.from ≤ x
      → x ≤ b.to
      → place x miss f (ys ++ b ∷ zs) ≡ ys ++ f b ∷ zs
  unfolding place
  place-at x lo miss f ys above low high =
      let after : ltb x b.from ≡ false = ground arith in
      let inside : ltb b.to x ≡ false = ground arith in
      rw (place-right b zs x lo miss f ys above after, after, inside)

  pub Above-replace :
      (lo : ℕ) (ys : List Block) (b' : Block) (zs' : List Block)
      → Above lo (ys ++ b ∷ zs)
      → b'.from ≡ b.from
      → b'.from ≤ b'.to
      → Above (suc b'.to) zs'
      → Above lo (ys ++ b' ∷ zs')
  Above-replace lo [] b' zs' (low, fits, above) same fits' above' = (omega arith, fits', above')
  Above-replace lo (c ∷ cs) b' zs' (low, fits, above) same fits' above' =
      (low, fits, Above-replace (suc c.to) cs b' zs' above same fits' above')

  pub find-at :
      (x lo : ℕ) (ys : List Block)
      → Above lo (ys ++ b ∷ zs)
      → b.from ≤ x
      → x ≤ b.to
      → find x (ys ++ b ∷ zs) ≡ some b
  unfolding find
  find-at x lo ys above low high =
      let after : ltb x b.from ≡ false = ground arith in
      let inside : ltb b.to x ≡ false = ground arith in
      rw (find-right b zs x lo ys above after, after, inside)

abbrev pub first : List Block → Option Block
first [] = none
first (b ∷ bs) = some b

pub following-at :
    (b : Block) (zs : List Block) (lo : ℕ) (ys : List Block)
    → Above lo (ys ++ b ∷ zs)
    → following b.from (ys ++ b ∷ zs) ≡ first zs
unfolding following
following-at b [] lo [] above = refl
following-at b (c ∷ zs) lo [] above = let same : (b.from == b.from) ≡ true = ground arith in rw same
following-at b zs lo (d ∷ []) (low, fits, above) =
    let other : (d.from == b.from) ≡ false = ground arith in
    rw other (following-at b zs (suc d.to) [] above)
following-at b zs lo (d ∷ e ∷ ys) (low, fits, above) =
    let (before, behind, ordered, rest) = Above-append b zs (suc d.to) (e ∷ ys) above in
    let other : (d.from == b.from) ≡ false = ground arith in
    rw other (following-at b zs (suc d.to) (e ∷ ys) above)

-- The next block goes, also when the block in front of it has grown meanwhile.
pub without-at :
    (b b' c : Block) (zs : List Block) (lo : ℕ) (ys : List Block)
    → Above lo (ys ++ b ∷ c ∷ zs)
    → b'.from ≡ b.from
    → without c.from (ys ++ b' ∷ c ∷ zs) ≡ ys ++ b' ∷ zs
unfolding without
without-at b b' c zs lo [] (low, fits, (next, more, rest)) same =
    let other : (b'.from == c.from) ≡ false = ground arith in
    let found : (c.from == c.from) ≡ true = ground arith in rw (other, found)
without-at b b' c zs lo (d ∷ ys) (low, fits, above) same =
    let (before, behind, ordered, (next, more, rest)) =
      Above-append b (c ∷ zs) (suc d.to) ys above in
    let other : (d.from == c.from) ≡ false = ground arith in
    rw (other, without-at b b' c zs (suc d.to) ys above same)

-- A new block, between the blocks in front of it and behind it.
abbrev pub Gap : ℕ → ℕ → List Block → Type 0
Gap x lo bs =
    (ys : List Block) × (zs : List Block) × (bs ≡ ys ++ zs)
    × (place x (new_block x ∷ []) keep bs ≡ ys ++ new_block x ∷ zs)
    × Above lo (ys ++ new_block x ∷ zs)

pub find-Gap : (x lo : ℕ) (bs : List Block) → lo ≤ x → Above lo bs → find x bs ≡ none → Gap x lo bs
unfolding find place
find-Gap x lo [] low above h = ([], [], refl, refl, (low, omega arith, tt))
find-Gap x lo (c ∷ cs) low (first_low, fits, above) h = elim (Bool-cases (ltb x c.from)) [
  | inl before ↦ ([], c ∷ cs, refl, rw before, (low, omega arith, (ground arith, fits, above)))
  | inr after ↦ elim (Bool-cases (ltb c.to x)) [
    | inl past ↦
        let (ys, zs, e, placed, above') =
          find-Gap x (suc c.to) cs (ground arith) above (rw (after, past) at h) in
        (
          c ∷ ys,
          zs,
          ap (λ (bs : List Block). c ∷ bs) e,
          rw (after, past, placed),
          (first_low, fits, above'),
        )
    | inr inside ↦ absurd (some-ne-none c (rw (after, inside) at h))
  ]
]
