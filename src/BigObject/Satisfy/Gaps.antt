-- ===== src/BigObject/Satisfy/Gaps.antt =====
-- src/KSharedBigObject.cpp: the bytes between two blocks are not in the file.
use kangle.Prelude.{
  ℕ, suc, ◌≤◌, ◌<◌, false, Option, none, some, List, [], ◌∷◌, ◌++◌, ◌≡◌, refl, ◌∙◌, inl, inr, arith,
  ltb, Bool-cases,
}
use kangle.BigObject.{Block}
use kangle.BigObject.InOrder.{Above, Above-append, find, find_next, some-ne-none}
use kangle.BigObject.Located.{first}
use kangle.BigObject.Bytes.{in_block, cached, cached-append}

cached-below : (x lo : ℕ) (bs : List Block) → Above lo bs → x < lo → cached x bs ≡ false
cached-below x lo [] above h = refl
cached-below x lo (b ∷ bs) (low, fits, above) h =
    let own : in_block x b ≡ false = ground arith in
    rw (own, cached-below x (suc b.to) bs above (omega arith))

abbrev pub Below : Option Block → ℕ → Type 0
Below none x = Unit
Below (some next) x = x < next.from

cached-before_first :
    (x lo : ℕ) (bs : List Block) → Above lo bs → Below (first bs) x → cached x bs ≡ false
cached-before_first x lo [] above h = refl
cached-before_first x lo (b ∷ bs) (low, fits, above) h =
    let own : in_block x b ≡ false = ground arith in
    rw (own, cached-below x (suc b.to) bs above (omega arith))

cached-past :
    (x lo : ℕ) (b : Block) (ys zs : List Block)
    → Above lo (ys ++ b ∷ zs)
    → b.from ≤ x
    → cached x ys ≡ false
cached-past x lo b [] zs above h = refl
cached-past x lo b (c ∷ ys) zs (low, fits, above) h =
    let (before, behind, ordered, rest) = Above-append b zs (suc c.to) ys above in
    let own : in_block x c ≡ false = ground arith in
    rw (own, cached-past x (suc c.to) b ys zs above h)

-- Between the end of a block and the next one.
pub cached-gap :
    (x : ℕ) (b : Block) (ys zs : List Block)
    → Above 0 (ys ++ b ∷ zs)
    → b.to ≤ x
    → Below (first zs) x
    → cached x (ys ++ b ∷ zs) ≡ false
cached-gap x b ys zs above low high =
    let (front, behind, ordered, rest) = Above-append b zs 0 ys above in
    let own : in_block x b ≡ false = ground arith in
    cached-append x ys (b ∷ zs)
    ∙ rw (cached-past x 0 b ys zs above (omega arith), own)
        (cached-before_first x (suc b.to) zs rest high)

-- Where no block is around `x`, up to the first one behind it.
pub cached-find_next :
    (x y lo : ℕ) (bs : List Block)
    → Above lo bs
    → find x bs ≡ none
    → x ≤ y
    → Below (find_next x bs) y
    → cached y bs ≡ false
unfolding find find_next
cached-find_next x y lo [] above absent low high = refl
cached-find_next x y lo (b ∷ bs) (first_low, fits, above) absent low high =
    elim (Bool-cases (ltb x b.from)) [
      | inl before ↦ cached-before_first y lo (b ∷ bs) (first_low, fits, above) (rw before at high)
      | inr after ↦ elim (Bool-cases (ltb b.to x)) [
        | inl past ↦
            let own : in_block y b ≡ false = ground arith in
            rw own (
              cached-find_next x y (suc b.to) bs above (rw (after, past) at absent) low
                (rw after at high))
        | inr inside ↦ absurd (some-ne-none b (rw (after, inside) at absent))
      ]
    ]
