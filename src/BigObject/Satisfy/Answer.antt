-- ===== src/BigObject/Satisfy/Answer.antt =====
-- src/KSharedBigObject.cpp: the range that can_satisfy leaves is a gap between the stored parts.
use kangle.Prelude.{
  ℕ, ◌-◌, ◌≤◌, ◌<◌, true, false, Option, none, some, List, [], ◌∷◌, ◌++◌, ◌≡◌, ◌≢◌, refl, ap, sym,
  ◌∙◌, inl, inr, arith, ◌==◌, ltb, leb, if_cases, Bool-cases,
}
use mathlib.Core.Path.{subst}
use kangle.BigObject.{Block, Tree, RbTree, find_block_node, find_next_block_node, inorder}
use kangle.BigObject.InOrder.{
  Above, Above-append, find, find_next, or_last, find_block_node-find, find_next_from-find_next,
}
use kangle.BigObject.Located.{IsRbTree, following, following-at, first}
use kangle.BigObject.Valid.{IsGood, find_block_node-Found}
use kangle.BigObject.Bytes.{in_block, cached, cached-own}
use kangle.BigObject.Satisfy.{
  SatisfyStatus, satisfy_none, satisfy_part, satisfy_all, Range, goes_on_to, fix_if_range_to,
  behind_block, in_gap, create_if_range, has_end, satisfy_block, can_satisfy,
}
use kangle.BigObject.Satisfy.Gaps.{cached-gap, cached-find_next}

abbrev pub UpTo : Option ℕ → ℕ → Type 0
UpTo none x = Unit
UpTo (some to) x = x ≤ to

-- The bytes of a range.
abbrev pub Asked : Range → ℕ → Type 0
Asked range x = (range.from ≤ x) × UpTo range.to x

-- What the answer says: the whole range is stored, or the new range is a gap, behind bytes of the asked
-- range that are stored, and no more than that range.
abbrev pub Answers : ℕ → List Block → Range → Range × SatisfyStatus → Type 0
Answers content_length bs range (range', satisfy_all) =
    (x : ℕ) → Asked range x → x < content_length → cached x bs ≡ true
Answers content_length bs range (range', _) =
    ((x : ℕ) → range.from ≤ x → x < range'.from → cached x bs ≡ true)
    × ((x : ℕ) → Asked range' x → cached x bs ≡ false)
    × ((x : ℕ) → Asked range' x → Asked range x)

reaches_end :
    (to : Option ℕ) (c : Block) (x : ℕ) → goes_on_to to c ≡ true → x ≤ c.from - 1 → UpTo to x
reaches_end none c x h high = tt
reaches_end (some to) c x h high = ground arith

le_later : (a b x : ℕ) → a ≤ b → b ≤ x → a ≤ x
le_later a b x h k = omega arith

goes_on-Asked :
    (range : Range) (c : Block)
    → 0 < c.from
    → goes_on_to range.to c ≡ true
    → (x : ℕ) → Asked (record range { to = some (c.from - 1) }) x
    → (x < c.from) × Asked range x
goes_on-Asked range c positive h x (low, high) =
    (omega arith, (low, reaches_end range.to c x h high))

stops_short : (to : Option ℕ) (c : Block) (x : ℕ) → goes_on_to to c ≡ false → UpTo to x → x < c.from
stops_short none c x h high = absurd (ground arith)
stops_short (some to) c x h high = ground arith

fix_if_range_to-Asked :
    (range : Range) (c : Block)
    → 0 < c.from
    → ((fix_if_range_to range c).0.from ≡ range.from)
      × ((x : ℕ) → Asked (fix_if_range_to range c).0 x → (x < c.from) × Asked range x)
unfolding fix_if_range_to
fix_if_range_to-Asked range c positive = elim (Bool-cases (goes_on_to range.to c)) [
  | inl on ↦ rw on (refl, goes_on-Asked range c positive on)
  | inr off ↦ rw off (refl, λ (x : ℕ) (h : Asked range x). (stops_short range.to c x off h.1, h))
]

-- The answer where something is to be fetched.
abbrev Fetches : List Block → Range → Range → Type 0
Fetches bs range range' =
    ((x : ℕ) → range.from ≤ x → x < range'.from → cached x bs ≡ true)
    × ((x : ℕ) → Asked range' x → cached x bs ≡ false)
    × ((x : ℕ) → Asked range' x → Asked range x)

-- Where the gap begins at `from` and ends in front of the block `next`.
Fetches-fixed :
    (bs : List Block) (range : Range) (c : Block) (from : ℕ)
    → from < c.from
    → range.from ≤ from
    → ((x : ℕ) → range.from ≤ x → x < from → cached x bs ≡ true)
    → ((x : ℕ) → from ≤ x → x < c.from → cached x bs ≡ false)
    → Fetches bs range (fix_if_range_to (record range { from = from }) c).0
Fetches-fixed bs range c from gap later front empty =
    let (same, asked) = fix_if_range_to-Asked (record range { from = from }) c (omega arith) in
    (
      λ x low high. front x low (omega (arith, same)),
      λ x h. empty x (asked x h).1.0 (asked x h).0,
      λ x h. (le_later range.from from x later (asked x h).1.0, (asked x h).1.1),
    )

own_byte :
    (x : ℕ) (b : Block) (content_length from : ℕ)
    → b.from ≤ from
    → from ≤ x
    → x < content_length
    → leb content_length b.to ≡ true
    → in_block x b ≡ true
own_byte x b content_length from low h below last = ground arith

or_last-none : (o : Option Block) → or_last o none ≡ o
or_last-none none = refl
or_last-none (some b) = refl

module _ (rb : RbTree) (lawful : IsRbTree rb) (t : Tree) (good : IsGood t) (range : Range) where
  behind_block-Fetches :
      (b : Block) (ys zs : List Block)
      → inorder t ≡ ys ++ b ∷ zs
      → b.from ≤ range.from
      → range.from ≤ b.to
      → Fetches (ys ++ b ∷ zs) range (behind_block (record range { from = b.to }) (first zs)).0
  unfolding fix_if_range_to
  behind_block-Fetches b ys [] e low high =
      let apart = subst (Above 0) e good.apart in
      (
        λ x from_low below. cached-own x b ys [] (ground arith),
        λ x h. cached-gap x b ys [] apart h.0 tt,
        λ x h. (le_later range.from b.to x high h.0, h.1),
      )
  behind_block-Fetches b ys (c ∷ zs) e low high =
      let apart = subst (Above 0) e good.apart in
      let above = Above-append b (c ∷ zs) 0 ys apart in
      Fetches-fixed (ys ++ b ∷ c ∷ zs) range c b.to (omega (arith, above.3.0)) high
        (λ x from_low below. cached-own x b ys (c ∷ zs) (ground arith))
        (λ x from_low below. cached-gap x b ys (c ∷ zs) apart from_low below)

  find_next-lt : (x lo : ℕ) (bs : List Block) (c : Block) → find_next x bs ≡ some c → x < c.from
  unfolding find_next
  find_next-lt x lo [] c h = absurd (cc)
  find_next-lt x lo (b ∷ bs) c h = elim (Bool-cases (ltb x b.from)) [
    | inl before ↦
        let same : b ≡ c = cc (rw before at h) in
        subst (λ (d : Block). x < d.from) same (ground arith)
    | inr after ↦ find_next-lt x lo bs c (rw after at h)
  ]

  in_gap-Fetches :
      (o : Option Block)
      → find range.from (inorder t) ≡ none
      → find_next range.from (inorder t) ≡ o
      → Fetches (inorder t) range (in_gap range o).0
  unfolding fix_if_range_to
  in_gap-Fetches none absent next = (
    λ x low below. absurd (omega (arith, low, below)),
    λ x h. cached-find_next range.from x 0 (inorder t) good.apart absent h.0 (rw next tt),
    λ x h. h,
  )
  in_gap-Fetches (some c) absent next =
      Fetches-fixed (inorder t) range c range.from (find_next-lt range.from 0 (inorder t) c next)
        (omega arith) (λ x low below. absurd (omega (arith, low, below)))
        (λ x low below.
          cached-find_next range.from x 0 (inorder t) good.apart absent low (rw next below))

  Answers-Fetches :
      (content_length : ℕ) (bs : List Block) (r : Range × SatisfyStatus)
      → r.1 ≢ satisfy_all
      → Fetches bs range r.0
      → Answers content_length bs range r
  Answers-Fetches content_length bs (range', satisfy_none) ne h = h
  Answers-Fetches content_length bs (range', satisfy_part) ne h = h
  Answers-Fetches content_length bs (range', satisfy_all) ne h = absurd (ne refl)

  in_gap-ne-all : (o : Option Block) → (in_gap range o).1 ≢ satisfy_all
  unfolding fix_if_range_to
  in_gap-ne-all none = λ h. cc
  in_gap-ne-all (some c) =
      if_cases (λ (r : Range × SatisfyStatus). r.1 ≢ satisfy_all) (goes_on_to range.to c)
        (record range { to = some (c.from - 1) }, satisfy_part) (range, satisfy_none) (λ h. cc)
        (λ h. cc)

  behind_block-ne-all : (r : Range) (o : Option Block) → (behind_block r o).1 ≢ satisfy_all
  unfolding fix_if_range_to
  behind_block-ne-all r none = λ h. cc
  behind_block-ne-all r (some c) = λ h. cc

  create_none :
      (content_length : ℕ)
      → find_block_node range.from t ≡ none
      → Answers content_length (inorder t) range (create_if_range rb t range none)
  unfolding create_if_range
  create_none content_length absent =
      let missing = sym (find_block_node-find range.from 0 t good.apart) ∙ absent in
      let o = find_next_block_node range.from t in
      let next =
        find_next_from-find_next range.from 0 none t good.apart absent
        ∙ or_last-none (find_next range.from (inorder t)) in
      Answers-Fetches content_length (inorder t) (in_gap range o) (in_gap-ne-all o)
        (in_gap-Fetches o missing (sym next))

  create_some :
      (content_length : ℕ) (b : Block)
      → find_block_node range.from t ≡ some b
      → Answers content_length (inorder t) range (create_if_range rb t range (some b))
  unfolding create_if_range
  create_some content_length b found =
      let (ys, zs, e, low, high) = find_block_node-Found range.from t b good.apart found in
      let next =
        lawful.next_lem b.from t
        ∙ ap (following b.from) e
        ∙ following-at b zs 0 ys (subst (Above 0) e good.apart) in
      let fetches = behind_block-Fetches b ys zs e low high in
      let r = record range { from = b.to } in
      Answers-Fetches content_length (inorder t) (behind_block r (rb.next b.from t))
        (behind_block-ne-all r (rb.next b.from t)) (rw (next, e) fetches)

  has_end-UpTo : (to : Option ℕ) (b : Block) (x : ℕ) → has_end to b ≡ true → UpTo to x → x < b.to
  has_end-UpTo none b x h high = absurd (ground arith)
  has_end-UpTo (some to) b x h high = ground arith

  satisfy_block-Answers :
      (content_length : ℕ) (o : Option Block)
      → find_block_node range.from t ≡ o
      → Answers content_length (inorder t) range (satisfy_block rb t content_length range o)
  unfolding create_if_range
  satisfy_block-Answers content_length none absent = create_none content_length absent
  satisfy_block-Answers content_length (some b) found =
      let (ys, zs, e, low, high) = find_block_node-Found range.from t b good.apart found in
      let P = Answers content_length (inorder t) range in
      let rest = create_some content_length b found in
      elim (Bool-cases (b.to == range.from)) [
        | inl at_end ↦ rw at_end rest
        | inr inside ↦ rw inside (elim (Bool-cases (leb content_length b.to)) [
          | inl last ↦ rw last (λ x h below.
              ap (cached x) e
              ∙ cached-own x b ys zs (own_byte x b content_length range.from low h.0 below last))
          | inr more ↦ rw more (elim (Bool-cases (has_end range.to b)) [
            | inl ends ↦ rw ends (λ x h below.
                let short = has_end-UpTo range.to b x ends h.1 in
                ap (cached x) e ∙ cached-own x b ys zs (ground arith))
            | inr open_end ↦ rw open_end rest
          ])
        ])
      ]

-- Where the blocks are in order and the body is not complete: if can_satisfy answers that all is there,
-- each byte of the asked range within the content is in the file. Otherwise the range that it
-- leaves begins at a byte up to which the asked bytes are in the file, lies in the asked range, and
-- no byte of it is in the file: nothing is fetched twice.
pub can_satisfy-Answers :
    (rb : RbTree) (t : Tree) (content_length : ℕ) (range : Range)
    → IsRbTree rb
    → IsGood t
    → Answers content_length (inorder t) range (can_satisfy rb false t content_length range)
unfolding can_satisfy
can_satisfy-Answers rb t content_length range lawful good =
    satisfy_block-Answers rb lawful t good range content_length (find_block_node range.from t) refl
