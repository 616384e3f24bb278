-- ===== src/BigObject/Satisfy.antt =====
-- src/KSharedBigObject.cpp: can_satisfy, which decides what of a requested range is to be fetched.
pub mod Gaps
pub mod Answer
use kangle.Prelude.{ℕ, ◌-◌, Bool, true, false, Option, none, some, ◌==◌, ltb, leb, if◌then◌else◌}
use kangle.BigObject.{Block, Tree, RbTree, find_block_node, find_next_from, find_next_block_node}

pub data SatisfyStatus : Type 0 where
  satisfy_none : SatisfyStatus
  satisfy_part : SatisfyStatus
  satisfy_all : SatisfyStatus

-- kgl_request_range; a `to` of -1 is `none`.
pub record Range : Type 0 where
  pub from : ℕ
  pub to : Option ℕ

-- range->to == -1 || next_block->file_block.from <= range->to
abbrev pub goes_on_to : Option ℕ → Block → Bool
goes_on_to none next = true
goes_on_to (some to) next = leb next.from to

unfoldable pub fix_if_range_to : Range → Block → Range × SatisfyStatus
fix_if_range_to range next =
    if goes_on_to range.to next
    then (record range { to = some (next.from - 1) }, satisfy_part)
    else (range, satisfy_none)

-- The gap behind a block: `next` is rb_next of it.
abbrev pub behind_block : Range → Option Block → Range × SatisfyStatus
unfolding fix_if_range_to
behind_block range none = (range, satisfy_part)
behind_block range (some next) = ((fix_if_range_to range next).0, satisfy_part)

-- The gap around range.from: `next` is find_next_block_node of it.
abbrev pub in_gap : Range → Option Block → Range × SatisfyStatus
unfolding fix_if_range_to
in_gap range none = (range, satisfy_none)
in_gap range (some next) = fix_if_range_to range next

unfoldable pub create_if_range : RbTree → Tree → Range → Option Block → Range × SatisfyStatus
unfolding fix_if_range_to find_next_from
create_if_range rb t range (some b) = behind_block (record range { from = b.to }) (rb.next b.from t)
create_if_range rb t range none = in_gap range (find_next_block_node range.from t)

-- range->to >= 0 and block->file_block.to > range->to
abbrev pub has_end : Option ℕ → Block → Bool
has_end none b = false
has_end (some to) b = ltb to b.to

abbrev pub satisfy_block : RbTree → Tree → ℕ → Range → Option Block → Range × SatisfyStatus
unfolding create_if_range
satisfy_block rb t content_length range none = create_if_range rb t range none
satisfy_block rb t content_length range (some b) =
    if b.to == range.from
    then create_if_range rb t range (some b)
    else if leb content_length b.to
    then (range, satisfy_all)
    else if has_end range.to b
    then (range, satisfy_all)
    else create_if_range rb t range (some b)

-- can_satisfy, for a range that is given: the range is changed in place.
unfoldable pub can_satisfy : RbTree → Bool → Tree → ℕ → Range → Range × SatisfyStatus
unfolding create_if_range find_block_node
can_satisfy rb body_complete t content_length range =
    if body_complete
    then (range, satisfy_all)
    else satisfy_block rb t content_length range (find_block_node range.from t)
