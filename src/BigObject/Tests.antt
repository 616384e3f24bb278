-- ===== src/BigObject/Tests.antt =====
-- Runs of the shared part of a big object, and the theorems about it at concrete inputs.
use kangle.Prelude.{
  ℕ, ◌+◌, true, false, ◌||◌, Option, none, some, List, [], ◌∷◌, ◌≡◌, refl, ap, arith, length, map,
}
use kangle.BigObject.{
  Reader, Block, Tree, leaf, node, new_block, RbTree, find_block_node, link, insert, update,
  inorder,
}
use kangle.BigObject.Located.{IsRbTree, following, without}
use kangle.BigObject.Operations.{Shared, open_read, open_write, read, save_progress, got, hand_over}
use kangle.BigObject.Writes.{write, absorb, settle, woken, still_waiting, merge}
use kangle.BigObject.Valid.{IsGood}
use kangle.BigObject.Runs.{
  Call, reader_opens, writer_opens, writes, reads, call, calls, fresh, IsGoodShared, calls-IsGood,
}
use kangle.BigObject.Bytes.{cached, in_range, write-cached}
use kangle.BigObject.Delivers.{IsBody, calls-read}
use kangle.BigObject.Wakes.{AllAnswers}
use kangle.BigObject.Satisfy.{satisfy_part, Range, fix_if_range_to, create_if_range, can_satisfy}
use kangle.BigObject.Satisfy.Answer.{Answers, can_satisfy-Answers}
use kangle.BigObject.Progress.{restored, restore_blocks, restore, restore-save_progress}

-- Trees without balance: the laws are those that the lists have.
spine : List Block → Tree
spine [] = leaf
spine (b ∷ bs) = node leaf b (spine bs)

inorder-spine : (bs : List Block) → inorder (spine bs) ≡ bs
unfolding inorder spine
inorder-spine [] = refl
inorder-spine (b ∷ bs) = ap (λ (cs : List Block). b ∷ cs) (inorder-spine bs)

abbrev plain : RbTree
unfolding following without inorder spine
plain = record {
  color = λ t. t;
  next = λ k t. following k (inorder t);
  erase = λ k t. spine (without k (inorder t));
}

plain-IsRbTree : IsRbTree plain
unfolding following without inorder spine
plain-IsRbTree = record {
  inorder_color = λ t. refl;
  next_lem = λ k t. refl;
  inorder_erase = λ k t. inorder-spine (without k (inorder t));
}

-- The body is 0, 1, 2, ...: a writer brings 4 and 5, another one 0 to 3, and the blocks merge.
abbrev body : ℕ → ℕ
body x = x

abbrev history : List Call
history =
    reader_opens true
    ∷ writer_opens true 7 4
    ∷ writes true 2 4 (4 ∷ 5 ∷ [])
    ∷ writer_opens true 8 0
    ∷ writes true 4 0 (0 ∷ 1 ∷ 2 ∷ 3 ∷ [])
    ∷ []

abbrev big_reader : Reader
big_reader = record { address = 1; rq = 9; from = 2; size = 3 }

abbrev state_or_fresh : Option Shared → Shared
state_or_fresh none = fresh
state_or_fresh (some s) = s

reached : Shared
unfolding calls call open_read open_write write update link insert find_block_node absorb settle
    woken still_waiting merge following without inorder spine
reached = state_or_fresh (calls plain history (some fresh))

history_run : calls plain history (some fresh) ≡ some reached
unfolding reached calls call open_read open_write write update link insert find_block_node absorb
    settle woken still_waiting merge following without inorder spine
history_run = refl

-- The two blocks became one, and the writer of the second one goes on in it.
merged_run : save_progress reached.blocks ≡ (0, 6) ∷ []
unfolding save_progress inorder reached
merged_run = refl

read_run : (read plain false big_reader 10 reached).1 ≡ got (2 ∷ 3 ∷ 4 ∷ [])
unfolding read reached find_block_node
read_run = refl

calls-IsGood_example : IsGoodShared (calls plain history (some fresh))
calls-IsGood_example = calls-IsGood plain history plain-IsRbTree

-- A reader of 2 and 3 waits for the writer of 0, who then brings 2 to 4.
abbrev waiter : Reader
waiter = record { address = 2; rq = 11; from = 2; size = 2 }

abbrev bytes_of_write : List ℕ
bytes_of_write = 2 ∷ 3 ∷ 4 ∷ []

abbrev waited : List Call
waited =
    reader_opens true
    ∷ writer_opens true 7 0
    ∷ writes true 2 0 (0 ∷ 1 ∷ [])
    ∷ reads false waiter 10
    ∷ []

waiting : Shared
unfolding calls call open_read open_write write read update link insert find_block_node absorb
    settle woken still_waiting merge following without inorder spine
waiting = state_or_fresh (calls plain waited (some fresh))

waited_run : calls plain waited (some fresh) ≡ some waiting
unfolding waiting calls call open_read open_write write read update link insert find_block_node
    absorb settle woken still_waiting merge following without inorder spine
waited_run = refl

woken_run : (write plain true 3 2 bytes_of_write waiting).2 ≡ hand_over 11 (2 ∷ 3 ∷ []) ∷ []
unfolding write update find_block_node waiting absorb settle woken still_waiting merge following
    without inorder spine
woken_run = refl

calls-read_example :
    IsBody body 0 (read plain false (record waiter { from = 0 }) 10 waiting).1
    × AllAnswers body
        (inorder waiting.blocks)
        2
        (2 + length bytes_of_write)
        (write plain true 3 2 bytes_of_write waiting).2
calls-read_example =
    calls-read body plain waited waiting false (record waiter { from = 0 }) 10 true 3 2
      bytes_of_write plain-IsRbTree ((refl, (refl, tt)), tt) waited_run (refl, (refl, (refl, tt)))

-- Two blocks with a gap.
abbrev stored : ℕ → ℕ → Block
stored from to = record (new_block from) { to = to }

abbrev two : Tree
two = node leaf (stored 0 2) (node leaf (stored 4 6) leaf)

two-IsGood : IsGood two
unfolding inorder
two-IsGood = record { apart = omega arith; served = omega arith }

abbrev holder : Shared
holder = record fresh { blocks = two; opened = true }

abbrev two_bytes : List ℕ
two_bytes = 8 ∷ 9 ∷ []

write-cached_example :
    cached 3 (inorder (write plain true 2 2 two_bytes holder).0.blocks)
    ≡ (cached 3 (inorder two) || in_range 2 (2 + length two_bytes) 3)
unfolding find_block_node following inorder spine without
write-cached_example =
    write-cached plain holder (stored 0 2) 2 2 two_bytes 3 plain-IsRbTree two-IsGood refl
      (omega arith) refl (omega arith)

-- A write that goes behind the end of the next block leaves a shorter block than it has written.
beyond_run :
    save_progress (write plain true 5 2 (1 ∷ 1 ∷ 1 ∷ 1 ∷ 1 ∷ []) holder).0.blocks ≡ (0, 6) ∷ []
unfolding save_progress write find_block_node update absorb settle following inorder spine without
    merge still_waiting woken
beyond_run = refl

abbrev asked : Range
asked = record { from = 1; to = some 8 }

can_satisfy_run :
    can_satisfy plain false two 10 asked ≡ (record { from = 2; to = some 3 }, satisfy_part)
unfolding can_satisfy create_if_range fix_if_range_to find_block_node plain following inorder
can_satisfy_run = refl

can_satisfy-Answers_example : Answers 10 (inorder two) asked (can_satisfy plain false two 10 asked)
can_satisfy-Answers_example = can_satisfy-Answers plain two 10 asked plain-IsRbTree two-IsGood

restore-save_progress_example :
    ((restore plain (save_progress two) 0 leaf).1 ≡ true)
    × (inorder (restore plain (save_progress two) 0 leaf).0 ≡ map restored (inorder two))
    × (save_progress (restore plain (save_progress two) 0 leaf).0 ≡ save_progress two)
restore-save_progress_example = restore-save_progress plain two plain-IsRbTree two-IsGood.apart

-- The last record is accepted even if it begins in a block in front of it.
last_run : (restore plain ((0, 10) ∷ (5, 20) ∷ []) 0 leaf).1 ≡ true
unfolding restore restore_blocks insert find_block_node link update plain
last_run = refl

-- Overlapping records are accepted if none begins in a block in front of it.
overlap_run : (restore plain ((10, 20) ∷ (0, 50) ∷ []) 0 leaf).1 ≡ true
unfolding restore restore_blocks insert find_block_node link update plain
overlap_run = refl
