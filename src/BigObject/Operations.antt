-- ===== src/BigObject/Operations.antt =====
-- src/KSharedBigObject.cpp: the operations of KSharedBigObject. Each one holds the lock, so that it is
-- one step. What the calls of kfile.h and kfiber.h answer is an argument.
use kangle.Prelude.{
  ℕ, zero, suc, ◌+◌, ◌-◌, min, Bool, true, false, ◌&&◌, ◌||◌, Option, none, some, List, [], ◌∷◌,
  ◌++◌, ◌==◌, ltb, if◌then◌else◌, map,
}
use kangle.BigObject.{Reader, Block, Tree, RbTree, find_block_node, update, insert, inorder}

-- KSharedBigObject; `opened` is fp != NULL and `file` the body in the file, behind the head. `saved` is
-- the progress file.
pub record Shared : Type 0 where
  pub body_complete : Bool
  pub read_refs : ℕ
  pub write_refs : ℕ
  pub blocks : Tree
  pub opened : Bool
  pub file : ℕ → ℕ
  pub saved : Option (List (ℕ × ℕ))

-- What a fiber that waits is woken with: KGL_BIG_OBJECT_READ_RETRY or the bytes in its buffer.
pub data Wakeup : Type 0 where
  retry : ℕ → Wakeup
  hand_over : ℕ → List ℕ → Wakeup

-- `fault` is a null pointer that is read.
pub data KglResult : Type 0 where
  ok : KglResult
  end : KglResult
  eio : KglResult
  fault : KglResult

-- open_read and open_file_handle; `opens` says that kfiber_file_open succeeds.
unfoldable pub open_read : Bool → Shared → Shared
open_read opens s = record s { read_refs = s.read_refs + 1; opened = s.opened || opens }

-- open_write; `self` is the calling fiber.
unfoldable pub open_write : RbTree → Bool → ℕ → ℕ → Shared → Shared
unfolding insert update
open_write rb opens self x s =
    let (t, new_obj) = insert rb x s.blocks in
    record s {
      opened = s.opened || opens;
      write_refs = s.write_refs + 1;
      blocks = update x (λ (b : Block). record b { net_fiber = some self }) t;
    }

-- save_progress, which writes the file_block of each block.
abbrev pub file_block : Block → ℕ × ℕ
file_block b = (b.from, b.to)

unfoldable pub save_progress : Tree → List (ℕ × ℕ)
unfolding inorder
save_progress t = map file_block (inorder t)

-- close; `in_disk` is FLAG_IN_DISK and a progress file that can be opened.
unfoldable pub close : Bool → Shared → Shared
unfolding save_progress
close in_disk s =
    if s.read_refs == 0 && s.write_refs == 0 && s.opened
    then record s {
      opened = false;
      saved = if in_disk then some (save_progress s.blocks) else s.saved;
    }
    else s

unfoldable pub close_read : Bool → Shared → Shared
unfolding close
close_read in_disk s = close in_disk (record s { read_refs = s.read_refs - 1 })

-- The answer of read: -1, -2 with no net fiber, -2 with *net_fiber and the range to fetch, the bytes,
-- or the wait of the fiber.
pub data ReadResult : Type 0 where
  no_file : ReadResult
  no_block : ReadResult
  fetch : ℕ → Option ℕ → ReadResult
  got : List ℕ → ReadResult
  waits : ReadResult

abbrev pub read_file : (ℕ → ℕ) → ℕ → ℕ → List ℕ
read_file file x zero = []
read_file file x (suc n) = file x ∷ read_file file (suc x) n

-- The end of the gap in front of the next block, which is -1 if there is none.
abbrev pub gap_end : Option Block → Option ℕ
gap_end none = none
gap_end (some next) = some (next.from - 1)

abbrev pub advance_read_point : ℕ → Block → Block
advance_read_point offset b =
    if ltb b.read_point offset then record b { read_point = offset } else b

-- read at the end of a block: the fiber becomes its writer, or waits.
abbrev pub read_at_end : RbTree → Bool → Reader → Block → Shared → Option ℕ → Shared × ReadResult
unfolding update
read_at_end rb false reader b s none = (s, no_block)
read_at_end rb true reader b s none = (
  record s {
    write_refs = s.write_refs + 1;
    blocks = update reader.from (λ (b : Block). record b { net_fiber = some reader.rq }) s.blocks;
  },
  fetch reader.from (gap_end (rb.next b.from s.blocks)),
)
read_at_end rb net reader b s (some fiber) = (
  record s {
    blocks =
        update reader.from (λ (b : Block). record b { wait_queue = b.wait_queue ++ reader ∷ [] })
          s.blocks;
  },
  waits,
)

-- read on the block that was found. Of the wanted bytes the file's read returns `count`.
abbrev pub read_block : RbTree → Bool → Reader → ℕ → Shared → Option Block → Shared × ReadResult
unfolding update
read_block rb net reader count s none = (s, no_block)
read_block rb net reader count s (some b) =
    let t = update reader.from (advance_read_point reader.from) s.blocks in
    let s' = record s { blocks = t } in
    let wanted = min reader.size (b.to - reader.from) in
    if ltb reader.from b.to
    then (s', got (read_file s.file reader.from (min count wanted)))
    else read_at_end rb net reader b s' b.net_fiber

-- read; `net` says that the pointer net_fiber is given, `reader` has the offset, the length and the
-- calling fiber.
unfoldable pub read : RbTree → Bool → Reader → ℕ → Shared → Shared × ReadResult
unfolding update insert find_block_node
read rb net reader count s =
    let t = if net then (insert rb reader.from s.blocks).0 else s.blocks in
    let s' = record s { blocks = t } in
    if s.opened
    then read_block rb net reader count s' (find_block_node reader.from t)
    else (s, no_file)
