-- ===== src/BigObject/Writes.antt =====
-- src/KSharedBigObject.cpp: write and close_write. The delay of a writer that is far ahead of its readers
-- is left out, and so is the exchange of the object in the cache when its body is complete.
use kangle.Prelude.{
  ℕ, suc, ◌+◌, ◌-◌, min, Bool, false, not, ◌&&◌, ◌||◌, Option, none, some, List, [], ◌∷◌, ◌++◌,
  ◌==◌, ltb, leb, if◌then◌else◌, length, take, drop, map, is_some,
}
use kangle.BigObject.{Reader, Block, Tree, RbTree, find_block_node, update}
use kangle.BigObject.Operations.{
  Shared, Wakeup, retry, hand_over, KglResult, ok, end, eio, fault, close,
}

-- list::merge on pointers: in the order of the addresses, if the lists are.
unfoldable pub merge : List Reader → List Reader → List Reader
merge [] ys = ys
merge (x ∷ xs) [] = x ∷ xs
merge (x ∷ xs) (y ∷ ys) =
    let second = y ∷ merge (x ∷ xs) ys in
    let first = x ∷ merge xs (y ∷ ys) in if ltb y.address x.address then second else first

-- The writer of the next block, which may become the writer of the merged one, or the last one of its
-- other writers.
abbrev pub is_fiber : Option ℕ → ℕ → Bool
is_fiber none f = false
is_fiber (some g) f = g == f

abbrev pub first_writer : Option ℕ → Option ℕ → Option ℕ
first_writer none other = other
first_writer (some f) other = some f

abbrev pub other_writers : Option ℕ → Option ℕ → List ℕ
other_writers (some f) (some g) = if g == f then [] else g ∷ []
other_writers _ _ = []

-- The block takes over the next one, which it has reached.
unfoldable pub absorb : Block → Block → Block
unfolding merge
absorb next b = record b {
  to = next.to;
  wait_queue = merge b.wait_queue next.wait_queue;
  net_fiber = first_writer b.net_fiber next.net_fiber;
  merged_net_fibers =
      (b.merged_net_fibers ++ other_writers b.net_fiber next.net_fiber) ++ next.merged_net_fibers;
}

-- The loop that splits the wait queue: who is woken, and who keeps waiting.
abbrev pub is_woken : Block → Reader → Bool
is_woken b r = ltb r.from b.to || not (is_some b.net_fiber)

unfoldable pub woken : Block → List Reader → List Reader
woken b [] = []
woken b (r ∷ rs) = let others = woken b rs in if is_woken b r then r ∷ others else others

unfoldable pub still_waiting : Block → List Reader → List Reader
still_waiting b [] = []
still_waiting b (r ∷ rs) =
    let others = still_waiting b rs in if is_woken b r then others else r ∷ others

-- One round of the last loop of write: what a woken reader gets of the bytes at `offset`.
abbrev pub wake : ℕ → List ℕ → Reader → Wakeup
wake offset buf r =
    if ltb r.from offset || leb (length buf) (r.from - offset) || r.size == 0
    then retry r.rq
    else hand_over r.rq
        (take (min r.size (length buf - (r.from - offset))) (drop (r.from - offset) buf))

-- A write of the bytes at an offset of the file.
abbrev pub write_file : ℕ → List ℕ → (ℕ → ℕ) → ℕ → ℕ
write_file x [] file = file
write_file x (c ∷ cs) file = write_file (suc x) cs (λ y. if y == x then c else file y)

-- The block behind the bytes that are written now, and the answer of write.
abbrev pub extend : ℕ → Block → Block
extend stop b = record b { to = stop }

abbrev pub reaches : ℕ → Option Block → Bool
reaches stop none = false
reaches stop (some next) = leb next.from stop

abbrev pub merge_next : ℕ → Option Block → Block → Block
unfolding absorb
merge_next stop none b = extend stop b
merge_next stop (some next) b =
    if leb next.from stop then absorb next (extend stop b) else extend stop b

abbrev pub erase_next : RbTree → ℕ → Option Block → Tree → Tree
erase_next rb stop none t = t
erase_next rb stop (some next) t = if leb next.from stop then rb.erase next.from t else t

unfoldable pub settle : Block → Block
unfolding still_waiting
settle b = record b { wait_queue = still_waiting b b.wait_queue }

-- write on the block that was found, behind the write to the file.
abbrev pub write_block :
    RbTree → ℕ → List ℕ → Shared → Option Block → Shared × KglResult × List Wakeup
unfolding update absorb settle woken
write_block rb offset buf s none = (s, fault, [])
write_block rb offset buf s (some b) =
    let stop = offset + length buf in
    let next = rb.next b.from s.blocks in
    let grown = merge_next stop next b in
    if leb stop b.to then (s, ok, []) else (
      record s {
        blocks =
            erase_next rb stop next
              (update offset (λ (x : Block). settle (merge_next stop next x)) s.blocks);
      },
      if reaches stop next then end else ok,
      map (wake offset buf) (woken grown grown.wait_queue),
    )

-- write. The seek succeeds if `seeks` is true, and then `written` bytes reach the file.
unfoldable pub write : RbTree → Bool → ℕ → ℕ → List ℕ → Shared → Shared × KglResult × List Wakeup
unfolding update absorb settle woken find_block_node
write rb seeks written offset buf s =
    let s' = record s { file = write_file offset (take written buf) s.file } in
    if not s.opened || not seeks
    then (s, eio, [])
    else if ltb written (length buf)
    then (s', eio, [])
    else write_block rb offset buf s' (find_block_node offset s.blocks)

-- The search for the fiber in merged_net_fibers, and its removal.
abbrev pub has_fiber : ℕ → List ℕ → Bool
has_fiber f [] = false
has_fiber f (g ∷ gs) = g == f || has_fiber f gs

abbrev pub erase_fiber : ℕ → List ℕ → List ℕ
erase_fiber f [] = []
erase_fiber f (g ∷ gs) = if g == f then gs else g ∷ erase_fiber f gs

-- block->net_fiber is the front of merged_net_fibers, if there is one.
abbrev pub next_writer : Block → List ℕ → Block
next_writer b [] = record b { net_fiber = none }
next_writer b (f ∷ fs) = record b { net_fiber = some f; merged_net_fibers = fs }

abbrev pub remove_writer : ℕ → Block → Block
remove_writer self b =
    if is_fiber b.net_fiber self
    then next_writer b b.merged_net_fibers
    else record b { merged_net_fibers = erase_fiber self b.merged_net_fibers }

abbrev pub writer_removed : ℕ → Block → Bool
writer_removed self b = is_fiber b.net_fiber self || has_fiber self b.merged_net_fibers

-- The final writer has stopped: nobody waits any more.
abbrev pub dismissed : ℕ → Block → Bool
dismissed self b = writer_removed self b && not (is_some (remove_writer self b).net_fiber)

abbrev pub dismiss : Block → Block
dismiss b = record b { read_point = b.from; wait_queue = [] }

unfoldable pub leave : ℕ → Block → Block
leave self b = if dismissed self b then dismiss (remove_writer self b) else remove_writer self b

abbrev pub is_whole : ℕ → Block → Bool
is_whole content_length b = b.from == 0 && leb content_length b.to

-- close_write on the block that was found: the new state, whether the object is now to be exchanged
-- for a complete one, and who is woken.
abbrev pub close_write_block :
    Bool → ℕ → ℕ → ℕ → Shared → Option Block → Option (Shared × Bool × List Wakeup)
unfolding update leave close
close_write_block in_disk content_length self x s none = none
close_write_block in_disk content_length self x s (some b) =
    let whole = is_whole content_length b in
    some (
      close in_disk (record s {
        blocks = update x (leave self) s.blocks;
        body_complete = s.body_complete || whole;
        write_refs = s.write_refs - 1;
      }),
      whole && not s.body_complete,
      if dismissed self b then map (λ (r : Reader). retry r.rq) b.wait_queue else [],
    )

-- close_write by the fiber `self` that wrote from `x`; `none` is a null pointer that is read.
unfoldable pub close_write : Bool → ℕ → ℕ → ℕ → Shared → Option (Shared × Bool × List Wakeup)
unfolding update leave close find_block_node
close_write in_disk content_length self x s =
    close_write_block in_disk content_length self x s (find_block_node x s.blocks)
