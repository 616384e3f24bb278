-- ===== src/BigObject/Runs.antt =====
-- src/KSharedBigObject.cpp: any sequence of the operations, as the fibers make them one by one.
use kangle.Prelude.{ℕ, ◌-◌, Bool, false, Option, none, some, List, [], ◌∷◌, ◌≡◌, refl, sym, ◌||◌}
use mathlib.Core.Path.{subst}
use kangle.BigObject.{Reader, Block, leaf, RbTree, find_block_node, update, inorder}
use kangle.BigObject.Located.{IsRbTree}
use kangle.BigObject.Operations.{
  KglResult, ok, end, eio, fault, Wakeup, Shared, open_read, open_write, close_read, close, read,
}
use kangle.BigObject.Writes.{write, close_write, close_write_block, is_whole, leave}
use kangle.BigObject.Valid.{
  AllServed-append, Served, AllServed, IsGood, find_block_node-Found, update-IsGood,
}
use kangle.BigObject.InOrder.{Above, Above-append}
use kangle.BigObject.Keeps.{open_write-IsGood, read-IsGood, leave-Served}
use kangle.BigObject.Grown.{write-IsGood, close-blocks}

-- KSharedBigObject()
abbrev pub fresh : Shared
fresh = record {
  body_complete = false;
  read_refs = 0;
  write_refs = 0;
  blocks = leaf;
  opened = false;
  file = λ x. 0;
  saved = none;
}

-- The calls that a fiber makes, with what the files answer.
pub data Call : Type 0 where
  reader_opens : Bool → Call
  writer_opens : Bool → ℕ → ℕ → Call
  reader_closes : Bool → Call
  reads : Bool → Reader → ℕ → Call
  writes : Bool → ℕ → ℕ → List ℕ → Call
  writer_closes : Bool → ℕ → ℕ → ℕ → Call

abbrev pub closed_state : Option (Shared × Bool × List Wakeup) → Option Shared
closed_state none = none
closed_state (some (s, exchange, wakeups)) = some s

abbrev pub written_state : Shared × KglResult × List Wakeup → Option Shared
written_state (s, fault, wakeups) = none
written_state (s, ok, wakeups) = some s
written_state (s, end, wakeups) = some s
written_state (s, eio, wakeups) = some s

-- `none` is a null pointer that is read.
unfoldable pub call : RbTree → Call → Shared → Option Shared
call rb (reader_opens opens) s = some (open_read opens s)
call rb (writer_opens opens self x) s = some (open_write rb opens self x s)
call rb (reader_closes in_disk) s = some (close_read in_disk s)
call rb (reads net reader count) s = some (read rb net reader count s).0
call rb (writes seeks written offset buf) s = written_state (write rb seeks written offset buf s)
call rb (writer_closes in_disk content_length self x) s =
    closed_state (close_write in_disk content_length self x s)

unfoldable pub calls : RbTree → List Call → Option Shared → Option Shared
unfolding call
calls rb [] s = s
calls rb (c ∷ cs) none = none
calls rb (c ∷ cs) (some s) = calls rb cs (call rb c s)

abbrev pub IsGoodShared : Option Shared → Type 0
IsGoodShared none = Unit
IsGoodShared (some s) = IsGood s.blocks

written-IsGood :
    (r : Shared × KglResult × List Wakeup) → IsGood r.0.blocks → IsGoodShared (written_state r)
written-IsGood (s, fault, wakeups) good = tt
written-IsGood (s, ok, wakeups) good = good
written-IsGood (s, end, wakeups) good = good
written-IsGood (s, eio, wakeups) good = good

close_write_block-IsGood :
    (in_disk : Bool) (content_length self x : ℕ) (s : Shared) (o : Option Block)
    → IsGood s.blocks
    → find_block_node x s.blocks ≡ o
    → IsGoodShared (closed_state (close_write_block in_disk content_length self x s o))
unfolding update leave close
close_write_block-IsGood in_disk content_length self x s none good found = tt
close_write_block-IsGood in_disk content_length self x s (some b) good found =
    let (ys, zs, e, low, high) = find_block_node-Found x s.blocks b good.apart found in
    let fits = Above-append b zs 0 ys (subst (Above 0) e good.apart) in
    let own = (AllServed-append ys (b ∷ zs) (subst AllServed e good.served)).1.0 in
    let (served, same_from, same_to) = leave-Served self b fits.2 own in
    let t = update x (leave self) s.blocks in
    let closing = record s {
      blocks = t;
      body_complete = s.body_complete || is_whole content_length b;
      write_refs = s.write_refs - 1;
    } in
    subst IsGood (sym (close-blocks in_disk closing)) (
      update-IsGood x (leave self) s.blocks b good found same_from same_to
        (λ (h : Served b). served))

module _ (rb : RbTree) (lawful : IsRbTree rb) where
  pub call-IsGood : (c : Call) (s : Shared) → IsGood s.blocks → IsGoodShared (call rb c s)
  unfolding call open_read close_read close_write
  call-IsGood (reader_opens opens) s good = good
  call-IsGood (writer_opens opens self x) s good = open_write-IsGood rb lawful opens self x s good
  call-IsGood (reader_closes in_disk) s good =
      subst IsGood (sym (close-blocks in_disk (record s { read_refs = s.read_refs - 1 }))) good
  call-IsGood (reads net reader count) s good = read-IsGood rb lawful net reader count s good
  call-IsGood (writes seeks written offset buf) s good =
      written-IsGood (write rb seeks written offset buf s)
        (write-IsGood rb lawful seeks written offset buf s good)
  call-IsGood (writer_closes in_disk content_length self x) s good =
      close_write_block-IsGood in_disk content_length self x s (find_block_node x s.blocks) good
        refl

  calls_from-IsGood :
      (cs : List Call) (o : Option Shared) → IsGoodShared o → IsGoodShared (calls rb cs o)
  unfolding calls
  calls_from-IsGood [] o good = good
  calls_from-IsGood (c ∷ cs) none good = tt
  calls_from-IsGood (c ∷ cs) (some s) good =
      calls_from-IsGood cs (call rb c s) (call-IsGood c s good)

pub fresh-IsGood : IsGood leaf
unfolding inorder
fresh-IsGood = record { apart = tt; served = tt }

-- In every state that a fresh KSharedBigObject reaches by calls of its readers and writers, in any
-- order and whatever the files answer, the blocks are in order, apart from each other and none ends
-- before it begins; each reader that waits is at the end of its block, where no byte is yet, and the
-- block has a writer. So no reader waits for nobody.
pub calls-IsGood :
    (rb : RbTree) (cs : List Call) → IsRbTree rb → IsGoodShared (calls rb cs (some fresh))
calls-IsGood rb cs lawful = calls_from-IsGood rb lawful cs (some fresh) fresh-IsGood
