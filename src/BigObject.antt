-- ===== src/BigObject.antt =====
-- include/KSharedBigObject.h, src/KSharedBigObject.cpp: the stored parts of a big object, in a search
-- tree of blocks. A fiber is a number, and so is the address of a waiting reader. Offsets are not
-- negative.
pub mod InOrder
pub mod Located
pub mod Operations
pub mod Writes
pub mod Valid
pub mod Keeps
pub mod Grown
pub mod Runs
pub mod Bytes
pub mod FileBytes
pub mod Contents
pub mod Wakes
pub mod Delivers
pub mod Satisfy
pub mod Progress
mod Tests
use kangle.Prelude.{
  ℕ, Bool, true, false, Option, none, some, List, [], ◌∷◌, ◌++◌, ◌==◌, ltb, if◌then◌else◌,
}

-- BigObjectReadQueue
pub record Reader : Type 0 where
  pub address : ℕ
  pub rq : ℕ
  pub from : ℕ
  pub size : ℕ

-- KBigObjectBlock with its file_block: the bytes [from, to) are in the file.
pub record Block : Type 0 where
  pub from : ℕ
  pub to : ℕ
  pub read_point : ℕ
  pub wait_queue : List Reader
  pub net_fiber : Option ℕ
  pub merged_net_fibers : List ℕ

-- krb_root and krb_node, without the colours.
pub data Tree : Type 0 where
  leaf : Tree
  node : Tree → Block → Tree → Tree

abbrev pub new_block : ℕ → Block
new_block x = record {
  from = x;
  to = x;
  read_point = 0;
  wait_queue = [];
  net_fiber = none;
  merged_net_fibers = [];
}

-- The loop of find_next_block_node; `last` is its variable.
unfoldable pub find_next_from : Option Block → ℕ → Tree → Option Block
find_next_from last x leaf = last
find_next_from last x (node l b r) =
    let left = find_next_from (some b) x l in
    let right = find_next_from last x r in
    if ltb x b.from then left else if ltb b.to x then right else last

abbrev pub find_next_block_node : ℕ → Tree → Option Block
unfolding find_next_from
find_next_block_node x t = find_next_from none x t

unfoldable pub find_block_node : ℕ → Tree → Option Block
find_block_node x leaf = none
find_block_node x (node l b r) =
    let left = find_block_node x l in
    let right = find_block_node x r in
    if ltb x b.from then left else if ltb b.to x then right else some b

-- The walk of `insert`: a new block is linked where the walk ends.
unfoldable pub link : ℕ → Tree → Tree
link x leaf = node leaf (new_block x) leaf
link x (node l b r) =
    let left = link x l in
    let right = link x r in
    if ltb x b.from then node left b r else if ltb b.to x then node l b right else node l b r

-- A write through the pointer to the block that a walk to `x` finds.
unfoldable pub update : ℕ → (Block → Block) → Tree → Tree
update x f leaf = leaf
update x f (node l b r) =
    let left = update x f l in
    let right = update x f r in
    if ltb x b.from then node left b r else if ltb b.to x then node l b right else node l (f b) r

-- The blocks in their order.
unfoldable pub inorder : Tree → List Block
inorder leaf = []
inorder (node l b r) = inorder l ++ b ∷ inorder r

-- krbtree.h, which is not in the repository: rb_insert_color, and rb_next and rb_erase on the node of
-- the block that begins at a given offset.
pub record RbTree : Type 0 where
  pub color : Tree → Tree
  pub next : ℕ → Tree → Option Block
  pub erase : ℕ → Tree → Tree

-- insert: the tree, and whether the block is new.
unfoldable pub insert : RbTree → ℕ → Tree → Tree × Bool
unfolding find_block_node link
insert rb x t = elim (find_block_node x t) [
  | some b ↦ (t, false)
  | none ↦ (rb.color (link x t), true)
]
