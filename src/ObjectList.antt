-- ===== src/ObjectList.antt =====
-- include/KObjectList.h, src/KObjectList.cpp: the doubly linked list of the cached objects. The objects
-- are in a heap: a pointer is a number, and `heap` gives the members of the object behind it. The
-- model is the release build: with NDEBUG the assertions and checkList are absent.
pub mod Links
pub mod Refines
mod Tests
use kangle.Prelude.{
  ℕ, zero, suc, Bool, true, false, Option, none, some, List, [], ◌∷◌, ◌==◌, if◌then◌else◌,
}

-- The members of a KHttpObject that the list uses: its links and its list.
pub record Node : Type 0 where
  pub lnext : Option ℕ
  pub lprev : Option ℕ
  pub list_state : ℕ

-- `drop_dead` is cache_model == DROP_DEAD.
pub record ObjectList : Type 0 where
  pub l_head : Option ℕ
  pub l_end : Option ℕ
  pub list_state : ℕ
  pub drop_dead : Bool
  pub heap : ℕ → Node

-- p->lnext = v, p->lprev = v, p->list_state = v
pub set_lnext : ℕ → Option ℕ → (ℕ → Node) → ℕ → Node
set_lnext p v heap k = if k == p then record (heap k) { lnext = v } else heap k

pub set_lprev : ℕ → Option ℕ → (ℕ → Node) → ℕ → Node
set_lprev p v heap k = if k == p then record (heap k) { lprev = v } else heap k

pub set_list_state : ℕ → ℕ → (ℕ → Node) → ℕ → Node
set_list_state p v heap k = if k == p then record (heap k) { list_state = v } else heap k

-- A write through a pointer that was tested.
abbrev pub set_lnext? : Option ℕ → Option ℕ → (ℕ → Node) → ℕ → Node
unfolding set_lnext
set_lnext? none v heap = heap
set_lnext? (some p) v heap = set_lnext p v heap

abbrev pub set_lprev? : Option ℕ → Option ℕ → (ℕ → Node) → ℕ → Node
unfolding set_lprev
set_lprev? none v heap = heap
set_lprev? (some p) v heap = set_lprev p v heap

-- p == q, for a pointer that may be null.
abbrev pub points_to : Option ℕ → ℕ → Bool
points_to none q = false
points_to (some p) q = p == q

-- add(KHttpObject *), behind the assignment of the list's state.
abbrev pub link_end : ObjectList → ℕ → Option ℕ → ObjectList
unfolding set_lnext set_lprev
link_end s m none = record s {
  l_end = some m;
  l_head = some m;
  heap = set_lprev m none (set_lnext m none s.heap);
}
link_end s m (some e) = record s {
  l_end = some m;
  heap = set_lnext m none (set_lprev m (some e) (set_lnext e (some m) s.heap));
}

unfoldable pub add : ObjectList → ℕ → ObjectList
unfolding set_lnext set_lprev set_list_state
add s m = link_end (record s { heap = set_list_state m s.list_state s.heap }) m s.l_end

-- The two writes that take an object out of the chain.
abbrev pub unlink : ℕ → (ℕ → Node) → ℕ → Node
unfolding set_lnext set_lprev
unlink m heap =
    let heap' = set_lprev? (heap m).lnext (heap m).lprev heap in
    set_lnext? (heap' m).lprev (heap' m).lnext heap'

-- remove(KHttpObject *)
unfoldable pub remove : ObjectList → ℕ → ObjectList
unfolding set_lnext set_lprev
remove s m = record s {
  l_head = if points_to s.l_head m then (s.heap m).lnext else s.l_head;
  l_end = if points_to s.l_end m then (s.heap m).lprev else s.l_end;
  heap = unlink m s.heap;
}

-- dead(KHttpObject *), for an object that is not the first; `h` is the first one.
abbrev pub to_front : ObjectList → ℕ → Option ℕ → ObjectList
unfolding set_lnext set_lprev
to_front s m h = record s {
  l_head = some m;
  l_end = if points_to s.l_end m then (s.heap m).lprev else s.l_end;
  drop_dead = true;
  heap = set_lprev m none (set_lnext m h (set_lprev? h (some m) (unlink m s.heap)));
}

unfoldable pub dead : ObjectList → ℕ → ObjectList
unfolding set_lnext set_lprev
dead s m = if points_to s.l_head m then record s { drop_dead = true } else to_front s m s.l_head
