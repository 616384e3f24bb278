-- ===== src/BigObject/Keeps.antt =====
-- src/KSharedBigObject.cpp: every operation keeps the blocks in order and apart, and no reader waits
-- where nobody writes.
use kangle.Prelude.{
  ℕ, ◌≤◌, Bool, true, false, not, ◌&&◌, Option, none, some, List, [], ◌∷◌, ◌++◌, ◌≡◌, refl, ap, sym,
  ◌∙◌, inl, inr, arith, ltb, if◌then◌else◌, if_cases, Bool-cases, is_some,
}
use kangle.BigObject.{Reader, Block, Tree, RbTree, find_block_node, insert, update}
use kangle.BigObject.Located.{IsRbTree}
use kangle.BigObject.Operations.{
  Shared, open_write, read, read_block, read_at_end, advance_read_point, ReadResult, no_file,
}
use kangle.BigObject.Writes.{
  merge, settle, is_woken, still_waiting, leave, next_writer, dismiss, is_fiber, has_fiber,
  erase_fiber,
}
use kangle.BigObject.Valid.{
  Waits, Served, IsGood, find_block_node-Found, update-IsGood, insert-IsGood, find-update,
}

Waits-some :
    (writer : Option ℕ) (f stop : ℕ) (rs : List Reader)
    → Waits writer stop rs
    → Waits (some f) stop rs
Waits-some writer f stop [] h = tt
Waits-some writer f stop (r ∷ rs) h = (h.0, refl, Waits-some writer f stop rs h.2)

Waits-append :
    (writer : Option ℕ) (stop : ℕ) (rs qs : List Reader)
    → Waits writer stop rs
    → Waits writer stop qs
    → Waits writer stop (rs ++ qs)
Waits-append writer stop [] qs h k = k
Waits-append writer stop (r ∷ rs) qs h k = (h.0, h.1, Waits-append writer stop rs qs h.2 k)

-- The reader that comes to the end of a block.
advance_read_point-Served :
    (x : ℕ) (b : Block) → x ≤ b.to → Served b → Served (advance_read_point x b)
advance_read_point-Served x b high (point, waiting) =
    if_cases Served (ltb b.read_point x) (record b { read_point = x }) b (high, waiting)
      (point, waiting)

pub advance_read_point-same :
    (x : ℕ) (b : Block)
    → ((advance_read_point x b).from ≡ b.from)
      × ((advance_read_point x b).to ≡ b.to)
      × ((advance_read_point x b).net_fiber ≡ b.net_fiber)
advance_read_point-same x b =
    if_cases (λ (c : Block). (c.from ≡ b.from) × (c.to ≡ b.to) × (c.net_fiber ≡ b.net_fiber))
      (ltb b.read_point x) (record b { read_point = x }) b (refl, refl, refl) (refl, refl, refl)

-- A writer that leaves: whoever waited behind the last one is woken.
next_writer-Served :
    (b : Block) (fs : List ℕ)
    → Served b
    → (is_some (next_writer b fs).net_fiber ≡ true → Served (next_writer b fs))
      × ((next_writer b fs).from ≡ b.from)
      × ((next_writer b fs).to ≡ b.to)
next_writer-Served b [] (point, waiting) = (λ h. absurd (ground arith), refl, refl)
next_writer-Served b (f ∷ fs) (point, waiting) =
    (λ h. (point, Waits-some b.net_fiber f b.to b.wait_queue waiting), refl, refl)

dismiss-Served :
    (flag : Bool) (b : Block)
    → b.from ≤ b.to
    → (flag ≡ false → Served b)
    → Served (if flag then dismiss b else b)
dismiss-Served true b fits h = (fits, tt)
dismiss-Served false b fits h = h refl

dismiss-same :
    (flag : Bool) (b : Block)
    → ((if flag then dismiss b else b).from ≡ b.from) × ((if flag then dismiss b else b).to ≡ b.to)
dismiss-same true b = (refl, refl)
dismiss-same false b = (refl, refl)

pub leave-Served :
    (self : ℕ) (b : Block)
    → b.from ≤ b.to
    → Served b
    → Served (leave self b) × ((leave self b).from ≡ b.from) × ((leave self b).to ≡ b.to)
unfolding leave
leave-Served self b fits served = elim (Bool-cases (is_fiber b.net_fiber self)) [
  | inl own ↦
      let next = next_writer b b.merged_net_fibers in
      let (kept, same_from, same_to) = next_writer-Served b b.merged_net_fibers served in
      let ends = dismiss-same (not (is_some next.net_fiber)) next in
      rw own (
        dismiss-Served (not (is_some next.net_fiber)) next (omega (arith, fits, same_from, same_to))
            (λ (h : not (is_some next.net_fiber) ≡ false). kept (ground arith)),
        ends.0 ∙ same_from,
        ends.1 ∙ same_to,
      )
  | inr other ↦
      let rest = record b { merged_net_fibers = erase_fiber self b.merged_net_fibers } in
      let flag = has_fiber self b.merged_net_fibers && not (is_some b.net_fiber) in
      let ends = dismiss-same flag rest in
      rw other (dismiss-Served flag rest fits (λ (h : flag ≡ false). served), ends.0, ends.1)
]

abbrev pub AllUpTo : ℕ → List Reader → Type 0
AllUpTo stop [] = Unit
AllUpTo stop (r ∷ rs) = (r.from ≤ stop) × AllUpTo stop rs

-- write: the readers that keep waiting are at the end of the block, which has a writer.
still_waiting-Waits :
    (b : Block) (rs : List Reader) → AllUpTo b.to rs → Waits b.net_fiber b.to (still_waiting b rs)
unfolding still_waiting
still_waiting-Waits b [] h = tt
still_waiting-Waits b (r ∷ rs) h = elim (Bool-cases (is_woken b r)) [
  | inl wakes ↦ rw wakes (still_waiting-Waits b rs h.1)
  | inr stays ↦ rw stays (ground arith, ground arith, still_waiting-Waits b rs h.1)
]

pub merge-AllUpTo :
    (stop : ℕ) (rs qs : List Reader)
    → AllUpTo stop rs
    → AllUpTo stop qs
    → AllUpTo stop (merge rs qs)
unfolding merge
merge-AllUpTo stop [] qs h k = k
merge-AllUpTo stop (r ∷ rs) [] h k = h
merge-AllUpTo stop (r ∷ rs) (q ∷ qs) h k =
    if_cases (AllUpTo stop) (ltb q.address r.address) (q ∷ merge (r ∷ rs) qs)
      (r ∷ merge rs (q ∷ qs)) (k.0, merge-AllUpTo stop (r ∷ rs) qs h k.1)
      (h.0, merge-AllUpTo stop rs (q ∷ qs) h.1 k)

pub Waits-AllUpTo :
    (writer : Option ℕ) (stop limit : ℕ) (rs : List Reader)
    → stop ≤ limit
    → Waits writer stop rs
    → AllUpTo limit rs
Waits-AllUpTo writer stop limit [] fits h = tt
Waits-AllUpTo writer stop limit (r ∷ rs) fits h =
    (omega (arith, h.0), Waits-AllUpTo writer stop limit rs fits h.2)

pub settle-Served :
    (b : Block) → b.read_point ≤ b.to → AllUpTo b.to b.wait_queue → Served (settle b)
unfolding settle
settle-Served b point h = (point, still_waiting-Waits b b.wait_queue h)

-- read moves the read point of the block first.
pub advance-IsGood :
    (x : ℕ) (t : Tree) (b : Block)
    → IsGood t
    → find_block_node x t ≡ some b
    → IsGood (update x (advance_read_point x) t)
      × (find_block_node x (update x (advance_read_point x) t) ≡ some (advance_read_point x b))
advance-IsGood x t b good found =
    let (ys, zs, e, low, high) = find_block_node-Found x t b good.apart found in
    let (same_from, same_to, same_net) = advance_read_point-same x b in
    let good' =
      update-IsGood x (advance_read_point x) t b good found same_from same_to
        (advance_read_point-Served x b high) in
    (good', find-update x (advance_read_point x) t b good good' found same_from same_to)

module _ (rb : RbTree) (lawful : IsRbTree rb) where
  pub open_write-IsGood :
      (opens : Bool) (self x : ℕ) (s : Shared)
      → IsGood s.blocks
      → IsGood (open_write rb opens self x s).blocks
  unfolding open_write
  open_write-IsGood opens self x s good =
      let (good', (b, found)) = insert-IsGood rb lawful x s.blocks good in
      update-IsGood x (λ (c : Block). record c { net_fiber = some self }) (insert rb x s.blocks).0 b
        good' found refl refl
        (λ (h : Served b). (h.0, Waits-some b.net_fiber self b.to b.wait_queue h.1))

  read_at_end-IsGood :
      (net : Bool) (reader : Reader) (b c : Block) (s : Shared) (writer : Option ℕ)
      → IsGood s.blocks
      → find_block_node reader.from s.blocks ≡ some c
      → reader.from ≡ c.to
      → writer ≡ c.net_fiber
      → IsGood (read_at_end rb net reader b s writer).0.blocks
  unfolding update
  read_at_end-IsGood false reader b c s none good found at_end same = good
  read_at_end-IsGood true reader b c s none good found at_end same =
      update-IsGood reader.from (λ (c : Block). record c { net_fiber = some reader.rq }) s.blocks c
        good found refl refl
        (λ (h : Served c). (h.0, Waits-some c.net_fiber reader.rq c.to c.wait_queue h.1))
  read_at_end-IsGood net reader b c s (some fiber) good found at_end same =
      update-IsGood reader.from
        (λ (c : Block). record c { wait_queue = c.wait_queue ++ reader ∷ [] }) s.blocks c good found
        refl refl
        (λ (h : Served c). (
          h.0,
          Waits-append c.net_fiber c.to c.wait_queue (reader ∷ []) h.1
              (at_end, ap is_some (sym same), tt),
        ))

  read_block-IsGood :
      (net : Bool) (reader : Reader) (count : ℕ) (s : Shared) (o : Option Block)
      → IsGood s.blocks
      → find_block_node reader.from s.blocks ≡ o
      → IsGood (read_block rb net reader count s o).0.blocks
  unfolding update
  read_block-IsGood net reader count s none good found = good
  read_block-IsGood net reader count s (some b) good found =
      let x = reader.from in
      let (ys, zs, e, low, high) = find_block_node-Found x s.blocks b good.apart found in
      let (same_from, same_to, same_net) = advance_read_point-same x b in
      let (good', found') = advance-IsGood x s.blocks b good found in
      let s' = record s { blocks = update x (advance_read_point x) s.blocks } in
      elim (Bool-cases (ltb x b.to)) [
        | inl inside ↦ rw inside good'
        | inr at_end ↦
            let last : x ≡ b.to = ground arith in
            rw at_end (
              read_at_end-IsGood net reader b (advance_read_point x b) s' b.net_fiber good' found'
                (last ∙ sym same_to) (sym same_net))
      ]

  pub read-IsGood :
      (net : Bool) (reader : Reader) (count : ℕ) (s : Shared)
      → IsGood s.blocks
      → IsGood (read rb net reader count s).0.blocks
  unfolding read
  read-IsGood net reader count s good =
      let t = if net then (insert rb reader.from s.blocks).0 else s.blocks in
      let good' =
        if_cases IsGood net (insert rb reader.from s.blocks).0 s.blocks
          (insert-IsGood rb lawful reader.from s.blocks good).0 good in
      if_cases (λ (r : Shared × ReadResult). IsGood r.0.blocks) s.opened
        (read_block rb net reader count (record s { blocks = t }) (find_block_node reader.from t))
        (s, no_file)
        (read_block-IsGood net reader count (record s { blocks = t })
          (find_block_node reader.from t) good' refl)
        good
