-- ===== src/BigObject/Wakes.antt =====
-- src/KSharedBigObject.cpp: what write hands to the readers that wait.
use kangle.Prelude.{
  ℕ, zero, suc, ◌+◌, ◌-◌, ◌≤◌, ◌<◌, min, Bool, not, ◌||◌, Option, none, some, List, [], ◌∷◌, ◌++◌,
  ◌≡◌, refl, ap, sym, ◌∙◌, ◌⊎◌, inl, inr, arith, ltb, leb, ◌==◌, Bool-cases, if_cases, length, take,
  drop, length-take, length-drop, map,
}
use mathlib.Core.Path.{subst}
use kangle.BigObject.{Reader, Block, RbTree, find_block_node, inorder, update}
use kangle.BigObject.InOrder.{Above}
use kangle.BigObject.Located.{IsRbTree, following, following-at, first}
use kangle.BigObject.Operations.{Shared, read_file, Wakeup, retry, hand_over}
use kangle.BigObject.Writes.{
  merge, absorb, settle, is_woken, woken, wake, merge_next, write_block, write, write_file,
}
use kangle.BigObject.Valid.{IsGood, find_block_node-Found}
use kangle.BigObject.FileBytes.{Matches, take-Matches}

abbrev pub In : Reader → List Reader → Type 0
In r [] = ⊥
In r (x ∷ xs) = (x ≡ r) ⊎ In r xs

-- The reader waits in one of the blocks.
abbrev pub WaitsIn : List Block → Reader → Type 0
WaitsIn [] r = ⊥
WaitsIn (b ∷ bs) r = In r b.wait_queue ⊎ WaitsIn bs r

-- What a reader that waits is woken with by a write of the bytes of the body from `offset` up to `stop`:
-- the body's bytes at its own offset, as many as it asked for and as there are, or the order to read
-- again, where it has none of these bytes to get.
abbrev pub IsAnswer : (ℕ → ℕ) → ℕ → ℕ → Reader → Wakeup → Type 0
IsAnswer body offset stop r (retry rq) =
    (rq ≡ r.rq) × ((r.from < offset) ⊎ (stop ≤ r.from) ⊎ (r.size ≡ 0))
IsAnswer body offset stop r (hand_over rq bytes) =
    (rq ≡ r.rq)
    × (offset ≤ r.from)
    × (0 < length bytes)
    × (length bytes ≡ min r.size (stop - r.from))
    × (bytes ≡ read_file body r.from (length bytes))

abbrev pub AllAnswers : (ℕ → ℕ) → List Block → ℕ → ℕ → List Wakeup → Type 0
AllAnswers body bs offset stop [] = Unit {0}
AllAnswers body bs offset stop (u ∷ us) =
    ((r : Reader) × WaitsIn bs r × IsAnswer body offset stop r u)
    × AllAnswers body bs offset stop us

drop-Matches :
    (body : ℕ → ℕ) (k x : ℕ) (buf : List ℕ) → Matches body x buf → Matches body (x + k) (drop k buf)
drop-Matches body zero x buf h = subst (λ (y : ℕ). Matches body y buf) (omega arith) h
drop-Matches body (suc k) x [] h = tt
drop-Matches body (suc k) x (c ∷ cs) h =
    subst (λ (y : ℕ). Matches body y (drop k cs)) (omega arith) (drop-Matches body k (suc x) cs h.1)

Matches-read_file :
    (body : ℕ → ℕ) (x : ℕ) (buf : List ℕ) → Matches body x buf → buf ≡ read_file body x (length buf)
Matches-read_file body x [] h = refl
Matches-read_file body x (c ∷ cs) (same, rest) =
    rw same (ap (λ (r : List ℕ). body x ∷ r) (Matches-read_file body (suc x) cs rest))

handed :
    (body : ℕ → ℕ) (offset : ℕ) (buf : List ℕ) (r : Reader)
    → Matches body offset buf
    → offset ≤ r.from
    → r.from - offset < length buf
    → 0 < r.size
    → IsAnswer body offset (offset + length buf) r (
        hand_over r.rq
          (take (min r.size (length buf - (r.from - offset))) (drop (r.from - offset) buf)))
handed body offset buf r h low high asked =
    let k = r.from - offset in
    let n = min r.size (length buf - k) in
    let size = length-take n (drop k buf) in
    let rest = length-drop k buf in
    let at : offset + k ≡ r.from = omega arith in
    let matches =
      subst (λ (x : ℕ). Matches body x (take n (drop k buf))) at
        (take-Matches body n (offset + k) (drop k buf) (drop-Matches body k offset buf h)) in
    (
      refl,
      low,
      omega arith,
      omega arith,
      Matches-read_file body r.from (take n (drop k buf)) matches,
    )

wake-IsAnswer :
    (body : ℕ → ℕ) (offset : ℕ) (buf : List ℕ) (r : Reader)
    → Matches body offset buf
    → IsAnswer body offset (offset + length buf) r (wake offset buf r)
wake-IsAnswer body offset buf r h = elim (Bool-cases (ltb r.from offset)) [
  | inl early ↦ rw early (refl, inl (ground arith))
  | inr there ↦ elim (Bool-cases (leb (length buf) (r.from - offset))) [
    | inl late ↦ rw (there, late) (refl, inr (inl (ground arith)))
    | inr inside ↦ elim (Bool-cases (r.size == 0)) [
      | inl no_bytes ↦ rw (there, inside, no_bytes) (refl, inr (inr (ground arith)))
      | inr asked ↦
          rw (there, inside, asked)
            (handed body offset buf r h (ground arith) (ground arith) (ground arith))
    ]
  ]
]

-- A property of all readers of a queue.
abbrev AllOf : (Reader → Type 0) → List Reader → Type 0
AllOf P [] = Unit {0}
AllOf P (r ∷ rs) = P r × AllOf P rs

In-AllOf : (P : Reader → Type 0) (rs : List Reader) → ((r : Reader) → In r rs → P r) → AllOf P rs
In-AllOf P [] h = tt
In-AllOf P (r ∷ rs) h = (h r (inl refl), In-AllOf P rs (λ q m. h q (inr m)))

woken-AllOf :
    (P : Reader → Type 0) (b : Block) (rs : List Reader) → AllOf P rs → AllOf P (woken b rs)
unfolding woken
woken-AllOf P b [] h = tt
woken-AllOf P b (r ∷ rs) (one, rest) =
    let ih = woken-AllOf P b rs rest in
    if_cases (AllOf P) (is_woken b r) (r ∷ woken b rs) (woken b rs) (one, ih) ih

merge-AllOf :
    (P : Reader → Type 0) (xs ys : List Reader) → AllOf P xs → AllOf P ys → AllOf P (merge xs ys)
unfolding merge
merge-AllOf P [] ys h k = k
merge-AllOf P (x ∷ xs) [] h k = h
merge-AllOf P (x ∷ xs) (y ∷ ys) h k =
    if_cases (AllOf P) (ltb y.address x.address) (y ∷ merge (x ∷ xs) ys) (x ∷ merge xs (y ∷ ys))
      (k.0, merge-AllOf P (x ∷ xs) ys h k.1) (h.0, merge-AllOf P xs (y ∷ ys) h.1 k)

merge_next-AllOf :
    (P : Reader → Type 0) (stop : ℕ) (o : Option Block) (b : Block)
    → AllOf P b.wait_queue
    → ((n : Block) → o ≡ some n → AllOf P n.wait_queue)
    → AllOf P (merge_next stop o b).wait_queue
unfolding absorb
merge_next-AllOf P stop none b h k = h
merge_next-AllOf P stop (some n) b h k = elim (Bool-cases (leb n.from stop)) [
  | inl joined ↦ rw joined (merge-AllOf P b.wait_queue n.wait_queue h (k n refl))
  | inr apart ↦ rw apart h
]

WaitsIn-at :
    (ys : List Block) (b : Block) (zs : List Block) (r : Reader)
    → In r b.wait_queue
    → WaitsIn (ys ++ b ∷ zs) r
WaitsIn-at [] b zs r h = inl h
WaitsIn-at (y ∷ ys) b zs r h = inr (WaitsIn-at ys b zs r h)

WaitsIn-next :
    (ys : List Block) (b : Block) (zs : List Block) (n : Block) (r : Reader)
    → first zs ≡ some n
    → In r n.wait_queue
    → WaitsIn (ys ++ b ∷ zs) r
WaitsIn-next [] b [] n r e h = absurd (cc)
WaitsIn-next [] b (z ∷ zs) n r e h =
    let same : n ≡ z = cc in inr (inl (subst (λ (c : Block). In r c.wait_queue) same h))
WaitsIn-next (y ∷ ys) b zs n r e h = inr (WaitsIn-next ys b zs n r e h)

module _ (body : ℕ → ℕ) (rb : RbTree) (lawful : IsRbTree rb) where
  wakes-AllAnswers :
      (bs : List Block) (offset : ℕ) (buf : List ℕ) (rs : List Reader)
      → Matches body offset buf
      → AllOf (WaitsIn bs) rs
      → AllAnswers body bs offset (offset + length buf) (map (wake offset buf) rs)
  wakes-AllAnswers bs offset buf [] h all = tt
  wakes-AllAnswers bs offset buf (r ∷ rs) h (one, all) =
      ((r, one, wake-IsAnswer body offset buf r h), wakes-AllAnswers bs offset buf rs h all)

  write_block-AllAnswers :
      (offset : ℕ) (buf : List ℕ) (s : Shared) (o : Option Block)
      → IsGood s.blocks
      → find_block_node offset s.blocks ≡ o
      → Matches body offset buf
      → AllAnswers body
          (inorder s.blocks)
          offset
          (offset + length buf)
          (write_block rb offset buf s o).2
  unfolding update absorb settle woken
  write_block-AllAnswers offset buf s none good found h = tt
  write_block-AllAnswers offset buf s (some b) good found h =
      elim (Bool-cases (leb (offset + length buf) b.to)) [
        | inl inside ↦ rw inside tt
        | inr outside ↦
            let stop = offset + length buf in
            let bs = inorder s.blocks in
            let next = rb.next b.from s.blocks in
            let (ys, zs, e, low, high) = find_block_node-Found offset s.blocks b good.apart found in
            let next_is : next ≡ first zs =
              lawful.next_lem b.from s.blocks
              ∙ ap (following b.from) e
              ∙ following-at b zs 0 ys (subst (λ (xs : List Block). Above 0 xs) e good.apart) in
            let own : AllOf (WaitsIn bs) b.wait_queue =
              In-AllOf (WaitsIn bs) b.wait_queue (λ r m.
                subst (λ (xs : List Block). WaitsIn xs r) (sym e) (WaitsIn-at ys b zs r m)) in
            let behind : (n : Block) → next ≡ some n → AllOf (WaitsIn bs) n.wait_queue = λ n is.
              In-AllOf (WaitsIn bs) n.wait_queue (λ r m.
                subst (λ (xs : List Block). WaitsIn xs r) (sym e)
                  (WaitsIn-next ys b zs n r (sym next_is ∙ is) m)) in
            let grown = merge_next stop next b in
            rw outside (
              wakes-AllAnswers bs offset buf (woken grown grown.wait_queue) h (
                woken-AllOf (WaitsIn bs) grown grown.wait_queue
                  (merge_next-AllOf (WaitsIn bs) stop next b own behind)))
      ]

  pub write-AllAnswers :
      (seeks : Bool) (written offset : ℕ) (buf : List ℕ) (s : Shared)
      → IsGood s.blocks
      → Matches body offset buf
      → AllAnswers body
          (inorder s.blocks)
          offset
          (offset + length buf)
          (write rb seeks written offset buf s).2
  unfolding write
  write-AllAnswers seeks written offset buf s good h =
      let s' = record s { file = write_file offset (take written buf) s.file } in
      elim (Bool-cases (not s.opened || not seeks)) [
        | inl closed ↦ rw closed tt
        | inr open_file ↦ rw open_file (elim (Bool-cases (ltb written (length buf))) [
          | inl short ↦ rw short tt
          | inr whole ↦
              rw whole
                (write_block-AllAnswers offset buf s' (find_block_node offset s.blocks) good refl h)
        ])
      ]
