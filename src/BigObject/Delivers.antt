-- ===== src/BigObject/Delivers.antt =====
-- src/KSharedBigObject.cpp: what any run of calls hands to a reader.
use kangle.Prelude.{
  ℕ, zero, suc, ◌+◌, ◌-◌, ◌≤◌, ◌<◌, min, Bool, true, false, Option, none, some, List, [], ◌∷◌, ◌≡◌,
  refl, ap, ◌∙◌, inl, inr, arith, ltb, if◌then◌else◌, Bool-cases, length,
}
use mathlib.Core.Path.{subst}
use kangle.BigObject.{Reader, Block, Tree, RbTree, find_block_node, insert, update, inorder}
use kangle.BigObject.Located.{IsRbTree}
use kangle.BigObject.Operations.{
  Shared, open_read, close_read, close, read, read_block, read_at_end, read_file,
  advance_read_point, ReadResult, no_file, no_block, fetch, waits, got, KglResult, ok, end, eio,
  fault, Wakeup,
}
use kangle.BigObject.Writes.{write, close_write}
use kangle.BigObject.Valid.{IsGood, find_block_node-Found}
use kangle.BigObject.Grown.{close-blocks}
use kangle.BigObject.Bytes.{in_block, cached, cached-own}
use kangle.BigObject.Runs.{
  Call, reader_opens, writer_opens, reader_closes, reads, writes, writer_closes, call, calls, fresh,
  IsGoodShared, written_state, call-IsGood, fresh-IsGood,
}
use kangle.BigObject.Contents.{
  Holds, HoldsShared, Holds-same, write-Holds, open_write-Holds, read-Holds,
  close_write_block-Holds, looked_in-Good, close-file,
}
use kangle.BigObject.FileBytes.{Matches}
use kangle.BigObject.Wakes.{AllAnswers, write-AllAnswers}

-- Each write brings the bytes of the body at its offset.
abbrev pub Brings : (ℕ → ℕ) → List Call → Type 0
Brings body [] = Unit
Brings body (writes seeks written offset buf ∷ cs) = Matches body offset buf × Brings body cs
Brings body (_ ∷ cs) = Brings body cs

abbrev BringsOne : (ℕ → ℕ) → Call → Type 0
BringsOne body (writes seeks written offset buf) = Matches body offset buf
BringsOne body _ = Unit

Brings-cons :
    (body : ℕ → ℕ) (c : Call) (cs : List Call)
    → Brings body (c ∷ cs)
    → BringsOne body c × Brings body cs
Brings-cons body (writes seeks written offset buf) cs h = h
Brings-cons body (reader_opens opens) cs h = (tt, h)
Brings-cons body (writer_opens opens self x) cs h = (tt, h)
Brings-cons body (reader_closes in_disk) cs h = (tt, h)
Brings-cons body (reads net reader count) cs h = (tt, h)
Brings-cons body (writer_closes in_disk content_length self x) cs h = (tt, h)

written-Holds :
    (body : ℕ → ℕ) (r : Shared × KglResult × List Wakeup)
    → Holds body r.0
    → HoldsShared body (written_state r)
written-Holds body (s, fault, wakeups) h = tt
written-Holds body (s, ok, wakeups) h = h
written-Holds body (s, end, wakeups) h = h
written-Holds body (s, eio, wakeups) h = h

fresh-Holds : (body : ℕ → ℕ) → Holds body fresh
unfolding inorder
fresh-Holds body x h = absurd (ground arith)

if_result :
    (b : Bool) (x y : Shared × ReadResult) (bytes : List ℕ)
    → b ≡ true
    → (if b then x else y).1 ≡ got bytes
    → x.1 ≡ got bytes
if_result true x y bytes e h = h
if_result false x y bytes e h = absurd (ground arith)

no_file-got :
    (b : Bool) (x : Shared × ReadResult) (s : Shared) (bytes : List ℕ)
    → b ≡ false
    → (if b then x else (s, no_file)).1 ≡ got bytes
    → ⊥
no_file-got true x s bytes e h = ground arith
no_file-got false x s bytes e h = cc

abbrev GoodAndHolds : (ℕ → ℕ) → Option Shared → Type 0
GoodAndHolds body o = IsGoodShared o × HoldsShared body o

module _ (body : ℕ → ℕ) (rb : RbTree) (lawful : IsRbTree rb) where
  call-Holds :
      (c : Call) (s : Shared)
      → IsGood s.blocks
      → BringsOne body c
      → Holds body s
      → HoldsShared body (call rb c s)
  unfolding call open_read close_read close_write
  call-Holds (reader_opens opens) s good brings holds = holds
  call-Holds (writer_opens opens self x) s good brings holds =
      open_write-Holds body rb lawful opens self x s good holds
  call-Holds (reader_closes in_disk) s good brings holds =
      let closing = record s { read_refs = s.read_refs - 1 } in
      Holds-same body s (close in_disk closing) (close-file in_disk closing)
        (λ y. ap (λ (t : Tree). cached y (inorder t)) (close-blocks in_disk closing)) holds
  call-Holds (reads net reader count) s good brings holds =
      read-Holds body rb lawful net reader count s good holds
  call-Holds (writes seeks written offset buf) s good brings holds =
      written-Holds body (write rb seeks written offset buf s)
        (write-Holds body rb lawful seeks written offset buf s good brings holds)
  call-Holds (writer_closes in_disk content_length self x) s good brings holds =
      close_write_block-Holds body rb lawful in_disk content_length self x s
        (find_block_node x s.blocks) good refl holds

  calls-GoodAndHolds :
      (cs : List Call) (o : Option Shared)
      → Brings body cs
      → GoodAndHolds body o
      → GoodAndHolds body (calls rb cs o)
  unfolding calls
  calls-GoodAndHolds [] o brings h = h
  calls-GoodAndHolds (c ∷ cs) none brings h = (tt, tt)
  calls-GoodAndHolds (c ∷ cs) (some s) brings (good, holds) =
      let (one, rest) = Brings-cons body c cs brings in
      calls-GoodAndHolds cs (call rb c s) rest
        (call-IsGood rb lawful c s good, call-Holds c s good one holds)

  read_file-same :
      (x n : ℕ) (file : ℕ → ℕ)
      → ((y : ℕ) → x ≤ y → y < x + n → file y ≡ body y)
      → read_file file x n ≡ read_file body x (length (read_file file x n))
  read_file-same x zero file h = refl
  read_file-same x (suc n) file h =
      let ih = read_file-same (suc x) n file (λ y low high. h y (omega arith) (omega arith)) in
      let same = h x (omega arith) (omega arith) in
      rw (same) (ap (λ (bytes : List ℕ). body x ∷ bytes) ih)

  read_at_end-got :
      (net : Bool) (reader : Reader) (b : Block) (s : Shared) (writer : Option ℕ) (bytes : List ℕ)
      → (read_at_end rb net reader b s writer).1 ≡ got bytes
      → bytes ≡ read_file body reader.from (length bytes)
  unfolding update
  read_at_end-got false reader b s none bytes h = absurd (cc)
  read_at_end-got true reader b s none bytes h = absurd (cc)
  read_at_end-got net reader b s (some fiber) bytes h = absurd (cc)

  got-inj : (xs ys : List ℕ) → got xs ≡ got ys → xs ≡ ys
  got-inj xs ys h = cc

  read_block-got :
      (net : Bool) (reader : Reader) (count : ℕ) (s : Shared) (o : Option Block) (bytes : List ℕ)
      → IsGood s.blocks
      → Holds body s
      → find_block_node reader.from s.blocks ≡ o
      → (read_block rb net reader count s o).1 ≡ got bytes
      → bytes ≡ read_file body reader.from (length bytes)
  unfolding update
  read_block-got net reader count s none bytes good holds found h = absurd (cc)
  read_block-got net reader count s (some b) bytes good holds found h =
      let x = reader.from in
      let n = min count (min reader.size (b.to - x)) in
      let (ys, zs, e, low, high) = find_block_node-Found x s.blocks b good.apart found in
      elim (Bool-cases (ltb x b.to)) [
        | inl inside ↦
            let same = read_file-same x n s.file (λ y from_low below.
              let own : in_block y b ≡ true = ground arith in
              holds y (ap (cached y) e ∙ cached-own y b ys zs own)) in
            let bytes_same = got-inj (read_file s.file x n) bytes (rw inside at h) in
            subst (λ (r : List ℕ). r ≡ read_file body x (length r)) bytes_same same
        | inr at_end ↦
            read_at_end-got net reader b
              (record s { blocks = update x (advance_read_point x) s.blocks }) b.net_fiber bytes
              (rw at_end at h)
      ]

-- The bytes that read answers at once.
abbrev pub IsBody : (ℕ → ℕ) → ℕ → ReadResult → Type 0
IsBody body x (got bytes) = bytes ≡ read_file body x (length bytes)
IsBody body x _ = Unit {0}

read-IsBody :
    (body : ℕ → ℕ) (x : ℕ) (r : ReadResult)
    → ((bytes : List ℕ) → r ≡ got bytes → bytes ≡ read_file body x (length bytes))
    → IsBody body x r
read-IsBody body x (got bytes) h = h bytes refl
read-IsBody body x no_file h = tt
read-IsBody body x no_block h = tt
read-IsBody body x (fetch from to) h = tt
read-IsBody body x waits h = tt

read-got :
    (body : ℕ → ℕ) (rb : RbTree) (s : Shared) (net : Bool) (reader : Reader) (count : ℕ)
    (bytes : List ℕ)
    → IsRbTree rb
    → IsGood s.blocks
    → Holds body s
    → (read rb net reader count s).1 ≡ got bytes
    → bytes ≡ read_file body reader.from (length bytes)
unfolding read
read-got body rb s net reader count bytes lawful good holds h =
    let t = if net then (insert rb reader.from s.blocks).0 else s.blocks in
    let (good', kept) = looked_in-Good body rb lawful net reader.from s good holds in
    elim (Bool-cases s.opened) [
      | inl open_file ↦
          read_block-got body rb lawful net reader count (record s { blocks = t })
            (find_block_node reader.from t) bytes good' kept refl
            (if_result s.opened _ _ bytes open_file h)
      | inr closed ↦ absurd (no_file-got s.opened _ s bytes closed h)
    ]

-- In every state that a fresh KSharedBigObject reaches by calls whose writes bring the body's bytes, also
-- where writes fail halfway, blocks merge and writers come and go, the bytes that read returns at
-- once are those of the body from the asked offset on; and whoever a write of the body's bytes at
-- `offset` wakes is a reader that waits in a block, and gets the body's bytes from its own offset
-- on, as many as it asked for and as the write has behind that offset. It is told to read again only
-- if the write has no byte for it: its offset is in front of the written bytes or behind them,
-- or it asked for none.
pub calls-read :
    (body : ℕ → ℕ) (rb : RbTree) (cs : List Call) (s : Shared) (net : Bool) (reader : Reader)
    (count : ℕ) (seeks : Bool) (written offset : ℕ) (buf : List ℕ)
    → IsRbTree rb
    → Brings body cs
    → calls rb cs (some fresh) ≡ some s
    → Matches body offset buf
    → IsBody body reader.from (read rb net reader count s).1
      × AllAnswers body
          (inorder s.blocks)
          offset
          (offset + length buf)
          (write rb seeks written offset buf s).2
calls-read body rb cs s net reader count seeks written offset buf lawful brings reached matches =
    let start : GoodAndHolds body (some fresh) = (fresh-IsGood, fresh-Holds body) in
    let (good, holds) =
      subst (GoodAndHolds body) reached
        (calls-GoodAndHolds body rb lawful cs (some fresh) brings start) in
    (
      read-IsBody body reader.from (read rb net reader count s).1
          (λ bytes. read-got body rb s net reader count bytes lawful good holds),
      write-AllAnswers body rb lawful seeks written offset buf s good matches,
    )
