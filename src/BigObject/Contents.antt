-- ===== src/BigObject/Contents.antt =====
-- src/KSharedBigObject.cpp: what readers get is the body that writers bring.
use kangle.Prelude.{
  ℕ, ◌+◌, ◌-◌, ◌<◌, Bool, true, false, not, ◌||◌, Option, none, some, List, [], ◌∷◌, ◌++◌, ◌≡◌,
  refl, ap, sym, ◌∙◌, ◌⊎◌, inl, inr, arith, ltb, leb, if◌then◌else◌, if_cases, Bool-cases, length,
  take,
}
use mathlib.Core.Path.{subst}
use kangle.BigObject.{Reader, Block, Tree, RbTree, find_block_node, insert, update, inorder}
use kangle.BigObject.InOrder.{Above, Above-append}
use kangle.BigObject.Located.{IsRbTree}
use kangle.BigObject.Operations.{
  Shared, open_write, close, read, read_block, read_at_end, advance_read_point, ReadResult, no_file,
  KglResult, Wakeup,
}
use kangle.BigObject.Writes.{
  absorb, settle, woken, write, write_block, write_file, close_write_block, leave, is_whole,
}
use kangle.BigObject.Valid.{insert-IsGood, IsGood, find_block_node-Found}
use kangle.BigObject.Grown.{grow, behind, inorder-write_block, close-blocks}
use kangle.BigObject.Keeps.{advance-IsGood, advance_read_point-same}
use kangle.BigObject.Bytes.{
  cached, in_range, cached-append, cached-update, cached-insert, cached-grow_sound,
}
use kangle.BigObject.Runs.{closed_state}
use kangle.BigObject.FileBytes.{Matches, take-Matches, write_file-inside, take_all}

-- The stored bytes are those of the body.
abbrev pub Holds : (ℕ → ℕ) → Shared → Type 0
Holds body s = (x : ℕ) → cached x (inorder s.blocks) ≡ true → s.file x ≡ body x

abbrev pub HoldsShared : (ℕ → ℕ) → Option Shared → Type 0
HoldsShared body none = Unit
HoldsShared body (some s) = Holds body s

-- A step that changes no byte of the file and stores none.
pub Holds-same :
    (body : ℕ → ℕ) (s s' : Shared)
    → s'.file ≡ s.file
    → ((x : ℕ) → cached x (inorder s'.blocks) ≡ cached x (inorder s.blocks))
    → Holds body s
    → Holds body s'
Holds-same body s s' same stored holds x h =
    ap (λ (f : ℕ → ℕ). f x) same ∙ holds x (sym (stored x) ∙ h)

or-cases : (a b : Bool) → (a || b) ≡ true → (a ≡ true) ⊎ (b ≡ true)
or-cases true b h = inl refl
or-cases false b h = inr h

or_mono : (a b c d : Bool) → (b ≡ true → (c || d) ≡ true) → (a || b) ≡ true → ((a || c) || d) ≡ true
or_mono true b c d f h = refl
or_mono false b c d f h = f h

pub close-file : (in_disk : Bool) (s : Shared) → (close in_disk s).file ≡ s.file
unfolding close
close-file in_disk s = ground arith

leave-same : (self : ℕ) (b : Block) → ((leave self b).from ≡ b.from) × ((leave self b).to ≡ b.to)
unfolding leave
leave-same self b = (ground arith, ground arith)

module _ (body : ℕ → ℕ) (rb : RbTree) (lawful : IsRbTree rb) where
  write_block-file :
      (offset : ℕ) (buf : List ℕ) (s : Shared) (b : Block)
      → (write_block rb offset buf s (some b)).0.file ≡ s.file
  unfolding update absorb settle woken
  write_block-file offset buf s b = ground arith

  write_block-Holds :
      (offset : ℕ) (buf : List ℕ) (s : Shared) (o : Option Block)
      → IsGood s.blocks
      → find_block_node offset s.blocks ≡ o
      → Holds body s
      → ((x : ℕ) → in_range offset (offset + length buf) x ≡ true → s.file x ≡ body x)
      → Holds body (write_block rb offset buf s o).0
  unfolding update absorb settle woken
  write_block-Holds offset buf s none good found holds written = holds
  write_block-Holds offset buf s (some b) good found holds written =
      elim (Bool-cases (leb (offset + length buf) b.to)) [
        | inl inside ↦ rw inside holds
        | inr outside ↦
            let stop = offset + length buf in
            let (ys, zs, e, low, high) = find_block_node-Found offset s.blocks b good.apart found in
            let grows : b.to < stop = ground arith in
            let above = Above-append b zs 0 ys (subst (Above 0) e good.apart) in
            let after = inorder-write_block rb lawful offset buf s b ys zs good e low high grows in
            let stored =
              λ (x : ℕ)
                  (h : cached x (inorder (write_block rb offset buf s (some b)).0.blocks) ≡ true).
                or_mono (cached x ys) (cached x (grow stop zs b ∷ behind stop zs))
                  (cached x (b ∷ zs)) (in_range offset stop x)
                  (cached-grow_sound x offset stop b zs low high grows above.3)
                  (sym (cached-append x ys (grow stop zs b ∷ behind stop zs))
                    ∙ sym (ap (cached x) after)
                    ∙ h) in
            λ x h.
              ap (λ (f : ℕ → ℕ). f x) (write_block-file offset buf s b)
              ∙ elim (or-cases (cached x ys || cached x (b ∷ zs)) (in_range offset stop x)
                  (stored x h)) [
                    | inl before ↦ holds x (ap (cached x) e ∙ cached-append x ys (b ∷ zs) ∙ before)
                    | inr now ↦ written x now
                  ]
      ]

  pub write-Holds :
      (seeks : Bool) (written offset : ℕ) (buf : List ℕ) (s : Shared)
      → IsGood s.blocks
      → Matches body offset buf
      → Holds body s
      → Holds body (write rb seeks written offset buf s).0
  unfolding write
  write-Holds seeks written offset buf s good matches holds =
      let s' = record s { file = write_file offset (take written buf) s.file } in
      let kept : Holds body s' = λ x h.
        write_file-inside body offset (take written buf) s.file x
          (take-Matches body written offset buf matches) (inr (holds x h)) in
      let P = λ (r : Shared × KglResult × List Wakeup). Holds body r.0 in
      elim (Bool-cases (not s.opened || not seeks)) [
        | inl closed ↦ rw closed holds
        | inr open_file ↦ rw open_file (elim (Bool-cases (ltb written (length buf))) [
          | inl short ↦ rw short kept
          | inr enough ↦
              let all : take written buf ≡ buf = take_all written buf (ground arith) in
              rw enough (
                write_block-Holds offset buf s' (find_block_node offset s.blocks) good refl kept
                  (λ x h.
                    write_file-inside body offset (take written buf) s.file x
                      (take-Matches body written offset buf matches) (inl (rw all h))))
        ])
      ]

  pub open_write-Holds :
      (opens : Bool) (self x : ℕ) (s : Shared)
      → IsGood s.blocks
      → Holds body s
      → Holds body (open_write rb opens self x s)
  unfolding open_write
  open_write-Holds opens self x s good holds =
      let (good', (b, found)) = insert-IsGood rb lawful x s.blocks good in
      let t = (insert rb x s.blocks).0 in
      Holds-same body s (open_write rb opens self x s) refl
        (λ y.
          cached-update x (λ (c : Block). record c { net_fiber = some self }) t b y good'.apart
            found refl refl
          ∙ cached-insert rb x y s.blocks lawful good.apart)
        holds

  read_at_end-Holds :
      (net : Bool) (reader : Reader) (b c : Block) (s : Shared) (writer : Option ℕ)
      → IsGood s.blocks
      → find_block_node reader.from s.blocks ≡ some c
      → Holds body s
      → Holds body (read_at_end rb net reader b s writer).0
  unfolding update
  read_at_end-Holds false reader b c s none good found holds = holds
  read_at_end-Holds true reader b c s none good found holds =
      Holds-same body s (read_at_end rb true reader b s none).0 refl
        (λ y.
          cached-update reader.from (λ (d : Block). record d { net_fiber = some reader.rq })
            s.blocks c y good.apart found refl refl)
        holds
  read_at_end-Holds net reader b c s (some fiber) good found holds =
      Holds-same body s (read_at_end rb net reader b s (some fiber)).0 refl
        (λ y.
          cached-update reader.from
            (λ (d : Block). record d { wait_queue = d.wait_queue ++ reader ∷ [] }) s.blocks c y
            good.apart found refl refl)
        holds

  read_block-Holds :
      (net : Bool) (reader : Reader) (count : ℕ) (s : Shared) (o : Option Block)
      → IsGood s.blocks
      → find_block_node reader.from s.blocks ≡ o
      → Holds body s
      → Holds body (read_block rb net reader count s o).0
  unfolding update
  read_block-Holds net reader count s none good found holds = holds
  read_block-Holds net reader count s (some b) good found holds =
      let x = reader.from in
      let (good', found') = advance-IsGood x s.blocks b good found in
      let (same_from, same_to, same_net) = advance_read_point-same x b in
      let s' = record s { blocks = update x (advance_read_point x) s.blocks } in
      let kept =
        Holds-same body s s' refl
          (λ y.
            cached-update x (advance_read_point x) s.blocks b y good.apart found same_from same_to)
          holds in
      elim (Bool-cases (ltb x b.to)) [
        | inl inside ↦ rw inside kept
        | inr at_end ↦ rw at_end (
            read_at_end-Holds net reader b (advance_read_point x b) s' b.net_fiber good' found'
              kept)
      ]

  -- The blocks in which read looks.
  pub looked_in-Good :
      (net : Bool) (x : ℕ) (s : Shared)
      → IsGood s.blocks
      → Holds body s
      → let t = if net then (insert rb x s.blocks).0 else s.blocks in
        IsGood t × Holds body (record s { blocks = t })
  looked_in-Good true x s good holds = (
    (insert-IsGood rb lawful x s.blocks good).0,
    Holds-same body s (record s { blocks = (insert rb x s.blocks).0 }) refl
        (λ y. cached-insert rb x y s.blocks lawful good.apart) holds,
  )
  looked_in-Good false x s good holds = (good, holds)

  pub read-Holds :
      (net : Bool) (reader : Reader) (count : ℕ) (s : Shared)
      → IsGood s.blocks
      → Holds body s
      → Holds body (read rb net reader count s).0
  unfolding read
  read-Holds net reader count s good holds =
      let t = if net then (insert rb reader.from s.blocks).0 else s.blocks in
      let (good', kept) = looked_in-Good net reader.from s good holds in
      if_cases (λ (r : Shared × ReadResult). Holds body r.0) s.opened
        (read_block rb net reader count (record s { blocks = t }) (find_block_node reader.from t))
        (s, no_file)
        (read_block-Holds net reader count (record s { blocks = t }) (find_block_node reader.from t)
          good' refl kept)
        holds

  pub close_write_block-Holds :
      (in_disk : Bool) (content_length self x : ℕ) (s : Shared) (o : Option Block)
      → IsGood s.blocks
      → find_block_node x s.blocks ≡ o
      → Holds body s
      → HoldsShared body (closed_state (close_write_block in_disk content_length self x s o))
  unfolding update leave close
  close_write_block-Holds in_disk content_length self x s none good found holds = tt
  close_write_block-Holds in_disk content_length self x s (some b) good found holds =
      let (same_from, same_to) = leave-same self b in
      let closing = record s {
        blocks = update x (leave self) s.blocks;
        body_complete = s.body_complete || is_whole content_length b;
        write_refs = s.write_refs - 1;
      } in
      Holds-same body s (close in_disk closing) (close-file in_disk closing)
        (λ y.
          ap (λ (t : Tree). cached y (inorder t)) (close-blocks in_disk closing)
          ∙ cached-update x (leave self) s.blocks b y good.apart found same_from same_to)
        holds
