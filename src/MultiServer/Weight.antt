-- ===== src/MultiServer/Weight.antt =====
-- src/KMultiAcserver.cpp: what buildVNode makes of the weights.
use kangle.Prelude.{
  ℕ, zero, suc, ◌+◌, ◌*◌, List, [], ◌∷◌, ◌++◌, ◌≡◌, ap, sym, arith, ◌==◌, if◌then◌else◌, replicate,
  Bool-cases, inl, inr, ◌∙◌,
}
use native.Mathlib.Nat.{suc-mul, zero-mul, add_comm, zero-add}
use kangle.Prelude.Int.{ℤ, pos, negsuc}
use kangle.MultiServer.{
  Helper, MultiServer, primary_copies, backup_copies, build_vnodes, build_bnodes, build_vnode,
}

-- How often a node is in a list.
abbrev pub count : ℕ → List ℕ → ℕ
count n [] = 0
count n (m ∷ ms) = if m == n then suc (count n ms) else count n ms

-- The entries in `vnodes` and in `bnodes` that a weight is worth.
abbrev pub primary_entries : ℤ → ℕ
primary_entries (pos w) = w
primary_entries (negsuc w) = 0

abbrev pub backup_entries : ℤ → ℕ
backup_entries (pos zero) = 1
backup_entries (pos (suc w)) = 0
backup_entries (negsuc w) = 0

count-append : (n : ℕ) (xs ys : List ℕ) → count n (xs ++ ys) ≡ count n xs + count n ys
count-append n [] ys = omega arith
count-append n (x ∷ xs) ys = let ih = count-append n xs ys in ground arith

count-replicate : (n w m : ℕ) → count n (replicate w m) ≡ (if m == n then w else 0)
count-replicate n zero m = ground arith
count-replicate n (suc w) m = let ih = count-replicate n w m in ground arith

count-primary :
    (n m : ℕ) (w : ℤ) → count n (primary_copies w m) ≡ (if m == n then primary_entries w else 0)
count-primary n m (pos w) = count-replicate n w m
count-primary n m (negsuc w) = ground arith

count-backup :
    (n m : ℕ) (w : ℤ) → count n (backup_copies w m) ≡ (if m == n then backup_entries w else 0)
count-backup n m (pos zero) = ground arith
count-backup n m (pos (suc w)) = ground arith
count-backup n m (negsuc w) = ground arith

entries-step :
    (m n k e entries : ℕ)
    → (m ≡ n → e ≡ entries)
    → (if m == n then e else 0) + k * entries ≡ (if m == n then suc k else k) * entries
entries-step m n k e entries h = elim (Bool-cases (m == n)) [
  | inl same ↦
      let found = h (ground arith) in
      rw same (
        ap (λ (x : ℕ). x + k * entries) found
        ∙ add_comm entries (k * entries)
        ∙ sym (suc-mul k entries))
  | inr differ ↦ rw differ (zero-add (k * entries))
]

module _ {H : Type 0} (api : Helper H) where
  open api use {weight}

  count-vnodes :
      (heap : ℕ → H) (n : ℕ) (ns : List ℕ)
      → count n (build_vnodes api heap ns) ≡ count n ns * primary_entries (weight (heap n))
  unfolding build_vnodes
  count-vnodes heap n [] = sym (zero-mul (primary_entries (weight (heap n))))
  count-vnodes heap n (m ∷ ms) =
      count-append n (primary_copies (weight (heap m)) m) (build_vnodes api heap ms)
      ∙ rw (count-primary n m (weight (heap m)), count-vnodes heap n ms)
          (entries-step m n (count n ms) (primary_entries (weight (heap m)))
            (primary_entries (weight (heap n))) (ap (λ k. primary_entries (weight (heap k)))))

  count-bnodes :
      (heap : ℕ → H) (n : ℕ) (ns : List ℕ)
      → count n (build_bnodes api heap ns) ≡ count n ns * backup_entries (weight (heap n))
  unfolding build_bnodes
  count-bnodes heap n [] = sym (zero-mul (backup_entries (weight (heap n))))
  count-bnodes heap n (m ∷ ms) =
      count-append n (backup_copies (weight (heap m)) m) (build_bnodes api heap ms)
      ∙ rw (count-backup n m (weight (heap m)), count-bnodes heap n ms)
          (entries-step m n (count n ms) (backup_entries (weight (heap m)))
            (backup_entries (weight (heap n))) (ap (λ k. backup_entries (weight (heap k)))))

  -- After buildVNode a node that is once in the ring has as many entries in `vnodes` as its weight
  -- says, none if the weight is zero or negative, and one entry in `bnodes` if the weight is zero,
  -- else none; a node that is k times in the ring has k times as many.
  pub count-build_vnode :
      (s : MultiServer H) (n : ℕ)
      → (count n (build_vnode api s).vnodes ≡ count n s.nodes * primary_entries (weight (s.heap n)))
        × (count n (build_vnode api s).bnodes
            ≡ count n s.nodes * backup_entries (weight (s.heap n)))
  unfolding build_vnode
  count-build_vnode s n = (count-vnodes s.heap n s.nodes, count-bnodes s.heap n s.nodes)
