-- ===== src/MultiServer/Primary.antt =====
-- src/KMultiAcserver.cpp: a primary node that is available is found, wherever the index points.
use kangle.Prelude.{
  ℕ, zero, suc, ◌+◌, ◌-◌, ◌%◌, ◌≤◌, ◌<◌, true, false, Option, none, some, List, [], ◌∷◌, ◌≡◌, ◌≢◌,
  refl, arith, ◌==◌, length, get_elem?, Bool-cases, Option-cases, inl, inr, Bytes, if_cases,
}
use native.Mathlib.Nat.{mod-lt, mod-le, lt_of_le_of_lt}
use kangle.MultiServer.{Helper, MultiServer, try_position, is_other, scan_active, next_active_node}
use kangle.MultiServer.Cookie.{get_cookie_stick}
use kangle.MultiServer.Rounds.{get_elem?-some, get_elem?-lt, try_position-covers}
use kangle.MultiServer.Upstream.{
  probed, node_hash, cookie_stick_name, Request, Outcome, connect, get_node_index, get_upstream,
  use_primary, use_next, in_vnodes, cookie_index, or_hashed, choose,
}

module _ {H : Type 0} (api : Helper H) where
  open api use {is_available}

  pub scan_active-IsOther :
      (s : MultiServer H) (n index i left p : ℕ)
      → scan_active api s n index i left ≡ some p
      → is_other api s.heap n (get_elem? s.vnodes p) ≡ true
  unfolding scan_active
  scan_active-IsOther s n index i zero p h = grind arith
  scan_active-IsOther s n index i (suc left) p h =
      let q = try_position (index % 2 == 1) index (length s.vnodes) i in
      let rest = scan_active-IsOther s n index (suc i) left p in
      elim (Bool-cases (is_other api s.heap n (get_elem? s.vnodes q))) [
        | inl other ↦ ground arith
        | inr passed ↦ ground arith
      ]

  scan_active-finds :
      (s : MultiServer H) (n index k i left : ℕ)
      → i ≤ k
      → k < i + left
      → is_other api s.heap n
          (get_elem? s.vnodes (try_position (index % 2 == 1) index (length s.vnodes) k))
        ≡ true
      → (p : ℕ) × (scan_active api s n index i left ≡ some p)
  unfolding scan_active
  scan_active-finds s n index k i zero a b h = absurd (omega arith)
  scan_active-finds s n index k i (suc left) a b h =
      let q = try_position (index % 2 == 1) index (length s.vnodes) i in
      elim (Bool-cases (is_other api s.heap n (get_elem? s.vnodes q))) [
        | inl other ↦ (q, rw other)
        | inr passed ↦ elim (Bool-cases (i == k)) [
          | inl same ↦ absurd (ground arith)
          | inr ne ↦
              let (p, e) =
                scan_active-finds s n index k (suc i) left (ground arith) (omega arith) h in
              (p, rw passed e)
        ]
      ]

  -- An available primary node serves the request, and its probe is all that changes in the pool.
  abbrev pub ServedByPrimary : MultiServer H → MultiServer H × Outcome → Type 0
  ServedByPrimary s (t, connect n stick) =
      (t ≡ probed api s n)
      × (is_available (s.heap n) ≡ true)
      × (p : ℕ) × (get_elem? s.vnodes p ≡ some n)
  ServedByPrimary s (t, _) = ⊥

  use_next-Served :
      (s : MultiServer H) (n stick index p : ℕ)
      → next_active_node api s n index ≡ some p
      → ServedByPrimary s (use_next api s n stick (next_active_node api s n index))
  unfolding next_active_node
  use_next-Served s n stick index p e =
      let other = scan_active-IsOther s n index 1 (length s.vnodes - 1) p e in
      elim (Option-cases (get_elem? s.vnodes p)) [
        | inl out ↦ absurd (grind arith)
        | inr (m, found) ↦ rw (e, found) (refl, ground arith, p, found)
      ]

  is_other-ne :
      (heap : ℕ → H) (m n : ℕ)
      → is_available (heap n) ≡ true
      → is_available (heap m) ≡ false
      → is_other api heap m (some n) ≡ true
  is_other-ne heap m n av down = let differ : n ≢ m = λ same. grind arith in ground arith

  use_primary-Served :
      (s : MultiServer H) (index stick p n : ℕ)
      → index < length s.vnodes
      → get_elem? s.vnodes p ≡ some n
      → is_available (s.heap n) ≡ true
      → ServedByPrimary s (use_primary api s index stick)
  unfolding use_primary next_active_node
  use_primary-Served s index stick p n h e av =
      let (m, first) = get_elem?-some s.vnodes index h in
      elim (Bool-cases (is_available (s.heap m))) [
        | inl ready ↦ rw (first, ready) (refl, ready, index, first)
        | inr down ↦
            let ne : index ≢ p = λ same. grind arith in
            let (i, low, high, q) =
              try_position-covers (index % 2 == 1) index p (length s.vnodes) h
                (get_elem?-lt s.vnodes p n e) ne in
            let (r, found) =
              scan_active-finds s m index i 1 (length s.vnodes - 1) low (omega arith)
                (rw (q, e) (is_other-ne s.heap m n av down)) in
            rw (first, down) (use_next-Served s m stick index r found)
      ]

  in_vnodes-lt :
      (size i : ℕ) (o later : Option ℕ)
      → ((j : ℕ) → later ≡ some j → j < size)
      → in_vnodes size o later ≡ some i
      → i < size
  in_vnodes-lt size i none later h e = h i e
  in_vnodes-lt size i (some k) later h e = ground arith

  cookie_index-lt :
      (name : Bytes) (size : ℕ) (vs : List Bytes) (i : ℕ)
      → cookie_index name size vs ≡ some i
      → i < size
  cookie_index-lt name size [] i e = grind arith
  cookie_index-lt name size (v ∷ vs) i e =
      in_vnodes-lt size i (get_cookie_stick v name) (cookie_index name size vs)
        (λ j. cookie_index-lt name size vs j) e

  or_hashed-lt :
      (s : MultiServer H) (rq : Request) (o : Option ℕ)
      → 0 < length s.vnodes
      → ((j : ℕ) → o ≡ some j → j < length s.vnodes)
      → (or_hashed api s rq o).0 < length s.vnodes
  or_hashed-lt s rq none h k =
      let lt = mod-lt (node_hash api s rq) h in
      lt_of_le_of_lt (mod-le (node_hash api s rq % length s.vnodes) 65536) lt
  or_hashed-lt s rq (some i) h k = lt_of_le_of_lt (mod-le i 65536) (k i refl)

  -- The position that getNodeIndex gives can be read.
  pub get_node_index-lt :
      (s : MultiServer H) (rq : Request)
      → 0 < length s.vnodes
      → (get_node_index api s rq).0 < length s.vnodes
  unfolding get_node_index
  get_node_index-lt s rq h =
      let name = cookie_stick_name rq.conf_cookie_name in
      let size = length s.vnodes in
      or_hashed-lt s rq _ h (
        if_cases (λ (o : Option ℕ). (j : ℕ) → o ≡ some j → j < size) s.cookie_stick
          (cookie_index name size rq.cookies) none (cookie_index-lt name size rq.cookies)
          (λ j e. grind arith))

  choose-Served :
      (s : MultiServer H) (rq : Request) (p n : ℕ) (vs : List ℕ)
      → s.vnodes ≡ vs
      → get_elem? vs p ≡ some n
      → is_available (s.heap n) ≡ true
      → ServedByPrimary s (choose api s rq vs)
  unfolding get_node_index
  choose-Served s rq p n [] q e av = grind arith
  choose-Served s rq p n (v ∷ vs) q e av =
      use_primary-Served s (get_node_index api s rq).0 (get_node_index api s rq).1 p n
        (get_node_index-lt s rq (rw q (omega arith))) (rw q e) av

  -- If an entry of `vnodes` is available, GetUpstream connects the request to an available entry of
  -- `vnodes`, whatever the cookies, the hash and rand say. Nothing changes in the pool but what the true
  -- answer of is_available leaves of that node.
  pub get_upstream-Served :
      (s : MultiServer H) (rq : Request) (p n : ℕ)
      → get_elem? s.vnodes p ≡ some n
      → is_available (s.heap n) ≡ true
      → ServedByPrimary s (get_upstream api s rq)
  unfolding get_upstream
  get_upstream-Served s rq p n e av = choose-Served s rq p n s.vnodes refl e av
