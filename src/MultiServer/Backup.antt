-- ===== src/MultiServer/Backup.antt =====
-- src/KMultiAcserver.cpp: when no primary node is available, the fastest enabled backup node is
-- used; and GetUpstream reads its vectors inside their bounds only.
use kangle.Prelude.{
  ℕ, zero, suc, ◌-◌, ◌≤◌, true, false, Option, none, some, List, [], ◌∷◌, ◌≡◌, refl, ap, sym, ◌∙◌,
  arith, ltb, length, get_elem?, Bool-cases, Option-cases, inl, inr, ◌⊎◌,
}
use kangle.MultiServer.{kept, Helper, MultiServer, fastest, next_active_node, scan_active}
use kangle.MultiServer.Rounds.{get_elem?-some}
use kangle.MultiServer.Primary.{scan_active-IsOther, get_node_index-lt}
use kangle.MultiServer.Upstream.{
  Request, Outcome, connect, get_node_index, get_upstream, use_primary, use_backup, choose,
}

module _ {H : Type 0} (api : Helper H) where
  open api use {avg_monitor_tick, is_available, is_enabled}

  abbrev tick : (ℕ → H) → ℕ → ℕ
  tick heap b = avg_monitor_tick (heap b)

  -- The kept node is not slower than the one kept before, nor than the new one.
  kept-le :
      (heap : ℕ → H) (b c k : ℕ)
      → kept api heap b (some c) ≡ some k
      → (tick heap k ≤ tick heap c) × (is_enabled (heap b) ≡ true → tick heap k ≤ tick heap b)
  kept-le heap b c k e = ground arith

  kept-none :
      (heap : ℕ → H) (b k : ℕ)
      → kept api heap b none ≡ some k
      → (k ≡ b) × (is_enabled (heap b) ≡ true)
  kept-none heap b k e = ground arith

  kept-or :
      (heap : ℕ → H) (b k : ℕ) (best : Option ℕ)
      → kept api heap b best ≡ some k
      → (best ≡ some k) ⊎ ((k ≡ b) × (is_enabled (heap b) ≡ true))
  kept-or heap b k none e = ground arith
  kept-or heap b k (some c) e = ground arith

  kept-enabled :
      (heap : ℕ → H) (b : ℕ) (best : Option ℕ)
      → is_enabled (heap b) ≡ true
      → (k : ℕ) × (kept api heap b best ≡ some k) × (tick heap k ≤ tick heap b)
  kept-enabled heap b none on = (b, rw on refl, omega arith)
  kept-enabled heap b (some c) on = elim (Bool-cases (ltb (tick heap b) (tick heap c))) [
    | inl lt ↦ (b, rw (on, lt) refl, omega arith)
    | inr ge ↦ (c, rw (on, ge) refl, ground arith)
  ]

  kept-some : (heap : ℕ → H) (b c : ℕ) → (k : ℕ) × (kept api heap b (some c) ≡ some k)
  kept-some heap b c = elim (Bool-cases (is_enabled (heap b))) [
    | inl on ↦ let (k, e, _) = kept-enabled heap b (some c) on in (k, e)
    | inr off ↦ (c, rw off refl)
  ]

  fastest-some :
      (heap : ℕ → H) (bs : List ℕ) (c : ℕ) → (f : ℕ) × (fastest api heap bs (some c) ≡ some f)
  unfolding fastest
  fastest-some heap [] c = (c, refl)
  fastest-some heap (b ∷ bs) c =
      let (k, keep) = kept-some heap b c in
      let (f, e) = fastest-some heap bs k in (f, ap (λ best. fastest api heap bs best) keep ∙ e)

  fastest-le :
      (heap : ℕ → H) (bs : List ℕ) (c f : ℕ)
      → fastest api heap bs (some c) ≡ some f
      → tick heap f ≤ tick heap c
  unfolding fastest
  fastest-le heap [] c f e = grind arith
  fastest-le heap (b ∷ bs) c f e = elim (Option-cases (kept api heap b (some c))) [
    | inl lost ↦ absurd (ground arith)
    | inr (k, keep) ↦
        let low = fastest-le heap bs k f (rw (sym keep) e) in
        let high = (kept-le heap b c k keep).0 in omega arith
  ]

  fastest-minimal :
      (heap : ℕ → H) (bs : List ℕ) (best : Option ℕ) (f : ℕ)
      → fastest api heap bs best ≡ some f
      → (q b : ℕ) → get_elem? bs q ≡ some b
      → is_enabled (heap b) ≡ true
      → tick heap f ≤ tick heap b
  unfolding fastest
  fastest-minimal heap [] best f e q b at on = grind arith
  fastest-minimal heap (a ∷ bs) best f e (suc q) b at on =
      fastest-minimal heap bs (kept api heap a best) f e q b at on
  fastest-minimal heap (a ∷ bs) best f e zero b at on =
      let same : a ≡ b = grind arith in
      let (k, keep, le) = kept-enabled heap a best (rw same on) in
      let low = fastest-le heap bs k f (rw (sym keep) e) in rw (sym same) (omega arith)

  fastest-source :
      (heap : ℕ → H) (bs : List ℕ) (best : Option ℕ) (f : ℕ)
      → fastest api heap bs best ≡ some f
      → (best ≡ some f) ⊎ ((q : ℕ) × (get_elem? bs q ≡ some f) × (is_enabled (heap f) ≡ true))
  unfolding fastest
  fastest-source heap [] best f e = inl e
  fastest-source heap (b ∷ bs) best f e = elim (fastest-source heap bs (kept api heap b best) f e) [
    | inr (q, at, on) ↦ inr (suc q, at, on)
    | inl here ↦ elim (kept-or heap b f best here) [
      | inl old ↦ inl old
      | inr (same, on) ↦ inr (zero, rw same refl, rw same on)
    ]
  ]

  fastest-exists :
      (heap : ℕ → H) (bs : List ℕ) (best : Option ℕ) (q b : ℕ)
      → get_elem? bs q ≡ some b
      → is_enabled (heap b) ≡ true
      → (f : ℕ) × (fastest api heap bs best ≡ some f)
  unfolding fastest
  fastest-exists heap [] best q b at on = grind arith
  fastest-exists heap (a ∷ bs) best (suc q) b at on =
      fastest-exists heap bs (kept api heap a best) q b at on
  fastest-exists heap (a ∷ bs) best zero b at on =
      let same : a ≡ b = grind arith in
      let (k, keep, _) = kept-enabled heap a best (rw same on) in
      let (f, e) = fastest-some heap bs k in (f, ap (λ o. fastest api heap bs o) keep ∙ e)

  -- The request goes to an enabled backup node, none of the enabled ones is faster, no cookie is
  -- set, and the pool is as before.
  abbrev pub ServedByBackup : MultiServer H → MultiServer H × Outcome → Type 0
  ServedByBackup s (t, connect f stick) =
      (t ≡ s)
      × (stick ≡ 0)
      × (is_enabled (s.heap f) ≡ true)
      × ((q : ℕ) × (get_elem? s.bnodes q ≡ some f))
      × ((q b : ℕ)
          → get_elem? s.bnodes q ≡ some b
          → is_enabled (s.heap b) ≡ true
          → tick s.heap f ≤ tick s.heap b)
  ServedByBackup s (t, _) = ⊥

  use_backup-Served :
      (s : MultiServer H) (sock_helper : Option ℕ) (stick q b : ℕ)
      → get_elem? s.bnodes q ≡ some b
      → is_enabled (s.heap b) ≡ true
      → ServedByBackup s (use_backup api s sock_helper stick)
  unfolding use_backup
  use_backup-Served s sock_helper stick q b at on =
      let (f, e) = fastest-exists s.heap s.bnodes none q b at on in
      elim (fastest-source s.heap s.bnodes none f e) [
        | inl none_kept ↦ grind arith
        | inr (r, found, ok) ↦
            rw e (refl, refl, ok, (r, found), fastest-minimal s.heap s.bnodes none f e)
      ]

  next_active_node-none :
      (s : MultiServer H) (helper index : ℕ)
      → ((p n : ℕ) → get_elem? s.vnodes p ≡ some n → is_available (s.heap n) ≡ false)
      → next_active_node api s helper index ≡ none
  unfolding next_active_node
  next_active_node-none s helper index down =
      let count = length s.vnodes - 1 in
      elim (Option-cases (scan_active api s helper index 1 count)) [
        | inl e ↦ e
        | inr (p, e) ↦
            let other = scan_active-IsOther api s helper index 1 count p e in
            elim (Option-cases (get_elem? s.vnodes p)) [
              | inl out ↦ absurd (grind arith)
              | inr (m, found) ↦ let off = down p m found in absurd (ground arith)
            ]
      ]

  choose-Backup :
      (s : MultiServer H) (rq : Request) (q b : ℕ) (vs : List ℕ)
      → s.vnodes ≡ vs
      → ((p n : ℕ) → get_elem? s.vnodes p ≡ some n → is_available (s.heap n) ≡ false)
      → get_elem? s.bnodes q ≡ some b
      → is_enabled (s.heap b) ≡ true
      → ServedByBackup s (choose api s rq vs)
  unfolding use_primary get_node_index next_active_node
  choose-Backup s rq q b [] e down at on = use_backup-Served s none 0 q b at on
  choose-Backup s rq q b (v ∷ vs) e down at on =
      let (index, stick) = get_node_index api s rq in
      let (m, first) =
        get_elem?-some s.vnodes index (get_node_index-lt api s rq (rw e (omega arith))) in
      rw (first, down index m first, next_active_node-none s m index down)
        (use_backup-Served s (some m) stick q b at on)

  -- If no entry of `vnodes` is available and some entry of `bnodes` is enabled, GetUpstream connects
  -- the request to an enabled backup node that is at least as fast as each enabled backup node, sets
  -- no cookie and changes nothing in the pool.
  pub get_upstream-fastest :
      (s : MultiServer H) (rq : Request) (q b : ℕ)
      → ((p n : ℕ) → get_elem? s.vnodes p ≡ some n → is_available (s.heap n) ≡ false)
      → get_elem? s.bnodes q ≡ some b
      → is_enabled (s.heap b) ≡ true
      → ServedByBackup s (get_upstream api s rq)
  unfolding get_upstream
  get_upstream-fastest s rq q b down at on = choose-Backup s rq q b s.vnodes refl down at on
