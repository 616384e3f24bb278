-- ===== src/Access/Table/Total.antt =====
-- src/KTable.cpp: KTable::match returns on every set of tables, also where tables reach themselves.
use kangle.Prelude.{
  ℕ, zero, suc, ◌+◌, ◌≤◌, Bool, true, false, Option, none, some, List, [], ◌∷◌, ◌≢◌, arith, ltb,
  inl, inr, Bool-cases, is_some, not, if◌then◌else◌,
}
use kangle.Access.Chain.{JumpType, deny, continue, table, skip, nonzero, Chain, Status}
use kangle.Access.Table.{
  Walk, Verdict, fall, decide, out_of_fuel, Loop, step_chain, resume, enter, act, react, visit,
  match_vec, next_file, match_files, match_table,
}

module _ {W F : Type 0} where
  -- A loop that starts with `checked_table` at `n` or more ends, and leaves the count between `n` and
  -- 33, and at 32 at most if the walk goes on.
  abbrev pub Ends : ℕ → Walk W F × Verdict → Type 0
  Ends n (w, fall) = (n ≤ w.checked) × (w.checked ≤ 32)
  Ends n (w, decide continue) = (n ≤ w.checked) × (w.checked ≤ 32)
  Ends n (w, decide jt) = (n ≤ w.checked) × (w.checked ≤ 33)
  Ends n (w, out_of_fuel) = ⊥

  Ends-mono : (n : ℕ) (r : Walk W F × Verdict) → Ends (suc n) r → Ends n r
  Ends-mono n (w, fall) h = omega arith
  Ends-mono n (w, decide jt) h = ground arith
  Ends-mono n (w, out_of_fuel) h = h

  if-Ends :
      (n : ℕ) (b : Bool) (x y : Walk W F × Verdict)
      → Ends n x
      → Ends n y
      → Ends n (if b then x else y)
  if-Ends n true x y p q = p
  if-Ends n false x y p q = q

  Ends-decide :
      (n : ℕ) (w : Walk W F) (jt : JumpType)
      → n ≤ w.checked
      → w.checked ≤ 32
      → Ends n (w, decide jt)
  Ends-decide n w jt l u = ground arith

  module _ (n : ℕ) (call : ℕ → Loop W F)
      (calls : (t : ℕ) (w : Walk W F)
        → suc n ≤ w.checked
        → w.checked ≤ 32
        → Ends (suc n) (call t w)) where
    resume-Ends :
        (rest : Loop W F)
        → ((w : Walk W F) → n ≤ w.checked → w.checked ≤ 32 → Ends n (rest w))
        → (r : Walk W F × Verdict) → Ends n r
        → Ends n (resume r rest)
    unfolding resume
    resume-Ends rest goes (w, fall) h = goes w h.0 h.1
    resume-Ends rest goes (w, decide continue) h = goes w h.0 h.1
    resume-Ends rest goes (w, _) h = h

    enter-Ends :
        (jump : Option ℕ) (rest : Loop W F)
        → ((w : Walk W F) → n ≤ w.checked → w.checked ≤ 32 → Ends n (rest w))
        → (w : Walk W F) → n ≤ w.checked
        → w.checked ≤ 32
        → Ends n (enter call jump rest w)
    unfolding enter
    enter-Ends none rest goes w l u = omega arith
    enter-Ends (some t) rest goes w l u =
        let w' : Walk W F = record w { checked = w.checked + 1 } in
        elim (Bool-cases (ltb 32 (w.checked + 1))) [
          | inl over ↦ rw over (ground arith)
          | inr under ↦ rw under (
              resume-Ends rest goes (call t w')
                (Ends-mono n (call t w') (calls t w' (omega arith) (ground arith))))
        ]

    act-Ends :
        (jt : JumpType) (i : ℕ) (c : Chain W F) (rest : ℕ → Loop W F)
        → ((k : ℕ) (w : Walk W F) → n ≤ w.checked → w.checked ≤ 32 → Ends n (rest k w))
        → (w : Walk W F) → n ≤ w.checked
        → w.checked ≤ 32
        → Ends n (act jt call i c rest w)
    unfolding act
    act-Ends continue i c rest goes w l u = goes 0 w l u
    act-Ends skip i c rest goes w l u = goes _ w l u
    act-Ends table i c rest goes w l u = enter-Ends c.jump (rest 0) (goes 0) w l u
    act-Ends _ i c rest goes w l u = omega arith

    react-Ends :
        (r : Status) (i : ℕ) (c : Chain W F) (rest : ℕ → Loop W F)
        → ((k : ℕ) (w : Walk W F) → n ≤ w.checked → w.checked ≤ 32 → Ends n (rest k w))
        → (w : Walk W F) → n ≤ w.checked
        → w.checked ≤ 32
        → Ends n (react r call i c rest w)
    unfolding react
    react-Ends r i c rest goes w l u =
        let on : Walk W F × Verdict = rest 0 w in
        let act' : Walk W F × Verdict = act c.jump_type call i c rest w in
        let stop : Walk W F × Verdict = (w, decide deny) in
        let done : Walk W F × Verdict = if r.finished then stop else act' in
        let live : Walk W F × Verdict = if not (nonzero r) then on else done in
        let taken : Walk W F × Verdict = (w, decide c.jump_type) in
        let sourced : Walk W F × Verdict = if is_some w.rq.fo then taken else live in
        if-Ends n r.deferred on sourced (goes 0 w l u) (
          if-Ends n (is_some w.rq.fo) taken live (Ends-decide n w c.jump_type l u) (
            if-Ends n (not (nonzero r)) on done (goes 0 w l u) (
              if-Ends n r.finished stop act' (Ends-decide n w deny l u)
                (act-Ends c.jump_type i c rest goes w l u))))

    match_vec-Ends :
        (i k : ℕ) (cs : List (Chain W F)) (w : Walk W F)
        → n ≤ w.checked
        → w.checked ≤ 32
        → Ends n (match_vec call i k cs w)
    unfolding match_vec visit
    match_vec-Ends i k [] w l u = (l, u)
    match_vec-Ends i (suc k) (c ∷ cs) w l u = match_vec-Ends (suc i) k cs w l u
    match_vec-Ends i zero (c ∷ cs) w l u =
        react-Ends (step_chain c w).1 i c (λ k. match_vec call (suc i) k cs)
          (λ k w'. match_vec-Ends (suc i) k cs w') (step_chain c w).0 l u

    next_file-Ends :
        (rest : Loop W F)
        → ((w : Walk W F) → n ≤ w.checked → w.checked ≤ 32 → Ends n (rest w))
        → (r : Walk W F × Verdict) → Ends n r
        → Ends n (next_file r rest)
    unfolding next_file
    next_file-Ends rest goes (w, fall) h = goes w h.0 h.1
    next_file-Ends rest goes (w, _) h = h

    match_files-Ends :
        (vs : List (List (Chain W F))) (w : Walk W F)
        → n ≤ w.checked
        → w.checked ≤ 32
        → Ends n (match_files call vs w)
    unfolding match_files
    match_files-Ends [] w l u = (l, u)
    match_files-Ends (v ∷ vs) w l u =
        next_file-Ends _ (match_files-Ends vs) _ (match_vec-Ends 0 0 v w l u)

  -- KTable::match returns for every set of tables, cyclic ones included, as soon as the fuel and the
  -- number of tables entered so far make up 33; it never counts past 33 tables, and only a walk that
  -- ends for good counts the 33rd.
  pub match_table-Ends :
      (tables : ℕ → List (List (Chain W F))) (fuel n t : ℕ) (w : Walk W F)
      → n ≤ w.checked
      → w.checked ≤ 32
      → 33 ≤ n + fuel
      → Ends n (match_table tables fuel t w)
  unfolding match_table
  match_table-Ends tables zero n t w l u h = absurd (omega arith)
  match_table-Ends tables (suc fuel) n t w l u h =
      match_files-Ends n (match_table tables fuel)
        (λ t' w' l' u'. match_table-Ends tables fuel (suc n) t' w' l' u' (omega arith)) (tables t) w
        l u

  next_file-ne-fall :
      (r : Walk W F × Verdict) (rest : Loop W F)
      → ((w : Walk W F) → (rest w).1 ≢ fall)
      → (next_file r rest).1 ≢ fall
  unfolding next_file
  next_file-ne-fall (w, fall) rest h = h w
  next_file-ne-fall (w, _) rest h = λ e. cc

  match_files-ne-fall :
      (call : ℕ → Loop W F) (vs : List (List (Chain W F))) (w : Walk W F)
      → (match_files call vs w).1 ≢ fall
  unfolding match_files
  match_files-ne-fall call [] w = λ e. cc
  match_files-ne-fall call (v ∷ vs) w =
      next_file-ne-fall (match_vec call 0 0 v w) _ (match_files-ne-fall call vs)

  -- A call that returns, returns an action.
  pub match_table-ne-fall :
      (tables : ℕ → List (List (Chain W F))) (fuel t : ℕ) (w : Walk W F)
      → (match_table tables (suc fuel) t w).1 ≢ fall
  unfolding match_table
  match_table-ne-fall tables fuel t w = match_files-ne-fall (match_table tables fuel) (tables t) w
