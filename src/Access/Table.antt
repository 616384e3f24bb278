-- ===== src/Access/Table.antt =====
-- src/KTable.cpp: KTable::match. A table is the vectors of chains of its configuration files, in the
-- order of the map; chains name other tables by pointer, so tables can reach one another, and
-- themselves. The pointers are numbers, and `tables` maps each one to the table object.
pub mod Total
pub mod Reference
use kangle.Prelude.{
  ℕ, zero, suc, ◌+◌, ◌-◌, ◌%◌, ◌^◌, Bool, true, false, not, Option, none, some, List, [], ◌∷◌, ltb,
  ◌==◌, if◌then◌else◌, is_some,
}
use kangle.Access.Chain.{
  JumpType, allow, deny, table, server, wback, fcgi, continue, proxy, cgi, api, return, cmd, drop,
  dso, skip, Status, nonzero, Request, Chain, Match, match_chain,
}

-- The state of a walk: the request, each chain's `hit_count`, `checked_table` and `jump`.
pub record Walk (W F : Type 0) : Type 0 where
  pub rq : Request W F
  pub hits : ℕ → ℕ
  pub checked : ℕ
  pub jump : Option ℕ

-- How far a loop came: to its end, to a `return`, or to the end of the fuel.
pub data Verdict : Type 0 where
  fall : Verdict
  decide : JumpType → Verdict
  out_of_fuel : Verdict

abbrev pub max_checked : ℕ
max_checked = 32

abbrev pub Loop : Type 0 → Type 0 → Type 0
Loop W F = Walk W F → Walk W F × Verdict

-- ++hit_count, a uint32_t
abbrev pub count_hit : ℕ → Bool → (ℕ → ℕ) → ℕ → ℕ
count_hit id true hits = λ k. if k == id then (hits k + 1) % 2 ^ 32 else hits k
count_hit id false hits = hits

-- How many chains `i = skip_to` passes over at position `i`, if `skip_to > i`.
abbrev pub skipped : Option ℕ → ℕ → ℕ
skipped none i = 0
skipped (some to) i = to - i

-- Enough fuel for a walk whose `checked_table` starts at 0: each entered table adds 1 to it, and
-- it never passes 32.
abbrev pub table_fuel : ℕ
table_fuel = 33

module _ {W F : Type 0} where
  -- chain->match(rq, obj, fo)
  abbrev pub step_chain : Chain W F → Walk W F → Walk W F × Status
  step_chain c w =
      let m = match_chain c w.rq in
      (record w { rq = m.rq; hits = count_hit c.id m.hit w.hits }, m.result)

  -- What `match` of another table returns: JUMP_CONTINUE goes on with the next chain.
  pub resume : Walk W F × Verdict → Loop W F → Walk W F × Verdict
  resume (w, fall) rest = rest w
  resume (w, decide continue) rest = rest w
  resume (w, v) rest = (w, v)

  -- case JUMP_TABLE
  pub enter : (ℕ → Loop W F) → Option ℕ → Loop W F → Loop W F
  unfolding resume
  enter call none rest w = (w, decide deny)
  enter call (some t) rest w =
      let w' = record w { checked = w.checked + 1 } in
      if ltb max_checked w'.checked then (w', decide deny) else resume (call t w') rest

  -- The switch on `jump_type` at position `i`; `rest k` goes on behind the next `k` chains.
  pub act : JumpType → (ℕ → Loop W F) → ℕ → Chain W F → (ℕ → Loop W F) → Loop W F
  unfolding enter
  act continue call i c rest w = rest 0 w
  act skip call i c rest w = rest (skipped c.skip_to i) w
  act table call i c rest w = enter call c.jump (rest 0) w
  act jt call i c rest w = (record w { jump = c.jump }, decide jt)

  -- The tests on a chain's result word `r`.
  pub react : Status → (ℕ → Loop W F) → ℕ → Chain W F → (ℕ → Loop W F) → Loop W F
  unfolding act
  react r call i c rest w =
      if r.deferred
      then rest 0 w
      else if is_some w.rq.fo
      then (w, decide c.jump_type)
      else if not (nonzero r)
      then rest 0 w
      else if r.finished
      then (w, decide deny)
      else act c.jump_type call i c rest w

  -- The body of the loop over a vector, on the chain at position `i`.
  pub visit : (ℕ → Loop W F) → ℕ → Chain W F → (ℕ → Loop W F) → Loop W F
  unfolding react
  visit call i c rest w = let (w', r) = step_chain c w in react r call i c rest w'

  -- The loop over one vector from position `i`, without its first `k` chains.
  pub match_vec : (ℕ → Loop W F) → ℕ → ℕ → List (Chain W F) → Loop W F
  unfolding visit
  match_vec call i k [] w = (w, fall)
  match_vec call i (suc k) (c ∷ cs) w = match_vec call (suc i) k cs w
  match_vec call i zero (c ∷ cs) w = visit call i c (λ k. match_vec call (suc i) k cs) w

  -- A `return` inside the inner loop ends the outer one.
  pub next_file : Walk W F × Verdict → Loop W F → Walk W F × Verdict
  next_file (w, fall) rest = rest w
  next_file (w, v) rest = (w, v)

  pub match_files : (ℕ → Loop W F) → List (List (Chain W F)) → Loop W F
  unfolding match_vec next_file
  match_files call [] w = (w, decide continue)
  match_files call (v ∷ vs) w = next_file (match_vec call 0 0 v w) (match_files call vs)

  -- KTable::match on the table `t`, with fuel for the tables that are entered in one another.
  unfoldable pub match_table : (ℕ → List (List (Chain W F))) → ℕ → ℕ → Loop W F
  unfolding match_files
  match_table tables zero t w = (w, out_of_fuel)
  match_table tables (suc fuel) t w = match_files (match_table tables fuel) (tables t) w
