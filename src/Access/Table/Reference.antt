-- ===== src/Access/Table/Reference.antt =====
-- src/KTable.cpp: the two nested loops of a table against a search in one list of rules, and how a
-- chain skips.
use kangle.Prelude.{
  ℕ, zero, suc, ◌+◌, ◌-◌, ◌%◌, ◌^◌, Bool, true, false, Option, none, some, List, [], ◌∷◌, ◌++◌, ◌≡◌,
  ◌≢◌, refl, ◌∙◌, arith, drop, ap, if◌then◌else◌, is_some, max, ◌==◌, Bool-cases, inl, inr,
}
use kangle.Access.Chain.{JumpType, continue, table, skip, Chain, Request, status_true, match_chain}
use kangle.Access.Chain.Cnf.{groups, all_groups, AllPure, plain_match, match_chain-plain_match}
use kangle.Access.Table.{
  Walk, decide, Verdict, Loop, step_chain, skipped, act, react, visit, match_vec, match_files,
  next_file, match_table,
}

abbrev pub is_continue : JumpType → Bool
is_continue continue = true
is_continue _ = false

module _ {W F : Type 0} where
  -- A rule without marks whose acls only look at the request, and which jumps to no table and no
  -- position.
  abbrev pub IsPlain : Request W F → Chain W F → Type 0
  IsPlain rq c = (c.marks ≡ []) × AllPure rq c.acls × (c.jump_type ≢ table) × (c.jump_type ≢ skip)

  abbrev pub AllPlain : Request W F → List (Chain W F) → Type 0
  AllPlain rq [] = Unit {0}
  AllPlain rq (c ∷ cs) = IsPlain rq c × AllPlain rq cs

  abbrev pub FilesPlain : Request W F → List (List (Chain W F)) → Type 0
  FilesPlain rq [] = Unit {0}
  FilesPlain rq (v ∷ vs) = AllPlain rq v × FilesPlain rq vs

  -- Each group of the rule's acls has one that holds.
  abbrev pub passes : Request W F → Chain W F → Bool
  passes rq c = all_groups rq (groups c.acls)

  abbrev pub counted : Chain W F → Walk W F → Walk W F
  counted c w = record w { hits = λ k. if k == c.id then (w.hits k + 1) % 2 ^ 32 else w.hits k }

  -- The rules of all files in a row: each one that passes is counted, and the first of them whose
  -- action is not continue decides.
  abbrev pub first_match : Request W F → List (Chain W F) → Walk W F → Walk W F × Verdict
  first_match rq [] w = (w, decide continue)
  first_match rq (c ∷ cs) w =
      let next = first_match rq cs (counted c w) in
      let other = first_match rq cs w in
      if passes rq c
      then (if is_continue c.jump_type
          then next
          else (record (counted c w) { jump = c.jump }, decide c.jump_type))
      else other

  abbrev pub in_a_row : List (List (Chain W F)) → List (Chain W F)
  in_a_row [] = []
  in_a_row (v ∷ vs) = v ++ in_a_row vs

  react-passed :
      (call : ℕ → Loop W F) (i : ℕ) (c : Chain W F) (rest : ℕ → Loop W F) (w : Walk W F)
      → w.rq.fo ≡ none
      → react status_true call i c rest w ≡ act c.jump_type call i c rest w
  unfolding react
  react-passed call i c rest w f =
      ap (λ o. if is_some o then (w, decide c.jump_type) else act c.jump_type call i c rest w) f

  plain_result :
      (rq : Request W F) (c : Chain W F) (b : Bool)
      → c.marks ≡ []
      → AllPure rq c.acls
      → passes rq c ≡ b
      → match_chain c rq ≡ plain_match rq b
  plain_result rq c b marks pure e =
      match_chain-plain_match c rq marks pure ∙ ap (λ (x : Bool). plain_match rq x) e

  act-IsPlain :
      (jt : JumpType) (call : ℕ → Loop W F) (i : ℕ) (c : Chain W F) (rest : ℕ → Loop W F)
      (w : Walk W F)
      → jt ≢ table
      → jt ≢ skip
      → act jt call i c rest w
        ≡ (if is_continue jt then rest 0 w else (record w { jump = c.jump }, decide jt))
  unfolding act
  act-IsPlain continue call i c rest w h k = refl
  act-IsPlain table call i c rest w h k = absurd (h refl)
  act-IsPlain skip call i c rest w h k = absurd (k refl)
  act-IsPlain _ call i c rest w h k = refl

  module _ (rq : Request W F) (no_source : rq.fo ≡ none) (checked : ℕ) where
    abbrev at : (ℕ → ℕ) → Option ℕ → Walk W F
    at hits jump = record { rq = rq; hits = hits; checked = checked; jump = jump }

    visit-missed :
        (call : ℕ → Loop W F) (i : ℕ) (c : Chain W F) (rest : ℕ → Loop W F) (h : ℕ → ℕ)
        (j : Option ℕ)
        → IsPlain rq c
        → passes rq c ≡ false
        → visit call i c rest (at h j) ≡ rest 0 (at h j)
    unfolding visit react
    visit-missed call i c rest h j (marks, pure, _, _) e =
        rw (plain_result rq c false marks pure e, no_source) refl

    visit-passed :
        (call : ℕ → Loop W F) (i : ℕ) (c : Chain W F) (rest : ℕ → Loop W F) (h : ℕ → ℕ)
        (j : Option ℕ)
        → IsPlain rq c
        → passes rq c ≡ true
        → visit call i c rest (at h j) ≡ (
            if is_continue c.jump_type
            then rest 0 (counted c (at h j))
            else (record (counted c (at h j)) { jump = c.jump }, decide c.jump_type))
    unfolding visit react
    visit-passed call i c rest h j (marks, pure, table_no, skip_no) e =
        rw (plain_result rq c true marks pure e) (
          react-passed call i c rest (counted c (at h j)) no_source
          ∙ act-IsPlain c.jump_type call i c rest (counted c (at h j)) table_no skip_no)

    vec-first_match :
        (call : ℕ → Loop W F) (i : ℕ) (cs more : List (Chain W F)) (rest : Loop W F) (h : ℕ → ℕ)
        (j : Option ℕ)
        → AllPlain rq cs
        → ((g : ℕ → ℕ) (k : Option ℕ) → rest (at g k) ≡ first_match rq more (at g k))
        → next_file (match_vec call i 0 cs (at h j)) rest ≡ first_match rq (cs ++ more) (at h j)
    unfolding match_vec next_file
    vec-first_match call i [] more rest h j plain behind = behind h j
    vec-first_match call i (c ∷ cs) more rest h j (one, plain) behind =
        let tail = λ (k : ℕ). match_vec call (suc i) k cs in
        elim (Bool-cases (passes rq c)) [
          | inr missed ↦
              rw (visit-missed call i c tail h j one missed, missed)
                (vec-first_match call (suc i) cs more rest h j plain behind)
          | inl passed ↦ elim (Bool-cases (is_continue c.jump_type)) [
            | inl on ↦
                rw (visit-passed call i c tail h j one passed, passed, on)
                  (vec-first_match call (suc i) cs more rest (counted c (at h j)).hits j plain
                    behind)
            | inr final ↦ rw (visit-passed call i c tail h j one passed, passed, final) refl
          ]
        ]

    files-first_match :
        (call : ℕ → Loop W F) (vs : List (List (Chain W F))) (h : ℕ → ℕ) (j : Option ℕ)
        → FilesPlain rq vs
        → match_files call vs (at h j) ≡ first_match rq (in_a_row vs) (at h j)
    unfolding match_files
    files-first_match call [] h j plain = refl
    files-first_match call (v ∷ vs) h j (one, plain) =
        vec-first_match call 0 v (in_a_row vs) (match_files call vs) h j one
          (λ g k. files-first_match call vs g k plain)

  -- On a table whose rules have no marks, only look at the request, and jump to no table and no
  -- position, the nested loops are one search through the rules of all files in a row: each rule whose
  -- acls let the request through is counted as a hit, and the first of those with another action
  -- than continue gives the verdict and the jump target; without one the verdict is continue. No
  -- source is installed when the table is entered.
  pub match_table-first_match :
      (tables : ℕ → List (List (Chain W F))) (fuel t : ℕ) (w : Walk W F)
      → w.rq.fo ≡ none
      → FilesPlain w.rq (tables t)
      → match_table tables (suc fuel) t w ≡ first_match w.rq (in_a_row (tables t)) w
  unfolding match_table
  match_table-first_match tables fuel t w no_source plain =
      files-first_match w.rq no_source w.checked (match_table tables fuel) (tables t) w.hits w.jump
        plain

  -- `i = skip_to` and the `++i` of the loop: the chains up to position `to` are not tried.
  match_vec-skip :
      (call : ℕ → Loop W F) (k i : ℕ) (cs : List (Chain W F)) (w : Walk W F)
      → match_vec call i k cs w ≡ match_vec call (i + k) 0 (drop k cs) w
  unfolding match_vec
  match_vec-skip call zero i cs w = let e : i + 0 ≡ i = omega arith in rw e
  match_vec-skip call (suc k) i [] w = refl
  match_vec-skip call (suc k) i (c ∷ cs) w =
      let e : i + suc k ≡ suc i + k = omega arith in rw e (match_vec-skip call k (suc i) cs w)

  -- The chain matches, installs no source and leaves its action to the table.
  abbrev pub Accepts : Request W F → Chain W F → Type 0
  Accepts rq c =
      ((match_chain c rq).rq.fo ≡ none)
      × ((match_chain c rq).result.deferred ≡ false)
      × ((match_chain c rq).result.finished ≡ false)
      × ((match_chain c rq).result.value ≡ true)

  visit-Accepts :
      (call : ℕ → Loop W F) (i : ℕ) (c : Chain W F) (rest : ℕ → Loop W F) (w : Walk W F)
      → Accepts w.rq c
      → visit call i c rest w ≡ act c.jump_type call i c rest (step_chain c w).0
  unfolding visit react
  visit-Accepts call i c rest w h = rw (h.0, h.1, h.2, h.3)

  act-skip :
      (call : ℕ → Loop W F) (i : ℕ) {to : ℕ} (c : Chain W F) (rest : ℕ → Loop W F) (w : Walk W F)
      → c.jump_type ≡ skip
      → c.skip_to ≡ some to
      → act c.jump_type call i c rest w ≡ rest (to - i) w
  unfolding act
  act-skip call i c rest w j s =
      ap (λ jt. act jt call i c rest w) j ∙ ap (λ o. rest (skipped o i) w) s

  -- A chain that matches with "skip to position `to`" takes the walk to the chain behind that
  -- position, or to the next chain if the position is not ahead, in the same vector.
  pub match_vec-skip_to :
      (call : ℕ → Loop W F) (i to : ℕ) (c : Chain W F) (cs : List (Chain W F)) (w : Walk W F)
      → Accepts w.rq c
      → c.jump_type ≡ skip
      → c.skip_to ≡ some to
      → match_vec call i 0 (c ∷ cs) w
        ≡ match_vec call (suc (max i to)) 0 (drop (to - i) cs) (step_chain c w).0
  unfolding match_vec act
  match_vec-skip_to call i to c cs w a j s =
      let e : suc i + (to - i) ≡ suc (max i to) = omega arith in
      visit-Accepts call i c (λ k. match_vec call (suc i) k cs) w a
      ∙ act-skip call i c (λ k. match_vec call (suc i) k cs) (step_chain c w).0 j s
      ∙ match_vec-skip call (to - i) (suc i) cs (step_chain c w).0
      ∙ ap (λ p. match_vec call p 0 (drop (to - i) cs) (step_chain c w).0) e
