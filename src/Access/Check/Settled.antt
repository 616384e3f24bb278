-- ===== src/Access/Check/Settled.antt =====
-- src/KAccess.cpp: what `check` and `check_post_map` can return.
use kangle.Prelude.{ℕ, ◌≢◌, refl, arith, inl, inr, Option-cases}
use kangle.Access.Chain.{JumpType, server, continue, proxy, return, Request}
use kangle.Access.Table.{Walk, Verdict, fall, decide, out_of_fuel, match_table, table_fuel}
use kangle.Access.Table.Total.{Ends, match_table-Ends, match_table-ne-fall}
use kangle.Access.Check.{
  Access, Sources, Result, returned, null_server, exhausted, route, judge, check, enter_walk,
}

-- An action that the caller of `check` carries out itself.
abbrev pub IsSettled : JumpType → Type 0
IsSettled jt = (jt ≢ server) × (jt ≢ proxy) × (jt ≢ continue) × (jt ≢ return)

module _ {W F : Type 0} where
  abbrev pub Settles : Result W F → Type 0
  Settles (returned jt w) = IsSettled jt
  Settles (null_server w) = Unit {0}
  Settles exhausted = ⊥

  route-Settles :
      (s : Sources W F) (jt : JumpType) (w : Walk W F)
      → jt ≢ continue
      → jt ≢ return
      → Settles (route s jt w)
  unfolding route
  route-Settles s server w c r = ground arith
  route-Settles s _ w c r = ground arith

  judge-Settles :
      (a : Access W F) (s : Sources W F) (r : Walk W F × Verdict)
      → a.default_jump_type ≢ continue
      → a.default_jump_type ≢ return
      → Ends 0 r
      → r.1 ≢ fall
      → Settles (judge a s r)
  unfolding judge
  judge-Settles a s (w, fall) c r e f = absurd (f refl)
  judge-Settles a s (w, out_of_fuel) c r e f = e
  judge-Settles a s (w, decide jt) c r e f = ground (
    arith,
    route-Settles s a.default_jump_type (record w { jump = a.default_jump }) c r,
    route-Settles s jt w,
  )

  -- `check` comes back on every rule set, also where tables jump in a circle, and then with an action
  -- that is neither "server" nor "proxy" (those are turned into a source) nor "continue" nor
  -- "return" (those are turned into the default action); or it reaches a null server. The default
  -- action is assumed to be neither continue nor return.
  pub check-Settles :
      (a : Access W F) (s : Sources W F) (rq : Request W F) (hits : ℕ → ℕ)
      → a.default_jump_type ≢ continue
      → a.default_jump_type ≢ return
      → Settles (check a s rq hits)
  unfolding check
  check-Settles a s rq hits c r = elim (Option-cases a.begin) [
    | inl e ↦ rw e (route-Settles s a.default_jump_type (enter_walk a.default_jump rq hits) c r)
    | inr (t, e) ↦ rw e (
        let w = enter_walk a.default_jump rq hits in
        judge-Settles a s (match_table a.tables table_fuel t w) c r
          (match_table-Ends a.tables table_fuel 0 t w (omega arith) (omega arith) (omega arith))
          (match_table-ne-fall a.tables 32 t w))
  ]
