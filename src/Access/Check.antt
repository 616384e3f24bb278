-- ===== src/Access/Check.antt =====
-- src/KAccess.cpp: KAccess::check and KAccess::check_post_map, as the default build compiles them
-- (neither HTTP_PROXY nor ENABLE_WRITE_BACK). A build without ENABLE_PROXY_PROTOCOL has is_proxy_port
-- false for every request. The read lock keeps the tables fixed during a call.
pub mod Settled
use kangle.Prelude.{ℕ, Bool, true, false, Option, none, some, List, if◌then◌else◌}
use kangle.Access.Chain.{JumpType, allow, deny, server, continue, proxy, return, Request, Chain}
use kangle.Access.Table.{Walk, Verdict, fall, decide, out_of_fuel, match_table, table_fuel}

-- KAccess; `begin` and `post_map` are pointers to tables.
pub record Access (W F : Type 0) : Type 0 where
  pub tables : ℕ → List (List (Chain W F))
  pub begin : Option ℕ
  pub post_map : Option ℕ
  pub default_jump_type : JumpType
  pub default_jump : Option ℕ

-- The sources of other files: the flag KGL_UPSTREAM_BEFORE_CACHE of a source, the fetch object that
-- a server makes for a request, KHttpProxyFetchObject, and KTcpFetchObject, which a request gets whose
-- work model has WORK_MODEL_PROXY or WORK_MODEL_SSL_PROXY.
pub record Sources (W F : Type 0) : Type 0 where
  pub before_cache : F → Bool
  pub make_fetch_object : ℕ → Request W F → F
  pub http_proxy : F
  pub tcp_proxy : F
  pub is_proxy_port : Request W F → Bool

-- How a call ends: with an action, with a call through a null server, or with no fuel left.
pub data Result (W F : Type 0) : Type 0 where
  returned : JumpType → Walk W F → Result W F
  null_server : Walk W F → Result W F
  exhausted : Result W F

abbrev pub use_default : JumpType → Bool
use_default return = true
use_default continue = true
use_default _ = false

module _ {W F : Type 0} where
  abbrev pub with_source : Walk W F → F → Walk W F
  with_source w f = record w { rq = record w.rq { fo = some f } }

  -- The switch at the end of `check`.
  unfoldable pub route : Sources W F → JumpType → Walk W F → Result W F
  route s server w = elim w.jump [
    | some srv ↦ returned allow (with_source w (s.make_fetch_object srv w.rq))
    | none ↦ null_server w
  ]
  route s proxy w =
      returned allow (with_source w (if s.is_proxy_port w.rq then s.tcp_proxy else s.http_proxy))
  route s jt w = returned jt w

  -- The code behind `begin->match`.
  unfoldable pub judge : Access W F → Sources W F → Walk W F × Verdict → Result W F
  unfolding route
  judge a s (w, out_of_fuel) = exhausted
  judge a s (w, fall) = exhausted
  judge a s (w, decide jt) = elim w.rq.fo [
    | some f ↦ returned (if s.before_cache f then deny else allow) w
    | none ↦
        if use_default jt
        then route s a.default_jump_type (record w { jump = a.default_jump })
        else route s jt w
  ]

  abbrev pub enter_walk : Option ℕ → Request W F → (ℕ → ℕ) → Walk W F
  enter_walk jump rq hits = record { rq = rq; hits = hits; checked = 0; jump = jump }

  unfoldable pub check : Access W F → Sources W F → Request W F → (ℕ → ℕ) → Result W F
  unfolding judge
  check a s rq hits =
      let w = enter_walk a.default_jump rq hits in
      elim a.begin [
        | none ↦ route s a.default_jump_type w
        | some t ↦ judge a s (match_table a.tables table_fuel t w)
      ]

  -- `check_post_map` behind the match; only JUMP_RETURN is replaced.
  unfoldable pub post_action : Access W F → Walk W F × Verdict → Result W F
  post_action a (w, decide return) = returned a.default_jump_type w
  post_action a (w, decide jt) = returned jt w
  post_action a (w, _) = exhausted

  unfoldable pub check_post_map : Access W F → Request W F → (ℕ → ℕ) → Result W F
  unfolding post_action
  check_post_map a rq hits =
      let w = enter_walk none rq hits in
      elim a.post_map [
        | none ↦ returned allow w
        | some t ↦ post_action a (match_table a.tables table_fuel t w)
      ]
