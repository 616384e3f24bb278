-- ===== src/MultiServer/Upstream.antt =====
-- src/KMultiAcserver.cpp: getNodeIndex and GetUpstream, which pick the server of a request.
use kangle.Prelude.{
  ℕ, suc, ◌%◌, ◌==◌, Option, none, some, List, [], ◌∷◌, ltb, if◌then◌else◌, length, get_elem?,
  Bytes, codes,
}
use kangle.MultiServer.{
  Helper, MultiServer, next_active_node, fastest, first_available, enable_all_server,
}
use kangle.MultiServer.Cookie.{get_cookie_stick}

-- The values of the Cookie headers, conf.cookie_stick_name, and the numbers that string_hash makes
-- of the url and of the client's address, and that rand returns.
pub record Request : Type 0 where
  pub cookies : List Bytes
  pub conf_cookie_name : Bytes
  pub url_value : ℕ
  pub ip_value : ℕ
  pub rand_value : ℕ

abbrev pub cookie_stick_name : Bytes → Bytes
cookie_stick_name [] = codes "kangle_runat"
cookie_stick_name (c ∷ cs) = c ∷ cs

-- One Cookie header in the loop of getNodeIndex: `later` is what the headers behind it give.
abbrev pub in_vnodes : ℕ → Option ℕ → Option ℕ → Option ℕ
in_vnodes size none later = later
in_vnodes size (some i) later = if ltb i size then some i else none

abbrev pub cookie_index : Bytes → ℕ → List Bytes → Option ℕ
cookie_index name size [] = none
cookie_index name size (v ∷ vs) =
    in_vnodes size (get_cookie_stick v name) (cookie_index name size vs)

pub data Outcome : Type 0 where
  -- connect_result(rq, node, cookie_stick)
  connect : ℕ → ℕ → Outcome
  -- icp->GetUpstream(rq)
  use_icp : Outcome
  no_upstream : Outcome
  -- a read behind the end of `vnodes`
  out_of_bounds : Outcome

abbrev pub connect_or_none : Option ℕ → ℕ → Outcome
connect_or_none none stick = no_upstream
connect_or_none (some node) stick = connect node stick

module _ {H : Type 0} (api : Helper H) where
  open api use {is_available, probe}

  -- What the true answer of is_available leaves of the pool.
  abbrev pub probed : MultiServer H → ℕ → MultiServer H
  probed s n = record s { heap = λ j. if j == n then probe (s.heap j) else s.heap j }

  abbrev pub node_hash : MultiServer H → Request → ℕ
  node_hash s rq =
      if s.url_hash then rq.url_value else if s.ip_hash then rq.ip_value else rq.rand_value

  abbrev pub hashed_index : MultiServer H → ℕ → ℕ × ℕ
  hashed_index s index = (index % 65536, if s.cookie_stick then suc index else 0)

  abbrev pub or_hashed : MultiServer H → Request → Option ℕ → ℕ × ℕ
  or_hashed s rq none = hashed_index s (node_hash s rq % length s.vnodes)
  or_hashed s rq (some i) = (i % 65536, 0)

  -- getNodeIndex: the position in `vnodes`, an `unsigned short`, and the new set_cookie_stick.
  unfoldable pub get_node_index : MultiServer H → Request → ℕ × ℕ
  get_node_index s rq = or_hashed s rq (
      if s.cookie_stick
      then cookie_index (cookie_stick_name rq.conf_cookie_name) (length s.vnodes) rq.cookies
      else none)

  -- The end of GetUpstream: the icp server, or all nodes are enabled again.
  abbrev pub last_resort : MultiServer H → Option ℕ → ℕ → MultiServer H × Outcome
  last_resort s sock_helper stick =
      if s.has_icp
      then (s, use_icp)
      else (enable_all_server api s, connect_or_none sock_helper stick)

  abbrev pub or_last : MultiServer H → Option ℕ → ℕ → Option ℕ → Option ℕ → MultiServer H × Outcome
  or_last s sock_helper stick (some fast) _ = (s, connect fast 0)
  or_last s sock_helper stick none (some b) = (probed s b, connect b 0)
  or_last s sock_helper stick none none = last_resort s sock_helper stick

  -- GetUpstream behind the primary nodes; `node` is its variable sockHelper.
  unfoldable pub use_backup : MultiServer H → Option ℕ → ℕ → MultiServer H × Outcome
  unfolding fastest first_available
  use_backup s sock_helper stick =
      or_last s sock_helper stick (fastest api s.heap s.bnodes none)
        (first_available api s.heap s.bnodes)

  -- nextActiveNode has moved `index` to the position it found.
  abbrev pub connect_next : MultiServer H → ℕ → ℕ → Option ℕ → MultiServer H × Outcome
  connect_next s stick p none = (s, out_of_bounds)
  connect_next s stick p (some next) =
      (probed s next, connect next (if s.cookie_stick then suc (p % 65536) else stick))

  abbrev pub use_next : MultiServer H → ℕ → ℕ → Option ℕ → MultiServer H × Outcome
  use_next s helper stick none = use_backup s (some helper) stick
  use_next s helper stick (some p) = connect_next s stick p (get_elem? s.vnodes p)

  abbrev pub try_primary : MultiServer H → ℕ → ℕ → Option ℕ → MultiServer H × Outcome
  unfolding next_active_node
  try_primary s index stick none = (s, out_of_bounds)
  try_primary s index stick (some helper) =
      if is_available (s.heap helper)
      then (probed s helper, connect helper stick)
      else use_next s helper stick (next_active_node api s helper index)

  unfoldable pub use_primary : MultiServer H → ℕ → ℕ → MultiServer H × Outcome
  use_primary s index stick = try_primary s index stick (get_elem? s.vnodes index)

  abbrev pub choose : MultiServer H → Request → List ℕ → MultiServer H × Outcome
  unfolding get_node_index
  choose s rq [] = use_backup s none 0
  choose s rq (_ ∷ _) = let (index, stick) = get_node_index s rq in use_primary s index stick

  -- GetUpstream
  unfoldable pub get_upstream : MultiServer H → Request → MultiServer H × Outcome
  unfolding use_primary get_node_index use_backup
  get_upstream s rq = choose s rq s.vnodes
