-- ===== src/MultiServer.antt =====
-- src/KMultiAcserver.cpp: the pool of upstream servers. The ring of nodes is the list of its members
-- from `nodes` on; a node is a reference, and `heap` gives the state of the KSockPoolHelper behind
-- it. That class is not in the repository: the record Helper is what the code asks of it.
pub mod Cookie
pub mod Upstream
pub mod Rounds
pub mod Primary
pub mod Backup
pub mod Weight
pub mod Sticky
mod Tests
use kangle.Prelude.{
  ℕ, zero, suc, ◌+◌, ◌-◌, ◌%◌, Bool, true, false, not, ◌&&◌, Option, none, some, List, [], ◌∷◌,
  ◌++◌, ltb, ◌==◌, if◌then◌else◌, length, get_elem?, replicate,
}
use kangle.Prelude.Int.{ℤ, pos, negsuc}

-- KSockPoolHelper: its configured weight, the time of the last probes, its two tests and `enable`.
-- is_available is true for an enabled node, and once for a disabled one whose time to try again has
-- come: `probe` is the state that a true answer leaves. A false answer leaves the node as it is.
pub record Helper (H : Type 0) : Type 0 where
  pub weight : H → ℤ
  pub avg_monitor_tick : H → ℕ
  pub is_available : H → Bool
  pub probe : H → H
  pub is_enabled : H → Bool
  pub enable : H → H

pub record MultiServer (H : Type 0) : Type 0 where
  pub nodes : List ℕ
  pub vnodes : List ℕ
  pub bnodes : List ℕ
  pub ip_hash : Bool
  pub url_hash : Bool
  pub cookie_stick : Bool
  pub has_icp : Bool
  pub heap : ℕ → H

-- What buildVNode appends to `vnodes` and to `bnodes` for one node.
abbrev pub primary_copies : ℤ → ℕ → List ℕ
primary_copies (pos n) node = replicate n node
primary_copies (negsuc n) node = []

abbrev pub backup_copies : ℤ → ℕ → List ℕ
backup_copies (pos zero) node = node ∷ []
backup_copies (pos (suc n)) node = []
backup_copies (negsuc n) node = []

-- nextActiveNode: the position tried in round `i`, of `count` positions.
abbrev pub try_position : Bool → ℕ → ℕ → ℕ → ℕ
try_position use_next index count i =
    if use_next then (index + i) % count else (index + count - i) % count

module _ {H : Type 0} (api : Helper H) where
  open api use {weight, avg_monitor_tick, is_available, is_enabled, enable}

  pub build_vnodes : (ℕ → H) → List ℕ → List ℕ
  build_vnodes heap [] = []
  build_vnodes heap (n ∷ ns) = primary_copies (weight (heap n)) n ++ build_vnodes heap ns

  pub build_bnodes : (ℕ → H) → List ℕ → List ℕ
  build_bnodes heap [] = []
  build_bnodes heap (n ∷ ns) = backup_copies (weight (heap n)) n ++ build_bnodes heap ns

  -- buildVNode
  pub build_vnode : MultiServer H → MultiServer H
  unfolding build_vnodes build_bnodes
  build_vnode s = record s {
    vnodes = build_vnodes s.heap s.nodes;
    bnodes = build_bnodes s.heap s.nodes;
  }

  -- addNode(KSockPoolHelper *): the new node goes in front of `nodes` in the ring, that is last.
  pub add_node : MultiServer H → ℕ → MultiServer H
  add_node s node = record s { nodes = s.nodes ++ node ∷ [] }

  pub remove_all_node : MultiServer H → MultiServer H
  remove_all_node s = record s { nodes = []; vnodes = []; bnodes = [] }

  -- The loop of enableAllServer over the ring.
  pub enable_nodes : List ℕ → (ℕ → H) → ℕ → H
  enable_nodes [] heap k = heap k
  enable_nodes (n ∷ ns) heap k = enable_nodes ns (λ j. if j == n then enable (heap j) else heap j) k

  pub enable_all_server : MultiServer H → MultiServer H
  unfolding enable_nodes
  enable_all_server s = record s { heap = enable_nodes s.nodes s.heap }

  abbrev pub is_other : (ℕ → H) → ℕ → Option ℕ → Bool
  is_other heap node none = false
  is_other heap node (some h) = not (h == node) && is_available (heap h)

  -- The loop from round `i`, with `left` rounds to go; it returns the position.
  pub scan_active : MultiServer H → ℕ → ℕ → ℕ → ℕ → Option ℕ
  scan_active s node index i zero = none
  scan_active s node index i (suc left) =
      let p = try_position (index % 2 == 1) index (length s.vnodes) i in
      let rest = scan_active s node index (suc i) left in
      if is_other s.heap node (get_elem? s.vnodes p) then some p else rest

  pub next_active_node : MultiServer H → ℕ → ℕ → Option ℕ
  unfolding scan_active
  next_active_node s node index = scan_active s node index 1 (length s.vnodes - 1)

  -- The backup node kept by one round of the loop: the faster one, the earlier one among equals.
  abbrev pub faster : (ℕ → H) → ℕ → Option ℕ → Option ℕ
  faster heap b none = some b
  faster heap b (some f) =
      if ltb (avg_monitor_tick (heap b)) (avg_monitor_tick (heap f)) then some b else some f

  abbrev pub kept : (ℕ → H) → ℕ → Option ℕ → Option ℕ
  kept heap b best = if is_enabled (heap b) then faster heap b best else best

  -- The loop of GetUpstream over the backup nodes.
  pub fastest : (ℕ → H) → List ℕ → Option ℕ → Option ℕ
  fastest heap [] best = best
  fastest heap (b ∷ bs) best = fastest heap bs (kept heap b best)

  pub first_available : (ℕ → H) → List ℕ → Option ℕ
  first_available heap [] = none
  first_available heap (b ∷ bs) = if is_available (heap b) then some b else first_available heap bs
