-- ===== src/PerIpAcl.antt =====
-- include/KPerIpAcl.h, src/KPerIpAcl.cpp: the acl that counts the connections of each client. The
-- hooks that registerConnectCleanHook hands to the connections are part of the state: the server runs
-- each of them once, when its connection ends. A connection is the number of its pool.
pub mod Counted
pub mod Closed
pub mod Limit
mod Tests
use kangle.Prelude.{
  ℕ, zero, suc, ◌+◌, ◌-◌, ◌%◌, ◌^◌, Bool, true, false, Option, none, some, List, [], ◌∷◌, ◌==◌, ltb,
  leb, if◌then◌else◌, Bytes, eq_bytes,
}
use kangle.TextMap.{find, assign, erase, contains, remove}

-- KPerIpCallBackData, without the pointer to the acl.
pub record CallBackData : Type 0 where
  ip : Bytes
  connection_pool : ℕ

pub record PerIpAcl : Type 0 where
  ip_map : List (Bytes × ℕ)
  active_connections : List ℕ
  max_per_ip : ℕ
  hooks : List CallBackData

unfoldable pub add_call_back : ℕ → Bytes → PerIpAcl → PerIpAcl
add_call_back pool ip acl = record acl {
  active_connections = pool ∷ acl.active_connections;
  hooks = record { ip = ip; connection_pool = pool } ∷ acl.hooks;
}

-- `second` is an unsigned of 32 bits.
abbrev pub match_entry : ℕ → Bytes → PerIpAcl → Option ℕ → Bool × PerIpAcl
unfolding assign add_call_back
match_entry pool ip acl none =
    if ltb acl.max_per_ip 1
    then (true, acl)
    else (false, add_call_back pool ip (record acl { ip_map = assign ip 1 acl.ip_map }))
match_entry pool ip acl (some n) = if leb acl.max_per_ip n then (true, acl) else (
  false,
  add_call_back pool ip (record acl { ip_map = assign ip ((n + 1) % 2 ^ 32) acl.ip_map }),
)

unfoldable pub match : ℕ → Bytes → PerIpAcl → Bool × PerIpAcl
unfolding contains find match_entry
match pool ip acl =
    if contains pool acl.active_connections
    then (false, acl)
    else match_entry pool ip acl (find ip acl.ip_map)

abbrev pub count_down : Bytes → Option ℕ → List (Bytes × ℕ) → List (Bytes × ℕ)
unfolding assign erase
count_down ip none ip_map = ip_map
count_down ip (some n) ip_map =
    let rest = if ltb 0 n then n - 1 else n in
    if rest == 0 then erase ip (assign ip rest ip_map) else assign ip rest ip_map

unfoldable pub call_back : CallBackData → PerIpAcl → PerIpAcl
unfolding find count_down remove
call_back param acl = record acl {
  active_connections = remove param.connection_pool acl.active_connections;
  ip_map = count_down param.ip (find param.ip acl.ip_map) acl.ip_map;
}

-- The end of a connection: its hooks run, one after the other.
abbrev pub keep_hook : CallBackData → PerIpAcl → PerIpAcl
keep_hook param acl = record acl { hooks = param ∷ acl.hooks }

unfoldable pub clean : ℕ → List CallBackData → PerIpAcl → PerIpAcl
unfolding call_back
clean pool [] acl = record acl { hooks = [] }
clean pool (param ∷ hooks) acl =
    let run = clean pool hooks (call_back param acl) in
    let keep = keep_hook param (clean pool hooks acl) in
    if param.connection_pool == pool then run else keep

-- What reaches the acl: a request of a connection, and the end of one.
pub data Event : Type 0 where
  request : ℕ → Bytes → Event
  closed : ℕ → Event

unfoldable pub step : Event → PerIpAcl → PerIpAcl
unfolding match clean
step (request pool ip) acl = (match pool ip acl).1
step (closed pool) acl = clean pool acl.hooks acl

unfoldable pub steps : List Event → PerIpAcl → PerIpAcl
unfolding step
steps [] acl = acl
steps (e ∷ events) acl = steps events (step e acl)

-- A new acl, with the limit of its configuration.
abbrev pub new_acl : ℕ → PerIpAcl
new_acl max = record { ip_map = []; active_connections = []; max_per_ip = max; hooks = [] }
