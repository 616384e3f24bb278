-- ===== src/Access/Action.antt =====
-- src/KAccess.cpp: the text of a chain's action (parseChainAction, buildChainAction and
-- build_action_attribute). Texts are bytes without NUL. A parsed action is its type and the name of
-- its target (`jumpName`).
pub mod RoundTrip
use kangle.Prelude.{
  ℕ, ◌+◌, ◌-◌, ◌*◌, ◌%◌, ◌^◌, Bool, true, false, not, ◌&&◌, ◌||◌, Option, none, some, List, [], ◌∷◌,
  ◌++◌, leb, ltb, ◌==◌, if◌then◌else◌, Bytes, same, codes, is_space, is_digit, to_lower, eq_bytes,
}
use kangle.Access.Chain.{
  JumpType, allow, deny, table, server, wback, fcgi, continue, proxy, cgi, api, return, cmd, drop,
  dso, skip,
}

-- strncasecmp(a, p, strlen(p)) == 0, and what stands behind the prefix.
pub strip : Bytes → Bytes → Option Bytes
strip [] a = some a
strip (y ∷ p) [] = none
strip (y ∷ p) (x ∷ a) = let rest = strip p a in if to_lower x == to_lower y then rest else none

-- strtoul in base 10, where `unsigned long` has 64 bits: the value, and where it stops.
abbrev pub ulong_max : ℕ
ulong_max = 2 ^ 64 - 1

pub take_digits : ℕ → Bytes → ℕ × Bytes
take_digits n [] = (n, [])
take_digits n (c ∷ cs) =
    let rest = take_digits (n * 10 + (c - b'0')) cs in if is_digit c then rest else (n, c ∷ cs)

abbrev clip : ℕ → ℕ
clip n = if leb n ulong_max then n else ulong_max

unsigned : Bool → Bytes → Bytes → ℕ × Bytes
unfolding take_digits
unsigned minus whole [] = (0, whole)
unsigned minus whole (c ∷ cs) =
    if is_digit c
    then (let (n, rest) = take_digits 0 (c ∷ cs) in
        (if leb n ulong_max && minus then (2 ^ 64 - n) % 2 ^ 64 else clip n, rest))
    else (0, whole)

signed : Bytes → Bytes → ℕ × Bytes
unfolding unsigned
signed whole [] = (0, whole)
signed whole (c ∷ cs) =
    if c == b'-'
    then unsigned true whole cs
    else if c == b'+'
    then unsigned false whole cs
    else unsigned false whole (c ∷ cs)

drop_spaces : Bytes → Bytes
drop_spaces [] = []
drop_spaces (c ∷ cs) = if is_space c then drop_spaces cs else c ∷ cs

pub strtoul : Bytes → ℕ × Bytes
unfolding signed drop_spaces
strtoul s = signed s (drop_spaces s)

-- strrchr(s, ':'): the text behind the last colon.
pub behind_colon : Bytes → Option Bytes
behind_colon [] = none
behind_colon (c ∷ cs) = elim (behind_colon cs) [
  | some s ↦ some s
  | none ↦ if c == b':' then some cs else none
]

abbrev pub int_max : ℕ
int_max = 2147483647

abbrev pub plain : JumpType → Option (JumpType × Bytes)
plain jt = some (jt, [])

-- A prefix with a name behind it; without the name the next test follows.
pub named : JumpType → Option Bytes → Option (JumpType × Bytes) → Option (JumpType × Bytes)
named jt none other = other
named jt (some []) other = other
named jt (some (c ∷ name)) other = some (jt, c ∷ name)

-- "tablechain:<table>:<position>", on what stands behind the first colon.
pub skip_target : Option Bytes → Option (JumpType × Bytes)
unfolding strtoul
skip_target none = none
skip_target (some []) = none
skip_target (some (c ∷ p)) =
    let (target, end) = strtoul (c ∷ p) in
    if eq_bytes end [] && leb target int_max then some (skip, c ∷ p) else none

pub skip_or : Option Bytes → Option (JumpType × Bytes) → Option (JumpType × Bytes)
unfolding skip_target behind_colon
skip_or none other = other
skip_or (some rest) other = skip_target (behind_colon rest)

-- The actions that only the global access has.
pub parse_global : Bytes → Option (JumpType × Bytes)
unfolding named strip same
parse_global a =
    if same a (codes "vhs")
    then plain allow
    else named cgi (strip (codes "cgi:") a) (
        named api (strip (codes "api:") a)
          (named cmd (strip (codes "cmd:") a) (named dso (strip (codes "dso:") a) none)))

-- The actions with a target, and the rest.
pub parse_targets : Bool → Bytes → Option (JumpType × Bytes)
unfolding named skip_or parse_global strip same
parse_targets is_global a = named table (strip (codes "table:") a) (
    skip_or (strip (codes "tablechain:") a) (
      named wback (strip (codes "wback:") a) (
        if same a (codes "proxy")
        then plain proxy
        else named server (strip (codes "server:") a)
            (if is_global then parse_global a else none))))

unfoldable pub parse_chain_action : Bool → Bytes → Option (JumpType × Bytes)
unfolding parse_targets same
parse_chain_action is_global a =
    if same a (codes "deny")
    then plain deny
    else if same a (codes "drop")
    then plain drop
    else if same a (codes "allow")
    then plain allow
    else if same a (codes "continue")
    then plain continue
    else if same a (codes "return") || same a (codes "default")
    then plain return
    else parse_targets is_global a

abbrev jump_name : Option Bytes → Bytes
jump_name none = []
jump_name (some name) = name

-- buildChainAction; `jump` is the name of the target, if there is one.
pub build_chain_action : JumpType → Option Bytes → Bytes
build_chain_action jt jump = elim jt [
  | drop ↦ codes "drop"
  | deny ↦ codes "deny"
  | allow ↦ codes "allow"
  | continue ↦ codes "continue"
  | return ↦ codes "return"
  | proxy ↦ codes "proxy"
  | server ↦ codes "server:" ++ jump_name jump
  | wback ↦ codes "wback:" ++ jump_name jump
  | table ↦ codes "table:" ++ jump_name jump
  | _ ↦ []
]

-- The fields of a form that build_action_attribute reads.
pub record ActionForm : Type 0 where
  pub jump_type : Bytes
  pub action : Bytes
  pub server_name : Bytes
  pub table_name : Bytes
  pub wback_name : Bytes

abbrev pub is_empty : Bytes → Bool
is_empty [] = true
is_empty (c ∷ cs) = false

pub action_attribute : ActionForm → Bytes
unfolding eq_bytes
action_attribute uv =
    if is_empty uv.jump_type && not (is_empty uv.action)
    then uv.action
    else if eq_bytes uv.jump_type (codes "server")
    then uv.jump_type ++ b':' ∷ uv.server_name
    else if eq_bytes uv.jump_type (codes "table")
    then uv.jump_type ++ b':' ∷ uv.table_name
    else if eq_bytes uv.jump_type (codes "wback")
    then uv.jump_type ++ b':' ∷ uv.wback_name
    else uv.jump_type
