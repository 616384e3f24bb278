-- ===== src/Access/Action/RoundTrip.antt =====
-- src/KAccess.cpp: printed actions are read back, and what a user's rules cannot ask for.
use kangle.Prelude.{
  same, ℕ, ◌≤◌, Bool, false, Option, none, some, [], ◌∷◌, ◌≡◌, ◌≢◌, refl, arith, Bytes, codes,
  eq_bytes, ◌||◌, eq_bytes_sound, if_cases,
}
use kangle.Access.Chain.{JumpType, table, server, wback, fcgi, cgi, api, cmd, dso, skip}
use kangle.Access.Action.{
  parse_chain_action, parse_targets, parse_global, build_chain_action, named, skip_or, skip_target,
  strip, strtoul, behind_colon, int_max, ActionForm, action_attribute,
}

-- The actions that buildChainAction prints, and whether they carry a target.
abbrev pub IsPrinted : JumpType → Type 0
IsPrinted fcgi = ⊥
IsPrinted cgi = ⊥
IsPrinted api = ⊥
IsPrinted cmd = ⊥
IsPrinted dso = ⊥
IsPrinted skip = ⊥
IsPrinted _ = Unit {0}

abbrev pub target_of : JumpType → Bytes → Bytes
target_of server name = name
target_of wback name = name
target_of table name = name
target_of _ name = []

-- What an action has to jump to: server, wback and table need a target with a name, the others
-- have none, or one that is not printed.
abbrev pub HasTarget : JumpType → Option Bytes → Type 0
HasTarget server none = ⊥
HasTarget server (some []) = ⊥
HasTarget wback none = ⊥
HasTarget wback (some []) = ⊥
HasTarget table none = ⊥
HasTarget table (some []) = ⊥
HasTarget _ _ = Unit {0}

abbrev pub name_of : Option Bytes → Bytes
name_of none = []
name_of (some name) = name

parse-targeted :
    (g : Bool) (jt : JumpType) (c : ℕ) (name : Bytes)
    → IsPrinted jt
    → parse_chain_action g (build_chain_action jt (some (c ∷ name)))
      ≡ some (jt, target_of jt (c ∷ name))
unfolding parse_chain_action build_chain_action
parse-targeted g fcgi c name h = elim h [ ]
parse-targeted g cgi c name h = elim h [ ]
parse-targeted g api c name h = elim h [ ]
parse-targeted g cmd c name h = elim h [ ]
parse-targeted g dso c name h = elim h [ ]
parse-targeted g skip c name h = elim h [ ]
parse-targeted g _ c name h = refl

-- Every action that buildChainAction prints is read back by parseChainAction, with the name of its
-- target if it has one, in the global access and in a user's. The actions server, wback and table
-- have a target whose name is not empty; the others have no target or any one.
pub parse-build_chain_action :
    (is_global : Bool) (jt : JumpType) (jump : Option Bytes)
    → IsPrinted jt
    → HasTarget jt jump
    → parse_chain_action is_global (build_chain_action jt jump)
      ≡ some (jt, target_of jt (name_of jump))
unfolding parse_chain_action build_chain_action
parse-build_chain_action g jt (some (c ∷ name)) p h = parse-targeted g jt c name p
parse-build_chain_action g fcgi none p h = elim p [ ]
parse-build_chain_action g fcgi (some []) p h = elim p [ ]
parse-build_chain_action g cgi none p h = elim p [ ]
parse-build_chain_action g cgi (some []) p h = elim p [ ]
parse-build_chain_action g api none p h = elim p [ ]
parse-build_chain_action g api (some []) p h = elim p [ ]
parse-build_chain_action g cmd none p h = elim p [ ]
parse-build_chain_action g cmd (some []) p h = elim p [ ]
parse-build_chain_action g dso none p h = elim p [ ]
parse-build_chain_action g dso (some []) p h = elim p [ ]
parse-build_chain_action g skip none p h = elim p [ ]
parse-build_chain_action g skip (some []) p h = elim p [ ]
parse-build_chain_action g server none p h = elim h [ ]
parse-build_chain_action g server (some []) p h = elim h [ ]
parse-build_chain_action g wback none p h = elim h [ ]
parse-build_chain_action g wback (some []) p h = elim h [ ]
parse-build_chain_action g table none p h = elim h [ ]
parse-build_chain_action g table (some []) p h = elim h [ ]
parse-build_chain_action g _ none p h = refl
parse-build_chain_action g _ (some []) p h = refl

-- The action is one that a virtual host's own rules may have.
abbrev pub IsUser : Option (JumpType × Bytes) → Type 0
IsUser none = Unit {0}
IsUser (some (jt, name)) = (jt ≢ cgi) × (jt ≢ api) × (jt ≢ cmd) × (jt ≢ dso)

-- A position to skip to fits an `int`.
abbrev pub FitsInt : Option (JumpType × Bytes) → Type 0
FitsInt (some (skip, p)) = ((strtoul p).0 ≤ int_max) × ((strtoul p).1 ≡ [])
FitsInt _ = Unit {0}

named-IsUser :
    (jt : JumpType) (r : Option Bytes) (other : Option (JumpType × Bytes))
    → IsUser (some (jt, []))
    → IsUser other
    → IsUser (named jt r other)
unfolding named
named-IsUser jt none other h k = k
named-IsUser jt (some []) other h k = k
named-IsUser jt (some (c ∷ name)) other h k = h

skip_target-IsUser : (r : Option Bytes) → IsUser (skip_target r)
unfolding skip_target
skip_target-IsUser none = tt
skip_target-IsUser (some []) = tt
skip_target-IsUser (some (c ∷ p)) = ground arith

skip_or-IsUser :
    (r : Option Bytes) (other : Option (JumpType × Bytes)) → IsUser other → IsUser (skip_or r other)
unfolding skip_or
skip_or-IsUser none other k = k
skip_or-IsUser (some rest) other k = skip_target-IsUser (behind_colon rest)

skip_target-FitsInt : (r : Option Bytes) → FitsInt (skip_target r)
unfolding skip_target
skip_target-FitsInt none = tt
skip_target-FitsInt (some []) = tt
skip_target-FitsInt (some (c ∷ p)) = ground (arith, eq_bytes_sound (strtoul (c ∷ p)).1 [])

FitsInt-ne : (jt : JumpType) (name : Bytes) → jt ≢ skip → FitsInt (some (jt, name))
FitsInt-ne skip name h = absurd (h refl)
FitsInt-ne _ name h = tt

named-FitsInt :
    (jt : JumpType) (r : Option Bytes) (other : Option (JumpType × Bytes))
    → jt ≢ skip
    → FitsInt other
    → FitsInt (named jt r other)
unfolding named
named-FitsInt jt none other h k = k
named-FitsInt jt (some []) other h k = k
named-FitsInt jt (some (c ∷ name)) other h k = FitsInt-ne jt (c ∷ name) h

skip_or-FitsInt :
    (r : Option Bytes) (other : Option (JumpType × Bytes))
    → FitsInt other
    → FitsInt (skip_or r other)
unfolding skip_or
skip_or-FitsInt none other k = k
skip_or-FitsInt (some rest) other k = skip_target-FitsInt (behind_colon rest)

-- A virtual host's own rules cannot ask for the actions cgi, api, cmd and dso, whatever their text.
pub parse_chain_action-IsUser : (a : Bytes) → IsUser (parse_chain_action false a)
unfolding parse_chain_action parse_targets
parse_chain_action-IsUser a = if_cases IsUser (same a (codes "deny")) _ _ (grind arith) (
    if_cases IsUser (same a (codes "drop")) _ _ (grind arith) (
      if_cases IsUser (same a (codes "allow")) _ _ (grind arith) (
        if_cases IsUser (same a (codes "continue")) _ _ (grind arith) (
          if_cases IsUser (same a (codes "return") || same a (codes "default")) _ _ (grind arith) (
            named-IsUser table (strip (codes "table:") a) _ (grind arith) (
              skip_or-IsUser (strip (codes "tablechain:") a) _ (
                named-IsUser wback (strip (codes "wback:") a) _ (grind arith) (
                  if_cases IsUser (same a (codes "proxy")) _ _ (grind arith)
                    (named-IsUser server (strip (codes "server:") a) _ (grind arith) tt)))))))))

parse_global-FitsInt : (a : Bytes) → FitsInt (parse_global a)
unfolding parse_global
parse_global-FitsInt a = if_cases FitsInt (same a (codes "vhs")) _ _ tt (
    named-FitsInt cgi (strip (codes "cgi:") a) _ (grind arith) (
      named-FitsInt api (strip (codes "api:") a) _ (grind arith) (
        named-FitsInt cmd (strip (codes "cmd:") a) _ (grind arith)
          (named-FitsInt dso (strip (codes "dso:") a) _ (grind arith) tt))))

-- A parsed position to skip to is a whole decimal number that fits an `int`, so that the `atoi` that
-- reads it again does not overflow.
pub parse_chain_action-FitsInt : (g : Bool) (a : Bytes) → FitsInt (parse_chain_action g a)
unfolding parse_chain_action parse_targets
parse_chain_action-FitsInt g a = if_cases FitsInt (same a (codes "deny")) _ _ tt (
    if_cases FitsInt (same a (codes "drop")) _ _ tt (
      if_cases FitsInt (same a (codes "allow")) _ _ tt (
        if_cases FitsInt (same a (codes "continue")) _ _ tt (
          if_cases FitsInt (same a (codes "return") || same a (codes "default")) _ _ tt (
            named-FitsInt table (strip (codes "table:") a) _ (grind arith) (
              skip_or-FitsInt (strip (codes "tablechain:") a) _ (
                named-FitsInt wback (strip (codes "wback:") a) _ (grind arith) (
                  if_cases FitsInt (same a (codes "proxy")) _ _ tt (
                    named-FitsInt server (strip (codes "server:") a) _ (grind arith)
                      (if_cases FitsInt g _ _ (parse_global-FitsInt a) tt))))))))))

-- The actions that a form has a field for, the word for each, and the field.
abbrev pub HasField : JumpType → Type 0
HasField server = Unit {0}
HasField table = Unit {0}
HasField wback = Unit {0}
HasField _ = ⊥

abbrev pub word_of : JumpType → Bytes
word_of server = codes "server"
word_of table = codes "table"
word_of _ = codes "wback"

abbrev pub field_of : JumpType → ActionForm → Bytes
field_of server uv = uv.server_name
field_of table uv = uv.table_name
field_of _ uv = uv.wback_name

-- A form with `jump_type` server, table or wback and a name in the field of that name makes the
-- attribute that parses to that action and that name, whatever the form's other fields hold.
pub parse-action_attribute :
    (g : Bool) (uv : ActionForm) (jt : JumpType) (c : ℕ) (name : Bytes)
    → HasField jt
    → uv.jump_type ≡ word_of jt
    → field_of jt uv ≡ c ∷ name
    → parse_chain_action g (action_attribute uv) ≡ some (jt, c ∷ name)
unfolding parse_chain_action action_attribute eq_bytes
parse-action_attribute g uv server c name h w f = rw (w, f)
parse-action_attribute g uv table c name h w f = rw (w, f)
parse-action_attribute g uv wback c name h w f = rw (w, f)
parse-action_attribute g uv _ c name h w f = absurd h
