-- ===== src/Access/Tests.antt =====
-- Runs of the access rules, and the theorems about them at concrete inputs.
use kangle.Prelude.{
  ℕ, zero, Bool, true, false, Option, none, some, List, [], ◌∷◌, ◌≡◌, refl, arith, codes, eq_bytes,
  xor,
}
use kangle.Access.Chain.{
  JumpType, allow, deny, table, server, skip, drop, Request, AclPtr, Chain, eval_acls, match_chain,
}
use kangle.Access.Chain.Cnf.{eval_acls-all_groups}
use kangle.Access.Table.{Walk, decide, match_table, table_fuel}
use kangle.Access.Table.Total.{Ends, match_table-Ends}
use kangle.Access.Chain.{continue}
use kangle.Access.Table.Reference.{first_match, in_a_row, match_table-first_match}
use kangle.Access.Check.{Access, Sources, check, enter_walk}
use kangle.Access.Check.Settled.{Settles, check-Settles}
use kangle.Access.Action.{parse_chain_action, build_chain_action}
use kangle.Access.Action.RoundTrip.{parse-build_chain_action}

-- An acl that compares the request's number.
abbrev is_number : ℕ → Bool → Bool → AclPtr ℕ ℕ
is_number n revers is_or = record {
  test = λ rq. (rq, eq_bytes (rq.state ∷ []) (n ∷ []));
  revers = revers;
  is_or = is_or;
}

abbrev rule : ℕ → JumpType → Option ℕ → Option ℕ → List (AclPtr ℕ ℕ) → Chain ℕ ℕ
rule id jt skip_to jump acls = record {
  id = id;
  jump_type = jt;
  skip_to = skip_to;
  jump = jump;
  acls = acls;
  marks = [];
}

abbrev request : ℕ → Request ℕ ℕ
request n = record { state = n; fo = none }

abbrev two_or_three : List (AclPtr ℕ ℕ)
two_or_three = is_number 2 false true ∷ is_number 3 false false ∷ is_number 3 true false ∷ []

-- Table 0 jumps to table 1, which jumps back: the walk is denied at the 33rd table.
abbrev circle : ℕ → List (List (Chain ℕ ℕ))
circle zero = (rule 0 table none (some 1) [] ∷ []) ∷ []
circle _ = (rule 1 table none (some 0) [] ∷ []) ∷ []

abbrev start : Walk ℕ ℕ
start = enter_walk none (request 2) (λ _. 0)

circle_is_denied : (match_table circle table_fuel 0 start).1 ≡ decide deny
unfolding match_table match_chain
circle_is_denied = refl

match_table-Ends_example : Ends 0 (match_table circle table_fuel 0 start)
match_table-Ends_example =
    match_table-Ends circle table_fuel 0 0 start (omega arith) (omega arith) (omega arith)

eval_acls-all_groups_example : eval_acls two_or_three true false (request 2) ≡ (request 2, true)
unfolding eq_bytes xor
eval_acls-all_groups_example =
    eval_acls-all_groups two_or_three (request 2) (refl, (refl, (refl, tt)))

abbrev rules : Access ℕ ℕ
rules = record {
  tables = circle;
  begin = some 0;
  post_map = none;
  default_jump_type = allow;
  default_jump = none;
}

abbrev sources : Sources ℕ ℕ
sources = record {
  before_cache = λ _. false;
  make_fetch_object = λ s rq. s;
  http_proxy = 0;
  tcp_proxy = 1;
  is_proxy_port = λ rq. false;
}

check-Settles_example : Settles (check rules sources (request 2) (λ _. 0))
check-Settles_example = check-Settles rules sources (request 2) (λ _. 0) (λ e. cc) (λ e. cc)

-- Table 7: number 9 is skipped to the last rule, number 2 goes to server 5.
abbrev pass : Chain ℕ ℕ
pass = rule 10 deny none none (is_number 1 false false ∷ [])

abbrev to_server : Chain ℕ ℕ
to_server = rule 11 server none (some 5) (is_number 2 false false ∷ [])

abbrev last_rule : Chain ℕ ℕ
last_rule = rule 13 drop none none []

abbrev counter : Chain ℕ ℕ
counter = rule 9 continue none none (is_number 2 false false ∷ [])

abbrev plain_tables : ℕ → List (List (Chain ℕ ℕ))
plain_tables _ = (pass ∷ counter ∷ []) ∷ ((to_server ∷ last_rule ∷ []) ∷ [])

first_run : (match_table plain_tables 33 7 start).1 ≡ decide server
unfolding match_table match_chain eq_bytes xor
first_run = refl

match_table-first_match_example :
    match_table plain_tables 33 7 start ≡ first_match (request 2) (in_a_row (plain_tables 7)) start
match_table-first_match_example = match_table-first_match plain_tables 32 7 start refl (
  (
    (refl, (refl, tt), (λ e. grind arith), (λ e. grind arith)),
    ((refl, (refl, tt), (λ e. grind arith), (λ e. grind arith)), tt),
  ),
  (
    (
      (refl, (refl, tt), (λ e. grind arith), (λ e. grind arith)),
      ((refl, tt, (λ e. grind arith), (λ e. grind arith)), tt),
    ),
    tt,
  ),
)

parse-build_chain_action_example :
    parse_chain_action false (build_chain_action table (some (codes "T1")))
    ≡ some (table, codes "T1")
parse-build_chain_action_example = parse-build_chain_action false table (some (codes "T1")) tt tt

parse_skip : parse_chain_action false (codes "TableChain:BEGIN:12") ≡ some (skip, codes "12")
unfolding parse_chain_action eq_bytes
parse_skip = refl
