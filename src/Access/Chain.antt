-- ===== src/Access/Chain.antt =====
-- include/KChain.h: KChain::match, and the pointers to acls and marks of include/KModelPtr.h.
-- An acl and a mark are code of their own class: each is a function on the state `W` that they
-- read and write (the request, the cached object, their own counters). `F` is the type of the
-- sources that marks can install (`KSafeSource& fo`).
pub mod Cnf
use kangle.Prelude.{
  ℕ, Bool, true, false, not, ◌&&◌, ◌||◌, xor, Option, none, some, List, [], ◌∷◌, if◌then◌else◌,
}

-- The actions of include/global.h.in that the chains of this library name. JUMP_VHS is JUMP_ALLOW.
pub data JumpType : Type 0 where
  allow deny table server wback fcgi continue proxy cgi api return cmd drop dso skip : JumpType

-- The result word of a mark or a chain: its bits KF_STATUS_REQ_FINISHED (1 << 31) and
-- KF_STATUS_REQ_DEFERRED (1 << 30), and whether any other bit is set.
pub record Status : Type 0 where
  pub finished : Bool
  pub deferred : Bool
  pub value : Bool

-- The word is not 0.
abbrev pub nonzero : Status → Bool
nonzero r = r.finished || r.deferred || r.value

abbrev pub status_true : Status
status_true = record { finished = false; deferred = false; value = true }

abbrev pub status_false : Status
status_false = record { finished = false; deferred = false; value = false }

-- What a request carries through the rules: the state of the models, and the source `fo`.
pub record Request (W F : Type 0) : Type 0 where
  pub state : W
  pub fo : Option F

-- KModelPtr<KAcl>
pub record AclPtr (W F : Type 0) : Type 0 where
  pub test : Request W F → Request W F × Bool
  pub revers : Bool
  pub is_or : Bool

-- KModelPtr<KMark>; a mark is told the action of its chain.
pub record MarkPtr (W F : Type 0) : Type 0 where
  pub process : JumpType → Request W F → Request W F × Status
  pub revers : Bool
  pub is_or : Bool

-- `id` names the chain object, whose `hit_count` is kept outside; `skip_to` is `none` for -1; `jump`
-- is the pointer to a table, a server or a write back.
pub record Chain (W F : Type 0) : Type 0 where
  pub id : ℕ
  pub jump_type : JumpType
  pub skip_to : Option ℕ
  pub jump : Option ℕ
  pub acls : List (AclPtr W F)
  pub marks : List (MarkPtr W F)

-- How KChain::match ends: its result word, and whether it counted a hit.
pub record Match (W F : Type 0) : Type 0 where
  pub rq : Request W F
  pub result : Status
  pub hit : Bool

module _ {W F : Type 0} where
  -- The loop over `acls`, from the values of `result` and `last_or`.
  pub eval_acls : List (AclPtr W F) → Bool → Bool → Request W F → Request W F × Bool
  eval_acls [] result last_or rq = (rq, result)
  eval_acls (a ∷ rest) result last_or rq = elim (result && last_or) [
    | true ↦ eval_acls rest result a.is_or rq
    | false ↦
        let (rq', matched) = a.test rq in
        let result' = xor matched a.revers in
        elim (not result' && not a.is_or) [
          | true ↦ (rq', false)
          | false ↦ eval_acls rest result' a.is_or rq'
        ]
  ]

  -- The last lines of KChain::match.
  finish : Request W F → Bool → Bool → Match W F
  finish rq result deferred = record {
    rq = rq;
    result =
        if result && deferred
        then record status_true { deferred = true }
        else record status_false { value = result };
    hit = result && not deferred;
  }

  -- The loop over `marks`.
  pub eval_marks : JumpType → List (MarkPtr W F) → Bool → Bool → Bool → Request W F → Match W F
  unfolding finish
  eval_marks jt [] result last_or deferred rq = finish rq result deferred
  eval_marks jt (m ∷ rest) result last_or deferred rq = elim (result && last_or) [
    | true ↦ eval_marks jt rest result m.is_or deferred rq
    | false ↦
        let (rq', r) = m.process jt rq in
        elim r.finished [
          | true ↦ record { rq = rq'; result = r; hit = true }
          | false ↦
              let deferred' = deferred || r.deferred in
              let result' = xor r.value m.revers in
              elim (not result' && not m.is_or) [
                | true ↦ finish rq' false deferred'
                | false ↦ elim rq'.fo [
                  | some _ ↦ record { rq = rq'; result = status_true; hit = true }
                  | none ↦ eval_marks jt rest result' m.is_or deferred' rq'
                ]
              ]
        ]
  ]

  unfoldable pub match_chain : Chain W F → Request W F → Match W F
  unfolding eval_acls eval_marks
  match_chain c rq =
      let (rq', matched) = eval_acls c.acls true false rq in
      if matched
      then eval_marks c.jump_type c.marks true false false rq'
      else record { rq = rq'; result = status_false; hit = false }
