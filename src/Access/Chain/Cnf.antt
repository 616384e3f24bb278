-- ===== src/Access/Chain/Cnf.antt =====
-- include/KChain.h: what the loop over the acls decides. `is_or` joins an acl to the next one
-- ("OR NEXT"), so a chain's acls are a conjunction of groups of alternatives.
use kangle.Prelude.{
  Bool, true, false, ◌&&◌, ◌||◌, xor, List, [], ◌∷◌, ◌≡◌, refl, arith, inl, ◌⊎◌, if◌then◌else◌,
}
use kangle.Access.Chain.{
  Request, AclPtr, eval_acls, Chain, Match, status_false, eval_marks, finish, match_chain,
}

module _ {W F : Type 0} where
  abbrev cons_group : AclPtr W F → List (List (AclPtr W F)) → List (List (AclPtr W F))
  cons_group a [] = (a ∷ []) ∷ []
  cons_group a (g ∷ gs) = (a ∷ g) ∷ gs

  -- The acls cut behind each one that is not marked "OR NEXT".
  abbrev pub groups : List (AclPtr W F) → List (List (AclPtr W F))
  groups [] = []
  groups (a ∷ rest) = if a.is_or then cons_group a (groups rest) else (a ∷ []) ∷ groups rest

  -- One acl with its NOT mark.
  abbrev pub holds : Request W F → AclPtr W F → Bool
  holds rq a = xor (a.test rq).1 a.revers

  abbrev pub any_holds : Request W F → List (AclPtr W F) → Bool
  any_holds rq [] = false
  any_holds rq (a ∷ g) = holds rq a || any_holds rq g

  abbrev pub all_groups : Request W F → List (List (AclPtr W F)) → Bool
  all_groups rq [] = true
  all_groups rq (g ∷ gs) = any_holds rq g && all_groups rq gs

  -- The tests leave the request as it is.
  abbrev pub AllPure : Request W F → List (AclPtr W F) → Type 0
  AllPure rq [] = Unit {0}
  AllPure rq (a ∷ rest) = ((a.test rq).0 ≡ rq) × AllPure rq rest

  abbrev without_first : Request W F → List (List (AclPtr W F)) → Bool
  without_first rq [] = true
  without_first rq (g ∷ gs) = all_groups rq gs

  abbrev non_empty : List (List (AclPtr W F)) → Bool
  non_empty [] = false
  non_empty (g ∷ gs) = true

  groups-head :
      (acls : List (AclPtr W F))
      → ((acls ≡ []) × (groups acls ≡ []))
        ⊎ ((g : List (AclPtr W F)) × (gs : List (List (AclPtr W F))) × (groups acls ≡ g ∷ gs))
  groups-head [] = inl (refl, refl)
  groups-head (a ∷ rest) = ground (arith, groups-head rest)

  mutual
    unfolding eval_acls

    eval_start :
        (acls : List (AclPtr W F)) (rq : Request W F)
        → AllPure rq acls
        → eval_acls acls true false rq ≡ (rq, all_groups rq (groups acls))
    eval_start [] rq h = refl
    eval_start (a ∷ rest) rq h = ground (
      arith,
      eval_start rest rq h.1,
      eval_skip rest rq h.1,
      eval_more rest rq h.1,
      groups-head rest,
    )

    eval_skip :
        (acls : List (AclPtr W F)) (rq : Request W F)
        → AllPure rq acls
        → eval_acls acls true true rq ≡ (rq, without_first rq (groups acls))
    eval_skip [] rq h = refl
    eval_skip (a ∷ rest) rq h = ground (arith, eval_start rest rq h.1, eval_skip rest rq h.1)

    eval_more :
        (acls : List (AclPtr W F)) (rq : Request W F)
        → AllPure rq acls
        → eval_acls acls false true rq
          ≡ (rq, non_empty (groups acls) && all_groups rq (groups acls))
    eval_more [] rq h = refl
    eval_more (a ∷ rest) rq h = ground (
      arith,
      eval_start rest rq h.1,
      eval_skip rest rq h.1,
      eval_more rest rq h.1,
      groups-head rest,
    )

  -- The acls of a chain let a request through exactly when every group of alternatives has an acl
  -- that holds, whatever the length of the list and wherever "OR NEXT" stands; the request is not
  -- changed. The acls are assumed to leave the request as it is.
  pub eval_acls-all_groups :
      (acls : List (AclPtr W F)) (rq : Request W F)
      → AllPure rq acls
      → eval_acls acls true false rq ≡ (rq, all_groups rq (groups acls))
  eval_acls-all_groups acls rq h = eval_start acls rq h

  -- What a chain without marks answers: its acls, and a hit where they let the request through.
  abbrev pub plain_match : Request W F → Bool → Match W F
  plain_match rq b = record { rq = rq; result = record status_false { value = b }; hit = b }

  after_acls :
      (c : Chain W F) (rq : Request W F) (b : Bool)
      → (if b
          then eval_marks c.jump_type [] true false false rq
          else record { rq = rq; result = status_false; hit = false })
        ≡ plain_match rq b
  unfolding eval_marks finish
  after_acls c rq true = refl
  after_acls c rq false = refl

  pub match_chain-plain_match :
      (c : Chain W F) (rq : Request W F)
      → c.marks ≡ []
      → AllPure rq c.acls
      → match_chain c rq ≡ plain_match rq (all_groups rq (groups c.acls))
  unfolding match_chain
  match_chain-plain_match c rq marks pure =
      rw (eval_acls-all_groups c.acls rq pure, marks)
        (after_acls c rq (all_groups rq (groups c.acls)))
