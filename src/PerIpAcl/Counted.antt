-- ===== src/PerIpAcl/Counted.antt =====
-- include/KPerIpAcl.h, src/KPerIpAcl.cpp: the counts are those of the open connections.
use kangle.Prelude.{
  ℕ, zero, suc, ◌+◌, ◌-◌, ◌≤◌, ◌<◌, ◌%◌, ◌^◌, Bool, true, false, Option, none, some, List, [], ◌∷◌,
  ◌≡◌, refl, sym, ap, ◌∙◌, inl, inr, arith, ◌==◌, ltb, leb, if◌then◌else◌, Bool-cases, Bytes,
  eq_bytes, eq_bytes_sound,
}
use mathlib.Core.Path.{subst}
use kangle.PerIpAcl.{CallBackData, PerIpAcl, add_call_back, match_entry, match, count_down}
use kangle.TextMap.{find, assign, erase, contains, find-assign, find-erase}

-- How many hooks there are for a client, and whether a connection has one.
unfoldable pub one : Bytes → Bytes → ℕ
unfolding eq_bytes
one ip j = if eq_bytes ip j then 1 else 0

unfoldable pub tally : Bytes → List CallBackData → ℕ
tally j [] = 0
tally j (hook ∷ hooks) = one hook.ip j + tally j hooks

unfoldable pub has_hook : ℕ → List CallBackData → Bool
has_hook pool [] = false
has_hook pool (hook ∷ hooks) =
    let rest = has_hook pool hooks in if hook.connection_pool == pool then true else rest

-- The map has no entry for a client without a connection.
abbrev pub entry_of : ℕ → Option ℕ
entry_of zero = none
entry_of (suc n) = some (suc n)

pub record Counted (max : ℕ) (acl : PerIpAcl) : Type 0 where
  pub limit : acl.max_per_ip ≡ max
  pub counts : (ip : Bytes) → find ip acl.ip_map ≡ entry_of (tally ip acl.hooks)
  pub bound : (ip : Bytes) → tally ip acl.hooks ≤ max
  pub active : (pool : ℕ) → contains pool acl.active_connections ≡ has_hook pool acl.hooks

-- The entry of a client that has a connection counts one less, and goes with the last one.
one_less : (k : ℕ) → (if ltb 0 (suc k) then suc k - 1 else suc k) ≡ k
one_less k = ground arith

count_down-suc :
    (ip : Bytes) (k : ℕ) (ip_map : List (Bytes × ℕ))
    → count_down ip (some (suc k)) ip_map
      ≡ (if k == 0 then erase ip (assign ip k ip_map) else assign ip k ip_map)
unfolding count_down
count_down-suc ip k ip_map = rw (one_less k) refl

pub find-count_down :
    (ip j : Bytes) (k : ℕ) (ip_map : List (Bytes × ℕ))
    → find j (count_down ip (some (suc k)) ip_map)
      ≡ (if eq_bytes ip j then entry_of k else find j ip_map)
find-count_down ip j zero ip_map =
    ap (find j) (count_down-suc ip 0 ip_map)
    ∙ find-erase ip j (assign ip 0 ip_map)
    ∙ (elim (Bool-cases (eq_bytes ip j)) [
      | inl e ↦ rw e refl
      | inr e ↦ rw (e, find-assign ip j 0 ip_map, e) refl
    ])
find-count_down ip j (suc k) ip_map =
    ap (find j) (count_down-suc ip (suc k) ip_map ∙ ground arith) ∙ find-assign ip j (suc k) ip_map

tally-cons :
    (j : Bytes) (hook : CallBackData) (hooks : List CallBackData)
    → tally j (hook ∷ hooks) ≡ (if eq_bytes hook.ip j then suc (tally j hooks) else tally j hooks)
unfolding tally one
tally-cons j hook hooks = ground arith

entry_of-if :
    (b : Bool) (n : ℕ)
    → entry_of (if b then suc n else n) ≡ (if b then some (suc n) else entry_of n)
entry_of-if true n = refl
entry_of-if false n = refl

-- A connection that is let in.
admit-Counted :
    (max pool : ℕ) (ip : Bytes) (acl : PerIpAcl)
    → Counted max acl
    → tally ip acl.hooks < max
    → Counted max (
        add_call_back pool ip
          (record acl { ip_map = assign ip (suc (tally ip acl.hooks)) acl.ip_map }))
unfolding add_call_back has_hook contains
admit-Counted max pool ip acl good room = record {
  limit = good.limit;
  counts = λ j.
      find-assign ip j (suc (tally ip acl.hooks)) acl.ip_map
      ∙ counted j
      ∙ sym (entry_of-if (eq_bytes ip j) (tally j acl.hooks))
      ∙ ap entry_of (sym (tally-cons j hook acl.hooks));
  bound = λ j. subst (λ (n : ℕ). n ≤ max) (sym (tally-cons j hook acl.hooks)) (bounded j);
  active = λ q. ap (λ (b : Bool). if pool == q then true else b) (good.active q);
}
  where
    hook : CallBackData
    hook = record { ip = ip; connection_pool = pool }

    counted :
        (j : Bytes)
        → (if eq_bytes ip j then some (suc (tally ip acl.hooks)) else find j acl.ip_map)
          ≡ (if eq_bytes ip j then some (suc (tally j acl.hooks)) else entry_of (tally j acl.hooks))
    counted j = elim (Bool-cases (eq_bytes ip j)) [
      | inl e ↦ rw (e, eq_bytes_sound ip j e) refl
      | inr e ↦ rw e (good.counts j)
    ]

    bounded :
        (j : Bytes) → (if eq_bytes ip j then suc (tally j acl.hooks) else tally j acl.hooks) ≤ max
    bounded j = elim (Bool-cases (eq_bytes ip j)) [
      | inl e ↦ rw (e, sym (eq_bytes_sound ip j e)) (omega arith)
      | inr e ↦ rw e (good.bound j)
    ]

-- Whether a request is turned away.
abbrev pub turned_away : ℕ → ℕ → Bytes → PerIpAcl → Bool
unfolding has_hook tally
turned_away max pool ip acl =
    if has_hook pool acl.hooks then false else leb max (tally ip acl.hooks)

abbrev pub Answers : ℕ → ℕ → Bytes → PerIpAcl → Bool × PerIpAcl → Type 0
unfolding turned_away
Answers max pool ip acl (answer, next) = (answer ≡ turned_away max pool ip acl) × Counted max next

tally_of_none : (n : ℕ) → none ≡ entry_of n → n ≡ 0
tally_of_none zero e = refl
tally_of_none (suc n) e = absurd (ground arith)

tally_of_some : (n k : ℕ) → some k ≡ entry_of n → n ≡ k
tally_of_some zero k e = absurd (ground arith)
tally_of_some (suc n) k e = ground arith

-- A request of a client whose count is `n`, as the code finds it.
decide-Answers :
    (max pool : ℕ) (ip : Bytes) (acl : PerIpAcl) (n next : ℕ) (full : Bool)
    → Counted max acl
    → has_hook pool acl.hooks ≡ false
    → tally ip acl.hooks ≡ n
    → full ≡ leb max n
    → (n < max → next ≡ suc n)
    → Answers max pool ip acl (
        if full
        then (true, acl)
        else (false, add_call_back pool ip (record acl { ip_map = assign ip next acl.ip_map })))
unfolding Answers turned_away
decide-Answers max pool ip acl n next true good fresh count e plus = rw (fresh, count) (e, good)
decide-Answers max pool ip acl n next false good fresh count e plus =
    rw (plus (omega (arith, count, room)), sym count)
      (rw (fresh, count) e, admit-Counted max pool ip acl good (omega (arith, count, room)))
  where
    room : n < max
    room = ground (arith, e)

entry-Answers :
    (max pool : ℕ) (ip : Bytes) (acl : PerIpAcl) (entry : Option ℕ)
    → max < 2 ^ 32
    → Counted max acl
    → has_hook pool acl.hooks ≡ false
    → find ip acl.ip_map ≡ entry
    → Answers max pool ip acl (match_entry pool ip acl entry)
unfolding match_entry
entry-Answers max pool ip acl none small good fresh e =
    decide-Answers max pool ip acl 0 1 (ltb acl.max_per_ip 1) good fresh
      (tally_of_none (tally ip acl.hooks) (sym e ∙ good.counts ip)) (rw good.limit (ground arith))
      (λ h. refl)
entry-Answers max pool ip acl (some n) small good fresh e =
    decide-Answers max pool ip acl n ((n + 1) % 2 ^ 32) (leb acl.max_per_ip n) good fresh
      (tally_of_some (tally ip acl.hooks) n (sym e ∙ good.counts ip)) (rw good.limit refl)
      (λ h. omega arith)

pub match-Answers :
    (max pool : ℕ) (ip : Bytes) (acl : PerIpAcl)
    → max < 2 ^ 32
    → Counted max acl
    → Answers max pool ip acl (match pool ip acl)
unfolding match
match-Answers max pool ip acl small good =
    elim (Bool-cases (contains pool acl.active_connections)) [
      | inl known ↦ rw known (again (sym (good.active pool) ∙ known))
      | inr fresh ↦ rw fresh (
          entry-Answers max pool ip acl (find ip acl.ip_map) small good
            (sym (good.active pool) ∙ fresh) refl)
    ]
  where
    again : has_hook pool acl.hooks ≡ true → Answers max pool ip acl (false, acl)
    again has = unfold Answers turned_away in (rw has refl, good)

pub Answers-next :
    (max pool : ℕ) (ip : Bytes) (acl : PerIpAcl) (answer : Bool × PerIpAcl)
    → Answers max pool ip acl answer
    → Counted max answer.1
unfolding Answers
Answers-next max pool ip acl (answer, next) (e, good) = good

pub Answers-answer :
    (max pool : ℕ) (ip : Bytes) (acl : PerIpAcl) (answer : Bool × PerIpAcl)
    → Answers max pool ip acl answer
    → answer.0 ≡ turned_away max pool ip acl
unfolding Answers
Answers-answer max pool ip acl (answer, next) (e, good) = e
