-- ===== src/PerIpAcl/Closed.antt =====
-- src/KPerIpAcl.cpp: the end of a connection, and every run of requests and ends.
use kangle.Prelude.{
  ℕ, suc, ◌+◌, ◌≤◌, false, some, List, [], ◌∷◌, ◌≡◌, refl, sym, ap, ◌∙◌, inl, inr, arith, ◌==◌,
  if◌then◌else◌, Bool-cases, Bytes, eq_bytes, eq_bytes_refl, eq_bytes_sound,
}
use mathlib.Core.Path.{subst}
use kangle.PerIpAcl.{CallBackData, PerIpAcl, count_down, call_back, clean}
use kangle.TextMap.{find, contains, contains-remove}
use kangle.PerIpAcl.Counted.{one, tally, has_hook, entry_of, Counted, find-count_down}

-- The map agrees with the hooks that are left and, for each client, some more.
abbrev Fits : (Bytes → ℕ) → List (Bytes × ℕ) → List CallBackData → Type 0
unfolding find tally
Fits more ip_map hooks = (j : Bytes) → find j ip_map ≡ entry_of (more j + tally j hooks)

one_self : (ip : Bytes) → one ip ip ≡ 1
unfolding one
one_self ip = rw (eq_bytes_refl ip) refl

one_other : (ip j : Bytes) → eq_bytes ip j ≡ false → one ip j ≡ 0
unfolding one
one_other ip j e = rw e refl

find-Fits :
    (more : Bytes → ℕ) (ip_map : List (Bytes × ℕ)) (hook : CallBackData) (hooks : List CallBackData)
    → Fits more ip_map (hook ∷ hooks)
    → find hook.ip ip_map ≡ some (suc (more hook.ip + tally hook.ip hooks))
unfolding Fits tally
find-Fits more ip_map hook hooks fits =
    let count : more hook.ip + tally hook.ip (hook ∷ hooks)
        ≡ suc (more hook.ip + tally hook.ip hooks) =
      omega (arith, one_self hook.ip) in
    fits hook.ip ∙ ap entry_of count

call_back-Fits :
    (more : Bytes → ℕ) (ip_map : List (Bytes × ℕ)) (hook : CallBackData) (hooks : List CallBackData)
    → Fits more ip_map (hook ∷ hooks)
    → Fits more (count_down hook.ip (find hook.ip ip_map) ip_map) hooks
unfolding Fits
call_back-Fits more ip_map hook hooks fits j =
    rw (find-Fits more ip_map hook hooks (unfold Fits in fits))
      (find-count_down hook.ip j (more hook.ip + tally hook.ip hooks) ip_map ∙ left)
  where
    without :
        (j : Bytes)
        → eq_bytes hook.ip j ≡ false
        → more j + tally j (hook ∷ hooks) ≡ more j + tally j hooks
    without j e = unfold tally in omega (arith, one_other hook.ip j e)

    left :
        (if eq_bytes hook.ip j
          then entry_of (more hook.ip + tally hook.ip hooks)
          else find j ip_map)
        ≡ entry_of (more j + tally j hooks)
    left = elim (Bool-cases (eq_bytes hook.ip j)) [
      | inl e ↦ rw (e, eq_bytes_sound hook.ip j e) refl
      | inr e ↦ rw e (fits j ∙ ap entry_of (without j e))
    ]

clean-Fits :
    (pool : ℕ) (more : Bytes → ℕ) (hooks : List CallBackData) (acl : PerIpAcl)
    → Fits more acl.ip_map hooks
    → Fits more (clean pool hooks acl).ip_map (clean pool hooks acl).hooks
unfolding clean
clean-Fits pool more [] acl fits = fits
clean-Fits pool more (hook ∷ hooks) acl fits = elim (Bool-cases (hook.connection_pool == pool)) [
  | inl e ↦ rw e (
      clean-Fits pool more hooks (call_back hook acl)
        (unfold call_back in call_back-Fits more acl.ip_map hook hooks fits))
  | inr e ↦ rw e (keep (clean-Fits pool with_hook hooks acl (shift fits)))
]
  where
    with_hook : Bytes → ℕ
    with_hook j = more j + one hook.ip j

    shift : Fits more acl.ip_map (hook ∷ hooks) → Fits with_hook acl.ip_map hooks
    shift h = unfold Fits tally in λ j. h j ∙ ap entry_of (omega arith)

    keep :
        Fits with_hook (clean pool hooks acl).ip_map (clean pool hooks acl).hooks
        → Fits more (clean pool hooks acl).ip_map (hook ∷ (clean pool hooks acl).hooks)
    keep h = unfold Fits tally in λ j. h j ∙ ap entry_of (omega arith)

clean-max_per_ip :
    (pool : ℕ) (hooks : List CallBackData) (acl : PerIpAcl)
    → (clean pool hooks acl).max_per_ip ≡ acl.max_per_ip
unfolding clean call_back
clean-max_per_ip pool [] acl = refl
clean-max_per_ip pool (hook ∷ hooks) acl = elim (Bool-cases (hook.connection_pool == pool)) [
  | inl e ↦ rw e (clean-max_per_ip pool hooks (call_back hook acl))
  | inr e ↦ rw e (clean-max_per_ip pool hooks acl)
]

-- The hooks that are left do not depend on what the others do.
left_hooks : ℕ → List CallBackData → List CallBackData
left_hooks pool [] = []
left_hooks pool (hook ∷ hooks) =
    if hook.connection_pool == pool then left_hooks pool hooks else hook ∷ left_hooks pool hooks

clean-hooks :
    (pool : ℕ) (hooks : List CallBackData) (acl : PerIpAcl)
    → (clean pool hooks acl).hooks ≡ left_hooks pool hooks
unfolding clean left_hooks
clean-hooks pool [] acl = refl
clean-hooks pool (hook ∷ hooks) acl = elim (Bool-cases (hook.connection_pool == pool)) [
  | inl e ↦ rw e (clean-hooks pool hooks (call_back hook acl))
  | inr e ↦ rw e (ap (λ (l : List CallBackData). hook ∷ l) (clean-hooks pool hooks acl))
]

tally-left_hooks :
    (pool : ℕ) (j : Bytes) (hooks : List CallBackData)
    → tally j (left_hooks pool hooks) ≤ tally j hooks
unfolding left_hooks tally
tally-left_hooks pool j [] = omega arith
tally-left_hooks pool j (hook ∷ hooks) = elim (Bool-cases (hook.connection_pool == pool)) [
  | inl e ↦ rw e (omega (arith, tally-left_hooks pool j hooks))
  | inr e ↦ rw e (omega (arith, tally-left_hooks pool j hooks))
]

has_hook-left_hooks :
    (pool q : ℕ) (hooks : List CallBackData)
    → has_hook q (left_hooks pool hooks) ≡ (if pool == q then false else has_hook q hooks)
unfolding left_hooks has_hook
has_hook-left_hooks pool q [] = ground arith
has_hook-left_hooks pool q (hook ∷ hooks) = ground (arith, has_hook-left_hooks pool q hooks)

-- The connections that count: those of other pools stay, and that of the pool goes with its hook.
clean-contains_other :
    (pool q : ℕ) (hooks : List CallBackData) (acl : PerIpAcl)
    → (pool == q) ≡ false
    → contains q (clean pool hooks acl).active_connections ≡ contains q acl.active_connections
unfolding clean call_back
clean-contains_other pool q [] acl ne = refl
clean-contains_other pool q (hook ∷ hooks) acl ne =
    elim (Bool-cases (hook.connection_pool == pool)) [
      | inl e ↦ rw e (
          clean-contains_other pool q hooks (call_back hook acl) ne
          ∙ contains-remove hook.connection_pool q acl.active_connections
          ∙ ground arith)
      | inr e ↦ rw e (clean-contains_other pool q hooks acl ne)
    ]

clean-contains_gone :
    (pool : ℕ) (hooks : List CallBackData) (acl : PerIpAcl)
    → contains pool acl.active_connections ≡ false
    → contains pool (clean pool hooks acl).active_connections ≡ false
unfolding clean call_back
clean-contains_gone pool [] acl gone = gone
clean-contains_gone pool (hook ∷ hooks) acl gone =
    elim (Bool-cases (hook.connection_pool == pool)) [
      | inl e ↦ rw e (
          clean-contains_gone pool hooks (call_back hook acl)
            (contains-remove hook.connection_pool pool acl.active_connections ∙ rw e refl))
      | inr e ↦ rw e (clean-contains_gone pool hooks acl gone)
    ]

clean-contains :
    (pool : ℕ) (hooks : List CallBackData) (acl : PerIpAcl)
    → contains pool acl.active_connections ≡ has_hook pool hooks
    → contains pool (clean pool hooks acl).active_connections ≡ false
unfolding clean call_back has_hook
clean-contains pool [] acl agrees = agrees
clean-contains pool (hook ∷ hooks) acl agrees = elim (Bool-cases (hook.connection_pool == pool)) [
  | inl e ↦ rw e (
      clean-contains_gone pool hooks (call_back hook acl)
        (contains-remove hook.connection_pool pool acl.active_connections ∙ rw e refl))
  | inr e ↦ rw e (clean-contains pool hooks acl (agrees ∙ rw e refl))
]

zero-add_tally : (j : Bytes) (hooks : List CallBackData) → 0 + tally j hooks ≡ tally j hooks
zero-add_tally j hooks = omega arith

pub clean-Counted :
    (max pool : ℕ) (acl : PerIpAcl) → Counted max acl → Counted max (clean pool acl.hooks acl)
clean-Counted max pool acl good = record {
  limit = clean-max_per_ip pool acl.hooks acl ∙ good.limit;
  counts =
      unfold Fits in
      λ j.
        clean-Fits pool (λ k. 0) acl.hooks acl alone j
        ∙ ap entry_of (zero-add_tally j (clean pool acl.hooks acl).hooks);
  bound = λ j.
      rw (clean-hooks pool acl.hooks acl)
        (omega (arith, tally-left_hooks pool j acl.hooks, good.bound j));
  active = λ q.
      agrees q
      ∙ sym
          (ap (has_hook q) (clean-hooks pool acl.hooks acl) ∙ has_hook-left_hooks pool q acl.hooks);
}
  where
    alone : Fits (λ k. 0) acl.ip_map acl.hooks
    alone = unfold Fits in λ j. good.counts j ∙ sym (ap entry_of (zero-add_tally j acl.hooks))

    agrees :
        (q : ℕ)
        → contains q (clean pool acl.hooks acl).active_connections
          ≡ (if pool == q then false else has_hook q acl.hooks)
    agrees q = elim (Bool-cases (pool == q)) [
      | inl e ↦ rw e (
          subst (λ (p : ℕ). contains p (clean pool acl.hooks acl).active_connections ≡ false)
            (ground (arith, e)) (clean-contains pool acl.hooks acl (good.active pool)))
      | inr e ↦ rw e (clean-contains_other pool q acl.hooks acl e ∙ good.active q)
    ]
