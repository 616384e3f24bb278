-- ===== src/DigestAuth/Synced.antt =====
-- src/KHttpDigestAuth.cpp: the map and the list hold the same keys, once each, after every operation,
-- and the table does not outgrow its limit.
use kangle.Prelude.{
  eq_bytes_sound, ℕ, ◌+◌, ◌≤◌, ◌<◌, Bool, ◌&&◌, Option, none, some, List, [], ◌∷◌, ◌++◌, ◌≡◌, refl,
  ap, sym, ◌∙◌, arith, length, length-append, Bytes, eq_bytes, Bool-cases, Option-cases, inl, inr,
  ltb, leb, if_cases, ◌==◌,
}
use kangle.DigestAuth.{
  Session, Table, find, erase, remove, touch, flush_keys, flush_session, evict, init, use_session,
  verify_session, Url, max_session_lifetime, max_digest_session, url_accepts,
}
use kangle.DigestAuth.Keys.{
  count, keys, count-remove, length-remove, count-append, keys-erase, keys-touch, length-keys,
  find-none, find-some, count_self,
}

abbrev Agree : List Bytes → List (Bytes × Session) → Type 0
Agree ks ss =
    ((k : Bytes) → count k (keys ss) ≡ count k ks)
    × ((k : Bytes) → count k ks ≤ 1)
    × (length ss ≡ length ks)

-- Each key of the map is in `lru` once, and no other key is.
abbrev pub IsSynced : Table → Type 0
IsSynced t = Agree t.lru t.sessions

-- remove_session at the front of `lru`.
Agree-erase :
    (k : Bytes) (ks : List Bytes) (ss : List (Bytes × Session))
    → Agree (k ∷ ks) ss
    → Agree ks (erase k ss)
Agree-erase k ks ss (same, once, len) =
    let there : 0 < count k (keys ss) = rw (same k, count_self k ks) (omega arith) in
    (
      λ j.
          let a = count-remove k j (keys ss) there in
          let b = ap (λ (r : List Bytes). count j r) (keys-erase k ss) in
          let c = same j in ground arith,
      λ j. let o = once j in ground arith,
      let d = length-remove k (keys ss) there in
          let e = ap (λ (r : List Bytes). length r) (keys-erase k ss) in
          let f = length-keys ss in let g = length-keys (erase k ss) in omega arith,
    )

front-find :
    (k : Bytes) (ks : List Bytes) (ss : List (Bytes × Session))
    → Agree (k ∷ ks) ss
    → (s : Session) × (find k ss ≡ some s)
front-find k ks ss (same, once, len) = elim (Option-cases (find k ss)) [
  | inr found ↦ found
  | inl missing ↦
      let absent = find-none k ss missing in
      let here = same k in let one = count_self k ks in absurd (omega arith)
]

flush_keys-IsSynced :
    (now : ℕ) (ks : List Bytes) (ss : List (Bytes × Session))
    → Agree ks ss
    → IsSynced (flush_keys now ks ss)
unfolding flush_keys
flush_keys-IsSynced now [] ss h = h
flush_keys-IsSynced now (k ∷ ks) ss h =
    let (s, found) = front-find k ks ss h in
    rw found (
      if_cases IsSynced (leb now (s.last_active + max_session_lifetime))
        (record { sessions = ss; lru = k ∷ ks }) (flush_keys now ks (erase k ss)) h
        (flush_keys-IsSynced now ks (erase k ss) (Agree-erase k ks ss h)))

evict-IsSynced :
    (limit : ℕ) (ks : List Bytes) (ss : List (Bytes × Session))
    → Agree ks ss
    → IsSynced (evict limit ks ss) × (length (evict limit ks ss).sessions ≤ limit)
unfolding evict
evict-IsSynced limit [] ss h = (h, let e = h.2 in omega arith)
evict-IsSynced limit (k ∷ ks) ss h =
    let (s, found) = front-find k ks ss h in
    elim (Bool-cases (ltb limit (length ss))) [
      | inl many ↦ rw (many, found) (evict-IsSynced limit ks (erase k ss) (Agree-erase k ks ss h))
      | inr few ↦ rw few (h, ground arith)
    ]

-- The empty table to which a new key comes, and a key that moves to the end.
Agree-insert :
    (k : Bytes) (s : Session) (ks : List Bytes) (ss : List (Bytes × Session))
    → find k ss ≡ none
    → Agree ks ss
    → Agree (ks ++ k ∷ []) ((k, s) ∷ ss)
Agree-insert k s ks ss new (same, once, len) = (
  λ j. let a = same j in let b = count-append j ks (k ∷ []) in ground arith,
  λ j.
      let b = count-append j ks (k ∷ []) in
      let c = once j in
      let absent = find-none k ss new ∙ refl in
      let d = same k in
      elim (Bool-cases (eq_bytes k j)) [
        | inl here ↦
            let e = ap (λ (i : Bytes). count i ks) (eq_bytes_sound k j here) in ground arith
        | inr there ↦ ground arith
      ],
  let e = length-append ks (k ∷ []) in omega arith,
)

Agree-touch :
    (k : Bytes) (now : ℕ) (ks : List Bytes) (ss : List (Bytes × Session)) (s : Session)
    → find k ss ≡ some s
    → Agree ks ss
    → Agree (remove k ks ++ k ∷ []) (touch k now ss)
Agree-touch k now ks ss s found (same, once, len) =
    let present : 0 < count k ks = rw (sym (same k)) (find-some k ss s found) in
    let moved : (j : Bytes) → count j (remove k ks ++ k ∷ []) ≡ count j ks = λ j.
      let a = count-append j (remove k ks) (k ∷ []) in
      let b = count-remove k j ks present in ground arith in
    (
      λ j. ap (λ (r : List Bytes). count j r) (keys-touch k now ss) ∙ same j ∙ sym (moved j),
      λ j. rw (moved j) (once j),
      let d = length-remove k ks present in
          let e = length-append (remove k ks) (k ∷ []) in
          let f = length-keys ss in
          let g = length-keys (touch k now ss) in
          let h = ap (λ (r : List Bytes). length r) (keys-touch k now ss) in omega arith,
    )

-- What a table promises: the keys of the map and of `lru` are the same ones, once each, and there
-- are at most MAX_DIGEST_SESSION of them.
abbrev pub IsValid : Table → Type 0
IsValid t = IsSynced t × (length t.sessions ≤ max_digest_session)

length-flush_keys :
    (now : ℕ) (ks : List Bytes) (ss : List (Bytes × Session))
    → Agree ks ss
    → length (flush_keys now ks ss).sessions ≤ length ss
unfolding flush_keys
length-flush_keys now [] ss h = omega arith
length-flush_keys now (k ∷ ks) ss h =
    let (s, found) = front-find k ks ss h in
    let rest = Agree-erase k ks ss h in
    let less = length-flush_keys now ks (erase k ss) rest in
    let a = h.2 in
    let b = rest.2 in
    rw found (
      if_cases (λ (t : Table). length t.sessions ≤ length ss)
        (leb now (s.last_active + max_session_lifetime)) (record { sessions = ss; lru = k ∷ ks })
        (flush_keys now ks (erase k ss)) (omega arith) (omega arith))

init-IsValid :
    (t : Table) (realm nonce : Bytes) (peer now : ℕ)
    → IsValid t
    → IsValid (init t realm nonce peer now)
unfolding init
init-IsValid t realm nonce peer now (synced, small) =
    let s : Session = record { realm = realm; last_active = now; addr = peer } in
    elim (Option-cases (find nonce t.sessions)) [
      | inr (old, found) ↦ rw found (synced, small)
      | inl new ↦ rw new (
          evict-IsSynced max_digest_session (t.lru ++ nonce ∷ []) ((nonce, s) ∷ t.sessions)
            (Agree-insert nonce s t.lru t.sessions new synced))
    ]

use_session-IsValid :
    (t : Table) (realm nonce : Bytes) (peer now : ℕ) (o : Option Session)
    → find nonce t.sessions ≡ o
    → IsValid t
    → IsValid (use_session t realm nonce peer now o).0
unfolding touch remove
use_session-IsValid t realm nonce peer now none e h = h
use_session-IsValid t realm nonce peer now (some s) e (synced, small) =
    let moved = Agree-touch nonce now t.lru t.sessions s e synced in
    let f = length-keys t.sessions in
    let g = length-keys (touch nonce now t.sessions) in
    let k = ap (λ (r : List Bytes). length r) (keys-touch nonce now t.sessions) in
    if_cases (λ (r : Table × Bool). IsValid r.0) (eq_bytes realm s.realm && peer == s.addr) _ _
      (moved, omega arith) (synced, small)

-- Every operation on the table of nonces keeps it valid: init for a new challenge, verifySession
-- for any request, and flushSession at any time.
pub session_table-IsValid :
    (t : Table) (url : Option Url) (host path param : Option Bytes) (realm nonce : Bytes)
    (peer now : ℕ)
    → IsValid t
    → IsValid (init t realm nonce peer now)
      × IsValid (verify_session url host path param realm nonce peer now t).0
      × IsValid (flush_session now t)
unfolding verify_session flush_session
session_table-IsValid t url host path param realm nonce peer now h = (
  init-IsValid t realm nonce peer now h,
  if_cases (λ (r : Table × Bool). IsValid r.0) (url_accepts url host path param) _ _
      (use_session-IsValid t realm nonce peer now (find nonce t.sessions) refl h) h,
  (
    flush_keys-IsSynced now t.lru t.sessions h.0,
    let a = length-flush_keys now t.lru t.sessions h.0 in let b = h.1 in omega arith,
  ),
)
