-- ===== src/DigestAuth.antt =====
-- include/KHttpDigestAuth.h, src/KHttpDigestAuth.cpp: the digest header of a request, and the
-- table of nonces with its order of use. The table is the std::map of the sessions with their keys;
-- `lru` is the list of the keys, least recently used first. A session's iterator into `lru` stands at
-- its own key. A peer's address is a number, two being equal if ksocket_addr_compare says 0.
pub mod Keys
pub mod Synced
pub mod Header
mod Tests
use kangle.Prelude.{
  ℕ, zero, suc, ◌+◌, ◌≤◌, ◌<◌, Bool, true, false, not, ◌&&◌, ◌||◌, Option, none, some, List, [],
  ◌∷◌, ◌++◌, map, ltb, leb, ◌==◌, if◌then◌else◌, length, Bytes, codes, eq_bytes, same, is_digit,
  is_some, to_lower,
}

pub record Session : Type 0 where
  pub realm : Bytes
  pub last_active : ℕ
  pub addr : ℕ

pub record Table : Type 0 where
  pub sessions : List (Bytes × Session)
  pub lru : List Bytes

-- MAX_DIGEST_SESSION and MAX_SESSION_LIFETIME
abbrev pub max_digest_session : ℕ
max_digest_session = 65536

abbrev pub max_session_lifetime : ℕ
max_session_lifetime = 300

-- sessions.find
unfoldable pub find : Bytes → List (Bytes × Session) → Option Session
find k [] = none
find k ((j, s) ∷ ss) = let rest = find k ss in if eq_bytes j k then some s else rest

-- sessions.erase
unfoldable pub erase : Bytes → List (Bytes × Session) → List (Bytes × Session)
erase k [] = []
erase k ((j, s) ∷ ss) = let rest = erase k ss in if eq_bytes j k then ss else (j, s) ∷ rest

-- lru.erase, at the place of a key.
unfoldable pub remove : Bytes → List Bytes → List Bytes
remove k [] = []
remove k (j ∷ js) = let rest = remove k js in if eq_bytes j k then js else j ∷ rest

-- A write through a pointer to the session of a key.
unfoldable pub touch : Bytes → ℕ → List (Bytes × Session) → List (Bytes × Session)
touch k now [] = []
touch k now ((j, s) ∷ ss) =
    let rest = touch k now ss in
    if eq_bytes j k then (j, record s { last_active = now }) ∷ ss else (j, s) ∷ rest

-- The parsed url of the header, and what the request has.
pub record Url : Type 0 where
  pub host : Option Bytes
  pub path : Option Bytes
  pub param : Option Bytes

-- The first tests of verifySession, on the parsed `uri`.
abbrev pub same_param : Option Bytes → Option Bytes → Bool
same_param none none = true
same_param (some a) (some b) = eq_bytes a b
same_param _ _ = false

abbrev pub same_host : Option Bytes → Bytes → Bool
same_host none host = true
same_host (some a) host = same a host

abbrev pub same_path : Option Bytes → Bytes → Bool
same_path none path = false
same_path (some a) path = eq_bytes a path

abbrev pub url_matches : Url → Bytes → Bytes → Option Bytes → Bool
url_matches url host path param =
    same_host url.host host && same_path url.path path && same_param url.param param

abbrev pub url_accepts : Option Url → Option Bytes → Option Bytes → Option Bytes → Bool
url_accepts (some url) (some host) (some path) param = url_matches url host path param
url_accepts _ _ _ _ = false

-- KHttpDigestSession::verify_rq, and the splice that makes the session the last one of `lru`.
abbrev pub use_session : Table → Bytes → Bytes → ℕ → ℕ → Option Session → Table × Bool
unfolding touch remove
use_session t realm nonce peer now none = (t, false)
use_session t realm nonce peer now (some s) =
    if eq_bytes realm s.realm && peer == s.addr
    then (
      record { sessions = touch nonce now t.sessions; lru = remove nonce t.lru ++ nonce ∷ [] },
      true,
    )
    else (t, false)

-- verifySession. `url` is the uri of the header as parse_url reads it, `none` if there is none or
-- it is refused; the request has a host, a path and a param, or null pointers.
unfoldable pub verify_session :
    Option Url
    → Option Bytes
    → Option Bytes
    → Option Bytes
    → Bytes
    → Bytes
    → ℕ
    → ℕ
    → Table
    → Table × Bool
unfolding find touch remove
verify_session url host path param realm nonce peer now t =
    if url_accepts url host path param
    then use_session t realm nonce peer now (find nonce t.sessions)
    else (t, false)

-- The loop of flushSession over `lru`.
abbrev pub flush_front :
    ℕ → Bytes → List Bytes → List (Bytes × Session) → Table → Table → Option Session → Table
flush_front now k ks ss without_key without_session none = without_key
flush_front now k ks ss without_key without_session (some s) =
    if leb now (s.last_active + max_session_lifetime)
    then record { sessions = ss; lru = k ∷ ks }
    else without_session

pub flush_keys : ℕ → List Bytes → List (Bytes × Session) → Table
unfolding find erase
flush_keys now [] ss = record { sessions = ss; lru = [] }
flush_keys now (k ∷ ks) ss =
    flush_front now k ks ss (flush_keys now ks ss) (flush_keys now ks (erase k ss)) (find k ss)

-- flushSession
unfoldable pub flush_session : ℕ → Table → Table
unfolding flush_keys find erase
flush_session now t = flush_keys now t.lru t.sessions

-- The loop of init that removes from the front of `lru` while there are too many sessions.
pub evict : ℕ → List Bytes → List (Bytes × Session) → Table
unfolding find erase
evict limit [] ss = record { sessions = ss; lru = [] }
evict limit (k ∷ ks) ss =
    let skipped = evict limit ks ss in
    let removed = evict limit ks (erase k ss) in
    if ltb limit (length ss)
    then (if is_some (find k ss) then removed else skipped)
    else record { sessions = ss; lru = k ∷ ks }

-- init; `nonce` is the text of the time and of rand.
abbrev pub insert_session : Table → Bytes → Session → Option Session → Table
unfolding evict
insert_session t nonce s (some old) = t
insert_session t nonce s none =
    evict max_digest_session (t.lru ++ nonce ∷ []) ((nonce, s) ∷ t.sessions)

unfoldable pub init : Table → Bytes → Bytes → ℕ → ℕ → Table
unfolding find evict
init t realm nonce peer now =
    insert_session t nonce (record { realm = realm; last_active = now; addr = peer })
      (find nonce t.sessions)
