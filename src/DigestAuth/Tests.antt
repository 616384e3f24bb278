-- ===== src/DigestAuth/Tests.antt =====
-- Runs of the digest authentication, and the theorems about it at concrete inputs.
use kangle.Prelude.{
  eq_bytes, same, true, false, Option, none, some, List, [], ◌∷◌, ◌≡◌, refl, arith, Bytes, codes,
}
use kangle.DigestAuth.{
  Table, Url, init, verify_session, flush_session, find, erase, remove, touch, flush_keys, evict,
}
use kangle.DigestAuth.Synced.{IsValid, session_table-IsValid}
use kangle.DigestAuth.Header.{parse, scan_user}
use kangle.DigestAuth.Header.Accepted.{IsParsed, parse-IsParsed}

abbrev empty : Table
empty = record { sessions = []; lru = [] }

empty-IsValid : IsValid empty
empty-IsValid = ((λ k. refl, λ k. omega arith, refl), omega arith)

abbrev slash : Url
slash = record { host = none; path = some (codes "/"); param = none }

-- Two challenges; the first nonce is used, so the second one expires first in the list.
abbrev two : Table
unfolding init find evict
two = init (init empty (codes "r") (codes "n1") 7 100) (codes "r") (codes "n2") 7 110

used_run :
    (verify_session
      (some slash)
      (some (codes "h"))
      (some (codes "/"))
      none
      (codes "r")
      (codes "n1")
      7
      120
      two).0.lru
    ≡ codes "n2" ∷ codes "n1" ∷ []
unfolding verify_session init find evict touch remove eq_bytes
used_run = refl

flush_run : (flush_session 405 two).lru ≡ codes "n2" ∷ []
unfolding flush_session flush_keys init find evict erase eq_bytes
flush_run = refl

session_table-IsValid_example :
    IsValid (init empty (codes "r") (codes "n1") 7 100)
    × IsValid
        (verify_session
          (some slash)
          (some (codes "h"))
          (some (codes "/"))
          none
          (codes "r")
          (codes "n1")
          7
          100
          empty).0
    × IsValid (flush_session 100 empty)
session_table-IsValid_example =
    session_table-IsValid empty (some slash) (some (codes "h")) (some (codes "/")) none (codes "r")
      (codes "n1") 7 100 empty-IsValid

abbrev header : List (Bytes × Option Bytes)
header =
    (codes "username", some (codes "test"))
    ∷ (codes "realm", some (codes "r"))
    ∷ (codes "nonce", some (codes "4c3f0cc8"))
    ∷ (codes "uri", some (codes "/"))
    ∷ (codes "qop", some (codes "auth"))
    ∷ (codes "nc", some (codes "00000001"))
    ∷ (codes "cnonce", some (codes "0a4f113b"))
    ∷ (codes "response", some (codes "6629fae49393a05397450978507c4ef1"))
    ∷ []

accepted_run : (parse header).1 ≡ true
unfolding parse scan_user same eq_bytes
accepted_run = refl

twice_run : (parse ((codes "username", some (codes "test")) ∷ header)).1 ≡ false
unfolding parse scan_user same eq_bytes
twice_run = refl

parse-IsParsed_example : IsParsed header (parse header)
parse-IsParsed_example = parse-IsParsed header
