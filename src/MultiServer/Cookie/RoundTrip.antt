-- ===== src/MultiServer/Cookie/RoundTrip.antt =====
-- src/KMultiAcserver.cpp: the cookie that connect_result sets is understood by getCookieStick.
use kangle.Prelude.{
  sym, ℕ, suc, false, none, some, List, [], ◌∷◌, ◌++◌, ◌≡◌, refl, ap, ◌∙◌, if◌then◌else◌, Bytes,
  cut, cut-Lacks, codes, eq_bytes_refl, is_space, eq_bytes_sound, eq_bytes, Bool-cases, inl, inr,
  ◌≢◌, Option, cons_front,
}
use mathlib.Core.List.{append_assoc}
use kangle.Prelude.Number.{drop_spaces, atoi, show, atoi-show_self, show-Lacks}
use kangle.MultiServer.Cookie.{
  parts, stick_index, pick, part_value, find_part, get_cookie_stick, set_cookie,
}
use kangle.Prelude.{Lacks, Lacks-append}

-- A cookie's name: neither of the bytes that the parser cuts at, and no space in front.
abbrev pub IsName : Bytes → Type 0
IsName [] = Unit {0}
IsName (c ∷ cs) = (is_space c ≡ false) × Lacks b';' (c ∷ cs) × Lacks b'=' (c ∷ cs)

-- What may stand behind a cookie: nothing, or a semicolon.
abbrev pub IsTail : Bytes → Type 0
IsTail [] = Unit {0}
IsTail (c ∷ cs) = c ≡ b';'

parts-Lacks :
    (p tail : Bytes)
    → Lacks b';' p
    → IsTail tail
    → (rest : List Bytes) × (parts (p ++ tail) ≡ p ∷ rest)
unfolding parts
parts-Lacks [] [] h t = ([], refl)
parts-Lacks [] (c ∷ cs) h t = (parts cs, rw t)
parts-Lacks (c ∷ p) tail h t = let (rest, e) = parts-Lacks p tail h.1 t in (rest, rw (h.0, e))

drop_spaces-IsName :
    (name v : Bytes) → IsName name → drop_spaces (name ++ b'=' ∷ v) ≡ name ++ b'=' ∷ v
unfolding drop_spaces
drop_spaces-IsName [] v h = refl
drop_spaces-IsName (c ∷ cs) v h = rw (h.0)

IsName-Lacks : (name : Bytes) → IsName name → Lacks b';' name × Lacks b'=' name
IsName-Lacks [] h = (tt, tt)
IsName-Lacks (c ∷ cs) h = (h.1, h.2)

part_value-show :
    (name : Bytes) (n : ℕ) → part_value name (name, some (show (suc n))) ≡ some (some n)
unfolding part_value
part_value-show name n =
    ap (λ b. if b then some (stick_index (atoi (show (suc n)))) else none) (eq_bytes_refl name)
    ∙ ap (λ v. some (stick_index v)) (atoi-show_self (suc n))

find_part-first :
    (name : Bytes) (n : ℕ) (rest : List Bytes)
    → IsName name
    → find_part name ((name ++ b'=' ∷ show (suc n)) ∷ rest) ≡ some n
unfolding find_part
find_part-first name n rest h =
    ap (λ s. pick (part_value name (cut b'=' s)) (find_part name rest))
      (drop_spaces-IsName name (show (suc n)) h)
    ∙ ap (λ s. pick (part_value name s) (find_part name rest))
        (cut-Lacks b'=' name (show (suc n)) (IsName-Lacks name h).1)
    ∙ ap (λ r. pick r (find_part name rest)) (part_value-show name n)

-- Whatever cookies follow it, the cookie that was set for the node at position `n` brings a later
-- request back to position `n`. The cookie's name holds no `;` and no `=`, and begins with no space.
pub get_cookie_stick-set :
    (name : Bytes) (n : ℕ) (tail : Bytes)
    → IsName name
    → IsTail tail
    → get_cookie_stick (name ++ b'=' ∷ (show (suc n) ++ tail)) name ≡ some n
unfolding get_cookie_stick
get_cookie_stick-set name n tail h t =
    let cookie = name ++ b'=' ∷ show (suc n) in
    let lacks =
      Lacks-append b';' name (b'=' ∷ show (suc n)) (IsName-Lacks name h).0
        (refl, show-Lacks b';' (suc n) refl) in
    let (rest, e) = parts-Lacks cookie tail lacks t in
    ap (λ (s : Bytes). find_part name (parts s))
      (sym (append_assoc name (b'=' ∷ show (suc n)) tail))
    ∙ ap (find_part name) e
    ∙ find_part-first name n rest h

-- The text "name=stick" of one cookie.
abbrev pub pair : Bytes → ℕ → Bytes
pair name stick = name ++ b'=' ∷ show stick

-- A Cookie header that has the text behind other cookies, as a client sends it.
abbrev pub behind : List (Bytes × Bytes) → Bytes → Bytes
behind [] text = text
behind ((attr, value) ∷ others) text = (attr ++ b'=' ∷ value) ++ b';' ∷ (b' ' ∷ behind others text)

-- Cookies with other names.
abbrev pub AllOther : Bytes → List (Bytes × Bytes) → Type 0
AllOther name [] = Unit {0}
AllOther name ((attr, value) ∷ others) =
    IsName attr × (attr ≢ name) × Lacks b';' value × AllOther name others

parts-cut : (p t : Bytes) → Lacks b';' p → parts (p ++ b';' ∷ t) ≡ p ∷ parts t
unfolding parts
parts-cut [] t h = refl
parts-cut (c ∷ p) t h = rw (h.0, parts-cut p t h.1)

-- The space behind a semicolon.
find_part-space :
    (name : Bytes) (ps : List Bytes) → find_part name (cons_front b' ' ps) ≡ find_part name ps
unfolding find_part part_value drop_spaces cut
find_part-space name [] = refl
find_part-space name (p ∷ ps) = refl

eq_bytes-ne : (a b : Bytes) → a ≢ b → eq_bytes a b ≡ false
eq_bytes-ne a b ne = elim (Bool-cases (eq_bytes a b)) [
  | inl same ↦ absurd (ne (eq_bytes_sound a b same))
  | inr differ ↦ differ
]

part_value-other :
    (name attr value : Bytes) → attr ≢ name → part_value name (attr, some value) ≡ none
unfolding part_value
part_value-other name attr value ne = rw (eq_bytes-ne attr name ne)

find_part-other :
    (name attr value : Bytes) (ps : List Bytes)
    → IsName attr
    → attr ≢ name
    → find_part name ((attr ++ b'=' ∷ value) ∷ ps) ≡ find_part name ps
unfolding find_part
find_part-other name attr value ps h ne =
    ap (λ s. pick (part_value name (cut b'=' s)) (find_part name ps))
      (drop_spaces-IsName attr value h)
    ∙ ap (λ s. pick (part_value name s) (find_part name ps))
        (cut-Lacks b'=' attr value (IsName-Lacks attr h).1)
    ∙ ap (λ r. pick r (find_part name ps)) (part_value-other name attr value ne)

parts-space : (t : Bytes) → parts (b' ' ∷ t) ≡ cons_front b' ' (parts t)
unfolding parts
parts-space t = refl

-- A cookie with another name is passed over.
get_cookie_stick-other :
    (name attr value text : Bytes)
    → IsName attr
    → attr ≢ name
    → Lacks b';' value
    → get_cookie_stick ((attr ++ b'=' ∷ value) ++ b';' ∷ (b' ' ∷ text)) name
      ≡ get_cookie_stick text name
unfolding get_cookie_stick
get_cookie_stick-other name attr value text h ne v =
    let lacks = Lacks-append b';' attr (b'=' ∷ value) (IsName-Lacks attr h).0 (refl, v) in
    ap (find_part name) (parts-cut (attr ++ b'=' ∷ value) (b' ' ∷ text) lacks)
    ∙ find_part-other name attr value (parts (b' ' ∷ text)) h ne
    ∙ ap (find_part name) (parts-space text)
    ∙ find_part-space name (parts text)

-- The cookie is found behind any cookies with other names.
pub get_cookie_stick-behind :
    (name : Bytes) (n : ℕ) (others : List (Bytes × Bytes)) (tail : Bytes)
    → IsName name
    → AllOther name others
    → IsTail tail
    → get_cookie_stick (behind others (pair name (suc n) ++ tail)) name ≡ some n
get_cookie_stick-behind name n [] tail h all t =
    ap (λ (s : Bytes). get_cookie_stick s name) (append_assoc name (b'=' ∷ show (suc n)) tail)
    ∙ get_cookie_stick-set name n tail h t
get_cookie_stick-behind name n ((attr, value) ∷ others) tail h (is, ne, lacks, all) t =
    get_cookie_stick-other name attr value (behind others (pair name (suc n) ++ tail)) is ne lacks
    ∙ get_cookie_stick-behind name n others tail h all t

-- What a client keeps of a Set-Cookie header: the text in front of the first semicolon.
abbrev pub kept_cookie : Bytes → Bytes
kept_cookie header = (cut b';' header).0

kept_cookie-set_cookie :
    (name : Bytes) (stick : ℕ) → IsName name → kept_cookie (set_cookie name stick) ≡ pair name stick
unfolding set_cookie
kept_cookie-set_cookie name stick h =
    let lacks =
      Lacks-append b';' name (b'=' ∷ show stick) (IsName-Lacks name h).0
        (refl, show-Lacks b';' stick refl) in
    ap kept_cookie (sym (append_assoc name (b'=' ∷ show stick) (codes "; path=/")))
    ∙ ap (λ (p : Bytes × Option Bytes). p.0)
        (cut-Lacks b';' (pair name stick) (codes " path=/") lacks)

-- The cookie of a Set-Cookie header, sent back behind any cookies with other names.
pub get_cookie_stick-kept :
    (name : Bytes) (n : ℕ) (others : List (Bytes × Bytes)) (tail : Bytes)
    → IsName name
    → AllOther name others
    → IsTail tail
    → get_cookie_stick (behind others (kept_cookie (set_cookie name (suc n)) ++ tail)) name ≡ some n
get_cookie_stick-kept name n others tail h all t =
    ap (λ (s : Bytes). get_cookie_stick (behind others (s ++ tail)) name)
      (kept_cookie-set_cookie name (suc n) h)
    ∙ get_cookie_stick-behind name n others tail h all t
