-- ===== src/AjpMessage/RoundTrip.antt =====
-- include/KAjpMessage.h, src/KAjpMessage.cpp: KAjpMessageParser reads what KAjpMessage wrote.
use kangle.Prelude.{
  ℕ, zero, suc, ◌+◌, ◌-◌, ◌*◌, ◌/◌, ◌%◌, ◌≤◌, ◌<◌, true, false, some, [], ◌∷◌, ◌++◌, ◌≡◌, refl, ap,
  sym, ◌∙◌, arith, ltb, leb, ◌==◌, length, length-append, get_or, drop, Bytes, Bool-cases, inl, inr,
}
use mathlib.Core.List.{append_assoc}
use kangle.AjpMessage.{
  Message, Parser, write_bytes, put, put_string, short_bytes, get_short, get_string, string_of,
  check_send,
}
use kangle.AjpMessage.Store.{drop-write_bytes, get_or-drop, take-append, get_or-append}

-- A parser that stands where `before` was written on, over the buffer of `after`.
abbrev pub reader : Message → Message → Parser
reader before after = record { text = after.buf; at = before.pos; size = after.pos }

get_short-bytes :
    (p : Parser) (n : ℕ) (rest : Bytes)
    → n < 65536
    → p.at + 2 ≤ p.size
    → drop p.at p.text ≡ short_bytes n ++ rest
    → get_short p ≡ (record p { at = p.at + 2 }, some n)
unfolding get_short
get_short-bytes p n rest small fits e =
    let room : ltb (p.size - p.at) 2 ≡ false = ground arith in
    let high : get_or p.text p.at 0 ≡ n / 256 % 256 =
      ap (λ (k : ℕ). get_or p.text k 0) (omega arith)
      ∙ sym (get_or-drop p.text p.at 0)
      ∙ ap (λ (s : Bytes). get_or s 0 0) e in
    let low : get_or p.text (suc p.at) 0 ≡ n % 256 =
      ap (λ (k : ℕ). get_or p.text k 0) (omega arith)
      ∙ sym (get_or-drop p.text p.at 1)
      ∙ ap (λ (s : Bytes). get_or s 1 0) e in
    let value : n / 256 % 256 * 256 + n % 256 ≡ n = omega arith in rw (room, high, low, value) refl

drop-nil : (k : ℕ) → drop {A = ℕ} k [] ≡ []
drop-nil zero = refl
drop-nil (suc k) = refl

drop-drop : (xs : Bytes) (p k : ℕ) → drop k (drop p xs) ≡ drop (p + k) xs
drop-drop xs zero k = ap (λ (j : ℕ). drop j xs) (omega arith)
drop-drop [] (suc p) k = drop-nil k ∙ sym (drop-nil (suc p + k))
drop-drop (x ∷ xs) (suc p) k =
    drop-drop xs p k
    ∙ ap (λ j. drop j (x ∷ xs)) (let e : suc (p + k) ≡ suc p + k = omega arith in e)

string_of-bytes :
    (p : Parser) (str rest : Bytes)
    → length str < 65535
    → p.at + (length str + 1) ≤ p.size
    → drop p.at p.text ≡ str ++ 0 ∷ rest
    → string_of p (some (length str)) ≡ (record p { at = p.at + (length str + 1) }, some str)
string_of-bytes p str rest small fits e =
    let short : (length str == 65535) ≡ false = ground arith in
    let room : ltb (p.size - p.at) (length str + 1) ≡ false = ground arith in
    let nul : get_or p.text (p.at + length str) 0 ≡ 0 =
      sym (get_or-drop p.text p.at (length str))
      ∙ ap (λ (s : Bytes). get_or s (length str) 0) e
      ∙ ap (λ (k : ℕ). get_or (str ++ 0 ∷ rest) k 0) (omega arith)
      ∙ get_or-append str (0 ∷ rest) 0 in
    rw (short, room, nul, e, take-append str (0 ∷ rest)) refl

pub check_send-fits : (m : Message) (n : ℕ) → check_send m n ≡ true → m.pos + n ≤ 8192
check_send-fits m n h = ground arith

abbrev pub string_bytes : Bytes → Bytes
string_bytes str = short_bytes (length str) ++ str ++ 0 ∷ []

pub length-string_bytes : (str : Bytes) → length (string_bytes str) ≡ length str + 3
length-string_bytes str = let e = length-append str (0 ∷ []) in omega (arith, e)

put_string-buf :
    (m : Message) (str : Bytes)
    → length m.buf ≡ 8192
    → (put_string m (some str)).1 ≡ true
    → (length str < 65535)
      × (m.pos + length (string_bytes str) ≤ 8192)
      × ((put_string m (some str)).0.buf ≡ write_bytes m.buf m.pos (string_bytes str))
      × ((put_string m (some str)).0.pos ≡ m.pos + length (string_bytes str))
unfolding put_string put
put_string-buf m str size ok = elim (Bool-cases (leb 65535 (length str))) [
  | inl long ↦ absurd (ground arith)
  | inr short ↦ elim (Bool-cases (check_send m (length str + 3))) [
    | inr full ↦ absurd (ground arith)
    | inl room ↦
        let e = length-string_bytes str in
        (
          ground arith,
          omega (arith, check_send-fits m (length str + 3) room, e),
          rw (short, room) refl,
          rw (short, room) refl,
        )
  ]
]

read-string :
    (p : Parser) (str rest : Bytes)
    → length str < 65535
    → p.at + (length str + 3) ≤ p.size
    → drop p.at p.text ≡ string_bytes str ++ rest
    → get_string p ≡ (record p { at = p.at + 2 + (length str + 1) }, some str)
unfolding get_string
read-string p str rest small fits e =
    let next : Parser = record p { at = p.at + 2 } in
    let at_str : drop (p.at + 2) p.text ≡ str ++ 0 ∷ rest =
      sym (drop-drop p.text p.at 2)
      ∙ ap (λ (s : Bytes). drop 2 s) e
      ∙ append_assoc str (0 ∷ []) rest in
    rw (get_short-bytes p (length str) ((str ++ 0 ∷ []) ++ rest) (omega arith) (omega arith) e)
      (string_of-bytes next str rest small (omega arith) at_str)

-- A string that putString accepted is what getString reads at the place where it was written,
-- and getString ends at the position where putString ended. The buffer has its 8192 bytes.
pub get_string-put_string :
    (m : Message) (str : Bytes)
    → length m.buf ≡ 8192
    → (put_string m (some str)).1 ≡ true
    → get_string (reader m (put_string m (some str)).0) ≡ (
      record (reader m (put_string m (some str)).0) { at = (put_string m (some str)).0.pos },
      some str,
    )
get_string-put_string m str size ok =
    let (small, fits, buf, pos) = put_string-buf m str size ok in
    let len = length-string_bytes str in
    let e =
      ap (λ (s : Bytes). drop m.pos s) buf
      ∙ drop-write_bytes m.buf m.pos (string_bytes str) (rw size fits) in
    let p = reader m (put_string m (some str)).0 in
    read-string p str (drop (m.pos + length (string_bytes str)) m.buf) small (omega arith) e
    ∙ ap (λ (k : ℕ). (record p { at = k }, some str)) (omega arith)
