-- ===== src/CommandLine/Quoted.antt =====
-- src/utils.cpp: the loop of explode_cmd over an item in quotes reads back a text.
use kangle.Prelude.{
  ℕ, Bool, true, false, ◌||◌, some, [], ◌∷◌, ◌++◌, ◌≡◌, refl, arith, ◌==◌, if◌then◌else◌, Bytes,
  Bool-cases, inl, inr,
}
use mathlib.Core.List.{append_assoc}
use kangle.CommandLine.{read_quoted}

-- How a text is quoted: a backslash in front of each quote and each backslash.
abbrev pub is_special : ℕ → Bool
is_special c = c == b'"' || c == b'\\'

pub escape : Bytes → Bytes
escape [] = []
escape (c ∷ cs) = let rest = escape cs in if is_special c then b'\\' ∷ c ∷ rest else c ∷ rest

abbrev pub quoted : Bytes → Bytes
quoted text = b'"' ∷ (escape text ++ b'"' ∷ [])

escaped_step :
    (c : ℕ) (cs rest : Bytes)
    → read_quoted b'"' false (escape cs ++ b'"' ∷ rest) ≡ (cs, some rest)
    → read_quoted b'"' false (escape (c ∷ cs) ++ b'"' ∷ rest) ≡ (c ∷ cs, some rest)
unfolding escape read_quoted
escaped_step c cs rest ih = elim (Bool-cases (is_special c)) [
  | inl special ↦
      let flipped : (c == b'\\' || c == b'"') ≡ true = ground arith in rw (special, flipped, ih)
  | inr other ↦
      let quote : (c == b'"') ≡ false = ground arith in
      let slash : (c == b'\\') ≡ false = ground arith in rw (other, quote, slash, ih)
]

read_quoted-escape :
    (text rest : Bytes) → read_quoted b'"' false (escape text ++ b'"' ∷ rest) ≡ (text, some rest)
unfolding escape read_quoted
read_quoted-escape [] rest = refl
read_quoted-escape (c ∷ cs) rest = escaped_step c cs rest (read_quoted-escape cs rest)

pub quoted-read :
    (arg rest : Bytes)
    → read_quoted b'"' false ((escape arg ++ b'"' ∷ []) ++ rest) ≡ (arg, some rest)
quoted-read arg rest = rw append_assoc (read_quoted-escape arg rest)
