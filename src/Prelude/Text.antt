-- ===== src/Prelude/Text.antt =====
-- Text as lists of bytes, and the C character tests of the "C" locale.
use Prim.Native.Char.{code}
use Prim.Native.String.{String}
use Prim.Native.Nat.{ℕ, ◌+◌}
use mathlib.Core.Bool.{Bool, true, false, ◌&&◌, ◌||◌}
use mathlib.Core.Option.{Option, none, some}
use mathlib.Core.List.{List, [], ◌∷◌, ◌++◌}
use mathlib.Core.Path.{◌≡◌, refl}
use native.Mathlib.Omega.{arith}
use kangle.Prelude.Tests.{leb, ◌==◌, if◌then◌else◌}

abbrev pub Bytes : Type 0
Bytes = List ℕ

-- The bytes of an ASCII literal.
abbrev pub codes : String → Bytes
codes String.[] = []
codes (String.◌∷◌ c s) = code c ∷ codes s

-- isspace
abbrev pub is_space : ℕ → Bool
is_space c = c == 32 || leb 9 c && leb c 13

-- isdigit
abbrev pub is_digit : ℕ → Bool
is_digit c = leb b'0' c && leb c b'9'

-- tolower
abbrev pub to_lower : ℕ → ℕ
to_lower c = if leb b'A' c && leb c b'Z' then c + 32 else c

-- strcmp(a, b) == 0
unfoldable pub eq_bytes : Bytes → Bytes → Bool
eq_bytes [] [] = true
eq_bytes (x ∷ a) (y ∷ b) = x == y && eq_bytes a b
eq_bytes _ _ = false

-- strcasecmp(a, b) == 0
unfoldable pub same : Bytes → Bytes → Bool
same [] [] = true
same (x ∷ a) (y ∷ b) = to_lower x == to_lower y && same a b
same _ _ = false

pub eq_bytes_sound : (a b : Bytes) → eq_bytes a b ≡ true → a ≡ b
unfolding eq_bytes
eq_bytes_sound (x ∷ a) (y ∷ b) h = ground (arith, eq_bytes_sound a b)
eq_bytes_sound _ _ h = ground arith

pub eq_bytes_refl : (a : Bytes) → eq_bytes a a ≡ true
unfolding eq_bytes
eq_bytes_refl [] = refl
eq_bytes_refl (x ∷ a) = ground (arith, eq_bytes_refl a)

-- The byte does not occur in the text.
abbrev pub Lacks : ℕ → Bytes → Type 0
Lacks b [] = Unit {0}
Lacks b (c ∷ cs) = ((c == b) ≡ false) × Lacks b cs

pub Lacks-append : (b : ℕ) (s t : Bytes) → Lacks b s → Lacks b t → Lacks b (s ++ t)
Lacks-append b [] t h k = k
Lacks-append b (c ∷ s) t h k = (h.0, Lacks-append b s t h.1 k)

-- A byte in front of the first of the texts.
abbrev pub cons_front : ℕ → List Bytes → List Bytes
cons_front c [] = (c ∷ []) ∷ []
cons_front c (p ∷ ps) = (c ∷ p) ∷ ps

-- strchr, and the text in front of the byte and behind it.
unfoldable pub cut : ℕ → Bytes → Bytes × Option Bytes
cut b [] = ([], none)
cut b (c ∷ cs) = let (front, back) = cut b cs in if c == b then ([], some cs) else (c ∷ front, back)

-- A byte that is not in the text in front is where strchr cuts.
pub cut-Lacks : (b : ℕ) (p v : Bytes) → Lacks b p → cut b (p ++ b ∷ v) ≡ (p, some v)
unfolding cut
cut-Lacks b [] v h = ground arith
cut-Lacks b (c ∷ p) v h = rw (h.0, cut-Lacks b p v h.1)
