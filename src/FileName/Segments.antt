-- ===== src/FileName/Segments.antt =====
-- include/KFileName.h: what the names of a path make of it, without a buffer.
use kangle.Prelude.{
  ℕ, ◌≤◌, Bool, true, false, ◌||◌, List, [], ◌∷◌, ◌++◌, ◌≡◌, refl, ap, sym, inl, inr, arith,
  if◌then◌else◌, length, Bytes, Bool-cases,
}
use mathlib.Core.List.{append-nil}
use kangle.FileName.{is_split, skip_splits, find_split, is_dot, is_dot_dot, is_empty}

-- The names between the separators, empty ones too.
abbrev pub add_first : ℕ → List Bytes → List Bytes
add_first c [] = (c ∷ []) ∷ []
add_first c (name ∷ names) = (c ∷ name) ∷ names

unfoldable pub segments : Bytes → List Bytes
segments [] = [] ∷ []
segments (c ∷ cs) = let rest = segments cs in if is_split c then [] ∷ rest else add_first c rest

abbrev pub parent : List Bytes → List Bytes
parent [] = []
parent (name ∷ names) = names

-- One name leads from a directory to another one; a directory is its names, the last one first.
abbrev pub enter : Bytes → List Bytes → List Bytes
enter name dir =
    if is_empty name || is_dot name then dir else if is_dot_dot name then parent dir else name ∷ dir

unfoldable pub resolve : List Bytes → List Bytes → List Bytes
resolve [] dir = dir
resolve (name ∷ names) dir = resolve names (enter name dir)

unfoldable pub ends_split : Bytes → Bool
ends_split [] = false
ends_split (c ∷ []) = is_split c
ends_split (c ∷ d ∷ cs) = ends_split (d ∷ cs)

abbrev pub starts_split : Bytes → Bool
starts_split [] = true
starts_split (c ∷ cs) = is_split c

abbrev pub NoSplit : Bytes → Type 0
NoSplit [] = Unit
NoSplit (c ∷ cs) = (is_split c ≡ false) × NoSplit cs

-- What find_split finds.
pub find_split-parts :
    (text : Bytes)
    → (text ≡ (find_split text).0 ++ (find_split text).1)
      × NoSplit (find_split text).0
      × (starts_split (find_split text).1 ≡ true)
unfolding find_split
find_split-parts [] = (refl, tt, refl)
find_split-parts (c ∷ cs) = elim (Bool-cases (is_split c)) [
  | inl split ↦ rw split (refl, tt, split)
  | inr plain ↦
      let (whole, name, rest) = find_split-parts cs in
      rw plain (ap (λ (t : Bytes). c ∷ t) whole, (plain, name), rest)
]

pub segments-plain : (name : Bytes) → NoSplit name → segments name ≡ name ∷ []
unfolding segments
segments-plain [] plain = refl
segments-plain (c ∷ cs) (here, plain) = rw (here, segments-plain cs plain) refl

pub segments-split :
    (name : Bytes) (c : ℕ) (cs : Bytes)
    → NoSplit name
    → is_split c ≡ true
    → segments (name ++ c ∷ cs) ≡ name ∷ segments cs
unfolding segments
segments-split [] c cs plain split = rw split refl
segments-split (d ∷ ds) c cs (here, plain) split =
    rw (here, segments-split ds c cs plain split) refl

resolve-split :
    (c : ℕ) (cs : Bytes) (dir : List Bytes)
    → is_split c ≡ true
    → resolve (segments (c ∷ cs)) dir ≡ resolve (segments cs) dir
unfolding segments resolve
resolve-split c cs dir split = rw split refl

-- The names of a text that begins with a name.
pub segments-append :
    (name rest : Bytes) (dir : List Bytes)
    → NoSplit name
    → starts_split rest ≡ true
    → resolve (segments (name ++ rest)) dir ≡ resolve (segments rest) (enter name dir)
unfolding resolve
segments-append name [] dir plain split =
    rw (append-nil name, segments-plain name plain) (unfold segments in refl)
segments-append name (c ∷ cs) dir plain split =
    rw (segments-split name c cs plain split, resolve-split c cs (enter name dir) split) refl

-- Whether a text ends in a separator shows in its last part.
pub ends_split-append :
    (name rest : Bytes) → NoSplit name → ends_split (name ++ rest) ≡ ends_split rest
unfolding ends_split
ends_split-append [] rest plain = refl
ends_split-append (c ∷ []) [] (here, plain) = here
ends_split-append (c ∷ []) (d ∷ rest) plain = refl
ends_split-append (c ∷ d ∷ ds) rest (here, plain) = ends_split-append (d ∷ ds) rest plain

-- What a run of separators leaves.
abbrev pub Skipped : Bytes → Bytes → Type 0
Skipped text [] = ends_split text ≡ true
Skipped text (d ∷ ds) =
    (is_split d ≡ false) × (length (d ∷ ds) ≤ length text) × (ends_split text ≡ ends_split (d ∷ ds))

Skipped-later : (c d : ℕ) (ds rest : Bytes) → Skipped (d ∷ ds) rest → Skipped (c ∷ d ∷ ds) rest
unfolding ends_split
Skipped-later c d ds [] h = h
Skipped-later c d ds (e ∷ es) (plain, short, ends) = (plain, omega arith, ends)

pub skip_splits-Skipped :
    (c : ℕ) (cs : Bytes) → is_split c ≡ true → Skipped (c ∷ cs) (skip_splits (c ∷ cs))
unfolding skip_splits ends_split
skip_splits-Skipped c [] split = rw split split
skip_splits-Skipped c (d ∷ ds) split = elim (Bool-cases (is_split d)) [
  | inl more ↦
      rw split (Skipped-later c d ds (skip_splits (d ∷ ds)) (skip_splits-Skipped d ds more))
  | inr plain ↦ rw (split, plain) (plain, omega arith, refl)
]

pub resolve-skip_splits :
    (text : Bytes) (dir : List Bytes)
    → resolve (segments (skip_splits text)) dir ≡ resolve (segments text) dir
unfolding skip_splits
resolve-skip_splits [] dir = refl
resolve-skip_splits (c ∷ cs) dir = elim (Bool-cases (is_split c)) [
  | inl split ↦ rw (split, resolve-skip_splits cs dir) (sym (resolve-split c cs dir split))
  | inr plain ↦ rw plain refl
]
