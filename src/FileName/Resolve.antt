-- ===== src/FileName/Resolve.antt =====
-- include/KFileName.h: what tripDir3 leaves of a path that begins with a separator.
use kangle.Prelude.{
  ℕ, true, List, [], ◌∷◌, ◌++◌, ◌≡◌, ◌⊎◌, refl, ap, sym, ◌∙◌, inl, inr, arith, if◌then◌else◌,
  length, Bytes, Bool-cases,
}
use mathlib.Core.List.{
  append-nil, append_assoc, reverse, reverse-cons, reverse-append, reverse-reverse,
}
use kangle.FileName.{is_split, trip_dir3}
use kangle.FileName.Segments.{segments, resolve, ends_split, starts_split}
use kangle.FileName.Rounds.{written, finish, Writes, trip_rounds-written}

-- A path of names, the last one first, and the separator that a path may end in.
unfoldable pub path_of : ℕ → List Bytes → Bytes
path_of split [] = []
path_of split (name ∷ dir) = path_of split dir ++ split ∷ name

abbrev pub trail : ℕ → Bytes → Bytes
unfolding ends_split
trail split path = if ends_split path then split ∷ [] else []

pub trail-slash : (split d : ℕ) (ds : Bytes) → trail split (b'/' ∷ d ∷ ds) ≡ trail split (d ∷ ds)
unfolding trail
trail-slash split d ds = refl

pub trail-cases :
    (split : ℕ) (path : Bytes) → (trail split path ≡ split ∷ []) ⊎ (trail split path ≡ [])
unfolding trail
trail-cases split path = elim (Bool-cases (ends_split path)) [
  | inl ends ↦ inl (rw ends refl)
  | inr other ↦ inr (rw other refl)
]

reverse-written : (split : ℕ) (dir : List Bytes) → reverse (written split dir) ≡ path_of split dir
unfolding written path_of
reverse-written split [] = refl
reverse-written split (name ∷ dir) =
    reverse-append (reverse name) (split ∷ written split dir)
    ∙ ap (λ (t : Bytes). t ++ reverse (reverse name)) (reverse-cons split (written split dir))
    ∙ append_assoc (reverse (written split dir)) (split ∷ []) (reverse (reverse name))
    ∙ rw (reverse-written split dir, reverse-reverse name) refl

reverse-finish :
    (split : ℕ) (path : Bytes) (dir : List Bytes)
    → reverse (finish split path (written split dir)) ≡ path_of split dir ++ trail split path
unfolding finish trail
reverse-finish split path dir = elim (Bool-cases (ends_split path)) [
  | inl ends ↦ rw ends (
      reverse-cons split (written split dir)
      ∙ ap (λ (t : Bytes). t ++ split ∷ []) (reverse-written split dir))
  | inr other ↦ rw other (reverse-written split dir ∙ sym (append-nil (path_of split dir)))
]

-- tripDir3 on a path that begins with a separator, where `split` is one: the path of the directory that
-- the path's names lead to from the root, and a separator behind it where the path ends in one.
pub trip_dir3-resolve :
    (split : ℕ) (path : Bytes)
    → is_split split ≡ true
    → starts_split path ≡ true
    → trip_dir3 split path ≡ path_of split (resolve (segments path) []) ++ trail split path
unfolding trip_dir3 Writes
trip_dir3-resolve split path is_sep starts =
    ap reverse (
      unfold written in
      trip_rounds-written split is_sep (length path) path [] tt starts (omega arith))
    ∙ reverse-finish split path (resolve (segments path) [])
