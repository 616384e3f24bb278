-- ===== src/FileName/Agree.antt =====
-- src/KFileName.cpp, tripDir: when it fails, and which names it keeps.
use kangle.Prelude.{
  ℕ, zero, suc, ◌≤◌, Bool, true, false, ◌||◌, Option, none, some, List, [], ◌∷◌, ◌++◌, ◌≡◌, refl,
  ap, sym, ◌∙◌, inl, inr, arith, if◌then◌else◌, length, length-append, Bytes, Bool-cases,
}
use mathlib.Core.List.{append-nil}
use mathlib.Core.Path.{subst}
use kangle.FileName.{
  find_split, is_dot, is_dot_dot, is_empty, more_names, strtok_rounds, real_dirs, join_dirs, joined,
  trip_dir,
}
use kangle.FileName.Segments.{
  segments, resolve, starts_split, NoSplit, find_split-parts, segments-plain, segments-split,
}

-- Whether the names lead above the place they start from, `depth` names below the root.
unfoldable pub climbs : List Bytes → ℕ → Bool
climbs [] depth = false
climbs (name ∷ names) zero =
    let stay = climbs names zero in
    let down = climbs names (suc zero) in
    if is_empty name || is_dot name then stay else if is_dot_dot name then true else down
climbs (name ∷ names) (suc depth) =
    let stay = climbs names (suc depth) in
    let up = climbs names depth in
    let down = climbs names (suc (suc depth)) in
    if is_empty name || is_dot name then stay else if is_dot_dot name then up else down

abbrev kept : List Bytes → List Bytes → Option (List Bytes)
unfolding climbs resolve
kept names dir = if climbs names (length dir) then none else some (resolve names dir)

real_dirs-kept : (names dir : List Bytes) → real_dirs names dir ≡ kept names dir
unfolding real_dirs kept
real_dirs-kept [] dir = refl
real_dirs-kept (name ∷ names) [] = elim (Bool-cases (is_empty name || is_dot name)) [
  | inl skip ↦ rw skip (real_dirs-kept names [])
  | inr down ↦ elim (Bool-cases (is_dot_dot name)) [
    | inl up ↦ rw (down, up) refl
    | inr other ↦ rw (down, other) (real_dirs-kept names (name ∷ []))
  ]
]
real_dirs-kept (name ∷ names) (last ∷ dir) = elim (Bool-cases (is_empty name || is_dot name)) [
  | inl skip ↦ rw skip (real_dirs-kept names (last ∷ dir))
  | inr down ↦ elim (Bool-cases (is_dot_dot name)) [
    | inl up ↦ rw (down, up) (real_dirs-kept names dir)
    | inr other ↦ rw (down, other) (real_dirs-kept names (name ∷ last ∷ dir))
  ]
]

-- The texts of my_strtok are the names, without an empty one at the end.
data Cuts : List Bytes → List Bytes → Type 0 where
  whole : {names : List Bytes} → Cuts names names
  no_last : {names all : List Bytes} → all ≡ names ++ [] ∷ [] → Cuts names all

Cuts-cons :
    (name : Bytes) (names all : List Bytes) → Cuts names all → Cuts (name ∷ names) (name ∷ all)
Cuts-cons name names all whole = whole
Cuts-cons name names all (no_last e) = no_last (ap (λ (t : List Bytes). name ∷ t) e)

Cuts-found :
    (fuel : ℕ) (name rest : Bytes)
    → ((text : Bytes) → length text ≤ fuel → Cuts (strtok_rounds fuel text) (segments text))
    → NoSplit name
    → starts_split rest ≡ true
    → length rest ≤ suc fuel
    → Cuts (name ∷ more_names (λ next. strtok_rounds fuel next) rest) (segments (name ++ rest))
Cuts-found fuel name [] ih plain starts enough =
    rw (append-nil name, segments-plain name plain) whole
Cuts-found fuel name (c ∷ cs) ih plain starts enough =
    rw (segments-split name c cs plain starts)
      (Cuts-cons name (strtok_rounds fuel cs) (segments cs) (ih cs (omega arith)))

strtok_rounds-Cuts :
    (fuel : ℕ) (text : Bytes) → length text ≤ fuel → Cuts (strtok_rounds fuel text) (segments text)
unfolding strtok_rounds
strtok_rounds-Cuts zero [] enough = unfold segments in no_last refl
strtok_rounds-Cuts zero (c ∷ cs) enough = absurd (omega arith)
strtok_rounds-Cuts (suc fuel) [] enough = unfold segments in no_last refl
strtok_rounds-Cuts (suc fuel) (c ∷ cs) enough =
    let (parts, plain, starts) = find_split-parts (c ∷ cs) in
    let name : Bytes = (find_split (c ∷ cs)).0 in
    let rest : Bytes = (find_split (c ∷ cs)).1 in
    subst
      (λ (t : Bytes). Cuts (name ∷ more_names (λ next. strtok_rounds fuel next) rest) (segments t))
      (sym parts)
      (Cuts-found fuel name rest (strtok_rounds-Cuts fuel) plain starts
        (omega (arith, ap length parts, length-append name rest)))

real_dirs-last : (names dir : List Bytes) → real_dirs (names ++ [] ∷ []) dir ≡ real_dirs names dir
unfolding real_dirs
real_dirs-last [] dir = refl
real_dirs-last (name ∷ names) [] =
    rw (real_dirs-last names [], real_dirs-last names (name ∷ [])) refl
real_dirs-last (name ∷ names) (last ∷ dir) =
    rw
      (
        real_dirs-last names (last ∷ dir),
        real_dirs-last names dir,
        real_dirs-last names (name ∷ last ∷ dir),
      )
      refl

real_dirs-Cuts :
    (names all dir : List Bytes) → Cuts names all → real_dirs names dir ≡ real_dirs all dir
real_dirs-Cuts names all dir whole = refl
real_dirs-Cuts names all dir (no_last e) =
    sym (ap (λ (t : List Bytes). real_dirs t dir) e ∙ real_dirs-last names dir)

joined-if :
    (up : Bool) (dir : List Bytes)
    → joined (if up then none else some dir) ≡ (if up then none else some (join_dirs dir))
unfolding joined
joined-if true dir = refl
joined-if false dir = refl

-- tripDir, on every path: it fails where the path's names lead above the place they start from, and
-- gives else the names they lead to, from there on, with a "/" between them.
pub trip_dir-kept :
    (dir : Bytes)
    → trip_dir dir
      ≡ (if climbs (segments dir) 0 then none else some (join_dirs (resolve (segments dir) [])))
unfolding trip_dir kept
trip_dir-kept dir =
    ap joined (
      real_dirs-Cuts (strtok_rounds (length dir) dir) (segments dir) []
        (strtok_rounds-Cuts (length dir) dir (omega arith))
      ∙ real_dirs-kept (segments dir) [])
    ∙ joined-if (climbs (segments dir) 0) (resolve (segments dir) [])
