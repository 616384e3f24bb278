-- ===== src/FileName.antt =====
-- include/KFileName.h, src/KFileName.cpp: tripDir3, tripDir and concatDir, which take the "." and ".."
-- out of a path. tripDir3 works in the buffer of the path: `out` is what stands in front of `src`, its
-- last byte first, and `rest` what stands at `hot`. The paths of Linux, where PATH_SPLIT_CHAR is "/".
pub mod Segments
pub mod Rounds
pub mod Resolve
pub mod Relative
pub mod Names
pub mod Agree
mod Tests
use kangle.Prelude.{
  ℕ, zero, suc, Bool, true, false, ◌||◌, Option, none, some, List, [], ◌∷◌, ◌++◌, ◌==◌,
  if◌then◌else◌, length, Bytes,
}
use mathlib.Core.List.{reverse}

-- *hot == '/' || *hot == '\\'
abbrev pub is_split : ℕ → Bool
is_split c = c == b'/' || c == b'\\'

-- The loop to the next byte that is no separator.
unfoldable pub skip_splits : Bytes → Bytes
skip_splits [] = []
skip_splits (c ∷ cs) = let next = skip_splits cs in if is_split c then next else c ∷ cs

-- The loop to the next separator: the name in front of it, and the rest from it on.
unfoldable pub find_split : Bytes → Bytes × Bytes
find_split [] = ([], [])
find_split (c ∷ cs) =
    let (name, rest) = find_split cs in if is_split c then ([], c ∷ cs) else (c ∷ name, rest)

-- src--, if src > path
abbrev pub step_back : Bytes → Bytes
step_back [] = []
step_back (c ∷ out) = out

-- The loop back to the separator in front of the last name, or to the beginning.
unfoldable pub back_to_split : ℕ → Bytes → Bytes
back_to_split split [] = []
back_to_split split (c ∷ out) =
    let before = back_to_split split out in if c == split then out else before

-- What a name does to the written part: "." and ".." are not copied.
abbrev pub is_dot : Bytes → Bool
is_dot (c ∷ []) = c == b'.'
is_dot _ = false

abbrev pub is_dot_dot : Bytes → Bool
is_dot_dot (c ∷ d ∷ []) = if c == b'.' then d == b'.' else false
is_dot_dot _ = false

unfoldable pub put_name : ℕ → Bytes → Bytes → Bytes
unfolding back_to_split
put_name split name out =
    if is_dot name
    then step_back out
    else if is_dot_dot name
    then back_to_split split (step_back out)
    else reverse name ++ out

-- One round of the loop, behind the separators; `next` makes the other rounds.
abbrev pub trip_name : ℕ → (Bytes → Bytes → Bytes) → Bytes → Bytes → Bytes
unfolding find_split put_name
trip_name split next out [] = out
trip_name split next out (c ∷ cs) =
    let (name, rest) = find_split (c ∷ cs) in next (put_name split name out) rest

abbrev pub trip_round : ℕ → (Bytes → Bytes → Bytes) → Bytes → Bytes → Bytes
unfolding find_split put_name skip_splits
trip_round split next out [] = out
trip_round split next out (c ∷ cs) =
    if is_split c
    then trip_name split next (split ∷ out) (skip_splits (c ∷ cs))
    else trip_name split next out (c ∷ cs)

-- Each round takes at least one byte, so that the path's length is enough fuel.
unfoldable pub trip_rounds : ℕ → ℕ → Bytes → Bytes → Bytes
unfolding find_split put_name skip_splits
trip_rounds split zero out rest = out
trip_rounds split (suc fuel) out rest =
    trip_round split (λ out' rest'. trip_rounds split fuel out' rest') out rest

unfoldable pub trip_dir3 : ℕ → Bytes → Bytes
unfolding trip_rounds
trip_dir3 split path = reverse (trip_rounds split (length path) [] path)

-- my_strtok, until it gives null, on a text where each '\\' was made a '/': the names between the
-- separators, and nothing behind a separator at the end. The text's length is enough fuel.
abbrev pub more_names : (Bytes → List Bytes) → Bytes → List Bytes
more_names next [] = []
more_names next (c ∷ cs) = next cs

unfoldable pub strtok_rounds : ℕ → Bytes → List Bytes
unfolding find_split
strtok_rounds zero text = []
strtok_rounds (suc fuel) [] = []
strtok_rounds (suc fuel) (c ∷ cs) =
    let (name, rest) = find_split (c ∷ cs) in
    name ∷ more_names (λ next. strtok_rounds fuel next) rest

-- The loop of tripDir over the names; `real_dir` is its last name first.
abbrev pub pop_back : (List Bytes → Option (List Bytes)) → List Bytes → Option (List Bytes)
pop_back next [] = none
pop_back next (name ∷ real_dir) = next real_dir

abbrev pub is_empty : Bytes → Bool
is_empty [] = true
is_empty (c ∷ cs) = false

unfoldable pub real_dirs : List Bytes → List Bytes → Option (List Bytes)
real_dirs [] real_dir = some real_dir
real_dirs (name ∷ dirs) real_dir =
    let skip = real_dirs dirs real_dir in
    let up = pop_back (λ r. real_dirs dirs r) real_dir in
    let down = real_dirs dirs (name ∷ real_dir) in
    if is_empty name || is_dot name then skip else if is_dot_dot name then up else down

unfoldable pub join_dirs : List Bytes → Bytes
join_dirs [] = []
join_dirs (name ∷ []) = name
join_dirs (name ∷ parent ∷ real_dir) = join_dirs (parent ∷ real_dir) ++ b'/' ∷ name

unfoldable pub joined : Option (List Bytes) → Option Bytes
unfolding join_dirs
joined none = none
joined (some real_dir) = some (join_dirs real_dir)

-- tripDir: the new path, and `none` where it returns false.
unfoldable pub trip_dir : Bytes → Option Bytes
unfolding strtok_rounds real_dirs
trip_dir dir = joined (real_dirs (strtok_rounds (length dir) dir) [])

-- concatDir, of a root and a file that are given.
abbrev pub ends_in_slash : Bytes → Bool
ends_in_slash [] = false
ends_in_slash (c ∷ []) = c == b'/'
ends_in_slash (c ∷ d ∷ cs) = ends_in_slash (d ∷ cs)

abbrev pub without_slash : Bytes → Bytes
without_slash [] = []
without_slash (c ∷ cs) = if c == b'/' then cs else c ∷ cs

unfoldable pub concat_dir : Bytes → Bytes → Bytes
unfolding trip_dir3
concat_dir doc_root file =
    (if ends_in_slash doc_root then doc_root else doc_root ++ b'/' ∷ [])
    ++ without_slash (trip_dir3 b'/' file)
