-- ===== src/FileName/Names.antt =====
-- src/KFileName.cpp, concatDir: a file stays below the root.
use kangle.Prelude.{
  ℕ, Bool, true, false, ◌||◌, List, [], ◌∷◌, ◌++◌, ◌≡◌, refl, ap, ◌∙◌, inl, inr, if◌then◌else◌,
  Bytes, Bool-cases,
}
use kangle.FileName.{
  is_split, is_dot, is_dot_dot, is_empty, join_dirs, ends_in_slash, without_slash, trip_dir3,
  concat_dir,
}
use kangle.FileName.Segments.{segments, add_first, parent, enter, resolve, starts_split, NoSplit}
use kangle.FileName.Relative.{without_slash-trip_dir3}
use kangle.FileName.Resolve.{path_of, trail, trail-cases, trail-slash, trip_dir3-resolve}

-- A name of a directory: it leads down, to one place.
pub record IsName (name : Bytes) : Type 0 where
  has_bytes : is_empty name ≡ false
  not_dot : is_dot name ≡ false
  not_dot_dot : is_dot_dot name ≡ false
  no_split : NoSplit name

abbrev pub AllNames : List Bytes → Type 0
AllNames [] = Unit
AllNames (name ∷ dir) = IsName name × AllNames dir

abbrev pub AllPlain : List Bytes → Type 0
AllPlain [] = Unit
AllPlain (name ∷ names) = NoSplit name × AllPlain names

add_first-AllPlain :
    (c : ℕ) (names : List Bytes)
    → is_split c ≡ false
    → AllPlain names
    → AllPlain (add_first c names)
add_first-AllPlain c [] plain all = ((plain, tt), tt)
add_first-AllPlain c (name ∷ names) plain (first, all) = ((plain, first), all)

segments-AllPlain : (path : Bytes) → AllPlain (segments path)
unfolding segments
segments-AllPlain [] = (tt, tt)
segments-AllPlain (c ∷ cs) = elim (Bool-cases (is_split c)) [
  | inl split ↦ rw split (tt, segments-AllPlain cs)
  | inr plain ↦ rw plain (add_first-AllPlain c (segments cs) plain (segments-AllPlain cs))
]

parent-AllNames : (dir : List Bytes) → AllNames dir → AllNames (parent dir)
parent-AllNames [] all = tt
parent-AllNames (name ∷ dir) (first, all) = all

or_false : (a b : Bool) → (a || b) ≡ false → (a ≡ false) × (b ≡ false)
or_false true b h = cc
or_false false b h = (refl, h)

enter-AllNames :
    (name : Bytes) (dir : List Bytes) → NoSplit name → AllNames dir → AllNames (enter name dir)
enter-AllNames name dir plain all = elim (Bool-cases (is_empty name || is_dot name)) [
  | inl skip ↦ rw skip all
  | inr down ↦ elim (Bool-cases (is_dot_dot name)) [
    | inl up ↦ rw (down, up) (parent-AllNames dir all)
    | inr other ↦
        let (bytes, dot) = or_false (is_empty name) (is_dot name) down in
        rw (down, other)
          (record { has_bytes = bytes; not_dot = dot; not_dot_dot = other; no_split = plain }, all)
  ]
]

pub resolve-AllNames :
    (names dir : List Bytes) → AllPlain names → AllNames dir → AllNames (resolve names dir)
unfolding resolve
resolve-AllNames [] dir plain all = all
resolve-AllNames (name ∷ names) dir (first, plain) all =
    resolve-AllNames names (enter name dir) plain (enter-AllNames name dir first all)

-- The text behind the root: the names, with a "/" between them.
abbrev pub below : List Bytes → Bytes → Bytes
unfolding join_dirs
below [] path = []
below (name ∷ dir) path = join_dirs (name ∷ dir) ++ trail b'/' path

abbrev pub with_slash : Bytes → Bytes
with_slash doc_root = if ends_in_slash doc_root then doc_root else doc_root ++ b'/' ∷ []

path_of-join_dirs :
    (name : Bytes) (dir : List Bytes) → path_of b'/' (name ∷ dir) ≡ b'/' ∷ join_dirs (name ∷ dir)
unfolding path_of join_dirs
path_of-join_dirs name [] = refl
path_of-join_dirs name (other ∷ dir) =
    ap (λ (t : Bytes). t ++ b'/' ∷ name) (path_of-join_dirs other dir)

without_slash-below :
    (dir : List Bytes) (path : Bytes)
    → without_slash (path_of b'/' dir ++ trail b'/' path) ≡ below dir path
without_slash-below [] path = elim (trail-cases b'/' path) [
  | inl e ↦ unfold path_of below in rw e refl
  | inr e ↦ unfold path_of below in rw e refl
]
without_slash-below (name ∷ dir) path =
    ap (λ (t : Bytes). without_slash (t ++ trail b'/' path)) (path_of-join_dirs name dir)
    ∙ unfold below in refl

-- The names of a file that begins with a separator.
rooted-names :
    (file : Bytes)
    → starts_split file ≡ true
    → without_slash (trip_dir3 b'/' file) ≡ below (resolve (segments file) []) file
rooted-names file starts =
    ap without_slash (trip_dir3-resolve b'/' file refl starts)
    ∙ without_slash-below (resolve (segments file) []) file

below-slash :
    (dir : List Bytes) (d : ℕ) (ds : Bytes) → below dir (b'/' ∷ d ∷ ds) ≡ below dir (d ∷ ds)
below-slash [] d ds = unfold below in refl
below-slash (name ∷ dir) d ds =
    unfold below in ap (λ (t : Bytes). join_dirs (name ∷ dir) ++ t) (trail-slash b'/' d ds)

-- A separator in front does not change the names.
resolve-slash : (file : Bytes) → resolve (segments (b'/' ∷ file)) [] ≡ resolve (segments file) []
unfolding resolve segments
resolve-slash file = refl

any-names :
    (file : Bytes) → without_slash (trip_dir3 b'/' file) ≡ below (resolve (segments file) []) file
any-names [] = rooted-names [] refl
any-names (d ∷ ds) = elim (Bool-cases (is_split d)) [
  | inl split ↦ rooted-names (d ∷ ds) split
  | inr plain ↦
      without_slash-trip_dir3 d ds plain
      ∙ rooted-names (b'/' ∷ d ∷ ds) refl
      ∙ below-slash (resolve (segments (b'/' ∷ d ∷ ds)) []) d ds
      ∙ ap (λ (dir : List Bytes). below dir (d ∷ ds)) (resolve-slash (d ∷ ds))
]

-- concatDir with any file: the root, a "/" where it has none at its end, and the names that the file's
-- segments resolve to (an empty one and "." stay, ".." goes to the parent, and stays at the root),
-- with a "/" between them and one at the end where there is a name and the file ends in a separator.
-- Each of the names is non-empty, without a separator and neither "." nor "..".
pub concat_dir-AllNames :
    (doc_root file : Bytes)
    → AllNames (resolve (segments file) [])
      × (concat_dir doc_root file ≡ with_slash doc_root ++ below (resolve (segments file) []) file)
unfolding concat_dir
concat_dir-AllNames doc_root file = (
  resolve-AllNames (segments file) [] (segments-AllPlain file) tt,
  ap (λ (t : Bytes). with_slash doc_root ++ t) (any-names file),
)
