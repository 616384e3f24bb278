-- ===== src/FileName/Rounds.antt =====
-- include/KFileName.h: the rounds of tripDir3 on a path that begins with a separator.
use kangle.Prelude.{
  ℕ, zero, suc, ◌≤◌, true, false, ◌||◌, List, [], ◌∷◌, ◌++◌, ◌≡◌, refl, ap, sym, ◌∙◌, inl, inr,
  arith, ◌==◌, if◌then◌else◌, length, length-append, Bytes, Bool-cases,
}
use mathlib.Core.List.{reverse, reverse-cons}
use kangle.FileName.{
  is_split, skip_splits, find_split, back_to_split, is_dot, is_dot_dot, is_empty, put_name,
  trip_name, trip_round, trip_rounds,
}
use kangle.FileName.Segments.{
  segments, parent, enter, resolve, ends_split, starts_split, NoSplit, find_split-parts,
  segments-append, ends_split-append, Skipped, skip_splits-Skipped, resolve-skip_splits,
}

-- The names of a directory, its last name first, and the text that tripDir3 has written of it, its last
-- byte first.
abbrev pub Plain : List Bytes → Type 0
Plain [] = Unit
Plain (name ∷ dir) = NoSplit name × Plain dir

unfoldable pub written : ℕ → List Bytes → Bytes
written split [] = []
written split (name ∷ dir) = reverse name ++ split ∷ written split dir

unfoldable pub finish : ℕ → Bytes → Bytes → Bytes
unfolding ends_split
finish split text out = if ends_split text then split ∷ out else out

enter-Plain : (name : Bytes) (dir : List Bytes) → NoSplit name → Plain dir → Plain (enter name dir)
enter-Plain name dir plain all = elim (Bool-cases (is_empty name || is_dot name)) [
  | inl skip ↦ rw skip all
  | inr down ↦ elim (Bool-cases (is_dot_dot name)) [
    | inl up ↦ rw (down, up) (parent-Plain dir all)
    | inr other ↦ rw (down, other) (plain, all)
  ]
]
  where
    parent-Plain : (dir : List Bytes) → Plain dir → Plain (parent dir)
    parent-Plain [] all = tt
    parent-Plain (name ∷ dir) (plain, all) = all

NoSplit-append : (s t : Bytes) → NoSplit s → NoSplit t → NoSplit (s ++ t)
NoSplit-append [] t left right = right
NoSplit-append (c ∷ cs) t (here, left) right = (here, NoSplit-append cs t left right)

NoSplit-reverse : (s : Bytes) → NoSplit s → NoSplit (reverse s)
NoSplit-reverse [] plain = tt
NoSplit-reverse (c ∷ cs) (here, plain) =
    rw (reverse-cons c cs)
      (NoSplit-append (reverse cs) (c ∷ []) (NoSplit-reverse cs plain) (here, tt))

module _ (split : ℕ) (is_sep : is_split split ≡ true) where
  pub differs : (c : ℕ) → is_split c ≡ false → (c == split) ≡ false
  differs c plain = ground (arith, is_sep, plain)

  back_to_split-append :
      (name out : Bytes) → NoSplit name → back_to_split split (name ++ split ∷ out) ≡ out
  unfolding back_to_split
  back_to_split-append [] out plain = ground arith
  back_to_split-append (c ∷ cs) out (here, plain) =
      rw (differs c here) (back_to_split-append cs out plain)

  back_to_split-written :
      (dir : List Bytes)
      → Plain dir
      → back_to_split split (written split dir) ≡ written split (parent dir)
  unfolding written
  back_to_split-written [] all = unfold back_to_split in refl
  back_to_split-written (name ∷ dir) (plain, all) =
      back_to_split-append (reverse name) (written split dir) (NoSplit-reverse name plain)

  put_name-enter :
      (c : ℕ) (cs : Bytes) (dir : List Bytes)
      → Plain dir
      → put_name split (c ∷ cs) (split ∷ written split dir) ≡ written split (enter (c ∷ cs) dir)
  unfolding put_name
  put_name-enter c cs dir all = elim (Bool-cases (is_dot (c ∷ cs))) [
    | inl skip ↦ rw skip refl
    | inr down ↦ elim (Bool-cases (is_dot_dot (c ∷ cs))) [
      | inl up ↦ rw (down, up) (back_to_split-written dir all)
      | inr other ↦ rw (down, other) (unfold written in refl)
    ]
  ]

  -- One name and the rest behind it, from a round's loop on.
  pub find_split-cons :
      (d : ℕ) (ds : Bytes)
      → is_split d ≡ false
      → (name : Bytes) × (rest : Bytes) × (find_split (d ∷ ds) ≡ (d ∷ name, rest))
        × (d ∷ ds ≡ d ∷ name ++ rest)
        × NoSplit (d ∷ name)
        × (starts_split rest ≡ true)
        × (length rest ≤ length ds)
  unfolding find_split
  find_split-cons d ds plain =
      let (whole, all, rest) = find_split-parts ds in
      let text : Bytes = (find_split ds).1 in
      let name : Bytes = (find_split ds).0 in
      (
        name,
        text,
        rw plain refl,
        ap (λ (t : Bytes). d ∷ t) whole,
        (plain, all),
        rest,
        omega (arith, ap length whole, length-append name text),
      )

  -- What the loop gives: the written names, and a separator where the text ends in one.
  unfoldable pub Writes : ℕ → (Bytes → Bytes → Bytes) → Type 0
  unfolding written resolve segments ends_split
  Writes fuel next =
      (rest : Bytes) (dir : List Bytes)
      → Plain dir
      → starts_split rest ≡ true
      → length rest ≤ fuel
      → next (written split dir) rest
        ≡ finish split rest (written split (resolve (segments rest) dir))

  finish-true : (text out : Bytes) → ends_split text ≡ true → split ∷ out ≡ finish split text out
  unfolding finish
  finish-true text out ends = rw ends refl

  finish-same :
      (text rest out : Bytes)
      → ends_split text ≡ ends_split rest
      → finish split rest out ≡ finish split text out
  unfolding finish
  finish-same text rest out same = rw same refl

  pub trip_name-next :
      (next : Bytes → Bytes → Bytes) (out name rest : Bytes) (d : ℕ) (ds : Bytes)
      → find_split (d ∷ ds) ≡ (name, rest)
      → trip_name split next out (d ∷ ds) ≡ next (put_name split name out) rest
  unfolding trip_name
  trip_name-next next out name rest d ds found = rw found refl

  trip_name-written :
      (fuel : ℕ) (next : Bytes → Bytes → Bytes) (text rest : Bytes) (dir : List Bytes)
      → Writes fuel next
      → Plain dir
      → length text ≤ suc fuel
      → Skipped text rest
      → trip_name split next (split ∷ written split dir) rest
        ≡ finish split text (written split (resolve (segments rest) dir))
  unfolding Writes
  trip_name-written fuel next text [] dir ih all enough ends =
      unfold trip_name segments resolve in finish-true text (written split dir) ends
  trip_name-written fuel next text (d ∷ ds) dir ih all enough (plain, short, ends) =
      let (name, rest, found, whole, names, starts, less) = find_split-cons d ds plain in
      let inside : List Bytes = enter (d ∷ name) dir in
      trip_name-next next (split ∷ written split dir) (d ∷ name) rest d ds found
      ∙ ap (λ (out : Bytes). next out rest) (put_name-enter d name dir all)
      ∙ ih rest inside (enter-Plain (d ∷ name) dir names all) starts (omega arith)
      ∙ finish-same text rest (written split (resolve (segments rest) inside))
          (ends ∙ ap ends_split whole ∙ ends_split-append (d ∷ name) rest names)
      ∙ ap (λ (out : List Bytes). finish split text (written split out))
          (sym (
            ap (λ (t : Bytes). resolve (segments t) dir) whole
            ∙ segments-append (d ∷ name) rest dir names starts))

  pub trip_rounds-split :
      (fuel c : ℕ) (cs out : Bytes)
      → is_split c ≡ true
      → trip_rounds split (suc fuel) out (c ∷ cs)
        ≡ trip_name split
            (λ out' rest'. trip_rounds split fuel out' rest')
            (split ∷ out)
            (skip_splits (c ∷ cs))
  unfolding trip_rounds trip_round
  trip_rounds-split fuel c cs out starts = rw starts refl

  pub trip_rounds-written : (fuel : ℕ) → Writes fuel (λ out rest. trip_rounds split fuel out rest)
  unfolding Writes
  trip_rounds-written zero [] dir all starts enough =
      unfold trip_rounds segments resolve ends_split finish in refl
  trip_rounds-written zero (c ∷ cs) dir all starts enough = absurd (omega arith)
  trip_rounds-written (suc fuel) [] dir all starts enough =
      unfold trip_rounds segments resolve ends_split finish in refl
  trip_rounds-written (suc fuel) (c ∷ cs) dir all starts enough =
      trip_rounds-split fuel c cs (written split dir) starts
      ∙ trip_name-written fuel _ (c ∷ cs) (skip_splits (c ∷ cs)) dir (trip_rounds-written fuel) all
          enough (skip_splits-Skipped c cs starts)
      ∙ ap (λ (out : List Bytes). finish split (c ∷ cs) (written split out))
          (resolve-skip_splits (c ∷ cs) dir)
