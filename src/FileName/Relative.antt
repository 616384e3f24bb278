-- ===== src/FileName/Relative.antt =====
-- include/KFileName.h: what tripDir3 leaves of a path that begins with a name.
use kangle.Prelude.{
  ℕ, zero, suc, ◌≤◌, true, false, [], ◌∷◌, ◌++◌, ◌≡◌, ◌⊎◌, refl, ap, sym, ◌∙◌, inl, inr, arith,
  ◌==◌, length, Bytes, Bool-cases,
}
use mathlib.Core.List.{append-nil, append_assoc, reverse, reverse-cons, reverse-append}
use mathlib.Core.Path.{subst}
use kangle.FileName.{
  is_split, skip_splits, back_to_split, is_dot, is_dot_dot, put_name, trip_name, trip_round,
  trip_rounds, trip_dir3, without_slash,
}
use kangle.FileName.Segments.{starts_split, Skipped, skip_splits-Skipped}
use kangle.FileName.Rounds.{differs, find_split-cons, trip_name-next, trip_rounds-split}

-- What is written of a path that begins with a name, and of the same path behind a separator: the same,
-- or the second is that separator and the first, which begins with a byte of a name. The texts have
-- their last byte first.
abbrev Near : ℕ → Bytes → Bytes → Type 0
Near split rel out =
    (out ≡ rel)
    ⊎ ((x : Bytes) × (d : ℕ) × (is_split d ≡ false)
        × (rel ≡ x ++ d ∷ [])
        × (out ≡ rel ++ split ∷ []))

module _ (split : ℕ) (is_sep : is_split split ≡ true) where
  back_to_split-Near :
      (x : Bytes) (d : ℕ)
      → is_split d ≡ false
      → Near split
          (back_to_split split (x ++ d ∷ []))
          (back_to_split split ((x ++ d ∷ []) ++ split ∷ []))
  unfolding back_to_split
  back_to_split-Near [] d plain = inl (rw (differs split is_sep d plain) (ground arith))
  back_to_split-Near (c ∷ x) d plain = elim (Bool-cases (c == split)) [
    | inl here ↦ rw here (inr (x, d, plain, refl, refl))
    | inr other ↦ rw other (back_to_split-Near x d plain)
  ]

  put_name-Near :
      (name rel out : Bytes)
      → Near split rel out
      → Near split (put_name split name (split ∷ rel)) (put_name split name (split ∷ out))
  put_name-Near name rel out (inl e) = inl (ap (λ (t : Bytes). put_name split name (split ∷ t)) e)
  put_name-Near name rel out (inr (x, d, plain, first, longer)) =
      subst
        (λ (t : Bytes).
          Near split (put_name split name (split ∷ rel)) (put_name split name (split ∷ t)))
        (sym longer)
        (subst
          (λ (t : Bytes).
            Near split (put_name split name (split ∷ t))
              (put_name split name (split ∷ t ++ split ∷ [])))
          (sym first) put)
    where
      put :
          Near split
            (put_name split name (split ∷ x ++ d ∷ []))
            (put_name split name (split ∷ (x ++ d ∷ []) ++ split ∷ []))
      put =
          unfold put_name in
          elim (Bool-cases (is_dot name)) [
            | inl skip ↦ rw skip (inr (x, d, plain, refl, refl))
            | inr down ↦ elim (Bool-cases (is_dot_dot name)) [
              | inl up ↦ rw (down, up) (back_to_split-Near x d plain)
              | inr other ↦
                  rw (down, other)
                    (inr (
                      reverse name ++ split ∷ x,
                      d,
                      plain,
                      sym (append_assoc (reverse name) (split ∷ x) (d ∷ [])),
                      sym (append_assoc (reverse name) (split ∷ x ++ d ∷ []) (split ∷ [])),
                    ))
            ]
          ]

  first_name-Near :
      (d : ℕ) (name : Bytes)
      → is_split d ≡ false
      → Near split (put_name split (d ∷ name) []) (put_name split (d ∷ name) (split ∷ []))
  unfolding put_name back_to_split
  first_name-Near d name plain = elim (Bool-cases (is_dot (d ∷ name))) [
    | inl skip ↦ rw skip (inl refl)
    | inr down ↦ elim (Bool-cases (is_dot_dot (d ∷ name))) [
      | inl up ↦ rw (down, up) (inl refl)
      | inr other ↦
          rw (down, other)
            (inr (
              reverse name,
              d,
              plain,
              append-nil (reverse (d ∷ name)) ∙ reverse-cons d name,
              ap (λ (t : Bytes). t ++ split ∷ []) (sym (append-nil (reverse (d ∷ name)))),
            ))
    ]
  ]

  cons-Near : (rel out : Bytes) → Near split rel out → Near split (split ∷ rel) (split ∷ out)
  cons-Near rel out (inl e) = inl (ap (λ (t : Bytes). split ∷ t) e)
  cons-Near rel out (inr (x, d, plain, first, longer)) = inr (
    split ∷ x,
    d,
    plain,
    ap (λ (t : Bytes). split ∷ t) first,
    ap (λ (t : Bytes). split ∷ t) longer,
  )

  -- The rounds of both, each with enough fuel.
  abbrev Follows : ℕ → ℕ → Type 0
  unfolding trip_rounds
  Follows f g =
      (rest rel out : Bytes)
      → starts_split rest ≡ true
      → length rest ≤ f
      → length rest ≤ g
      → Near split rel out
      → Near split (trip_rounds split f rel rest) (trip_rounds split g out rest)

  trip_name-Near :
      (f g : ℕ) (text rest rel out : Bytes)
      → Follows f g
      → length text ≤ suc f
      → length text ≤ suc g
      → Skipped text rest
      → Near split rel out
      → Near split
          (trip_name split (λ o r. trip_rounds split f o r) (split ∷ rel) rest)
          (trip_name split (λ o r. trip_rounds split g o r) (split ∷ out) rest)
  unfolding Follows
  trip_name-Near f g text [] rel out ih enough enough' ends near =
      unfold trip_name in cons-Near rel out near
  trip_name-Near f g text (d ∷ ds) rel out ih enough enough' (plain, short, ends) near =
      let (name, rest, found, whole, names, starts, less) =
        find_split-cons split is_sep d ds plain in
      rw
        (
          trip_name-next split is_sep (λ o r. trip_rounds split f o r) (split ∷ rel) (d ∷ name) rest
              d ds found,
          trip_name-next split is_sep (λ o r. trip_rounds split g o r) (split ∷ out) (d ∷ name) rest
              d ds found,
        )
        (ih rest (put_name split (d ∷ name) (split ∷ rel)) (put_name split (d ∷ name) (split ∷ out))
          starts (omega arith) (omega arith) (put_name-Near (d ∷ name) rel out near))

  rounds_end : (f : ℕ) (out : Bytes) → trip_rounds split f out [] ≡ out
  unfolding trip_rounds
  rounds_end zero out = refl
  rounds_end (suc f) out = refl

  trip_rounds-Follows : (f g : ℕ) → Follows f g
  unfolding Follows
  trip_rounds-Follows f g [] rel out starts enough enough' near =
      rw (rounds_end f rel, rounds_end g out) near
  trip_rounds-Follows zero g (c ∷ cs) rel out starts enough enough' near = absurd (omega arith)
  trip_rounds-Follows (suc f) zero (c ∷ cs) rel out starts enough enough' near =
      absurd (omega arith)
  trip_rounds-Follows (suc f) (suc g) (c ∷ cs) rel out starts enough enough' near =
      rw
        (
          trip_rounds-split split is_sep f c cs rel starts,
          trip_rounds-split split is_sep g c cs out starts,
        )
        (trip_name-Near f g (c ∷ cs) (skip_splits (c ∷ cs)) rel out (trip_rounds-Follows f g) enough
          enough' (skip_splits-Skipped c cs starts) near)

  -- The first round, of the path and of the path behind a separator.
  first_round :
      (f d : ℕ) (ds out : Bytes)
      → is_split d ≡ false
      → trip_rounds split (suc f) out (d ∷ ds)
        ≡ trip_name split (λ o r. trip_rounds split f o r) out (d ∷ ds)
  unfolding trip_rounds trip_round
  first_round f d ds out plain = rw plain refl

  skipped_one : (d : ℕ) (ds : Bytes) → is_split d ≡ false → skip_splits (split ∷ d ∷ ds) ≡ d ∷ ds
  unfolding skip_splits
  skipped_one d ds plain = rw (is_sep, plain) refl

  rounds-Near :
      (d : ℕ) (ds : Bytes)
      → is_split d ≡ false
      → Near split
          (trip_rounds split (length (d ∷ ds)) [] (d ∷ ds))
          (trip_rounds split (length (split ∷ d ∷ ds)) [] (split ∷ d ∷ ds))
  rounds-Near d ds plain =
      let (name, rest, found, whole, names, starts, less) =
        find_split-cons split is_sep d ds plain in
      rw
        (
          first_round (length ds) d ds [] plain,
          trip_rounds-split split is_sep (length (d ∷ ds)) split (d ∷ ds) [] is_sep,
          skipped_one d ds plain,
          trip_name-next split is_sep (λ o r. trip_rounds split (length ds) o r) [] (d ∷ name) rest
              d ds found,
          trip_name-next split is_sep (λ o r. trip_rounds split (length (d ∷ ds)) o r) (split ∷ [])
              (d ∷ name) rest d ds found,
        )
        (unfold Follows in
          trip_rounds-Follows (length ds) (length (d ∷ ds)) rest (put_name split (d ∷ name) [])
            (put_name split (d ∷ name) (split ∷ [])) starts (omega arith) (omega arith)
            (first_name-Near d name plain))

differs_slash : (d : ℕ) → is_split d ≡ false → (d == b'/') ≡ false
differs_slash d plain = ground (arith, plain)

without_slash-Near :
    (rel out : Bytes)
    → Near b'/' rel out
    → without_slash (reverse rel) ≡ without_slash (reverse out)
without_slash-Near rel out (inl e) = ap (λ (t : Bytes). without_slash (reverse t)) (sym e)
without_slash-Near rel out (inr (x, d, plain, first, longer)) =
    ap without_slash backwards
    ∙ rw (differs_slash d plain) refl
    ∙ sym (
        ap (λ (t : Bytes). without_slash (reverse t)) longer
        ∙ ap without_slash (reverse-append rel (b'/' ∷ []))
        ∙ backwards)
  where
    backwards : reverse rel ≡ d ∷ reverse x
    backwards = ap reverse first ∙ reverse-append x (d ∷ [])

-- A path that begins with a name leaves the same behind the root as that path behind a "/".
pub without_slash-trip_dir3 :
    (d : ℕ) (ds : Bytes)
    → is_split d ≡ false
    → without_slash (trip_dir3 b'/' (d ∷ ds)) ≡ without_slash (trip_dir3 b'/' (b'/' ∷ d ∷ ds))
unfolding trip_dir3
without_slash-trip_dir3 d ds plain =
    without_slash-Near (trip_rounds b'/' (length (d ∷ ds)) [] (d ∷ ds))
      (trip_rounds b'/' (length (b'/' ∷ d ∷ ds)) [] (b'/' ∷ d ∷ ds))
      (rounds-Near b'/' refl d ds plain)
