-- ===== src/HttpResponse/Names.antt =====
-- src/KHttpResponseParser.cpp: kgl_parse_response_header, which finds the known headers by a switch on
-- their first letter. kgl_mem_case_same is not in the repository: `case_same` stands for it.
use mathlib.Core.Path.{subst}
use kangle.Prelude.{
  ℕ, Bool, true, false, not, ◌&&◌, List, [], ◌∷◌, ◌++◌, ◌≡◌, refl, ap, sym, ◌∙◌, arith, ◌==◌,
  if◌then◌else◌, Bool-cases, inl, inr, Bytes, codes, to_lower,
}

pub data HeaderType : Type 0 where
  age : HeaderType
  alt_svc : HeaderType
  content_range : HeaderType
  content_length : HeaderType
  content_type : HeaderType
  cache_control : HeaderType
  connection : HeaderType
  content_encoding : HeaderType
  date : HeaderType
  etag : HeaderType
  expires : HeaderType
  keep_alive : HeaderType
  last_modified : HeaderType
  pragma : HeaderType
  server : HeaderType
  set_cookie : HeaderType
  transfer_encoding : HeaderType
  upgrade : HeaderType
  vary : HeaderType
  unknow : HeaderType

-- The `case` labels of the switch, as a lower-case letter, with the tests under each of them.
abbrev pub switch_cases : List (ℕ × List (Bytes × HeaderType))
switch_cases =
    (b'a', (codes "Age", age) ∷ (codes "Alt-Svc", alt_svc) ∷ [])
    ∷ (
      b'c',
      (codes "Content-Range", content_range)
          ∷ (codes "Content-length", content_length)
          ∷ (codes "Content-Type", content_type)
          ∷ (codes "Cache-Control", cache_control)
          ∷ (codes "Connection", connection)
          ∷ (codes "Content-Encoding", content_encoding)
          ∷ [],
    )
    ∷ (b'd', (codes "Date", date) ∷ [])
    ∷ (b'e', (codes "Etag", etag) ∷ (codes "Expires", expires) ∷ [])
    ∷ (b'k', (codes "Keep-Alive", keep_alive) ∷ [])
    ∷ (b'l', (codes "Last-Modified", last_modified) ∷ [])
    ∷ (b'p', (codes "Pragma", pragma) ∷ [])
    ∷ (b's', (codes "Server", server) ∷ (codes "Set-Cookie", set_cookie) ∷ [])
    ∷ (b't', (codes "Transfer-Encoding", transfer_encoding) ∷ [])
    ∷ (b'u', (codes "Upgrade", upgrade) ∷ [])
    ∷ (b'v', (codes "Vary", vary) ∷ [])
    ∷ []

begins_away : (d c letter : ℕ) → (d == letter) ≡ true → (c == letter) ≡ false → (d == c) ≡ false
begins_away d c letter b h = ground arith

equal_letter : (c letter : ℕ) → (c == letter) ≡ true → letter ≡ c
equal_letter c letter h = ground arith

and_split : (a b : Bool) → a && b ≡ true → (a ≡ true) × (b ≡ true)
and_split true b h = (refl, h)
and_split false b h = absurd (ground arith)

not-true : (b : Bool) → not b ≡ true → b ≡ false
not-true true h = absurd (ground arith)
not-true false h = refl

module _ (case_same : Bytes → Bytes → Bool) where
  -- The tests of one case in their order.
  unfoldable pub first_same : Bytes → List (Bytes × HeaderType) → HeaderType
  first_same attr [] = unknow
  first_same attr ((name, type) ∷ rest) =
      let later = first_same attr rest in if case_same attr name then type else later

  unfoldable pub switch : ℕ → Bytes → List (ℕ × List (Bytes × HeaderType)) → HeaderType
  unfolding first_same
  switch c attr [] = unknow
  switch c attr ((letter, names) ∷ rest) =
      let later = switch c attr rest in
      if to_lower c == letter then first_same attr names else later

  -- kgl_parse_response_header; an attribute is not empty.
  unfoldable pub kgl_parse_response_header : Bytes → HeaderType
  unfolding switch first_same
  kgl_parse_response_header [] = unknow
  kgl_parse_response_header (c ∷ cs) = switch c (c ∷ cs) switch_cases

  -- Every name of every case.
  abbrev pub all_names : List (ℕ × List (Bytes × HeaderType)) → List (Bytes × HeaderType)
  all_names [] = []
  all_names ((letter, names) ∷ rest) = names ++ all_names rest

  -- The names of a case begin with its letter.
  abbrev pub begins_with : ℕ → Bytes → Bool
  begins_with letter [] = false
  begins_with letter (c ∷ cs) = to_lower c == letter

  abbrev pub Begin : ℕ → List (Bytes × HeaderType) → Type 0
  Begin letter [] = Unit {0}
  Begin letter ((name, type) ∷ rest) = (begins_with letter name ≡ true) × Begin letter rest

  -- No name of these cases begins with the letter.
  abbrev pub Avoid : ℕ → List (Bytes × HeaderType) → Type 0
  Avoid letter [] = Unit {0}
  Avoid letter ((name, type) ∷ rest) = (begins_with letter name ≡ false) × Avoid letter rest

  abbrev pub Sorted : List (ℕ × List (Bytes × HeaderType)) → Type 0
  Sorted [] = Unit {0}
  Sorted ((letter, names) ∷ rest) = Begin letter names × Avoid letter (all_names rest) × Sorted rest

  -- The same as tests, which are run on the cases.
  abbrev begin : ℕ → List (Bytes × HeaderType) → Bool
  begin letter [] = true
  begin letter ((name, type) ∷ rest) = begins_with letter name && begin letter rest

  abbrev avoid : ℕ → List (Bytes × HeaderType) → Bool
  avoid letter [] = true
  avoid letter ((name, type) ∷ rest) = not (begins_with letter name) && avoid letter rest

  abbrev sorted : List (ℕ × List (Bytes × HeaderType)) → Bool
  sorted [] = true
  sorted ((letter, names) ∷ rest) =
      begin letter names && (avoid letter (all_names rest) && sorted rest)

  begin-sound : (l : ℕ) (ns : List (Bytes × HeaderType)) → begin l ns ≡ true → Begin l ns
  begin-sound l [] h = tt
  begin-sound l ((name, type) ∷ ns) h =
      let (first, rest) = and_split (begins_with l name) (begin l ns) h in
      (first, begin-sound l ns rest)

  avoid-sound : (l : ℕ) (ns : List (Bytes × HeaderType)) → avoid l ns ≡ true → Avoid l ns
  avoid-sound l [] h = tt
  avoid-sound l ((name, type) ∷ ns) h =
      let (first, rest) = and_split (not (begins_with l name)) (avoid l ns) h in
      (not-true (begins_with l name) first, avoid-sound l ns rest)

  sorted-sound : (gs : List (ℕ × List (Bytes × HeaderType))) → sorted gs ≡ true → Sorted gs
  sorted-sound [] h = tt
  sorted-sound ((l, ns) ∷ gs) h =
      let (first, more) = and_split (begin l ns) (avoid l (all_names gs) && sorted gs) h in
      let (second, rest) = and_split (avoid l (all_names gs)) (sorted gs) more in
      (begin-sound l ns first, avoid-sound l (all_names gs) second, sorted-sound gs rest)

  -- A text is the same as a name, case aside, only if their first letters are.
  abbrev pub SameFirst : Type 0
  SameFirst =
      (c : ℕ) (cs name : Bytes)
      → case_same (c ∷ cs) name ≡ true
      → begins_with (to_lower c) name ≡ true

  miss-Avoid :
      SameFirst
      → (c : ℕ) (cs name : Bytes) → begins_with (to_lower c) name ≡ false
      → case_same (c ∷ cs) name ≡ false
  miss-Avoid first c cs name h = elim (Bool-cases (case_same (c ∷ cs) name)) [
    | inr other ↦ other
    | inl hit ↦ let e = first c cs name hit in absurd (ground arith)
  ]

  miss-Begin :
      SameFirst
      → (c letter : ℕ) (cs name : Bytes) → (to_lower c == letter) ≡ false
      → begins_with letter name ≡ true
      → case_same (c ∷ cs) name ≡ false
  miss-Begin first c letter cs [] h b = absurd (ground arith)
  miss-Begin first c letter cs (d ∷ ds) h b =
      let away : (to_lower d == to_lower c) ≡ false =
        begins_away (to_lower d) (to_lower c) letter b h in
      miss-Avoid first c cs (d ∷ ds) away

  first_same-Avoid :
      SameFirst
      → (c : ℕ) (cs : Bytes) (names : List (Bytes × HeaderType)) → Avoid (to_lower c) names
      → first_same (c ∷ cs) names ≡ unknow
  unfolding first_same
  first_same-Avoid first c cs [] h = refl
  first_same-Avoid first c cs ((name, type) ∷ rest) h =
      rw (miss-Avoid first c cs name h.0) (first_same-Avoid first c cs rest h.1)

  first_same-hit :
      SameFirst
      → (c : ℕ) (cs : Bytes) (names rest : List (Bytes × HeaderType)) → Avoid (to_lower c) rest
      → first_same (c ∷ cs) (names ++ rest) ≡ first_same (c ∷ cs) names
  unfolding first_same
  first_same-hit first c cs [] rest h = first_same-Avoid first c cs rest h
  first_same-hit first c cs ((name, type) ∷ names) rest h =
      ap (λ later. if case_same (c ∷ cs) name then type else later)
        (first_same-hit first c cs names rest h)

  first_same-skip :
      SameFirst
      → (c letter : ℕ) (cs : Bytes) (names rest : List (Bytes × HeaderType))
      → (to_lower c == letter) ≡ false
      → Begin letter names
      → first_same (c ∷ cs) (names ++ rest) ≡ first_same (c ∷ cs) rest
  unfolding first_same
  first_same-skip first c letter cs [] rest h b = refl
  first_same-skip first c letter cs ((name, type) ∷ names) rest h b =
      rw (miss-Begin first c letter cs name h b.0)
        (first_same-skip first c letter cs names rest h b.1)

  switch-all :
      SameFirst
      → (c : ℕ) (cs : Bytes) (groups : List (ℕ × List (Bytes × HeaderType))) → Sorted groups
      → switch c (c ∷ cs) groups ≡ first_same (c ∷ cs) (all_names groups)
  unfolding switch
  switch-all first c cs [] h = refl
  switch-all first c cs ((letter, names) ∷ rest) (starts, none_later, in_order) =
      elim (Bool-cases (to_lower c == letter)) [
        | inr other ↦ rw other (
            switch-all first c cs rest in_order
            ∙ sym (first_same-skip first c letter cs names (all_names rest) other starts))
        | inl this_one ↦
            let e : letter ≡ to_lower c = equal_letter (to_lower c) letter this_one in
            rw this_one (
              sym (
                first_same-hit first c cs names (all_names rest)
                  (subst (λ (l : ℕ). Avoid l (all_names rest)) e none_later)))
      ]

  -- The switch on the first letter hides no header: for every attribute the result is that of the tests
  -- of all the names, one after the other. The comparison without regard to case accepts only
  -- names with the same first letter.
  pub kgl_parse_response_header-all :
      SameFirst
      → (c : ℕ) (cs : Bytes)
      → kgl_parse_response_header (c ∷ cs) ≡ first_same (c ∷ cs) (all_names switch_cases)
  unfolding kgl_parse_response_header
  kgl_parse_response_header-all first c cs =
      switch-all first c cs switch_cases (sorted-sound switch_cases refl)
