-- ===== src/HostName/RoundTrip.antt =====
-- src/KVirtualHostContainer.cpp: the name of a host is what build_domain_name prints.
use kangle.Prelude.{
  ℕ, zero, suc, ◌≤◌, ◌<◌, Bool, true, false, Option, some, List, [], ◌∷◌, ◌++◌, ◌≡◌, refl, ap, sym,
  ◌∙◌, arith, ◌==◌, ltb, if◌then◌else◌, length, length-append, length-map, take, drop, map, Bytes,
}
use mathlib.Core.List.{append-nil, append_assoc, reverse, reverse_aux, reverse-reverse}
use kangle.HostName.{
  split_labels, write_labels, or_none, revert_hostname, convert, read_labels, join_labels,
  build_domain_name,
}
use kangle.HostName.Labels.{
  AllLabels, dotted, joined, encoded, split_labels-dot, split_labels-joined, write_labels-encoded,
}

take-append : (xs ys : Bytes) → take (length xs) (xs ++ ys) ≡ xs
take-append [] ys = refl
take-append (x ∷ xs) ys = ap (λ (t : Bytes). x ∷ t) (take-append xs ys)

drop-append : (xs ys : Bytes) → drop (length xs) (xs ++ ys) ≡ ys
drop-append [] ys = refl
drop-append (x ∷ xs) ys = drop-append xs ys

read_labels-step :
    (fuel n : ℕ) (label rest : Bytes) (stack : List Bytes)
    → n ≡ length label
    → 0 < n
    → read_labels (suc fuel) stack (n ∷ label ++ rest) ≡ read_labels fuel (label ∷ stack) rest
unfolding read_labels
read_labels-step fuel n label rest stack e some_byte =
    rw (nonzero, fits, e, take-append label rest, drop-append label rest) refl
  where
    nonzero : (n == 0) ≡ false
    nonzero = ground (arith, some_byte)

    fits : ltb (length (label ++ rest)) n ≡ false
    fits = ground (arith, e, length-append label rest)

read_labels-encoded :
    (tolower : ℕ → ℕ) (fuel : ℕ) (labels stack : List Bytes)
    → AllLabels labels
    → length (encoded tolower labels) ≤ fuel
    → read_labels fuel stack (encoded tolower labels)
      ≡ some (reverse_aux (map (map tolower) labels) stack)
unfolding encoded
read_labels-encoded tolower zero [] stack all enough = unfold read_labels in refl
read_labels-encoded tolower (suc fuel) [] stack all enough = unfold read_labels in refl
read_labels-encoded tolower zero (label ∷ labels) stack all enough = absurd (omega (arith, enough))
read_labels-encoded tolower (suc fuel) (label ∷ labels) stack ((some_byte, short, lacks), all)
      enough =
    read_labels-step fuel (length label) (map tolower label) (encoded tolower labels) stack
      (sym (length-map label tolower)) some_byte
    ∙ read_labels-encoded tolower fuel labels (map tolower label ∷ stack) all less
  where
    less : length (encoded tolower labels) ≤ fuel
    less = omega (arith, enough, length-append (map tolower label) (encoded tolower labels))

join_labels-dotted :
    (c : ℕ) (buf : Bytes) (labels : List Bytes)
    → join_labels (c ∷ buf) labels ≡ (c ∷ buf) ++ dotted labels
unfolding join_labels dotted
join_labels-dotted c buf [] = sym (append-nil (c ∷ buf))
join_labels-dotted c buf (label ∷ labels) =
    join_labels-dotted c ((buf ++ b'.' ∷ []) ++ label) labels
    ∙ ap (λ (t : Bytes). c ∷ t)
        (append_assoc (buf ++ b'.' ∷ []) label (dotted labels)
          ∙ append_assoc buf (b'.' ∷ []) (label ++ dotted labels))

-- The text of a name, and of a wide one.
unfoldable pub shown : Bool → List Bytes → Bytes
unfolding dotted joined
shown true labels = b'*' ∷ dotted labels
shown false labels = joined labels

-- The name that the table has.
unfoldable pub domain : (ℕ → ℕ) → List Bytes → Bytes
unfolding encoded
domain tolower labels = encoded tolower (reverse labels)

AllLabels-reverse_aux :
    (labels stack : List Bytes)
    → AllLabels labels
    → AllLabels stack
    → AllLabels (reverse_aux labels stack)
AllLabels-reverse_aux [] stack all others = others
AllLabels-reverse_aux (label ∷ labels) stack (is, all) others =
    AllLabels-reverse_aux labels (label ∷ stack) all (is, others)

map-reverse_aux :
    (f : Bytes → Bytes) (labels stack : List Bytes)
    → reverse_aux (map f labels) (map f stack) ≡ map f (reverse_aux labels stack)
map-reverse_aux f [] stack = refl
map-reverse_aux f (label ∷ labels) stack = map-reverse_aux f labels (label ∷ stack)

back_again :
    (f : Bytes → Bytes) (labels : List Bytes)
    → reverse_aux (map f (reverse labels)) [] ≡ map f labels
back_again f labels = map-reverse_aux f (reverse labels) [] ∙ ap (map f) (reverse-reverse labels)

join_labels-shown :
    (tolower : ℕ → ℕ) (wide : Bool) (labels : List Bytes)
    → AllLabels labels
    → join_labels (if wide then b'*' ∷ [] else []) (map (map tolower) labels)
      ≡ shown wide (map (map tolower) labels)
unfolding shown
join_labels-shown tolower true labels all = join_labels-dotted b'*' [] (map (map tolower) labels)
join_labels-shown tolower false [] all = unfold join_labels joined in refl
join_labels-shown tolower false ([] ∷ labels) (is, all) = absurd (omega arith)
join_labels-shown tolower false ((c ∷ cs) ∷ labels) (is, all) =
    unfold join_labels joined in
    join_labels-dotted (tolower c) (map tolower cs) (map (map tolower) labels)

build_domain_name-shown :
    (tolower : ℕ → ℕ) (wide : Bool) (labels : List Bytes)
    → AllLabels labels
    → build_domain_name (domain tolower labels) wide ≡ some (shown wide (map (map tolower) labels))
unfolding build_domain_name domain
build_domain_name-shown tolower wide labels all =
    ap (or_none (λ stack. some (join_labels (if wide then b'*' ∷ [] else []) stack))) (
      read_labels-encoded tolower (length (encoded tolower (reverse labels))) (reverse labels) []
        (AllLabels-reverse_aux labels [] all tt) (omega arith)
      ∙ ap some (back_again (map tolower) labels))
    ∙ ap some (join_labels-shown tolower wide labels all)

-- A host whose name fits the buffer.
abbrev pub NoStar : List Bytes → Type 0
NoStar ((c ∷ cs) ∷ labels) = (c == b'*') ≡ false
NoStar _ = Unit

pub record IsHost (tolower : ℕ → ℕ) (dst_len : ℕ) (labels : List Bytes) : Type 0 where
  pub all : AllLabels labels
  pub few : length labels ≤ 251
  pub fits : length (domain tolower labels) < dst_len
  pub no_star : NoStar labels

write_labels-reverse :
    (tolower : ℕ → ℕ) (dst_len : ℕ) (labels : List Bytes) (text : Bytes)
    → IsHost tolower dst_len labels
    → split_labels (length text) [] text ≡ some (reverse labels)
    → revert_hostname tolower dst_len text ≡ some (domain tolower labels ++ 0 ∷ [])
unfolding revert_hostname domain
write_labels-reverse tolower dst_len labels text host e =
    ap (or_none (λ stack. write_labels tolower dst_len stack)) e
    ∙ write_labels-encoded tolower dst_len (reverse labels)
        (AllLabels-reverse_aux labels [] host.all tt) (unfold domain in host.fits)

split-joined :
    (labels : List Bytes)
    → AllLabels labels
    → length labels ≤ 251
    → split_labels (length (joined labels)) [] (joined labels) ≡ some (reverse labels)
unfolding joined
split-joined [] all few = unfold split_labels in refl
split-joined (label ∷ labels) (is, all) few =
    split_labels-joined (length (label ++ dotted labels)) label labels [] is all
      (omega (arith, few)) (omega arith)

split-dotted :
    (labels : List Bytes)
    → AllLabels labels
    → length labels ≤ 251
    → split_labels (length (dotted labels)) [] (dotted labels) ≡ some (reverse labels)
unfolding dotted
split-dotted [] all few = unfold split_labels in refl
split-dotted (label ∷ labels) (is, all) few =
    split_labels-dot (length (label ++ dotted labels)) (label ++ dotted labels) [] (omega arith)
    ∙ split_labels-joined (length (label ++ dotted labels)) label labels [] is all
        (omega (arith, few)) (omega arith)

convert-shown :
    (tolower : ℕ → ℕ) (dst_len : ℕ) (wide : Bool) (labels : List Bytes)
    → IsHost tolower dst_len labels
    → convert tolower dst_len (shown wide labels) ≡ (wide, some (domain tolower labels ++ 0 ∷ []))
unfolding convert shown
convert-shown tolower dst_len true labels host =
    ap (λ (o : Option Bytes). (true, o))
      (write_labels-reverse tolower dst_len labels (dotted labels) host
        (split-dotted labels host.all host.few))
convert-shown tolower dst_len false [] host =
    unfold joined in
    ap (λ (o : Option Bytes). (false, o))
      (write_labels-reverse tolower dst_len [] [] host (unfold split_labels in refl))
convert-shown tolower dst_len false ([] ∷ labels) host = absurd (omega (arith, host.all.0.0))
convert-shown tolower dst_len false ((c ∷ cs) ∷ labels) host =
    unfold joined in
    rw host.no_star (
      ap (λ (o : Option Bytes). (false, o))
        (write_labels-reverse tolower dst_len ((c ∷ cs) ∷ labels) ((c ∷ cs) ++ dotted labels) host
          (unfold joined in split-joined ((c ∷ cs) ∷ labels) host.all host.few)))

-- A host whose labels are not empty, have at most 63 bytes and no dot, are 251 at most, do not begin
-- with "*" and fit the buffer, with or without "*." in front: convert accepts it, tells whether it is
-- a wide one, and the name that it makes, without the 0 at its end, is printed by build_domain_name as
-- the same host, each byte by kgl_tolower.
pub build_domain_name-convert :
    (tolower : ℕ → ℕ) (dst_len : ℕ) (wide : Bool) (labels : List Bytes)
    → IsHost tolower dst_len labels
    → (convert tolower dst_len (shown wide labels) ≡ (wide, some (domain tolower labels ++ 0 ∷ [])))
      × (build_domain_name (domain tolower labels) wide
          ≡ some (shown wide (map (map tolower) labels)))
build_domain_name-convert tolower dst_len wide labels host = (
  convert-shown tolower dst_len wide labels host,
  build_domain_name-shown tolower wide labels host.all,
)
