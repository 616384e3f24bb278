-- ===== src/HostName/Labels.antt =====
-- include/KVirtualHostContainer.h: the names of hosts as lists of labels, and the loops on them.
use kangle.Prelude.{
  ℕ, zero, suc, ◌+◌, ◌-◌, ◌≤◌, ◌<◌, ◌%◌, ◌^◌, false, some, List, [], ◌∷◌, ◌++◌, ◌≡◌, refl, ap, sym,
  ◌∙◌, arith, leb, length, length-append, length-map, map, Bytes, Lacks,
}
use mathlib.Core.List.{append-nil, append_assoc, reverse_aux}
use kangle.HostName.{cut_label, is_refused, push_label, split_labels, write_labels}

-- A label: it is not empty, not longer than 63 bytes, and has no dot.
abbrev pub IsLabel : Bytes → Type 0
IsLabel label = (0 < length label) × (length label ≤ 63) × Lacks b'.' label

abbrev pub AllLabels : List Bytes → Type 0
AllLabels [] = Unit
AllLabels (label ∷ labels) = IsLabel label × AllLabels labels

-- The labels with dots between them.
unfoldable pub dotted : List Bytes → Bytes
dotted [] = []
dotted (label ∷ labels) = b'.' ∷ label ++ dotted labels

unfoldable pub joined : List Bytes → Bytes
unfolding dotted
joined [] = []
joined (label ∷ labels) = label ++ dotted labels

cut_label-end : (label : Bytes) → Lacks b'.' label → cut_label label ≡ (label, [])
unfolding cut_label
cut_label-end [] lacks = refl
cut_label-end (c ∷ cs) (here, lacks) = rw (here, cut_label-end cs lacks) refl

cut_label-append :
    (label rest : Bytes) → Lacks b'.' label → cut_label (label ++ b'.' ∷ rest) ≡ (label, rest)
unfolding cut_label
cut_label-append [] rest lacks = ground arith
cut_label-append (c ∷ cs) rest (here, lacks) = rw (here, cut_label-append cs rest lacks) refl

split_labels-step :
    (fuel c : ℕ) (cs label rest : Bytes) (stack : List Bytes)
    → cut_label (c ∷ cs) ≡ (label, rest)
    → is_refused label stack ≡ false
    → split_labels (suc fuel) stack (c ∷ cs) ≡ split_labels fuel (push_label label stack) rest
unfolding split_labels
split_labels-step fuel c cs label rest stack cut room = rw cut (rw room refl)

-- A dot in front of the labels is passed over.
pub split_labels-dot :
    (fuel : ℕ) (rest : Bytes) (stack : List Bytes)
    → length stack ≤ 250
    → split_labels (suc fuel) stack (b'.' ∷ rest) ≡ split_labels fuel stack rest
split_labels-dot fuel rest stack room =
    split_labels-step fuel b'.' rest [] rest stack (cut_label-append [] rest tt)
      (ground (arith, room))

split_labels-nil : (fuel : ℕ) (stack : List Bytes) → split_labels fuel stack [] ≡ some stack
unfolding split_labels
split_labels-nil zero stack = refl
split_labels-nil (suc fuel) stack = refl

pub split_labels-joined :
    (fuel : ℕ) (label : Bytes) (labels stack : List Bytes)
    → IsLabel label
    → AllLabels labels
    → length stack + length labels ≤ 250
    → length (label ++ dotted labels) ≤ fuel
    → split_labels fuel stack (label ++ dotted labels) ≡ some (reverse_aux (label ∷ labels) stack)
split_labels-joined fuel [] labels stack is all room enough = absurd (omega arith)
split_labels-joined zero (c ∷ cs) labels stack is all room enough = absurd (omega arith)
split_labels-joined (suc fuel) (c ∷ cs) [] stack (some_byte, short, lacks) all room enough =
    split_labels-step fuel c (cs ++ dotted []) (c ∷ cs) [] stack
      (unfold dotted in ap cut_label (append-nil (c ∷ cs)) ∙ cut_label-end (c ∷ cs) lacks)
      (ground (arith, room, short))
    ∙ split_labels-nil fuel ((c ∷ cs) ∷ stack)
split_labels-joined (suc fuel) (c ∷ cs) (next ∷ labels) stack (some_byte, short, lacks) (is, all)
      room enough =
    split_labels-step fuel c (cs ++ dotted (next ∷ labels)) (c ∷ cs) (next ++ dotted labels) stack
      (unfold dotted in cut_label-append (c ∷ cs) (next ++ dotted labels) lacks)
      (ground (arith, room, short))
    ∙ split_labels-joined fuel next labels ((c ∷ cs) ∷ stack) is all (omega arith) less
  where
    less : length (next ++ dotted labels) ≤ fuel
    less = unfold dotted in omega (arith, enough, length-append (c ∷ cs) (dotted (next ∷ labels)))

-- The name in the buffer: each label behind its length.
unfoldable pub encoded : (ℕ → ℕ) → List Bytes → Bytes
encoded tolower [] = []
encoded tolower (label ∷ stack) = length label ∷ map tolower label ++ encoded tolower stack

pub write_labels-encoded :
    (tolower : ℕ → ℕ) (dst_len : ℕ) (stack : List Bytes)
    → AllLabels stack
    → length (encoded tolower stack) < dst_len
    → write_labels tolower dst_len stack ≡ some (encoded tolower stack ++ 0 ∷ [])
unfolding write_labels encoded
write_labels-encoded tolower dst_len [] all room = refl
write_labels-encoded tolower dst_len (label ∷ stack) ((some_byte, short, lacks), all) room =
    rw (fits, write_labels-encoded tolower (dst_len - (length label + 1)) stack all less, byte)
      (ap (λ (t : Bytes). some (length label ∷ t))
        (sym (append_assoc (map tolower label) (encoded tolower stack) (0 ∷ []))))
  where
    size :
        length (map tolower label ++ encoded tolower stack)
        ≡ length (map tolower label) + length (encoded tolower stack)
    size = length-append (map tolower label) (encoded tolower stack)

    fits : leb dst_len (length label + 1) ≡ false
    fits = ground (arith, room, size, length-map label tolower)

    less : length (encoded tolower stack) < dst_len - (length label + 1)
    less = omega (arith, room, size, length-map label tolower)

    byte : length label % 2 ^ 8 ≡ length label
    byte = omega arith
