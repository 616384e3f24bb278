-- ===== src/HostName.antt =====
-- include/KVirtualHostContainer.h, src/KVirtualHostContainer.cpp: the names of hosts as the table of the
-- virtual hosts has them, their last label first, each one behind its length. kgl_tolower, which is not
-- in the repository, is the function `tolower`.
pub mod Labels
pub mod RoundTrip
mod Tests
use kangle.Prelude.{
  ℕ, zero, suc, ◌+◌, ◌-◌, ◌%◌, ◌^◌, Bool, true, false, ◌||◌, Option, none, some, List, [], ◌∷◌,
  ◌++◌, ◌==◌, ltb, leb, if◌then◌else◌, length, take, drop, map, Bytes,
}

-- memchr(src, '.', len): the label, and what is behind the dot.
unfoldable pub cut_label : Bytes → Bytes × Bytes
cut_label [] = ([], [])
cut_label (c ∷ cs) =
    let (label, rest) = cut_label cs in if c == b'.' then ([], cs) else (c ∷ label, rest)

-- hot->len > 63 || stack_size > 250
abbrev pub is_refused : Bytes → List Bytes → Bool
is_refused label stack = ltb 63 (length label) || ltb 250 (length stack)

abbrev pub push_label : Bytes → List Bytes → List Bytes
push_label [] stack = stack
push_label (c ∷ cs) stack = (c ∷ cs) ∷ stack

-- One round of the first loop of revert_hostname; `next` makes the other rounds.
abbrev pub split_label :
    (List Bytes → Bytes → Option (List Bytes)) → List Bytes → Bytes × Bytes → Option (List Bytes)
split_label next stack (label, rest) =
    if is_refused label stack then none else next (push_label label stack) rest

-- The loop; each round takes a byte at least, so that the length of the text is enough fuel.
unfoldable pub split_labels : ℕ → List Bytes → Bytes → Option (List Bytes)
unfolding cut_label
split_labels fuel stack [] = some stack
split_labels zero stack (c ∷ cs) = none
split_labels (suc fuel) stack (c ∷ cs) =
    split_label (λ s rest. split_labels fuel s rest) stack (cut_label (c ∷ cs))

-- The second loop, with the 0 behind it; `dst_len` bytes are left.
abbrev pub put_label : ℕ → Bytes → Option Bytes → Option Bytes
put_label len label none = none
put_label len label (some rest) = some (len ∷ label ++ rest)

unfoldable pub write_labels : (ℕ → ℕ) → ℕ → List Bytes → Option Bytes
write_labels tolower dst_len [] = some (0 ∷ [])
write_labels tolower dst_len (label ∷ stack) =
    let rest = write_labels tolower (dst_len - (length label + 1)) stack in
    if leb dst_len (length label + 1)
    then none
    else put_label (length label % 2 ^ 8) (map tolower label) rest

abbrev pub or_none : (List Bytes → Option Bytes) → Option (List Bytes) → Option Bytes
or_none write none = none
or_none write (some stack) = write stack

unfoldable pub revert_hostname : (ℕ → ℕ) → ℕ → Bytes → Option Bytes
unfolding split_labels write_labels
revert_hostname tolower dst_len src =
    or_none (λ stack. write_labels tolower dst_len stack) (split_labels (length src) [] src)

-- convert: whether the name is a wide one, and the name that the buffer of `dst_len` bytes gets.
unfoldable pub convert : (ℕ → ℕ) → ℕ → Bytes → Bool × Option Bytes
unfolding revert_hostname
convert tolower dst_len [] = (false, revert_hostname tolower dst_len [])
convert tolower dst_len (c ∷ cs) =
    if c == b'*'
    then (true, revert_hostname tolower dst_len cs)
    else (false, revert_hostname tolower dst_len (c ∷ cs))

-- The first loop of build_domain_name, on the `len` bytes of `src`, and `none` where a label is longer
-- than what is left. The length of the text is enough fuel.
unfoldable pub read_labels : ℕ → List Bytes → Bytes → Option (List Bytes)
read_labels fuel stack [] = some stack
read_labels zero stack (n ∷ cs) = none
read_labels (suc fuel) stack (n ∷ cs) =
    let next = read_labels fuel (take n cs ∷ stack) (drop n cs) in
    if n == 0 then some stack else if ltb (length cs) n then none else next

-- The second loop: a dot where something is in front of it.
abbrev pub dot : Bytes → Bytes
dot [] = []
dot (c ∷ cs) = c ∷ cs ++ b'.' ∷ []

unfoldable pub join_labels : Bytes → List Bytes → Bytes
join_labels buf [] = buf
join_labels buf (label ∷ stack) = join_labels (dot buf ++ label) stack

unfoldable pub build_domain_name : Bytes → Bool → Option Bytes
unfolding read_labels join_labels
build_domain_name src wide =
    or_none (λ stack. some (join_labels (if wide then b'*' ∷ [] else []) stack))
      (read_labels (length src) [] src)
