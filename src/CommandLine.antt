-- ===== src/CommandLine.antt =====
-- src/utils.cpp: explode_cmd, which cuts a command line into its items. The code works in the buffer of
-- the line; an item is the text that stands in the buffer from the item's pointer on when the
-- function returns.
pub mod Quoted
pub mod RoundTrip
mod Tests
use kangle.Prelude.{
  ℕ, zero, suc, ◌+◌, Bool, true, false, ◌||◌, Option, none, some, List, [], ◌∷◌, ◌++◌, ◌==◌,
  if◌then◌else◌, length, drop, Bytes, is_space,
}
use kangle.Prelude.Number.{drop_spaces}

-- The loop over an item in quotes: the bytes that are written, and the text behind the closing
-- quote, if there is one.
unfoldable pub read_quoted : ℕ → Bool → Bytes → Bytes × Option Bytes
read_quoted start slash [] = ([], none)
read_quoted start false (c ∷ cs) =
    let (plain, rest) = read_quoted start false cs in
    let slashed = read_quoted start true cs in
    if c == start then ([], some cs) else if c == b'\\' then slashed else (c ∷ plain, rest)
read_quoted start true (c ∷ cs) =
    let (plain, rest) = read_quoted start false cs in
    if c == b'\\' || c == start then (c ∷ plain, rest) else (b'\\' ∷ c ∷ plain, rest)

-- An item without quotes ends at a space.
unfoldable pub read_word : Bytes → Bytes × Option Bytes
read_word [] = ([], none)
read_word (c ∷ cs) =
    let (word, rest) = read_word cs in if is_space c then ([], some cs) else (c ∷ word, rest)

-- Without a closing quote nothing ends the item: behind the written bytes stand those of the line.
abbrev pub item_of : Bytes → Bytes × Option Bytes → Bytes
item_of text (written, some rest) = written
item_of text (written, none) = written ++ drop (length written) text

abbrev pub is_quote : ℕ → Bool
is_quote c = c == b'\'' || c == b'"'

abbrev pub more : (Bytes → List Bytes) → Option Bytes → List Bytes
more next none = []
more next (some rest) = next rest

-- One round of the outer loop, on a text that begins with no space; `next` does the other rounds.
abbrev pub explode_item : (Bytes → List Bytes) → Bytes → List Bytes
unfolding read_quoted read_word
explode_item next [] = []
explode_item next (c ∷ cs) =
    let quoted = read_quoted c false cs in
    let word = read_word (c ∷ cs) in
    if is_quote c then item_of cs quoted ∷ more next quoted.1 else word.0 ∷ more next word.1

-- The outer loop. Each round takes at least one byte, so the line's length is enough fuel.
unfoldable pub explode_rounds : ℕ → Bytes → List Bytes
unfolding read_quoted read_word drop_spaces
explode_rounds zero text = []
explode_rounds (suc fuel) text = explode_item (λ rest. explode_rounds fuel rest) (drop_spaces text)

unfoldable pub explode_cmd : Bytes → List Bytes
unfolding explode_rounds read_quoted read_word drop_spaces
explode_cmd buf = explode_rounds (length buf) buf
