-- ===== src/CommandLine/RoundTrip.antt =====
-- src/utils.cpp: explode_cmd reads back the items of a line, with quotes and without.
use kangle.Prelude.{
  ℕ, zero, suc, ◌≤◌, false, Option, none, some, List, [], ◌∷◌, ◌++◌, ◌≡◌, refl, ap, sym, ◌∙◌, arith,
  length, length-append, Bytes, is_space,
}
use kangle.Prelude.Number.{drop_spaces}
use kangle.CommandLine.{read_quoted, read_word, is_quote, explode_rounds, explode_cmd, more}
use kangle.CommandLine.Quoted.{quoted, quoted-read}

-- An item, in double quotes or as it is.
pub data Item : Type 0 where
  in_quotes : Bytes → Item
  as_it_is : ℕ → Bytes → Item

abbrev pub text_of : Item → Bytes
text_of (in_quotes text) = text
text_of (as_it_is c cs) = c ∷ cs

abbrev pub written : Item → Bytes
written (in_quotes text) = quoted text
written (as_it_is c cs) = c ∷ cs

abbrev pub NoSpace : Bytes → Type 0
NoSpace [] = Unit
NoSpace (c ∷ cs) = (is_space c ≡ false) × NoSpace cs

-- What an item without quotes must be: not empty, without a space, and no quote in front.
abbrev pub AllPlain : List Item → Type 0
AllPlain [] = Unit
AllPlain (in_quotes text ∷ items) = AllPlain items
AllPlain (as_it_is c cs ∷ items) = (is_quote c ≡ false) × NoSpace (c ∷ cs) × AllPlain items

abbrev pub texts : List Item → List Bytes
texts [] = []
texts (item ∷ items) = text_of item ∷ texts items

-- The items of a line, each behind a space.
pub line_of : List Item → Bytes
line_of [] = []
line_of (item ∷ items) = b' ' ∷ (written item ++ line_of items)

-- The text behind a word: a word takes the space behind it.
abbrev pub behind : Bytes → Option Bytes
behind [] = none
behind (c ∷ cs) = some cs

read_word-end : (w : Bytes) → NoSpace w → read_word (w ++ []) ≡ (w, none)
unfolding read_word
read_word-end [] h = refl
read_word-end (c ∷ cs) h = rw (h.0, read_word-end cs h.1)

read_word-space : (w rest : Bytes) → NoSpace w → read_word (w ++ b' ' ∷ rest) ≡ (w, some rest)
unfolding read_word
read_word-space [] rest h = refl
read_word-space (c ∷ cs) rest h = rw (h.0, read_word-space cs rest h.1)

-- A space in front of the text changes nothing.
rounds-space :
    (fuel : ℕ) (text : Bytes) → explode_rounds fuel (b' ' ∷ text) ≡ explode_rounds fuel text
unfolding explode_rounds drop_spaces
rounds-space zero text = refl
rounds-space (suc fuel) text = refl

read_word-line :
    (w : Bytes) (items : List Item)
    → NoSpace w
    → read_word (w ++ line_of items) ≡ (w, behind (line_of items))
unfolding line_of
read_word-line w [] h = read_word-end w h
read_word-line w (item ∷ items) h = read_word-space w (written item ++ line_of items) h

more-behind :
    (fuel : ℕ) (items : List Item)
    → more (λ rest. explode_rounds fuel rest) (behind (line_of items))
      ≡ explode_rounds fuel (line_of items)
unfolding line_of explode_rounds drop_spaces
more-behind zero [] = refl
more-behind (suc fuel) [] = refl
more-behind fuel (item ∷ items) = sym (rounds-space fuel (written item ++ line_of items))

plain_step :
    (fuel c : ℕ) (cs : Bytes) (items : List Item)
    → is_quote c ≡ false
    → NoSpace (c ∷ cs)
    → explode_rounds (suc fuel) (b' ' ∷ (c ∷ cs ++ line_of items))
      ≡ (c ∷ cs) ∷ explode_rounds fuel (line_of items)
unfolding explode_rounds drop_spaces
plain_step fuel c cs items no_quote h =
    rw (h.0, no_quote, read_word-line (c ∷ cs) items h, more-behind fuel items)

explode_rounds-line_of :
    (fuel : ℕ) (items : List Item)
    → AllPlain items
    → length items ≤ fuel
    → explode_rounds fuel (line_of items) ≡ texts items
unfolding explode_rounds line_of drop_spaces read_quoted
explode_rounds-line_of zero [] plain small = refl
explode_rounds-line_of zero (item ∷ items) plain small = absurd (omega arith)
explode_rounds-line_of (suc fuel) [] plain small = refl
explode_rounds-line_of (suc fuel) (in_quotes text ∷ items) plain small =
    let ih = explode_rounds-line_of fuel items plain (omega arith) in
    rw (quoted-read text (line_of items), ih)
explode_rounds-line_of (suc fuel) (as_it_is c cs ∷ items) plain small =
    let ih = explode_rounds-line_of fuel items plain.2 (omega arith) in
    plain_step fuel c cs items plain.0 plain.1 ∙ ap (λ (rest : List Bytes). (c ∷ cs) ∷ rest) ih

length-line_of : (items : List Item) → length items ≤ length (line_of items)
unfolding line_of
length-line_of [] = omega arith
length-line_of (item ∷ items) =
    let ih = length-line_of items in
    let tail = length-append (written item) (line_of items) in omega arith

-- A line of items, each behind a space, is cut by explode_cmd into exactly the texts of these items:
-- a text in double quotes, with a backslash in front of each of its quotes and backslashes, may be
-- empty and have spaces; a text without quotes is not empty, has no space and no quote in front.
pub explode_cmd-line_of :
    (items : List Item) → AllPlain items → explode_cmd (line_of items) ≡ texts items
unfolding explode_cmd
explode_cmd-line_of items plain =
    explode_rounds-line_of (length (line_of items)) items plain (length-line_of items)
