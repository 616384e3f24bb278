-- ===== src/CommandLine/Tests.antt =====
-- Runs of explode_cmd, and the theorem about it at a concrete line.
use kangle.Prelude.{List, [], ◌∷◌, ◌≡◌, refl, codes}
use kangle.CommandLine.{explode_cmd, read_quoted, read_word, explode_rounds}
use kangle.CommandLine.RoundTrip.{Item, in_quotes, as_it_is, texts, line_of, explode_cmd-line_of}
use kangle.Prelude.Number.{drop_spaces}

abbrev items : List Item
items = in_quotes (codes "a \"b\" \\") ∷ as_it_is b'-' (codes "x\"") ∷ in_quotes [] ∷ []

unquoted_run :
    explode_cmd (codes " php -c  'my \\' ini' ") ≡ codes "php" ∷ codes "-c" ∷ codes "my ' ini" ∷ []
unfolding explode_cmd explode_rounds read_quoted read_word drop_spaces
unquoted_run = refl

-- An item whose quote is not closed keeps the bytes behind it as they stand in the buffer.
open_run : explode_cmd (codes "'a\\'b") ≡ codes "a'bb" ∷ []
unfolding explode_cmd explode_rounds read_quoted read_word drop_spaces
open_run = refl

explode_cmd-line_of_example : explode_cmd (line_of items) ≡ texts items
explode_cmd-line_of_example = explode_cmd-line_of items (refl, (refl, (refl, (refl, tt))), tt)
