-- ===== src/ContextBuilder/Strip.antt =====
-- `_strip_java_comments_and_literals` of src/evitriage/context/builder.py.
use evi_triage_ql.Prelude.{ℕ, Bool, ◌&&◌, [], ◌∷◌, ◌==◌, nat_eq, if◌then◌else◌}
use evi_triage_ql.ContextBuilder.{Text, newline, space, starts_with}

-- The values of `state`.
pub data State : Type 0 where
  code line_comment block_comment text_block string character : State

-- What a round of the loop does: it writes `first` over the character at the index and `pending`
-- over those after it, moves past them all, and goes on in `next`.
pub record Round : Type 0 where
  pub first : ℕ
  pub pending : Text
  pub next : State

abbrev blank : Text → State → Round
blank pending next = record { first = space; pending = pending; next = next }

abbrev quote_mark : ℕ
quote_mark = 34

abbrev apostrophe : ℕ
apostrophe = 39

abbrev slash : ℕ
slash = 47

abbrev star : ℕ
star = 42

abbrev backslash : ℕ
backslash = 92

abbrev pub starts_block : ℕ → Text → Bool
starts_block c rest = (c == quote_mark) && starts_with (quote_mark ∷ quote_mark ∷ []) rest

-- The branch `state == "code"`.
unfoldable pub code_round : ℕ → Text → Round
unfolding starts_with
code_round c rest =
    if (c == slash) && starts_with (slash ∷ []) rest
    then blank (space ∷ []) line_comment
    else if (c == slash) && starts_with (star ∷ []) rest
    then blank (space ∷ []) block_comment
    else if starts_block c rest
    then blank (space ∷ space ∷ []) text_block
    else if c == quote_mark
    then blank [] string
    else if c == apostrophe
    then blank [] character
    else record { first = c; pending = []; next = code }

-- A newline outside of code ends a line comment only.
abbrev pub after_newline : State → State
after_newline line_comment = code
after_newline s = s

-- The character after a backslash.
abbrev pub escaped : Text → Text
escaped [] = []
escaped (d ∷ rest) = (if d == newline then newline else space) ∷ []

-- The branches for a character other than a newline, outside of code.
unfoldable pub blank_round : State → ℕ → Text → Round
unfolding starts_with
blank_round code c rest = code_round c rest
blank_round line_comment c rest = blank [] line_comment
blank_round block_comment c rest =
    if (c == star) && starts_with (slash ∷ []) rest
    then blank (space ∷ []) code
    else blank [] block_comment
blank_round text_block c rest =
    if starts_block c rest then blank (space ∷ space ∷ []) code else blank [] text_block
blank_round string c rest =
    if c == backslash
    then blank (escaped rest) string
    else if c == quote_mark
    then blank [] code
    else blank [] string
blank_round character c rest =
    if c == backslash
    then blank (escaped rest) character
    else if c == apostrophe
    then blank [] code
    else blank [] character

unfoldable pub round : State → ℕ → Text → Round
unfolding code_round blank_round
round code c rest = code_round c rest
round s c rest =
    if c == newline
    then record { first = newline; pending = []; next = after_newline s }
    else blank_round s c rest

-- The loop: `pending` is what the last round has written from here on.
unfoldable pub strip_from : State → Text → Text → Text
strip_from s pending [] = []
strip_from s (w ∷ pending) (c ∷ rest) = w ∷ strip_from s pending rest
strip_from s [] (c ∷ rest) = let r = round s c rest in r.first ∷ strip_from r.next r.pending rest

unfoldable pub strip_java_comments_and_literals : Text → Text
unfolding strip_from round
strip_java_comments_and_literals text = strip_from code [] text
