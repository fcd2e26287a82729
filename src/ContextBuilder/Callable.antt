-- ===== src/ContextBuilder/Callable.antt =====
-- `_enclosing_java_function` of src/evitriage/context/builder.py.
use evi_triage_ql.Prelude.{
  ℕ, zero, suc, ◌+◌, ◌-◌, Bool, ◌&&◌, ◌||◌, Option, none, some, List, [], ◌∷◌, ◌++◌, ltb, leb, ◌==◌,
  nat_eq, if◌then◌else◌, is_empty, take, drop,
}
use evi_triage_ql.ContextBuilder.{
  Text, space, codes, contains_text, text_ltb, JavaPatterns, is_control_keyword,
}
use evi_triage_ql.ContextBuilder.Strip.{strip_java_comments_and_literals}
use evi_triage_ql.ContextBuilder.Lines.{line_number}

-- A callable: its first and last line, and its name.
pub record Callable : Type 0 where
  pub start_line : ℕ
  pub end_line : ℕ
  pub symbol : Text

abbrev max : ℕ → ℕ → ℕ
max a b = if ltb a b then b else a

-- `text.rfind(c, 0, end) + 1`: what follows the last `c` before `end`, or the start of the text.
unfoldable pub after_last : ℕ → ℕ → ℕ → Text → ℕ → ℕ
after_last c k found text zero = found
after_last c k found [] (suc end) = found
after_last c k found (d ∷ text) (suc end) =
    after_last c (k + 1) (if d == c then k + 1 else found) text end

abbrev semicolon : ℕ
semicolon = 59

abbrev pub opening_brace : ℕ
opening_brace = 123

abbrev pub closing_brace : ℕ
closing_brace = 125

-- `delimiter + 1`
unfoldable pub after_delimiter : Text → ℕ → ℕ
unfolding after_last
after_delimiter text opening =
    max (after_last semicolon 0 0 text opening)
      (max (after_last opening_brace 0 0 text opening) (after_last closing_brace 0 0 text opening))

-- `line_number`; it always gives a number (ContextBuilder/Lines), so the zero is never used.
unfoldable pub line_at : Text → ℕ → ℕ
unfolding line_number
line_at text offset = elim (line_number text offset) [ none ↦ 0 | some n ↦ n ]

-- The smaller by length, first line and name.
unfoldable pub is_smaller : Callable → Callable → Bool
unfolding text_ltb
is_smaller f g =
    let width = f.end_line - f.start_line in
    let other = g.end_line - g.start_line in
    ltb width other
    || ((width == other)
        && (ltb f.start_line g.start_line
            || ((f.start_line == g.start_line) && text_ltb f.symbol g.symbol)))

-- `min(candidates, key=...)`, the first of the smallest
unfoldable pub smallest : Callable → List Callable → Callable
unfolding is_smaller
smallest best [] = best
smallest best (f ∷ fs) = smallest (if is_smaller f best then f else best) fs

unfoldable pub smallest_of : List Callable → Option Callable
unfolding smallest
smallest_of [] = none
smallest_of (f ∷ fs) = some (smallest f fs)

-- The callable of a name from its header to its closing brace, where it spans the line.
unfoldable pub spanning : Text → ℕ → ℕ → ℕ → Option Text → List Callable
unfolding line_at
spanning sanitized target_line header_start offset none = []
spanning sanitized target_line header_start offset (some symbol) =
    let start_line = line_at sanitized header_start in
    let end_line = line_at sanitized offset in
    if leb start_line target_line && leb target_line end_line
    then record { start_line = start_line; end_line = end_line; symbol = symbol } ∷ []
    else []

-- `" ".join(words)`
unfoldable pub join_words : List Text → Text
join_words [] = []
join_words (w ∷ []) = w
join_words (w ∷ v ∷ ws) = w ++ space ∷ join_words (v ∷ ws)

-- The last of the names before a parenthesis.
unfoldable pub last_name : List Text → Option Text
last_name [] = none
last_name (n ∷ []) = some n
last_name (n ∷ m ∷ ns) = last_name (m ∷ ns)

module _ (patterns : JavaPatterns) where
  -- How many spaces a text starts with.
  unfoldable pub leading_spaces : Text → ℕ
  leading_spaces [] = 0
  leading_spaces (c ∷ text) =
      let more = leading_spaces text in if patterns.is_space c then suc more else 0

  -- `text.split()`, with the word that is being read
  unfoldable pub words : Text → Text → List Text
  words word [] = if is_empty word then [] else word ∷ []
  words word (c ∷ text) =
      let ends = words [] text in
      let goes_on = words (word ++ c ∷ []) text in
      if patterns.is_space c then (if is_empty word then ends else word ∷ ends) else goes_on

  unfoldable pub unless_excluded : Text → Option Text → Option Text
  unfolding is_control_keyword contains_text
  unless_excluded header none = none
  unless_excluded header (some symbol) =
      if is_control_keyword symbol || contains_text (codes "->") header
      then none
      else if patterns.is_type_header header
      then none
      else some symbol

  -- The name of the callable that a header declares, if it declares one.
  unfoldable pub declared : Text → Option Text
  unfolding last_name unless_excluded
  declared header =
      if patterns.is_control_header header
      then none
      else unless_excluded header (last_name (patterns.header_names header))

  -- A closing brace at `offset` whose opening one stands at `opening`: the candidate, if it is one.
  unfoldable pub candidate : Text → ℕ → ℕ → ℕ → List Callable
  unfolding after_delimiter leading_spaces words join_words declared spanning
  candidate sanitized target_line opening offset =
      let begin = after_delimiter sanitized opening in
      let declaration = drop begin (take opening sanitized) in
      let spaces = leading_spaces declaration in
      spanning sanitized target_line (begin + spaces) offset
        (declared (join_words (words [] (drop spaces declaration))))

  -- The loop over the characters, with the offsets of the open braces.
  unfoldable pub candidates : Text → ℕ → List ℕ → ℕ → Text → List Callable
  unfolding candidate
  candidates sanitized target_line stack offset [] = []
  candidates sanitized target_line [] offset (c ∷ rest) =
      candidates sanitized target_line (if c == opening_brace then offset ∷ [] else []) (offset + 1)
        rest
  candidates sanitized target_line (opening ∷ below) offset (c ∷ rest) =
      let opened = candidates sanitized target_line (offset ∷ opening ∷ below) (offset + 1) rest in
      let closed = candidates sanitized target_line below (offset + 1) rest in
      let passed = candidates sanitized target_line (opening ∷ below) (offset + 1) rest in
      if c == opening_brace
      then opened
      else if c == closing_brace
      then candidate sanitized target_line opening offset ++ closed
      else passed

  -- `_enclosing_java_function`
  unfoldable pub enclosing_java_function : Text → ℕ → Option Callable
  unfolding candidates smallest_of
  enclosing_java_function text target_line =
      let sanitized = strip_java_comments_and_literals text in
      smallest_of (candidates sanitized target_line [] 0 sanitized)
