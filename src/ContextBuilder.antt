-- ===== src/ContextBuilder.antt =====
-- The context builder, src/evitriage/context/builder.py: its texts and records.
--
-- A source text is the list of its code points. A line of a document keeps its line end.
pub mod Strip
pub mod Blank
pub mod Lines
pub mod Callable
pub mod Enclosing
pub mod Detail
pub mod Reading
pub mod Selecting
pub mod Callees
pub mod Build
pub mod Placed
pub mod Gathering
pub mod Expansions
pub mod Budget
pub mod Accepted
pub mod Cache
mod Tests
use Prim.Native.Char.{code}
use evi_triage_ql.Prelude.{
  ℕ, String, Bool, true, false, ◌&&◌, ◌||◌, any, ltb, Option, none, some, List, [], ◌∷◌, ◌==◌,
  nat_eq,
}
use evi_triage_ql.Evidence.{Sha256}
use evi_triage_ql.Context.{ContextOmission, ContextOmissionCode}
use evi_triage_ql.Context as Context

abbrev pub Text : Type 0
Text = List ℕ

-- A literal's text.
abbrev pub codes : String → Text
codes String.[] = []
codes (String.◌∷◌ c s) = code c ∷ codes s

abbrev pub newline : ℕ
newline = 10

abbrev pub space : ℕ
space = 32

-- `_SourceDocument`
pub record SourceDocument : Type 0 where
  pub path : String
  pub text : Text
  pub lines : List Text
  pub artifact_sha256 : Sha256

-- `_Selection`
pub record Selection : Type 0 where
  pub start_line : ℕ
  pub end_line : ℕ
  pub selection : Context.Selection
  pub enclosing_symbol : Option String
  pub omission : Option ContextOmission

-- `_ReadFailure`
pub record ReadFailure : Type 0 where
  pub code : ContextOmissionCode
  pub detail : String

-- `text.startswith(prefix)`
unfoldable pub starts_with : Text → Text → Bool
starts_with [] text = true
starts_with (p ∷ ps) [] = false
starts_with (p ∷ ps) (c ∷ text) = (c == p) && starts_with ps text

-- `needle in text`
unfoldable pub contains_text : Text → Text → Bool
unfolding starts_with
contains_text needle [] = starts_with needle []
contains_text needle (c ∷ text) = starts_with needle (c ∷ text) || contains_text needle text

-- Equality of texts, and their order.
unfoldable pub text_beq : Text → Text → Bool
text_beq [] [] = true
text_beq [] (d ∷ ds) = false
text_beq (c ∷ cs) [] = false
text_beq (c ∷ cs) (d ∷ ds) = (c == d) && text_beq cs ds

unfoldable pub text_ltb : Text → Text → Bool
text_ltb cs [] = false
text_ltb [] (d ∷ ds) = true
text_ltb (c ∷ cs) (d ∷ ds) = ltb c d || ((c == d) && text_ltb cs ds)

-- What the code takes from the regular expressions and the character classes of Python.
pub record JavaPatterns : Type 0 where
  -- `str.isspace`, of a character
  pub is_space : ℕ → Bool
  -- `_CONTROL_HEADER_PATTERN.match`
  pub is_control_header : Text → Bool
  -- the names before a parenthesis in a header
  pub header_names : Text → List Text
  -- the search for `class`, `enum`, `interface` or `record`
  pub is_type_header : Text → Bool
  -- the names of the calls in a text, and the offsets of the calls of a name
  pub call_names : Text → List Text
  pub call_offsets : Text → Text → List ℕ
  -- `_GUARD_PATTERN.search` and `_SANITIZER_PATTERN.search`
  pub has_guard : Text → Bool
  pub has_sanitizer : Text → Bool
  -- the text with these code points
  pub text_of : Text → String

-- `_CONTROL_KEYWORDS`
abbrev pub control_keywords : List Text
control_keywords =
    codes "catch"
    ∷ codes "do"
    ∷ codes "else"
    ∷ codes "for"
    ∷ codes "if"
    ∷ codes "new"
    ∷ codes "switch"
    ∷ codes "synchronized"
    ∷ codes "try"
    ∷ codes "while"
    ∷ []

-- `name in _CONTROL_KEYWORDS`
unfoldable pub is_control_keyword : Text → Bool
unfolding any text_beq
is_control_keyword name = any (text_beq name) control_keywords
