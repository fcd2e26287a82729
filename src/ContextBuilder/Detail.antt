-- ===== src/ContextBuilder/Detail.antt =====
-- The f-strings of src/evitriage/context/builder.py that say why context was left out.
use Prim.Native.String.{String, ◌++◌}
use evi_triage_ql.Prelude.{ℕ, List, [], ◌∷◌}
use evi_triage_ql.Evidence.{ColumnKind, utf16_code_units, unicode_code_points}

-- An f-string, as its parts one after another.
abbrev pub concat : List String → String
concat [] = ""
concat (s ∷ ss) = s ++ concat ss

abbrev column_kind_text : ColumnKind → String
column_kind_text utf16_code_units = "utf16CodeUnits"
column_kind_text unicode_code_points = "unicodeCodePoints"

-- `number` is `str` of a number.
module _ (number : ℕ → String) where
  abbrev pub lines_exceed : ℕ → ℕ → ℕ → String
  lines_exceed start_line end_line line_count = concat (
      "declared lines "
      ∷ number start_line
      ∷ "-"
      ∷ number end_line
      ∷ " exceed file line count "
      ∷ number line_count
      ∷ [])

  abbrev pub column_exceeds : String → ℕ → ℕ → ColumnKind → String
  column_exceeds which column line_length kind = concat (
      "declared "
      ∷ which
      ∷ " column "
      ∷ number column
      ∷ " exceeds line length "
      ∷ number line_length
      ∷ " "
      ∷ column_kind_text kind
      ∷ [])

  abbrev pub no_callable : ℕ → String
  no_callable line = concat (
      "no lexical Java callable enclosed line "
      ∷ number line
      ∷ "; a bounded fixed window was retained"
      ∷ [])

  abbrev pub metadata_exceeds : ℕ → ℕ → String
  metadata_exceeds estimate budget = concat (
      "Level 0 metadata alone estimates "
      ∷ number estimate
      ∷ " tokens, exceeding the "
      ∷ number budget
      ∷ "-token budget"
      ∷ [])

  abbrev pub slice_omitted : ℕ → ℕ → ℕ → ℕ → String
  slice_omitted start_line end_line estimated remaining = concat (
      "omitted lines "
      ∷ number start_line
      ∷ "-"
      ∷ number end_line
      ∷ "; estimated "
      ∷ number estimated
      ∷ " tokens with "
      ∷ number remaining
      ∷ " remaining"
      ∷ [])

  abbrev pub candidates_omitted : ℕ → ℕ → String
  candidates_omitted count bound = concat (
      "omitted "
      ∷ number count
      ∷ " same-file callee candidates beyond the "
      ∷ number bound
      ∷ "-slice bound"
      ∷ [])

  abbrev pub source_too_large : ℕ → ℕ → String
  source_too_large size maximum =
      concat ("source size " ∷ number size ∷ " exceeds " ∷ number maximum ∷ " bytes" ∷ [])

abbrev pub callee_omitted : String → String
callee_omitted symbol = concat (
    "omitted same-file callee " ∷ symbol ∷ " because it exceeds the resource context token budget"
    ∷ [])

abbrev pub overloaded : String → String
overloaded name = concat (
    "same-file callee candidate " ∷ name
    ∷ " is overloaded; no lexical candidate was selected as the invoked implementation" ∷ [])
