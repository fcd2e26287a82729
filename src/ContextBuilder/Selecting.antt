-- ===== src/ContextBuilder/Selecting.antt =====
-- The first loop of `ContextBuilder._build_alert`, src/evitriage/context/builder.py: the references of
-- an alert, the checks of their coordinates, and the ranges that the policy selects.
use evi_triage_ql.Prelude.{
  ℕ, ◌+◌, ◌-◌, String, Bool, true, false, not, ◌&&◌, ◌||◌, Option, none, some, List, [], ◌∷◌, ◌++◌,
  map, ltb, leb, ◌==◌, nat_eq, string_eq, if◌then◌else◌, length, get_elem?, collect, Result, ok,
  err,
}
use evi_triage_ql.Evidence.{
  Sha256, SourceLocation, ColumnKind, utf16_code_units, unicode_code_points,
}
use evi_triage_ql.Alerts.{DataFlowPath, PathStep, NormalizedAlert}
use evi_triage_ql.Context.{
  ContextPolicyName, fixed_window, path_function_slice, ReferenceKind, primary, additional, related,
  source, sink, path_step, ContextReference, ContextOmission, coordinate_out_of_bounds,
  source_digest_mismatch, function_boundary_unresolved,
}
use evi_triage_ql.Context as Context
use evi_triage_ql.ContextBuilder.{Text, SourceDocument, Selection, JavaPatterns}
use evi_triage_ql.ContextBuilder.Callable.{Callable, enclosing_java_function}
use evi_triage_ql.ContextBuilder.Detail as Detail
use evi_triage_ql.ContextBuilder.Reading.{
  line_content, Source, document, failure, Files, Reader, read_source,
}

abbrev pub or_else : Option ℕ → ℕ → ℕ
or_else none n = n
or_else (some m) n = m

-- `location.end_line or location.start_line`: lines are positive.
abbrev pub last_line : SourceLocation → ℕ
last_line l = or_else l.end_line l.start_line

abbrev pub smaller : ℕ → ℕ → ℕ
smaller a b = if ltb b a then b else a

abbrev pub larger : ℕ → ℕ → ℕ
larger a b = if ltb a b then b else a

-- `FixedWindowPolicy.select`
unfoldable pub fixed_window_select : ℕ → SourceDocument → SourceLocation → Selection
fixed_window_select radius doc location = record {
  start_line = larger 1 (location.start_line - radius);
  end_line = smaller (length doc.lines) (last_line location + radius);
  selection = Context.Selection.fixed_window;
  enclosing_symbol = none;
  omission = none;
}

module _ (patterns : JavaPatterns) (number : ℕ → String) where
  -- What the path policy makes of the callable that it found, if it found one.
  unfoldable pub around : ℕ → SourceDocument → SourceLocation → Option Callable → Selection
  unfolding fixed_window_select
  around radius doc location (some f) = record {
    start_line = f.start_line;
    end_line = f.end_line;
    selection = Context.Selection.enclosing_function;
    enclosing_symbol = some (patterns.text_of f.symbol);
    omission = none;
  }
  around radius doc location none = record (fixed_window_select radius doc location) {
    omission = some (record {
      code = function_boundary_unresolved;
      path = doc.path;
      detail = Detail.no_callable number location.start_line;
    });
  }

  -- `PathFunctionSlicePolicy.select`
  unfoldable pub path_function_select : ℕ → SourceDocument → SourceLocation → Selection
  unfolding around enclosing_java_function
  path_function_select radius doc location =
      around radius doc location (enclosing_java_function patterns doc.text location.start_line)

  -- The policies that `_resolve_policy` makes, with their default radius.
  unfoldable pub select : ContextPolicyName → SourceDocument → SourceLocation → Selection
  unfolding fixed_window_select path_function_select
  select fixed_window = fixed_window_select 5
  select path_function_slice = path_function_select 5

-- The messages of `FeatureNotAvailableError`.
pub data PolicyError : Type 0 where
  adaptive_is_reserved unknown_policy : PolicyError

-- `_resolve_policy`
unfoldable pub resolve_policy : String → Result PolicyError ContextPolicyName
resolve_policy name =
    if name == "fixed_window"
    then ok fixed_window
    else if name == "path_function_slice"
    then ok path_function_slice
    else if name == "adaptive_slice"
    then err adaptive_is_reserved
    else err unknown_policy

abbrev pub reference_at : ReferenceKind → SourceLocation → ContextReference
reference_at kind location = record {
  kind = kind;
  location = location;
  path_ordinal = none;
  step_index = none;
}

-- The kind of a step of a path of `count` steps.
unfoldable pub step_reference_kind : ℕ → ℕ → ReferenceKind
step_reference_kind count index =
    if index == 0 then source else if index + 1 == count then sink else path_step

abbrev pub step_reference : DataFlowPath → PathStep → ContextReference
step_reference path step = record {
  kind = step_reference_kind (length path.steps) step.index;
  location = step.location;
  path_ordinal = some path.ordinal;
  step_index = some step.index;
}

abbrev pub path_references : DataFlowPath → List ContextReference
path_references path = map (step_reference path) path.steps

-- `_alert_references`
unfoldable pub alert_references :
    {Severity Json : Type 0} → NormalizedAlert Severity Json → List ContextReference
unfolding collect step_reference_kind
alert_references alert =
    reference_at primary alert.primary_location
      ∷ map (reference_at additional) alert.additional_locations
    ++ (map (reference_at related) alert.related_locations ++ collect path_references alert.paths)

-- `len(content.encode("utf-16-le")) // 2`
unfoldable pub utf16_length : Text → ℕ
utf16_length [] = 0
utf16_length (c ∷ text) = utf16_length text + (if leb 0x10000 c then 2 else 1)

-- `_column_length`
unfoldable pub column_length : Text → ColumnKind → ℕ
unfolding utf16_length
column_length content utf16_code_units = utf16_length content
column_length content unicode_code_points = length content

-- `lines[n - 1]`, of a positive number; the callers stay within the lines.
unfoldable pub line_numbered : List Text → ℕ → Text
line_numbered lines n = elim (get_elem? lines (n - 1)) [ none ↦ [] | some line ↦ line ]

module _ (number : ℕ → String) where
  -- The check of the end column.
  unfoldable pub end_column_error : SourceDocument → SourceLocation → Option ℕ → Option String
  unfolding line_numbered line_content column_length
  end_column_error doc location none = none
  end_column_error doc location (some column) =
      let end_length =
        column_length (line_content (line_numbered doc.lines (last_line location)))
          location.column_kind in
      if ltb (end_length + 1) column
      then some (Detail.column_exceeds number "end" column end_length location.column_kind)
      else none

  -- `_coordinate_error`
  unfoldable pub coordinate_error : SourceDocument → SourceLocation → Option String
  unfolding line_numbered line_content column_length end_column_error
  coordinate_error doc location =
      let line_count = length doc.lines in
      let start_length =
        column_length (line_content (line_numbered doc.lines location.start_line))
          location.column_kind in
      if ltb line_count location.start_line || ltb line_count (last_line location)
      then some (Detail.lines_exceed number location.start_line (last_line location) line_count)
      else if ltb (start_length + 1) location.start_column
      then some (
          Detail.column_exceeds number "start" location.start_column start_length
            location.column_kind)
      else end_column_error doc location location.end_column

-- A value of the dictionary `selected`; its key is read off it.
pub record Entry : Type 0 where
  pub document : SourceDocument
  pub selection : Selection
  pub references : List ContextReference

-- `omissions` and `selected`, in insertion order
pub record Gathered : Type 0 where
  pub omissions : List ContextOmission
  pub selected : List Entry

abbrev same_kind : Context.Selection → Context.Selection → Bool
same_kind Context.Selection.fixed_window Context.Selection.fixed_window = true
same_kind Context.Selection.enclosing_function Context.Selection.enclosing_function = true
same_kind _ _ = false

-- Equality of the keys `(path, start_line, end_line, selection)`.
abbrev pub same_range : SourceDocument → Selection → Entry → Bool
same_range doc selection entry =
    (entry.document.path == doc.path)
    && ((entry.selection.start_line == selection.start_line)
        && ((entry.selection.end_line == selection.end_line)
            && same_kind entry.selection.selection selection.selection))

-- A new entry, or the reference added to the entry that has the key.
unfoldable pub add_selection :
    SourceDocument → Selection → ContextReference → List Entry → List Entry
add_selection doc selection reference [] =
    record { document = doc; selection = selection; references = reference ∷ [] } ∷ []
add_selection doc selection reference (entry ∷ entries) =
    let rest = add_selection doc selection reference entries in
    if same_range doc selection entry
    then record entry { references = entry.references ++ reference ∷ [] } ∷ entries
    else entry ∷ rest

abbrev omit : ContextOmission → Gathered → Gathered
omit o g = record g { omissions = g.omissions ++ o ∷ [] }

abbrev option_list : {A : Type 0} → Option A → List A
option_list none = []
option_list (some a) = a ∷ []

-- The digest is known and another than that of the file.
abbrev pub is_stale : Option Sha256 → Sha256 → Bool
is_stale none observed = false
is_stale (some known) observed = not (known == observed)

module _ {S : Type 0} (patterns : JavaPatterns) (files : Files S) (maximum_source_bytes : ℕ)
    (policy : ContextPolicyName) where
  -- A document whose coordinates are right.
  unfoldable pub select_in : SourceDocument → ContextReference → Gathered → Gathered
  unfolding select add_selection
  select_in doc reference g =
      let selection = select patterns files.number policy doc reference.location in
      if is_stale reference.location.artifact_sha256 doc.artifact_sha256
      then omit
          (record {
            code = source_digest_mismatch;
            path = reference.location.path;
            detail = "normalized source digest no longer matches the snapshot file";
          })
          g
      else record {
        omissions = g.omissions ++ option_list selection.omission;
        selected = add_selection doc selection reference g.selected;
      }

  -- One reference, in the source that was read for it.
  unfoldable pub gather_from : ContextReference → Source → Gathered → Gathered
  unfolding coordinate_error select_in
  gather_from reference (failure f) g =
      omit (record { code = f.code; path = reference.location.path; detail = f.detail }) g
  gather_from reference (document doc) g =
      elim (coordinate_error files.number doc reference.location) [
        | some detail ↦
            omit
              (record {
                code = coordinate_out_of_bounds;
                path = reference.location.path;
                detail = detail;
              })
              g
        | none ↦ select_in doc reference g
      ]

  -- The loop over the references.
  unfoldable pub gather : List ContextReference → Gathered → Reader S → Gathered × Reader S
  unfolding read_source gather_from
  gather [] g reader = (g, reader)
  gather (reference ∷ references) g reader =
      let (found, later) = read_source files maximum_source_bytes reference.location.path reader in
      gather references (gather_from reference found g) later
