-- ===== src/ContextBuilder/Callees.antt =====
-- `_resource_same_file_callees` and `_lexical_candidates` of src/evitriage/context/builder.py.
use evi_triage_ql.Prelude.{
  ℕ, ◌+◌, ◌-◌, String, Bool, true, not, ◌&&◌, Option, none, some, List, [], ◌∷◌, ◌++◌, map, filter,
  any, ltb, ◌==◌, nat_eq, string_eq, if◌then◌else◌, is_empty, length, get_elem?, take,
}
use evi_triage_ql.Evidence.{unicode_code_points}
use evi_triage_ql.Context.{
  callee, ContextReference, ContextOmission, function_boundary_unresolved, resource_context_bound,
  SourceSlice, CandidateKind, guard, sanitizer, ContextCandidate,
}
use evi_triage_ql.Context as Context
use evi_triage_ql.ContextBuilder.{
  Text, codes, text_beq, text_ltb, SourceDocument, Selection, JavaPatterns, is_control_keyword,
}
use evi_triage_ql.ContextBuilder.Strip.{strip_java_comments_and_literals}
use evi_triage_ql.ContextBuilder.Lines.{newlines_before}
use evi_triage_ql.ContextBuilder.Callable.{Callable, line_at, enclosing_java_function}
use evi_triage_ql.ContextBuilder.Detail as Detail
use evi_triage_ql.ContextBuilder.Reading.{
  split_lines, without_end, left_strip, right_strip, line_content,
}
use evi_triage_ql.ContextBuilder.Selecting.{line_numbered}

-- A name put into a sorted set of names.
unfoldable pub insert_name : Text → List Text → List Text
unfolding text_beq text_ltb
insert_name name [] = name ∷ []
insert_name name (m ∷ ms) =
    let later = insert_name name ms in
    if text_beq name m then m ∷ ms else if text_ltb name m then name ∷ m ∷ ms else m ∷ later

-- `sorted(set(names))`
unfoldable pub sorted_names : List Text → List Text
unfolding insert_name
sorted_names [] = []
sorted_names (n ∷ ns) = insert_name n (sorted_names ns)

-- `_MAXIMUM_RESOURCE_CALLEE_SLICES`
abbrev pub maximum_callee_slices : ℕ
maximum_callee_slices = 8

-- The same callable, of one name.
abbrev pub same_lines : Callable → Callable → Bool
same_lines f g = (f.start_line == g.start_line) && (f.end_line == g.end_line)

abbrev Expansion : Type 0
Expansion = Selection × ContextReference

module _ (patterns : JavaPatterns) (number : ℕ → String) (doc : SourceDocument) where
  -- The definition that an occurrence of a name stands in, if it is one of that name.
  unfoldable pub definition_at : Text → ℕ → Option Callable
  unfolding line_at enclosing_java_function text_beq
  definition_at name offset =
      elim (enclosing_java_function patterns doc.text
        (line_at (strip_java_comments_and_literals doc.text) offset)) [
          | none ↦ none
          | some f ↦ if text_beq f.symbol name then some f else none
        ]

  abbrev pub add_definition : Option Callable → List Callable → List Callable
  add_definition none found = found
  add_definition (some f) found = if any (same_lines f) found then found else f ∷ found

  -- `definitions`, the set of the callables of a name
  unfoldable pub definitions : Text → List ℕ → List Callable
  unfolding definition_at any
  definitions name [] = []
  definitions name (offset ∷ offsets) =
      add_definition (definition_at name offset) (definitions name offsets)

  -- A name that the slice calls and is not its own.
  unfoldable pub is_callee_name : SourceSlice → Text → Bool
  unfolding is_control_keyword
  is_callee_name slice name = not (is_control_keyword name) && elim slice.enclosing_symbol [
    | none ↦ true
    | some symbol ↦ not (patterns.text_of name == symbol)
  ]

  -- The selection of a definition, with the reference from the line of the call.
  unfoldable pub expansion_of : SourceSlice → Callable → ℕ → Expansion
  unfolding newlines_before line_numbered line_content
  expansion_of slice f call =
      let sanitized_slice = strip_java_comments_and_literals (codes slice.content) in
      let call_line = slice.start_line + newlines_before call sanitized_slice in
      (
        record {
          start_line = f.start_line;
          end_line = f.end_line;
          selection = Context.Selection.enclosing_function;
          enclosing_symbol = some (patterns.text_of f.symbol);
          omission = none;
        },
        record {
          kind = callee;
          location = record {
            path = doc.path;
            column_kind = unicode_code_points;
            start_line = call_line;
            start_column = 1;
            end_line = some call_line;
            end_column = some (length (line_content (line_numbered doc.lines call_line)) + 1);
            artifact_sha256 = some doc.artifact_sha256;
            snippet = none;
          };
          path_ordinal = none;
          step_index = none;
        },
      )

  -- The expansion of a name whose only definition is given, and its first call in the slice.
  unfoldable pub expansions_of : SourceSlice → List Callable → List ℕ → List Expansion
  unfolding expansion_of
  expansions_of slice (f ∷ []) (call ∷ calls) = expansion_of slice f call ∷ []
  expansions_of slice _ _ = []

  -- The loop over the names.
  unfoldable pub callee_expansions : SourceSlice → List Text → List Expansion × List ContextOmission
  unfolding definitions expansions_of
  callee_expansions slice [] = ([], [])
  callee_expansions slice (name ∷ names) =
      let sanitized_slice = strip_java_comments_and_literals (codes slice.content) in
      let sanitized_document = strip_java_comments_and_literals doc.text in
      let found = definitions name (patterns.call_offsets name sanitized_document) in
      let (expansions, omissions) = callee_expansions slice names in
      if ltb 1 (length found)
      then (
        expansions,
        record {
          code = function_boundary_unresolved;
          path = doc.path;
          detail = Detail.overloaded (patterns.text_of name);
        }
            ∷ omissions,
      )
      else (
        expansions_of slice found (patterns.call_offsets name sanitized_slice) ++ expansions,
        omissions,
      )

  -- The bound on the expansions.
  unfoldable pub bound_expansions :
      List Expansion × List ContextOmission → List Expansion × List ContextOmission
  bound_expansions (expansions, omissions) =
      if ltb maximum_callee_slices (length expansions)
      then (
        take maximum_callee_slices expansions,
        omissions
            ++ record {
              code = resource_context_bound;
              path = doc.path;
              detail =
                  Detail.candidates_omitted number (length expansions - maximum_callee_slices)
                    maximum_callee_slices;
            }
              ∷ [],
      )
      else (expansions, omissions)

  -- `sorted(call_names)`
  unfoldable pub callee_names : SourceSlice → List Text
  unfolding sorted_names filter is_callee_name
  callee_names slice = sorted_names (
      filter (is_callee_name slice)
        (patterns.call_names (strip_java_comments_and_literals (codes slice.content))))

  -- `_resource_same_file_callees`
  unfoldable pub resource_same_file_callees : SourceSlice → List Expansion × List ContextOmission
  unfolding callee_expansions bound_expansions callee_names
  resource_same_file_callees slice = bound_expansions (callee_expansions slice (callee_names slice))

-- `guards` and `sanitizers`, with the identities observed.
pub record Candidates : Type 0 where
  pub guards : List ContextCandidate
  pub sanitizers : List ContextCandidate
  pub observed : List ContextCandidate

abbrev kind_code : CandidateKind → ℕ
kind_code guard = 0
kind_code sanitizer = 1

-- Equality of the identities `(path, line, kind)`.
abbrev pub same_candidate : ContextCandidate → ContextCandidate → Bool
same_candidate c d =
    (c.location.path == d.location.path)
    && ((c.location.start_line == d.location.start_line) && (kind_code c.kind == kind_code d.kind))

abbrev put_candidate : ContextCandidate → Candidates → CandidateKind → Candidates
put_candidate c state guard = record state {
  guards = state.guards ++ c ∷ [];
  observed = c ∷ state.observed;
}
put_candidate c state sanitizer = record state {
  sanitizers = state.sanitizers ++ c ∷ [];
  observed = c ∷ state.observed;
}

module _ (patterns : JavaPatterns) where
  -- `line.strip()`
  unfoldable pub strip : Text → Text
  unfolding left_strip right_strip
  strip line = right_strip patterns.is_space (left_strip patterns.is_space line)

  abbrev candidate_of : SourceSlice → ℕ → Text → CandidateKind → ContextCandidate
  candidate_of slice offset line kind = record {
    kind = kind;
    location = record {
      path = slice.path;
      column_kind = unicode_code_points;
      start_line = slice.start_line + offset;
      start_column = 1;
      end_line = some (slice.start_line + offset);
      end_column = some (length (line_content line) + 1);
      artifact_sha256 = some slice.artifact_sha256;
      snippet = none;
    };
    excerpt = patterns.text_of (strip line);
  }

  abbrev matches : CandidateKind → Text → Bool
  matches guard = patterns.has_guard
  matches sanitizer = patterns.has_sanitizer

  -- One pattern, on one line.
  unfoldable pub add_candidate :
      SourceSlice → ℕ → Text → Text → CandidateKind → Candidates → Candidates
  unfolding strip line_content any
  add_candidate slice offset sanitized line kind state =
      let c = candidate_of slice offset line kind in
      if matches kind sanitized && not (any (same_candidate c) state.observed)
      then put_candidate c state kind
      else state

  -- The lines of a slice, each with its line in the content; a line that the content does not have is
  -- passed over, and so is an empty one.
  unfoldable pub scan_lines : SourceSlice → List Text → ℕ → List Text → Candidates → Candidates
  unfolding add_candidate
  scan_lines slice originals offset [] state = state
  scan_lines slice originals offset (sanitized ∷ lines) state =
      scan_lines slice originals (offset + 1) lines (elim (get_elem? originals offset) [
        | none ↦ state
        | some line ↦
            if is_empty (strip line)
            then state
            else add_candidate slice offset sanitized line sanitizer
                (add_candidate slice offset sanitized line guard state)
      ])

  unfoldable pub scan_slices : List SourceSlice → Candidates → Candidates
  unfolding scan_lines split_lines without_end
  scan_slices [] state = state
  scan_slices (slice ∷ slices) state =
      let content = codes slice.content in
      let sanitized = strip_java_comments_and_literals content in
      scan_slices slices (
        scan_lines slice (map without_end (split_lines [] content)) 0
          (map without_end (split_lines [] sanitized)) state)

  -- `_lexical_candidates`
  unfoldable pub lexical_candidates :
      List SourceSlice → List ContextCandidate × List ContextCandidate
  unfolding scan_slices
  lexical_candidates slices =
      let found = scan_slices slices (record { guards = []; sanitizers = []; observed = [] }) in
      (found.guards, found.sanitizers)
