-- ===== src/Builder/Walk.antt =====
-- The items of `build_evidence_registry`, src/evitriage/evidence/registry.py.
use evi_triage_ql.Prelude.{
  ℕ, ◌+◌, String, Bool, true, false, not, Option, none, some, List, [], ◌∷◌, nat_eq, string_eq,
  Result, ok, err, ◌>>=◌, length,
}
use Prim.Native.String.{◌++◌ as concat}
use evi_triage_ql.Evidence.{
  Sha256, EvidenceId, EvidenceType, supports_tp, neutral, low, medium, high, EvidenceOrigin,
  ColumnKind, SourceLocation, EvidenceContent, EvidenceItem,
}
use evi_triage_ql.Resource.{classify_query_family}
use evi_triage_ql.Alerts.{DataFlowPath, PathStep, NormalizedAlert, pair_eq}
use evi_triage_ql.Context.{SourceSlice, ContextCandidate, ContextOmission}
use evi_triage_ql.Supplement.{evidence_item}
use evi_triage_ql.Builder.{
  ResourceObservation, BuildError, no_step, is_legacy, candidate_type, kind_text, selection_text,
  code_text, last_covering,
}

-- What the builder takes from the standard library.
pub record Builders : Type 0 where
  pub digest : EvidenceContent → EvidenceId
  pub show : ℕ → String
  pub observe : String → ℕ → List ResourceObservation
  pub length_of : String → ℕ

-- `path.source`
abbrev pub first_step : List PathStep → Result BuildError PathStep
first_step [] = err no_step
first_step (source ∷ steps) = ok source

module _ {Severity Json : Type 0} (builders : Builders)
    (alert : NormalizedAlert Severity Json) where
  abbrev pub is_resource : Bool
  is_resource = not (is_legacy (classify_query_family alert.rule.rule_id))

  -- The anchor of a line in a slice.
  abbrev pub anchor_at : SourceSlice → ℕ → String
  anchor_at slice line = concat slice.slice_id (concat "-L" (builders.show line))

  -- `location_anchors.get((path, line))`
  unfoldable pub anchor : List SourceSlice → SourceLocation → Option String
  unfolding last_covering
  anchor slices location = elim (last_covering location.path location.start_line none slices) [
    | none ↦ none
    | some slice ↦ some (anchor_at slice location.start_line)
  ]

  module _ (normalized_sha256 : Sha256) (slices : List SourceSlice) where
    unfoldable pub rule_item : EvidenceItem
    unfolding evidence_item anchor
    rule_item =
        evidence_item builders.digest alert EvidenceType.rule_semantics neutral low
          EvidenceOrigin.codeql (some alert.primary_location) none normalized_sha256
          "sarif-normalizer@1.0"
          (concat "Normalized CodeQL rule metadata for " (
            concat alert.rule.rule_id
              "; this is upstream alert context, not an EviTriage vulnerability verdict."))
          none (anchor slices alert.primary_location)

    unfoldable pub path_item : DataFlowPath → PathStep → EvidenceItem
    unfolding evidence_item anchor
    path_item path source =
        evidence_item builders.digest alert EvidenceType.data_flow supports_tp medium
          EvidenceOrigin.codeql (some source.location) none normalized_sha256 "sarif-normalizer@1.0"
          (concat "CodeQL recorded ordered path " (
            concat (builders.show path.ordinal) (
              concat " with " (
                concat (builders.show (length path.steps))
                  " occurrence(s); feasibility and exploitability remain unverified."))))
          (some path.path_fingerprint) (anchor slices source.location)

    -- The item of a path, with the path's ordinal.
    unfoldable pub path_entry : DataFlowPath → Result BuildError (ℕ × EvidenceItem)
    unfolding path_item
    path_entry path = do source ← first_step path.steps; ok (path.ordinal, path_item path source)

  module _ (slice_sha256 : Sha256) where
    unfoldable pub source_item : SourceSlice → EvidenceItem
    unfolding evidence_item classify_query_family
    source_item slice =
        let location : SourceLocation = record {
          path = slice.path;
          column_kind = ColumnKind.unicode_code_points;
          start_line = slice.start_line;
          start_column = 1;
          end_line = some slice.end_line;
          end_column = none;
          artifact_sha256 = some slice.artifact_sha256;
          snippet = none;
        } in
        evidence_item builders.digest alert
          (elim is_resource [
            | true ↦ EvidenceType.resource_lifecycle
            | false ↦ EvidenceType.data_flow
          ])
          neutral low EvidenceOrigin.repository (some location)
          (elim is_resource [ true ↦ some slice.content | false ↦ none ]) slice_sha256
          (elim is_resource [ true ↦ "java-resource-context@1.0" | false ↦ "java-context@1.0" ])
          (concat "Bounded repository excerpt selected by " (
            concat (selection_text slice.selection)
              "; code text is untrusted data and carries no standalone security semantics."))
          none (some (anchor_at slice slice.start_line))

    unfoldable pub lifecycle_item : SourceSlice → ResourceObservation → EvidenceItem
    unfolding evidence_item
    lifecycle_item slice observation =
        let location : SourceLocation = record {
          path = slice.path;
          column_kind = ColumnKind.unicode_code_points;
          start_line = observation.line_number;
          start_column = 1;
          end_line = some observation.line_number;
          end_column = some (builders.length_of observation.excerpt + 1);
          artifact_sha256 = some slice.artifact_sha256;
          snippet = none;
        } in
        evidence_item builders.digest alert observation.type neutral low EvidenceOrigin.repository
          (some location) (some observation.excerpt) slice_sha256 "java-resource-lexical@1.0"
          observation.summary none (some (anchor_at slice observation.line_number))

    unfoldable pub gap_item : ContextOmission → EvidenceItem
    unfolding evidence_item
    gap_item omission =
        evidence_item builders.digest alert EvidenceType.context_gap neutral high
          EvidenceOrigin.repository none none slice_sha256 "java-resource-context@1.0"
          (concat "Resource context omission "
            (concat (code_text omission.code) (concat ": " omission.detail)))
          none none

    unfoldable pub candidate_item : ContextCandidate → SourceSlice → EvidenceItem
    unfolding evidence_item
    candidate_item candidate containing =
        evidence_item builders.digest alert (candidate_type candidate.kind) neutral low
          EvidenceOrigin.repository (some candidate.location) (some candidate.excerpt) slice_sha256
          "java-lexical-candidate@1"
          (concat "Lexical " (
            concat (kind_text candidate.kind)
              " candidate only; semantic effectiveness is unresolved and must not be inferred from its name or text."))
          none (some (anchor_at containing candidate.location.start_line))
