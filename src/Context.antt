-- ===== src/Context.antt =====
-- The bounded context of an alert, src/evitriage/domain/context.py, with its validators.
--
-- The digests of a content, of a slice's identity and of an artifact's JSON are parameters. The
-- validator of a path's text is in Sarif/PathText.
use evi_triage_ql.Prelude.{
  ℕ, String, Bool, true, false, not, ◌&&◌, ◌||◌, Option, none, some, List, map, ◌==◌, nat_eq,
  string_eq, ltb, Result, raise_if, ◌>>◌, is_empty, is_unique, any,
}
use evi_triage_ql.Evidence.{Sha256, RawResultReference, SourceLocation}
use evi_triage_ql.Alerts.{RuleMetadata, DataFlowPath, Completeness, differ, pair_eq}

pub data ContextPolicyName : Type 0 where
  fixed_window path_function_slice : ContextPolicyName

pub data ContextOmissionCode : Type 0 where
  source_file_missing resource_context_bound source_not_regular : ContextOmissionCode
  source_too_large binary_source unsupported_encoding : ContextOmissionCode
  coordinate_out_of_bounds source_digest_mismatch : ContextOmissionCode
  function_boundary_unresolved token_budget_exceeded : ContextOmissionCode

pub data ReferenceKind : Type 0 where
  primary additional related source sink path_step callee : ReferenceKind

pub record ContextReference : Type 0 where
  pub kind : ReferenceKind
  pub location : SourceLocation
  pub path_ordinal : Option ℕ
  pub step_index : Option ℕ

pub data Selection : Type 0 where
  fixed_window enclosing_function : Selection

-- The fields of `SourceSlice` that its identifier is computed from.
pub record SliceIdentity : Type 0 where
  pub artifact_sha256 : Sha256
  pub content_sha256 : Sha256
  pub end_line : ℕ
  pub path : String
  pub selection : Selection
  pub start_line : ℕ

pub record SourceSlice : Type 0 where
  pub slice_id : String
  pub identity : SliceIdentity
  pub open identity use *
  pub content : String
  pub enclosing_symbol : Option String
  pub references : List ContextReference

pub data CandidateKind : Type 0 where
  guard sanitizer : CandidateKind

-- `extractor` has one value, and is left out.
pub record ContextCandidate : Type 0 where
  pub kind : CandidateKind
  pub location : SourceLocation
  pub excerpt : String

pub record ContextOmission : Type 0 where
  pub code : ContextOmissionCode
  pub path : String
  pub detail : String

pub record LevelZeroContext (Severity : Type 0) : Type 0 where
  pub rule : RuleMetadata Severity
  pub message : String
  pub primary_location : SourceLocation
  pub additional_locations : List SourceLocation
  pub related_locations : List SourceLocation
  pub paths : List DataFlowPath

pub record SliceContent (Severity : Type 0) : Type 0 where
  pub alert_fingerprint : Sha256
  pub raw_result_reference : RawResultReference
  pub context_policy : ContextPolicyName
  pub level_zero : LevelZeroContext Severity
  pub source_slices : List SourceSlice
  pub guards : List ContextCandidate
  pub candidate_sanitizers : List ContextCandidate
  pub token_estimate : ℕ
  pub maximum_token_budget : ℕ
  pub completeness : Completeness
  pub omitted : List ContextOmission

pub record SliceArtifact (Severity : Type 0) : Type 0 where
  pub slice_sha256 : Sha256
  pub content : SliceContent Severity

pub record SliceArtifactReference : Type 0 where
  pub alert_fingerprint : Sha256
  pub raw_result_reference : RawResultReference
  pub relative_path : String
  pub artifact_sha256 : Sha256
  pub slice_sha256 : Sha256

pub record ContextIndex : Type 0 where
  pub run_id : String
  pub repository_identity : String
  pub raw_sarif_sha256 : Sha256
  pub normalized_bundle_sha256 : Sha256
  pub context_policy : ContextPolicyName
  pub slices : List SliceArtifactReference

pub data ContextError : Type 0 where
  step_on_location no_step_on_path end_precedes_start wrong_content_digest : ContextError
  wrong_slice_id wrong_completeness no_budget_omission wrong_slice_digest : ContextError
  duplicate_references foreign_slice : ContextError

abbrev pub is_on_path : ReferenceKind → Bool
is_on_path source = true
is_on_path sink = true
is_on_path path_step = true
is_on_path _ = false

abbrev pub is_given : Option ℕ → Bool
is_given none = false
is_given (some _) = true

-- `ContextReference.validate_path_coordinates`
unfoldable pub validate_path_coordinates : ContextReference → Result ContextError (Unit {0})
validate_path_coordinates r = elim (is_on_path r.kind) [
  | false ↦ raise_if (is_given r.path_ordinal || is_given r.step_index) step_on_location
  | true ↦ raise_if (not (is_given r.path_ordinal) || not (is_given r.step_index)) no_step_on_path
]

-- `SourceSlice.validate_content_identity`
unfoldable pub validate_content_identity :
    (String → Sha256) → (SliceIdentity → String) → SourceSlice → Result ContextError (Unit {0})
validate_content_identity text_digest id_of slice = do
  raise_if (ltb slice.end_line slice.start_line) end_precedes_start
  raise_if (not (text_digest slice.content == slice.content_sha256)) wrong_content_digest
  raise_if (not (slice.slice_id == id_of slice.identity)) wrong_slice_id

abbrev pub is_partial : Completeness → Bool
is_partial Completeness.partial = true
is_partial Completeness.complete = false

abbrev pub is_over_budget : ContextOmission → Bool
is_over_budget o = elim o.code [ token_budget_exceeded ↦ true | _ ↦ false ]

module _ {Severity : Type 0} where
  -- `SliceContent.validate_completeness`
  unfoldable pub validate_completeness : SliceContent Severity → Result ContextError (Unit {0})
  unfolding any
  validate_completeness content = do
    raise_if (differ (is_partial content.completeness) (not (is_empty content.omitted)))
        wrong_completeness
    raise_if
        (ltb content.maximum_token_budget content.token_estimate
          && not (any is_over_budget content.omitted))
        no_budget_omission

  -- `SliceArtifact.validate_slice_digest`
  unfoldable pub validate_slice_digest :
      (SliceContent Severity → Sha256) → SliceArtifact Severity → Result ContextError (Unit {0})
  validate_slice_digest digest artifact =
      raise_if (not (digest artifact.content == artifact.slice_sha256)) wrong_slice_digest

abbrev pub slice_indexes : SliceArtifactReference → ℕ × ℕ
slice_indexes s = (s.raw_result_reference.run_index, s.raw_result_reference.result_index)

-- `ContextIndex.validate_unique_alert_occurrences`
unfoldable pub validate_unique_alert_occurrences : ContextIndex → Result ContextError (Unit {0})
unfolding is_unique any
validate_unique_alert_occurrences index = do
  raise_if (not (is_unique (map slice_indexes index.slices))) duplicate_references
  raise_if
      (any
        (λ (s : SliceArtifactReference).
          not (s.raw_result_reference.raw_sarif_sha256 == index.raw_sarif_sha256))
        index.slices)
      foreign_slice
