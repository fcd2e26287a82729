-- ===== src/Resource.antt =====
-- The resource agents' outputs of src/evitriage/domain/resource.py and their validators.
--
-- `raw_confidence` is copied and never computed with: its type is the parameter of the Judge's
-- output, which has the fields of the security Judge's and the kind of the resource. The limits of
-- pydantic on lengths are not modelled.
use evi_triage_ql.Prelude.{
  String, Bool, true, false, not, ◌&&◌, Option, none, some, List, ◌==◌, nat_eq, string_eq, enum_eq,
  Eq, Result, raise_if, ◌>>◌, is_unique, lookup, [], ◌∷◌,
}
use evi_triage_ql.Evidence.{
  EvidenceId, ClaimId, ClaimKind, ClaimStatus, ClaimContent, Claim, AgentRole,
}
use evi_triage_ql.Triage.{JudgeOutput}

pub data ResourceKind : Type 0 where
  input output database lock : ResourceKind

pub data QueryFamily : Type 0 where
  legacy_security resource_input resource_output resource_database resource_lock : QueryFamily

pub data AssessmentStatus : Type 0 where
  confirmed absent unknown conflicting : AssessmentStatus

unfoldable pub AssessmentStatus-discrete : Discrete AssessmentStatus
AssessmentStatus-discrete = hlevel

instance abbrev pub assessment_status_eq : Eq AssessmentStatus
assessment_status_eq = enum_eq AssessmentStatus-discrete

pub record ResourceAssessment : Type 0 where
  pub status : AssessmentStatus
  pub detail : String
  pub evidence_ids : List EvidenceId

pub record ResourceReleaseSite : Type 0 where
  pub resource_identity : String
  pub operation : String
  pub condition : String
  pub evidence_ids : List EvidenceId

pub data ExitKind : Type 0 where
  normal return throw break continue : ExitKind

pub record ResourceExitAssessment : Type 0 where
  pub status : AssessmentStatus
  pub exit_kind : Option ExitKind
  pub detail : String
  pub evidence_ids : List EvidenceId

pub data GapKind : Type 0 where
  resource_identity acquisition_success exception_path early_exit callee_behavior : GapKind
  ownership_contract lifecycle_contract third_party_source generated_source : GapKind
  truncated_context custom_protocol conflicting_evidence : GapKind

pub record ResourceContextGap : Type 0 where
  pub kind : GapKind
  pub detail : String
  pub evidence_ids : List EvidenceId

pub data ResourceClaimKind : Type 0 where
  resource_acquisition resource_release control_flow_exit exception_flow : ResourceClaimKind
  release_coverage feasible_unreleased_exit ownership_transfer resource_escape : ResourceClaimKind
  callee_summary lifecycle_contract context_gap : ResourceClaimKind

-- The kind as one of `Claim`.
abbrev pub resource_claim_kind : ResourceClaimKind → ClaimKind
resource_claim_kind ResourceClaimKind.resource_acquisition = ClaimKind.resource_acquisition
resource_claim_kind ResourceClaimKind.resource_release = ClaimKind.resource_release
resource_claim_kind ResourceClaimKind.control_flow_exit = ClaimKind.control_flow_exit
resource_claim_kind ResourceClaimKind.exception_flow = ClaimKind.exception_flow
resource_claim_kind ResourceClaimKind.release_coverage = ClaimKind.release_coverage
resource_claim_kind ResourceClaimKind.feasible_unreleased_exit = ClaimKind.feasible_unreleased_exit
resource_claim_kind ResourceClaimKind.ownership_transfer = ClaimKind.ownership_transfer
resource_claim_kind ResourceClaimKind.resource_escape = ClaimKind.resource_escape
resource_claim_kind ResourceClaimKind.callee_summary = ClaimKind.callee_summary
resource_claim_kind ResourceClaimKind.lifecycle_contract = ClaimKind.lifecycle_contract
resource_claim_kind ResourceClaimKind.context_gap = ClaimKind.context_gap

pub record ResourceClaimDraft : Type 0 where
  pub kind : ResourceClaimKind
  pub statement : String
  pub status : ClaimStatus
  pub evidence_ids : List EvidenceId

pub data Acquisition : Type 0 where
  yes no unknown : Acquisition

unfoldable pub Acquisition-discrete : Discrete Acquisition
Acquisition-discrete = hlevel

instance abbrev pub acquisition_eq : Eq Acquisition
acquisition_eq = enum_eq Acquisition-discrete

pub record ResourceAnalystOutput : Type 0 where
  pub resource_kind : ResourceKind
  pub acquisition_succeeds : Acquisition
  pub acquisition_condition : String
  pub acquisition_evidence_ids : List EvidenceId
  pub release_sites : List ResourceReleaseSite
  pub release_coverage : ResourceAssessment
  pub feasible_unreleased_exit : ResourceExitAssessment
  pub ownership_transfer : ResourceAssessment
  pub resource_escape : ResourceAssessment
  pub callee_release_behavior : ResourceAssessment
  pub lifecycle_contract : ResourceAssessment
  pub context_gaps : List ResourceContextGap
  pub claims : List ResourceClaimDraft
  pub unknowns : List String

pub record ResourceRebuttalOutput : Type 0 where
  pub resource_kind : ResourceKind
  pub release_coverage : ResourceAssessment
  pub ownership_transfer : ResourceAssessment
  pub resource_escape : ResourceAssessment
  pub callee_release_behavior : ResourceAssessment
  pub lifecycle_contract : ResourceAssessment
  pub context_gaps : List ResourceContextGap
  pub claims : List ResourceClaimDraft
  pub rebutted_claim_ids : List ClaimId
  pub unknowns : List String

pub record ResourceJudgeOutput (Confidence : Type 0) : Type 0 where
  pub resource_kind : ResourceKind
  pub judgment : JudgeOutput Confidence
  pub open judgment use *

-- The messages of the validators.
pub data ResourceError : Type 0 where
  duplicate_references duplicate_unknowns exit_without_kind : ResourceError

-- `ResourceAssessment.validate_evidence`
unfoldable pub validate_evidence : ResourceAssessment → Result ResourceError (Unit {0})
validate_evidence a = raise_if (not (is_unique a.evidence_ids)) duplicate_references

abbrev pub has_no_kind : Option ExitKind → Bool
has_no_kind none = true
has_no_kind (some _) = false

-- `ResourceExitAssessment.validate_exit`
unfoldable pub validate_exit : ResourceExitAssessment → Result ResourceError (Unit {0})
validate_exit a = do
  raise_if (not (is_unique a.evidence_ids)) duplicate_references
  raise_if ((a.status == confirmed) && has_no_kind a.exit_kind) exit_without_kind

-- `ResourceAnalystOutput.validate_lists`
unfoldable pub validate_lists : ResourceAnalystOutput → Result ResourceError (Unit {0})
validate_lists a = do
  raise_if (not (is_unique a.acquisition_evidence_ids)) duplicate_references
  raise_if (not (is_unique a.unknowns)) duplicate_unknowns

-- `ResourceRebuttalOutput.validate_unique_references`
unfoldable pub validate_rebuttal_references :
    ResourceRebuttalOutput → Result ResourceError (Unit {0})
validate_rebuttal_references r = do
  raise_if (not (is_unique r.rebutted_claim_ids)) duplicate_references
  raise_if (not (is_unique r.unknowns)) duplicate_unknowns

-- `classify_query_family`, by the table `_RESOURCE_RULE_FAMILIES`.
unfoldable pub classify_query_family : String → QueryFamily
classify_query_family rule =
    elim (lookup rule (
      ("java/input-resource-leak", resource_input)
      ∷ ("java/output-resource-leak", resource_output)
      ∷ ("java/database-resource-leak", resource_database)
      ∷ ("java/unreleased-lock", resource_lock)
      ∷ [])) [ some family ↦ family | none ↦ legacy_security ]

-- `resource_kind_for_family`
abbrev pub resource_kind_for_family : QueryFamily → Option ResourceKind
resource_kind_for_family legacy_security = none
resource_kind_for_family resource_input = some input
resource_kind_for_family resource_output = some output
resource_kind_for_family resource_database = some database
resource_kind_for_family resource_lock = some lock

-- `materialize_resource_claim`; `digest` is SHA-256 of the canonical JSON of the content.
unfoldable pub materialize_resource_claim :
    (ClaimContent → ClaimId) → AgentRole → ResourceClaimDraft → Claim
materialize_resource_claim digest role draft =
    let content : ClaimContent = record {
      kind = resource_claim_kind draft.kind;
      statement = draft.statement;
      status = draft.status;
      evidence_ids = draft.evidence_ids;
      produced_by = role;
    } in
    record { claim_id = digest content; content = content }
