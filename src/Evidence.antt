-- ===== src/Evidence.antt =====
-- The evidence and claim records of src/evitriage/domain/evidence.py, with the reference into raw
-- SARIF and the source location of src/evitriage/domain/alerts.py that they carry.
--
-- An identifier `ev_<64 hex digits>`, `cl_<64 hex digits>` or a SHA-256 digest is the number that
-- its digits denote: the spelling has a fixed length, so equality and order are the same.
pub mod Registry
use native.Mathlib.Decide.{ℕ_discrete}
use evi_triage_ql.Prelude.{
  ℕ, String, ◌≡◌, ◌↔◌, Bool, true, false, not, ◌&&◌, ◌||◌, Option, none, some, List, arith, Eq,
  ◌==◌, nat_eq, enum_eq, Result, ok, err, raise_if, ◌>>◌, is_unique, is_empty,
}

abbrev pub Sha256 : Type 0
Sha256 = ℕ

abbrev pub EvidenceId : Type 0
EvidenceId = ℕ

abbrev pub ClaimId : Type 0
ClaimId = ℕ

pub data EvidenceType : Type 0 where
  source_control data_flow sink_semantics guard sanitizer config permission test : EvidenceType
  verification rebuttal rule_semantics resource_lifecycle resource_acquisition : EvidenceType
  resource_release control_flow_exit exception_flow release_coverage : EvidenceType
  ownership_transfer resource_escape callee_summary lifecycle_contract context_gap : EvidenceType

pub data EvidencePolarity : Type 0 where
  supports_tp supports_fp neutral : EvidencePolarity

pub data EvidenceStrength : Type 0 where
  low medium high decisive : EvidenceStrength

pub data EvidenceOrigin : Type 0 where
  codeql repository build test verifier human : EvidenceOrigin

pub data ClaimKind : Type 0 where
  source_controllable path_feasible sanitizer_effective sink_dangerous : ClaimKind
  exploit_succeeds resource_acquisition resource_release control_flow_exit : ClaimKind
  exception_flow release_coverage feasible_unreleased_exit ownership_transfer : ClaimKind
  resource_escape callee_summary lifecycle_contract context_gap : ClaimKind

pub data ClaimStatus : Type 0 where
  supported rebutted unresolved : ClaimStatus

-- `AgentRole`, and who produced a claim
pub data AgentRole : Type 0 where
  analyst rebuttal judge : AgentRole

unfoldable pub EvidenceType-discrete : Discrete EvidenceType
EvidenceType-discrete = hlevel

unfoldable pub EvidencePolarity-discrete : Discrete EvidencePolarity
EvidencePolarity-discrete = hlevel

unfoldable pub EvidenceStrength-discrete : Discrete EvidenceStrength
EvidenceStrength-discrete = hlevel

unfoldable pub ClaimKind-discrete : Discrete ClaimKind
ClaimKind-discrete = hlevel

unfoldable pub ClaimStatus-discrete : Discrete ClaimStatus
ClaimStatus-discrete = hlevel

unfoldable pub AgentRole-discrete : Discrete AgentRole
AgentRole-discrete = hlevel

instance abbrev pub evidence_type_eq : Eq EvidenceType
evidence_type_eq = enum_eq EvidenceType-discrete

instance abbrev pub polarity_eq : Eq EvidencePolarity
polarity_eq = enum_eq EvidencePolarity-discrete

instance abbrev pub strength_eq : Eq EvidenceStrength
strength_eq = enum_eq EvidenceStrength-discrete

instance abbrev pub claim_kind_eq : Eq ClaimKind
claim_kind_eq = enum_eq ClaimKind-discrete

instance abbrev pub claim_status_eq : Eq ClaimStatus
claim_status_eq = enum_eq ClaimStatus-discrete

instance abbrev pub agent_role_eq : Eq AgentRole
agent_role_eq = enum_eq AgentRole-discrete

pub record RawResultReference : Type 0 where
  pub raw_sarif_sha256 : Sha256
  pub run_index : ℕ
  pub result_index : ℕ

unfoldable pub reference_beq : RawResultReference → RawResultReference → Bool
reference_beq a b =
    (a.raw_sarif_sha256 == b.raw_sarif_sha256)
    && ((a.run_index == b.run_index) && (a.result_index == b.result_index))

pub reference_beq_iff : (a b : RawResultReference) → (reference_beq a b ≡ true) ↔ (a ≡ b)
unfolding reference_beq
reference_beq_iff a b = ground arith

instance abbrev pub reference_eq : Eq RawResultReference
reference_eq = record { beq = reference_beq; beq_iff = reference_beq_iff }

pub data ColumnKind : Type 0 where
  utf16_code_units unicode_code_points : ColumnKind

pub record SourceLocation : Type 0 where
  pub path : String
  pub column_kind : ColumnKind
  pub start_line : ℕ
  pub start_column : ℕ
  pub end_line : Option ℕ
  pub end_column : Option ℕ
  pub artifact_sha256 : Option Sha256
  pub snippet : Option String

-- The fields of `EvidenceItem` that its identifier is computed from.
pub record EvidenceContent : Type 0 where
  pub alert_fingerprint : Sha256
  pub raw_result_reference : RawResultReference
  pub type : EvidenceType
  pub polarity : EvidencePolarity
  pub strength : EvidenceStrength
  pub origin : EvidenceOrigin
  pub location : Option SourceLocation
  pub excerpt : Option String
  pub artifact_sha256 : Sha256
  pub extractor : String
  pub summary : String
  pub path_fingerprint : Option Sha256
  pub source_anchor : Option String

pub record EvidenceItem : Type 0 where
  pub evidence_id : EvidenceId
  pub content : EvidenceContent
  pub open content use *

pub record ClaimContent : Type 0 where
  pub kind : ClaimKind
  pub statement : String
  pub status : ClaimStatus
  pub evidence_ids : List EvidenceId
  pub produced_by : AgentRole

pub record Claim : Type 0 where
  pub claim_id : ClaimId
  pub content : ClaimContent
  pub open content use *

-- The messages of the validators.
pub data EvidenceError : Type 0 where
  id_mismatch duplicate_references evidence_required self_edge : EvidenceError
  duplicate_artifacts duplicate_evidence duplicate_claims unknown_artifact : EvidenceError
  foreign_sarif dangling_relationship dangling_claim : EvidenceError

-- `EvidenceItem.validate_content_addressed_id`; `digest` is SHA-256 of the canonical JSON.
unfoldable pub validate_content_addressed_id :
    (EvidenceContent → EvidenceId) → EvidenceItem → Result EvidenceError (Unit {0})
validate_content_addressed_id digest item =
    raise_if (not (item.evidence_id == digest item.content)) id_mismatch

-- `Claim.validate_local_evidence_shape`
unfoldable pub validate_local_evidence_shape : Claim → Result EvidenceError (Unit {0})
validate_local_evidence_shape claim = do
  raise_if (not (is_unique claim.evidence_ids)) duplicate_references
  raise_if (not (claim.status == unresolved) && is_empty claim.evidence_ids) evidence_required
