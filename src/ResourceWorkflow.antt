-- ===== src/ResourceWorkflow.antt =====
-- `ResourceTriageWorkflow` of src/evitriage/agents/resource_workflow.py and `TriageDispatcher` of
-- src/evitriage/agents/dispatcher.py. The loop of a role, `_complete`, is that of the security
-- workflow with another repair entry, which has the issues of the last error.
pub mod Triage
pub mod Bounds
pub mod Accepted
pub mod Dispatcher
mod Tests
use evi_triage_ql.Prelude.{
  ℕ, String, Bool, true, false, not, ◌&&◌, List, [], ◌∷◌, ◌++◌, map, ◌==◌, nat_eq, Eq, enum_eq,
  Result, ok, err, raise_if, ◌>>◌, any, is_subset, is_unique, collect,
}
use evi_triage_ql.Evidence.{
  Sha256, EvidenceId, ClaimId, ClaimContent, ClaimStatus, rebutted, claim_status_eq, AgentRole,
  analyst, rebuttal, agent_role_eq, Claim,
}
use evi_triage_ql.Triage.{claim_id_of}
use evi_triage_ql.Resource.{
  ResourceKind, ResourceAssessment, ResourceReleaseSite, ResourceContextGap, ResourceClaimDraft,
  ResourceAnalystOutput, ResourceRebuttalOutput, ResourceJudgeOutput, materialize_resource_claim,
}
use evi_triage_ql.Observability.{Json, Items, Fields, redact_mapping}
use evi_triage_ql.Workflow.{
  ResponseError, foreign_evidence, rebutted_by_analyst, duplicate_claims, unknown_claim, wrong_kind,
  Encoding,
}

unfoldable pub ResourceKind-discrete : Discrete ResourceKind
ResourceKind-discrete = hlevel

instance abbrev pub resource_kind_eq : Eq ResourceKind
resource_kind_eq = enum_eq ResourceKind-discrete

abbrev pub assessment_evidence : ResourceAssessment → List EvidenceId
assessment_evidence a = a.evidence_ids

abbrev pub gap_evidence : ResourceContextGap → List EvidenceId
gap_evidence gap = gap.evidence_ids

abbrev pub site_evidence : ResourceReleaseSite → List EvidenceId
site_evidence site = site.evidence_ids

abbrev pub draft_evidence : ResourceClaimDraft → List EvidenceId
draft_evidence draft = draft.evidence_ids

abbrev pub is_rebutted : ResourceClaimDraft → Bool
is_rebutted draft = draft.status == rebutted

-- `_assessment_ids`, of the two outputs; a set, as the list of its elements
unfoldable pub analyst_ids : ResourceAnalystOutput → List EvidenceId
unfolding collect
analyst_ids o =
    collect assessment_evidence (
      o.release_coverage ∷ o.ownership_transfer ∷ o.resource_escape ∷ o.callee_release_behavior
      ∷ o.lifecycle_contract ∷ [])
    ++ (collect gap_evidence o.context_gaps
        ++ (o.acquisition_evidence_ids
            ++ (o.feasible_unreleased_exit.evidence_ids
                ++ (collect site_evidence o.release_sites ++ collect draft_evidence o.claims))))

unfoldable pub rebuttal_ids : ResourceRebuttalOutput → List EvidenceId
unfolding collect
rebuttal_ids o =
    collect assessment_evidence (
      o.release_coverage ∷ o.ownership_transfer ∷ o.resource_escape ∷ o.callee_release_behavior
      ∷ o.lifecycle_contract ∷ [])
    ++ (collect gap_evidence o.context_gaps ++ collect draft_evidence o.claims)

-- `_validate_evidence`
unfoldable pub check_evidence : List EvidenceId → List EvidenceId → Result ResponseError (Unit {0})
unfolding is_subset
check_evidence cited known = raise_if (not (is_subset cited known)) foreign_evidence

module _ (digest : ClaimContent → ClaimId) where
  -- `_claims`
  abbrev pub resource_claims : AgentRole → List ResourceClaimDraft → List Claim
  resource_claims role drafts = map (materialize_resource_claim digest role) drafts

  -- `_validate_resource_claims`
  unfoldable pub validate_resource_claims :
      AgentRole → List EvidenceId → List ResourceClaimDraft → Result ResponseError (Unit {0})
  unfolding check_evidence any is_unique collect
  validate_resource_claims role evidence_ids drafts = do
    check_evidence (collect draft_evidence drafts) evidence_ids
    raise_if ((role == analyst) && any is_rebutted drafts) rebutted_by_analyst
    raise_if (not (is_unique (map claim_id_of (resource_claims role drafts)))) duplicate_claims

  -- `_validate_analyst`
  unfoldable pub validate_resource_analyst :
      ResourceKind → List EvidenceId → ResourceAnalystOutput → Result ResponseError (Unit {0})
  unfolding validate_resource_claims check_evidence analyst_ids
  validate_resource_analyst expected evidence_ids output = do
    raise_if (not (output.resource_kind == expected)) wrong_kind
    validate_resource_claims analyst evidence_ids output.claims
    check_evidence (analyst_ids output) evidence_ids

  -- `_validate_rebuttal`
  unfoldable pub validate_resource_rebuttal :
      ResourceKind
      → List EvidenceId
      → List ClaimId
      → ResourceRebuttalOutput
      → Result ResponseError (Unit {0})
  unfolding validate_resource_claims check_evidence rebuttal_ids is_subset
  validate_resource_rebuttal expected evidence_ids analyst_claim_ids output = do
    raise_if (not (output.resource_kind == expected)) wrong_kind
    validate_resource_claims rebuttal evidence_ids output.claims
    check_evidence (rebuttal_ids output) evidence_ids
    raise_if (not (is_subset output.rebutted_claim_ids analyst_claim_ids)) unknown_claim

-- `_validate_judge`
unfoldable pub validate_resource_judge :
    {Confidence : Type 0}
    → ResourceKind
    → List EvidenceId
    → List ClaimId
    → ResourceJudgeOutput Confidence
    → Result ResponseError (Unit {0})
unfolding check_evidence is_subset
validate_resource_judge expected evidence_ids claim_ids output = do
  raise_if (not (output.resource_kind == expected)) wrong_kind
  check_evidence output.critical_evidence_ids evidence_ids
  raise_if (not (is_subset output.critical_claim_ids claim_ids)) unknown_claim

-- `_repair_issues`: the issues of the last error, redacted as the value of `issues`.
abbrev pub value_of : Fields → Json
value_of Fields.end = Json.null
value_of (Fields.field key value fs) = value

unfoldable pub repair_issues : Encoding → Items → Json
unfolding redact_mapping
repair_issues encoding issues = value_of (
    redact_mapping encoding.is_secret encoding.redact_text
      (Fields.field "issues" (Json.array issues) Fields.end))

-- The entry `schema_repair`.
unfoldable pub resource_repair_entry : Encoding → ℕ → Items → Json
unfolding repair_issues
resource_repair_entry encoding attempt issues = Json.object (
    Fields.field "attempt" (encoding.number_json attempt) (
      Fields.field "previous_error_code" (Json.text "MODEL_RESPONSE_INVALID")
        (Fields.field "previous_issues" (repair_issues encoding issues) Fields.end)))
