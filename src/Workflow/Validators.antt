-- ===== src/Workflow/Validators.antt =====
-- The semantic validators of the three roles in src/evitriage/agents/workflow.py, and the claims made
-- from an agent's drafts.
use evi_triage_ql.Prelude.{
  Bool, not, ◌&&◌, List, map, ◌==◌, nat_eq, Result, raise_if, ◌>>◌, any, is_subset, is_unique,
  collect,
}
use evi_triage_ql.Evidence.{
  EvidenceId, ClaimId, ClaimContent, rebutted, claim_status_eq, AgentRole, analyst, rebuttal,
  agent_role_eq, Claim,
}
use evi_triage_ql.Triage.{
  ClaimDraft, AnalystOutput, RebuttalOutput, JudgeOutput, materialize_claim, claim_id_of,
}
use evi_triage_ql.Workflow.{
  ResponseError, foreign_evidence, rebutted_by_analyst, duplicate_claims, unknown_claim,
}

abbrev pub draft_evidence : ClaimDraft → List EvidenceId
draft_evidence draft = draft.evidence_ids

abbrev pub is_rebutted : ClaimDraft → Bool
is_rebutted draft = draft.status == rebutted

module _ (digest : ClaimContent → ClaimId) where
  -- The claims of the drafts.
  abbrev pub claims_of : AgentRole → List ClaimDraft → List Claim
  claims_of role drafts = map (materialize_claim digest role) drafts

  -- `_validate_claim_drafts`
  unfoldable pub validate_claim_drafts :
      AgentRole → List EvidenceId → List ClaimDraft → Result ResponseError (Unit {0})
  unfolding is_subset any is_unique collect
  validate_claim_drafts role evidence_ids drafts = do
    raise_if (not (is_subset (collect draft_evidence drafts) evidence_ids)) foreign_evidence
    raise_if ((role == analyst) && any is_rebutted drafts) rebutted_by_analyst
    raise_if (not (is_unique (map claim_id_of (claims_of role drafts)))) duplicate_claims

  unfoldable pub validate_analyst :
      List EvidenceId → AnalystOutput → Result ResponseError (Unit {0})
  unfolding validate_claim_drafts
  validate_analyst evidence_ids output = validate_claim_drafts analyst evidence_ids output.claims

  -- `_validate_rebuttal`
  unfoldable pub validate_rebuttal :
      List EvidenceId → List ClaimId → RebuttalOutput → Result ResponseError (Unit {0})
  unfolding validate_claim_drafts is_subset
  validate_rebuttal evidence_ids analyst_claim_ids output = do
    validate_claim_drafts rebuttal evidence_ids output.claims
    raise_if (not (is_subset output.rebutted_claim_ids analyst_claim_ids)) unknown_claim

-- `_validate_judge`
unfoldable pub validate_judge :
    {Confidence : Type 0}
    → List EvidenceId
    → List ClaimId
    → JudgeOutput Confidence
    → Result ResponseError (Unit {0})
unfolding is_subset
validate_judge evidence_ids claim_ids output = do
  raise_if (not (is_subset output.critical_evidence_ids evidence_ids)) foreign_evidence
  raise_if (not (is_subset output.critical_claim_ids claim_ids)) unknown_claim
