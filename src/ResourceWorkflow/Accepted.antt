-- ===== src/ResourceWorkflow/Accepted.antt =====
-- What `_validate_rebuttal` of src/evitriage/agents/resource_workflow.py accepts.
use evi_triage_ql.Prelude.{
  ◌≡◌, any, ◌&&◌, Bool, List, map, In, is_unique, Unique, is_subset, collect, ◌==◌, nat_eq,
}
use evi_triage_ql.Evidence.{analyst, EvidenceId, ClaimId, ClaimContent, rebuttal, agent_role_eq}
use evi_triage_ql.Triage.{claim_id_of}
use evi_triage_ql.Resource.{ResourceKind, ResourceRebuttalOutput}
use evi_triage_ql.ResourceWorkflow.{draft_evidence, is_rebutted, rebuttal_ids, resource_claims}

-- A Rebuttal that stays within the alert: it is about the expected kind of resource, all that it
-- cites is evidence of the alert, its claims are distinct, and it rebuts the Analyst's claims only.
pub record StaysWithin (digest : ClaimContent → ClaimId) (expected : ResourceKind)
    (evidence_ids : List EvidenceId) (analyst_claim_ids : List ClaimId)
    (output : ResourceRebuttalOutput) : Type 0 where
  has_kind : output.resource_kind ≡ expected
  cites : (k : EvidenceId) → In k (rebuttal_ids output) → In k evidence_ids
  distinct : Unique (map claim_id_of (resource_claims digest rebuttal output.claims))
  rebuts : (c : ClaimId) → In c output.rebutted_claim_ids → In c analyst_claim_ids

module _ (digest : ClaimContent → ClaimId) (expected : ResourceKind)
    (evidence_ids : List EvidenceId) (analyst_claim_ids : List ClaimId)
    (output : ResourceRebuttalOutput) where
  abbrev is_distinct : Bool
  is_distinct = is_unique (map claim_id_of (resource_claims digest rebuttal output.claims))

  abbrev cites_known : Bool
  cites_known = is_subset (collect draft_evidence output.claims) evidence_ids

  abbrev breaks_role : Bool
  breaks_role = (rebuttal == analyst) && any is_rebutted output.claims
