-- ===== src/ResourcePolicy.antt =====
-- `ResourceDecisionPolicy` of src/evitriage/agents/resource_policy.py, which turns the resource
-- Judge's candidate into the final decision. The checks of the references, the considered
-- identifiers and the decision record are those of the security policy, in Policy.
pub mod Basis
mod Decision
mod Tests
use evi_triage_ql.Prelude.{
  String, Bool, not, ◌&&◌, ◌||◌, List, [], ◌∷◌, ◌++◌, map, ◌==◌, nat_eq, string_eq, Result, ◌>>=◌,
  ◌>>◌, raise_if, map_result, if◌then◌else◌, is_empty, any, filter, elem, is_subset, stable_unique,
  index_by, values,
}
use evi_triage_ql.Evidence.{
  EvidenceType, evidence_type_eq, ClaimKind, claim_kind_eq, ClaimStatus, supported, rebutted,
  claim_status_eq, EvidenceItem, Claim,
}
use evi_triage_ql.Evidence.Registry.{EvidenceRegistry, claim_id_of}
use evi_triage_ql.Triage.{
  TriageLabel, tp, fp, nmc, label_eq, PolicyFlag, TriageTarget, FinalDecision,
}
use evi_triage_ql.Policy.{
  PolicyError, no_evidence, claim_outside_trace, evidence_outside_occurrence,
  claim_evidence_outside, target_evidence, keys_within, subscript, is_unresolved, Verdict,
  final_decision, considered_ids,
}
use evi_triage_ql.Resource.{
  AssessmentStatus, confirmed, conflicting, assessment_status_eq, yes, acquisition_eq,
  ResourceAnalystOutput, ResourceRebuttalOutput, ResourceJudgeOutput,
}

-- `_TP_CLAIMS`
abbrev pub tp_claims : List ClaimKind
tp_claims = ClaimKind.resource_acquisition ∷ ClaimKind.feasible_unreleased_exit ∷ []

-- `_FP_CLAIMS`
abbrev pub fp_claims : List ClaimKind
fp_claims =
    ClaimKind.release_coverage ∷ ClaimKind.ownership_transfer ∷ ClaimKind.callee_summary
    ∷ ClaimKind.lifecycle_contract ∷ []

-- The assessments that may show that the resource is released, of each agent.
abbrev pub analyst_releases : ResourceAnalystOutput → List AssessmentStatus
analyst_releases a =
    a.release_coverage.status ∷ a.ownership_transfer.status ∷ a.callee_release_behavior.status
    ∷ a.lifecycle_contract.status ∷ []

abbrev pub rebuttal_releases : ResourceRebuttalOutput → List AssessmentStatus
rebuttal_releases r =
    r.release_coverage.status ∷ r.ownership_transfer.status ∷ r.callee_release_behavior.status
    ∷ r.lifecycle_contract.status ∷ []

-- Every assessment, in the order of `_has_conflict` and `_has_unknown_assessment`.
abbrev pub assessments : ResourceAnalystOutput → ResourceRebuttalOutput → List AssessmentStatus
assessments a r =
    a.release_coverage.status ∷ a.feasible_unreleased_exit.status ∷ a.ownership_transfer.status
    ∷ a.resource_escape.status ∷ a.callee_release_behavior.status ∷ a.lifecycle_contract.status
    ∷ r.release_coverage.status ∷ r.ownership_transfer.status ∷ r.resource_escape.status
    ∷ r.callee_release_behavior.status ∷ r.lifecycle_contract.status ∷ []

-- `_fp_basis`
unfoldable pub fp_basis : ResourceRebuttalOutput → Bool
fp_basis r = elem confirmed (rebuttal_releases r)

-- `_positive_ownership_or_release`
unfoldable pub positive_ownership_or_release : ResourceAnalystOutput → ResourceRebuttalOutput → Bool
positive_ownership_or_release a r = elem confirmed (analyst_releases a ++ rebuttal_releases r)

-- `_has_conflict`
unfoldable pub has_conflict : ResourceAnalystOutput → ResourceRebuttalOutput → Bool
has_conflict a r = elem conflicting (assessments a r)

-- `_has_unknown_assessment`
unfoldable pub has_unknown_assessment : ResourceAnalystOutput → ResourceRebuttalOutput → Bool
has_unknown_assessment a r = elem AssessmentStatus.unknown (assessments a r)

abbrev pub kind_of : Claim → ClaimKind
kind_of c = c.kind

-- `_has_claim_kinds`
unfoldable pub has_claim_kinds : List Claim → List ClaimKind → ClaimStatus → Bool
has_claim_kinds claims kinds status = is_subset kinds (
    map kind_of
      (filter (λ (c : Claim). (c.status == status) && not (is_empty c.evidence_ids)) claims))

-- `_has_claim_kind`
unfoldable pub has_claim_kind : List Claim → List ClaimKind → List ClaimStatus → Bool
has_claim_kind claims kinds statuses =
    any
      (λ (c : Claim).
        elem c.kind kinds && (elem c.status statuses && not (is_empty c.evidence_ids)))
      claims

abbrev pub is_context_gap : EvidenceItem → Bool
is_context_gap i = i.type == EvidenceType.context_gap

-- What the gates look at, besides the agents' outputs.
pub record ResourceGates : Type 0 where
  pub requested : TriageLabel
  pub unknowns : List String
  pub context_incomplete : Bool
  pub critical_claims : List Claim

-- The branch `judge.label == "TP"`.
unfoldable pub tp_verdict : ResourceAnalystOutput → ResourceRebuttalOutput → List Claim → Verdict
unfolding positive_ownership_or_release has_claim_kinds
tp_verdict a r critical_claims =
    if not (a.acquisition_succeeds == yes)
    then (nmc, PolicyFlag.resource_acquisition_missing ∷ [])
    else if not (a.feasible_unreleased_exit.status == confirmed)
    then (nmc, PolicyFlag.resource_unreleased_exit_missing ∷ [])
    else if positive_ownership_or_release a r
    then (nmc, PolicyFlag.resource_evidence_conflict ∷ [])
    else if not (has_claim_kinds critical_claims tp_claims supported)
    then (nmc, PolicyFlag.tp_support_missing ∷ [])
    else (tp, PolicyFlag.resource_tp_basis_confirmed ∷ PolicyFlag.judge_label_accepted ∷ [])

-- The branch for a candidate FP.
unfoldable pub fp_verdict : ResourceRebuttalOutput → List Claim → Verdict
unfolding fp_basis has_claim_kind
fp_verdict r critical_claims =
    if fp_basis r && has_claim_kind critical_claims fp_claims (supported ∷ rebutted ∷ [])
    then (
      fp,
      (if r.release_coverage.status == confirmed
            then PolicyFlag.resource_release_coverage_confirmed
            else PolicyFlag.resource_ownership_confirmed)
          ∷ PolicyFlag.judge_label_accepted
          ∷ [],
    )
    else (nmc, PolicyFlag.resource_fp_basis_missing ∷ [])

-- The chain of gates: the label and the flags appended.
unfoldable pub choose_resource_label :
    ResourceGates → ResourceAnalystOutput → ResourceRebuttalOutput → Verdict
unfolding has_conflict has_unknown_assessment tp_verdict fp_verdict
choose_resource_label g a r =
    if g.requested == nmc
    then (nmc, PolicyFlag.judge_requested_nmc ∷ [])
    else if g.context_incomplete || (not (is_empty a.context_gaps) || not (is_empty r.context_gaps))
    then (nmc, PolicyFlag.resource_context_incomplete ∷ [])
    else if has_conflict a r
    then (nmc, PolicyFlag.resource_evidence_conflict ∷ [])
    else if not (is_empty g.unknowns)
        || (any is_unresolved g.critical_claims || has_unknown_assessment a r)
    then (nmc, PolicyFlag.unknown_or_unresolved ∷ [])
    else if g.requested == tp
    then tp_verdict a r g.critical_claims
    else fp_verdict r g.critical_claims

-- `ResourceDecisionPolicy.apply`
unfoldable pub apply :
    {Confidence : Type 0}
    → EvidenceRegistry
    → TriageTarget
    → ResourceAnalystOutput
    → List Claim
    → ResourceRebuttalOutput
    → List Claim
    → ResourceJudgeOutput Confidence
    → Result PolicyError (FinalDecision Confidence)
unfolding target_evidence keys_within choose_resource_label final_decision
apply registry target analyst analyst_claims rebuttal rebuttal_claims judge = do
  let evidence = target_evidence registry target
  let claims = index_by claim_id_of (analyst_claims ++ rebuttal_claims)
  raise_if (is_empty evidence) no_evidence
  raise_if (not (keys_within judge.critical_claim_ids claims)) claim_outside_trace
  raise_if (not (keys_within judge.critical_evidence_ids evidence)) evidence_outside_occurrence
  critical_claims ← map_result (subscript claims) judge.critical_claim_ids
  raise_if (not (keys_within (considered_ids judge.judgment critical_claims) evidence))
      claim_evidence_outside
  let unknowns = stable_unique (analyst.unknowns ++ (rebuttal.unknowns ++ judge.unknowns))
  final_decision target judge.judgment unknowns (
      choose_resource_label
        (record {
          requested = judge.label;
          unknowns = unknowns;
          context_incomplete = any is_context_gap (values evidence);
          critical_claims = critical_claims;
        })
        analyst rebuttal)
