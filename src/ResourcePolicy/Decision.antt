-- ===== src/ResourcePolicy/Decision.antt =====
-- What a decision of the resource policy, src/evitriage/agents/resource_policy.py, implies.
use evi_triage_ql.Prelude.{List, nat_eq, string_eq, In}
use evi_triage_ql.Evidence.{claim_kind_eq, claim_status_eq, Claim}
use evi_triage_ql.Resource.{assessment_status_eq, acquisition_eq, ResourceJudgeOutput}

-- The claim of the trace is one that the Judge names as critical.
abbrev pub IsCritical :
    {Confidence : Type 0} → List Claim → ResourceJudgeOutput Confidence → Claim → Type 0
IsCritical claims judge c = In c claims × In c.claim_id judge.critical_claim_ids
