-- ===== src/ResourceWorkflow/Triage.antt =====
-- `ResourceTriageWorkflow.triage` and `TriageDispatcher.triage`, src/evitriage/agents.
use evi_triage_ql.Prelude.{true, false, List, [], ◌++◌, map, ◌==◌, nat_eq, ok, err, is_empty}
use evi_triage_ql.Evidence.{Sha256, EvidenceId, analyst, rebuttal, judge, Claim}
use evi_triage_ql.Evidence.Registry.{EvidenceRegistry}
use evi_triage_ql.Triage.{
  TriageTarget, TriageResult, FinalDecision, ModelInvocationRecord, validate_trace, claim_id_of,
}
use evi_triage_ql.Resource.{
  ResourceKind, ResourceAnalystOutput, ResourceRebuttalOutput, ResourceJudgeOutput,
}
use evi_triage_ql.ResourcePolicy.{apply}
use evi_triage_ql.Observability.{Json, Fields}
use evi_triage_ql.Workflow.{
  TriageLimits, LlmProfile, Request, Reply, foreign_sarif, no_evidence, invalid_result, Encoding,
  json_array, Session, Answer, Call, ◌>>=◌, return, throw,
}
use evi_triage_ql.Workflow.Role.{Setting, Task, complete_role}
use evi_triage_ql.Workflow.Security.{target_items, evidence_ids, payload_with, decided}
use evi_triage_ql.ResourceWorkflow.{
  resource_claims, validate_resource_analyst, validate_resource_rebuttal, validate_resource_judge,
  resource_repair_entry,
}

-- The language model at the three response types, the digests of their responses, and the JSON of
-- what the payloads add.
pub record ResourceModel (S Confidence : Type 0) : Type 0 where
  pub ask_analyst : Request → S → Reply ResourceAnalystOutput × S
  pub ask_rebuttal : Request → S → Reply ResourceRebuttalOutput × S
  pub ask_judge : Request → S → Reply (ResourceJudgeOutput Confidence) × S
  pub analyst_digest : ResourceAnalystOutput → Sha256
  pub rebuttal_digest : ResourceRebuttalOutput → Sha256
  pub judge_digest : ResourceJudgeOutput Confidence → Sha256
  pub kind_json : ResourceKind → Json
  pub analyst_json : ResourceAnalystOutput → Json
  pub rebuttal_json : ResourceRebuttalOutput → Json

abbrev pub ResourceResult : Type 0 → Type 0
ResourceResult Confidence =
    TriageResult ResourceAnalystOutput ResourceRebuttalOutput (ResourceJudgeOutput Confidence)
      Confidence

module _ {S Confidence : Type 0} (profile : LlmProfile) (limits : TriageLimits)
    (encoding : Encoding) (model : ResourceModel S Confidence) (registry : EvidenceRegistry)
    (target : TriageTarget) (kind : ResourceKind) where
  abbrev pub setting : Setting
  setting = record { profile = profile; limits = limits; run_id = registry.run_id; target = target }

  abbrev ids : List EvidenceId
  ids = evidence_ids encoding registry target

  -- A payload: the target, the kind, the entries of the role, and the evidence.
  abbrev payload : (Fields → Fields) → Fields
  payload entries =
      payload_with encoding target (target_items registry target)
        (λ fs. Fields.field "resource_kind" (model.kind_json kind) (entries fs))

  unfoldable pub analyst_task : Task ResourceAnalystOutput
  unfolding payload_with
  analyst_task = record {
    role = analyst;
    user_payload = payload (λ fs. fs);
    response_schema = "ResourceAnalystOutput";
    output_digest = model.analyst_digest;
    validate = validate_resource_analyst encoding.claim_digest kind ids;
    repair_entry = resource_repair_entry encoding;
  }

  unfoldable pub rebuttal_task : ResourceAnalystOutput → List Claim → Task ResourceRebuttalOutput
  unfolding payload_with
  rebuttal_task analysis analyst_claims = record {
    role = rebuttal;
    user_payload = payload (λ fs.
        Fields.field "analyst_output" (model.analyst_json analysis)
          (Fields.field "analyst_claims" (json_array encoding.claim_json analyst_claims) fs));
    response_schema = "ResourceRebuttalOutput";
    output_digest = model.rebuttal_digest;
    validate =
        validate_resource_rebuttal encoding.claim_digest kind ids (map claim_id_of analyst_claims);
    repair_entry = resource_repair_entry encoding;
  }

  unfoldable pub judge_task :
      ResourceAnalystOutput
      → ResourceRebuttalOutput
      → List Claim
      → Task (ResourceJudgeOutput Confidence)
  unfolding payload_with
  judge_task analysis rebutting claims = record {
    role = judge;
    user_payload = payload (λ fs. Fields.field "analyst_output" (model.analyst_json analysis) (
        Fields.field "rebuttal_output" (model.rebuttal_json rebutting)
          (Fields.field "candidate_claims" (json_array encoding.claim_json claims) fs)));
    response_schema = "ResourceJudgeOutput";
    output_digest = model.judge_digest;
    validate = validate_resource_judge kind ids (map claim_id_of claims);
    repair_entry = resource_repair_entry encoding;
  }

  -- The result with its validator.
  unfoldable pub checked : ResourceResult Confidence → Call S (ResourceResult Confidence)
  checked result = elim (validate_trace result) [
    | ok _ ↦ return result
    | err e ↦ throw (invalid_result e)
  ]

  abbrev pub analyst_claims_of : ResourceAnalystOutput → List Claim
  analyst_claims_of analysis = resource_claims encoding.claim_digest analyst analysis.claims

  abbrev pub rebuttal_claims_of : ResourceRebuttalOutput → List Claim
  rebuttal_claims_of rebutting = resource_claims encoding.claim_digest rebuttal rebutting.claims

  abbrev pub result_of :
      ResourceAnalystOutput
      → ResourceRebuttalOutput
      → ResourceJudgeOutput Confidence
      → FinalDecision Confidence
      → List ModelInvocationRecord
      → ResourceResult Confidence
  result_of analysis rebutting judgment decision invocations = record {
    target = target;
    analyst = analysis;
    analyst_claims = analyst_claims_of analysis;
    rebuttal = rebutting;
    rebuttal_claims = rebuttal_claims_of rebutting;
    judge = judgment;
    final_decision = decision;
    invocations = invocations;
  }

  unfoldable pub conclude :
      ResourceAnalystOutput
      → ResourceRebuttalOutput
      → ResourceJudgeOutput Confidence
      → FinalDecision Confidence
      → Call S (ResourceResult Confidence)
  conclude analysis rebutting judgment decision s =
      checked (result_of analysis rebutting judgment decision s.invocations) s

  -- The policy, on what the three roles returned.
  unfoldable pub decide :
      ResourceAnalystOutput
      → ResourceRebuttalOutput
      → ResourceJudgeOutput Confidence
      → Call S (ResourceResult Confidence)
  decide analysis rebutting judgment = do
    decision ← decided (
        apply registry target analysis (analyst_claims_of analysis) rebutting
          (rebuttal_claims_of rebutting) judgment)
    conclude analysis rebutting judgment decision

  -- The Judge, on the claims of the other two.
  unfoldable pub run_judge :
      ResourceAnalystOutput → ResourceRebuttalOutput → Call S (ResourceResult Confidence)
  run_judge analysis rebutting = do
    judgment ←
        complete_role setting encoding model.ask_judge (
          judge_task analysis rebutting
            (analyst_claims_of analysis ++ rebuttal_claims_of rebutting))
    decide analysis rebutting judgment

  -- The Rebuttal, on the claims of the Analyst.
  unfoldable pub run_rebuttal : ResourceAnalystOutput → Call S (ResourceResult Confidence)
  run_rebuttal analysis = do
    rebutting ←
        complete_role setting encoding model.ask_rebuttal
          (rebuttal_task analysis (analyst_claims_of analysis))
    run_judge analysis rebutting

  unfoldable pub run_roles : Call S (ResourceResult Confidence)
  run_roles = do
    analysis ← complete_role setting encoding model.ask_analyst analyst_task
    run_rebuttal analysis

  -- `ResourceTriageWorkflow.triage`, from the state of the model.
  unfoldable pub triage : S → Answer (ResourceResult Confidence) × Session S
  triage start =
      let s : Session S = record { invocations = []; model = start } in
      elim (target.raw_result_reference.raw_sarif_sha256 == registry.raw_sarif_sha256) [
        | false ↦ throw foreign_sarif s
        | true ↦ elim (is_empty (target_items registry target)) [
          | true ↦ throw no_evidence s
          | false ↦ run_roles s
        ]
      ]

-- The result of either workflow.
pub data Dispatched (A B : Type 0) : Type 0 where
  security : A → Dispatched A B
  resource : B → Dispatched A B

abbrev pub dispatched : {S A B : Type 0} → (A → B) → Answer A × Session S → Answer B × Session S
dispatched f (Answer.returned a, s) = (Answer.returned (f a), s)
dispatched f (Answer.raised e, s) = (Answer.raised e, s)
