-- ===== src/Workflow/Security.antt =====
-- `TriageWorkflow.triage` of src/evitriage/agents/workflow.py: Analyst, Rebuttal and Judge in turn on
-- one alert occurrence, then the decision policy, then the result with its validator.
use evi_triage_ql.Prelude.{
  ℕ, true, false, List, [], ◌++◌, map, ◌==◌, nat_eq, Result, ok, err, is_empty, is_unique, filter,
  sorted,
}
use evi_triage_ql.Evidence.{
  Sha256, EvidenceId, EvidenceItem, AgentRole, analyst, rebuttal, judge, Claim,
}
use evi_triage_ql.Evidence.Registry.{EvidenceRegistry, item_id}
use evi_triage_ql.Triage.{
  TriageTarget, ClaimDraft, AnalystOutput, RebuttalOutput, JudgeOutput, FinalDecision, TriageResult,
  ModelInvocationRecord, validate_trace, claim_id_of,
}
use evi_triage_ql.Policy.{PolicyError, on_target, apply}
use evi_triage_ql.Observability.{Json, Items, Fields}
use evi_triage_ql.Workflow.{
  TriageLimits, LlmProfile, Request, Reply, foreign_sarif, no_evidence, claims_not_unique,
  policy_rejected, invalid_result, Encoding, json_array, json_items, Session, Answer, Call, ◌>>=◌,
  return, throw,
}
use evi_triage_ql.Workflow.Role.{Setting, Task, complete_role}
use evi_triage_ql.Workflow.Validators.{
  claims_of, validate_analyst, validate_rebuttal, validate_judge,
}

-- The language model, at each of the three response types, and the digests of their responses.
pub record Model (S Confidence : Type 0) : Type 0 where
  pub ask_analyst : Request → S → Reply AnalystOutput × S
  pub ask_rebuttal : Request → S → Reply RebuttalOutput × S
  pub ask_judge : Request → S → Reply (JudgeOutput Confidence) × S
  pub analyst_digest : AnalystOutput → Sha256
  pub rebuttal_digest : RebuttalOutput → Sha256
  pub judge_digest : JudgeOutput Confidence → Sha256

-- The items of the target, in the order of their identifiers.
unfoldable pub target_items : EvidenceRegistry → TriageTarget → List EvidenceItem
unfolding sorted filter
target_items registry target = sorted item_id (filter (on_target target) registry.items)

-- The entry `schema_repair`.
unfoldable pub repair_entry : Encoding → ℕ → Items → Json
repair_entry encoding attempt issues = Json.object (
    Fields.field "attempt" (encoding.number_json attempt)
      (Fields.field "previous_error_code" (Json.text "MODEL_RESPONSE_INVALID") Fields.end))

-- A payload: the target, the entries of the role, and the evidence.
unfoldable pub payload_with :
    Encoding → TriageTarget → List EvidenceItem → (Fields → Fields) → Fields
unfolding json_items
payload_with encoding target evidence entries =
    Fields.field "target" (encoding.target_json target) (
      entries (
        Fields.field "untrusted_code_data"
          (Json.object
            (Fields.field "evidence_items" (json_array encoding.item_json evidence) Fields.end))
          Fields.end))

module _ (encoding : Encoding) (registry : EvidenceRegistry) (target : TriageTarget) where
  abbrev pub evidence_ids : List EvidenceId
  evidence_ids = map item_id (target_items registry target)

  unfoldable pub analyst_task : (AnalystOutput → Sha256) → Task AnalystOutput
  unfolding validate_analyst payload_with repair_entry target_items
  analyst_task digest = record {
    role = analyst;
    user_payload = payload_with encoding target (target_items registry target) (λ fs. fs);
    response_schema = "AnalystOutput";
    output_digest = digest;
    validate = validate_analyst encoding.claim_digest evidence_ids;
    repair_entry = repair_entry encoding;
  }

  unfoldable pub rebuttal_task : (RebuttalOutput → Sha256) → List Claim → Task RebuttalOutput
  unfolding validate_rebuttal payload_with repair_entry target_items json_items
  rebuttal_task digest analyst_claims = record {
    role = rebuttal;
    user_payload =
        payload_with encoding target (target_items registry target)
          (Fields.field "analyst_claims" (json_array encoding.claim_json analyst_claims));
    response_schema = "RebuttalOutput";
    output_digest = digest;
    validate =
        validate_rebuttal encoding.claim_digest evidence_ids (map claim_id_of analyst_claims);
    repair_entry = repair_entry encoding;
  }

  unfoldable pub judge_task :
      {Confidence : Type 0}
      → (JudgeOutput Confidence → Sha256)
      → List Claim
      → Task (JudgeOutput Confidence)
  unfolding validate_judge payload_with repair_entry target_items json_items
  judge_task digest claims = record {
    role = judge;
    user_payload =
        payload_with encoding target (target_items registry target)
          (Fields.field "candidate_claims" (json_array encoding.claim_json claims));
    response_schema = "JudgeOutput";
    output_digest = digest;
    validate = validate_judge evidence_ids (map claim_id_of claims);
    repair_entry = repair_entry encoding;
  }

-- `_materialize_unique_claims`
unfoldable pub materialize_unique_claims :
    {S : Type 0} → Encoding → AgentRole → List ClaimDraft → Call S (List Claim)
unfolding is_unique
materialize_unique_claims encoding role drafts =
    let claims = claims_of encoding.claim_digest role drafts in
    elim (is_unique (map claim_id_of claims)) [
      | true ↦ return claims
      | false ↦ throw claims_not_unique
    ]

-- The type of the result of a security triage.
abbrev pub SecurityResult : Type 0 → Type 0
SecurityResult Confidence =
    TriageResult AnalystOutput RebuttalOutput (JudgeOutput Confidence) Confidence

module _ {S Confidence : Type 0} where
  -- The policy's answer as a call.
  unfoldable pub decided :
      Result PolicyError (FinalDecision Confidence) → Call S (FinalDecision Confidence)
  decided (ok d) = return d
  decided (err e) = throw (policy_rejected e)

  -- The result with its validator.
  unfoldable pub checked : SecurityResult Confidence → Call S (SecurityResult Confidence)
  checked result = elim (validate_trace result) [
    | ok _ ↦ return result
    | err e ↦ throw (invalid_result e)
  ]

  module _ (profile : LlmProfile) (limits : TriageLimits) (encoding : Encoding)
      (model : Model S Confidence) (registry : EvidenceRegistry) (target : TriageTarget) where
    abbrev pub setting : Setting
    setting = record {
      profile = profile;
      limits = limits;
      run_id = registry.run_id;
      target = target;
    }

    abbrev pub result_of :
        AnalystOutput
        → List Claim
        → RebuttalOutput
        → List Claim
        → JudgeOutput Confidence
        → FinalDecision Confidence
        → List ModelInvocationRecord
        → SecurityResult Confidence
    result_of analysis analyst_claims rebutting rebuttal_claims judgment decision invocations =
        record {
          target = target;
          analyst = analysis;
          analyst_claims = analyst_claims;
          rebuttal = rebutting;
          rebuttal_claims = rebuttal_claims;
          judge = judgment;
          final_decision = decision;
          invocations = invocations;
        }

    -- The result, of the decision and of the invocations so far.
    unfoldable pub conclude :
        AnalystOutput
        → List Claim
        → RebuttalOutput
        → List Claim
        → JudgeOutput Confidence
        → FinalDecision Confidence
        → Call S (SecurityResult Confidence)
    unfolding checked
    conclude analysis analyst_claims rebutting rebuttal_claims judgment decision s =
        checked
          (result_of analysis analyst_claims rebutting rebuttal_claims judgment decision
            s.invocations)
          s

    -- The policy, on what the three roles returned.
    unfoldable pub decide :
        AnalystOutput
        → List Claim
        → RebuttalOutput
        → List Claim
        → JudgeOutput Confidence
        → Call S (SecurityResult Confidence)
    unfolding apply decided conclude ◌>>=◌
    decide analysis analyst_claims rebutting rebuttal_claims judgment = do
      decision ←
          decided (apply registry target analysis analyst_claims rebutting rebuttal_claims judgment)
      conclude analysis analyst_claims rebutting rebuttal_claims judgment decision

    -- The Judge, on the claims of the other two.
    unfoldable pub run_judge :
        AnalystOutput
        → List Claim
        → RebuttalOutput
        → List Claim
        → Call S (SecurityResult Confidence)
    unfolding complete_role judge_task decide ◌>>=◌
    run_judge analysis analyst_claims rebutting rebuttal_claims = do
      judgment ← complete_role setting encoding model.ask_judge (
          judge_task encoding registry target model.judge_digest
            (analyst_claims ++ rebuttal_claims))
      decide analysis analyst_claims rebutting rebuttal_claims judgment

    -- The Rebuttal, on the claims of the Analyst.
    unfoldable pub run_rebuttal : AnalystOutput → List Claim → Call S (SecurityResult Confidence)
    unfolding complete_role rebuttal_task materialize_unique_claims run_judge ◌>>=◌
    run_rebuttal analysis analyst_claims = do
      rebutting ←
          complete_role setting encoding model.ask_rebuttal
            (rebuttal_task encoding registry target model.rebuttal_digest analyst_claims)
      rebuttal_claims ← materialize_unique_claims encoding rebuttal rebutting.claims
      run_judge analysis analyst_claims rebutting rebuttal_claims

    -- The three roles, the policy and the result, on a target with evidence.
    unfoldable pub run_roles : Call S (SecurityResult Confidence)
    unfolding complete_role analyst_task materialize_unique_claims run_rebuttal ◌>>=◌
    run_roles = do
      analysis ←
          complete_role setting encoding model.ask_analyst
            (analyst_task encoding registry target model.analyst_digest)
      analyst_claims ← materialize_unique_claims encoding analyst analysis.claims
      run_rebuttal analysis analyst_claims

    -- `TriageWorkflow.triage`, from the state of the model.
    unfoldable pub triage : S → Answer (SecurityResult Confidence) × Session S
    unfolding run_roles target_items
    triage start =
        let s : Session S = record { invocations = []; model = start } in
        elim (target.raw_result_reference.raw_sarif_sha256 == registry.raw_sarif_sha256) [
          | false ↦ throw foreign_sarif s
          | true ↦ elim (is_empty (target_items registry target)) [
            | true ↦ throw no_evidence s
            | false ↦ run_roles s
          ]
        ]
