-- ===== src/Workflow/Tests.antt =====
-- A run of the security workflow of src/evitriage/agents/workflow.py on one alert: the Analyst's first
-- response is malformed, and its repair names the verified exploit.
use evi_triage_ql.Prelude.{
  ℕ, zero, suc, ◌+◌, subst, elem, is_unique, to_set, filter, any, all, contains, map_result,
  collect, sorted, index_by, stable_unique, any_result, all_result, is_subset, ◌*◌, ◌≤◌, ◌≡◌, refl,
  false, none, [], ◌∷◌, length, arith, ok,
}
use evi_triage_ql.Evidence.{
  EvidenceType, supports_tp, decisive, EvidenceOrigin, EvidenceItem, ClaimContent, AgentRole,
  analyst, rebuttal, judge, supported, RawResultReference, reference_beq, ClaimStatus-discrete,
  EvidencePolarity-discrete, EvidenceStrength-discrete, ClaimKind-discrete, EvidenceType-discrete,
  AgentRole-discrete,
}
use evi_triage_ql.Evidence.Registry.{EvidenceRegistry}
use evi_triage_ql.Triage.{
  TriageTarget, SecurityClaimKind, AnalystOutput, RebuttalOutput, JudgeOutput, tp,
  validate_unique_lists, validate_decision_references, validate_trace, materialize_claim,
  TriageLabel-discrete, PolicyFlag-discrete, InvocationStatus-discrete,
}
use evi_triage_ql.Observability.{Items, Json}
use evi_triage_ql.Workflow.{
  TriageLimits, Provider, DataPolicy, LlmProfile, Request, Reply, replied, bad_response, Encoding,
}
use evi_triage_ql.Policy.{apply}
use evi_triage_ql.Workflow.Role.{is_oversized}
use evi_triage_ql.Workflow.Security.{Model, triage}
use evi_triage_ql.Workflow.Bounds.{counted_model, triage-IsWithin}
use evi_triage_ql.Workflow.Complete.{triage-IsOutcome}
use evi_triage_ql.Workflow.Ends.{IsOutcome}

abbrev result_reference : RawResultReference
result_reference = record { raw_sarif_sha256 = 7; run_index = 0; result_index = 2 }

abbrev alert : TriageTarget
alert = record { alert_fingerprint = 40; raw_result_reference = result_reference }

abbrev exploit : EvidenceItem
exploit = record {
  evidence_id = 11;
  content = record {
    alert_fingerprint = 40;
    raw_result_reference = result_reference;
    type = EvidenceType.verification;
    polarity = supports_tp;
    strength = decisive;
    origin = EvidenceOrigin.verifier;
    location = none;
    excerpt = none;
    artifact_sha256 = 5;
    extractor = "verifier";
    summary = "the exploit runs";
    path_fingerprint = none;
    source_anchor = none;
  };
}

abbrev registry : EvidenceRegistry
registry = record {
  run_id = "run";
  repository_identity = "repository";
  raw_sarif_sha256 = 7;
  artifacts = [];
  items = exploit ∷ [];
  relationships = [];
  claims = [];
}

abbrev profile : LlmProfile
profile = record {
  id = "fake";
  provider = Provider.fake;
  model_id = "scripted";
  maximum_output_tokens = 100;
  data_policy = DataPolicy.offline_only;
}

abbrev limits : TriageLimits
limits = record {
  maximum_schema_repairs_per_agent = 1;
  maximum_model_calls_per_alert = 6;
  maximum_request_bytes = 1000;
}

abbrev role_number : AgentRole → ℕ
role_number analyst = 0
role_number rebuttal = 1
role_number judge = 2

abbrev encoding : Encoding
encoding = record {
  is_secret = λ key. false;
  redact_text = λ s. s;
  claim_digest = λ (c : ClaimContent). 21 + role_number c.produced_by;
  target_json = λ t. Json.null;
  item_json = λ i. Json.null;
  claim_json = λ c. Json.null;
  number_json = λ n. Json.null;
  request_digest = λ q. 1;
  prompt_digest = λ p. 2;
  prompt_bytes = λ p. 100;
  payload_bytes = λ p. 200;
}

abbrev findings : AnalystOutput
findings = record {
  claims =
      record {
        kind = SecurityClaimKind.exploit_succeeds;
        statement = "the exploit succeeds";
        status = supported;
        evidence_ids = 11 ∷ [];
      }
      ∷ [];
  unknowns = [];
}

abbrev no_rebuttal : RebuttalOutput
no_rebuttal = record { claims = []; rebutted_claim_ids = []; unknowns = [] }

abbrev judgment : JudgeOutput ℕ
judgment = record {
  label = tp;
  raw_confidence = 90;
  critical_claim_ids = 21 ∷ [];
  critical_evidence_ids = 11 ∷ [];
  unknowns = [];
  reasoning_summary = "verified";
  next_actions = [];
  fix_guidance = [];
}

-- The state counts the calls; the first one gets a malformed response.
abbrev first_is_malformed : ℕ → Reply AnalystOutput
first_is_malformed zero = bad_response none Items.nil
first_is_malformed (suc n) = replied findings

abbrev model : Model ℕ ℕ
model = record {
  ask_analyst = λ q n. (first_is_malformed n, n + 1);
  ask_rebuttal = λ q n. (replied no_rebuttal, n + 1);
  ask_judge = λ q n. (replied judgment, n + 1);
  analyst_digest = λ o. 3;
  rebuttal_digest = λ o. 4;
  judge_digest = λ o. 5;
}

role_of_number : (c d : AgentRole) → 21 + role_number c ≡ 21 + role_number d → c ≡ d
role_of_number analyst analyst h = refl
role_of_number rebuttal rebuttal h = refl
role_of_number judge judge h = refl
role_of_number analyst rebuttal h = absurd (omega arith)
role_of_number analyst judge h = absurd (omega arith)
role_of_number rebuttal analyst h = absurd (omega arith)
role_of_number rebuttal judge h = absurd (omega arith)
role_of_number judge analyst h = absurd (omega arith)
role_of_number judge rebuttal h = absurd (omega arith)

judgment_is_unique :
    (request : Request) (n : ℕ) (output : JudgeOutput ℕ)
    → (model.ask_judge request n).0 ≡ replied output
    → validate_unique_lists output ≡ ok tt
unfolding validate_unique_lists is_unique
judgment_is_unique request n output h =
    let same : judgment ≡ output = cc h in subst (λ o. validate_unique_lists o ≡ ok tt) same refl

triage-IsWithin_example :
    ((triage profile limits encoding (counted_model model) registry alert (0, 0)).1.model.1 ≤ 6)
    × ((triage profile limits encoding (counted_model model) registry alert (0, 0)).1.model.1
        ≤ 3 * (1 + 1))
    × (length (triage profile limits encoding model registry alert 0).1.invocations ≤ 6)
    × (length (triage profile limits encoding model registry alert 0).1.invocations ≤ 3 * (1 + 1))
triage-IsWithin_example = triage-IsWithin profile limits encoding model registry alert 0

calls : length (triage profile limits encoding model registry alert 0).1.invocations ≡ 4
unfolding triage filter is_unique elem to_set all any collect sorted contains map_result index_by
    stable_unique any_result all_result is_subset reference_beq is_oversized ClaimStatus-discrete
    EvidencePolarity-discrete EvidenceStrength-discrete ClaimKind-discrete EvidenceType-discrete
    TriageLabel-discrete PolicyFlag-discrete AgentRole-discrete InvocationStatus-discrete
    validate_trace apply materialize_claim validate_decision_references
calls = refl

triage-IsOutcome_example :
    IsOutcome registry alert (triage profile limits encoding model registry alert 0)
unfolding elem
triage-IsOutcome_example =
    triage-IsOutcome profile limits encoding model registry alert 0 (refl, tt)
      (λ c d h. role_of_number c.produced_by d.produced_by h)
      (λ q n output h. judgment_is_unique q n output h)
