-- ===== src/ResourceWorkflow/Tests.antt =====
-- A run of src/evitriage/agents/dispatcher.py on a resource rule: the Analyst's responses are all
-- malformed.
use evi_triage_ql.Prelude.{ℕ, ◌+◌, false, none, some, [], ◌∷◌}
use evi_triage_ql.Evidence.{
  EvidenceType, supports_tp, decisive, EvidenceOrigin, EvidenceItem, ClaimContent, AgentRole,
  analyst, rebuttal, judge, RawResultReference,
}
use evi_triage_ql.Evidence.Registry.{EvidenceRegistry}
use evi_triage_ql.Triage.{TriageTarget}
use evi_triage_ql.Observability.{Json, Items}
use evi_triage_ql.Workflow.{
  TriageLimits, Provider, DataPolicy, LlmProfile, bad_response, failed, Encoding,
}
use evi_triage_ql.Workflow.Security.{Model}
use evi_triage_ql.ResourceWorkflow.Triage.{ResourceModel}
use evi_triage_ql.Prelude.{◌≡◌, refl, err}
use evi_triage_ql.Evidence.{ClaimStatus}
use evi_triage_ql.Workflow.{wrong_kind}
use evi_triage_ql.Resource.{
  ResourceKind, ResourceAssessment, AssessmentStatus, ResourceClaimDraft, ResourceClaimKind,
  ResourceRebuttalOutput,
}
use evi_triage_ql.ResourceWorkflow.{ResourceKind-discrete, validate_resource_rebuttal}
use evi_triage_ql.Workflow.Bounds.{counted_model}
use evi_triage_ql.ResourceWorkflow.Bounds.{counted_resource_model}
use evi_triage_ql.ResourceWorkflow.Dispatcher.{IsCounted, IsBounded, dispatch, dispatch-IsWithin}

abbrev result_reference : RawResultReference
result_reference = record { raw_sarif_sha256 = 7; run_index = 0; result_index = 2 }

abbrev alert : TriageTarget
alert = record { alert_fingerprint = 40; raw_result_reference = result_reference }

abbrev exploit : EvidenceItem
exploit = record {
  evidence_id = 11;
  content = record {
    alert_fingerprint = 40;
    raw_result_reference = result_reference;
    type = EvidenceType.verification;
    polarity = supports_tp;
    strength = decisive;
    origin = EvidenceOrigin.verifier;
    location = none;
    excerpt = none;
    artifact_sha256 = 5;
    extractor = "verifier";
    summary = "the exploit runs";
    path_fingerprint = none;
    source_anchor = none;
  };
}

abbrev registry : EvidenceRegistry
registry = record {
  run_id = "run";
  repository_identity = "repository";
  raw_sarif_sha256 = 7;
  artifacts = [];
  items = exploit ∷ [];
  relationships = [];
  claims = [];
}

abbrev profile : LlmProfile
profile = record {
  id = "fake";
  provider = Provider.fake;
  model_id = "scripted";
  maximum_output_tokens = 100;
  data_policy = DataPolicy.offline_only;
}

abbrev limits : TriageLimits
limits = record {
  maximum_schema_repairs_per_agent = 1;
  maximum_model_calls_per_alert = 6;
  maximum_request_bytes = 1000;
}

abbrev role_number : AgentRole → ℕ
role_number analyst = 0
role_number rebuttal = 1
role_number judge = 2

abbrev encoding : Encoding
encoding = record {
  is_secret = λ key. false;
  redact_text = λ s. s;
  claim_digest = λ (c : ClaimContent). 21 + role_number c.produced_by;
  target_json = λ t. Json.null;
  item_json = λ i. Json.null;
  claim_json = λ c. Json.null;
  number_json = λ n. Json.null;
  request_digest = λ q. 1;
  prompt_digest = λ p. 2;
  prompt_bytes = λ p. 100;
  payload_bytes = λ p. 200;
}

abbrev model : Model ℕ ℕ
model = record {
  ask_analyst = λ q n. (failed, n + 1);
  ask_rebuttal = λ q n. (failed, n + 1);
  ask_judge = λ q n. (failed, n + 1);
  analyst_digest = λ o. 3;
  rebuttal_digest = λ o. 4;
  judge_digest = λ o. 5;
}

abbrev resource_model : ResourceModel ℕ ℕ
resource_model = record {
  ask_analyst = λ q n. (bad_response (some 9) Items.nil, n + 1);
  ask_rebuttal = λ q n. (failed, n + 1);
  ask_judge = λ q n. (failed, n + 1);
  analyst_digest = λ o. 3;
  rebuttal_digest = λ o. 4;
  judge_digest = λ o. 5;
  kind_json = λ k. Json.null;
  analyst_json = λ o. Json.null;
  rebuttal_json = λ o. Json.null;
}

dispatch-IsWithin_example :
    IsCounted limits
      (dispatch profile limits encoding
        (counted_model model)
        (counted_resource_model resource_model)
        registry
        alert
        "java/unreleased-lock"
        (0, 0)).1
    × IsBounded limits
        (dispatch profile limits encoding model resource_model registry alert "java/unreleased-lock"
          0).1
dispatch-IsWithin_example =
    dispatch-IsWithin profile limits encoding model resource_model registry alert
      "java/unreleased-lock" 0

abbrev unclear : ResourceAssessment
unclear = record { status = AssessmentStatus.unknown; detail = "not seen"; evidence_ids = 11 ∷ [] }

abbrev release_claim : ResourceClaimDraft
release_claim = record {
  kind = ResourceClaimKind.resource_release;
  statement = "the lock is released";
  status = ClaimStatus.supported;
  evidence_ids = 12 ∷ [];
}

abbrev rebutting_output : ResourceRebuttalOutput
rebutting_output = record {
  resource_kind = ResourceKind.lock;
  release_coverage = unclear;
  ownership_transfer = unclear;
  resource_escape = unclear;
  callee_release_behavior = unclear;
  lifecycle_contract = unclear;
  context_gaps = [];
  claims = release_claim ∷ [];
  rebutted_claim_ids = 31 ∷ [];
  unknowns = [];
}

a_rebuttal_of_another_kind :
    validate_resource_rebuttal encoding.claim_digest ResourceKind.input
      (11 ∷ 12 ∷ [])
      (31 ∷ [])
      rebutting_output
    ≡ err wrong_kind
unfolding validate_resource_rebuttal ResourceKind-discrete
a_rebuttal_of_another_kind = refl
