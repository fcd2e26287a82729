-- ===== src/ResourcePolicy/Tests.antt =====
-- A run of the resource policy of src/evitriage/agents/resource_policy.py on a leaked input stream.
use evi_triage_ql.Prelude.{ℕ, false, none, some, [], ◌∷◌, nat_eq}
use evi_triage_ql.Evidence.{
  EvidenceType, supports_tp, high, EvidenceOrigin, EvidenceItem, Claim, ClaimKind, supported,
  analyst, RawResultReference,
}
use evi_triage_ql.Evidence.Registry.{EvidenceRegistry}
use evi_triage_ql.Triage.{TriageTarget, FinalDecision, PolicyFlag, tp}
use evi_triage_ql.Resource.{
  input, AssessmentStatus, yes, ResourceAssessment, ResourceAnalystOutput, ResourceRebuttalOutput,
  ResourceJudgeOutput, ExitKind,
}

abbrev leak_reference : RawResultReference
leak_reference = record { raw_sarif_sha256 = 7; run_index = 0; result_index = 1 }

abbrev leak_target : TriageTarget
leak_target = record { alert_fingerprint = 41; raw_result_reference = leak_reference }

abbrev leak_item : EvidenceItem
leak_item = record {
  evidence_id = 11;
  content = record {
    alert_fingerprint = 41;
    raw_result_reference = leak_reference;
    type = EvidenceType.resource_lifecycle;
    polarity = supports_tp;
    strength = high;
    origin = EvidenceOrigin.repository;
    location = none;
    excerpt = none;
    artifact_sha256 = 5;
    extractor = "slice";
    summary = "a stream is opened";
    path_fingerprint = none;
    source_anchor = none;
  };
}

abbrev acquisition_claim : Claim
acquisition_claim = record {
  claim_id = 21;
  content = record {
    kind = ClaimKind.resource_acquisition;
    statement = "the stream is opened";
    status = supported;
    evidence_ids = 11 ∷ [];
    produced_by = analyst;
  };
}

abbrev exit_claim : Claim
exit_claim = record {
  claim_id = 22;
  content = record {
    kind = ClaimKind.feasible_unreleased_exit;
    statement = "the method returns with the stream open";
    status = supported;
    evidence_ids = 11 ∷ [];
    produced_by = analyst;
  };
}

abbrev leak_registry : EvidenceRegistry
leak_registry = record {
  run_id = "run";
  repository_identity = "repository";
  raw_sarif_sha256 = 7;
  artifacts = [];
  items = leak_item ∷ [];
  relationships = [];
  claims = [];
}

abbrev nothing : ResourceAssessment
nothing = record { status = AssessmentStatus.absent; detail = "none"; evidence_ids = 11 ∷ [] }

abbrev leak_analysis : ResourceAnalystOutput
leak_analysis = record {
  resource_kind = input;
  acquisition_succeeds = yes;
  acquisition_condition = "always";
  acquisition_evidence_ids = 11 ∷ [];
  release_sites = [];
  release_coverage = nothing;
  feasible_unreleased_exit = record {
    status = AssessmentStatus.confirmed;
    exit_kind = some ExitKind.return;
    detail = "early return";
    evidence_ids = 11 ∷ [];
  };
  ownership_transfer = nothing;
  resource_escape = nothing;
  callee_release_behavior = nothing;
  lifecycle_contract = nothing;
  context_gaps = [];
  claims = [];
  unknowns = [];
}

abbrev leak_rebuttal : ResourceRebuttalOutput
leak_rebuttal = record {
  resource_kind = input;
  release_coverage = nothing;
  ownership_transfer = nothing;
  resource_escape = nothing;
  callee_release_behavior = nothing;
  lifecycle_contract = nothing;
  context_gaps = [];
  claims = [];
  rebutted_claim_ids = [];
  unknowns = [];
}

abbrev leak_judgment : ResourceJudgeOutput ℕ
leak_judgment = record {
  resource_kind = input;
  judgment = record {
    label = tp;
    raw_confidence = 80;
    critical_claim_ids = 21 ∷ 22 ∷ [];
    critical_evidence_ids = 11 ∷ [];
    unknowns = [];
    reasoning_summary = "leak";
    next_actions = [];
    fix_guidance = [];
  };
}

abbrev leak_decision : FinalDecision ℕ
leak_decision = record {
  target = leak_target;
  label = tp;
  requested_label = tp;
  raw_confidence = 80;
  critical_claim_ids = 21 ∷ 22 ∷ [];
  critical_evidence_ids = 11 ∷ [];
  unknowns = [];
  reasoning_summary = "leak";
  next_actions = [];
  fix_guidance = [];
  policy_flags =
      PolicyFlag.auto_dismiss_disabled ∷ PolicyFlag.resource_tp_basis_confirmed
      ∷ PolicyFlag.judge_label_accepted ∷ [];
  auto_dismiss = false;
}
