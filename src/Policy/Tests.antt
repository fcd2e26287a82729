-- ===== src/Policy/Tests.antt =====
-- Runs of the decision policy of src/evitriage/agents/policy.py on a verified exploit.
use evi_triage_ql.Prelude.{
  ℕ, ◌≡◌, refl, ◌↔◌, ◌⊎◌, inl, inr, false, none, [], ◌∷◌, ok, nat_eq, elem, all, contains,
  map_result, to_set, collect, sorted, stable_unique, any, any_result, all_result, index_by, filter,
  In, sym, subst, is_unique,
}
use evi_triage_ql.Evidence.{
  EvidenceType, supports_tp, decisive, EvidenceOrigin, EvidenceItem, Claim, ClaimKind, supported,
  analyst, RawResultReference, reference_beq, ClaimStatus-discrete, EvidencePolarity-discrete,
  EvidenceStrength-discrete, ClaimKind-discrete, EvidenceType-discrete,
}
use evi_triage_ql.Evidence.Registry.{EvidenceRegistry}
use evi_triage_ql.Triage.{
  TriageTarget, AnalystOutput, RebuttalOutput, JudgeOutput, FinalDecision, PolicyFlag, tp, fp, nmc,
  validate_decision_references, validate_unique_lists, TriageLabel-discrete, PolicyFlag-discrete,
}
use evi_triage_ql.Policy.{apply}
use evi_triage_ql.Policy.Basis.{TpIsDue, FpIsDue, Distinct, OnTarget}
use evi_triage_ql.Policy.Decision.{apply-label}
use evi_triage_ql.Policy.Safety.{apply-IsConservative, IsConservative}
use evi_triage_ql.Policy.Totality.{apply-total, IsGrounded}

abbrev result_reference : RawResultReference
result_reference = record { raw_sarif_sha256 = 7; run_index = 0; result_index = 2 }

abbrev alert : TriageTarget
alert = record { alert_fingerprint = 40; raw_result_reference = result_reference }

abbrev exploit : EvidenceItem
exploit = record {
  evidence_id = 11;
  content = record {
    alert_fingerprint = 40;
    raw_result_reference = result_reference;
    type = EvidenceType.verification;
    polarity = supports_tp;
    strength = decisive;
    origin = EvidenceOrigin.verifier;
    location = none;
    excerpt = none;
    artifact_sha256 = 5;
    extractor = "verifier";
    summary = "the exploit runs";
    path_fingerprint = none;
    source_anchor = none;
  };
}

abbrev exploit_claim : Claim
exploit_claim = record {
  claim_id = 21;
  content = record {
    kind = ClaimKind.exploit_succeeds;
    statement = "the exploit succeeds";
    status = supported;
    evidence_ids = 11 ∷ [];
    produced_by = analyst;
  };
}

abbrev exploit_registry : EvidenceRegistry
exploit_registry = record {
  run_id = "run";
  repository_identity = "repository";
  raw_sarif_sha256 = 7;
  artifacts = [];
  items = exploit ∷ [];
  relationships = [];
  claims = [];
}

abbrev no_findings : AnalystOutput
no_findings = record { claims = []; unknowns = [] }

abbrev no_rebuttal : RebuttalOutput
no_rebuttal = record { claims = []; rebutted_claim_ids = []; unknowns = [] }

abbrev tp_judgment : JudgeOutput ℕ
tp_judgment = record {
  label = tp;
  raw_confidence = 90;
  critical_claim_ids = 21 ∷ [];
  critical_evidence_ids = 11 ∷ [];
  unknowns = [];
  reasoning_summary = "verified";
  next_actions = [];
  fix_guidance = [];
}

abbrev tp_decision : FinalDecision ℕ
tp_decision = record {
  target = alert;
  label = tp;
  requested_label = tp;
  raw_confidence = 90;
  critical_claim_ids = 21 ∷ [];
  critical_evidence_ids = 11 ∷ [];
  unknowns = [];
  reasoning_summary = "verified";
  next_actions = [];
  fix_guidance = [];
  policy_flags = PolicyFlag.auto_dismiss_disabled ∷ PolicyFlag.judge_label_accepted ∷ [];
  auto_dismiss = false;
}

tp_run :
    apply exploit_registry alert no_findings (exploit_claim ∷ []) no_rebuttal [] tp_judgment
    ≡ ok tp_decision
unfolding apply index_by filter reference_beq is_unique validate_decision_references elem all
    contains map_result to_set collect sorted stable_unique any any_result all_result
    ClaimStatus-discrete EvidencePolarity-discrete EvidenceStrength-discrete ClaimKind-discrete
    EvidenceType-discrete TriageLabel-discrete PolicyFlag-discrete
tp_run = refl

Distinct-identifiers : Distinct exploit_registry (exploit_claim ∷ []) []
unfolding elem
Distinct-identifiers = ((refl, tt), (refl, tt))

apply-label_example :
    ((tp_decision.label ≡ tp)
      ↔ TpIsDue exploit_registry alert (exploit_claim ∷ []) [] tp_judgment [] [])
    × ((tp_decision.label ≡ fp)
        ↔ FpIsDue exploit_registry alert (exploit_claim ∷ []) [] tp_judgment [] [])
    × ((tp_decision.label ≡ tp) ⊎ ((tp_decision.label ≡ fp) ⊎ (tp_decision.label ≡ nmc)))
apply-label_example =
    apply-label exploit_registry alert no_findings (exploit_claim ∷ []) no_rebuttal [] tp_judgment
      tp_decision Distinct-identifiers tp_run

apply-IsConservative_example :
    (tp_decision.auto_dismiss ≡ false)
    × (tp_decision.requested_label ≡ tp)
    × IsConservative tp tp_decision.label tp_decision.policy_flags
    × (validate_decision_references tp_decision ≡ ok tt)
apply-IsConservative_example =
    apply-IsConservative exploit_registry alert no_findings (exploit_claim ∷ []) no_rebuttal []
      tp_judgment tp_decision tp_run

cited_by : (c : Claim) (k : ℕ) → In c (exploit_claim ∷ []) → In k c.evidence_ids → k ≡ 11
cited_by c k (inr x) m = absurd x
cited_by c k (inl e) m = elim (subst (λ (d : Claim). In k d.evidence_ids) e m) [
  | inl q ↦ q
  | inr x ↦ absurd x
]

judgment_lists : validate_unique_lists tp_judgment ≡ ok tt
unfolding validate_unique_lists is_unique
judgment_lists = refl

grounded : IsGrounded exploit_registry alert (exploit_claim ∷ []) [] tp_judgment
grounded =
    let item : OnTarget exploit_registry alert exploit = (inl refl, refl, refl) in
    (
      (exploit, item),
      λ k m. elim m [ inl e ↦ (exploit_claim, inl refl, sym e) | inr x ↦ absurd x ],
      λ k m. elim m [ inl e ↦ (exploit, item, sym e) | inr x ↦ absurd x ],
      λ c k critical m. (exploit, item, sym (cited_by c k critical.0 m)),
    )

apply-total_example :
    (d : FinalDecision ℕ) × (apply exploit_registry alert no_findings
        (exploit_claim ∷ [])
        no_rebuttal
        []
        tp_judgment
      ≡ ok d)
apply-total_example =
    apply-total exploit_registry alert no_findings (exploit_claim ∷ []) no_rebuttal [] tp_judgment
      Distinct-identifiers grounded judgment_lists
