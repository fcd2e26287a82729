-- ===== src/Policy.antt =====
-- `DeterministicDecisionPolicy` of src/evitriage/agents/policy.py, which turns the Judge's candidate
-- into the final decision.
--
-- A subscript `d[k]` on a missing key is the error `key_error`; a validator of the decision that
-- raises is `invalid_decision`.
pub mod Basis
pub mod Trace
pub mod Reflection
pub mod GateLaws
pub mod Labels
pub mod Run
pub mod Considering
pub mod Decision
pub mod Safety
pub mod Totality
mod Tests
use evi_triage_ql.Prelude.{
  ℕ, String, Bool, true, false, not, ◌&&◌, ◌||◌, List, [], ◌∷◌, ◌++◌, map, ◌==◌, nat_eq, string_eq,
  Result, ok, err, ◌>>=◌, ◌>>◌, raise_if, or_raise, map_result, any_result, all_result, and_result,
  if◌then◌else◌, is_empty, any, all, filter, elem, to_set, stable_unique, sorted, collect, Dict,
  lookup, contains, index_by,
}
use evi_triage_ql.Evidence.{
  EvidenceId, EvidenceType, EvidencePolarity, supports_tp, supports_fp, medium, high, decisive,
  ClaimKind, supported, rebutted, unresolved, EvidenceItem, Claim, evidence_type_eq, polarity_eq,
  strength_eq, claim_kind_eq, claim_status_eq, reference_eq,
}
use evi_triage_ql.Evidence.Registry.{EvidenceRegistry, item_id, claim_id_of}
use evi_triage_ql.Triage.{
  TriageLabel, tp, fp, nmc, label_eq, PolicyFlag, TriageTarget, AnalystOutput, RebuttalOutput,
  JudgeOutput, FinalDecision, validate_decision_references, TriageError,
}

pub data PolicyError : Type 0 where
  no_evidence claim_outside_trace evidence_outside_occurrence : PolicyError
  claim_evidence_outside key_error : PolicyError
  invalid_decision : TriageError → PolicyError

-- The item belongs to the target's alert and to its SARIF result.
abbrev pub on_target : TriageTarget → EvidenceItem → Bool
on_target target item =
    (item.alert_fingerprint == target.alert_fingerprint)
    && (item.raw_result_reference == target.raw_result_reference)

-- `target_evidence`
unfoldable pub target_evidence : EvidenceRegistry → TriageTarget → Dict EvidenceId EvidenceItem
target_evidence registry target = index_by item_id (filter (on_target target) registry.items)

-- `set(ks).issubset(d)`
unfoldable pub keys_within : {V : Type 0} → List ℕ → Dict ℕ V → Bool
keys_within ks d = all (λ k. contains k d) ks

-- `d[k]`
abbrev pub subscript : {V : Type 0} → Dict ℕ V → ℕ → Result PolicyError V
subscript d k = or_raise (lookup k d) key_error

abbrev pub is_strong : EvidenceItem → Bool
is_strong item = elem item.strength (high ∷ decisive ∷ [])

-- `_has_high_polarity`
unfoldable pub has_high_polarity : List EvidenceItem → EvidencePolarity → Bool
has_high_polarity evidence polarity =
    any (λ item. (item.polarity == polarity) && is_strong item) evidence

-- `any(test(evidence[evidence_id]) for evidence_id in claim.evidence_ids)`
unfoldable pub cites :
    Dict EvidenceId EvidenceItem → (EvidenceItem → Bool) → Claim → Result PolicyError Bool
cites evidence test claim =
    any_result (λ k. subscript evidence k >>= λ item. ok (test item)) claim.evidence_ids

abbrev pub refutes_decisively : EvidenceItem → Bool
refutes_decisively item = (item.polarity == supports_fp) && (item.strength == decisive)

-- `_has_decisive_rebuttal`
unfoldable pub has_decisive_rebuttal :
    List Claim → List Claim → Dict EvidenceId EvidenceItem → Result PolicyError Bool
unfolding cites
has_decisive_rebuttal critical_claims rebuttal_claims evidence =
    let critical_ids = map claim_id_of critical_claims in
    any_result
      (λ claim.
        and_result (ok (elem claim.claim_id critical_ids && (claim.status == rebutted)))
          (cites evidence refutes_decisively claim))
      rebuttal_claims

abbrev pub verifies_decisively : EvidenceItem → Bool
verifies_decisively item =
    (item.type == EvidenceType.verification)
    && ((item.polarity == supports_tp) && (item.strength == decisive))

abbrev pub meets : EvidenceType → EvidenceItem → Bool
meets type item =
    (item.type == type)
    && ((item.polarity == supports_tp) && elem item.strength (medium ∷ high ∷ decisive ∷ []))

abbrev pub required_evidence_types : List (ClaimKind × EvidenceType)
required_evidence_types =
    (ClaimKind.source_controllable, EvidenceType.source_control)
    ∷ (ClaimKind.path_feasible, EvidenceType.data_flow)
    ∷ (ClaimKind.sink_dangerous, EvidenceType.sink_semantics)
    ∷ []

-- `any(claim.kind == kind and any(... for evidence_id in claim.evidence_ids) for claim in claims)`
unfoldable pub some_claim :
    Dict EvidenceId EvidenceItem
    → ClaimKind
    → (EvidenceItem → Bool)
    → List Claim
    → Result PolicyError Bool
unfolding cites
some_claim evidence kind test =
    any_result (λ claim. and_result (ok (claim.kind == kind)) (cites evidence test claim))

abbrev pub critical_analyst_claims : List Claim → List Claim → List Claim
critical_analyst_claims critical_claims analyst_claims =
    let critical_ids = map claim_id_of critical_claims in
    filter (λ claim. elem claim.claim_id critical_ids && (claim.status == supported)) analyst_claims

-- `_has_supported_tp_case`
unfoldable pub has_supported_tp_case :
    List Claim → List Claim → Dict EvidenceId EvidenceItem → Result PolicyError Bool
unfolding some_claim
has_supported_tp_case critical_claims analyst_claims evidence =
    let candidates = critical_analyst_claims critical_claims analyst_claims in
    some_claim evidence ClaimKind.exploit_succeeds verifies_decisively candidates
    >>= λ decisive_verification. elim decisive_verification [
      | true ↦ ok true
      | false ↦
          all_result
            (λ (obligation : ClaimKind × EvidenceType).
              some_claim evidence obligation.0 (meets obligation.1) candidates)
            required_evidence_types
    ]

-- What the chain of gates reads.
pub record Gates : Type 0 where
  pub requested : TriageLabel
  pub considered : List EvidenceItem
  pub unknowns : List String
  pub critical_claims : List Claim

abbrev pub is_unresolved : Claim → Bool
is_unresolved claim = claim.status == unresolved

abbrev pub Verdict : Type 0
Verdict = TriageLabel × List PolicyFlag

-- The branch `judge.label == "FP"`, by whether a decisive rebuttal was found.
abbrev pub fp_verdict : Bool → Verdict
fp_verdict b =
    if b
    then (fp, PolicyFlag.fp_decisive_rebuttal_present ∷ PolicyFlag.judge_label_accepted ∷ [])
    else (nmc, PolicyFlag.fp_missing_decisive_rebuttal ∷ [])

-- The last branches, by whether a supported case was found.
abbrev pub tp_verdict : Bool → Verdict
tp_verdict b =
    if b
    then (tp, PolicyFlag.judge_label_accepted ∷ [])
    else (nmc, PolicyFlag.tp_support_missing ∷ [])

-- The chain `if judge.label == "NMC" … else`: the label and the flag that is appended. The last two
-- tests are passed as calls, which are made only when they are reached.
unfoldable pub choose_label :
    Gates → Result PolicyError Bool → Result PolicyError Bool → Result PolicyError Verdict
unfolding has_high_polarity
choose_label g decisive_rebuttal supported_tp_case =
    let high_tp = has_high_polarity g.considered supports_tp in
    let high_fp = has_high_polarity g.considered supports_fp in
    if g.requested == nmc
    then ok (nmc, PolicyFlag.judge_requested_nmc ∷ [])
    else if is_empty g.considered
    then ok (nmc, PolicyFlag.critical_evidence_missing ∷ [])
    else if not (is_empty g.unknowns) || any is_unresolved g.critical_claims
    then ok (nmc, PolicyFlag.unknown_or_unresolved ∷ [])
    else if high_tp && high_fp
    then ok (nmc, PolicyFlag.conflicting_high_strength_evidence ∷ [])
    else if (g.requested == tp) && high_fp
    then ok (nmc, PolicyFlag.high_strength_fp_blocks_tp ∷ [])
    else if g.requested == fp
    then (decisive_rebuttal >>= λ b. ok (fp_verdict b))
    else supported_tp_case >>= λ b. ok (tp_verdict b)

module _ {Confidence : Type 0} where
  -- `FinalDecision(...)`, before its validator
  abbrev pub decision_record :
      TriageTarget → JudgeOutput Confidence → List String → Verdict → FinalDecision Confidence
  decision_record target judge unknowns (label, flags) = record {
    target = target;
    label = label;
    requested_label = judge.label;
    raw_confidence = judge.raw_confidence;
    critical_claim_ids = judge.critical_claim_ids;
    critical_evidence_ids = judge.critical_evidence_ids;
    unknowns = unknowns;
    reasoning_summary = judge.reasoning_summary;
    next_actions = judge.next_actions;
    fix_guidance = judge.fix_guidance;
    policy_flags = PolicyFlag.auto_dismiss_disabled ∷ flags;
    auto_dismiss = false;
  }

  -- The same with its validator, which may raise.
  unfoldable pub final_decision :
      TriageTarget
      → JudgeOutput Confidence
      → List String
      → Verdict
      → Result PolicyError (FinalDecision Confidence)
  final_decision target judge unknowns verdict =
      let decision = decision_record target judge unknowns verdict in
      elim (validate_decision_references decision) [
        | ok _ ↦ ok decision
        | err e ↦ err (invalid_decision e)
      ]

  abbrev pub considered_ids : JudgeOutput Confidence → List Claim → List EvidenceId
  considered_ids judge critical_claims =
      to_set
        (judge.critical_evidence_ids ++ collect (λ (c : Claim). c.evidence_ids) critical_claims)

  -- `DeterministicDecisionPolicy.apply`
  unfoldable pub apply :
      EvidenceRegistry
      → TriageTarget
      → AnalystOutput
      → List Claim
      → RebuttalOutput
      → List Claim
      → JudgeOutput Confidence
      → Result PolicyError (FinalDecision Confidence)
  unfolding target_evidence keys_within has_decisive_rebuttal has_supported_tp_case choose_label
      final_decision
  apply registry target analyst analyst_claims rebuttal rebuttal_claims judge = do
    let evidence = target_evidence registry target
    let claims = index_by claim_id_of (analyst_claims ++ rebuttal_claims)
    raise_if (is_empty evidence) no_evidence
    raise_if (not (keys_within judge.critical_claim_ids claims)) claim_outside_trace
    raise_if (not (keys_within judge.critical_evidence_ids evidence)) evidence_outside_occurrence
    critical_claims ← map_result (subscript claims) judge.critical_claim_ids
    raise_if (not (keys_within (considered_ids judge critical_claims) evidence))
        claim_evidence_outside
    considered ←
        map_result (subscript evidence) (sorted (λ k. k) (considered_ids judge critical_claims))
    let unknowns = stable_unique (analyst.unknowns ++ (rebuttal.unknowns ++ judge.unknowns))
    verdict ←
        choose_label
          (record {
            requested = judge.label;
            considered = considered;
            unknowns = unknowns;
            critical_claims = critical_claims;
          })
          (has_decisive_rebuttal critical_claims rebuttal_claims evidence)
          (has_supported_tp_case critical_claims analyst_claims evidence)
    final_decision target judge unknowns verdict
