-- ===== src/Policy/Totality.antt =====
-- When the policy returns a decision: no subscript fails and no validator of the decision raises.
use evi_triage_ql.Prelude.{
  ℕ, String, ◌≡◌, refl, subst, inl, inr, true, false, List, [], ◌∷◌, ◌++◌, arith, some, ok, In,
  In-append, collect-In, sorted, sorted-In, to_set-In, stable_unique, stable_unique-Unique, Dict,
  lookup, index_by, In-lookup-index_by, is_empty, nat_eq, string_eq, is_unique, is_unique_iff, any,
}
use evi_triage_ql.Evidence.{EvidenceId, EvidenceItem, Claim}
use evi_triage_ql.Evidence.Registry.{EvidenceRegistry, claim_id_of}
use evi_triage_ql.Triage.{
  TriageTarget, AnalystOutput, RebuttalOutput, JudgeOutput, FinalDecision, validate_unique_lists,
  validate_decision_references, PolicyFlag, policy_flag_eq,
}
use evi_triage_ql.Policy.{
  Verdict, Gates, target_evidence, final_decision, considered_ids, decision_record, apply,
}
use evi_triage_ql.Policy.Basis.{OnTarget, Critical, Distinct}
use evi_triage_ql.Policy.Trace.{keys_within_intro, subscripts_total, OnTarget-present, critical-In}
use evi_triage_ql.Policy.GateLaws.{
  rebuts, tp_case, has_decisive_rebuttal_value, has_supported_tp_case_value,
}
use evi_triage_ql.Policy.Labels.{choose_label-IsSound}

-- The identifier names an item of the target.
abbrev pub NamesItem : EvidenceRegistry → TriageTarget → EvidenceId → Type 0
NamesItem registry target k = (i : EvidenceItem) × OnTarget registry target i × (i.evidence_id ≡ k)

-- The target has evidence, the Judge cites claims of the trace and items of the target, and the
-- critical claims cite items of the target.
abbrev pub IsGrounded :
    {Confidence : Type 0}
    → EvidenceRegistry
    → TriageTarget
    → List Claim
    → List Claim
    → JudgeOutput Confidence
    → Type 0
IsGrounded registry target analyst_claims rebuttal_claims judge =
    ((i : EvidenceItem) × OnTarget registry target i)
    × ((k : ℕ)
        → In k judge.critical_claim_ids
        → (c : Claim) × In c (analyst_claims ++ rebuttal_claims) × (c.claim_id ≡ k))
    × ((k : EvidenceId) → In k judge.critical_evidence_ids → NamesItem registry target k)
    × ((c : Claim) (k : EvidenceId)
        → Critical registry target analyst_claims rebuttal_claims judge c
        → In k c.evidence_ids
        → NamesItem registry target k)

-- The validator of the decision accepts what the policy passes to it.
decision_accepted :
    {Confidence : Type 0} (target : TriageTarget) (judge : JudgeOutput Confidence)
    (texts : List String) (v : Verdict)
    → validate_unique_lists judge ≡ ok tt
    → is_unique (PolicyFlag.auto_dismiss_disabled ∷ v.1) ≡ true
    → final_decision target judge (stable_unique texts) v
      ≡ ok (decision_record target judge (stable_unique texts) v)
unfolding final_decision validate_unique_lists validate_decision_references
decision_accepted target judge texts v h u =
    let s : is_unique (stable_unique texts) ≡ true =
      (is_unique_iff (stable_unique texts)).1 (stable_unique-Unique texts) in
    ground arith

module _ {Confidence : Type 0} (registry : EvidenceRegistry) (target : TriageTarget)
    (analyst : AnalystOutput) (analyst_claims : List Claim) (rebuttal : RebuttalOutput)
    (rebuttal_claims : List Claim) (judge : JudgeOutput Confidence)
    (distinct : Distinct registry analyst_claims rebuttal_claims)
    (grounded : IsGrounded registry target analyst_claims rebuttal_claims judge) where
  abbrev evidence : Dict EvidenceId EvidenceItem
  evidence = target_evidence registry target

  abbrev claims : Dict ℕ Claim
  claims = index_by claim_id_of (analyst_claims ++ rebuttal_claims)

  stored :
      (k : EvidenceId)
      → NamesItem registry target k
      → (i : EvidenceItem) × (lookup k evidence ≡ some i)
  stored k (i, on, e) =
      subst (λ z. (j : EvidenceItem) × (lookup z evidence ≡ some j)) e
        (OnTarget-present registry target i on)

  known : (k : ℕ) → In k judge.critical_claim_ids → (c : Claim) × (lookup k claims ≡ some c)
  known k m =
      let (c, n, e) = grounded.1 k m in
      subst (λ z. (j : Claim) × (lookup z claims ≡ some j)) e
        (In-lookup-index_by claim_id_of (analyst_claims ++ rebuttal_claims) c n)

  has_evidence : is_empty evidence ≡ false
  unfolding lookup
  has_evidence =
      let (i, on) = grounded.0 in
      let (j, p) = stored i.evidence_id (i, on, refl) in nonempty evidence i.evidence_id j p
    where
      nonempty :
          (d : Dict EvidenceId EvidenceItem) (k : EvidenceId) (j : EvidenceItem)
          → lookup k d ≡ some j
          → is_empty d ≡ false
      nonempty [] k j p = cc p
      nonempty (x ∷ d) k j p = refl

  module _ (accepted : validate_unique_lists judge ≡ ok tt) where
    total :
        (d : FinalDecision Confidence) × (apply registry target analyst analyst_claims rebuttal
            rebuttal_claims judge
          ≡ ok d)
    unfolding apply
    total =
        let (critical, found) = subscripts_total judge.critical_claim_ids claims known in
        let cited = λ (c : Claim) (k : EvidenceId) (m : In c critical) (n : In k c.evidence_ids).
          stored k (
            grounded.3 c k
              (critical-In (analyst_claims ++ rebuttal_claims) judge.critical_claim_ids critical
                found c m)
              n) in
        let named = λ (k : EvidenceId) (m : In k (considered_ids judge critical)).
          let r : (i : EvidenceItem) × (lookup k evidence ≡ some i) =
            elim (In-append k judge.critical_evidence_ids _ (to_set-In k _ m)) [
              | inl a ↦ stored k (grounded.2 k a)
              | inr b ↦
                  let (c, n, q) = collect-In (λ (c : Claim). c.evidence_ids) k critical b in
                  cited c k n q
            ] in
          r in
        let (considered, seen) =
          subscripts_total (sorted (λ k. k) (considered_ids judge critical)) evidence
            (λ k m. named k (sorted-In (λ j. j) k _ m)) in
        let p =
          has_decisive_rebuttal_value registry target analyst_claims rebuttal_claims judge critical
            distinct.0 distinct.1 found cited in
        let q =
          has_supported_tp_case_value registry target analyst_claims rebuttal_claims judge critical
            distinct.0 distinct.1 found cited in
        let texts = analyst.unknowns ++ (rebuttal.unknowns ++ judge.unknowns) in
        let gates : Gates = record {
          requested = judge.label;
          considered = considered;
          unknowns = stable_unique texts;
          critical_claims = critical;
        } in
        let (v, chosen, unique, _) =
          choose_label-IsSound gates
            (any
              (rebuts registry target analyst_claims rebuttal_claims judge critical distinct.0
                distinct.1 found cited)
              rebuttal_claims)
            (tp_case registry target analyst_claims rebuttal_claims judge critical distinct.0
              distinct.1 found cited) in
        let a = keys_within_intro judge.critical_claim_ids claims known in
        let b =
          keys_within_intro judge.critical_evidence_ids evidence
            (λ k m. stored k (grounded.2 k m)) in
        let w = keys_within_intro (considered_ids judge critical) evidence named in
        (
          decision_record target judge (stable_unique texts) v,
          rw (has_evidence, a, b, found, w, seen, p, q, chosen)
              (decision_accepted target judge texts v accepted unique),
        )

-- For distinct identifiers, a target that has evidence, a Judge's output that its validator accepts
-- and that cites claims of the trace and items of the target, and critical claims that cite items of
-- the target, the policy returns a decision: no lookup fails and no validator raises.
pub apply-total :
    {Confidence : Type 0} (registry : EvidenceRegistry) (target : TriageTarget)
    (analyst : AnalystOutput) (analyst_claims : List Claim) (rebuttal : RebuttalOutput)
    (rebuttal_claims : List Claim) (judge : JudgeOutput Confidence)
    → Distinct registry analyst_claims rebuttal_claims
    → IsGrounded registry target analyst_claims rebuttal_claims judge
    → validate_unique_lists judge ≡ ok tt
    → (d : FinalDecision Confidence) × (apply registry target analyst analyst_claims rebuttal
          rebuttal_claims judge
        ≡ ok d)
apply-total registry target analyst analyst_claims rebuttal rebuttal_claims judge u g h =
    total registry target analyst analyst_claims rebuttal rebuttal_claims judge u g h
