-- ===== src/Policy/Run.antt =====
-- The course of a call of `apply` that returns: what its checks established on the way.
use evi_triage_ql.Prelude.{
  ℕ, String, ◌≡◌, true, false, List, ◌++◌, ok, >>=-eq-ok, unless_elim, raise_if_elim, map_result,
  sorted, stable_unique, Dict, index_by, is_empty, nat_eq, string_eq,
}
use evi_triage_ql.Evidence.{EvidenceId, EvidenceItem, Claim}
use evi_triage_ql.Evidence.Registry.{EvidenceRegistry, claim_id_of}
use evi_triage_ql.Triage.{TriageTarget, AnalystOutput, RebuttalOutput, JudgeOutput, FinalDecision}
use evi_triage_ql.Policy.{
  Verdict, target_evidence, keys_within, subscript, has_decisive_rebuttal, has_supported_tp_case,
  choose_label, final_decision, considered_ids, apply,
}

module _ {Confidence : Type 0} (registry : EvidenceRegistry) (target : TriageTarget)
    (analyst : AnalystOutput) (analyst_claims : List Claim) (rebuttal : RebuttalOutput)
    (rebuttal_claims : List Claim) (judge : JudgeOutput Confidence) where
  abbrev pub evidence : Dict EvidenceId EvidenceItem
  evidence = target_evidence registry target

  abbrev pub claims : Dict ℕ Claim
  claims = index_by claim_id_of (analyst_claims ++ rebuttal_claims)

  abbrev pub unknowns : List String
  unknowns = stable_unique (analyst.unknowns ++ (rebuttal.unknowns ++ judge.unknowns))

  pub record Run (d : FinalDecision Confidence) : Type 0 where
    pub critical : List Claim
    pub considered : List EvidenceItem
    pub verdict : Verdict
    pub has_evidence : is_empty evidence ≡ false
    pub claims_known : keys_within judge.critical_claim_ids claims ≡ true
    pub evidence_known : keys_within judge.critical_evidence_ids evidence ≡ true
    pub critical_found : map_result (subscript claims) judge.critical_claim_ids ≡ ok critical
    pub within : keys_within (considered_ids judge critical) evidence ≡ true
    pub considered_found :
        map_result (subscript evidence) (sorted (λ k. k) (considered_ids judge critical))
        ≡ ok considered
    pub chosen :
        choose_label
          (record {
            requested = judge.label;
            considered = considered;
            unknowns = unknowns;
            critical_claims = critical;
          })
          (has_decisive_rebuttal critical rebuttal_claims evidence)
          (has_supported_tp_case critical analyst_claims evidence)
        ≡ ok verdict
    pub decided : final_decision target judge unknowns verdict ≡ ok d

  pub apply-Run :
      (d : FinalDecision Confidence)
      → apply registry target analyst analyst_claims rebuttal rebuttal_claims judge ≡ ok d
      → Run d
  unfolding apply
  apply-Run d h =
      let (a, h1) = raise_if_elim _ _ _ _ h in
      let (b, h2) = unless_elim _ _ _ _ h1 in
      let (c, h3) = unless_elim _ _ _ _ h2 in
      let (critical, p, h4) =
        >>=-eq-ok (map_result (subscript claims) judge.critical_claim_ids) _ h3 in
      let (w, h5) = unless_elim _ _ _ _ h4 in
      let (considered, q, h6) =
        >>=-eq-ok
          (map_result (subscript evidence) (sorted (λ k. k) (considered_ids judge critical))) _
          h5 in
      let (v, r, h7) = >>=-eq-ok _ _ h6 in
      record {
        critical = critical;
        considered = considered;
        verdict = v;
        has_evidence = a;
        claims_known = b;
        evidence_known = c;
        critical_found = p;
        within = w;
        considered_found = q;
        chosen = r;
        decided = h7;
      }
