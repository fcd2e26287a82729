-- ===== src/Policy/Considering.antt =====
-- What a call of `apply` that returns has under consideration, where identifiers are distinct: the
-- collected claims and items are those that the specification names.
use evi_triage_ql.Prelude.{
  ◌≡◌, refl, sym, subst, ◌↔◌, inl, inr, Bool, true, false, List, [], ◌∷◌, ◌++◌, arith, some, ok,
  map_result-In, In-map_result, In, In-append, In-append_left, In-append_right, collect, collect-In,
  In-collect, sorted-In, In-sorted, to_set-In, In-to_set, Dict, lookup, is_empty, nat_eq, string_eq,
  any, any_elim, any_intro,
}
use evi_triage_ql.Evidence.{
  EvidenceId, EvidenceItem, Claim, EvidencePolarity, supports_fp, unresolved, polarity_eq,
  claim_status_eq,
}
use evi_triage_ql.Evidence.Registry.{EvidenceRegistry}
use evi_triage_ql.Triage.{TriageTarget, AnalystOutput, RebuttalOutput, JudgeOutput, FinalDecision}
use evi_triage_ql.Policy.{
  Gates, target_evidence, subscript, is_unresolved, choose_label, considered_ids, has_high_polarity,
}
use evi_triage_ql.Policy.Basis.{
  OnTarget, Critical, Considered, Distinct, HasStrong, HasUnresolved, DecisiveRebuttal, TpCase,
}
use evi_triage_ql.Policy.Trace.{
  subscript-eq-ok, keys_within_elim, lookup-OnTarget, OnTarget-lookup, critical-In, In-critical,
}
use evi_triage_ql.Policy.Reflection.{is_strong_iff}
use evi_triage_ql.Policy.GateLaws.{
  rebuts, tp_case, has_decisive_rebuttal_value, has_decisive_rebuttal_iff,
  has_supported_tp_case_value, has_supported_tp_case_iff,
}
use evi_triage_ql.Policy.Run
use evi_triage_ql.Policy.Run.{Run}

module _ {Confidence : Type 0} (registry : EvidenceRegistry) (target : TriageTarget)
    (analyst : AnalystOutput) (analyst_claims : List Claim) (rebuttal : RebuttalOutput)
    (rebuttal_claims : List Claim) (judge : JudgeOutput Confidence)
    (distinct : Distinct registry analyst_claims rebuttal_claims) (d : FinalDecision Confidence)
    (run : Run registry target analyst analyst_claims rebuttal rebuttal_claims judge d) where
  abbrev pub trace : List Claim
  trace = analyst_claims ++ rebuttal_claims

  abbrev pub evidence : Dict EvidenceId EvidenceItem
  evidence = target_evidence registry target

  critical-Critical :
      (c : Claim)
      → In c run.critical
      → Critical registry target analyst_claims rebuttal_claims judge c
  critical-Critical c m =
      critical-In trace judge.critical_claim_ids run.critical run.critical_found c m

  Critical-critical :
      (c : Claim)
      → Critical registry target analyst_claims rebuttal_claims judge c
      → In c run.critical
  Critical-critical c (m, n) =
      In-critical trace judge.critical_claim_ids run.critical run.critical_found c distinct.1 m n

  considered-Considered :
      (i : EvidenceItem)
      → In i run.considered
      → Considered registry target analyst_claims rebuttal_claims judge i
  considered-Considered i m =
      let (k, n, p) =
        map_result-In (subscript evidence) _ run.considered i run.considered_found m in
      let (on, e) = lookup-OnTarget registry target k i (subscript-eq-ok evidence k i p) in
      let l = to_set-In k _ (sorted-In (λ j. j) k _ n) in
      (
        on,
        elim (In-append k judge.critical_evidence_ids _ l) [
          | inl a ↦ inl (subst (λ z. In z judge.critical_evidence_ids) (sym e) a)
          | inr b ↦
              let (c, q, r) = collect-In (λ (c : Claim). c.evidence_ids) k run.critical b in
              inr (c, critical-Critical c q, subst (λ z. In z c.evidence_ids) (sym e) r)
        ],
      )

  Considered-considered :
      (i : EvidenceItem)
      → Considered registry target analyst_claims rebuttal_claims judge i
      → In i run.considered
  Considered-considered i (on, h) =
      let l : In i.evidence_id
          (judge.critical_evidence_ids ++ collect (λ (c : Claim). c.evidence_ids) run.critical) =
        elim h [
          | inl a ↦ In-append_left i.evidence_id judge.critical_evidence_ids _ a
          | inr (c, q, r) ↦ In-append_right i.evidence_id judge.critical_evidence_ids _ (
              In-collect (λ (c : Claim). c.evidence_ids) i.evidence_id c run.critical
                (Critical-critical c q) r)
        ] in
      let n = In-sorted (λ j. j) i.evidence_id _ (In-to_set i.evidence_id _ l) in
      let (j, m, p) =
        In-map_result (subscript evidence) _ run.considered i.evidence_id run.considered_found n in
      let q = subscript-eq-ok evidence i.evidence_id j p in
      let r = OnTarget-lookup registry target i distinct.0 on in
      let same : j ≡ i = cc (q, r) in subst (λ z. In z run.considered) same m

  pub HasStrong-iff :
      (polarity : EvidencePolarity)
      → (has_high_polarity run.considered polarity ≡ true)
        ↔ HasStrong registry target analyst_claims rebuttal_claims judge polarity
  unfolding has_high_polarity
  HasStrong-iff polarity = (
    λ h.
        let (i, m, q) = any_elim _ run.considered h in
        (
          i,
          considered-Considered i m,
          (polarity_eq.beq_iff i.polarity polarity).0 (ground arith),
          (is_strong_iff i).0 (ground arith),
        ),
    λ (i, c, p, s).
        any_intro _ i run.considered (Considered-considered i c)
          (rw ((polarity_eq.beq_iff i.polarity polarity).1 p, (is_strong_iff i).1 s)),
  )

  pub has_unresolved_iff :
      (any is_unresolved run.critical ≡ true)
      ↔ HasUnresolved registry target analyst_claims rebuttal_claims judge
  has_unresolved_iff = (
    λ h.
        let (c, m, q) = any_elim is_unresolved run.critical h in
        (c, critical-Critical c m, (claim_status_eq.beq_iff c.status unresolved).0 q),
    λ (c, k, p).
        any_intro is_unresolved c run.critical (Critical-critical c k)
          ((claim_status_eq.beq_iff c.status unresolved).1 p),
  )

  -- The evidence that a critical claim cites is stored.
  pub present :
      (c : Claim) (k : EvidenceId)
      → In c run.critical
      → In k c.evidence_ids
      → (i : EvidenceItem) × (lookup k evidence ≡ some i)
  present c k m n = keys_within_elim (considered_ids judge run.critical) evidence k run.within (
      In-to_set k _ (
        In-append_right k judge.critical_evidence_ids _
          (In-collect (λ (c : Claim). c.evidence_ids) k c run.critical m n)))

  -- The gates that read the claims, as the truth values that they return.
  abbrev pub due_fp : Bool
  due_fp =
      any
        (rebuts registry target analyst_claims rebuttal_claims judge run.critical distinct.0
          distinct.1 run.critical_found present)
        rebuttal_claims

  abbrev pub due_tp : Bool
  due_tp =
      tp_case registry target analyst_claims rebuttal_claims judge run.critical distinct.0
        distinct.1 run.critical_found present

  abbrev pub gates : Gates
  gates = record {
    requested = judge.label;
    considered = run.considered;
    unknowns = Run.unknowns registry target analyst analyst_claims rebuttal rebuttal_claims judge;
    critical_claims = run.critical;
  }

  pub chosen_value : choose_label gates (ok due_fp) (ok due_tp) ≡ ok run.verdict
  chosen_value =
      let p =
        has_decisive_rebuttal_value registry target analyst_claims rebuttal_claims judge
          run.critical distinct.0 distinct.1 run.critical_found present in
      let q =
        has_supported_tp_case_value registry target analyst_claims rebuttal_claims judge
          run.critical distinct.0 distinct.1 run.critical_found present in
      rw (p, q) at run.chosen

  pub due_fp_iff :
      (due_fp ≡ true) ↔ DecisiveRebuttal registry target analyst_claims rebuttal_claims judge
  due_fp_iff =
      has_decisive_rebuttal_iff registry target analyst_claims rebuttal_claims judge run.critical
        distinct.0 distinct.1 run.critical_found present

  pub due_tp_iff : (due_tp ≡ true) ↔ TpCase registry target analyst_claims rebuttal_claims judge
  due_tp_iff =
      has_supported_tp_case_iff registry target analyst_claims rebuttal_claims judge run.critical
        distinct.0 distinct.1 run.critical_found present

  -- A claim of the trace that is critical and cites an item of the target puts it under
  -- consideration.
  citing :
      (c : Claim) (i : EvidenceItem)
      → In c trace
      → In c.claim_id judge.critical_claim_ids
      → OnTarget registry target i
      → In i.evidence_id c.evidence_ids
      → Considered registry target analyst_claims rebuttal_claims judge i
  citing c i m n on k = (on, inr (c, (m, n), k))

  pub considers :
      (i : EvidenceItem)
      → Considered registry target analyst_claims rebuttal_claims judge i
      → is_empty run.considered ≡ false
  considers i c = nonempty run.considered (Considered-considered i c)
    where
      nonempty : (xs : List EvidenceItem) → In i xs → is_empty xs ≡ false
      nonempty [] m = absurd m
      nonempty (x ∷ xs) m = refl

  pub tp_considers :
      TpCase registry target analyst_claims rebuttal_claims judge → is_empty run.considered ≡ false
  tp_considers (inl (c, m, n, _, _, (i, on, k, _))) =
      considers i (citing c i (In-append_left c analyst_claims rebuttal_claims m) n on k)
  tp_considers (inr ((c, m, n, _, _, (i, on, k, _)), _, _)) =
      considers i (citing c i (In-append_left c analyst_claims rebuttal_claims m) n on k)

  pub fp_strong :
      DecisiveRebuttal registry target analyst_claims rebuttal_claims judge
      → HasStrong registry target analyst_claims rebuttal_claims judge supports_fp
  fp_strong (c, m, n, _, (i, on, k, (p, s))) =
      (i, citing c i (In-append_right c analyst_claims rebuttal_claims m) n on k, p, inr s)
