-- ===== src/Policy/Reflection.antt =====
-- Each gate of the policy holds exactly when its counterpart in the specification does.
use evi_triage_ql.Prelude.{
  ◌≡◌, sym, subst, ◌↔◌, inl, inr, Bool, true, false, List, map, arith, some, none, Bool-cases, ok,
  >>=-eq-ok, any_result, any_result_lem, any_result_elim, In, any, any_intro, elem, Unique, Dict,
  lookup, nat_eq, ◌&&◌, and_result,
}
use evi_triage_ql.Evidence.{
  EvidenceId, EvidenceItem, Claim, EvidenceType, supports_tp, supports_fp, medium, high, decisive,
  evidence_type_eq, polarity_eq, strength_eq, claim_kind_eq, claim_status_eq,
}
use evi_triage_ql.Evidence.Registry.{EvidenceRegistry, item_id}
use evi_triage_ql.Triage.{TriageTarget}
use evi_triage_ql.Policy.{
  target_evidence, subscript, is_strong, cites, refutes_decisively, verifies_decisively, meets,
}
use evi_triage_ql.Policy.Basis.{OnTarget, IsStrong, RefutesDecisively, VerifiesDecisively, Meets}
use evi_triage_ql.Policy.Trace.{subscript-eq-ok, lookup-OnTarget, OnTarget-lookup}

pub is_strong_iff : (i : EvidenceItem) → (is_strong i ≡ true) ↔ IsStrong i
unfolding elem
is_strong_iff i =
    let h = strength_eq.beq_iff i.strength high in
    let d = strength_eq.beq_iff i.strength decisive in
    (λ p. ground (arith, h, d), λ p. ground (arith, h, d))

pub refutes_iff : (i : EvidenceItem) → (refutes_decisively i ≡ true) ↔ RefutesDecisively i
refutes_iff i =
    let p = polarity_eq.beq_iff i.polarity supports_fp in
    let s = strength_eq.beq_iff i.strength decisive in
    (λ h. ground (arith, p, s), λ h. ground (arith, p, s))

pub verifies_iff : (i : EvidenceItem) → (verifies_decisively i ≡ true) ↔ VerifiesDecisively i
verifies_iff i =
    let t = evidence_type_eq.beq_iff i.type EvidenceType.verification in
    let p = polarity_eq.beq_iff i.polarity supports_tp in
    let s = strength_eq.beq_iff i.strength decisive in
    (λ h. ground (arith, t, p, s), λ h. ground (arith, t, p, s))

pub meets_iff : (type : EvidenceType) (i : EvidenceItem) → (meets type i ≡ true) ↔ Meets type i
unfolding elem
meets_iff type i =
    let t = evidence_type_eq.beq_iff i.type type in
    let p = polarity_eq.beq_iff i.polarity supports_tp in
    let m = strength_eq.beq_iff i.strength medium in
    let h = strength_eq.beq_iff i.strength high in
    let d = strength_eq.beq_iff i.strength decisive in
    (λ q. ground (arith, t, p, m, h, d), λ q. ground (arith, t, p, m, h, d))

module _ (registry : EvidenceRegistry) (target : TriageTarget)
    (unique : Unique (map item_id registry.items)) where
  abbrev pub evidence : Dict EvidenceId EvidenceItem
  evidence = target_evidence registry target

  module _ (test : EvidenceItem → Bool) (P : EvidenceItem → Type 0)
      (meaning : (i : EvidenceItem) → (test i ≡ true) ↔ P i) where
    -- The claim cites an item of the target with the property.
    abbrev pub Cited : Claim → Type 0
    Cited c =
        (i : EvidenceItem) × OnTarget registry target i × In i.evidence_id c.evidence_ids × P i

    pub cites_elim : (c : Claim) → cites evidence test c ≡ ok true → Cited c
    unfolding cites
    cites_elim c h =
        let (k, m, q) = any_result_elim _ c.evidence_ids h in
        let (i, s, t) = >>=-eq-ok (subscript evidence k) _ q in
        let (on, e) = lookup-OnTarget registry target k i (subscript-eq-ok evidence k i s) in
        (i, on, subst (λ z. In z c.evidence_ids) (sym e) m, (meaning i).0 (cc t))

    -- Where each cited identifier is present, the test does not raise.
    abbrev pub holds : EvidenceId → Bool
    holds k = elim (lookup k evidence) [ none ↦ false | some i ↦ test i ]

    abbrev pub AllPresent : Claim → Type 0
    AllPresent c =
        (k : EvidenceId) → In k c.evidence_ids → (i : EvidenceItem) × (lookup k evidence ≡ some i)

    cites_value : (c : Claim) → AllPresent c → cites evidence test c ≡ ok (any holds c.evidence_ids)
    unfolding cites
    cites_value c present =
        any_result_lem _ holds c.evidence_ids (λ k m. let (i, p) = present k m in rw (p, holds))

    holds_intro : (c : Claim) → Cited c → any holds c.evidence_ids ≡ true
    holds_intro c (i, on, m, p) =
        any_intro holds i.evidence_id c.evidence_ids m
          (rw (OnTarget-lookup registry target i unique on, holds) ((meaning i).1 p))

    module _ (gate : Claim → Bool) where
      abbrev pub passes : Claim → Bool
      passes c = gate c && any holds c.evidence_ids

      -- The loop over claims does not raise where the gated claims cite only present items.
      pub claims_value :
          (mine : List Claim)
          → ((c : Claim) → In c mine → gate c ≡ true → AllPresent c)
          → any_result (λ c. and_result (ok (gate c)) (cites evidence test c)) mine
            ≡ ok (any passes mine)
      claims_value mine present = any_result_lem _ passes mine λ c m. elim (Bool-cases (gate c)) [
        | inl g ↦ rw (g, passes) (cites_value c (present c m g))
        | inr g ↦ rw (g, passes)
      ]

      pub claims_elim :
          (mine : List Claim)
          → any_result (λ c. and_result (ok (gate c)) (cites evidence test c)) mine ≡ ok true
          → (c : Claim) × In c mine × (gate c ≡ true) × Cited c
      claims_elim mine h =
          let (c, m, q) = any_result_elim _ mine h in
          elim (Bool-cases (gate c)) [
            | inl g ↦ (c, m, g, cites_elim c (rw g at q))
            | inr g ↦ absurd (cc (rw g at q))
          ]

      pub claims_intro :
          (mine : List Claim) (c : Claim)
          → In c mine
          → gate c ≡ true
          → Cited c
          → any passes mine ≡ true
      claims_intro mine c m g q = any_intro passes c mine m (rw (g, passes) (holds_intro c q))
