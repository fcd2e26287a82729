-- ===== src/Policy/GateLaws.antt =====
-- The two gates that read the evidence of claims, against `DecisiveRebuttal` and `TpCase`.
use evi_triage_ql.Prelude.{
  ◌≡◌, ap, ◌∙◌, ◌↔◌, inl, inr, Bool, true, List, ◌++◌, map, arith, Bool-cases, ok, map_result,
  all_result, all_result_lem, all, In, In-append_left, In-append_right, filter-In, In-filter, any,
  elem, Unique, index_by, nat_eq, ◌&&◌, ◌||◌, ◌==◌, lookup, some,
}
use evi_triage_ql.Evidence.{
  EvidenceId, EvidenceItem, Claim, EvidenceType, ClaimKind, rebutted, supported, claim_kind_eq,
  claim_status_eq,
}
use evi_triage_ql.Evidence.Registry.{EvidenceRegistry, item_id, claim_id_of}
use evi_triage_ql.Triage.{TriageTarget, JudgeOutput}
use evi_triage_ql.Policy.{
  target_evidence, subscript, refutes_decisively, has_decisive_rebuttal, verifies_decisively, meets,
  some_claim, required_evidence_types, critical_analyst_claims, has_supported_tp_case,
}
use evi_triage_ql.Policy.Basis.{
  RefutesDecisively, VerifiesDecisively, Meets, DecisiveRebuttal, Supports, TpCase,
}
use evi_triage_ql.Policy.Trace.{In-critical, critical_ids}
use evi_triage_ql.Policy.Reflection.{
  refutes_iff, verifies_iff, meets_iff, passes, claims_value, claims_elim, claims_intro,
}

module _ {Confidence : Type 0} (registry : EvidenceRegistry) (target : TriageTarget)
    (analyst_claims rebuttal_claims : List Claim) (judge : JudgeOutput Confidence)
    (critical : List Claim) (unique : Unique (map item_id registry.items))
    (distinct : Unique (map claim_id_of (analyst_claims ++ rebuttal_claims)))
    (found : map_result
        (subscript (index_by claim_id_of (analyst_claims ++ rebuttal_claims)))
        judge.critical_claim_ids
      ≡ ok critical)
    (present : (c : Claim) (k : EvidenceId)
      → In c critical
      → In k c.evidence_ids
      → (i : EvidenceItem) × (lookup k (target_evidence registry target) ≡ some i)) where
  abbrev trace : List Claim
  trace = analyst_claims ++ rebuttal_claims

  critical_of :
      (c : Claim) → In c trace → elem c.claim_id (map claim_id_of critical) ≡ true → In c critical
  critical_of c m h =
      In-critical trace judge.critical_claim_ids critical found c distinct m
        ((critical_ids trace judge.critical_claim_ids critical found c.claim_id).0 h)

  abbrev is_rebutting : Claim → Bool
  is_rebutting c = elem c.claim_id (map claim_id_of critical) && (c.status == rebutted)

  abbrev pub rebuts : Claim → Bool
  rebuts =
      passes registry target unique refutes_decisively RefutesDecisively refutes_iff is_rebutting

  -- The gate for a false positive does not raise.
  pub has_decisive_rebuttal_value :
      has_decisive_rebuttal critical rebuttal_claims (target_evidence registry target)
      ≡ ok (any rebuts rebuttal_claims)
  unfolding has_decisive_rebuttal
  has_decisive_rebuttal_value =
      claims_value registry target unique refutes_decisively RefutesDecisively refutes_iff
        is_rebutting rebuttal_claims
        (λ c m g k n.
          present c k
            (critical_of c (In-append_right c analyst_claims rebuttal_claims m) (ground arith)) n)

  -- It opens on a decisive rebuttal, and on nothing else.
  pub has_decisive_rebuttal_iff :
      (any rebuts rebuttal_claims ≡ true)
      ↔ DecisiveRebuttal registry target analyst_claims rebuttal_claims judge
  unfolding has_decisive_rebuttal
  has_decisive_rebuttal_iff = (
    λ h.
        let (c, m, g, q) =
          claims_elim registry target unique refutes_decisively RefutesDecisively refutes_iff
            is_rebutting rebuttal_claims (has_decisive_rebuttal_value ∙ ap ok h) in
        (
          c,
          m,
          (critical_ids trace judge.critical_claim_ids critical found c.claim_id).0 (ground arith),
          (claim_status_eq.beq_iff c.status rebutted).0 (ground arith),
          q,
        ),
    λ (c, m, n, r, q).
        claims_intro registry target unique refutes_decisively RefutesDecisively refutes_iff
          is_rebutting rebuttal_claims c m
          (rw (
            (critical_ids trace judge.critical_claim_ids critical found c.claim_id).1 n,
            (claim_status_eq.beq_iff c.status rebutted).1 r,
          ))
          q,
  )

  abbrev candidates : List Claim
  candidates = critical_analyst_claims critical analyst_claims

  module _ (kind : ClaimKind) (test : EvidenceItem → Bool) (P : EvidenceItem → Type 0)
      (meaning : (i : EvidenceItem) → (test i ≡ true) ↔ P i) where
    abbrev supports : Claim → Bool
    supports = passes registry target unique test P meaning (λ c. c.kind == kind)

    some_claim_value :
        some_claim (target_evidence registry target) kind test candidates
        ≡ ok (any supports candidates)
    unfolding some_claim
    some_claim_value =
        claims_value registry target unique test P meaning (λ c. c.kind == kind) candidates
          (λ c m g k n.
            let (l, h) = filter-In _ c analyst_claims m in
            present c k
              (critical_of c (In-append_left c analyst_claims rebuttal_claims l) (ground arith)) n)

    some_claim_iff :
        (any supports candidates ≡ true)
        ↔ Supports registry target analyst_claims rebuttal_claims judge kind P
    unfolding some_claim
    some_claim_iff = (
      λ h.
          let (c, m, g, q) =
            claims_elim registry target unique test P meaning (λ c. c.kind == kind) candidates
              (some_claim_value ∙ ap ok h) in
          let (l, k) = filter-In _ c analyst_claims m in
          (
            c,
            l,
            (critical_ids trace judge.critical_claim_ids critical found c.claim_id).0
                (ground arith),
            (claim_status_eq.beq_iff c.status supported).0 (ground arith),
            (claim_kind_eq.beq_iff c.kind kind).0 g,
            q,
          ),
      λ (c, m, n, r, e, q).
          claims_intro registry target unique test P meaning (λ c. c.kind == kind) candidates c
            (In-filter _ c analyst_claims m (
              rw (
                (critical_ids trace judge.critical_claim_ids critical found c.claim_id).1 n,
                (claim_status_eq.beq_iff c.status supported).1 r,
              )))
            ((claim_kind_eq.beq_iff c.kind kind).1 e) q,
    )

  abbrev verified : Bool
  verified =
      any (supports ClaimKind.exploit_succeeds verifies_decisively VerifiesDecisively verifies_iff)
        candidates

  abbrev obliged : ClaimKind → EvidenceType → Bool
  obliged kind type = any (supports kind (meets type) (Meets type) (meets_iff type)) candidates

  obliged_value :
      (kind : ClaimKind) (type : EvidenceType)
      → some_claim (target_evidence registry target) kind (meets type) candidates
        ≡ ok (obliged kind type)
  obliged_value kind type = some_claim_value kind (meets type) (Meets type) (meets_iff type)

  abbrev obligations : Bool
  obligations = all (λ (o : ClaimKind × EvidenceType). obliged o.0 o.1) required_evidence_types

  obligations_value :
      all_result
        (λ (obligation : ClaimKind × EvidenceType).
          some_claim (target_evidence registry target) obligation.0 (meets obligation.1) candidates)
        required_evidence_types
      ≡ ok obligations
  obligations_value =
      all_result_lem _ (λ (o : ClaimKind × EvidenceType). obliged o.0 o.1) required_evidence_types
        (λ o m. obliged_value o.0 o.1)

  abbrev pub tp_case : Bool
  tp_case = verified || obligations

  -- The gate for a true positive does not raise.
  pub has_supported_tp_case_value :
      has_supported_tp_case critical analyst_claims (target_evidence registry target) ≡ ok tp_case
  unfolding has_supported_tp_case
  has_supported_tp_case_value =
      let v =
        some_claim_value ClaimKind.exploit_succeeds verifies_decisively VerifiesDecisively
          verifies_iff in
      elim (Bool-cases verified) [ inl t ↦ rw (v, t) | inr n ↦ rw (v, n) obligations_value ]

  -- It opens on a supported case, and on nothing else.
  pub has_supported_tp_case_iff :
      (tp_case ≡ true) ↔ TpCase registry target analyst_claims rebuttal_claims judge
  unfolding all
  has_supported_tp_case_iff =
      let v =
        some_claim_iff ClaimKind.exploit_succeeds verifies_decisively VerifiesDecisively
          verifies_iff in
      let o = λ (kind : ClaimKind) (type : EvidenceType).
        some_claim_iff kind (meets type) (Meets type) (meets_iff type) in
      let a = o ClaimKind.source_controllable EvidenceType.source_control in
      let b = o ClaimKind.path_feasible EvidenceType.data_flow in
      let c = o ClaimKind.sink_dangerous EvidenceType.sink_semantics in
      (
        λ h. elim (Bool-cases verified) [
          | inl t ↦ inl (v.0 t)
          | inr n ↦ inr (a.0 (ground arith), b.0 (ground arith), c.0 (ground arith))
        ],
        λ h. elim h [
          | inl t ↦ rw (v.1 t)
          | inr (p, q, r) ↦ rw (a.1 p, b.1 q, c.1 r) (ground arith)
        ],
      )
