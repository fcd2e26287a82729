-- ===== src/Policy/Basis.antt =====
-- What the policy asks for, stated of the registry and of the claims, with no dictionary and no
-- evaluation order: the specification that `apply` is compared with.
use evi_triage_ql.Prelude.{String, ◌≡◌, ◌⊎◌, List, [], ◌++◌, In, Unique, map, nat_eq}
use evi_triage_ql.Evidence.{
  EvidenceType, EvidencePolarity, supports_tp, supports_fp, medium, high, decisive, ClaimKind,
  supported, rebutted, unresolved, EvidenceItem, Claim,
}
use evi_triage_ql.Evidence.Registry.{EvidenceRegistry, item_id, claim_id_of}
use evi_triage_ql.Triage.{TriageTarget, JudgeOutput, tp, fp}

-- The item is registered for the target's alert and SARIF result.
abbrev pub OnTarget : EvidenceRegistry → TriageTarget → EvidenceItem → Type 0
OnTarget registry target i =
    In i registry.items
    × (i.alert_fingerprint ≡ target.alert_fingerprint)
    × (i.raw_result_reference ≡ target.raw_result_reference)

abbrev pub IsStrong : EvidenceItem → Type 0
IsStrong i = (i.strength ≡ high) ⊎ (i.strength ≡ decisive)

abbrev pub RefutesDecisively : EvidenceItem → Type 0
RefutesDecisively i = (i.polarity ≡ supports_fp) × (i.strength ≡ decisive)

abbrev pub VerifiesDecisively : EvidenceItem → Type 0
VerifiesDecisively i =
    (i.type ≡ EvidenceType.verification) × (i.polarity ≡ supports_tp) × (i.strength ≡ decisive)

abbrev pub Meets : EvidenceType → EvidenceItem → Type 0
Meets type i =
    (i.type ≡ type)
    × (i.polarity ≡ supports_tp)
    × ((i.strength ≡ medium) ⊎ ((i.strength ≡ high) ⊎ (i.strength ≡ decisive)))

module _ {Confidence : Type 0} (registry : EvidenceRegistry) (target : TriageTarget)
    (analyst_claims rebuttal_claims : List Claim) (judge : JudgeOutput Confidence) where
  -- A claim of the trace that the Judge names as critical.
  abbrev pub Critical : Claim → Type 0
  Critical c = In c (analyst_claims ++ rebuttal_claims) × In c.claim_id judge.critical_claim_ids

  -- An item that the Judge names, or that a critical claim cites.
  abbrev pub Considered : EvidenceItem → Type 0
  Considered i =
      OnTarget registry target i
      × (In i.evidence_id judge.critical_evidence_ids
          ⊎ ((c : Claim) × Critical c × In i.evidence_id c.evidence_ids))

  -- Strong evidence of one polarity is under consideration.
  abbrev pub HasStrong : EvidencePolarity → Type 0
  HasStrong polarity = (i : EvidenceItem) × Considered i × (i.polarity ≡ polarity) × IsStrong i

  abbrev pub HasUnresolved : Type 0
  HasUnresolved = (c : Claim) × Critical c × (c.status ≡ unresolved)

  -- The claim cites an item of the target with the property.
  abbrev pub Cites : (EvidenceItem → Type 0) → Claim → Type 0
  Cites P c =
      (i : EvidenceItem) × OnTarget registry target i × In i.evidence_id c.evidence_ids × P i

  -- A critical claim of the Rebuttal, marked rebutted, cites decisive evidence for a false positive.
  abbrev pub DecisiveRebuttal : Type 0
  DecisiveRebuttal =
      (c : Claim) × In c rebuttal_claims
      × In c.claim_id judge.critical_claim_ids
      × (c.status ≡ rebutted)
      × Cites RefutesDecisively c

  -- A critical claim of the Analyst, marked supported and of the kind, cites such evidence.
  abbrev pub Supports : ClaimKind → (EvidenceItem → Type 0) → Type 0
  Supports kind P =
      (c : Claim) × In c analyst_claims
      × In c.claim_id judge.critical_claim_ids
      × (c.status ≡ supported)
      × (c.kind ≡ kind)
      × Cites P c

  -- A verified exploit, or source, path and sink each supported by evidence of its own type.
  abbrev pub TpCase : Type 0
  TpCase =
      Supports ClaimKind.exploit_succeeds VerifiesDecisively
      ⊎ (Supports ClaimKind.source_controllable (Meets EvidenceType.source_control)
          × Supports ClaimKind.path_feasible (Meets EvidenceType.data_flow)
          × Supports ClaimKind.sink_dangerous (Meets EvidenceType.sink_semantics))

  abbrev pub NoUnknowns : List String → List String → Type 0
  NoUnknowns analyst_unknowns rebuttal_unknowns =
      (analyst_unknowns ≡ []) × (rebuttal_unknowns ≡ []) × (judge.unknowns ≡ [])

  -- When a true positive is due.
  abbrev pub TpIsDue : List String → List String → Type 0
  TpIsDue analyst_unknowns rebuttal_unknowns =
      (judge.label ≡ tp)
      × NoUnknowns analyst_unknowns rebuttal_unknowns
      × ¬ HasUnresolved
      × ¬ HasStrong supports_fp
      × TpCase

  -- When a false positive is due.
  abbrev pub FpIsDue : List String → List String → Type 0
  FpIsDue analyst_unknowns rebuttal_unknowns =
      (judge.label ≡ fp)
      × NoUnknowns analyst_unknowns rebuttal_unknowns
      × ¬ HasUnresolved
      × ¬ HasStrong supports_tp
      × DecisiveRebuttal

-- Identifiers are distinct, in the registry and among the claims of the trace.
abbrev pub Distinct : EvidenceRegistry → List Claim → List Claim → Type 0
Distinct registry analyst_claims rebuttal_claims =
    Unique (map item_id registry.items)
    × Unique (map claim_id_of (analyst_claims ++ rebuttal_claims))
