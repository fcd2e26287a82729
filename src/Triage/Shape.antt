-- ===== src/Triage/Shape.antt =====
-- The validator of `Claim` (src/evitriage/domain/evidence.py) on what `materialize_claim` of
-- src/evitriage/domain/triage.py makes.
use evi_triage_ql.Prelude.{◌≡◌, refl, ◌↔◌, Bool, true, false, ok, raise_if, ◌>>◌}
use evi_triage_ql.Evidence.{AgentRole, ClaimContent, ClaimId, validate_local_evidence_shape}
use evi_triage_ql.Triage.{ClaimDraft, validate_evidence_shape, materialize_claim}

-- Two chains of the same two checks accept the same.
same_checks :
    {D E : Type 0} (a b : Bool) (d0 d1 : D) (e0 e1 : E)
    → ((raise_if a d0 >> raise_if b d1) ≡ ok tt) ↔ ((raise_if a e0 >> raise_if b e1) ≡ ok tt)
same_checks true b d0 d1 e0 e1 = (λ h. absurd (cc h), λ h. absurd (cc h))
same_checks false true d0 d1 e0 e1 = (λ h. absurd (cc h), λ h. absurd (cc h))
same_checks false false d0 d1 e0 e1 = (λ h. refl, λ h. refl)

-- The validator of a claim accepts what a draft is made into exactly when that of the draft accepts
-- the draft.
materialize_claim-shape :
    (digest : ClaimContent → ClaimId) (role : AgentRole) (draft : ClaimDraft)
    → (validate_evidence_shape draft ≡ ok tt)
      ↔ (validate_local_evidence_shape (materialize_claim digest role draft) ≡ ok tt)
unfolding validate_evidence_shape validate_local_evidence_shape materialize_claim
materialize_claim-shape digest role draft = same_checks _ _ _ _ _ _
