-- ===== src/Workflow/Grounded.antt =====
-- What the semantic validators of src/evitriage/agents/workflow.py establish of the claims that are
-- made from a role's drafts: they cite items of the target, and no identifier stands twice.
use evi_triage_ql.Prelude.{
  ◌≡◌, refl, sym, ap, subst, ◌∙◌, inl, inr, Bool, true, false, not, List, [], ◌∷◌, ◌++◌, map, ok,
  raise_if, unless_elim, raise_if_elim, In, In-append, In-elem, elem-In, map-In, filter-In,
  sorted-In, is_empty, is_unique, is_unique_iff, Unique, elem, is_subset, is_subset_elim, collect,
  In-collect, nat_eq, Bool-cases, Eq,
}
use mathlib.Core.List.{map-append}
use evi_triage_ql.Evidence.{
  EvidenceId, ClaimId, ClaimContent, EvidenceItem, AgentRole, analyst, rebuttal, Claim,
}
use evi_triage_ql.Evidence.Registry.{EvidenceRegistry, item_id}
use evi_triage_ql.Triage.{TriageTarget, ClaimDraft, JudgeOutput, materialize_claim, claim_id_of}
use evi_triage_ql.Policy.{on_target}
use evi_triage_ql.Policy.Basis.{OnTarget}
use evi_triage_ql.Policy.Trace.{on_target_elim}
use evi_triage_ql.Policy.Totality.{NamesItem, IsGrounded}
use evi_triage_ql.Workflow.{ResponseError}
use evi_triage_ql.Workflow.Validators.{
  draft_evidence, claims_of, validate_claim_drafts, validate_judge,
}
use evi_triage_ql.Workflow.Security.{target_items}

pub unless-eq-ok : (b : Bool) (e : ResponseError) → raise_if (not b) e ≡ ok tt → b ≡ true
unless-eq-ok true e h = refl
unless-eq-ok false e h = absurd (cc h)

module _ {A : Type 0} ⦃e : Eq A⦄ where
  Unique-append :
      (xs ys : List A) → Unique xs → Unique ys → ((a : A) → In a xs → ¬ In a ys) → Unique (xs ++ ys)
  Unique-append [] ys u v apart = v
  Unique-append (x ∷ xs) ys (q, u) v apart = (
    elim (Bool-cases (elem x (xs ++ ys))) [
      | inl h ↦ elim (In-append x xs ys (elem-In x (xs ++ ys) h)) [
        | inl m ↦ absurd (cc (q, In-elem x xs m))
        | inr m ↦ absurd (apart x (inl refl) m)
      ]
      | inr h ↦ h
    ],
    Unique-append xs ys u v (λ a m n. apart a (inr m) n),
  )

module _ (registry : EvidenceRegistry) (target : TriageTarget) where
  -- The identifiers in the payload name items of the target.
  pub evidence_ids_name :
      (encoding_ids : List EvidenceId)
      → encoding_ids ≡ map item_id (target_items registry target)
      → (k : EvidenceId) → In k encoding_ids
      → NamesItem registry target k
  unfolding target_items
  evidence_ids_name ids same k m =
      let (i, n, q) = map-In item_id k _ (subst (In k) same m) in
      let (l, t) = filter-In (on_target target) i registry.items (sorted-In item_id i _ n) in
      (i, on_target_elim registry target i l t, sym q)

  pub target_item :
      is_empty (target_items registry target) ≡ false
      → (i : EvidenceItem) × OnTarget registry target i
  target_item h = first (target_items registry target) refl h
    where
      first :
          (items : List EvidenceItem)
          → target_items registry target ≡ items
          → is_empty items ≡ false
          → (i : EvidenceItem) × OnTarget registry target i
      first [] same q = absurd (cc q)
      first (x ∷ xs) same q =
          let (i, on, p) =
            evidence_ids_name (map item_id (x ∷ xs)) (ap (map item_id) (sym same)) (item_id x)
              (inl refl) in
          (i, on)

module _ (digest : ClaimContent → ClaimId) where
  claim_of_draft :
      (role : AgentRole) (drafts : List ClaimDraft) (c : Claim)
      → In c (claims_of digest role drafts)
      → (c.claim_id ≡ digest c.content)
        × (c.content.produced_by ≡ role)
        × ((draft : ClaimDraft) × In draft drafts × (c.evidence_ids ≡ draft.evidence_ids))
  unfolding materialize_claim
  claim_of_draft role drafts c m =
      let (draft, n, q) = map-In (materialize_claim digest role) c drafts m in
      rw q (refl, refl, (draft, n, refl))

  -- What a role's validator accepts.
  pub accepted_drafts :
      (role : AgentRole) (ids : List EvidenceId) (drafts : List ClaimDraft)
      → validate_claim_drafts digest role ids drafts ≡ ok tt
      → ((c : Claim) (k : EvidenceId)
          → In c (claims_of digest role drafts)
          → In k c.evidence_ids
          → In k ids)
        × (is_unique (map claim_id_of (claims_of digest role drafts)) ≡ true)
  unfolding validate_claim_drafts
  accepted_drafts role ids drafts h =
      let (within, h1) = unless_elim _ _ _ _ h in
      let (_, h2) = raise_if_elim _ _ _ _ h1 in
      (
        λ c k m n.
            let (_, _, (draft, l, q)) = claim_of_draft role drafts c m in
            is_subset_elim (collect draft_evidence drafts) ids k within
              (In-collect draft_evidence k draft drafts l (subst (In k) q n)),
        unless-eq-ok _ _ h2,
      )

  -- The claims of the two roles have distinct identifiers, where claims of two roles never have the same digest.
  pub claims_distinct :
      (drafts others : List ClaimDraft)
      → ((c d : ClaimContent) → digest c ≡ digest d → c.produced_by ≡ d.produced_by)
      → is_unique (map claim_id_of (claims_of digest analyst drafts)) ≡ true
      → is_unique (map claim_id_of (claims_of digest rebuttal others)) ≡ true
      → Unique
          (map claim_id_of (claims_of digest analyst drafts ++ claims_of digest rebuttal others))
  claims_distinct drafts others apart u v = subst Unique (sym (map-append claim_id_of _ _)) (
      Unique-append _ _ ((is_unique_iff _).0 u) ((is_unique_iff _).0 v) (λ k m n.
        let (c, l, q) = map-In claim_id_of k (claims_of digest analyst drafts) m in
        let (d, r, p) = map-In claim_id_of k (claims_of digest rebuttal others) n in
        let (qc, rc, _) = claim_of_draft analyst drafts c l in
        let (qd, rd, _) = claim_of_draft rebuttal others d r in
        let roles : analyst ≡ rebuttal =
          sym rc ∙ (apart c.content d.content (sym qc ∙ (sym q ∙ (p ∙ qd))) ∙ rd) in
        cc roles))

-- A Judge's output that its validator accepts cites claims of the trace and items of the target.
pub judge-IsGrounded :
    {Confidence : Type 0} (registry : EvidenceRegistry) (target : TriageTarget)
    (analyst_claims rebuttal_claims : List Claim) (judge : JudgeOutput Confidence)
    (ids : List EvidenceId)
    → ((k : EvidenceId) → In k ids → NamesItem registry target k)
    → ((i : EvidenceItem) × OnTarget registry target i)
    → ((c : Claim) (k : EvidenceId)
        → In c (analyst_claims ++ rebuttal_claims)
        → In k c.evidence_ids
        → NamesItem registry target k)
    → validate_judge ids (map claim_id_of (analyst_claims ++ rebuttal_claims)) judge ≡ ok tt
    → IsGrounded registry target analyst_claims rebuttal_claims judge
unfolding validate_judge
judge-IsGrounded registry target analyst_claims rebuttal_claims judge ids named item cited h =
    let (e, h1) = unless_elim _ _ _ _ h in
    let c : is_subset judge.critical_claim_ids (map claim_id_of (analyst_claims ++ rebuttal_claims))
        ≡ true =
      unless-eq-ok _ _ h1 in
    (
      item,
      λ k m. let (a, n, q) = map-In claim_id_of k _ (is_subset_elim _ _ k c m) in (a, n, sym q),
      λ k m. named k (is_subset_elim _ ids k e m),
      λ a k m n. cited a k m.0 n,
    )
