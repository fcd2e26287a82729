-- ===== src/ResourcePolicy/Basis.antt =====
-- What a binary resource decision rests on (src/evitriage/agents/resource_policy.py).
use evi_triage_ql.Prelude.{
  String, subst, stable_unique, stable_unique-In, any-eq-false, string_eq, ◌≡◌, refl, sym, ◌≢◌, ◌⊎◌,
  inl, inr, Bool, true, false, not, ◌&&◌, ◌||◌, List, [], ◌∷◌, ◌++◌, ◌==◌, if◌then◌else◌, is_empty,
  any, any_elim, filter, elem, elem-In, In-elem, In, is_subset_elim, map-In, filter-In,
}
use evi_triage_ql.Evidence.{
  ClaimKind, claim_kind_eq, ClaimStatus, supported, rebutted, unresolved, EvidenceType,
  evidence_type_eq, EvidenceItem, claim_status_eq, EvidenceId, Claim,
}
use evi_triage_ql.Triage.{TriageLabel, tp, fp, nmc, label_eq, PolicyFlag}
use evi_triage_ql.Policy.{is_unresolved, Verdict}
use evi_triage_ql.Resource.{
  AssessmentStatus, confirmed, conflicting, assessment_status_eq, yes, acquisition_eq,
  ResourceAnalystOutput, ResourceRebuttalOutput,
}
use evi_triage_ql.ResourcePolicy.{
  ResourceGates, is_context_gap, tp_claims, fp_claims, analyst_releases, rebuttal_releases,
  assessments, fp_basis, positive_ownership_or_release, has_conflict, has_unknown_assessment,
  has_claim_kinds, has_claim_kind, kind_of, tp_verdict, fp_verdict, choose_resource_label,
}

-- A gate that a binary label has passed.
gate_elim :
    (b : Bool) (flags : List PolicyFlag) (rest : Verdict) (l : TriageLabel)
    → l ≢ nmc
    → (if b then (nmc, flags) else rest).0 ≡ l
    → (b ≡ false) × (rest.0 ≡ l)
gate_elim true flags rest l n h = absurd (n (sym h))
gate_elim false flags rest l n h = (refl, h)

not_elim : (b : Bool) → not b ≡ false → b ≡ true
not_elim true h = refl
not_elim false h = cc h

or_elim : (a b : Bool) → (a || b) ≡ false → (a ≡ false) × (b ≡ false)
or_elim true b h = cc h
or_elim false b h = (refl, h)

is_empty_elim : {A : Type 0} (xs : List A) → not (is_empty xs) ≡ false → xs ≡ []
is_empty_elim [] h = refl
is_empty_elim (x ∷ xs) h = cc h

and_elim : (a b : Bool) → (a && b) ≡ true → (a ≡ true) × (b ≡ true)
and_elim true b h = (refl, h)
and_elim false b h = cc h

one_of :
    (s : ClaimStatus) → elem s (supported ∷ rebutted ∷ []) ≡ true → (s ≡ supported) ⊎ (s ≡ rebutted)
one_of s h = elim (elem-In s _ h) [
  | inl e ↦ inl e
  | inr m ↦ elim m [ inl e ↦ inr e | inr x ↦ absurd x ]
]

-- The claim rests on evidence.
abbrev pub IsCited : Claim → Type 0
IsCited c = (k : EvidenceId) × In k c.evidence_ids

cited_intro : (ks : List EvidenceId) → not (is_empty ks) ≡ true → (k : EvidenceId) × In k ks
cited_intro [] h = cc h
cited_intro (k ∷ ks) h = (k, inl refl)

-- What the gates look at: the evidence of the target, the unknowns of the three agents and the claims
-- that the Judge names.
abbrev pub gates_of : List EvidenceItem → List String → List Claim → TriageLabel → ResourceGates
gates_of evidence unknowns critical requested = record {
  requested = requested;
  unknowns = stable_unique unknowns;
  context_incomplete = any is_context_gap evidence;
  critical_claims = critical;
}

-- Nothing is open: no evidence of the target is a context gap, no agent states an unknown, no
-- critical claim is unresolved, no agent reports a context gap, and no assessment is conflicting or
-- unknown.
abbrev pub IsSettled :
    List EvidenceItem
    → List String
    → List Claim
    → ResourceAnalystOutput
    → ResourceRebuttalOutput
    → Type 0
IsSettled evidence unknowns critical a r =
    ((i : EvidenceItem) → In i evidence → i.type ≢ EvidenceType.context_gap)
    × (unknowns ≡ [])
    × ((c : Claim) → In c critical → c.status ≢ unresolved)
    × (a.context_gaps ≡ [])
    × (r.context_gaps ≡ [])
    × ¬ In conflicting (assessments a r)
    × ¬ In AssessmentStatus.unknown (assessments a r)

-- Nothing is kept only of nothing.
stable_unique-eq-nil : (xs : List String) → not (is_empty (stable_unique xs)) ≡ false → xs ≡ []
stable_unique-eq-nil [] h = refl
stable_unique-eq-nil (x ∷ xs) h =
    let e = is_empty_elim (stable_unique (x ∷ xs)) h in
    absurd (subst (In x) e ((stable_unique-In x (x ∷ xs)).1 (inl refl)))

no_gap :
    (evidence : List EvidenceItem)
    → any is_context_gap evidence ≡ false
    → (i : EvidenceItem) → In i evidence
    → i.type ≢ EvidenceType.context_gap
no_gap evidence h i m e =
    let p = any-eq-false is_context_gap i evidence h m in
    let q = (evidence_type_eq.beq_iff i.type EvidenceType.context_gap).1 e in cc (p, q)

all_resolved :
    (critical : List Claim)
    → any is_unresolved critical ≡ false
    → (c : Claim) → In c critical
    → c.status ≢ unresolved
all_resolved critical h c m e =
    let p = any-eq-false is_unresolved c critical h m in
    let q = (claim_status_eq.beq_iff c.status unresolved).1 e in cc (p, q)

absent_intro : (s : AssessmentStatus) (xs : List AssessmentStatus) → elem s xs ≡ false → ¬ In s xs
absent_intro s xs h m = let e = In-elem s xs m in cc (e, h)

pub choose-IsSettled :
    (evidence : List EvidenceItem) (unknowns : List String) (critical : List Claim)
    (requested : TriageLabel) (a : ResourceAnalystOutput) (r : ResourceRebuttalOutput)
    (l : TriageLabel)
    → l ≢ nmc
    → (choose_resource_label (gates_of evidence unknowns critical requested) a r).0 ≡ l
    → ((requested == nmc) ≡ false)
      × IsSettled evidence unknowns critical a r
      × ((if requested == tp then tp_verdict a r critical else fp_verdict r critical).0 ≡ l)
unfolding choose_resource_label has_conflict has_unknown_assessment
choose-IsSettled evidence unknowns critical requested a r l n h =
    let (asked, h1) = gate_elim (requested == nmc) _ _ l n h in
    let (gaps, h2) =
      gate_elim
        (any is_context_gap evidence
          || (not (is_empty a.context_gaps) || not (is_empty r.context_gaps)))
        _ _ l n h1 in
    let (c, h3) = gate_elim (has_conflict a r) _ _ l n h2 in
    let (u, h4) =
      gate_elim
        (not (is_empty (stable_unique unknowns))
          || (any is_unresolved critical || has_unknown_assessment a r))
        _ _ l n h3 in
    let (g, outputs) = or_elim _ _ gaps in
    let (p, q) = or_elim _ _ outputs in
    let (v, rest) = or_elim _ _ u in
    let (s, w) = or_elim _ _ rest in
    (
      asked,
      (
        no_gap evidence g,
        stable_unique-eq-nil unknowns v,
        all_resolved critical s,
        is_empty_elim a.context_gaps p,
        is_empty_elim r.context_gaps q,
        absent_intro _ _ c,
        absent_intro _ _ w,
      ),
      h4,
    )

-- A critical claim of the kind, marked supported, cites evidence.
abbrev pub HasSupport : List Claim → ClaimKind → Type 0
HasSupport critical kind =
    (c : Claim) × In c critical × (c.kind ≡ kind) × (c.status ≡ supported) × IsCited c

-- What a true positive rests on: an acquisition that succeeds, a confirmed exit without release, no
-- confirmed release, and a supported claim of each of the two kinds.
abbrev pub TpBasis : ResourceAnalystOutput → ResourceRebuttalOutput → List Claim → Type 0
TpBasis a r critical =
    (a.acquisition_succeeds ≡ yes)
    × (a.feasible_unreleased_exit.status ≡ confirmed)
    × ¬ In confirmed (analyst_releases a ++ rebuttal_releases r)
    × ((kind : ClaimKind) → In kind tp_claims → HasSupport critical kind)

-- What a false positive rests on: the Rebuttal confirms a release, and a critical claim of such a
-- kind, supported or rebutted, cites evidence.
abbrev pub FpBasis : ResourceRebuttalOutput → List Claim → Type 0
FpBasis r critical =
    In confirmed (rebuttal_releases r)
    × ((c : Claim) × In c critical
        × In c.kind fp_claims
        × ((c.status ≡ supported) ⊎ (c.status ≡ rebutted))
        × IsCited c)

support_of :
    (critical : List Claim) (kind : ClaimKind)
    → has_claim_kinds critical tp_claims supported ≡ true
    → In kind tp_claims
    → HasSupport critical kind
unfolding has_claim_kinds
support_of critical kind h m =
    let kept = λ (c : Claim). (c.status == supported) && not (is_empty c.evidence_ids) in
    let (c, n, e) =
      map-In kind_of kind (filter kept critical) (is_subset_elim tp_claims _ kind h m) in
    let (i, t) = filter-In kept c critical n in
    let (s, k) = and_elim (c.status == supported) (not (is_empty c.evidence_ids)) t in
    (c, i, sym e, (claim_status_eq.beq_iff c.status supported).0 s, cited_intro c.evidence_ids k)

pub tp_verdict-TpBasis :
    (a : ResourceAnalystOutput) (r : ResourceRebuttalOutput) (critical : List Claim)
    → (tp_verdict a r critical).0 ≡ tp
    → TpBasis a r critical
unfolding tp_verdict positive_ownership_or_release
tp_verdict-TpBasis a r critical h =
    let n : tp ≢ nmc = λ e. cc e in
    let (p, h1) = gate_elim (not (a.acquisition_succeeds == yes)) _ _ tp n h in
    let (q, h2) = gate_elim (not (a.feasible_unreleased_exit.status == confirmed)) _ _ tp n h1 in
    let (s, h3) = gate_elim (positive_ownership_or_release a r) _ _ tp n h2 in
    let (t, _) = gate_elim (not (has_claim_kinds critical tp_claims supported)) _ _ tp n h3 in
    (
      (acquisition_eq.beq_iff a.acquisition_succeeds yes).0 (not_elim _ p),
      (assessment_status_eq.beq_iff a.feasible_unreleased_exit.status confirmed).0 (not_elim _ q),
      absent_intro confirmed _ s,
      λ kind m. support_of critical kind (not_elim _ t) m,
    )

accepted_of : (b : Bool) (x y : Verdict) → y.0 ≡ nmc → (if b then x else y).0 ≡ fp → b ≡ true
accepted_of true x y e h = refl
accepted_of false x y e h = cc (e, h)

never_tp : (b : Bool) (x y : Verdict) → x.0 ≡ fp → y.0 ≡ nmc → (if b then x else y).0 ≢ tp
never_tp true x y p q h = cc (p, h)
never_tp false x y p q h = cc (q, h)

pub fp_verdict_lem :
    (r : ResourceRebuttalOutput) (critical : List Claim) → (fp_verdict r critical).0 ≢ tp
unfolding fp_verdict
fp_verdict_lem r critical h = never_tp _ _ _ refl refl h

pub fp_verdict-FpBasis :
    (r : ResourceRebuttalOutput) (critical : List Claim)
    → (fp_verdict r critical).0 ≡ fp
    → FpBasis r critical
unfolding fp_verdict fp_basis has_claim_kind elem
fp_verdict-FpBasis r critical h =
    let (p, q) = and_elim (fp_basis r) _ (accepted_of _ _ _ refl h) in
    let (c, m, t) = any_elim _ critical q in
    let (k, t1) = and_elim (elem c.kind fp_claims) _ t in
    let (s, w) = and_elim (elem c.status (supported ∷ rebutted ∷ [])) _ t1 in
    (
      elem-In confirmed (rebuttal_releases r) p,
      (c, m, elem-In c.kind fp_claims k, one_of c.status s, cited_intro c.evidence_ids w),
    )

pub never_fp :
    (a : ResourceAnalystOutput) (r : ResourceRebuttalOutput) (critical : List Claim)
    → (tp_verdict a r critical).0 ≢ fp
unfolding tp_verdict
never_fp a r critical h =
    let n : fp ≢ nmc = λ e. cc e in
    let (_, h1) = gate_elim (not (a.acquisition_succeeds == yes)) _ _ fp n h in
    let (_, h2) = gate_elim (not (a.feasible_unreleased_exit.status == confirmed)) _ _ fp n h1 in
    let (_, h3) = gate_elim (positive_ownership_or_release a r) _ _ fp n h2 in
    let (_, h4) = gate_elim (not (has_claim_kinds critical tp_claims supported)) _ _ fp n h3 in
    cc h4
