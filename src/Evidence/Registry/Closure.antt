-- ===== src/Evidence/Registry/Closure.antt =====
-- What the validator of the registry establishes.
use evi_triage_ql.Prelude.{
  ◌≡◌, refl, ◌↔◌, ◌⊎◌, inl, inr, true, false, err, Bool-cases, is_unique, not, ◌||◌, List, [], ◌∷◌,
  map, arith, nat_eq, ok, raise_if_elim, unless_elim, unless_intro, >>_elim, >>_intro, In, Unique,
  map-In, In-map, elem, elem-In, In-elem, is_subset_elim, is_subset_intro, is_unique_iff, subst,
}
use evi_triage_ql.Evidence.{
  Sha256, EvidenceId, EvidenceItem, Claim, EvidenceError, duplicate_artifacts, duplicate_evidence,
}
use evi_triage_ql.Evidence.Registry.{
  EvidenceArtifactReference, EvidenceRelationship, EvidenceRegistry, artifact_hash, item_id,
  claim_id_of, check_items, check_relationships, check_claims, validate_closed_registry,
}

-- The identifier names an item of the registry.
abbrev pub Resolves : EvidenceRegistry → EvidenceId → Type 0
Resolves r k = (i : EvidenceItem) × In i r.items × (k ≡ i.evidence_id)

-- Every item rests on a registered artifact of this run's SARIF, every edge and every claim cites
-- registered items, and no identifier is used twice.
pub record IsClosed (r : EvidenceRegistry) : Type 0 where
  pub unique_artifacts : Unique (map artifact_hash r.artifacts)
  pub unique_items : Unique (map item_id r.items)
  pub unique_claims : Unique (map claim_id_of r.claims)
  pub anchored :
      (i : EvidenceItem)
      → In i r.items
      → ((a : EvidenceArtifactReference) × In a r.artifacts
          × (i.artifact_sha256 ≡ a.artifact_sha256))
        × (i.raw_result_reference.raw_sarif_sha256 ≡ r.raw_sarif_sha256)
  pub linked :
      (g : EvidenceRelationship)
      → In g r.relationships
      → Resolves r g.source_evidence_id × Resolves r g.target_evidence_id
  pub cited : (c : Claim) (k : EvidenceId) → In c r.claims → In k c.evidence_ids → Resolves r k

module _ (known : List Sha256) (sarif : Sha256) where
  abbrev IsAnchored : EvidenceItem → Type 0
  IsAnchored i = In i.artifact_sha256 known × (i.raw_result_reference.raw_sarif_sha256 ≡ sarif)

  check_items_sound :
      (items : List EvidenceItem)
      → check_items known sarif items ≡ ok tt
      → (i : EvidenceItem) → In i items
      → IsAnchored i
  unfolding check_items
  check_items_sound [] h i m = absurd m
  check_items_sound (x ∷ items) h i m =
      let (p, h1) = unless_elim _ _ _ _ h in
      let (q, h2) = unless_elim _ _ _ _ h1 in
      elim m [
        | inl e ↦ rw e (elem-In _ known p, (nat_eq.beq_iff _ _).0 q)
        | inr n ↦ check_items_sound items h2 i n
      ]

  check_items_complete :
      (items : List EvidenceItem)
      → ((i : EvidenceItem) → In i items → IsAnchored i)
      → check_items known sarif items ≡ ok tt
  unfolding check_items
  check_items_complete [] h = refl
  check_items_complete (x ∷ items) h =
      let (p, q) = h x (inl refl) in
      unless_intro _ _ _ _ (In-elem _ known p) (
        unless_intro _ _ _ _ ((nat_eq.beq_iff _ _).1 q)
          (check_items_complete items (λ i m. h i (inr m))))

module _ (known : List EvidenceId) where
  abbrev IsLinked : EvidenceRelationship → Type 0
  IsLinked g = In g.source_evidence_id known × In g.target_evidence_id known

  both_known :
      (g : EvidenceRelationship)
      → (not (elem g.source_evidence_id known) || not (elem g.target_evidence_id known)) ≡ false
      → IsLinked g
  both_known g h = (elem-In _ known (ground arith), elem-In _ known (ground arith))

  check_relationships_sound :
      (edges : List EvidenceRelationship)
      → check_relationships known edges ≡ ok tt
      → (g : EvidenceRelationship) → In g edges
      → IsLinked g
  unfolding check_relationships
  check_relationships_sound [] h g m = absurd m
  check_relationships_sound (x ∷ edges) h g m =
      let (p, h1) = raise_if_elim _ _ _ _ h in
      elim m [ inl e ↦ rw e (both_known x p) | inr n ↦ check_relationships_sound edges h1 g n ]

  check_relationships_complete :
      (edges : List EvidenceRelationship)
      → ((g : EvidenceRelationship) → In g edges → IsLinked g)
      → check_relationships known edges ≡ ok tt
  unfolding check_relationships
  check_relationships_complete [] h = refl
  check_relationships_complete (x ∷ edges) h =
      let (p, q) = h x (inl refl) in
      rw (In-elem _ known p, In-elem _ known q)
        (check_relationships_complete edges (λ g m. h g (inr m)))

  check_claims_sound :
      (claims : List Claim)
      → check_claims known claims ≡ ok tt
      → (c : Claim) (k : EvidenceId) → In c claims
      → In k c.evidence_ids
      → In k known
  unfolding check_claims
  check_claims_sound [] h c k m n = absurd m
  check_claims_sound (x ∷ claims) h c k m n =
      let (p, h1) = unless_elim _ _ _ _ h in
      elim m [
        | inl e ↦ is_subset_elim x.evidence_ids known k p (subst (λ z. In k z.evidence_ids) e n)
        | inr l ↦ check_claims_sound claims h1 c k l n
      ]

  check_claims_complete :
      (claims : List Claim)
      → ((c : Claim) (k : EvidenceId) → In c claims → In k c.evidence_ids → In k known)
      → check_claims known claims ≡ ok tt
  unfolding check_claims
  check_claims_complete [] h = refl
  check_claims_complete (x ∷ claims) h =
      unless_intro _ _ _ _ (is_subset_intro x.evidence_ids known (λ k. h x k (inl refl)))
        (check_claims_complete claims (λ c k m. h c k (inr m)))

In-Resolves : (r : EvidenceRegistry) (k : EvidenceId) → In k (map item_id r.items) → Resolves r k
In-Resolves r k m = map-In item_id k r.items m

Resolves-In : (r : EvidenceRegistry) (k : EvidenceId) → Resolves r k → In k (map item_id r.items)
Resolves-In r k (i, m, e) = rw e (In-map item_id i r.items m)

IsClosed-of_validate : (r : EvidenceRegistry) → validate_closed_registry r ≡ ok tt → IsClosed r
unfolding validate_closed_registry
IsClosed-of_validate r h =
    let (a, h1) = unless_elim _ _ _ _ h in
    let (b, h2) = unless_elim _ _ _ _ h1 in
    let (c, h3) = unless_elim _ _ _ _ h2 in
    let (d, h4) = >>_elim _ _ _ h3 in
    let (f, g) = >>_elim _ _ _ h4 in
    record {
      unique_artifacts = (is_unique_iff _).0 a;
      unique_items = (is_unique_iff _).0 b;
      unique_claims = (is_unique_iff _).0 c;
      anchored = λ i m.
          let (p, q) = check_items_sound _ _ r.items d i m in
          (map-In artifact_hash _ r.artifacts p, q);
      linked = λ e m.
          let (p, q) = check_relationships_sound _ r.relationships f e m in
          (In-Resolves r _ p, In-Resolves r _ q);
      cited = λ e k m n. In-Resolves r k (check_claims_sound _ r.claims g e k m n);
    }

validate_of_closed : (r : EvidenceRegistry) → IsClosed r → validate_closed_registry r ≡ ok tt
unfolding validate_closed_registry
validate_of_closed r w =
    let hashes = check_items_complete _ _ r.items (λ i m.
      let ((a, n, e), q) = w.anchored i m in (rw e (In-map artifact_hash a r.artifacts n), q)) in
    let edges =
      check_relationships_complete _ r.relationships
        (λ g m. let (p, q) = w.linked g m in (Resolves-In r _ p, Resolves-In r _ q)) in
    let claims = check_claims_complete _ r.claims (λ c k m n. Resolves-In r k (w.cited c k m n)) in
    unless_intro _ _ _ _ ((is_unique_iff _).1 w.unique_artifacts) (
      unless_intro _ _ _ _ ((is_unique_iff _).1 w.unique_items) (
        unless_intro _ _ _ _ ((is_unique_iff _).1 w.unique_claims)
          (>>_intro _ _ _ hashes (>>_intro _ _ _ edges claims))))

abbrev pub IsRepetition : EvidenceError → Type 0
IsRepetition e = (e ≡ duplicate_artifacts) ⊎ (e ≡ duplicate_evidence)

-- A registry that would be accepted but for repeated artifacts or items is refused for these.
pub validate-IsRepetition :
    (r : EvidenceRegistry) (e : EvidenceError)
    → (is_unique (map artifact_hash r.artifacts) ≡ true
        → is_unique (map item_id r.items) ≡ true
        → validate_closed_registry r ≡ ok tt)
    → validate_closed_registry r ≡ err e
    → IsRepetition e
unfolding validate_closed_registry
validate-IsRepetition r e valid h = elim (Bool-cases (is_unique (map artifact_hash r.artifacts))) [
  | inr n ↦ inl (cc (rw n at h))
  | inl a ↦ elim (Bool-cases (is_unique (map item_id r.items))) [
    | inr n ↦ inr (cc (rw (a, n) at h))
    | inl i ↦ absurd (cc (valid a i, h))
  ]
]

-- The registry's validator accepts exactly the closed registries: identifiers are unique, every item
-- rests on a registered artifact and on this run's SARIF, and every edge and claim cites items of
-- the registry.
pub validate_closed_registry_iff :
    (r : EvidenceRegistry) → (validate_closed_registry r ≡ ok tt) ↔ IsClosed r
validate_closed_registry_iff r = (IsClosed-of_validate r, validate_of_closed r)
