-- ===== src/Supplement/Items.antt =====
-- The items that `merge_evidence_supplement` (src/evitriage/evidence/registry.py) adds, and what they
-- make of a closed registry.
use evi_triage_ql.Prelude.{
  ◌≡◌, refl, ap, subst, ◌∙◌, inl, inr, true, List, map, Result, ok, err, map_result, map_result-In,
  In, In-append, In-append_left, In-append_right, lookup, lookup-index_by-In, index_by, none,
  Option-cases, is_unique, is_unique_iff, nat_eq, string_eq,
}
use evi_triage_ql.Evidence.{
  EvidenceId, EvidenceContent, EvidenceItem, RawResultReference, EvidenceError,
}
use evi_triage_ql.Evidence.Registry.{
  EvidenceRegistry, artifact_hash, item_id, validate_closed_registry,
}
use evi_triage_ql.Evidence.Registry.Closure.{
  Resolves, IsClosed, IsRepetition, validate-IsRepetition, validate_closed_registry_iff,
}
use evi_triage_ql.Alerts.{NormalizedAlert, AlertBundle, pair_eq}
use evi_triage_ql.Manifest.{ArtifactRecord}
use evi_triage_ql.Supplement.{
  EvidenceSupplementEntry, EvidenceSupplement, MergeError, other_repository, other_sarif,
  wrong_role, no_occurrence, invalid_registry, origin_by_kind, indexes_of, evidence_item,
  entry_item, supplement_reference, merged, validated,
}

-- Why a merge is refused.
pub data IsRefusal : MergeError → Type 0 where
  repository : IsRefusal other_repository
  sarif : IsRefusal other_sarif
  role : IsRefusal wrong_role
  occurrence : IsRefusal no_occurrence
  repeated : (e : EvidenceError) → IsRepetition e → IsRefusal (invalid_registry e)

ok_injective : {A : Type 0} (a b : A) → (let r : Result MergeError A = ok a in r) ≡ ok b → a ≡ b
ok_injective a b h = cc h

module _ {Severity Json : Type 0} (digest : EvidenceContent → EvidenceId)
    (bundle : AlertBundle Severity Json) (supplement : EvidenceSupplement)
    (supplement_artifact : ArtifactRecord) where
  -- The item records the entry, of an alert of the bundle with the entry's indexes, as the kind's
  -- observation in the supplement's artifact.
  abbrev pub Records : EvidenceSupplementEntry → EvidenceItem → Type 0
  Records entry i =
      (alert : NormalizedAlert Severity Json) × In alert bundle.alerts
      × (indexes_of alert ≡ (entry.run_index, entry.result_index))
      × (i.alert_fingerprint ≡ alert.alert_fingerprint)
      × (i.raw_result_reference ≡ alert.raw_result_reference)
      × (i.type ≡ entry.type)
      × (i.polarity ≡ entry.polarity)
      × (i.strength ≡ entry.strength)
      × (i.origin ≡ origin_by_kind supplement.kind)
      × (i.artifact_sha256 ≡ supplement_artifact.sha256)
      × (i.evidence_id ≡ digest i.content)

  pub entry_item-Records :
      (entry : EvidenceSupplementEntry) (i : EvidenceItem)
      → entry_item digest bundle supplement supplement_artifact entry ≡ ok i
      → Records entry i
  unfolding entry_item evidence_item
  entry_item-Records entry i h =
      elim (Option-cases
        (lookup (entry.run_index, entry.result_index) (index_by indexes_of bundle.alerts))) [
          | inl n ↦ absurd (cc (rw n at h))
          | inr (alert, p) ↦
              let (m, q) = lookup-index_by-In indexes_of _ bundle.alerts alert p in
              let same : evidence_item digest alert entry.type entry.polarity entry.strength
                    (origin_by_kind supplement.kind) none none supplement_artifact.sha256
                    "evidence-supplement@1.0" entry.summary none none
                  ≡ i =
                ok_injective _ _ (rw p at h) in
              subst (Records entry) same
                (alert, m, q, refl, refl, refl, refl, refl, refl, refl, refl)
        ]

  -- The registry that the validator sees is the one that is returned.
  pub validated_elim :
      (r out : EvidenceRegistry)
      → validated digest bundle supplement supplement_artifact r ≡ ok out
      → (validate_closed_registry r ≡ ok tt) × (r ≡ out)
  unfolding validated
  validated_elim r out h = go (validate_closed_registry r) refl h
    where
      go :
          (x : Result EvidenceError (Unit {0}))
          → validate_closed_registry r ≡ x
          → elim x as (λ k. Result MergeError EvidenceRegistry) [
            | ok _ ↦ ok r
            | err e ↦ err (invalid_registry e)
          ]
            ≡ ok out
          → (validate_closed_registry r ≡ ok tt) × (r ≡ out)
      go (ok u) p q = (p, ok_injective r out q)
      go (err e) p q = absurd (cc q)

  abbrev item_of : EvidenceSupplementEntry → Result MergeError EvidenceItem
  item_of = entry_item digest bundle supplement supplement_artifact

  abbrev extended : EvidenceRegistry → List EvidenceItem → EvidenceRegistry
  extended = merged digest bundle supplement supplement_artifact

  Resolves-extended :
      (registry : EvidenceRegistry) (added : List EvidenceItem) (k : EvidenceId)
      → Resolves registry k
      → Resolves (extended registry added) k
  Resolves-extended registry added k (i, m, e) = (i, In-append_left i registry.items added m, e)

  -- New items of the registry's SARIF keep a closed registry closed, unless an identifier repeats.
  pub extended-IsClosed :
      (registry : EvidenceRegistry) (added : List EvidenceItem)
      → IsClosed registry
      → map_result item_of supplement.entries ≡ ok added
      → ((alert : NormalizedAlert Severity Json)
          → In alert bundle.alerts
          → alert.raw_result_reference.raw_sarif_sha256 ≡ registry.raw_sarif_sha256)
      → is_unique (map artifact_hash (extended registry added).artifacts) ≡ true
      → is_unique (map item_id (extended registry added).items) ≡ true
      → IsClosed (extended registry added)
  extended-IsClosed registry added closed made from_sarif artifacts items = record {
    unique_artifacts = (is_unique_iff _).0 artifacts;
    unique_items = (is_unique_iff _).0 items;
    unique_claims = closed.unique_claims;
    anchored = λ i m. elim (In-append i registry.items added m) [
      | inl old ↦
          let ((a, n, e), q) = closed.anchored i old in
          ((a, In-append_left a registry.artifacts _ n, e), q)
      | inr new ↦
          let (entry, _, h) = map_result-In item_of supplement.entries added i made new in
          let (alert, n, _, _, r, _, _, _, _, hash, _) = entry_item-Records entry i h in
          (
            (
              supplement_reference digest bundle supplement supplement_artifact,
              In-append_right _ registry.artifacts _ (inl refl),
              hash,
            ),
            ap (λ (x : RawResultReference). x.raw_sarif_sha256) r ∙ from_sarif alert n,
          )
    ];
    linked = λ g m.
        let (p, q) = closed.linked g m in
        (Resolves-extended registry added _ p, Resolves-extended registry added _ q);
    cited = λ c k m n. Resolves-extended registry added k (closed.cited c k m n);
  }

  pub validated-IsRefusal :
      (r : EvidenceRegistry) (e : MergeError)
      → (is_unique (map artifact_hash r.artifacts) ≡ true
          → is_unique (map item_id r.items) ≡ true
          → IsClosed r)
      → validated digest bundle supplement supplement_artifact r ≡ err e
      → IsRefusal e
  unfolding validated
  validated-IsRefusal r e closed h = go (validate_closed_registry r) refl h
    where
      go :
          (x : Result EvidenceError (Unit {0}))
          → validate_closed_registry r ≡ x
          → elim x as (λ k. Result MergeError EvidenceRegistry) [
            | ok _ ↦ ok r
            | err d ↦ err (invalid_registry d)
          ]
            ≡ err e
          → IsRefusal e
      go (ok u) p q = absurd (cc q)
      go (err d) p q = subst IsRefusal (let s : invalid_registry d ≡ e = cc q in s) (
          repeated d
            (validate-IsRepetition r d (λ a i. (validate_closed_registry_iff r).1 (closed a i)) p))
