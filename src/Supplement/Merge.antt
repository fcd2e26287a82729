-- ===== src/Supplement/Merge.antt =====
-- How `merge_evidence_supplement` (src/evitriage/evidence/registry.py) ends.
use evi_triage_ql.Prelude.{
  ◌≡◌, refl, sym, ap, subst, ◌∙◌, inl, inr, List, [], ◌∷◌, ◌⊎◌, Bool-cases, Result, ok, err, ◌>>=◌,
  map_result, map_result-In, In-map_result, In, lookup, index_by, Option-cases, nat_eq, string_eq,
  ◌==◌,
}
use evi_triage_ql.Evidence.{EvidenceId, EvidenceContent, EvidenceItem}
use evi_triage_ql.Evidence.Registry.{EvidenceRegistry}
use evi_triage_ql.Evidence.Registry.Closure.{IsClosed, validate_closed_registry_iff}
use evi_triage_ql.Alerts.{NormalizedAlert, AlertBundle, pair_eq}
use evi_triage_ql.Manifest.{ArtifactRecord}
use evi_triage_ql.Supplement.{
  EvidenceSupplementEntry, EvidenceSupplement, MergeError, other_repository, other_sarif,
  wrong_role, no_occurrence, is_input, indexes_of, entry_item, merged, validated,
  merge_evidence_supplement,
}
use evi_triage_ql.Supplement.Items.{
  IsRefusal, repository, sarif, role, occurrence, Records, entry_item-Records, validated_elim,
  extended-IsClosed, validated-IsRefusal,
}

module _ {A B : Type 0} (f : A → Result MergeError B) where
  abbrev RaisedBy : MergeError → Type 0
  RaisedBy e = (a : A) × (f a ≡ err e)

  step-RaisedBy :
      (a : A) (e : MergeError) (x : Result MergeError B) (y : Result MergeError (List B))
      → f a ≡ x
      → ((d : MergeError) → y ≡ err d → RaisedBy d)
      → (x >>= λ b. y >>= λ bs. ok (b ∷ bs)) ≡ err e
      → RaisedBy e
  step-RaisedBy a e (err d) y p later h = (a, p ∙ cc h)
  step-RaisedBy a e (ok b) (err d) p later h = later e (cc h)
  step-RaisedBy a e (ok b) (ok bs) p later h = absurd (cc h)

  -- A loop that raised did so at an element.
  map_result-RaisedBy : (xs : List A) (e : MergeError) → map_result f xs ≡ err e → RaisedBy e
  unfolding map_result
  map_result-RaisedBy [] e h = absurd (cc h)
  map_result-RaisedBy (x ∷ xs) e h =
      step-RaisedBy x e (f x) (map_result f xs) refl (λ d k. map_result-RaisedBy xs d k) h

only_occurrence :
    {Severity Json : Type 0} (digest : EvidenceContent → EvidenceId)
    (bundle : AlertBundle Severity Json) (supplement : EvidenceSupplement)
    (supplement_artifact : ArtifactRecord) (entry : EvidenceSupplementEntry) (e : MergeError)
    → entry_item digest bundle supplement supplement_artifact entry ≡ err e
    → e ≡ no_occurrence
unfolding entry_item
only_occurrence digest bundle supplement supplement_artifact entry e h =
    elim (Option-cases
      (lookup (entry.run_index, entry.result_index) (index_by indexes_of bundle.alerts))) [
        | inl n ↦ cc (rw n at h)
        | inr (alert, p) ↦ absurd (cc (rw p at h))
      ]

-- The course of a merge that passed its checks.
module _ {Severity Json : Type 0} (digest : EvidenceContent → EvidenceId)
    (bundle : AlertBundle Severity Json) (supplement : EvidenceSupplement)
    (supplement_artifact : ArtifactRecord) (registry : EvidenceRegistry) where
  abbrev merge : Result MergeError EvidenceRegistry
  merge = merge_evidence_supplement digest bundle supplement supplement_artifact registry

  merge_elim :
      (o : Result MergeError EvidenceRegistry)
      → merge ≡ o
      → (o ≡ err other_repository)
        ⊎ ((o ≡ err other_sarif)
            ⊎ ((o ≡ err wrong_role)
                ⊎ ((o ≡ err no_occurrence)
                    ⊎ ((added : List EvidenceItem) × (map_result
                            (entry_item digest bundle supplement supplement_artifact)
                            supplement.entries
                          ≡ ok added)
                        × (validated digest bundle supplement supplement_artifact
                              (merged digest bundle supplement supplement_artifact registry added)
                            ≡ o)))))
  unfolding merge_evidence_supplement
  merge_elim o h =
      elim (Bool-cases (supplement.repository_identity == registry.repository_identity)) [
        | inr n ↦ inl (sym (rw n at h))
        | inl a ↦ elim (Bool-cases (supplement.raw_sarif_sha256 == registry.raw_sarif_sha256)) [
          | inr n ↦ inr (inl (sym (rw (a, n) at h)))
          | inl b ↦ elim (Bool-cases (is_input supplement_artifact.role)) [
            | inr n ↦ inr (inr (inl (sym (rw (a, b, n) at h))))
            | inl c ↦ inr (inr (inr (made _ refl (rw (a, b, c) at h))))
          ]
        ]
      ]
    where
      made :
          (x : Result MergeError (List EvidenceItem))
          → map_result (entry_item digest bundle supplement supplement_artifact) supplement.entries
            ≡ x
          → (x >>= λ added.
              validated digest bundle supplement supplement_artifact
                (merged digest bundle supplement supplement_artifact registry added))
            ≡ o
          → (o ≡ err no_occurrence)
            ⊎ ((added : List EvidenceItem) × (map_result
                    (entry_item digest bundle supplement supplement_artifact)
                    supplement.entries
                  ≡ ok added)
                × (validated digest bundle supplement supplement_artifact
                      (merged digest bundle supplement supplement_artifact registry added)
                    ≡ o))
      made (ok added) p q = inr (added, p, q)
      made (err e) p q = inl (
          sym q
          ∙ ap err (
              let (entry, r) = map_result-RaisedBy _ supplement.entries e p in
              only_occurrence digest bundle supplement supplement_artifact entry e r))

module _ {Severity Json : Type 0} (digest : EvidenceContent → EvidenceId)
    (bundle : AlertBundle Severity Json) (supplement : EvidenceSupplement)
    (supplement_artifact : ArtifactRecord) (registry : EvidenceRegistry) where
  -- A merged registry is closed and adds one item for each entry; a refused one has a reason.
  abbrev pub IsMerged : Result MergeError EvidenceRegistry → Type 0
  IsMerged (ok out) =
      IsClosed out
      × ((added : List EvidenceItem) × (out
            ≡ merged digest bundle supplement supplement_artifact registry added)
          × ((i : EvidenceItem)
              → In i added
              → (entry : EvidenceSupplementEntry) × In entry supplement.entries
                × Records digest bundle supplement supplement_artifact entry i)
          × ((entry : EvidenceSupplementEntry)
              → In entry supplement.entries
              → (i : EvidenceItem) × In i added
                × Records digest bundle supplement supplement_artifact entry i))
  IsMerged (err e) = IsRefusal e

  module _ (closed : IsClosed registry)
      (from_sarif : (alert : NormalizedAlert Severity Json)
        → In alert bundle.alerts
        → alert.raw_result_reference.raw_sarif_sha256 ≡ registry.raw_sarif_sha256) where
    checked-IsMerged :
        (o : Result MergeError EvidenceRegistry) (added : List EvidenceItem)
        → map_result (entry_item digest bundle supplement supplement_artifact) supplement.entries
          ≡ ok added
        → validated digest bundle supplement supplement_artifact
            (merged digest bundle supplement supplement_artifact registry added)
          ≡ o
        → IsMerged o
    checked-IsMerged (ok out) added made h =
        let r = merged digest bundle supplement supplement_artifact registry added in
        let (v, same) = validated_elim digest bundle supplement supplement_artifact r out h in
        (
          subst IsClosed same ((validate_closed_registry_iff r).0 v),
          (
            added,
            sym same,
            λ i m.
                let (entry, n, q) = map_result-In _ supplement.entries added i made m in
                (
                  entry,
                  n,
                  entry_item-Records digest bundle supplement supplement_artifact entry i q,
                ),
            λ entry m.
                let (i, n, q) = In-map_result _ supplement.entries added entry made m in
                (i, n, entry_item-Records digest bundle supplement supplement_artifact entry i q),
          ),
        )
    checked-IsMerged (err e) added made h =
        validated-IsRefusal digest bundle supplement supplement_artifact _ e
          (extended-IsClosed digest bundle supplement supplement_artifact registry added closed made
            from_sarif)
          h

    merge_ends :
        (o : Result MergeError EvidenceRegistry)
        → merge digest bundle supplement supplement_artifact registry ≡ o
        → IsMerged o
    merge_ends o h = elim (merge_elim digest bundle supplement supplement_artifact registry o h) [
      | inl q ↦ subst IsMerged (sym q) repository
      | inr (inl q) ↦ subst IsMerged (sym q) sarif
      | inr (inr (inl q)) ↦ subst IsMerged (sym q) role
      | inr (inr (inr (inl q))) ↦ subst IsMerged (sym q) occurrence
      | inr (inr (inr (inr (added, made, q)))) ↦ checked-IsMerged o added made q
    ]

-- Merging a supplement into a closed registry, on alerts of the registry's SARIF, either returns a
-- closed registry or is refused: for another repository, another SARIF, an artifact that is not an
-- input, an occurrence that no alert has, or an artifact or item that is registered already. It never
-- leaves an edge, a claim or an item without its reference.
pub merge-IsClosed :
    {Severity Json : Type 0} (digest : EvidenceContent → EvidenceId)
    (bundle : AlertBundle Severity Json) (supplement : EvidenceSupplement)
    (supplement_artifact : ArtifactRecord) (registry : EvidenceRegistry)
    → IsClosed registry
    → ((alert : NormalizedAlert Severity Json)
        → In alert bundle.alerts
        → alert.raw_result_reference.raw_sarif_sha256 ≡ registry.raw_sarif_sha256)
    → IsMerged digest bundle supplement supplement_artifact registry
        (merge_evidence_supplement digest bundle supplement supplement_artifact registry)
merge-IsClosed digest bundle supplement supplement_artifact registry closed from_sarif =
    merge_ends digest bundle supplement supplement_artifact registry closed from_sarif _ refl
