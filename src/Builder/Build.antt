-- ===== src/Builder/Build.antt =====
-- The loops of `build_evidence_registry`, src/evitriage/evidence/registry.py.
use evi_triage_ql.Prelude.{
  ℕ, String, true, false, Option, none, some, List, [], ◌∷◌, ◌++◌, map, nat_eq, string_eq, Result,
  ok, err, ◌>>=◌, map_result, is_empty, Dict, lookup, index_by, sorted, to_set, collect,
}
use evi_triage_ql.Evidence.{Sha256, EvidenceId, EvidenceItem}
use evi_triage_ql.Evidence.Registry.{
  ArtifactKind, EvidenceArtifactReference, EvidenceRegistry, validate_closed_registry,
}
use evi_triage_ql.Alerts.{NormalizedAlert, AlertBundle, pair_eq}
use evi_triage_ql.Manifest.{ArtifactRecord}
use evi_triage_ql.Context.{
  SourceSlice, ContextReference, ContextCandidate, ContextOmission, SliceArtifact, SliceContent,
}
use evi_triage_ql.Supplement.{indexes_of}
use evi_triage_ql.Builder.{
  Graph, BuildError, invalid, key_error, Step, then_step, add_item, add_edge, for_each, add_linked,
  first_covering,
}
use evi_triage_ql.Builder.Walk.{
  Builders, is_resource, rule_item, path_entry, source_item, lifecycle_item, gap_item,
  candidate_item,
}

abbrev pub Keyed : Type 0 → Type 0
Keyed K = K × EvidenceItem

abbrev pub ordinal_of : Keyed ℕ → ℕ
ordinal_of (k, i) = k

abbrev pub slice_id_of : Keyed String → String
slice_id_of (k, i) = k

-- `path_items[ordinal].evidence_id`, of an ordinal that is given and present
unfoldable pub dependency : Dict ℕ (Keyed ℕ) → ContextReference → List EvidenceId
unfolding lookup
dependency path_items reference = elim reference.path_ordinal [
  | none ↦ []
  | some ordinal ↦ elim (lookup ordinal path_items) [ none ↦ [] | some (k, i) ↦ i.evidence_id ∷ [] ]
]

-- `sorted(dependencies)`, or the rule where there is none
unfoldable pub dependencies : EvidenceItem → Dict ℕ (Keyed ℕ) → SourceSlice → List EvidenceId
unfolding dependency collect to_set sorted
dependencies rule path_items slice =
    let found = collect (dependency path_items) slice.references in
    elim (is_empty found) [ true ↦ rule.evidence_id ∷ [] | false ↦ sorted (λ k. k) (to_set found) ]

module _ {Severity Json : Type 0} (builders : Builders)
    (alert : NormalizedAlert Severity Json) where
  module _ (rule : EvidenceItem) (path_items : Dict ℕ (Keyed ℕ)) (slice_sha256 : Sha256) where
    -- The lexical observations of a slice.
    unfoldable pub add_lifecycle : SourceSlice → Step
    unfolding lifecycle_item source_item for_each add_edge
    add_lifecycle slice graph =
        let items =
          map (lifecycle_item builders alert slice_sha256 slice)
            (builders.observe slice.content slice.start_line) in
        for_each items
          (λ (item : EvidenceItem).
            add_edge item.evidence_id (source_item builders alert slice_sha256 slice).evidence_id)
          (record graph { items = graph.items ++ items })

    -- the loop over `source_slices`
    unfoldable pub add_slice : SourceSlice → Step
    unfolding source_item add_lifecycle dependencies for_each add_edge
    add_slice slice =
        let item = source_item builders alert slice_sha256 slice in
        then_step (add_item item) (
          then_step (elim (is_resource builders alert) [ true ↦ add_lifecycle slice | false ↦ ok ])
            (for_each (dependencies rule path_items slice)
              (λ dependency_id. add_edge item.evidence_id dependency_id)))

    -- the loop over the omissions
    unfoldable pub add_gap : ContextOmission → Step
    unfolding gap_item add_edge
    add_gap omission = add_linked (gap_item builders alert slice_sha256 omission) rule.evidence_id

    -- the loop over the candidates
    unfoldable pub add_candidate :
        List SourceSlice → Dict String (Keyed String) → ContextCandidate → Step
    add_candidate slices slice_evidence candidate =
        elim (first_covering candidate.location.path candidate.location.start_line slices) [
          | none ↦ ok
          | some containing ↦
              let item = candidate_item builders alert slice_sha256 candidate containing in
              then_step (add_item item) (elim (lookup containing.slice_id slice_evidence) [
                | none ↦ λ graph. err key_error
                | some (k, source) ↦ add_edge item.evidence_id source.evidence_id
              ])
        ]

  -- What an alert's slices add.
  unfoldable pub add_context :
      EvidenceItem → Dict ℕ (Keyed ℕ) → SliceContent Severity → Sha256 → Step
  unfolding add_slice add_gap add_candidate source_item index_by for_each
  add_context rule path_items content slice_sha256 =
      let slice_evidence : Dict String (Keyed String) = index_by slice_id_of (
        map
          (λ (slice : SourceSlice). (slice.slice_id, source_item builders alert slice_sha256 slice))
          content.source_slices) in
      then_step (for_each content.source_slices (add_slice rule path_items slice_sha256)) (
        then_step
          (elim (is_resource builders alert) [
            | true ↦ for_each content.omitted (add_gap rule path_items slice_sha256)
            | false ↦ ok
          ])
          (for_each (content.guards ++ content.candidate_sanitizers)
            (add_candidate rule path_items slice_sha256 content.source_slices slice_evidence)))

  -- The loop over `bundle.alerts`; `persisted` is what `by_occurrence.get` gave.
  unfoldable pub add_alert : Sha256 → Option (SliceArtifact Severity × ArtifactRecord) → Step
  add_alert normalized_sha256 persisted graph =
      let slices : List SourceSlice = elim persisted [
        | none ↦ []
        | some (artifact, slice_record) ↦ artifact.content.source_slices
      ] in
      let rule = rule_item builders alert normalized_sha256 slices in
      map_result (path_entry builders alert normalized_sha256 slices) alert.paths >>= λ entries.
      then_step (add_item rule)
        (then_step (for_each entries (λ (entry : Keyed ℕ). add_linked entry.1 rule.evidence_id))
          (elim persisted [
            | none ↦ ok
            | some (artifact, slice_record) ↦
                add_context rule (index_by ordinal_of entries) artifact.content slice_record.sha256
          ]))
        graph

module _ {Severity Json : Type 0} (builders : Builders) (bundle : AlertBundle Severity Json)
    (normalized_artifact : ArtifactRecord)
    (persisted_slices : List (SliceArtifact Severity × ArtifactRecord)) where
  abbrev pub persisted_indexes : SliceArtifact Severity × ArtifactRecord → ℕ × ℕ
  persisted_indexes (artifact, slice_record) =
      let r = artifact.content.raw_result_reference in (r.run_index, r.result_index)

  -- `by_occurrence.get(occurrence)`
  unfoldable pub persisted_for :
      NormalizedAlert Severity Json → Option (SliceArtifact Severity × ArtifactRecord)
  unfolding lookup index_by
  persisted_for alert = lookup (indexes_of alert) (index_by persisted_indexes persisted_slices)

  abbrev pub slice_reference : SliceArtifact Severity × ArtifactRecord → EvidenceArtifactReference
  slice_reference (artifact, slice_record) = record {
    kind = ArtifactKind.slice;
    relative_path = slice_record.relative_path;
    artifact_sha256 = slice_record.sha256;
  }

  abbrev pub registry_of : Graph → EvidenceRegistry
  registry_of graph = record {
    run_id = bundle.run_id;
    repository_identity = bundle.repository_identity;
    raw_sarif_sha256 = bundle.raw_sarif_sha256;
    artifacts =
        record {
          kind = ArtifactKind.normalized;
          relative_path = normalized_artifact.relative_path;
          artifact_sha256 = normalized_artifact.sha256;
        }
        ∷ map slice_reference persisted_slices;
    items = graph.items;
    relationships = graph.relationships;
    claims = [];
  }

  -- The registry with its validator.
  unfoldable pub closed : Graph → Result BuildError EvidenceRegistry
  closed graph = elim (validate_closed_registry (registry_of graph)) [
    | ok _ ↦ ok (registry_of graph)
    | err e ↦ err (invalid e)
  ]

  unfoldable pub walk : Step
  unfolding add_alert persisted_for for_each
  walk =
      for_each bundle.alerts
        (λ alert. add_alert builders alert normalized_artifact.sha256 (persisted_for alert))

  -- `build_evidence_registry`
  unfoldable pub build_evidence_registry : Result BuildError EvidenceRegistry
  unfolding walk closed
  build_evidence_registry = walk (record { items = []; relationships = [] }) >>= closed
