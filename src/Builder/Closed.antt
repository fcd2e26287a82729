-- ===== src/Builder/Closed.antt =====
-- How `build_evidence_registry` (src/evitriage/evidence/registry.py) ends.
use evi_triage_ql.Prelude.{
  ℕ, nat_eq, ◌≡◌, ◌≢◌, refl, sym, subst, inl, inr, Option, none, some, List, [], ◌∷◌, ◌++◌, Result,
  ok, err, ◌>>=◌, >>=-eq-ok, map_result, map_result-In, map_result_total, In, In-map, collect,
  In-collect, index_by, lookup-index_by-In, is_unique_iff,
}
use evi_triage_ql.Evidence.{Sha256, EvidenceItem, EvidenceError}
use evi_triage_ql.Evidence.Registry.{
  EvidenceArtifactReference, EvidenceRegistry, validate_closed_registry,
}
use evi_triage_ql.Evidence.Registry.Closure.{
  IsClosed, validate-IsRepetition, validate_closed_registry_iff,
}
use evi_triage_ql.Alerts.{DataFlowPath, PathStep, NormalizedAlert, AlertBundle, pair_eq}
use evi_triage_ql.Manifest.{ArtifactRecord}
use evi_triage_ql.Context.{SourceSlice, SliceArtifact}
use evi_triage_ql.Supplement.{evidence_item, indexes_of}
use evi_triage_ql.Builder.{
  Graph, BuildError, invalid, Step, then_step, add_item, for_each, add_linked,
}
use evi_triage_ql.Builder.Walk.{Builders, rule_item, first_step, path_item, path_entry}
use evi_triage_ql.Builder.Build.{
  Keyed, ordinal_of, add_context, add_alert, persisted_indexes, persisted_for, slice_reference,
  registry_of, closed, walk, build_evidence_registry,
}
use evi_triage_ql.Builder.Sound.{
  IsCollision, registered, Anchored, IsSound, Outcome, keep, after, add_items-Outcome,
  for_each-Outcome, add_linked-Outcome,
}
use evi_triage_ql.Builder.Alert.{Registered, weaken, add_context-Outcome}

-- Every path of the alert has a step.
abbrev pub HasSteps : {Severity Json : Type 0} → NormalizedAlert Severity Json → Type 0
HasSteps alert = (path : DataFlowPath) → In path alert.paths → path.steps ≢ []

first_step_total : (steps : List PathStep) → steps ≢ [] → (s : PathStep) × (first_step steps ≡ ok s)
first_step_total [] h = absurd (h refl)
first_step_total (s ∷ steps) h = (s, refl)

module _ (artifacts : List EvidenceArtifactReference) (sarif : Sha256) {Severity Json : Type 0}
    (builders : Builders) (alert : NormalizedAlert Severity Json)
    (from_sarif : alert.raw_result_reference.raw_sarif_sha256 ≡ sarif) (steps : HasSteps alert)
    (normalized_sha256 : Sha256) (normalized : Registered artifacts sarif normalized_sha256) where
  entries_made :
      (slices : List SourceSlice)
      → (entries : List (Keyed ℕ)) × (map_result
            (path_entry builders alert normalized_sha256 slices)
            alert.paths
          ≡ ok entries)
        × ((entry : Keyed ℕ) → In entry entries → Anchored artifacts sarif entry.1)
  unfolding path_entry path_item evidence_item
  entries_made slices =
      let f = path_entry builders alert normalized_sha256 slices in
      let (entries, made) = map_result_total f alert.paths (λ path m.
        let (s, q) = first_step_total path.steps (steps path m) in
        ((path.ordinal, path_item builders alert normalized_sha256 slices path s), rw q refl)) in
      (
        entries,
        made,
        λ entry m.
            let (path, n, q) = map_result-In f alert.paths entries entry made m in
            let (s, _, p) = >>=-eq-ok (first_step path.steps) _ q in
            let same : (path.ordinal, path_item builders alert normalized_sha256 slices path s)
                ≡ entry =
              cc p in
            subst (λ (e : Keyed ℕ). Anchored artifacts sarif e.1) same (normalized, from_sarif),
      )

  abbrev paths_step : EvidenceItem → List (Keyed ℕ) → Step
  paths_step rule entries =
      for_each entries (λ (entry : Keyed ℕ). add_linked entry.1 rule.evidence_id)

  -- The rule, the paths, and what comes after them.
  rule_and_paths-Outcome :
      (slices : List SourceSlice) (context : List (Keyed ℕ) → Step) (g : Graph)
      → IsSound artifacts sarif g
      → ((entries : List (Keyed ℕ)) (h : Graph)
          → IsSound artifacts sarif h
          → In (rule_item builders alert normalized_sha256 slices) h.items
          → ((entry : Keyed ℕ) → In entry entries → In entry.1 h.items)
          → Outcome artifacts sarif h [] (context entries h))
      → Outcome artifacts sarif g [] (
          map_result (path_entry builders alert normalized_sha256 slices) alert.paths >>= λ entries.
          then_step
            (add_item (rule_item builders alert normalized_sha256 slices))
            (then_step
              (paths_step (rule_item builders alert normalized_sha256 slices) entries)
              (context entries))
            g)
  unfolding rule_item evidence_item
  rule_and_paths-Outcome slices context g s later =
      let (entries, made, good) = entries_made slices in
      let rule = rule_item builders alert normalized_sha256 slices in
      let all = collect (λ (entry : Keyed ℕ). entry.1 ∷ []) entries in
      subst
        (λ (x : Result BuildError (List (Keyed ℕ))).
          Outcome artifacts sarif g []
            (x >>= λ es. then_step (add_item rule) (then_step (paths_step rule es) (context es)) g))
        (sym made)
        (weaken artifacts sarif g (rule ∷ (all ++ [])) [] _ (λ i m. absurd m)
          (after artifacts sarif g (rule ∷ []) (all ++ []) (add_item rule g)
            (then_step (paths_step rule entries) (context entries))
            (add_items-Outcome artifacts sarif g (rule ∷ []) s
              (λ i m. elim m [ inl q ↦ rw q (normalized, from_sarif) | inr x ↦ absurd x ]))
            (λ h t sub has.
              after artifacts sarif h all [] (paths_step rule entries h) (context entries)
                (for_each-Outcome artifacts sarif h entries _ (λ (entry : Keyed ℕ). entry.1 ∷ []) t
                  (λ entry k m u more.
                    add_linked-Outcome artifacts sarif k entry.1 rule.evidence_id u (good entry m)
                      (rule, more rule (has rule (inl refl)), refl)))
                (λ k u sub2 has2. later entries k u (sub2 rule (has rule (inl refl))) (λ entry m.
                  has2 entry.1
                    (In-collect (λ (e : Keyed ℕ). e.1 ∷ []) entry.1 entry entries m (inl refl)))))))

  add_alert-Outcome :
      (persisted : Option (SliceArtifact Severity × ArtifactRecord)) (g : Graph)
      → ((p : SliceArtifact Severity × ArtifactRecord)
          → persisted ≡ some p
          → Registered artifacts sarif p.1.sha256)
      → IsSound artifacts sarif g
      → Outcome artifacts sarif g [] (add_alert builders alert normalized_sha256 persisted g)
  unfolding add_alert
  add_alert-Outcome none g stored s =
      rule_and_paths-Outcome [] (λ entries. ok) g s (λ entries h t m ms. keep artifacts sarif h t)
  add_alert-Outcome (some (artifact, slice_record)) g stored s =
      let slices = artifact.content.source_slices in
      let rule = rule_item builders alert normalized_sha256 slices in
      rule_and_paths-Outcome slices
        (λ entries.
          add_context builders alert rule (index_by ordinal_of entries) artifact.content
            slice_record.sha256)
        g s
        (λ entries h t m ms.
          add_context-Outcome artifacts sarif builders alert from_sarif rule entries
            slice_record.sha256 (stored (artifact, slice_record) refl) artifact.content h t (m, ms))

module _ {Severity Json : Type 0} (builders : Builders) (bundle : AlertBundle Severity Json)
    (normalized_artifact : ArtifactRecord)
    (persisted_slices : List (SliceArtifact Severity × ArtifactRecord)) where
  -- A built registry is closed, and an error is a collision of digests.
  abbrev pub IsBuilt : Result BuildError EvidenceRegistry → Type 0
  IsBuilt (ok r) = IsClosed r
  IsBuilt (err e) = IsCollision e

  abbrev registry : Graph → EvidenceRegistry
  registry = registry_of builders bundle normalized_artifact persisted_slices

  abbrev artifacts : List EvidenceArtifactReference
  artifacts = (registry (record { items = []; relationships = [] })).artifacts

  stored :
      (alert : NormalizedAlert Severity Json) (p : SliceArtifact Severity × ArtifactRecord)
      → persisted_for builders bundle normalized_artifact persisted_slices alert ≡ some p
      → Registered artifacts bundle.raw_sarif_sha256 p.1.sha256
  unfolding persisted_for
  stored alert p h =
      let m =
        (lookup-index_by-In (persisted_indexes builders bundle normalized_artifact persisted_slices)
          (indexes_of alert) persisted_slices p h).0 in
      let r = slice_reference builders bundle normalized_artifact persisted_slices in
      (r p, inr (In-map r p persisted_slices m), refl)

  module _
      (from_sarif : (alert : NormalizedAlert Severity Json)
        → In alert bundle.alerts
        → alert.raw_result_reference.raw_sarif_sha256 ≡ bundle.raw_sarif_sha256)
      (steps : (alert : NormalizedAlert Severity Json)
        → In alert bundle.alerts
        → HasSteps alert) where
    closed-IsBuilt :
        (g : Graph)
        → IsSound artifacts bundle.raw_sarif_sha256 g
        → IsBuilt (closed builders bundle normalized_artifact persisted_slices g)
    unfolding closed
    closed-IsBuilt g s = validated (validate_closed_registry (registry g)) refl
      where
        validated :
            (x : Result EvidenceError (Unit {0}))
            → validate_closed_registry (registry g) ≡ x
            → IsBuilt (elim x as (λ k. Result BuildError EvidenceRegistry) [
              | ok _ ↦ ok (registry g)
              | err e ↦ err (invalid e)
            ])
        validated (ok u) h = (validate_closed_registry_iff (registry g)).0 h
        validated (err e) h = registered e (
            validate-IsRepetition (registry g) e
              (λ a i. (validate_closed_registry_iff (registry g)).1 (record {
                unique_artifacts = (is_unique_iff _).0 a;
                unique_items = (is_unique_iff _).0 i;
                unique_claims = tt;
                anchored = s.anchored;
                linked = s.linked;
                cited = λ c k m n. absurd m;
              }))
              h)

    walked :
        (x : Result BuildError Graph) (added : List EvidenceItem) (g : Graph)
        → Outcome artifacts bundle.raw_sarif_sha256 g added x
        → IsBuilt (x >>= closed builders bundle normalized_artifact persisted_slices)
    walked (ok h) added g o = closed-IsBuilt h o.0
    walked (err e) added g o = o

    built : IsBuilt (build_evidence_registry builders bundle normalized_artifact persisted_slices)
    unfolding build_evidence_registry walk
    built =
        let start : Graph = record { items = []; relationships = [] } in
        walked _ (collect (λ (a : NormalizedAlert Severity Json). []) bundle.alerts) start (
          for_each-Outcome artifacts bundle.raw_sarif_sha256 start bundle.alerts _ (λ a. [])
            (record { anchored = λ i m. absurd m; linked = λ e m. absurd m })
            (λ alert h m t more.
              add_alert-Outcome artifacts bundle.raw_sarif_sha256 builders alert
                (from_sarif alert m) (steps alert m) normalized_artifact.sha256 (_, inl refl, refl)
                (persisted_for builders bundle normalized_artifact persisted_slices alert) h
                (stored alert) t))

-- Building the evidence registry of a bundle whose alerts are of its SARIF and whose paths have
-- steps gives a closed registry, or fails because two items or two artifacts have one digest. No edge
-- names a missing item, no item a missing artifact, and no lookup fails.
pub build-IsBuilt :
    {Severity Json : Type 0} (builders : Builders) (bundle : AlertBundle Severity Json)
    (normalized_artifact : ArtifactRecord)
    (persisted_slices : List (SliceArtifact Severity × ArtifactRecord))
    → ((alert : NormalizedAlert Severity Json)
        → In alert bundle.alerts
        → alert.raw_result_reference.raw_sarif_sha256 ≡ bundle.raw_sarif_sha256)
    → ((alert : NormalizedAlert Severity Json) → In alert bundle.alerts → HasSteps alert)
    → IsBuilt builders bundle normalized_artifact persisted_slices
        (build_evidence_registry builders bundle normalized_artifact persisted_slices)
build-IsBuilt builders bundle normalized_artifact persisted_slices from_sarif steps =
    built builders bundle normalized_artifact persisted_slices from_sarif steps
