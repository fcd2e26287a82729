-- ===== src/Builder/Alert.antt =====
-- What the loops of `build_evidence_registry` (src/evitriage/evidence/registry.py) make of one alert.
use evi_triage_ql.Prelude.{
  ℕ, String, ◌≡◌, refl, sym, subst, inl, inr, Bool, true, false, List, [], ◌∷◌, ◌++◌, map, Result,
  ok, err, In, In-map, map-In, collect, In-collect, Dict, index_by, lookup-index_by-In,
  In-lookup-index_by, nat_eq, string_eq, Option-cases,
}
use evi_triage_ql.Evidence.{Sha256, EvidenceId, EvidenceItem}
use evi_triage_ql.Evidence.Registry.{EvidenceArtifactReference}
use evi_triage_ql.Alerts.{NormalizedAlert}
use evi_triage_ql.Context.{SourceSlice, ContextCandidate, ContextOmission, SliceContent}
use evi_triage_ql.Supplement.{evidence_item}
use evi_triage_ql.Builder.{
  Graph, BuildError, Step, then_step, add_item, add_edge, for_each, add_linked, first_covering,
}
use evi_triage_ql.Builder.Walk.{
  Builders, is_resource, source_item, lifecycle_item, gap_item, candidate_item,
}
use evi_triage_ql.Builder.Build.{
  Keyed, ordinal_of, slice_id_of, dependencies, add_lifecycle, add_slice, add_gap, add_candidate,
  add_context,
}
use evi_triage_ql.Builder.Sound.{
  Extends, IsSound, Outcome, keep, after, add_items-Outcome, add_edge-Outcome, for_each-Outcome,
  add_linked-Outcome,
}
use evi_triage_ql.Builder.Lookups.{dependencies-In, first_covering-In}

module _ (artifacts : List EvidenceArtifactReference) (sarif : Sha256) where
  abbrev pub Registered : Sha256 → Type 0
  Registered hash = (a : EvidenceArtifactReference) × In a artifacts × (hash ≡ a.artifact_sha256)

  pub weaken :
      (g : Graph) (is js : List EvidenceItem) (r : Result BuildError Graph)
      → ((i : EvidenceItem) → In i js → In i is)
      → Outcome artifacts sarif g is r
      → Outcome artifacts sarif g js r
  weaken g is js (ok h) sub (s, more, has) = (s, more, λ i m. has i (sub i m))
  weaken g is js (err e) sub o = o

  optional :
      (b : Bool) (f : Step) (g : Graph)
      → IsSound artifacts sarif g
      → Outcome artifacts sarif g [] (f g)
      → Outcome artifacts sarif g [] ((elim b as (λ k. Step) [ true ↦ f | false ↦ ok ]) g)
  optional true f g s o = o
  optional false f g s o = keep artifacts sarif g s

  module _ {Severity Json : Type 0} (builders : Builders) (alert : NormalizedAlert Severity Json)
      (from_sarif : alert.raw_result_reference.raw_sarif_sha256 ≡ sarif) where
    module _ (rule : EvidenceItem) (entries : List (Keyed ℕ)) (slice_sha256 : Sha256)
        (registered : Registered slice_sha256) where
      abbrev path_items : Dict ℕ (Keyed ℕ)
      path_items = index_by ordinal_of entries

      -- The rule and the paths are in the graph.
      abbrev HasPaths : Graph → Type 0
      HasPaths g = In rule g.items × ((entry : Keyed ℕ) → In entry entries → In entry.1 g.items)

      abbrev source : SourceSlice → EvidenceItem
      source slice = source_item builders alert slice_sha256 slice

      add_lifecycle-Outcome :
          (slice : SourceSlice) (g : Graph)
          → IsSound artifacts sarif g
          → In (source slice) g.items
          → Outcome artifacts sarif g []
              (add_lifecycle builders alert rule path_items slice_sha256 slice g)
      unfolding add_lifecycle lifecycle_item evidence_item
      add_lifecycle-Outcome slice g s m =
          let items =
            map (lifecycle_item builders alert slice_sha256 slice)
              (builders.observe slice.content slice.start_line) in
          weaken g (items ++ collect (λ (i : EvidenceItem). []) items) [] _ (λ i n. absurd n)
            (after artifacts sarif g items (collect (λ (i : EvidenceItem). []) items)
              (ok (record g { items = g.items ++ items }))
              (for_each items
                (λ (item : EvidenceItem). add_edge item.evidence_id (source slice).evidence_id))
              (add_items-Outcome artifacts sarif g items s (λ i n.
                let (o, _, q) = map-In (lifecycle_item builders alert slice_sha256 slice) i _ n in
                rw q (registered, from_sarif)))
              (λ h t sub has.
                for_each-Outcome artifacts sarif h items _ (λ (i : EvidenceItem). []) t
                  (λ x k n u more.
                    add_edge-Outcome artifacts sarif k x.evidence_id (source slice).evidence_id u
                      (x, more x (has x n), refl)
                      (source slice, more (source slice) (sub (source slice) m), refl))))

      abbrev lifecycle : SourceSlice → Step
      lifecycle slice = elim (is_resource builders alert) [
        | true ↦ add_lifecycle builders alert rule path_items slice_sha256 slice
        | false ↦ ok
      ]

      add_slice-Outcome :
          (slice : SourceSlice) (g : Graph)
          → IsSound artifacts sarif g
          → HasPaths g
          → Outcome artifacts sarif g
              (source slice ∷ [])
              (add_slice builders alert rule path_items slice_sha256 slice g)
      unfolding add_slice source_item evidence_item
      add_slice-Outcome slice g s paths =
          let ks = dependencies rule path_items slice in
          let none_made = collect (λ (k : EvidenceId). []) ks in
          let link = λ (k : EvidenceId). add_edge (source slice).evidence_id k in
          weaken g (source slice ∷ [] ++ none_made) (source slice ∷ []) _
            (λ i m. elim m [ inl q ↦ inl q | inr x ↦ absurd x ])
            (after artifacts sarif g (source slice ∷ []) none_made (add_item (source slice) g)
              (then_step (lifecycle slice) (for_each ks link))
              (add_items-Outcome artifacts sarif g (source slice ∷ []) s
                (λ i m. elim m [ inl q ↦ rw q (registered, from_sarif) | inr x ↦ absurd x ]))
              (λ h t sub has.
                let here = has (source slice) (inl refl) in
                after artifacts sarif h [] none_made (lifecycle slice h) (for_each ks link)
                  (optional (is_resource builders alert) _ h t
                    (add_lifecycle-Outcome slice h t here))
                  (λ k u sub2 has2.
                    for_each-Outcome artifacts sarif k ks link (λ (j : EvidenceId). []) u
                      (λ j l n v more.
                        add_edge-Outcome artifacts sarif l (source slice).evidence_id j v
                          (source slice, more (source slice) (sub2 (source slice) here), refl)
                          (elim (dependencies-In rule entries slice j n) [
                            | inl q ↦ (rule, more rule (sub2 rule (sub rule paths.0)), q)
                            | inr (entry, e, q) ↦ (
                              entry.1,
                              more entry.1 (sub2 entry.1 (sub entry.1 (paths.1 entry e))),
                              q,
                            )
                          ])))))

      add_gap-Outcome :
          (omission : ContextOmission) (g : Graph)
          → IsSound artifacts sarif g
          → In rule g.items
          → Outcome artifacts sarif g []
              (add_gap builders alert rule path_items slice_sha256 omission g)
      unfolding add_gap gap_item evidence_item
      add_gap-Outcome omission g s m =
          let item = gap_item builders alert slice_sha256 omission in
          weaken g (item ∷ []) [] _ (λ i n. absurd n)
            (add_linked-Outcome artifacts sarif g item rule.evidence_id s (registered, from_sarif)
              (rule, m, refl))

      abbrev slice_entry : SourceSlice → Keyed String
      slice_entry slice = (slice.slice_id, source slice)

      add_candidate-Outcome :
          (slices : List SourceSlice) (candidate : ContextCandidate) (g : Graph)
          → IsSound artifacts sarif g
          → ((slice : SourceSlice) → In slice slices → In (source slice) g.items)
          → Outcome artifacts sarif g [] (
              add_candidate builders alert rule path_items slice_sha256 slices
                (index_by slice_id_of (map slice_entry slices))
                candidate
                g)
      unfolding add_candidate candidate_item evidence_item
      add_candidate-Outcome slices candidate g s has =
          let line = candidate.location.start_line in
          let run =
            add_candidate builders alert rule path_items slice_sha256 slices
              (index_by slice_id_of (map slice_entry slices)) candidate g in
          elim (Option-cases (first_covering candidate.location.path line slices)) [
            | inl q ↦
                let same : run ≡ ok g = rw (add_candidate, q) refl in
                subst (λ r. Outcome artifacts sarif g [] r) (sym same) (keep artifacts sarif g s)
            | inr (containing, q) ↦
                let m = first_covering-In candidate.location.path line slices containing q in
                let table = map slice_entry slices in
                let (w, p) =
                  In-lookup-index_by slice_id_of table (slice_entry containing)
                    (In-map slice_entry containing slices m) in
                let (other, n, e) =
                  map-In slice_entry w slices
                    (lookup-index_by-In slice_id_of containing.slice_id table w p).0 in
                let item = candidate_item builders alert slice_sha256 candidate containing in
                let there : In w.1 g.items =
                  subst (λ (x : Keyed String). In x.1 g.items) (sym e) (has other n) in
                let same : run ≡ add_linked item w.1.evidence_id g =
                  rw (add_candidate, q, p) refl in
                subst (λ r. Outcome artifacts sarif g [] r) (sym same)
                  (weaken g (item ∷ []) [] _ (λ i l. absurd l)
                    (add_linked-Outcome artifacts sarif g item w.1.evidence_id s
                      (registered, from_sarif) (w.1, there, refl)))
          ]

      HasPaths-Extends : (g h : Graph) → Extends g h → HasPaths g → HasPaths h
      HasPaths-Extends g h more (m, ms) = (more rule m, λ entry n. more entry.1 (ms entry n))

      abbrev gaps : SliceContent Severity → Step
      gaps content = elim (is_resource builders alert) [
        | true ↦ for_each content.omitted (add_gap builders alert rule path_items slice_sha256)
        | false ↦ ok
      ]

      -- What the slices of an alert add.
      pub add_context-Outcome :
          (content : SliceContent Severity) (g : Graph)
          → IsSound artifacts sarif g
          → HasPaths g
          → Outcome artifacts sarif g []
              (add_context builders alert rule path_items content slice_sha256 g)
      unfolding add_context
      add_context-Outcome content g s paths =
          let slices = content.source_slices in
          let candidates = content.guards ++ content.candidate_sanitizers in
          let table = index_by slice_id_of (map slice_entry slices) in
          let made = collect (λ (x : SourceSlice). source x ∷ []) slices in
          let nothing = collect (λ (x : ContextCandidate). []) candidates in
          weaken g (made ++ nothing) [] _ (λ i m. absurd m)
            (after artifacts sarif g made nothing
              (for_each slices (add_slice builders alert rule path_items slice_sha256) g)
              (then_step (gaps content) (
                for_each candidates
                  (add_candidate builders alert rule path_items slice_sha256 slices table)))
              (for_each-Outcome artifacts sarif g slices _ (λ (x : SourceSlice). source x ∷ []) s
                (λ x h m t more. add_slice-Outcome x h t (HasPaths-Extends g h more paths)))
              (λ h t sub has.
                after artifacts sarif h [] nothing (gaps content h) _
                  (optional (is_resource builders alert) _ h t (
                    weaken h (collect (λ (x : ContextOmission). []) content.omitted) [] _
                      (λ i m. absurd m)
                      (for_each-Outcome artifacts sarif h content.omitted _
                        (λ (x : ContextOmission). []) t
                        (λ x k m u more. add_gap-Outcome x k u (more rule (sub rule paths.0))))))
                  (λ k u sub2 has2.
                    for_each-Outcome artifacts sarif k candidates _ (λ (x : ContextCandidate). []) u
                      (λ x l m v more. add_candidate-Outcome slices x l v (λ slice n.
                        more (source slice) (
                          sub2 (source slice) (
                            has (source slice) (
                              In-collect (λ (y : SourceSlice). source y ∷ []) (source slice) slice
                                slices n (inl refl)))))))))
