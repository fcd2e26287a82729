-- ===== src/Builder/Sound.antt =====
-- What the steps of `build_evidence_registry` (src/evitriage/evidence/registry.py) keep of a graph.
use evi_triage_ql.Prelude.{
  ◌≡◌, refl, inl, inr, Bool, true, false, List, [], ◌∷◌, ◌++◌, Result, ok, err, raise_if, ◌>>=◌, In,
  In-append, In-append_left, In-append_right, collect, ◌==◌, nat_eq,
}
use evi_triage_ql.Evidence.{Sha256, EvidenceId, EvidenceItem, EvidenceError, self_edge}
use evi_triage_ql.Evidence.Registry.{
  EvidenceArtifactReference, Relation, EvidenceRelationship, reject_self_edge,
}
use evi_triage_ql.Evidence.Registry.Closure.{IsRepetition}
use evi_triage_ql.Builder.{
  Graph, BuildError, invalid, Step, add_item, add_edge, for_each, add_linked,
}

-- An item of the graph has the identifier.
abbrev pub Named : Graph → EvidenceId → Type 0
Named g k = (i : EvidenceItem) × In i g.items × (k ≡ i.evidence_id)

abbrev pub Extends : Graph → Graph → Type 0
Extends g h = (i : EvidenceItem) → In i g.items → In i h.items

-- What the builder can raise: that two items or artifacts have one digest.
pub data IsCollision : BuildError → Type 0 where
  edge : IsCollision (invalid self_edge)
  registered : (e : EvidenceError) → IsRepetition e → IsCollision (invalid e)

module _ (artifacts : List EvidenceArtifactReference) (sarif : Sha256) where
  abbrev pub Anchored : EvidenceItem → Type 0
  Anchored i =
      ((a : EvidenceArtifactReference) × In a artifacts × (i.artifact_sha256 ≡ a.artifact_sha256))
      × (i.raw_result_reference.raw_sarif_sha256 ≡ sarif)

  -- Every item is anchored, and every edge joins two items.
  pub record IsSound (g : Graph) : Type 0 where
    pub anchored : (i : EvidenceItem) → In i g.items → Anchored i
    pub linked :
        (e : EvidenceRelationship)
        → In e g.relationships
        → Named g e.source_evidence_id × Named g e.target_evidence_id

  -- How a step from `g` that adds `added` ends.
  abbrev pub Outcome : Graph → List EvidenceItem → Result BuildError Graph → Type 0
  Outcome g added (ok h) =
      IsSound h × Extends g h × ((i : EvidenceItem) → In i added → In i h.items)
  Outcome g added (err e) = IsCollision e

  pub keep : (g : Graph) → IsSound g → Outcome g [] (ok g)
  keep g s = (s, λ i m. m, λ i m. absurd m)

  pub Extends-Named : (g h : Graph) (k : EvidenceId) → Extends g h → Named g k → Named h k
  Extends-Named g h k sub (i, m, q) = (i, sub i m, q)

  pub after :
      (g : Graph) (is js : List EvidenceItem) (r : Result BuildError Graph) (f : Step)
      → Outcome g is r
      → ((h : Graph)
          → IsSound h
          → Extends g h
          → ((i : EvidenceItem) → In i is → In i h.items)
          → Outcome h js (f h))
      → Outcome g (is ++ js) (r >>= f)
  after g is js (err e) f o later = o
  after g is js (ok h) f (s, sub, has) later = chain (f h) (later h s sub has)
    where
      chain : (x : Result BuildError Graph) → Outcome h js x → Outcome g (is ++ js) x
      chain (err e) o = o
      chain (ok k) (t, sub2, has2) = (
        t,
        λ i m. sub2 i (sub i m),
        λ i m. elim (In-append i is js m) [ inl l ↦ sub2 i (has i l) | inr n ↦ has2 i n ],
      )

  -- Items that are anchored may be added.
  pub add_items-Outcome :
      (g : Graph) (items : List EvidenceItem)
      → IsSound g
      → ((i : EvidenceItem) → In i items → Anchored i)
      → Outcome g items (ok (record g { items = g.items ++ items }))
  add_items-Outcome g items s new = (
    record {
      anchored = λ i m. elim (In-append i g.items items m) [
        | inl old ↦ s.anchored i old
        | inr n ↦ new i n
      ];
      linked = λ e m.
          let ((i, n, p), (j, l, q)) = s.linked e m in
          ((i, In-append_left i g.items items n, p), (j, In-append_left j g.items items l, q));
    },
    λ i m. In-append_left i g.items items m,
    λ i m. In-append_right i g.items items m,
  )

  -- An edge may join two items of the graph.
  pub add_edge-Outcome :
      (g : Graph) (from to : EvidenceId)
      → IsSound g
      → Named g from
      → Named g to
      → Outcome g [] (add_edge from to g)
  unfolding add_edge reject_self_edge
  add_edge-Outcome g from to s p q = joined (from == to)
    where
      joined :
          (same : Bool)
          → Outcome g [] (elim (raise_if same self_edge) as (λ k. Result BuildError Graph) [
            | ok _ ↦ ok (record g {
              relationships =
                  g.relationships
                  ++ record {
                    source_evidence_id = from;
                    relation = Relation.depends_on;
                    target_evidence_id = to;
                  }
                    ∷ [];
            })
            | err e ↦ err (invalid e)
          ])
      joined true = edge
      joined false = (
        record {
          anchored = s.anchored;
          linked = λ e m. elim (In-append e g.relationships _ m) [
            | inl old ↦ s.linked e old
            | inr (inl new) ↦ rw new (p, q)
            | inr (inr x) ↦ absurd x
          ];
        },
        λ i m. m,
        λ i m. absurd m,
      )

  pub for_each-Outcome :
      {A : Type 0} (g : Graph) (xs : List A) (f : A → Step) (made : A → List EvidenceItem)
      → IsSound g
      → ((x : A) (h : Graph) → In x xs → IsSound h → Extends g h → Outcome h (made x) (f x h))
      → Outcome g (collect made xs) (for_each xs f g)
  unfolding for_each collect
  for_each-Outcome g [] f made s each = keep g s
  for_each-Outcome g (x ∷ xs) f made s each =
      after g (made x) (collect made xs) (f x g) (for_each xs f) (each x g (inl refl) s (λ i m. m))
        (λ h t sub has.
          for_each-Outcome h xs f made t
            (λ y k m u more. each y k (inr m) u (λ i n. more i (sub i n))))

  -- An anchored item with an edge to an item of the graph.
  pub add_linked-Outcome :
      (g : Graph) (item : EvidenceItem) (to : EvidenceId)
      → IsSound g
      → Anchored item
      → Named g to
      → Outcome g (item ∷ []) (add_linked item to g)
  add_linked-Outcome g item to s new q =
      after g (item ∷ []) [] (add_item item g) (add_edge item.evidence_id to)
        (add_items-Outcome g (item ∷ []) s (λ i m. elim m [ inl e ↦ rw e new | inr x ↦ absurd x ]))
        (λ h t sub has.
          add_edge-Outcome h item.evidence_id to t (item, has item (inl refl), refl)
            (Extends-Named g h to sub q))
