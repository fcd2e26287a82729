-- ===== src/Builder/Lookups.antt =====
-- What the lookups of `build_evidence_registry` (src/evitriage/evidence/registry.py) find.
use evi_triage_ql.Prelude.{
  ℕ, String, ◌≡◌, sym, ◌⊎◌, inl, inr, Bool, true, false, Option, none, some, List, [], ◌∷◌, In,
  collect, collect-In, is_empty, Dict, lookup, index_by, lookup-index_by-In, sorted, sorted-In,
  to_set, to_set-In, nat_eq, string_eq, Bool-cases, Option-cases,
}
use evi_triage_ql.Evidence.{EvidenceId, EvidenceItem}
use evi_triage_ql.Context.{SourceSlice, ContextReference}
use evi_triage_ql.Builder.{covers, first_covering}
use evi_triage_ql.Builder.Build.{Keyed, ordinal_of, dependency, dependencies}

dependency-In :
    (entries : List (Keyed ℕ)) (r : ContextReference) (k : EvidenceId)
    → In k (dependency (index_by ordinal_of entries) r)
    → (entry : Keyed ℕ) × In entry entries × (k ≡ entry.1.evidence_id)
unfolding dependency
dependency-In entries r k m = by_ordinal r.path_ordinal m
  where
    by_ordinal :
        (o : Option ℕ)
        → In k (elim o as (λ x. List EvidenceId) [
          | none ↦ []
          | some ordinal ↦
              elim (lookup ordinal (index_by ordinal_of entries)) as (λ x. List EvidenceId) [
                | none ↦ []
                | some (j, i) ↦ i.evidence_id ∷ []
              ]
        ])
        → (entry : Keyed ℕ) × In entry entries × (k ≡ entry.1.evidence_id)
    by_ordinal none n = absurd n
    by_ordinal (some ordinal) n =
        elim (Option-cases (lookup ordinal (index_by ordinal_of entries))) [
          | inl q ↦ absurd (rw q at n)
          | inr (entry, q) ↦
              let l = lookup-index_by-In ordinal_of ordinal entries entry q in
              elim (let x : In k (entry.1.evidence_id ∷ []) = rw q at n in x) [
                | inl p ↦ (entry, l.0, p)
                | inr x ↦ absurd x
              ]
        ]

-- A dependency of a slice is the rule or a path.
pub dependencies-In :
    (rule : EvidenceItem) (entries : List (Keyed ℕ)) (slice : SourceSlice) (k : EvidenceId)
    → In k (dependencies rule (index_by ordinal_of entries) slice)
    → (k ≡ rule.evidence_id) ⊎ ((entry : Keyed ℕ) × In entry entries × (k ≡ entry.1.evidence_id))
unfolding dependencies
dependencies-In rule entries slice k m = by_empty (is_empty found) m
  where
    path_items : Dict ℕ (Keyed ℕ)
    path_items = index_by ordinal_of entries

    found : List EvidenceId
    found = collect (dependency path_items) slice.references

    by_empty :
        (b : Bool)
        → In k (elim b as (λ x. List EvidenceId) [
          | true ↦ rule.evidence_id ∷ []
          | false ↦ sorted (λ j. j) (to_set found)
        ])
        → (k ≡ rule.evidence_id)
          ⊎ ((entry : Keyed ℕ) × In entry entries × (k ≡ entry.1.evidence_id))
    by_empty true (inl q) = inl q
    by_empty true (inr x) = absurd x
    by_empty false n =
        let (r, _, l) =
          collect-In (dependency path_items) k slice.references
            (to_set-In k found (sorted-In (λ j. j) k (to_set found) n)) in
        inr (dependency-In entries r k l)

pub first_covering-In :
    (path : String) (line : ℕ) (slices : List SourceSlice) (s : SourceSlice)
    → first_covering path line slices ≡ some s
    → In s slices
unfolding first_covering
first_covering-In path line [] s h = absurd (cc h)
first_covering-In path line (x ∷ xs) s h = elim (Bool-cases (covers path line x)) [
  | inl q ↦ let p : x ≡ s = cc (rw q at h) in inl (sym p)
  | inr q ↦ inr (first_covering-In path line xs s (rw q at h))
]
