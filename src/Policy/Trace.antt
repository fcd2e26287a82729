-- ===== src/Policy/Trace.antt =====
-- The dictionaries and sets that `apply` builds, against the registry and the claims.
use evi_triage_ql.Prelude.{
  ℕ, ◌≡◌, sym, ap, ◌∙◌, subst, ◌↔◌, inl, inr, true, List, map, arith, Option-cases, ok, map_result,
  map_result-In, In-map_result, map_result_total, In, map-In, In-map, filter-In, In-filter, filter,
  all_elim, all_intro, elem, elem-In, In-elem, Unique, eq_of_key, Dict, lookup, contains, index_by,
  lookup-index_by-In, In-lookup-index_by, nat_eq, some,
}
use evi_triage_ql.Evidence.{EvidenceId, EvidenceItem, Claim, reference_beq_iff}
use evi_triage_ql.Evidence.Registry.{EvidenceRegistry, item_id, claim_id_of}
use evi_triage_ql.Triage.{TriageTarget}
use evi_triage_ql.Policy.{on_target, target_evidence, keys_within, subscript}
use evi_triage_ql.Policy.Basis.{OnTarget}

pub subscript-eq-ok :
    {V : Type 0} (d : Dict ℕ V) (k : ℕ) (v : V) → subscript d k ≡ ok v → lookup k d ≡ some v
subscript-eq-ok d k v h = elim (Option-cases (lookup k d)) [
  | inl n ↦ absurd (cc (rw n at h))
  | inr (w, p) ↦ p ∙ cc (rw p at h)
]

pub keys_within_elim :
    {V : Type 0} (ks : List ℕ) (d : Dict ℕ V) (k : ℕ)
    → keys_within ks d ≡ true
    → In k ks
    → (v : V) × (lookup k d ≡ some v)
unfolding keys_within contains
keys_within_elim ks d k h m = elim (Option-cases (lookup k d)) [
  | inl n ↦
      let p : contains k d ≡ true = all_elim (λ j. contains j d) k ks h m in
      absurd (cc (rw (n, contains) at p))
  | inr r ↦ r
]

pub keys_within_intro :
    {V : Type 0} (ks : List ℕ) (d : Dict ℕ V)
    → ((k : ℕ) → In k ks → (v : V) × (lookup k d ≡ some v))
    → keys_within ks d ≡ true
unfolding keys_within contains
keys_within_intro ks d h =
    all_intro (λ j. contains j d) ks (λ k m. let (v, p) = h k m in rw (p, contains))

-- The subscripts of keys that are present do not raise.
pub subscripts_total :
    {V : Type 0} (ks : List ℕ) (d : Dict ℕ V)
    → ((k : ℕ) → In k ks → (v : V) × (lookup k d ≡ some v))
    → (vs : List V) × (map_result (subscript d) ks ≡ ok vs)
subscripts_total ks d h = map_result_total (subscript d) ks (λ k m. let (v, p) = h k m in (v, rw p))

module _ (registry : EvidenceRegistry) (target : TriageTarget) where
  pub on_target_elim :
      (i : EvidenceItem)
      → In i registry.items
      → on_target target i ≡ true
      → OnTarget registry target i
  on_target_elim i m h = (m, ground arith, (reference_beq_iff _ _).0 (ground arith))

  pub on_target_intro : (i : EvidenceItem) → OnTarget registry target i → on_target target i ≡ true
  on_target_intro i (m, p, q) = rw ((nat_eq.beq_iff _ _).1 p, (reference_beq_iff _ _).1 q)

  -- What is stored under a key is an item of the target with that identifier.
  pub lookup-OnTarget :
      (k : EvidenceId) (i : EvidenceItem)
      → lookup k (target_evidence registry target) ≡ some i
      → OnTarget registry target i × (i.evidence_id ≡ k)
  unfolding target_evidence
  lookup-OnTarget k i h =
      let (m, e) = lookup-index_by-In item_id k (filter (on_target target) registry.items) i h in
      let (n, t) = filter-In (on_target target) i registry.items m in (on_target_elim i n t, e)

  -- Every item of the target is stored under its identifier, where identifiers are distinct.
  pub OnTarget-lookup :
      (i : EvidenceItem)
      → Unique (map item_id registry.items)
      → OnTarget registry target i
      → lookup i.evidence_id (target_evidence registry target) ≡ some i
  unfolding target_evidence
  OnTarget-lookup i u t =
      let stored = filter (on_target target) registry.items in
      let n = In-filter (on_target target) i registry.items t.0 (on_target_intro i t) in
      let (j, p) = In-lookup-index_by item_id stored i n in
      let (l, e) = lookup-index_by-In item_id i.evidence_id stored j p in
      let (k, _) = filter-In (on_target target) j registry.items l in
      let same : j ≡ i = eq_of_key item_id j i registry.items u k t.0 e in p ∙ ap some same

  -- Some item of the target is stored under its identifier.
  pub OnTarget-present :
      (i : EvidenceItem)
      → OnTarget registry target i
      → (j : EvidenceItem) × (lookup i.evidence_id (target_evidence registry target) ≡ some j)
  unfolding target_evidence
  OnTarget-present i t =
      In-lookup-index_by item_id (filter (on_target target) registry.items) i
        (In-filter (on_target target) i registry.items t.0 (on_target_intro i t))

module _ (claims : List Claim) (ids : List ℕ) (critical : List Claim)
    (found : map_result (subscript (index_by claim_id_of claims)) ids ≡ ok critical) where
  -- What the loop over the Judge's claim identifiers collects are claims of the trace.
  pub critical-In : (c : Claim) → In c critical → In c claims × In c.claim_id ids
  critical-In c m =
      let (k, n, p) =
        map_result-In (subscript (index_by claim_id_of claims)) ids critical c found m in
      let (l, e) = lookup-index_by-In claim_id_of k claims c (subscript-eq-ok _ k c p) in
      (l, subst (λ z. In z ids) (sym e) n)

  pub In-critical :
      (c : Claim)
      → Unique (map claim_id_of claims)
      → In c claims
      → In c.claim_id ids
      → In c critical
  In-critical c u m n =
      let (b, l, p) =
        In-map_result (subscript (index_by claim_id_of claims)) ids critical c.claim_id found n in
      let (k, e) = lookup-index_by-In claim_id_of c.claim_id claims b (subscript-eq-ok _ _ b p) in
      subst (λ z. In z critical) (eq_of_key claim_id_of b c claims u k m e) l

  -- The identifiers of the collected claims are the Judge's.
  pub critical_ids : (k : ℕ) → (elem k (map claim_id_of critical) ≡ true) ↔ In k ids
  critical_ids k = (there, back)
    where
      there : elem k (map claim_id_of critical) ≡ true → In k ids
      there h =
          let (c, m, e) = map-In claim_id_of k critical (elem-In k _ h) in
          subst (λ z. In z ids) (sym e) (critical-In c m).1

      back : In k ids → elem k (map claim_id_of critical) ≡ true
      back n =
          let (b, l, p) =
            In-map_result (subscript (index_by claim_id_of claims)) ids critical k found n in
          let (_, e) = lookup-index_by-In claim_id_of k claims b (subscript-eq-ok _ k b p) in
          In-elem k _
            (subst (λ z. In z (map claim_id_of critical)) e (In-map claim_id_of b critical l))
