-- ===== src/ContextBuilder/Cache.antt =====
-- The cache of `ContextBuilder._read_source`, src/evitriage/context/builder.py, against reading every
-- file afresh.
use evi_triage_ql.Prelude.{
  ℕ, ◌≡◌, refl, sym, ap, ◌∙◌, inl, inr, String, some, List, [], ◌∷◌, Bool-cases, Option-cases,
  lookup, insert, lookup-insert, string_eq, ◌==◌,
}
use evi_triage_ql.Context.{ContextPolicyName, ContextReference}
use evi_triage_ql.ContextBuilder.{JavaPatterns}
use evi_triage_ql.ContextBuilder.Reading.{Opened, Source, Files, Reader, observe, read_source}
use evi_triage_ql.ContextBuilder.Selecting.{Gathered, gather_from, gather}

module _ {S : Type 0} (patterns : JavaPatterns) (files : Files S) (maximum_source_bytes : ℕ)
    (policy : ContextPolicyName) (view : String → Opened) where
  -- What a path gives where nothing is remembered.
  abbrev pub fresh : String → Source
  fresh path = observe files maximum_source_bytes path (view path)

  -- The loop over the references that reads the file of each.
  unfoldable pub gather_fresh : List ContextReference → Gathered → Gathered
  unfolding gather_from
  gather_fresh [] g = g
  gather_fresh (r ∷ rs) g =
      gather_fresh rs
        (gather_from patterns files maximum_source_bytes policy r (fresh r.location.path) g)

  abbrev pub Agrees : Reader S → Type 0
  Agrees reader = (p : String) (s : Source) → lookup p reader.cache ≡ some s → s ≡ fresh p

  -- The file system answers as `view` does, whenever it is asked.
  abbrev pub IsStable : Type 0
  IsStable = (p : String) (system : S) → (files.open_path p system).0 ≡ view p

  read_source-fresh :
      (p : String) (reader : Reader S)
      → IsStable
      → Agrees reader
      → ((read_source files maximum_source_bytes p reader).0 ≡ fresh p)
        × Agrees (read_source files maximum_source_bytes p reader).1
  unfolding read_source
  read_source-fresh p reader stable agrees = elim (Option-cases (lookup p reader.cache)) [
    | inr (s, q) ↦ rw (q, read_source) (agrees p s q, agrees)
    | inl q ↦ rw (q, read_source) (now, later)
  ]
    where
      now : observe files maximum_source_bytes p (files.open_path p reader.system).0 ≡ fresh p
      now = ap (observe files maximum_source_bytes p) (stable p reader.system)

      later :
          (j : String) (s : Source)
          → lookup j (
              insert p
                (observe files maximum_source_bytes p (files.open_path p reader.system).0)
                reader.cache)
            ≡ some s
          → s ≡ fresh j
      later j s h = elim (Bool-cases (p == j)) [
        | inl q ↦
            let e : some (observe files maximum_source_bytes p (files.open_path p reader.system).0)
                ≡ some s =
              rw (lookup-insert, q) at h in
            let same : p ≡ j = (string_eq.beq_iff p j).0 q in
            let k : observe files maximum_source_bytes p (files.open_path p reader.system).0 ≡ s =
              cc e in
            sym k ∙ (now ∙ ap fresh same)
        | inr q ↦ agrees j s (rw (lookup-insert, q) at h)
      ]

  gather-fresh :
      (rs : List ContextReference) (g : Gathered) (reader : Reader S)
      → IsStable
      → Agrees reader
      → ((gather patterns files maximum_source_bytes policy rs g reader).0 ≡ gather_fresh rs g)
        × Agrees (gather patterns files maximum_source_bytes policy rs g reader).1
  unfolding gather gather_fresh
  gather-fresh [] g reader stable agrees = (refl, agrees)
  gather-fresh (r ∷ rs) g reader stable agrees =
      let (now, later) = read_source-fresh r.location.path reader stable agrees in
      let (e, k) =
        gather-fresh rs _ (read_source files maximum_source_bytes r.location.path reader).1 stable
          later in
      (
        e
            ∙ ap
                (λ s.
                  gather_fresh rs (gather_from patterns files maximum_source_bytes policy r s g))
                now,
        k,
      )

-- While the file system stays as it is, the loop over the references, which remembers what it read,
-- gathers what the loop that reads every reference's file afresh gathers, from an empty cache or
-- from one that earlier alerts left, and it leaves such a cache.
pub gather-refines :
    {S : Type 0} (patterns : JavaPatterns) (files : Files S) (maximum_source_bytes : ℕ)
    (policy : ContextPolicyName) (view : String → Opened) (rs : List ContextReference)
    (g : Gathered) (reader : Reader S)
    → IsStable patterns files maximum_source_bytes policy view
    → Agrees patterns files maximum_source_bytes policy view reader
    → ((gather patterns files maximum_source_bytes policy rs g reader).0
        ≡ gather_fresh patterns files maximum_source_bytes policy view rs g)
      × Agrees patterns files maximum_source_bytes policy view
          (gather patterns files maximum_source_bytes policy rs g reader).1
gather-refines patterns files maximum_source_bytes policy view rs g reader stable agrees =
    gather-fresh patterns files maximum_source_bytes policy view rs g reader stable agrees
