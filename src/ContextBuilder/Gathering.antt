-- ===== src/ContextBuilder/Gathering.antt =====
-- What the first loop of `_build_alert`, src/evitriage/context/builder.py, gathers.
use evi_triage_ql.Prelude.{
  ℕ, refl, sym, subst, ◌⊎◌, inl, inr, List, [], ◌∷◌, arith, Bool-cases, Option-cases, In, In-append,
}
use evi_triage_ql.Context.{ContextPolicyName, ContextReference}
use evi_triage_ql.ContextBuilder.{SourceDocument, Selection, JavaPatterns}
use evi_triage_ql.ContextBuilder.Reading.{Source, document, failure, Files, Reader, read_source}
use evi_triage_ql.ContextBuilder.Selecting.{
  Entry, Gathered, same_range, add_selection, is_stale, select_in, coordinate_error, gather_from,
  gather,
}
use evi_triage_ql.ContextBuilder.Placed.{IsPlaced, IsRange, IsReference, select-Covers}

-- An entry has a range and well-formed references.
pub record IsEntry (entry : Entry) : Type 0 where
  pub range : IsRange entry.selection
  pub referred : (r : ContextReference) → In r entry.references → IsReference r

abbrev pub AreEntries : List Entry → Type 0
AreEntries entries = (entry : Entry) → In entry entries → IsEntry entry

AreEntries-cons : (e : Entry) (es : List Entry) → IsEntry e → AreEntries es → AreEntries (e ∷ es)
AreEntries-cons e es h k entry (inl p) = subst IsEntry (sym p) h
AreEntries-cons e es h k entry (inr m) = k entry m

add_selection-AreEntries :
    (doc : SourceDocument) (s : Selection) (r : ContextReference) (es : List Entry)
    → IsRange s
    → IsReference r
    → AreEntries es
    → AreEntries (add_selection doc s r es)
unfolding add_selection
add_selection-AreEntries doc s r [] range good h =
    AreEntries-cons _ [] (record { range = range; referred = λ q. one q }) h
  where
    one : (q : ContextReference) → In q (r ∷ []) → IsReference q
    one q (inl e) = subst IsReference (sym e) good
    one q (inr m) = absurd m
add_selection-AreEntries doc s r (e ∷ es) range good h =
    let head = h e (inl refl) in
    let rest = add_selection-AreEntries doc s r es range good (λ x m. h x (inr m)) in
    elim (Bool-cases (same_range doc s e)) [
      | inr q ↦ rw q (AreEntries-cons e _ head rest)
      | inl q ↦ rw q (
          AreEntries-cons _ es
            (record { range = head.range; referred = λ x m. more head x (In-append x _ _ m) })
            (λ x m. h x (inr m)))
    ]
  where
    more : IsEntry e → (q : ContextReference) → In q e.references ⊎ In q (r ∷ []) → IsReference q
    more head q (inl m) = head.referred q m
    more head q (inr (inl p)) = subst IsReference (sym p) good
    more head q (inr (inr m)) = absurd m

module _ {S : Type 0} (patterns : JavaPatterns) (files : Files S) (maximum_source_bytes : ℕ)
    (policy : ContextPolicyName) where
  gather_from-AreEntries :
      (r : ContextReference) (found : Source) (g : Gathered)
      → IsPlaced r.location
      → IsReference r
      → AreEntries g.selected
      → AreEntries (gather_from patterns files maximum_source_bytes policy r found g).selected
  unfolding gather_from select_in
  gather_from-AreEntries r (failure f) g placed good h = h
  gather_from-AreEntries r (document doc) g placed good h =
      elim (Option-cases (coordinate_error files.number doc r.location)) [
        | inr (detail, q) ↦ rw (q, gather_from) h
        | inl q ↦
            rw (q, gather_from)
              (elim (Bool-cases (is_stale r.location.artifact_sha256 doc.artifact_sha256)) [
                | inl p ↦ rw p h
                | inr p ↦ rw p (
                    let (low, before, after) =
                      select-Covers patterns files.number policy doc r.location placed q in
                    add_selection-AreEntries doc _ r g.selected (omega arith) good h)
              ])
      ]

  -- Every range that is gathered is one of the file's lines, for well-formed references.
  pub gather-AreEntries :
      (rs : List ContextReference) (g : Gathered) (reader : Reader S)
      → ((r : ContextReference) → In r rs → IsPlaced r.location × IsReference r)
      → AreEntries g.selected
      → AreEntries (gather patterns files maximum_source_bytes policy rs g reader).0.selected
  unfolding gather
  gather-AreEntries [] g reader h k = k
  gather-AreEntries (r ∷ rs) g reader h k =
      let (placed, good) = h r (inl refl) in
      let (found, later) = read_source files maximum_source_bytes r.location.path reader in
      gather-AreEntries rs _ later (λ q m. h q (inr m))
        (gather_from-AreEntries r found g placed good k)
