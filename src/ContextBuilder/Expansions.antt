-- ===== src/ContextBuilder/Expansions.antt =====
-- The expansions that `_resource_same_file_callees` of src/evitriage/context/builder.py finds.
use evi_triage_ql.Prelude.{
  ℕ, suc, ◌≤◌, ◌≡◌, refl, sym, subst, inl, inr, String, Option, none, some, List, [], ◌∷◌, arith,
  any, ltb, length, take, Bool-cases, Option-cases, In, In-append, zero,
}
use evi_triage_ql.Context.{
  ContextReference, ContextOmission, SourceSlice, validate_path_coordinates,
}
use evi_triage_ql.ContextBuilder.{Text, text_beq, SourceDocument, Selection, JavaPatterns}
use evi_triage_ql.ContextBuilder.Callable.{Callable, enclosing_java_function, line_at}
use evi_triage_ql.ContextBuilder.Strip.{strip_java_comments_and_literals}
use evi_triage_ql.ContextBuilder.Enclosing.{enclosing_java_function-Encloses}
use evi_triage_ql.ContextBuilder.Placed.{IsRange, IsReference}
use evi_triage_ql.ContextBuilder.Callees.{
  definition_at, add_definition, definitions, same_lines, expansion_of, expansions_of, callee_names,
  callee_expansions, bound_expansions, resource_same_file_callees, maximum_callee_slices,
}

abbrev pub IsExpansion : Selection × ContextReference → Type 0
IsExpansion x = IsRange x.0 × IsReference x.1

abbrev pub AreExpansions : List (Selection × ContextReference) → Type 0
AreExpansions xs = (x : Selection × ContextReference) → In x xs → IsExpansion x

abbrev HasLines : Callable → Type 0
HasLines f = (1 ≤ f.start_line) × (f.start_line ≤ f.end_line)

abbrev HaveLines : List Callable → Type 0
HaveLines fs = (f : Callable) → In f fs → HasLines f

take-In : {A : Type 0} (n : ℕ) (a : A) (xs : List A) → In a (take n xs) → In a xs
take-In zero a xs m = absurd m
take-In (suc n) a [] m = m
take-In (suc n) a (x ∷ xs) (inl e) = inl e
take-In (suc n) a (x ∷ xs) (inr m) = inr (take-In n a xs m)

module _ (patterns : JavaPatterns) (number : ℕ → String) (doc : SourceDocument) where
  definition_at-HasLines :
      (name : Text) (offset : ℕ) (f : Callable)
      → definition_at patterns number doc name offset ≡ some f
      → HasLines f
  unfolding definition_at
  definition_at-HasLines name offset f h =
      elim (Option-cases (enclosing_java_function patterns doc.text line)) [
        | inl q ↦ absurd (let k : none ≡ some f = rw (q, definition_at) at h in cc k)
        | inr (g, q) ↦ elim (Bool-cases (text_beq g.symbol name)) [
          | inr p ↦ absurd (let k : none ≡ some f = rw (q, p, definition_at) at h in cc k)
          | inl p ↦
              let e : some g ≡ some f = rw (q, p, definition_at) at h in
              let w = enclosing_java_function-Encloses patterns doc.text line g q in
              let lines : HasLines g = (w.positive, omega (arith, w.starts, w.ends)) in
              let same : g ≡ f = cc e in subst HasLines same lines
        ]
      ]
    where
      line : ℕ
      line = line_at (strip_java_comments_and_literals doc.text) offset

  add_definition-HaveLines :
      (o : Option Callable) (fs : List Callable)
      → ((f : Callable) → o ≡ some f → HasLines f)
      → HaveLines fs
      → HaveLines (add_definition patterns number doc o fs)
  add_definition-HaveLines none fs h k = k
  add_definition-HaveLines (some g) fs h k = elim (Bool-cases (any (same_lines g) fs)) [
    | inl q ↦ rw q k
    | inr q ↦ rw q head
  ]
    where
      head : (f : Callable) → In f (g ∷ fs) → HasLines f
      head f (inl e) = subst HasLines (sym e) (h g refl)
      head f (inr m) = k f m

  definitions-HaveLines :
      (name : Text) (offsets : List ℕ) → HaveLines (definitions patterns number doc name offsets)
  unfolding definitions
  definitions-HaveLines name [] = λ f m. absurd m
  definitions-HaveLines name (offset ∷ offsets) =
      add_definition-HaveLines (definition_at patterns number doc name offset) _
        (definition_at-HasLines name offset) (definitions-HaveLines name offsets)

  expansions_of-AreExpansions :
      (slice : SourceSlice) (fs : List Callable) (calls : List ℕ)
      → HaveLines fs
      → AreExpansions (expansions_of patterns number doc slice fs calls)
  unfolding expansions_of expansion_of validate_path_coordinates
  expansions_of-AreExpansions slice [] calls h x m = absurd m
  expansions_of-AreExpansions slice (f ∷ []) [] h x m = absurd m
  expansions_of-AreExpansions slice (f ∷ g ∷ fs) calls h x m = absurd m
  expansions_of-AreExpansions slice (f ∷ []) (call ∷ calls) h x (inl e) =
      subst IsExpansion (sym e) (h f (inl refl), refl)
  expansions_of-AreExpansions slice (f ∷ []) (call ∷ calls) h x (inr m) = absurd m

  callee_expansions-AreExpansions :
      (slice : SourceSlice) (names : List Text)
      → AreExpansions (callee_expansions patterns number doc slice names).0
  unfolding callee_expansions
  callee_expansions-AreExpansions slice [] x m = absurd m
  callee_expansions-AreExpansions slice (name ∷ names) x m =
      let found = definitions patterns number doc name (patterns.call_offsets name sanitized) in
      elim (Bool-cases (ltb 1 (length found))) [
        | inl q ↦ callee_expansions-AreExpansions slice names x (rw q at m)
        | inr q ↦
            elim (In-append x (expansions_of patterns number doc slice found _) _ (rw q at m)) [
              | inl n ↦
                  expansions_of-AreExpansions slice found _
                    (definitions-HaveLines name (patterns.call_offsets name sanitized)) x n
              | inr n ↦ callee_expansions-AreExpansions slice names x n
            ]
      ]
    where
      sanitized : Text
      sanitized = strip_java_comments_and_literals doc.text

  bound_expansions-AreExpansions :
      (found : List (Selection × ContextReference) × List ContextOmission)
      → AreExpansions found.0
      → AreExpansions (bound_expansions patterns number doc found).0
  unfolding bound_expansions
  bound_expansions-AreExpansions (xs, os) h x m =
      elim (Bool-cases (ltb maximum_callee_slices (length xs))) [
        | inl q ↦ h x (take-In maximum_callee_slices x xs (rw q at m))
        | inr q ↦ h x (rw q at m)
      ]

  -- Every expansion has a range of lines and a well-formed reference.
  pub resource_same_file_callees-AreExpansions :
      (slice : SourceSlice) → AreExpansions (resource_same_file_callees patterns number doc slice).0
  unfolding resource_same_file_callees
  resource_same_file_callees-AreExpansions slice =
      let names = callee_names patterns number doc slice in
      bound_expansions-AreExpansions (callee_expansions patterns number doc slice names)
        (callee_expansions-AreExpansions slice names)
