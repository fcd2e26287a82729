-- ===== src/ContextBuilder/Budget.antt =====
-- The token budget of `_build_alert`, src/evitriage/context/builder.py: what every step that adds a
-- slice keeps.
use evi_triage_ql.Prelude.{
  ℕ, ◌+◌, ◌≤◌, ◌<◌, ◌≡◌, refl, sym, subst, ◌⊎◌, inl, inr, true, String, List, [], ◌∷◌, ◌++◌, arith,
  any, ltb, Bool-cases, Option-cases, In, In-append, In-append_left, In-append_right, any_elim,
  any_intro, lookup, ok, string_eq, nat_eq, ◌==◌, raise_if_intro, unless_intro, unless_ok,
}
use evi_triage_ql.Context.{
  ContextReference, ContextOmission, SourceSlice, is_over_budget, validate_content_identity,
  end_precedes_start, wrong_content_digest, wrong_slice_id,
}
use evi_triage_ql.Resource.{classify_query_family}
use evi_triage_ql.Builder.{is_legacy}
use evi_triage_ql.ContextBuilder.{SourceDocument, Selection, JavaPatterns}
use evi_triage_ql.ContextBuilder.Reading.{Reader, document, failure}
use evi_triage_ql.ContextBuilder.Selecting.{Entry}
use evi_triage_ql.ContextBuilder.Placed.{IsRange, IsReference}
use evi_triage_ql.ContextBuilder.Gathering.{AreEntries}
use evi_triage_ql.ContextBuilder.Build.{
  Rendering, Budgeted, source_slice, range_text, estimate_tokens, add_slice, add_selected,
  begin_budget, is_range_of, add_expansions, expand_slice, expand_slices, expand,
}
use evi_triage_ql.ContextBuilder.Expansions.{
  AreExpansions, resource_same_file_callees-AreExpansions,
}

module _ {Severity : Type 0} (rendering : Rendering Severity) where
  -- A slice that its validators accept.
  pub record IsSlice (slice : SourceSlice) : Type 0 where
    pub identified :
        validate_content_identity rendering.text_digest rendering.slice_id slice ≡ ok tt
    pub referred : (r : ContextReference) → In r slice.references → IsReference r

  -- The estimate is within the budget, or the metadata alone exceeds it and nothing was added.
  abbrev pub Fits : ℕ → ℕ → Budgeted → Type 0
  Fits budget metadata b =
      (b.token_estimate ≤ budget)
      ⊎ ((budget < metadata)
          × (b.token_estimate ≡ metadata)
          × (b.slices ≡ [])
          × (any is_over_budget b.omissions ≡ true))

  pub record IsBudgeted (budget metadata : ℕ) (b : Budgeted) : Type 0 where
    pub fits : Fits budget metadata b
    pub slices : (slice : SourceSlice) → In slice b.slices → IsSlice slice

  source_slice-IsSlice :
      (doc : SourceDocument) (s : Selection) (content : String) (rs : List ContextReference)
      → IsRange s
      → ((r : ContextReference) → In r rs → IsReference r)
      → IsSlice (source_slice rendering doc s content rs)
  unfolding source_slice validate_content_identity
  source_slice-IsSlice doc s content rs range good = record {
    identified =
        raise_if_intro (ltb s.end_line s.start_line) end_precedes_start _ tt (ground arith) (
          unless_intro (digest == digest) wrong_content_digest _ tt
            ((nat_eq.beq_iff digest digest).1 refl)
            (unless_ok (id == id) wrong_slice_id ((string_eq.beq_iff id id).1 refl)));
    referred = good;
  }
    where
      digest : ℕ
      digest = rendering.text_digest content

      id : String
      id = (source_slice rendering doc s content rs).slice_id

any-append_left :
    (xs ys : List ContextOmission)
    → any is_over_budget xs ≡ true
    → any is_over_budget (xs ++ ys) ≡ true
any-append_left xs ys h =
    let (o, m, q) = any_elim is_over_budget xs h in
    any_intro is_over_budget o (xs ++ ys) (In-append_left o xs ys m) q

module _ {Severity : Type 0} (rendering : Rendering Severity) (patterns : JavaPatterns)
    (number : ℕ → String) (budget metadata : ℕ) where
  abbrev Good : Budgeted → Type 0
  Good = IsBudgeted rendering budget metadata

  omit-Good :
      (b : Budgeted) (os : List ContextOmission)
      → Good b
      → Good (record b { omissions = b.omissions ++ os })
  omit-Good b os h = record {
    fits = elim h.fits [
      | inl p ↦ inl p
      | inr (over, same, empty, told) ↦ inr (over, same, empty, any-append_left b.omissions os told)
    ];
    slices = h.slices;
  }

  add_slice-Good :
      (detail : String) (doc : SourceDocument) (s : Selection) (rs : List ContextReference)
      (b : Budgeted)
      → IsRange s
      → ((r : ContextReference) → In r rs → IsReference r)
      → Good b
      → Good (add_slice rendering patterns number budget detail doc s rs b)
  unfolding add_slice
  add_slice-Good detail doc s rs b range good h =
      elim (Bool-cases (ltb budget (b.token_estimate + cost))) [
        | inl q ↦ rw q (omit-Good b _ h)
        | inr q ↦ rw q (record {
          fits = inl (ground arith);
          slices = λ slice m. either slice (In-append slice b.slices _ m);
        })
      ]
    where
      cost : ℕ
      cost = estimate_tokens (range_text doc.lines s.start_line s.end_line)

      either :
          (slice : SourceSlice)
          → In slice b.slices
            ⊎ In slice (
                source_slice rendering doc s
                  (patterns.text_of (range_text doc.lines s.start_line s.end_line))
                  rs
                ∷ [])
          → IsSlice rendering slice
      either slice (inl m) = h.slices slice m
      either slice (inr (inl e)) =
          subst (IsSlice rendering) (sym e) (source_slice-IsSlice rendering doc s _ rs range good)
      either slice (inr (inr m)) = absurd m

  pub add_selected-Good :
      (es : List Entry) (b : Budgeted)
      → AreEntries es
      → Good b
      → Good (add_selected rendering patterns number budget es b)
  unfolding add_selected
  add_selected-Good [] b es h = h
  add_selected-Good (e ∷ rest) b es h =
      let first = es e (inl refl) in
      add_selected-Good rest _ (λ x m. es x (inr m))
        (add_slice-Good _ e.document e.selection e.references b first.range first.referred h)

  pub begin_budget-Good :
      (path : String) (os : List ContextOmission)
      → Good (begin_budget rendering patterns number budget path metadata os)
  unfolding begin_budget
  begin_budget-Good path os = elim (Bool-cases (ltb budget metadata)) [
    | inr q ↦ rw q (record { fits = inl (ground arith); slices = λ slice m. absurd m })
    | inl q ↦ rw q (record {
      fits = inr (
        ground arith,
        refl,
        refl,
        any_intro is_over_budget _ _ (In-append_right _ os _ (inl refl)) refl,
      );
      slices = λ slice m. absurd m;
    })
  ]

  add_expansions-Good :
      (doc : SourceDocument) (xs : List (Selection × ContextReference)) (b : Budgeted)
      → AreExpansions xs
      → Good b
      → Good (add_expansions rendering patterns number budget doc xs b)
  unfolding add_expansions
  add_expansions-Good doc [] b es h = h
  add_expansions-Good doc ((s, r) ∷ xs) b es h =
      let (range, good) = es (s, r) (inl refl) in
      add_expansions-Good doc xs _ (λ x m. es x (inr m))
        (elim (Bool-cases (any (is_range_of rendering patterns number budget doc s) b.slices)) [
          | inl q ↦ rw q h
          | inr q ↦ rw q (add_slice-Good _ doc s (r ∷ []) b range (only r good) h)
        ])
    where
      only :
          (r : ContextReference)
          → IsReference r
          → (q : ContextReference) → In q (r ∷ [])
          → IsReference q
      only r good q (inl e) = subst IsReference (sym e) good
      only r good q (inr m) = absurd m

  module _ {S : Type 0} (reader : Reader S) where
    expand_slice-Good :
        (slice : SourceSlice) (b : Budgeted)
        → Good b
        → Good (expand_slice rendering patterns number budget reader slice b)
    unfolding expand_slice
    expand_slice-Good slice b h = elim (Option-cases (lookup slice.path reader.cache)) [
      | inl q ↦ rw (q, expand_slice) h
      | inr (failure f, q) ↦ rw (q, expand_slice) h
      | inr (document doc, q) ↦
          rw (q, expand_slice)
            (add_expansions-Good doc _ _
              (resource_same_file_callees-AreExpansions patterns number doc slice)
              (omit-Good b _ h))
    ]

    expand_slices-Good :
        (slices : List SourceSlice) (b : Budgeted)
        → Good b
        → Good (expand_slices rendering patterns number budget reader slices b)
    unfolding expand_slices
    expand_slices-Good [] b h = h
    expand_slices-Good (slice ∷ slices) b h =
        expand_slices-Good slices _ (expand_slice-Good slice b h)

    pub expand-Good :
        (rule_id : String) (b : Budgeted)
        → Good b
        → Good (expand rendering patterns number budget reader rule_id b)
    unfolding expand
    expand-Good rule_id b h = elim (Bool-cases (is_legacy (classify_query_family rule_id))) [
      | inl q ↦ rw (q, expand) h
      | inr q ↦ rw (q, expand) (expand_slices-Good b.slices b h)
    ]
