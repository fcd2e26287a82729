-- ===== src/ContextBuilder/Accepted.antt =====
-- The artifacts that `ContextBuilder._build_alert` of src/evitriage/context/builder.py makes, and the
-- validators of src/evitriage/domain/context.py that they pass.
use evi_triage_ql.Prelude.{
  ℕ, ◌≤◌, ◌<◌, ◌≡◌, refl, sym, ap, ◌∙◌, inl, inr, Bool, true, false, not, ◌&&◌, ◌||◌, ◌⊎◌, List, [],
  ◌∷◌, ◌++◌, arith, any, ltb, is_empty, Bool-cases, In, In-append_left, In-append_right, any_elim,
  any_intro, if◌then◌else◌, ok, raise_if_intro, raise_if_ok, unless_ok, ◌==◌, nat_eq, string_eq,
}
use evi_triage_ql.Alerts.{NormalizedAlert, Completeness, differ}
use evi_triage_ql.Context.{
  ContextPolicyName, ContextReference, ContextOmission, ContextOmissionCode, SourceSlice,
  SliceArtifact, is_over_budget, is_partial, validate_completeness, validate_slice_digest,
  wrong_completeness, no_budget_omission, wrong_slice_digest,
}
use evi_triage_ql.ContextBuilder.{JavaPatterns}
use evi_triage_ql.ContextBuilder.Reading.{Files, Reader}
use evi_triage_ql.ContextBuilder.Selecting.{alert_references, gather}
use evi_triage_ql.ContextBuilder.Placed.{IsPlaced, alert_references-IsReference}
use evi_triage_ql.ContextBuilder.Gathering.{AreEntries, gather-AreEntries}
use evi_triage_ql.ContextBuilder.Build.{
  Rendering, Budgeted, estimate_tokens, level_zero_of, same_omission, keep_omissions, code_number,
  deduplicate_omissions, budgeted, content_of, build_alert,
}
use evi_triage_ql.ContextBuilder.Budget.{
  IsSlice, IsBudgeted, add_selected-Good, begin_budget-Good, expand-Good,
}

keep_omissions-full :
    (result os : List ContextOmission)
    → is_empty result ≡ false
    → is_empty (keep_omissions result os) ≡ false
unfolding keep_omissions
keep_omissions-full result [] h = h
keep_omissions-full result (o ∷ os) h = elim (Bool-cases (any (same_omission o) result)) [
  | inl q ↦ rw q (keep_omissions-full result os h)
  | inr q ↦ rw q (keep_omissions-full (result ++ o ∷ []) os (snoc result))
]
  where
    snoc : (xs : List ContextOmission) → is_empty (xs ++ o ∷ []) ≡ false
    snoc [] = refl
    snoc (x ∷ xs) = refl

deduplicate-is_empty :
    (os : List ContextOmission) → is_empty (deduplicate_omissions os) ≡ is_empty os
unfolding deduplicate_omissions keep_omissions any
deduplicate-is_empty [] = refl
deduplicate-is_empty (o ∷ os) = keep_omissions-full (o ∷ []) os refl

abbrev is_budget_code : ContextOmissionCode → Bool
is_budget_code c = elim c [ ContextOmissionCode.token_budget_exceeded ↦ true | _ ↦ false ]

is_budget_code_lem : (c : ContextOmissionCode) → is_budget_code c ≡ (code_number c == 9)
is_budget_code_lem ContextOmissionCode.source_file_missing = refl
is_budget_code_lem ContextOmissionCode.resource_context_bound = refl
is_budget_code_lem ContextOmissionCode.source_not_regular = refl
is_budget_code_lem ContextOmissionCode.source_too_large = refl
is_budget_code_lem ContextOmissionCode.binary_source = refl
is_budget_code_lem ContextOmissionCode.unsupported_encoding = refl
is_budget_code_lem ContextOmissionCode.coordinate_out_of_bounds = refl
is_budget_code_lem ContextOmissionCode.source_digest_mismatch = refl
is_budget_code_lem ContextOmissionCode.function_boundary_unresolved = refl
is_budget_code_lem ContextOmissionCode.token_budget_exceeded = refl

same_omission-is_over_budget :
    (o p : ContextOmission)
    → same_omission o p ≡ true
    → is_over_budget o ≡ true
    → is_over_budget p ≡ true
same_omission-is_over_budget o p h k =
    let e : code_number o.code ≡ code_number p.code = ground arith in
    is_budget_code_lem p.code
    ∙ (ap (λ (n : ℕ). n == 9) (sym e) ∙ (sym (is_budget_code_lem o.code) ∙ k))

-- An omission for the budget stays when the omissions are made unique.
keep_omissions-over :
    (result os : List ContextOmission)
    → (any is_over_budget result ≡ true) ⊎ (any is_over_budget os ≡ true)
    → any is_over_budget (keep_omissions result os) ≡ true
unfolding keep_omissions any
keep_omissions-over result [] (inl h) = h
keep_omissions-over result [] (inr h) = absurd (cc h)
keep_omissions-over result (o ∷ os) h = elim (Bool-cases (any (same_omission o) result)) [
  | inl q ↦ rw q (keep_omissions-over result os (kept q h))
  | inr q ↦ rw q (keep_omissions-over (result ++ o ∷ []) os (added h))
]
  where
    kept :
        any (same_omission o) result ≡ true
        → (any is_over_budget result ≡ true) ⊎ (is_over_budget o || any is_over_budget os ≡ true)
        → (any is_over_budget result ≡ true) ⊎ (any is_over_budget os ≡ true)
    kept q (inl a) = inl a
    kept q (inr b) = elim (Bool-cases (is_over_budget o)) [
      | inr n ↦ inr (rw n at b)
      | inl y ↦
          let (p, m, s) = any_elim (same_omission o) result q in
          inl (any_intro is_over_budget p result m (same_omission-is_over_budget o p s y))
    ]

    added :
        (any is_over_budget result ≡ true) ⊎ (is_over_budget o || any is_over_budget os ≡ true)
        → (any is_over_budget (result ++ o ∷ []) ≡ true) ⊎ (any is_over_budget os ≡ true)
    added (inl a) =
        let (p, m, s) = any_elim is_over_budget result a in
        inl (any_intro is_over_budget p _ (In-append_left p result (o ∷ []) m) s)
    added (inr b) = elim (Bool-cases (is_over_budget o)) [
      | inr n ↦ inr (rw n at b)
      | inl y ↦ inl (any_intro is_over_budget o _ (In-append_right o result (o ∷ []) (inl refl)) y)
    ]

abbrev completeness_of : Bool → Completeness
completeness_of e = if e then Completeness.complete else Completeness.partial

completeness_agrees : (e : Bool) → differ (is_partial (completeness_of e)) (not e) ≡ false
completeness_agrees true = refl
completeness_agrees false = refl

-- An artifact whose validators, and those of its slices and references, raise nothing.
pub record IsAccepted {Severity : Type 0} (rendering : Rendering Severity)
    (artifact : SliceArtifact Severity) : Type 0 where
  pub digested : validate_slice_digest rendering.content_digest artifact ≡ ok tt
  pub complete : validate_completeness artifact.content ≡ ok tt
  pub slices :
      (slice : SourceSlice) → In slice artifact.content.source_slices → IsSlice rendering slice

module _ {S Severity Json : Type 0} (rendering : Rendering Severity) (patterns : JavaPatterns)
    (files : Files S) (budget maximum_source_bytes : ℕ) (policy : ContextPolicyName) where
  -- The tokens of the metadata.
  abbrev pub metadata : NormalizedAlert Severity Json → ℕ
  metadata alert = estimate_tokens (rendering.level_zero_text (level_zero_of alert))

  abbrev Placed : NormalizedAlert Severity Json → Type 0
  Placed alert = (r : ContextReference) → In r (alert_references alert) → IsPlaced r.location

  budgeted-IsBudgeted :
      (alert : NormalizedAlert Severity Json) (reader : Reader S)
      → Placed alert
      → let (gathered, later) =
          gather patterns files maximum_source_bytes policy
            (alert_references alert)
            (record { omissions = []; selected = [] })
            reader in
        IsBudgeted rendering budget (metadata alert) (
          budgeted rendering patterns files budget maximum_source_bytes policy alert gathered later)
  unfolding budgeted
  budgeted-IsBudgeted alert reader placed =
      let (gathered, later) =
        gather patterns files maximum_source_bytes policy (alert_references alert)
          (record { omissions = []; selected = [] }) reader in
      let entries : AreEntries gathered.selected =
        gather-AreEntries patterns files maximum_source_bytes policy (alert_references alert) _
          reader (λ r m. (placed r m, alert_references-IsReference alert r m)) (λ e m. absurd m) in
      expand-Good rendering patterns files.number budget (metadata alert) later alert.rule.rule_id _
        (add_selected-Good rendering patterns files.number budget (metadata alert) gathered.selected
          _ entries
          (begin_budget-Good rendering patterns files.number budget (metadata alert)
            alert.primary_location.path gathered.omissions))

  content_of-accepted :
      (alert : NormalizedAlert Severity Json) (b : Budgeted)
      → IsBudgeted rendering budget (metadata alert) b
      → validate_completeness
          (content_of rendering patterns files budget maximum_source_bytes policy alert b)
        ≡ ok tt
  unfolding validate_completeness content_of deduplicate_omissions
  content_of-accepted alert b h =
      let kept = deduplicate_omissions b.omissions in
      raise_if_intro
        (differ (is_partial (completeness_of (is_empty b.omissions))) (not (is_empty kept)))
        wrong_completeness _ tt
        (ap (λ z. differ (is_partial (completeness_of (is_empty b.omissions))) (not z))
            (deduplicate-is_empty b.omissions)
          ∙ completeness_agrees (is_empty b.omissions))
        (raise_if_ok (ltb budget b.token_estimate && not (any is_over_budget kept))
          no_budget_omission
          (elim h.fits [
            | inl p ↦ ground arith
            | inr (over, same, empty, told) ↦
                ground (arith, keep_omissions-over [] b.omissions (inr told))
          ]))

-- For an alert whose locations are ordered regions of positive lines, whatever the files say, the
-- artifact that is built passes the validators of its digest, of its completeness and its budget, and
-- of each of its slices and their references.
pub build_alert-IsAccepted :
    {S Severity Json : Type 0} (rendering : Rendering Severity) (patterns : JavaPatterns)
    (files : Files S) (budget maximum_source_bytes : ℕ) (policy : ContextPolicyName)
    (alert : NormalizedAlert Severity Json) (reader : Reader S)
    → ((r : ContextReference) → In r (alert_references alert) → IsPlaced r.location)
    → IsAccepted rendering
        (build_alert rendering patterns files budget maximum_source_bytes policy alert reader).0
unfolding build_alert validate_slice_digest
build_alert-IsAccepted rendering patterns files budget maximum_source_bytes policy alert reader
      placed =
    let h =
      budgeted-IsBudgeted rendering patterns files budget maximum_source_bytes policy alert reader
        placed in
    record {
      digested = unless_ok _ wrong_slice_digest ((nat_eq.beq_iff _ _).1 refl);
      complete =
          content_of-accepted rendering patterns files budget maximum_source_bytes policy alert _ h;
      slices = kept _ h;
    }
  where
    kept :
        (b : Budgeted)
        → IsBudgeted rendering budget
            (metadata rendering patterns files budget maximum_source_bytes policy alert)
            b
        → (slice : SourceSlice) → In slice b.slices
        → IsSlice rendering slice
    kept b h = h.slices

-- For such an alert the tokens of the artifact are estimated within the budget, or the metadata alone
-- exceeds the budget, and then the artifact has no slice.
pub build_alert-Fits :
    {S Severity Json : Type 0} (rendering : Rendering Severity) (patterns : JavaPatterns)
    (files : Files S) (budget maximum_source_bytes : ℕ) (policy : ContextPolicyName)
    (alert : NormalizedAlert Severity Json) (reader : Reader S)
    → ((r : ContextReference) → In r (alert_references alert) → IsPlaced r.location)
    → let content =
        (build_alert rendering patterns files budget maximum_source_bytes policy alert
          reader).0.content in
      (content.token_estimate ≤ budget)
      ⊎ ((budget < estimate_tokens (rendering.level_zero_text (level_zero_of alert)))
          × (content.token_estimate
              ≡ estimate_tokens (rendering.level_zero_text (level_zero_of alert)))
          × (content.source_slices ≡ []))
unfolding build_alert content_of
build_alert-Fits rendering patterns files budget maximum_source_bytes policy alert reader placed =
    let h =
      budgeted-IsBudgeted rendering patterns files budget maximum_source_bytes policy alert reader
        placed in
    elim h.fits [ inl p ↦ inl p | inr (over, same, empty, told) ↦ inr (over, same, empty) ]
