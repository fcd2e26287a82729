-- ===== src/ContextBuilder/Build.antt =====
-- `ContextBuilder.build` and the rest of `_build_alert`, src/evitriage/context/builder.py: the token
-- budget, the expansions of a resource alert, and the artifact.
use evi_triage_ql.Prelude.{
  ℕ, ◌+◌, ◌-◌, ◌/◌, String, Bool, true, false, ◌&&◌, Option, none, some, List, [], ◌∷◌, ◌++◌, any,
  ltb, ◌==◌, nat_eq, string_eq, if◌then◌else◌, is_empty, take, drop, lookup, Result, ok, err,
}
use evi_triage_ql.Evidence.{Sha256}
use evi_triage_ql.Alerts.{NormalizedAlert, AlertBundle, Completeness}
use evi_triage_ql.Context.{
  ContextPolicyName, ContextOmissionCode, ContextReference, ContextOmission, token_budget_exceeded,
  SliceIdentity, SourceSlice, LevelZeroContext, SliceContent, SliceArtifact,
}
use evi_triage_ql.Resource.{classify_query_family}
use evi_triage_ql.Builder.{is_legacy}
use evi_triage_ql.ContextBuilder.{Text, SourceDocument, Selection, JavaPatterns}
use evi_triage_ql.ContextBuilder.Detail as Detail
use evi_triage_ql.ContextBuilder.Reading.{document, failure, Files, Reader}
use evi_triage_ql.ContextBuilder.Selecting.{
  alert_references, Entry, Gathered, gather, PolicyError, resolve_policy,
}
use evi_triage_ql.ContextBuilder.Callees.{resource_same_file_callees, lexical_candidates}

-- What JSON and SHA-256 compute of the records.
pub record Rendering (Severity : Type 0) : Type 0 where
  pub level_zero_text : LevelZeroContext Severity → Text
  pub text_digest : String → Sha256
  pub slice_id : SliceIdentity → String
  pub content_digest : SliceContent Severity → Sha256

-- `len(content.encode("utf-8"))`
unfoldable pub utf8_length : Text → ℕ
utf8_length [] = 0
utf8_length (c ∷ text) =
    utf8_length text
    + (if ltb c 0x80 then 1 else if ltb c 0x800 then 2 else if ltb c 0x10000 then 3 else 4)

-- `_estimate_tokens`
unfoldable pub estimate_tokens : Text → ℕ
unfolding utf8_length
estimate_tokens content =
    if is_empty content
    then 0
    else let quarter = (utf8_length content + 3) / 4 in if ltb 1 quarter then quarter else 1

abbrev concat : List Text → Text
concat [] = []
concat (line ∷ lines) = line ++ concat lines

-- `"".join(lines[start - 1:end])`
unfoldable pub range_text : List Text → ℕ → ℕ → Text
range_text lines start_line end_line = concat (drop (start_line - 1) (take end_line lines))

-- Equality of omissions; `codes_agree` compares the constructors.
abbrev pub code_number : ContextOmissionCode → ℕ
code_number ContextOmissionCode.source_file_missing = 0
code_number ContextOmissionCode.resource_context_bound = 1
code_number ContextOmissionCode.source_not_regular = 2
code_number ContextOmissionCode.source_too_large = 3
code_number ContextOmissionCode.binary_source = 4
code_number ContextOmissionCode.unsupported_encoding = 5
code_number ContextOmissionCode.coordinate_out_of_bounds = 6
code_number ContextOmissionCode.source_digest_mismatch = 7
code_number ContextOmissionCode.function_boundary_unresolved = 8
code_number ContextOmissionCode.token_budget_exceeded = 9

abbrev pub same_omission : ContextOmission → ContextOmission → Bool
same_omission o p =
    (code_number o.code == code_number p.code) && ((o.path == p.path) && (o.detail == p.detail))

-- The loop of `_deduplicate_omissions`, with the result so far.
unfoldable pub keep_omissions : List ContextOmission → List ContextOmission → List ContextOmission
unfolding any
keep_omissions result [] = result
keep_omissions result (o ∷ omissions) =
    keep_omissions (if any (same_omission o) result then result else result ++ o ∷ []) omissions

-- `_deduplicate_omissions`
unfoldable pub deduplicate_omissions : List ContextOmission → List ContextOmission
unfolding keep_omissions
deduplicate_omissions omissions = keep_omissions [] omissions

-- `omissions`, `source_slices` and `token_estimate`
pub record Budgeted : Type 0 where
  pub omissions : List ContextOmission
  pub slices : List SourceSlice
  pub token_estimate : ℕ

module _ {Severity : Type 0} (rendering : Rendering Severity) where
  -- `_source_slice`
  unfoldable pub source_slice :
      SourceDocument → Selection → String → List ContextReference → SourceSlice
  source_slice doc selection content references =
      let identity : SliceIdentity = record {
        artifact_sha256 = doc.artifact_sha256;
        content_sha256 = rendering.text_digest content;
        end_line = selection.end_line;
        path = doc.path;
        selection = selection.selection;
        start_line = selection.start_line;
      } in
      record {
        slice_id = rendering.slice_id identity;
        identity = identity;
        content = content;
        enclosing_symbol = selection.enclosing_symbol;
        references = references;
      }

  module _ (patterns : JavaPatterns) (number : ℕ → String) (budget : ℕ) where
    -- A slice of a range, unless it exceeds the budget.
    unfoldable pub add_slice :
        String → SourceDocument → Selection → List ContextReference → Budgeted → Budgeted
    unfolding range_text estimate_tokens source_slice
    add_slice detail doc selection references b =
        let content = range_text doc.lines selection.start_line selection.end_line in
        if ltb budget (b.token_estimate + estimate_tokens content)
        then record b {
          omissions =
              b.omissions
              ++ record { code = token_budget_exceeded; path = doc.path; detail = detail } ∷ [];
        }
        else record b {
          slices =
              b.slices ++ source_slice doc selection (patterns.text_of content) references ∷ [];
          token_estimate = b.token_estimate + estimate_tokens content;
        }

    -- The detail of a range that is left out.
    abbrev pub range_detail : Entry → Budgeted → String
    range_detail entry b =
        let selection = entry.selection in
        Detail.slice_omitted number selection.start_line selection.end_line
          (estimate_tokens
            (range_text entry.document.lines selection.start_line selection.end_line))
          (budget - b.token_estimate)

    -- The loop over the selected ranges.
    unfoldable pub add_selected : List Entry → Budgeted → Budgeted
    unfolding add_slice range_text estimate_tokens
    add_selected [] b = b
    add_selected (entry ∷ entries) b =
        add_selected entries
          (add_slice (range_detail entry b) entry.document entry.selection entry.references b)

    -- The metadata, which is counted first.
    unfoldable pub begin_budget : String → ℕ → List ContextOmission → Budgeted
    begin_budget path estimate omissions =
        if ltb budget estimate
        then record {
          omissions =
              omissions
              ++ record {
                code = token_budget_exceeded;
                path = path;
                detail = Detail.metadata_exceeds number estimate budget;
              }
                ∷ [];
          slices = [];
          token_estimate = estimate;
        }
        else record { omissions = omissions; slices = []; token_estimate = estimate }

    abbrev symbol_text : Option String → String
    symbol_text none = "None"
    symbol_text (some symbol) = symbol

    -- The range is that of a slice.
    abbrev pub is_range_of : SourceDocument → Selection → SourceSlice → Bool
    is_range_of doc selection slice =
        (slice.path == doc.path)
        && ((slice.start_line == selection.start_line) && (slice.end_line == selection.end_line))

    -- The expansions of one slice; `existing_ranges` are those of the slices.
    unfoldable pub add_expansions :
        SourceDocument → List (Selection × ContextReference) → Budgeted → Budgeted
    unfolding add_slice any
    add_expansions doc [] b = b
    add_expansions doc ((selection, reference) ∷ expansions) b = add_expansions doc expansions (
        if any (is_range_of doc selection) b.slices
        then b
        else add_slice (Detail.callee_omitted (symbol_text selection.enclosing_symbol)) doc
            selection (reference ∷ []) b)

    -- One slice, if its document is in the cache.
    unfoldable pub expand_slice : {S : Type 0} → Reader S → SourceSlice → Budgeted → Budgeted
    unfolding lookup add_expansions resource_same_file_callees
    expand_slice reader slice b = elim (lookup slice.path reader.cache) [
      | none ↦ b
      | some (failure f) ↦ b
      | some (document doc) ↦
          let (expansions, omissions) = resource_same_file_callees patterns number doc slice in
          add_expansions doc expansions (record b { omissions = b.omissions ++ omissions })
    ]

    -- The loop over the slices that there were before it.
    unfoldable pub expand_slices : {S : Type 0} → Reader S → List SourceSlice → Budgeted → Budgeted
    unfolding expand_slice
    expand_slices reader [] b = b
    expand_slices reader (slice ∷ slices) b =
        expand_slices reader slices (expand_slice reader slice b)

    -- The expansions, of an alert of a resource family.
    unfoldable pub expand : {S : Type 0} → Reader S → String → Budgeted → Budgeted
    unfolding expand_slices
    expand reader rule_id b = elim (is_legacy (classify_query_family rule_id)) [
      | true ↦ b
      | false ↦ expand_slices reader b.slices b
    ]

abbrev pub level_zero_of :
    {Severity Json : Type 0} → NormalizedAlert Severity Json → LevelZeroContext Severity
level_zero_of alert = record {
  rule = alert.rule;
  message = alert.message;
  primary_location = alert.primary_location;
  additional_locations = alert.additional_locations;
  related_locations = alert.related_locations;
  paths = alert.paths;
}

module _ {S Severity Json : Type 0} (rendering : Rendering Severity) (patterns : JavaPatterns)
    (files : Files S) (budget maximum_source_bytes : ℕ) (policy : ContextPolicyName) where
  -- What the budget leaves, of what was gathered.
  unfoldable pub budgeted : NormalizedAlert Severity Json → Gathered → Reader S → Budgeted
  unfolding begin_budget estimate_tokens add_selected expand
  budgeted alert gathered reader =
      expand rendering patterns files.number budget reader alert.rule.rule_id (
        add_selected rendering patterns files.number budget gathered.selected (
          begin_budget rendering patterns files.number budget alert.primary_location.path
            (estimate_tokens (rendering.level_zero_text (level_zero_of alert))) gathered.omissions))

  unfoldable pub content_of : NormalizedAlert Severity Json → Budgeted → SliceContent Severity
  unfolding lexical_candidates deduplicate_omissions
  content_of alert b =
      let (guards, sanitizers) = lexical_candidates patterns b.slices in
      record {
        alert_fingerprint = alert.alert_fingerprint;
        raw_result_reference = alert.raw_result_reference;
        context_policy = policy;
        level_zero = level_zero_of alert;
        source_slices = b.slices;
        guards = guards;
        candidate_sanitizers = sanitizers;
        token_estimate = b.token_estimate;
        maximum_token_budget = budget;
        completeness = if is_empty b.omissions then Completeness.complete else Completeness.partial;
        omitted = deduplicate_omissions b.omissions;
      }

  -- `_build_alert`
  unfoldable pub build_alert :
      NormalizedAlert Severity Json → Reader S → SliceArtifact Severity × Reader S
  unfolding gather alert_references budgeted content_of
  build_alert alert reader =
      let (gathered, later) =
        gather patterns files maximum_source_bytes policy (alert_references alert)
          (record { omissions = []; selected = [] }) reader in
      let content = content_of alert (budgeted alert gathered later) in
      (record { slice_sha256 = rendering.content_digest content; content = content }, later)

  -- The loop of `build`.
  unfoldable pub build_alerts :
      List (NormalizedAlert Severity Json) → Reader S → List (SliceArtifact Severity) × Reader S
  unfolding build_alert
  build_alerts [] reader = ([], reader)
  build_alerts (alert ∷ alerts) reader =
      let (artifact, next) = build_alert alert reader in
      let (artifacts, later) = build_alerts alerts next in (artifact ∷ artifacts, later)

module _ {S Severity Json : Type 0} (rendering : Rendering Severity) (patterns : JavaPatterns)
    (files : Files S) (budget maximum_source_bytes : ℕ) where
  -- `ContextBuilder.build`, from the state of the operating system.
  unfoldable pub build :
      AlertBundle Severity Json
      → String
      → Reader S
      → Result PolicyError (List (SliceArtifact Severity) × Reader S)
  unfolding resolve_policy build_alerts
  build bundle policy_name reader = elim (resolve_policy policy_name) [
    | err e ↦ err e
    | ok policy ↦ ok (
        build_alerts rendering patterns files budget maximum_source_bytes policy bundle.alerts
          reader)
  ]
