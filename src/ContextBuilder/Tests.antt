-- ===== src/ContextBuilder/Tests.antt =====
-- Runs of src/evitriage/context/builder.py on a small Java file.
use evi_triage_ql.Prelude.{
  ℕ, suc, ◌≤◌, ◌<◌, ◌≡◌, ◌⊎◌, inl, inr, refl, sym, subst, ◌+◌, lookup, string_eq, arith, String,
  true, false, ◌||◌, if◌then◌else◌, nat_eq, ◌==◌, [], ◌∷◌, some, none, In, length,
}
use evi_triage_ql.Evidence.{SourceLocation, ColumnKind}
use evi_triage_ql.Alerts.{NormalizedAlert, validate_region_order, check_region}
use evi_triage_ql.Context.{
  ContextPolicyName, ContextReference, SliceIdentity, LevelZeroContext, SliceContent,
}
use evi_triage_ql.ContextBuilder.{Text, codes, JavaPatterns, contains_text, SourceDocument}
use evi_triage_ql.ContextBuilder.Strip.{strip_java_comments_and_literals}
use evi_triage_ql.ContextBuilder.Blank.{Over, strip-Over}
use evi_triage_ql.ContextBuilder.Lines.{line_number, newlines_before, line_number-strip}
use evi_triage_ql.ContextBuilder.Callable.{Callable, enclosing_java_function}
use evi_triage_ql.ContextBuilder.Enclosing.{Encloses, enclosing_java_function-Encloses}
use evi_triage_ql.ContextBuilder.Reading.{lines_of, Opened, opened, Files, Reader}
use evi_triage_ql.ContextBuilder.Selecting.{alert_references, select, coordinate_error, gather}
use evi_triage_ql.ContextBuilder.Placed.{IsPlaced, Covers, select-Covers}
use evi_triage_ql.ContextBuilder.Build.{Rendering, estimate_tokens, level_zero_of, build_alert}
use evi_triage_ql.ContextBuilder.Accepted.{IsAccepted, build_alert-IsAccepted, build_alert-Fits}
use evi_triage_ql.ContextBuilder.Cache.{Agrees, gather_fresh, gather-refines}

abbrev java : Text
java = codes "class A {\n  void f(int x) {\n    g(x); // }\n  }\n}\n"

-- The comment is gone, and its newline is not.
strip_comment : strip_java_comments_and_literals (codes "g(x); // }\n  }") ≡ codes "g(x);     \n  }"
unfolding strip_java_comments_and_literals
strip_comment = refl

-- A quote in a string, and a brace in a text block.
strip_literals :
    strip_java_comments_and_literals (codes "s = \"\\\"{\" + c;") ≡ codes "s =       + c;"
unfolding strip_java_comments_and_literals
strip_literals = refl

strip-Over_example :
    Over (strip_java_comments_and_literals java) java
    × (length (strip_java_comments_and_literals java) ≡ length java)
strip-Over_example = strip-Over java

line_number-strip_example :
    line_number (strip_java_comments_and_literals java) 40 ≡ some (suc (newlines_before 40 java))
line_number-strip_example = line_number-strip java 40

third_line : newlines_before 40 java ≡ 2
unfolding newlines_before
third_line = refl

-- Patterns that know the names of this file.
abbrev patterns : JavaPatterns
patterns = record {
  is_space = λ c. (c == 32) || (c == 10);
  is_control_header = λ header. false;
  header_names = λ header. if contains_text (codes "f(") header then codes "f" ∷ [] else [];
  is_type_header = λ header. contains_text (codes "class") header;
  call_names = λ text. [];
  call_offsets = λ name text. [];
  has_guard = λ line. false;
  has_sanitizer = λ line. false;
  text_of = λ text. "text";
}

abbrev method : Callable
method = record { start_line = 2; end_line = 4; symbol = codes "f" }

around_third : enclosing_java_function patterns java 3 ≡ some method
unfolding enclosing_java_function contains_text strip_java_comments_and_literals
around_third = refl

enclosing_java_function-Encloses_example : Encloses java 3 method
enclosing_java_function-Encloses_example =
    enclosing_java_function-Encloses patterns java 3 method around_third

-- A form feed ends a line of the document, and the line numbers of the callables do not count it.
form_feed :
    lines_of (97 ∷ 12 ∷ 98 ∷ 10 ∷ 99 ∷ []) ≡ (97 ∷ 12 ∷ []) ∷ (98 ∷ 10 ∷ []) ∷ (99 ∷ []) ∷ []
unfolding lines_of
form_feed = refl

form_feed_not_counted : line_number (97 ∷ 12 ∷ 98 ∷ 10 ∷ 99 ∷ []) 4 ≡ some 2
unfolding line_number
form_feed_not_counted = refl

abbrev call_site : SourceLocation
call_site = record {
  path = "src/A.java";
  column_kind = ColumnKind.unicode_code_points;
  start_line = 3;
  start_column = 5;
  end_line = none;
  end_column = none;
  artifact_sha256 = none;
  snippet = none;
}

abbrev doc : SourceDocument
doc = record { path = "src/A.java"; text = java; lines = lines_of java; artifact_sha256 = 5 }

call_site-IsPlaced : IsPlaced call_site
unfolding validate_region_order check_region
call_site-IsPlaced = (omega arith, refl)

call_site_within : coordinate_error (λ n. "n") doc call_site ≡ none
unfolding coordinate_error lines_of
call_site_within = refl

select-Covers_example :
    Covers
      (select patterns (λ n. "n") ContextPolicyName.path_function_slice doc call_site)
      call_site
select-Covers_example =
    select-Covers patterns (λ n. "n") ContextPolicyName.path_function_slice doc call_site
      call_site-IsPlaced call_site_within

abbrev alert : NormalizedAlert ℕ ℕ
alert = record {
  run_id = "run";
  repository_identity = "repository";
  commit_sha = none;
  rule = record {
    rule_id = "java/unreleased-lock";
    name = none;
    description = none;
    cwe_ids = [];
    severity = none;
    security_severity = none;
    query_help_uri = none;
    query_pack = none;
    query_pack_version = none;
    tags = [];
  };
  message = "a message";
  level = none;
  primary_location = call_site;
  additional_locations = [];
  related_locations = [];
  paths = [];
  has_code_flows = false;
  fingerprints = [];
  partial_fingerprints = [];
  result_properties = [];
  alert_fingerprint = 40;
  raw_result_reference = record { raw_sarif_sha256 = 7; run_index = 0; result_index = 2 };
}

alert-IsPlaced : (r : ContextReference) → In r (alert_references alert) → IsPlaced r.location
unfolding alert_references
alert-IsPlaced r (inl e) =
    subst (λ (q : ContextReference). IsPlaced q.location) (sym e) call_site-IsPlaced
alert-IsPlaced r (inr m) = absurd m

-- A disk on which every path names the small file.
abbrev on_disk : String → Opened
on_disk path = opened (record { is_regular = true; size = 50; bytes = java })

abbrev files : Files ℕ
files = record {
  open_path = λ path n. (on_disk path, n + 1);
  decode = λ bytes. some bytes;
  digest = λ bytes. 5;
  number = λ n. "n";
}

abbrev rendering : Rendering ℕ
rendering = record {
  level_zero_text = λ (l : LevelZeroContext ℕ). codes "{}";
  text_digest = λ text. 6;
  slice_id = λ (i : SliceIdentity). "slice_1";
  content_digest = λ (c : SliceContent ℕ). 7;
}

abbrev reader : Reader ℕ
reader = record { cache = []; system = 0 }

nothing_cached : Agrees patterns files 1000 ContextPolicyName.fixed_window on_disk reader
unfolding lookup
nothing_cached p s h = absurd (cc h)

build_alert-IsAccepted_example :
    IsAccepted rendering
      (build_alert rendering patterns files 100 1000 ContextPolicyName.path_function_slice alert
        reader).0
build_alert-IsAccepted_example =
    build_alert-IsAccepted rendering patterns files 100 1000 ContextPolicyName.path_function_slice
      alert reader alert-IsPlaced

build_alert-Fits_example :
    let content =
      (build_alert rendering patterns files 1 1000 ContextPolicyName.path_function_slice alert
        reader).0.content in
    (content.token_estimate ≤ 1)
    ⊎ ((1 < estimate_tokens (rendering.level_zero_text (level_zero_of alert)))
        × (content.token_estimate
            ≡ estimate_tokens (rendering.level_zero_text (level_zero_of alert)))
        × (content.source_slices ≡ []))
build_alert-Fits_example =
    build_alert-Fits rendering patterns files 1 1000 ContextPolicyName.path_function_slice alert
      reader alert-IsPlaced

gather-refines_example :
    ((gather patterns files 1000 ContextPolicyName.fixed_window
        (alert_references alert)
        (record { omissions = []; selected = [] })
        reader).0
      ≡ gather_fresh patterns files 1000 ContextPolicyName.fixed_window on_disk
          (alert_references alert)
          (record { omissions = []; selected = [] }))
    × Agrees patterns files 1000 ContextPolicyName.fixed_window on_disk
        (gather patterns files 1000 ContextPolicyName.fixed_window
          (alert_references alert)
          (record { omissions = []; selected = [] })
          reader).1
gather-refines_example =
    gather-refines patterns files 1000 ContextPolicyName.fixed_window on_disk
      (alert_references alert) (record { omissions = []; selected = [] }) reader (λ p s. refl)
      nothing_cached
