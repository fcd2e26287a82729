-- ===== src/Builder/Tests.antt =====
-- A run of `build_evidence_registry` (src/evitriage/evidence/registry.py): one alert with a path, one
-- slice and a guard in it.
use evi_triage_ql.Prelude.{
  ℕ, ◌+◌, ◌*◌, ◌≡◌, refl, sym, subst, inl, inr, true, none, some, [], ◌∷◌, String,
}
use evi_triage_ql.Evidence.{EvidenceType, SourceLocation, ColumnKind, EvidenceContent}
use evi_triage_ql.Alerts.{NormalizedAlert, AlertBundle, DataFlowPath, StepKind, Completeness}
use evi_triage_ql.Manifest.{ArtifactRecord, ArtifactRole}
use evi_triage_ql.Context.{
  SourceSlice, Selection, ReferenceKind, CandidateKind, ContextPolicyName, SliceArtifact,
}
use evi_triage_ql.Builder.Walk.{Builders}
use evi_triage_ql.Builder.Build.{build_evidence_registry}
use evi_triage_ql.Builder.Closed.{HasSteps, IsBuilt, build-IsBuilt}

abbrev line : SourceLocation
line = record {
  path = "src/Main.java";
  column_kind = ColumnKind.utf16_code_units;
  start_line = 3;
  start_column = 1;
  end_line = none;
  end_column = none;
  artifact_sha256 = none;
  snippet = none;
}

abbrev flow : DataFlowPath
flow = record {
  ordinal = 0;
  steps =
      record {
        index = 0;
        location = line;
        message = none;
        step_kind = StepKind.source;
        kinds = [];
        nesting_level = none;
        execution_order = none;
        importance = none;
      }
      ∷ [];
  path_fingerprint = 60;
  completeness = Completeness.complete;
  unresolved_edges = [];
  message = none;
}

abbrev alert : NormalizedAlert ℕ ℕ
alert = record {
  run_id = "run";
  repository_identity = "repository";
  commit_sha = none;
  rule = record {
    rule_id = "java/xss";
    name = none;
    description = none;
    cwe_ids = [];
    severity = none;
    security_severity = none;
    query_help_uri = none;
    query_pack = none;
    query_pack_version = none;
    tags = [];
  };
  message = "a message";
  level = none;
  primary_location = line;
  additional_locations = [];
  related_locations = [];
  paths = flow ∷ [];
  has_code_flows = true;
  fingerprints = [];
  partial_fingerprints = [];
  result_properties = [];
  alert_fingerprint = 40;
  raw_result_reference = record { raw_sarif_sha256 = 7; run_index = 0; result_index = 2 };
}

abbrev bundle : AlertBundle ℕ ℕ
bundle = record {
  run_id = "run";
  repository_identity = "repository";
  commit_sha = none;
  raw_sarif_sha256 = 7;
  alerts = alert ∷ [];
}

abbrev slice : SourceSlice
slice = record {
  slice_id = "slice_1";
  identity = record {
    artifact_sha256 = 12;
    content_sha256 = 13;
    end_line = 9;
    path = "src/Main.java";
    selection = Selection.fixed_window;
    start_line = 1;
  };
  content = "the lines";
  enclosing_symbol = none;
  references =
      record {
        kind = ReferenceKind.source;
        location = line;
        path_ordinal = some 0;
        step_index = some 0;
      }
      ∷ [];
}

abbrev artifact : SliceArtifact ℕ
artifact = record {
  slice_sha256 = 14;
  content = record {
    alert_fingerprint = 40;
    raw_result_reference = record { raw_sarif_sha256 = 7; run_index = 0; result_index = 2 };
    context_policy = ContextPolicyName.fixed_window;
    level_zero = record {
      rule = alert.rule;
      message = "a message";
      primary_location = line;
      additional_locations = [];
      related_locations = [];
      paths = flow ∷ [];
    };
    source_slices = slice ∷ [];
    guards = record { kind = CandidateKind.guard; location = line; excerpt = "if (ok)" } ∷ [];
    candidate_sanitizers = [];
    token_estimate = 10;
    maximum_token_budget = 100;
    completeness = Completeness.complete;
    omitted = [];
  };
}

abbrev stored_as : String → ℕ → ArtifactRecord
stored_as path hash = record {
  relative_path = path;
  sha256 = hash;
  size_bytes = 100;
  role = ArtifactRole.context;
  media_type = "application/json";
}

abbrev type_number : EvidenceType → ℕ
type_number EvidenceType.rule_semantics = 1
type_number EvidenceType.data_flow = 2
type_number _ = 3

-- The digest tells the items of this run apart: by type and artifact.
abbrev builders : Builders
builders = record {
  digest = λ (c : EvidenceContent). type_number c.type + 10 * c.artifact_sha256;
  show = λ n. "0";
  observe = λ text line. [];
  length_of = λ text. 0;
}

only_flow : HasSteps alert
only_flow path m h = elim m [
  | inl e ↦ let bad : flow.steps ≡ [] = subst (λ (p : DataFlowPath). p.steps ≡ []) e h in cc bad
  | inr x ↦ absurd x
]

build-IsBuilt_example :
    IsBuilt builders bundle
      (stored_as "alerts.json" 5)
      ((artifact, stored_as "slice.json" 6) ∷ [])
      (build_evidence_registry builders bundle
        (stored_as "alerts.json" 5)
        ((artifact, stored_as "slice.json" 6) ∷ []))
build-IsBuilt_example =
    build-IsBuilt builders bundle (stored_as "alerts.json" 5)
      ((artifact, stored_as "slice.json" 6) ∷ [])
      (λ a m. elim m [ inl e ↦ rw e refl | inr x ↦ absurd x ])
      (λ a m. elim m [
        | inl e ↦ subst (λ (b : NormalizedAlert ℕ ℕ). HasSteps b) (sym e) only_flow
        | inr x ↦ absurd x
      ])
