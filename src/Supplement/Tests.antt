-- ===== src/Supplement/Tests.antt =====
-- A run of `merge_evidence_supplement` (src/evitriage/evidence/registry.py): a reviewer's refutation of
-- the one alert.
use evi_triage_ql.Prelude.{ℕ, ◌+◌, refl, inl, inr, false, none, [], ◌∷◌, elem, nat_eq}
use evi_triage_ql.Evidence.{
  EvidenceType, supports_fp, high, SourceLocation, ColumnKind, EvidenceContent, EvidenceId,
}
use evi_triage_ql.Evidence.Registry.{ArtifactKind, EvidenceRegistry}
use evi_triage_ql.Evidence.Registry.Closure.{IsClosed}
use evi_triage_ql.Alerts.{NormalizedAlert, AlertBundle}
use evi_triage_ql.Manifest.{ArtifactRecord, ArtifactRole}
use evi_triage_ql.Supplement.{EvidenceSupplement, SupplementKind, merge_evidence_supplement}
use evi_triage_ql.Supplement.Merge.{IsMerged, merge-IsClosed}

abbrev line : SourceLocation
line = record {
  path = "src/Main.java";
  column_kind = ColumnKind.utf16_code_units;
  start_line = 3;
  start_column = 1;
  end_line = none;
  end_column = none;
  artifact_sha256 = none;
  snippet = none;
}

abbrev alert : NormalizedAlert ℕ ℕ
alert = record {
  run_id = "run";
  repository_identity = "repository";
  commit_sha = none;
  rule = record {
    rule_id = "java/xss";
    name = none;
    description = none;
    cwe_ids = [];
    severity = none;
    security_severity = none;
    query_help_uri = none;
    query_pack = none;
    query_pack_version = none;
    tags = [];
  };
  message = "a message";
  level = none;
  primary_location = line;
  additional_locations = [];
  related_locations = [];
  paths = [];
  has_code_flows = false;
  fingerprints = [];
  partial_fingerprints = [];
  result_properties = [];
  alert_fingerprint = 40;
  raw_result_reference = record { raw_sarif_sha256 = 7; run_index = 0; result_index = 2 };
}

abbrev bundle : AlertBundle ℕ ℕ
bundle = record {
  run_id = "run";
  repository_identity = "repository";
  commit_sha = none;
  raw_sarif_sha256 = 7;
  alerts = alert ∷ [];
}

abbrev review : EvidenceSupplement
review = record {
  project_id = "project";
  repository_identity = "repository";
  raw_sarif_sha256 = 7;
  kind = SupplementKind.human;
  producer = "a reviewer";
  purpose = "review";
  entries =
      record {
        run_index = 0;
        result_index = 2;
        type = EvidenceType.rebuttal;
        polarity = supports_fp;
        strength = high;
        summary = "the sink is not reached";
      }
      ∷ [];
}

abbrev review_artifact : ArtifactRecord
review_artifact = record {
  relative_path = "review.json";
  sha256 = 8;
  size_bytes = 100;
  role = ArtifactRole.input;
  media_type = "application/json";
}

abbrev empty_registry : EvidenceRegistry
empty_registry = record {
  run_id = "run";
  repository_identity = "repository";
  raw_sarif_sha256 = 7;
  artifacts =
      record { kind = ArtifactKind.normalized; relative_path = "alerts.json"; artifact_sha256 = 5 }
      ∷ [];
  items = [];
  relationships = [];
  claims = [];
}

empty_registry-IsClosed : IsClosed empty_registry
unfolding elem
empty_registry-IsClosed = record {
  unique_artifacts = (refl, tt);
  unique_items = tt;
  unique_claims = tt;
  anchored = λ i m. absurd m;
  linked = λ g m. absurd m;
  cited = λ c k m n. absurd m;
}

-- The digest is the artifact's hash, and 100: enough to tell one item from others here.
abbrev digest : EvidenceContent → EvidenceId
digest content = 100 + content.artifact_sha256

merge-IsClosed_example :
    IsMerged digest bundle review review_artifact empty_registry
      (merge_evidence_supplement digest bundle review review_artifact empty_registry)
merge-IsClosed_example =
    merge-IsClosed digest bundle review review_artifact empty_registry empty_registry-IsClosed
      (λ a m. elim m [ inl e ↦ rw e refl | inr x ↦ absurd x ])
