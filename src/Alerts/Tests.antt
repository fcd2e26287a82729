-- ===== src/Alerts/Tests.antt =====
-- A run of the validator of an alert bundle of src/evitriage/domain/alerts.py.
use evi_triage_ql.Prelude.{ℕ, ◌≡◌, refl, false, none, some, [], ◌∷◌, map, ok, elem, In, Unique}
use evi_triage_ql.Evidence.{SourceLocation, ColumnKind}
use evi_triage_ql.Alerts.{
  NormalizedAlert, AlertBundle, RuleMetadata, validate_alert_provenance, check_alerts, pair_eq,
}
use evi_triage_ql.Alerts.Bundle.{BelongsTo, reference_of, validate_alert_provenance-BelongsTo}

abbrev main_line : SourceLocation
main_line = record {
  path = "src/Main.java";
  column_kind = ColumnKind.utf16_code_units;
  start_line = 3;
  start_column = 1;
  end_line = none;
  end_column = none;
  artifact_sha256 = none;
  snippet = none;
}

abbrev leak_rule : RuleMetadata ℕ
leak_rule = record {
  rule_id = "java/input-resource-leak";
  name = none;
  description = none;
  cwe_ids = [];
  severity = none;
  security_severity = none;
  query_help_uri = none;
  query_pack = none;
  query_pack_version = none;
  tags = [];
}

abbrev alert_at : ℕ → NormalizedAlert ℕ ℕ
alert_at n = record {
  run_id = "run";
  repository_identity = "repository";
  commit_sha = some 6;
  rule = leak_rule;
  message = "leak";
  level = none;
  primary_location = main_line;
  additional_locations = [];
  related_locations = [];
  paths = [];
  has_code_flows = false;
  fingerprints = [];
  partial_fingerprints = [];
  result_properties = [];
  alert_fingerprint = 50;
  raw_result_reference = record { raw_sarif_sha256 = 7; run_index = 0; result_index = n };
}

abbrev two_alerts : AlertBundle ℕ ℕ
two_alerts = record {
  run_id = "run";
  repository_identity = "repository";
  commit_sha = some 6;
  raw_sarif_sha256 = 7;
  alerts = alert_at 0 ∷ alert_at 1 ∷ [];
}

two_alerts_ok : validate_alert_provenance two_alerts ≡ ok tt
unfolding validate_alert_provenance check_alerts elem
two_alerts_ok = refl

validate_alert_provenance-BelongsTo_example :
    ((y : NormalizedAlert ℕ ℕ) → In y two_alerts.alerts → BelongsTo two_alerts y)
    × Unique (map reference_of two_alerts.alerts)
validate_alert_provenance-BelongsTo_example =
    validate_alert_provenance-BelongsTo two_alerts two_alerts_ok
