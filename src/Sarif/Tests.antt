-- ===== src/Sarif/Tests.antt =====
-- Runs of src/evitriage/sarif/normalizer.py on small URIs.
use evi_triage_ql.Prelude.{
  ℕ, ◌+◌, ◌≡◌, length, Result, refl, String, false, Option, none, some, [], ◌∷◌, In, lookup, ok,
  err, ◌==◌, string_eq,
}
use evi_triage_ql.ContextBuilder.{Text, codes}
use evi_triage_ql.Sarif.{SarifError, ArtifactLocation, UriText, parent_traversal}
use evi_triage_ql.Sarif.Bases.{Snapshot, relative_source_path}
use evi_triage_ql.Evidence.{ColumnKind}
use evi_triage_ql.Alerts.{AlertBundle, NormalizedAlert, validate_alert_provenance}
use evi_triage_ql.Sarif.Raw.{Location, SarifResult, Run}
use evi_triage_ql.Sarif.Located.{Sources, missing}
use evi_triage_ql.Sarif.Rules.{Readings}
use evi_triage_ql.Sarif.Normalize.{Normalization, normalize}
use evi_triage_ql.Sarif.Accepted.{IsValid, normalize-IsValid}
use evi_triage_ql.Sarif.Resolved.{IsSafeCache, LeavesInside, relative_source_path-LeavesInside}

-- URIs with no scheme, query or escape.
abbrev plain : UriText
plain = record {
  has_bad_escape = λ text. false;
  urlsplit =
      λ text. some (record { scheme = []; netloc = []; path = text; query = []; fragment = [] });
  unquote = λ text. some text;
}

abbrev location : Text → Option String → ArtifactLocation
location uri base = record { uri = some uri; uri_base_id = base; index = none }

-- A run with one base, which is below the source root.
abbrev snapshot : Snapshot
snapshot = record {
  texts = plain;
  is_source_root_id = λ id. id == "%SRCROOT%";
  original_uri_base_ids = ("APP", location (codes "app/src") (some "%SRCROOT%")) ∷ [];
  source_root = codes "/work";
  inspect = λ parts. ok tt;
}

in_app :
    (relative_source_path snapshot (location (codes "./main/A.java") (some "APP")) []).0
    ≡ ok (codes "app/src/main/A.java")
unfolding relative_source_path
in_app = refl

above_root :
    (relative_source_path snapshot (location (codes "../A.java") (some "APP")) []).0
    ≡ err parent_traversal
unfolding relative_source_path
above_root = refl

nothing_cached : IsSafeCache snapshot []
unfolding lookup
nothing_cached id base h = absurd (cc h)

relative_source_path-LeavesInside_example :
    LeavesInside snapshot
      (relative_source_path snapshot (location (codes "main/A.java") (some "APP")) [])
relative_source_path-LeavesInside_example =
    relative_source_path-LeavesInside snapshot (location (codes "main/A.java") (some "APP")) []
      nothing_cached

-- Readings of properties that are texts; no file is there.
abbrev readings : Readings String ℕ String
readings = record {
  texts_of = λ value. [];
  as_text = λ value. some value;
  security_severity = λ value. none;
  json_value = λ value. some value;
  cwe_number = λ tag. none;
  cwe_text = λ n. "CWE";
  lower = λ kind. kind;
  path_digest = λ steps. length steps;
}

abbrev no_files : Sources ℕ
no_files = record {
  look = λ path looks. (missing, looks + 1);
  is_digest_key = λ key. key == "sha-256";
  as_digest = λ value. none;
  text_of = λ path. "main/A.java";
}

abbrev at_line : ℕ → Location
at_line n = record {
  id = none;
  physical_location = some (record {
    artifact_location = some (location (codes "main/A.java") none);
    region = some (record {
      start_line = some n;
      start_column = none;
      end_line = none;
      end_column = none;
      snippet = none;
    });
    context_region = none;
  });
  message = none;
}

-- A result with a data flow of two steps.
abbrev leak_at : ℕ → SarifResult String
leak_at n = record {
  rule_id = some "java/leak";
  rule_index = none;
  message = record { text = some "leak"; markdown = none };
  level = none;
  locations = at_line n ∷ [];
  related_locations = [];
  code_flows =
      record {
        thread_flows =
            record {
              locations =
                  record {
                    location = at_line n;
                    kinds = [];
                    nesting_level = none;
                    execution_order = none;
                    importance = none;
                  }
                  ∷ record {
                    location = at_line (n + 1);
                    kinds = [];
                    nesting_level = none;
                    execution_order = none;
                    importance = none;
                  }
                  ∷ [];
              message = none;
            }
            ∷ [];
        message = none;
      }
      ∷ [];
  fingerprints = [];
  partial_fingerprints = [];
  properties = ("kind", "leak") ∷ [];
}

abbrev one_run : Run String
one_run = record {
  rules = [];
  results = leak_at 3 ∷ leak_at 7 ∷ [];
  artifacts = [];
  original_uri_base_ids = [];
  column_kind = some ColumnKind.utf16_code_units;
}

abbrev normalization : Normalization
normalization = record {
  run_id = "run";
  repository_identity = "repository";
  raw_sarif_sha256 = 7;
  commit_sha = some 6;
  maximum_results = 10;
  maximum_path_steps = 4;
  alert_digest = λ payload. length payload.path_fingerprints;
}

-- What a call returns, or a bundle with no alerts.
abbrev or_nothing : Result SarifError (AlertBundle ℕ String) → AlertBundle ℕ String
or_nothing (ok bundle) = bundle
or_nothing (err e) = record {
  run_id = "";
  repository_identity = "";
  commit_sha = none;
  raw_sarif_sha256 = 0;
  alerts = [];
}

abbrev two_alerts : AlertBundle ℕ String
unfolding normalize
two_alerts =
    or_nothing (normalize readings no_files (λ run. snapshot) normalization (one_run ∷ []) 0)

two_alerts-length : length two_alerts.alerts ≡ 2
unfolding two_alerts
two_alerts-length = refl

normalize-IsValid_example :
    (validate_alert_provenance two_alerts ≡ ok tt)
    × ((alert : NormalizedAlert ℕ String) → In alert two_alerts.alerts → IsValid alert)
unfolding normalize two_alerts
normalize-IsValid_example =
    normalize-IsValid readings no_files (λ run. snapshot) normalization (one_run ∷ []) 0 two_alerts
      refl
