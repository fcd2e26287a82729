-- ===== src/Alerts.antt =====
-- The normalized alerts of src/evitriage/domain/alerts.py and their validators.
--
-- The type of the floating-point severity and that of JSON values are parameters: the code copies
-- them. The validator of a path's text is in Sarif/PathText.
pub mod Bundle
mod Tests
use evi_triage_ql.Prelude.{
  ℕ, ◌+◌, String, Bool, true, false, not, ◌&&◌, ◌||◌, Option, none, some, List, [], ◌∷◌, map, ◌==◌,
  nat_eq, string_eq, ltb, Result, ok, err, raise_if, ◌>>◌, elem, Eq, ◌≡◌, ◌↔◌, arith, Dict,
  is_empty,
}
use evi_triage_ql.Evidence.{Sha256, RawResultReference, SourceLocation}

-- The messages of the validators.
pub data AlertError : Type 0 where
  column_without_line line_precedes column_precedes half_a_pack : AlertError
  bad_step_indexes flows_mismatch bad_ordinals foreign_alert duplicate_result : AlertError

-- The region's checks, at its start and its optional ends.
unfoldable pub check_region : ℕ → ℕ → Option ℕ → Option ℕ → Result AlertError (Unit {0})
check_region start_line start_column none (some column) = err column_without_line
check_region start_line start_column none none = ok tt
check_region start_line start_column (some line) none = raise_if (ltb line start_line) line_precedes
check_region start_line start_column (some line) (some column) = do
  raise_if (ltb line start_line) line_precedes
  raise_if ((line == start_line) && ltb column start_column) column_precedes

-- `SourceLocation.validate_region_order`
unfoldable pub validate_region_order : SourceLocation → Result AlertError (Unit {0})
unfolding check_region
validate_region_order l = check_region l.start_line l.start_column l.end_line l.end_column

pub record RuleMetadata (Severity : Type 0) : Type 0 where
  pub rule_id : String
  pub name : Option String
  pub description : Option String
  pub cwe_ids : List String
  pub severity : Option String
  pub security_severity : Option Severity
  pub query_help_uri : Option String
  pub query_pack : Option String
  pub query_pack_version : Option String
  pub tags : List String

abbrev pub is_absent : Option String → Bool
is_absent none = true
is_absent (some _) = false

abbrev pub differ : Bool → Bool → Bool
differ true b = not b
differ false b = b

-- `RuleMetadata.validate_pack_provenance`
unfoldable pub validate_pack_provenance :
    {Severity : Type 0} → RuleMetadata Severity → Result AlertError (Unit {0})
validate_pack_provenance rule =
    raise_if (differ (is_absent rule.query_pack) (is_absent rule.query_pack_version)) half_a_pack

pub data StepKind : Type 0 where
  source sink intermediate unknown : StepKind

pub data Importance : Type 0 where
  important essential unimportant : Importance

pub record PathStep : Type 0 where
  pub index : ℕ
  pub location : SourceLocation
  pub message : Option String
  pub step_kind : StepKind
  pub kinds : List String
  pub nesting_level : Option ℕ
  pub execution_order : Option ℕ
  pub importance : Option Importance

pub data Completeness : Type 0 where
  complete partial : Completeness

pub record DataFlowPath : Type 0 where
  pub ordinal : ℕ
  pub steps : List PathStep
  pub path_fingerprint : Sha256
  pub completeness : Completeness
  pub unresolved_edges : List String
  pub message : Option String

-- The list is `range` from its first number on.
unfoldable pub counts_from : ℕ → List ℕ → Bool
counts_from n [] = true
counts_from n (x ∷ xs) = (x == n) && counts_from (n + 1) xs

-- `DataFlowPath.validate_step_indexes`
unfoldable pub validate_step_indexes : DataFlowPath → Result AlertError (Unit {0})
unfolding counts_from
validate_step_indexes path =
    raise_if (not (counts_from 0 (map (λ (step : PathStep). step.index) path.steps)))
      bad_step_indexes

pub record NormalizedAlert (Severity Json : Type 0) : Type 0 where
  pub run_id : String
  pub repository_identity : String
  pub commit_sha : Option Sha256
  pub rule : RuleMetadata Severity
  pub message : String
  pub level : Option String
  pub primary_location : SourceLocation
  pub additional_locations : List SourceLocation
  pub related_locations : List SourceLocation
  pub paths : List DataFlowPath
  pub has_code_flows : Bool
  pub fingerprints : Dict String String
  pub partial_fingerprints : Dict String String
  pub result_properties : Dict String Json
  pub alert_fingerprint : Sha256
  pub raw_result_reference : RawResultReference

pub record AlertBundle (Severity Json : Type 0) : Type 0 where
  pub run_id : String
  pub repository_identity : String
  pub commit_sha : Option Sha256
  pub raw_sarif_sha256 : Sha256
  pub alerts : List (NormalizedAlert Severity Json)

abbrev pub same_commit : Option Sha256 → Option Sha256 → Bool
same_commit none none = true
same_commit (some a) (some b) = a == b
same_commit _ _ = false

-- A reference as the pair of its indexes.
abbrev pub pair_beq : ℕ × ℕ → ℕ × ℕ → Bool
pair_beq (a, b) (c, d) = (a == c) && (b == d)

pub pair_beq_iff : (x y : ℕ × ℕ) → (pair_beq x y ≡ true) ↔ (x ≡ y)
pair_beq_iff (a, b) (c, d) = ground arith

instance abbrev pub pair_eq : Eq (ℕ × ℕ)
pair_eq = record { beq = pair_beq; beq_iff = pair_beq_iff }

module _ {Severity Json : Type 0} where
  -- `NormalizedAlert.validate_path_provenance`
  unfoldable pub validate_path_provenance :
      NormalizedAlert Severity Json → Result AlertError (Unit {0})
  unfolding counts_from
  validate_path_provenance alert = do
    raise_if (differ alert.has_code_flows (not (is_empty alert.paths))) flows_mismatch
    raise_if (not (counts_from 0 (map (λ (path : DataFlowPath). path.ordinal) alert.paths)))
        bad_ordinals

  -- The loop of the bundle's validator, with the references seen.
  unfoldable pub check_alerts :
      AlertBundle Severity Json
      → List (ℕ × ℕ)
      → List (NormalizedAlert Severity Json)
      → Result AlertError (Unit {0})
  unfolding elem
  check_alerts bundle references [] = ok tt
  check_alerts bundle references (alert ∷ alerts) = do
    let raw = alert.raw_result_reference
    raise_if
        (not (alert.run_id == bundle.run_id)
          || (not (alert.repository_identity == bundle.repository_identity)
              || (not (same_commit alert.commit_sha bundle.commit_sha)
                  || not (raw.raw_sarif_sha256 == bundle.raw_sarif_sha256))))
        foreign_alert
    raise_if (elem (raw.run_index, raw.result_index) references) duplicate_result
    check_alerts bundle ((raw.run_index, raw.result_index) ∷ references) alerts

  -- `AlertBundle.validate_alert_provenance`
  unfoldable pub validate_alert_provenance :
      AlertBundle Severity Json → Result AlertError (Unit {0})
  unfolding check_alerts
  validate_alert_provenance bundle = check_alerts bundle [] bundle.alerts
