-- ===== src/Sarif/Normalize.antt =====
-- `SarifNormalizer.normalize` of src/evitriage/sarif/normalizer.py. The patterns of the run's digest and
-- commit are not checked: they are numbers.
use evi_triage_ql.Prelude.{
  ℕ, ◌+◌, String, not, Option, none, some, List, [], ◌∷◌, ◌++◌, map, ltb, ◌==◌, string_eq,
  if◌then◌else◌, length, is_empty, Dict, Result, ok, err,
}
use evi_triage_ql.Evidence.{Sha256, SourceLocation}
use evi_triage_ql.Alerts.{RuleMetadata, DataFlowPath, NormalizedAlert, AlertBundle}
use evi_triage_ql.Sarif.{
  SarifError, not_json, too_many_results, no_locations, too_many_steps, empty_message,
}
use evi_triage_ql.Sarif.Bases.{Snapshot}
use evi_triage_ql.Sarif.Raw.{ReportingDescriptor, SarifResult, Run}
use evi_triage_ql.Sarif.Located.{
  Sources, Resolver, Resolving, ◌>>=◌, go_on, return, raise, lift, or_text, message_text, each,
  source_location,
}
use evi_triage_ql.Sarif.Rules.{
  Readings, rules_by_id, resolve_rule, index_related, fingerprints_of, normalize_paths,
  rule_metadata,
}

-- What of an alert its fingerprint is computed from.
pub record AlertPayload : Type 0 where
  pub rule_id : String
  pub message : String
  pub primary_location : SourceLocation
  pub fingerprints : Dict String String
  pub partial_fingerprints : Dict String String
  pub path_fingerprints : List Sha256

-- The arguments of `normalize` and the limits of the normalizer.
pub record Normalization : Type 0 where
  pub run_id : String
  pub repository_identity : String
  pub raw_sarif_sha256 : Sha256
  pub commit_sha : Option Sha256
  pub maximum_results : ℕ
  pub maximum_path_steps : ℕ
  pub alert_digest : AlertPayload → Sha256

abbrev fingerprint_of : DataFlowPath → Sha256
fingerprint_of path = path.path_fingerprint

-- The steps of some paths.
unfoldable pub count_steps : List DataFlowPath → ℕ
count_steps [] = 0
count_steps (path ∷ paths) = length path.steps + count_steps paths

module _ {S Value Severity Json : Type 0} (readings : Readings Value Severity Json)
    (sources : Sources S) (snapshot_of : Run Value → Snapshot) (given : Normalization) where
  abbrev pub Alert : Type 0
  Alert = NormalizedAlert Severity Json

  -- `_json_properties`
  unfoldable pub json_properties : Dict String Value → Result SarifError (Dict String Json)
  json_properties [] = ok []
  json_properties ((key, value) ∷ properties) =
      let rest = json_properties properties in
      elim (readings.json_value value) [
        | none ↦ err not_json
        | some json ↦ elim rest [ err e ↦ err e | ok found ↦ ok ((key, json) ∷ found) ]
      ]

  -- The first location, and the others.
  abbrev pub first_location :
      List SourceLocation → Resolving S (SourceLocation × List SourceLocation)
  first_location [] = raise no_locations
  first_location (l ∷ ls) = return (l, ls)

  -- `_message_text(result.message)`, which may not be empty
  abbrev pub nonempty_message : Option String → Resolving S String
  nonempty_message none = raise empty_message
  nonempty_message (some text) = if text == "" then raise empty_message else return text

  -- The steps counted so far are within the limit.
  abbrev pub within_steps : ℕ → Resolving S (Unit {0})
  within_steps count =
      if ltb given.maximum_path_steps count then raise too_many_steps else return tt

  -- What the parts of a result give.
  pub record Normalized : Type 0 where
    pub rule : RuleMetadata Severity
    pub message : String
    pub location : SourceLocation
    pub additional : List SourceLocation
    pub related : List SourceLocation
    pub paths : List DataFlowPath
    pub fingerprints : Dict String String
    pub partial_fingerprints : Dict String String
    pub properties : Dict String Json

  -- The alert of a result, at its indexes.
  abbrev pub alert_of : SarifResult Value → ℕ → ℕ → Normalized → Alert
  alert_of result run_index result_index n = record {
    run_id = given.run_id;
    repository_identity = given.repository_identity;
    commit_sha = given.commit_sha;
    rule = n.rule;
    message = n.message;
    level = or_text result.level n.rule.severity;
    primary_location = n.location;
    additional_locations = n.additional;
    related_locations = n.related;
    paths = n.paths;
    has_code_flows = not (is_empty result.code_flows);
    fingerprints = n.fingerprints;
    partial_fingerprints = n.partial_fingerprints;
    result_properties = n.properties;
    alert_fingerprint = given.alert_digest (record {
      rule_id = n.rule.rule_id;
      message = n.message;
      primary_location = n.location;
      fingerprints = n.fingerprints;
      partial_fingerprints = n.partial_fingerprints;
      path_fingerprints = map fingerprint_of n.paths;
    });
    raw_result_reference = record {
      raw_sarif_sha256 = given.raw_sarif_sha256;
      run_index = run_index;
      result_index = result_index;
    };
  }

  -- The body of the inner loop, with the steps counted before; it returns the count and the alert.
  unfoldable pub normalize_result :
      Run Value
      → Dict String (ReportingDescriptor Value)
      → ℕ
      → ℕ
      → SarifResult Value
      → ℕ
      → Resolving S (ℕ × Alert)
  unfolding resolve_rule index_related each source_location normalize_paths count_steps
      fingerprints_of rule_metadata message_text json_properties
  normalize_result run by_id run_index result_index result steps = do
    descriptor ← lift (resolve_rule result run.rules by_id)
    related_by_id ← lift (index_related [] result.related_locations)
    locations ←
        each (source_location sources (snapshot_of run) run.artifacts run.column_kind related_by_id)
          result.locations
    first ← first_location locations
    related ←
        each (source_location sources (snapshot_of run) run.artifacts run.column_kind related_by_id)
          result.related_locations
    paths ←
        normalize_paths readings
          (source_location sources (snapshot_of run) run.artifacts run.column_kind related_by_id) 0
          result.code_flows
    _ ← within_steps (steps + count_steps paths)
    fingerprints ← lift (fingerprints_of result.fingerprints)
    partial ← lift (fingerprints_of result.partial_fingerprints)
    let rule = rule_metadata readings descriptor result
    message ← nonempty_message (message_text (some result.message))
    properties ← lift (json_properties result.properties)
    return (
      steps + count_steps paths,
      alert_of result run_index result_index (record {
        rule = rule;
        message = message;
        location = first.0;
        additional = first.1;
        related = related;
        paths = paths;
        fingerprints = fingerprints;
        partial_fingerprints = partial;
        properties = properties;
      }),
    )

  -- The loop over the results of a run.
  unfoldable pub normalize_results :
      Run Value
      → Dict String (ReportingDescriptor Value)
      → ℕ
      → ℕ
      → List (SarifResult Value)
      → ℕ
      → Resolving S (ℕ × List Alert)
  unfolding normalize_result
  normalize_results run by_id run_index result_index [] steps = return (steps, [])
  normalize_results run by_id run_index result_index (result ∷ results) steps = do
    one ← normalize_result run by_id run_index result_index result steps
    rest ← normalize_results run by_id run_index (result_index + 1) results one.0
    return (rest.0, one.1 ∷ rest.1)

  -- One run, with a resolver of its own.
  unfoldable pub normalize_run :
      ℕ → Run Value → ℕ → S → Result SarifError (ℕ × List Alert) × Resolver S
  unfolding rules_by_id normalize_results
  normalize_run run_index run steps system =
      let resolver : Resolver S = record { bases = []; hashes = []; system = system } in
      go_on (lift (rules_by_id run.rules) resolver)
        λ by_id. normalize_results run by_id run_index 0 run.results steps

  -- What a run gave, and the runs that follow it.
  abbrev pub after_run :
      Result SarifError (ℕ × List Alert) × Resolver S
      → (ℕ → S → Result SarifError (List Alert))
      → Result SarifError (List Alert)
  after_run (err e, later) rest = err e
  after_run (ok (count, alerts), later) rest = elim (rest count later.system) [
    | err e ↦ err e
    | ok others ↦ ok (alerts ++ others)
  ]

  -- The loop over the runs.
  unfoldable pub normalize_runs : ℕ → List (Run Value) → ℕ → S → Result SarifError (List Alert)
  unfolding normalize_run
  normalize_runs run_index [] steps system = ok []
  normalize_runs run_index (run ∷ runs) steps system =
      after_run (normalize_run run_index run steps system)
        λ count later. normalize_runs (run_index + 1) runs count later

  unfoldable pub count_results : List (Run Value) → ℕ
  count_results [] = 0
  count_results (run ∷ runs) = length run.results + count_results runs

  -- `normalize`, without the validators that the constructors of its records call
  unfoldable pub normalize : List (Run Value) → S → Result SarifError (AlertBundle Severity Json)
  unfolding normalize_runs count_results
  normalize runs system =
      if ltb given.maximum_results (count_results runs)
      then err too_many_results
      else elim (normalize_runs 0 runs 0 system) [
        | err e ↦ err e
        | ok alerts ↦ ok (record {
          run_id = given.run_id;
          repository_identity = given.repository_identity;
          commit_sha = given.commit_sha;
          raw_sarif_sha256 = given.raw_sarif_sha256;
          alerts = alerts;
        })
      ]
