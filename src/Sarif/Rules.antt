-- ===== src/Sarif/Rules.antt =====
-- The rules and the data flows of a result, src/evitriage/sarif/normalizer.py: `_rules_by_id`,
-- `_resolve_rule`, `_related_by_id`, `_normalize_paths`, `_fingerprints` and `_rule_metadata`.
use evi_triage_ql.Prelude.{
  ℕ, ◌+◌, ◌-◌, String, true, false, ◌||◌, Option, none, some, List, [], ◌∷◌, ◌++◌, map, any, ltb,
  leb, ◌==◌, nat_eq, string_eq, if◌then◌else◌, length, is_empty, elem, to_set, sorted, get_elem?,
  Dict, lookup, insert, contains, Result, ok, err,
}
use evi_triage_ql.Evidence.{Sha256, SourceLocation}
use evi_triage_ql.Alerts.{RuleMetadata, PathStep, StepKind, DataFlowPath, Completeness}
use evi_triage_ql.ContextBuilder.{codes, text_ltb}
use evi_triage_ql.Sarif.{
  SarifError, duplicate_rule_id, rule_index_out_of_range, different_rules, no_rule,
  duplicate_related_id, no_thread_flows, no_flow_locations, empty_fingerprint,
  fingerprint_control_characters, is_control,
}
use evi_triage_ql.Sarif.Raw.{
  Location, ThreadFlowLocation, ThreadFlow, CodeFlow, ReportingDescriptor, SarifResult,
}
use evi_triage_ql.Sarif.Located.{Resolving, ◌>>=◌, return, raise, or_text, message_text}

-- What the values of properties, the regular expressions and SHA-256 give.
pub record Readings (Value Severity Json : Type 0) : Type 0 where
  -- the texts of a list or tuple, and no text of any other value
  pub texts_of : Value → List String
  pub as_text : Value → Option String
  -- `_security_severity`, and `_json_value`, where `none` is its error
  pub security_severity : Value → Option Severity
  pub json_value : Value → Option Json
  -- the number that `_CWE` finds in a tag, and `CWE-` before a number
  pub cwe_number : String → Option ℕ
  pub cwe_text : ℕ → String
  -- `kind.lower()`
  pub lower : String → String
  pub path_digest : List PathStep → Sha256

module _ {Value : Type 0} where
  -- `ReportingDescriptor(id=id)`
  abbrev pub bare_rule : String → ReportingDescriptor Value
  bare_rule id = record {
    id = id;
    name = none;
    short_description = none;
    full_description = none;
    help_uri = none;
    default_level = none;
    properties = [];
  }

  -- The loop of `_rules_by_id`
  unfoldable pub index_rules :
      Dict String (ReportingDescriptor Value)
      → List (ReportingDescriptor Value)
      → Result SarifError (Dict String (ReportingDescriptor Value))
  unfolding contains insert
  index_rules found [] = ok found
  index_rules found (rule ∷ rules) =
      let rest = index_rules (insert rule.id rule found) rules in
      if contains rule.id found then err duplicate_rule_id else rest

  -- `_rules_by_id`
  unfoldable pub rules_by_id :
      List (ReportingDescriptor Value) → Result SarifError (Dict String (ReportingDescriptor Value))
  unfolding index_rules
  rules_by_id rules = index_rules [] rules

  -- The rule that the index names, if there is an index.
  unfoldable pub indexed_rule :
      SarifResult Value
      → List (ReportingDescriptor Value)
      → Result SarifError (Option (ReportingDescriptor Value))
  indexed_rule result rules = elim result.rule_index [
    | none ↦ ok none
    | some index ↦ elim (get_elem? rules index) [
      | none ↦ err rule_index_out_of_range
      | some rule ↦ ok (some rule)
    ]
  ]

  -- The rule of an identifier, or one that has the identifier only.
  unfoldable pub named_rule :
      Dict String (ReportingDescriptor Value) → String → ReportingDescriptor Value
  unfolding lookup
  named_rule by_id id = elim (lookup id by_id) [ none ↦ bare_rule id | some rule ↦ rule ]

  unfoldable pub chosen_rule :
      Dict String (ReportingDescriptor Value)
      → Option String
      → Option (ReportingDescriptor Value)
      → Result SarifError (ReportingDescriptor Value)
  unfolding named_rule
  chosen_rule by_id none none = err no_rule
  chosen_rule by_id none (some indexed) = ok indexed
  chosen_rule by_id (some id) none = ok (named_rule by_id id)
  chosen_rule by_id (some id) (some indexed) =
      if indexed.id == id then ok (named_rule by_id id) else err different_rules

  -- `_resolve_rule`
  unfoldable pub resolve_rule :
      SarifResult Value
      → List (ReportingDescriptor Value)
      → Dict String (ReportingDescriptor Value)
      → Result SarifError (ReportingDescriptor Value)
  unfolding indexed_rule chosen_rule
  resolve_rule result rules by_id = elim (indexed_rule result rules) [
    | err e ↦ err e
    | ok indexed ↦ chosen_rule by_id result.rule_id indexed
  ]

-- The loop of `_related_by_id`
unfoldable pub index_related : Dict ℕ Location → List Location → Result SarifError (Dict ℕ Location)
unfolding contains insert
index_related found [] = ok found
index_related found (location ∷ locations) = elim location.id [
  | none ↦ index_related found locations
  | some id ↦ elim (contains id found) [
    | true ↦ err duplicate_related_id
    | false ↦ index_related (insert id location found) locations
  ]
]

-- `_step_kind`, of the lowered kinds
unfoldable pub step_kind : List String → ℕ → ℕ → StepKind
unfolding elem
step_kind lowered index final_index =
    if elem "source" lowered
    then StepKind.source
    else if elem "sink" lowered
    then StepKind.sink
    else if index == 0
    then StepKind.source
    else if index == final_index
    then StepKind.sink
    else if ltb 0 final_index
    then StepKind.intermediate
    else StepKind.unknown

-- A text put into a list that is sorted by a key.
unfoldable pub insert_by : {A : Type 0} → (A → String) → A → List A → List A
unfolding text_ltb
insert_by key a [] = a ∷ []
insert_by key a (x ∷ xs) =
    let later = insert_by key a xs in
    if text_ltb (codes (key x)) (codes (key a)) then x ∷ later else a ∷ x ∷ xs

unfoldable pub sorted_by : {A : Type 0} → (A → String) → List A → List A
unfolding insert_by
sorted_by key [] = []
sorted_by key (x ∷ xs) = insert_by key x (sorted_by key xs)

-- The loop of `_fingerprints` over the sorted items
unfoldable pub checked_fingerprints :
    List (String × String) → Result SarifError (Dict String String)
unfolding any
checked_fingerprints [] = ok []
checked_fingerprints ((key, value) ∷ items) =
    let rest = checked_fingerprints items in
    if (key == "") || (value == "")
    then err empty_fingerprint
    else if any is_control (codes key ++ codes value)
    then err fingerprint_control_characters
    else elim rest [ err e ↦ err e | ok found ↦ ok ((key, value) ∷ found) ]

abbrev item_key : String × String → String
item_key item = item.0

-- `_fingerprints`; the keys of a dictionary are distinct.
unfoldable pub fingerprints_of : Dict String String → Result SarifError (Dict String String)
unfolding checked_fingerprints sorted_by
fingerprints_of values = checked_fingerprints (sorted_by item_key values)

module _ {S Value Severity Json : Type 0} (readings : Readings Value Severity Json)
    (locate : Location → Resolving S SourceLocation) where
  -- The steps of a thread flow, from an index on.
  unfoldable pub steps_from : ℕ → ℕ → List ThreadFlowLocation → Resolving S (List PathStep)
  unfolding step_kind message_text
  steps_from index final_index [] = return []
  steps_from index final_index (raw ∷ rest) = do
    location ← locate raw.location
    steps ← steps_from (index + 1) final_index rest
    return (
        record {
          index = index;
          location = location;
          message = message_text raw.location.message;
          step_kind = step_kind (map readings.lower raw.kinds) index final_index;
          kinds = raw.kinds;
          nesting_level = raw.nesting_level;
          execution_order = raw.execution_order;
          importance = raw.importance;
        }
        ∷ steps)

  -- The path of a thread flow.
  unfoldable pub path_of_flow : ℕ → CodeFlow → ThreadFlow → Resolving S DataFlowPath
  unfolding steps_from message_text
  path_of_flow ordinal code_flow thread_flow = elim (is_empty thread_flow.locations) [
    | true ↦ raise no_flow_locations
    | false ↦ steps_from 0 (length thread_flow.locations - 1) thread_flow.locations >>= λ steps.
        return (record {
          ordinal = ordinal;
          steps = steps;
          path_fingerprint = readings.path_digest steps;
          completeness =
              if leb 2 (length steps) then Completeness.complete else Completeness.partial;
          unresolved_edges = [];
          message = or_text (message_text thread_flow.message) (message_text code_flow.message);
        })
  ]

  -- The inner loop; the number of paths so far is the next ordinal.
  unfoldable pub thread_paths : CodeFlow → ℕ → List ThreadFlow → Resolving S (List DataFlowPath)
  unfolding path_of_flow
  thread_paths code_flow ordinal [] = return []
  thread_paths code_flow ordinal (thread_flow ∷ rest) = do
    path ← path_of_flow ordinal code_flow thread_flow
    paths ← thread_paths code_flow (ordinal + 1) rest
    return (path ∷ paths)

  unfoldable pub flow_paths : ℕ → CodeFlow → Resolving S (List DataFlowPath)
  unfolding thread_paths
  flow_paths ordinal code_flow = elim (is_empty code_flow.thread_flows) [
    | true ↦ raise no_thread_flows
    | false ↦ thread_paths code_flow ordinal code_flow.thread_flows
  ]

  -- The paths of `_normalize_paths`
  unfoldable pub normalize_paths : ℕ → List CodeFlow → Resolving S (List DataFlowPath)
  unfolding flow_paths
  normalize_paths ordinal [] = return []
  normalize_paths ordinal (code_flow ∷ rest) = do
    paths ← flow_paths ordinal code_flow
    later ← normalize_paths (ordinal + length paths) rest
    return (paths ++ later)

module _ {Value Severity Json : Type 0} (readings : Readings Value Severity Json) where
  -- The numbers of the tags that name a CWE.
  unfoldable pub cwe_numbers : List String → List ℕ
  cwe_numbers [] = []
  cwe_numbers (tag ∷ tags) = elim (readings.cwe_number tag) [
    | none ↦ cwe_numbers tags
    | some n ↦ n ∷ cwe_numbers tags
  ]

  abbrev tags_of : Option Value → List String
  tags_of none = []
  tags_of (some value) = readings.texts_of value

  abbrev nonempty : Option String → Option String
  nonempty none = none
  nonempty (some text) = if text == "" then none else some text

  abbrev severity_in : Option Value → Option String
  severity_in none = none
  severity_in (some value) = nonempty (readings.as_text value)

  abbrev security_in : Option Value → Option Severity
  security_in none = none
  security_in (some value) = readings.security_severity value

  -- The first level that is given.
  unfoldable pub severity_of : Option String → Option String → Option Value → Option String
  severity_of (some level) default_level problem = some level
  severity_of none (some level) problem = some level
  severity_of none none problem = severity_in problem

  -- `_rule_metadata`
  unfoldable pub rule_metadata :
      ReportingDescriptor Value → SarifResult Value → RuleMetadata Severity
  unfolding lookup cwe_numbers to_set sorted sorted_by severity_of message_text
  rule_metadata descriptor result =
      let tags = tags_of (lookup "tags" descriptor.properties) in
      record {
        rule_id = descriptor.id;
        name = descriptor.name;
        description =
            or_text (message_text descriptor.full_description)
              (message_text descriptor.short_description);
        cwe_ids = map readings.cwe_text (sorted (λ n. n) (to_set (cwe_numbers tags)));
        severity =
            severity_of result.level descriptor.default_level
              (lookup "problem.severity" descriptor.properties);
        security_severity = security_in (lookup "security-severity" descriptor.properties);
        query_help_uri = descriptor.help_uri;
        query_pack = none;
        query_pack_version = none;
        tags = sorted_by (λ tag. tag) (to_set tags);
      }
