-- ===== src/Sarif/Raw.antt =====
-- The records of src/evitriage/sarif/raw_models.py. The constructors of `Message` and `Run` check what
-- their validators ask for when a document is read; a property's value is of a type of its own.
use evi_triage_ql.Prelude.{ℕ, String, Option, List, Dict}
use evi_triage_ql.Evidence.{ColumnKind}
use evi_triage_ql.Alerts.{Importance}
use evi_triage_ql.Sarif.{ArtifactLocation}

pub record Message : Type 0 where
  pub text : Option String
  pub markdown : Option String

pub record Artifact : Type 0 where
  pub location : Option ArtifactLocation
  pub hashes : Dict String String

pub record Region : Type 0 where
  pub start_line : Option ℕ
  pub start_column : Option ℕ
  pub end_line : Option ℕ
  pub end_column : Option ℕ
  pub snippet : Option Message

pub record PhysicalLocation : Type 0 where
  pub artifact_location : Option ArtifactLocation
  pub region : Option Region
  pub context_region : Option Region

pub record Location : Type 0 where
  pub id : Option ℕ
  pub physical_location : Option PhysicalLocation
  pub message : Option Message

pub record ThreadFlowLocation : Type 0 where
  pub location : Location
  pub kinds : List String
  pub nesting_level : Option ℕ
  pub execution_order : Option ℕ
  pub importance : Option Importance

pub record ThreadFlow : Type 0 where
  pub locations : List ThreadFlowLocation
  pub message : Option Message

pub record CodeFlow : Type 0 where
  pub thread_flows : List ThreadFlow
  pub message : Option Message

pub record ReportingDescriptor (Value : Type 0) : Type 0 where
  pub id : String
  pub name : Option String
  pub short_description : Option Message
  pub full_description : Option Message
  pub help_uri : Option String
  -- the level of the default configuration
  pub default_level : Option String
  pub properties : Dict String Value

pub record SarifResult (Value : Type 0) : Type 0 where
  pub rule_id : Option String
  pub rule_index : Option ℕ
  pub message : Message
  pub level : Option String
  pub locations : List Location
  pub related_locations : List Location
  pub code_flows : List CodeFlow
  pub fingerprints : Dict String String
  pub partial_fingerprints : Dict String String
  pub properties : Dict String Value

pub record Run (Value : Type 0) : Type 0 where
  -- the rules of the tool's driver
  pub rules : List (ReportingDescriptor Value)
  pub results : List (SarifResult Value)
  pub artifacts : List Artifact
  pub original_uri_base_ids : Dict String ArtifactLocation
  pub column_kind : Option ColumnKind
