-- ===== src/Evaluation.antt =====
-- The comparison of final decisions with a human baseline, src/evitriage/evaluation.py.
--
-- A file is what `os.stat` says of it and its parsed lines; the parsing is not modelled. Of a report
-- (`AlertReport`) stand the fields that are read, and of a legacy row the identifier's two parts. A
-- rate, a float in the program, is kept as the quotient that it is computed as.
pub mod Summary
pub mod Final
pub mod Tally
pub mod Cases
mod Tests
use evi_triage_ql.Prelude.{
  ℕ, suc, ◌+◌, ◌*◌, String, Bool, true, false, not, ◌&&◌, ◌||◌, Option, none, some, List, [], ◌∷◌,
  ◌++◌, map, ◌==◌, nat_eq, string_eq, ltb, Result, ok, err, raise_if, or_raise, ◌>>◌, ◌>>=◌,
  map_result, length, filter, any, Dict, keys, values, lookup, contains, insert, index_by,
  if◌then◌else◌, Eq,
}
use evi_triage_ql.Evidence.{Sha256, RawResultReference, reference_eq}
use evi_triage_ql.Triage.{TriageLabel, tp, fp, nmc, label_eq}

pub data EvaluationError : Type 0 where
  symbolic_link cannot_inspect not_regular not_finalized duplicate_decisions : EvaluationError
  duplicate_prefixes no_binding no_decision cross_check duplicate_baseline : EvaluationError
  rate_out_of_range : EvaluationError

-- What `is_symlink`, `stat`, `S_ISREG` and the owner's write bit say of a path.
pub record PathState : Type 0 where
  pub is_symlink : Bool
  pub has_metadata : Bool
  pub is_regular : Bool
  pub is_writable : Bool

-- `_finalized_regular`
unfoldable pub finalized_regular : Bool → PathState → Result EvaluationError (Unit {0})
finalized_regular require_read_only path = do
  raise_if path.is_symlink symbolic_link
  raise_if (not path.has_metadata) cannot_inspect
  raise_if (not path.is_regular) not_regular
  raise_if (require_read_only && path.is_writable) not_finalized

pub record AlertReport : Type 0 where
  pub raw_result_reference : RawResultReference
  pub rule_id : String
  pub path : String
  pub start_line : ℕ
  pub label : TriageLabel

pub record DecisionsFile : Type 0 where
  pub path : PathState
  pub reports : List AlertReport

-- An occurrence is the key `(raw_sarif_sha256, run_index, result_index)`.
abbrev pub Occurrence : Type 0
Occurrence = RawResultReference

unfoldable pub load_reports :
    Dict Occurrence AlertReport
    → List AlertReport
    → Result EvaluationError (Dict Occurrence AlertReport)
load_reports reports [] = ok reports
load_reports reports (r ∷ rs) = do
  raise_if (contains r.raw_result_reference reports) duplicate_decisions
  load_reports (insert r.raw_result_reference r reports) rs

unfoldable pub load_files :
    Dict Occurrence AlertReport
    → List DecisionsFile
    → Result EvaluationError (Dict Occurrence AlertReport)
unfolding finalized_regular load_reports
load_files reports [] = ok reports
load_files reports (file ∷ files) = do
  finalized_regular true file.path
  loaded ← load_reports reports file.reports
  load_files loaded files

-- `_load_decisions`
unfoldable pub load_decisions :
    List DecisionsFile → Result EvaluationError (Dict Occurrence AlertReport)
unfolding load_files
load_decisions files = load_files [] files

pub record BaselineRecord : Type 0 where
  pub occurrence : Occurrence
  pub label : TriageLabel

pub record LegacyBaselineBinding : Type 0 where
  pub id_prefix : String
  pub raw_sarif_sha256 : Sha256
  pub rule_id : String

pub record LegacyBaselineRow : Type 0 where
  pub id_prefix : String
  pub id_number : ℕ
  pub query : String
  pub file : String
  pub line : ℕ
  pub label : TriageLabel

pub record LegacyBaselineFile : Type 0 where
  pub path : PathState
  pub rows : List LegacyBaselineRow

abbrev pub prefix_of : LegacyBaselineBinding → String
prefix_of binding = binding.id_prefix

-- One row of the legacy baseline.
unfoldable pub bind_row :
    Dict Occurrence AlertReport
    → Dict String LegacyBaselineBinding
    → LegacyBaselineRow
    → Result EvaluationError BaselineRecord
bind_row decisions by_prefix row = do
  binding ← or_raise (lookup row.id_prefix by_prefix) no_binding
  let key : Occurrence = record {
    raw_sarif_sha256 = binding.raw_sarif_sha256;
    run_index = 0;
    result_index = row.id_number;
  }
  report ← or_raise (lookup key decisions) no_decision
  raise_if
      (not (report.rule_id == binding.rule_id)
        || (not (row.query == binding.rule_id)
            || (not (row.file == report.path) || not (row.line == report.start_line))))
      cross_check
  ok (record { occurrence = key; label = row.label })

-- `bind_legacy_baseline_after_finalization`
unfoldable pub bind_legacy_baseline :
    List DecisionsFile
    → LegacyBaselineFile
    → List LegacyBaselineBinding
    → Result EvaluationError (List BaselineRecord)
unfolding load_decisions finalized_regular index_by bind_row map_result
bind_legacy_baseline files baseline bindings = do
  decisions ← load_decisions files
  finalized_regular false baseline.path
  let by_prefix = index_by prefix_of bindings
  raise_if (not (length by_prefix == length bindings)) duplicate_prefixes
  map_result (bind_row decisions by_prefix) baseline.rows

-- The loop over the baseline.
unfoldable pub human_labels :
    Dict Occurrence TriageLabel
    → List BaselineRecord
    → Result EvaluationError (Dict Occurrence TriageLabel)
human_labels human [] = ok human
human_labels human (r ∷ rs) = do
  raise_if (contains r.occurrence human) duplicate_baseline
  human_labels (insert r.occurrence r.label human) rs
