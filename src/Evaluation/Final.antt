-- ===== src/Evaluation/Final.antt =====
-- `evaluate_final_decisions` of src/evitriage/evaluation.py.
use evi_triage_ql.Prelude.{List, [], map, nat_eq, string_eq, Result, ok, ◌>>◌, ◌>>=◌, values}
use evi_triage_ql.Evidence.{reference_eq}
use evi_triage_ql.Triage.{label_eq}
use evi_triage_ql.Evaluation.{
  EvaluationError, DecisionsFile, load_decisions, BaselineRecord, human_labels,
}
use evi_triage_ql.Evaluation.Summary.{
  row_of, all_keys, BaselineEvaluation, validate_rates, report_label, summary,
}

-- `evaluate_final_decisions`
unfoldable pub evaluate_final_decisions :
    List DecisionsFile → List BaselineRecord → Result EvaluationError BaselineEvaluation
unfolding load_decisions human_labels all_keys row_of
evaluate_final_decisions files baseline = do
  reports ← load_decisions files
  let automatic = map report_label reports
  human ← human_labels [] baseline
  let evaluation = summary (map (row_of automatic human) (all_keys automatic human)) (values human)
  validate_rates evaluation
  ok evaluation
