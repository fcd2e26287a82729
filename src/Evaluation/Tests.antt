-- ===== src/Evaluation/Tests.antt =====
-- Runs of src/evitriage/evaluation.py: two decisions, one of them labelled.
use evi_triage_ql.Prelude.{
  ◌≡◌, refl, true, false, List, [], ◌∷◌, map, ok, err, lookup, contains, insert, filter,
}
use evi_triage_ql.Evidence.{RawResultReference, reference_beq}
use evi_triage_ql.Triage.{tp, fp, TriageLabel-discrete}
use evi_triage_ql.Evaluation.{PathState, AlertReport, BaselineRecord, not_finalized}
use evi_triage_ql.Evaluation.Summary.{
  EvaluationRow, row_of, BaselineEvaluation, validate_rates, summary,
}
use evi_triage_ql.Evaluation.Final.{evaluate_final_decisions}
use evi_triage_ql.Evaluation.Cases.{
  IsConsistent, IsInputError, evaluate-IsConsistent, evaluate-IsInputError,
}

abbrev first : RawResultReference
first = record { raw_sarif_sha256 = 7; run_index = 0; result_index = 0 }

abbrev second : RawResultReference
second = record { raw_sarif_sha256 = 7; run_index = 0; result_index = 1 }

abbrev reports : List AlertReport
reports =
    record {
      raw_result_reference = second;
      rule_id = "java/xss";
      path = "A.java";
      start_line = 3;
      label = fp;
    }
    ∷ record {
      raw_result_reference = first;
      rule_id = "java/xss";
      path = "B.java";
      start_line = 9;
      label = tp;
    }
    ∷ []

abbrev finalized : PathState
finalized = record {
  is_symlink = false;
  has_metadata = true;
  is_regular = true;
  is_writable = false;
}

abbrev unfinished : PathState
unfinished = record finalized { is_writable = true }

abbrev baseline : List BaselineRecord
baseline = record { occurrence = second; label = tp } ∷ []

abbrev rows : List EvaluationRow
rows = map (row_of ((second, fp) ∷ (first, tp) ∷ []) ((second, tp) ∷ [])) (first ∷ second ∷ [])

abbrev evaluation : BaselineEvaluation
evaluation = summary rows (tp ∷ [])

evaluation_run :
    evaluate_final_decisions (record { path = finalized; reports = reports } ∷ []) baseline
    ≡ ok evaluation
unfolding evaluate_final_decisions summary lookup contains insert filter reference_beq
    TriageLabel-discrete validate_rates
evaluation_run = refl

evaluate-IsConsistent_example : IsConsistent evaluation
evaluate-IsConsistent_example =
    evaluate-IsConsistent (record { path = finalized; reports = reports } ∷ []) baseline evaluation
      evaluation_run

unfinished_run :
    evaluate_final_decisions (record { path = unfinished; reports = reports } ∷ []) baseline
    ≡ err not_finalized
unfolding evaluate_final_decisions
unfinished_run = refl

evaluate-IsInputError_example : IsInputError not_finalized
evaluate-IsInputError_example =
    evaluate-IsInputError (record { path = unfinished; reports = reports } ∷ []) baseline
      not_finalized unfinished_run
