-- ===== src/Evaluation/Cases.antt =====
-- What `evaluate_final_decisions` of src/evitriage/evaluation.py returns, and what it raises.
use evi_triage_ql.Prelude.{
  ℕ, ◌+◌, ◌≤◌, ◌≡◌, refl, sym, ◌∙◌, ap, subst, Bool, true, false, not, List, [], ◌∷◌, map, length,
  filter, Dict, values, contains, insert, Result, ok, err, raise_if, ◌>>◌, ◌>>=◌, >>=-eq-ok, nat_eq,
  arith,
}
use evi_triage_ql.Evidence.{reference_eq}
use evi_triage_ql.Triage.{TriageLabel, tp, fp, nmc}
use evi_triage_ql.Evaluation.{
  EvaluationError, PathState, finalized_regular, AlertReport, DecisionsFile, Occurrence,
  load_reports, load_files, load_decisions, BaselineRecord, human_labels, symbolic_link,
  cannot_inspect, not_regular, not_finalized, duplicate_decisions, duplicate_baseline,
}
use evi_triage_ql.Evaluation.Summary.{
  EvaluationRow, row_of, all_keys, quotient, BaselineEvaluation, is_out_of_range, validate_rates,
  is_aligned, report_label, Matrix, confusion_matrix, count, metric, summary,
}
use evi_triage_ql.Evaluation.Final.{evaluate_final_decisions}
use evi_triage_ql.Evaluation.Tally.{
  column_sum, row_sum, baseline_of, cells, diagonal, confusion_matrix-sums,
}

-- The evaluation's counts and rates come from one matrix.
abbrev pub IsConsistent : BaselineEvaluation → Type 0
IsConsistent v =
    (cells v.confusion_matrix ≡ v.aligned_count)
    × (v.agreement ≡ quotient (diagonal v.confusion_matrix) v.aligned_count)
    × ((l : TriageLabel) → v.automatic_counts l ≡ column_sum v.confusion_matrix l)
    × (v.determined_rate
        ≡ quotient (column_sum v.confusion_matrix tp + column_sum v.confusion_matrix fp)
            v.aligned_count)
    × (v.nmc_rate ≡ quotient (column_sum v.confusion_matrix nmc) v.aligned_count)
    × ((l : TriageLabel)
        → (v.metrics l).support ≡ count l (map baseline_of (filter is_aligned v.rows)))

-- The support of a class is the sum of its row.
support-row_sum : (m : Matrix) (l : TriageLabel) → (metric m l).support ≡ row_sum m l
unfolding metric
support-row_sum m tp = omega arith
support-row_sum m fp = omega arith
support-row_sum m nmc = omega arith

module _ (automatic human : Dict Occurrence TriageLabel) (ks : List Occurrence)
    (labels : List TriageLabel) where
  abbrev rows : List EvaluationRow
  rows = map (row_of automatic human) ks

  summary-IsConsistent : IsConsistent (summary rows labels)
  unfolding summary
  summary-IsConsistent =
      let (c, d, s, t) = confusion_matrix-sums automatic human ks (filter is_aligned rows) refl in
      (
        c,
        ap (λ n. quotient n (length (filter is_aligned rows))) (sym d),
        λ l. sym (s l),
        ap (λ n. quotient n (length (filter is_aligned rows)))
            (let p = s tp in let q = s fp in omega arith),
        ap (λ n. quotient n (length (filter is_aligned rows))) (sym (s nmc)),
        λ l. support-row_sum (confusion_matrix (filter is_aligned rows)) l ∙ t l,
      )

quotient_range : (n d : ℕ) → n ≤ d → is_out_of_range (quotient n d) ≡ false
quotient_range n d h = ground arith

-- A consistent evaluation passes `validate_rates`.
rates_pass : (v : BaselineEvaluation) → IsConsistent v → validate_rates v ≡ ok tt
unfolding validate_rates
rates_pass v (c, g, a, d, n, _) =
    let p =
      subst (λ r. is_out_of_range r ≡ false) (sym g)
        (quotient_range (diagonal v.confusion_matrix) v.aligned_count (omega arith)) in
    let q =
      subst (λ r. is_out_of_range r ≡ false) (sym d)
        (quotient_range (column_sum v.confusion_matrix tp + column_sum v.confusion_matrix fp)
          v.aligned_count (omega arith)) in
    let r =
      subst (λ r. is_out_of_range r ≡ false) (sym n)
        (quotient_range (column_sum v.confusion_matrix nmc) v.aligned_count (omega arith)) in
    rw (p, q, r) refl

-- The errors of a file or of a repeated occurrence.
pub data IsInputError : EvaluationError → Type 0 where
  link : IsInputError symbolic_link
  no_metadata : IsInputError cannot_inspect
  special : IsInputError not_regular
  writable : IsInputError not_finalized
  decided_twice : IsInputError duplicate_decisions
  labelled_twice : IsInputError duplicate_baseline

abbrev RaisesInput : {A : Type 0} → Result EvaluationError A → Type 0
RaisesInput (ok a) = Unit
RaisesInput (err e) = IsInputError e

guard-RaisesInput :
    {A : Type 0} (b : Bool) (e : EvaluationError) (k : Result EvaluationError A)
    → IsInputError e
    → RaisesInput k
    → RaisesInput (raise_if b e >> k)
guard-RaisesInput true e k i h = i
guard-RaisesInput false e k i h = h

last-RaisesInput : (b : Bool) (e : EvaluationError) → IsInputError e → RaisesInput (raise_if b e)
last-RaisesInput true e i = i
last-RaisesInput false e i = tt

>>=-RaisesInput :
    {A B : Type 0} (m : Result EvaluationError A) (f : A → Result EvaluationError B)
    → RaisesInput m
    → ((a : A) → RaisesInput (f a))
    → RaisesInput (m >>= f)
>>=-RaisesInput (ok a) f h k = k a
>>=-RaisesInput (err e) f h k = h

finalized-RaisesInput : (path : PathState) → RaisesInput (finalized_regular true path)
unfolding finalized_regular
finalized-RaisesInput path = guard-RaisesInput path.is_symlink _ _ link (
    guard-RaisesInput (not path.has_metadata) _ _ no_metadata (
      guard-RaisesInput (not path.is_regular) _ _ special
        (last-RaisesInput path.is_writable _ writable)))

load_reports-RaisesInput :
    (reports : Dict Occurrence AlertReport) (rs : List AlertReport)
    → RaisesInput (load_reports reports rs)
unfolding load_reports
load_reports-RaisesInput reports [] = tt
load_reports-RaisesInput reports (r ∷ rs) =
    guard-RaisesInput (contains r.raw_result_reference reports) _ _ decided_twice
      (load_reports-RaisesInput (insert r.raw_result_reference r reports) rs)

load_files-RaisesInput :
    (reports : Dict Occurrence AlertReport) (files : List DecisionsFile)
    → RaisesInput (load_files reports files)
unfolding load_files
load_files-RaisesInput reports [] = tt
load_files-RaisesInput reports (file ∷ files) =
    >>=-RaisesInput (finalized_regular true file.path) _ (finalized-RaisesInput file.path) (λ _.
      >>=-RaisesInput (load_reports reports file.reports) _
        (load_reports-RaisesInput reports file.reports)
        (λ loaded. load_files-RaisesInput loaded files))

human_labels-RaisesInput :
    (human : Dict Occurrence TriageLabel) (rs : List BaselineRecord)
    → RaisesInput (human_labels human rs)
unfolding human_labels
human_labels-RaisesInput human [] = tt
human_labels-RaisesInput human (r ∷ rs) =
    guard-RaisesInput (contains r.occurrence human) _ _ labelled_twice
      (human_labels-RaisesInput (insert r.occurrence r.label human) rs)

ok_injective :
    {v w : BaselineEvaluation} {r : Result EvaluationError BaselineEvaluation}
    → r ≡ ok v
    → r ≡ ok w
    → v ≡ w
ok_injective p q = cc (p, q)

-- The evaluation of loaded decisions passes the validator and is returned.
evaluated :
    (automatic human : Dict Occurrence TriageLabel) (ks : List Occurrence)
    (labels : List TriageLabel)
    → (validate_rates (summary (map (row_of automatic human) ks) labels)
        >> ok (summary (map (row_of automatic human) ks) labels))
      ≡ ok (summary (map (row_of automatic human) ks) labels)
evaluated automatic human ks labels =
    let passes = rates_pass _ (summary-IsConsistent automatic human ks labels) in
    ap
      (λ (r : Result EvaluationError (Unit {0})).
        r >> ok (summary (map (row_of automatic human) ks) labels))
      passes

-- Evaluation fails only for its input: a file that is a link, cannot be inspected, is not regular or
-- is not read-only, or an occurrence that is decided or labelled twice. The rates never leave [0, 1].
pub evaluate-IsInputError :
    (files : List DecisionsFile) (baseline : List BaselineRecord) (e : EvaluationError)
    → evaluate_final_decisions files baseline ≡ err e
    → IsInputError e
unfolding evaluate_final_decisions load_decisions
evaluate-IsInputError files baseline e h =
    let r : RaisesInput (evaluate_final_decisions files baseline) =
      >>=-RaisesInput (load_decisions files) _ (load_files-RaisesInput [] files) (λ reports.
        >>=-RaisesInput (human_labels [] baseline) _ (human_labels-RaisesInput [] baseline)
          (λ human.
            subst RaisesInput
              (sym (
                evaluated (map report_label reports) human
                  (all_keys (map report_label reports) human) (values human)))
              tt)) in
    subst RaisesInput h r

-- In a returned evaluation the cells of the confusion matrix add up to the aligned occurrences, the
-- agreement is the share of the diagonal, the automatic counts are the sums of the columns, and the
-- determined and the undetermined share are those of the columns TP and FP together and of NMC, and
-- the support of a label is the number of aligned rows with that human label.
pub evaluate-IsConsistent :
    (files : List DecisionsFile) (baseline : List BaselineRecord) (v : BaselineEvaluation)
    → evaluate_final_decisions files baseline ≡ ok v
    → IsConsistent v
unfolding evaluate_final_decisions
evaluate-IsConsistent files baseline v h =
    let (reports, p, h1) = >>=-eq-ok (load_decisions files) _ h in
    let (human, q, h2) = >>=-eq-ok (human_labels [] baseline) _ h1 in
    let automatic = map report_label reports in
    let ks = all_keys automatic human in
    let same : summary (map (row_of automatic human) ks) (values human) ≡ v =
      ok_injective (evaluated automatic human ks (values human)) h2 in
    subst IsConsistent same (summary-IsConsistent automatic human ks (values human))
