-- ===== src/Evaluation/Summary.antt =====
-- The rows, the confusion matrix, the metrics and the rates of src/evitriage/evaluation.py.
use evi_triage_ql.Prelude.{
  ℕ, suc, ◌+◌, ◌*◌, Bool, true, false, not, ◌&&◌, ◌||◌, Option, none, some, List, [], ◌∷◌, ◌++◌,
  map, ◌==◌, nat_eq, string_eq, ltb, Result, raise_if, length, filter, Dict, keys, lookup, contains,
  if◌then◌else◌,
}
use evi_triage_ql.Evidence.{reference_eq}
use evi_triage_ql.Triage.{TriageLabel, tp, fp, nmc, label_eq}
use evi_triage_ql.Evaluation.{EvaluationError, AlertReport, Occurrence, rate_out_of_range}

pub record EvaluationRow : Type 0 where
  pub occurrence : Occurrence
  pub automatic_label : Option TriageLabel
  pub baseline_label : Option TriageLabel
  pub agreement : Option Bool

-- The row of an occurrence.
abbrev pub agree : Option TriageLabel → Option TriageLabel → Option Bool
agree (some a) (some b) = some (a == b)
agree (some a) none = none
agree none b = none

unfoldable pub row_of :
    Dict Occurrence TriageLabel → Dict Occurrence TriageLabel → Occurrence → EvaluationRow
unfolding lookup
row_of automatic human key = record {
  occurrence = key;
  automatic_label = lookup key automatic;
  baseline_label = lookup key human;
  agreement = agree (lookup key automatic) (lookup key human);
}

-- The order of the tuples `(raw_sarif_sha256, run_index, result_index)`.
unfoldable pub is_before : Occurrence → Occurrence → Bool
is_before a b =
    ltb a.raw_sarif_sha256 b.raw_sarif_sha256
    || ((a.raw_sarif_sha256 == b.raw_sarif_sha256)
        && (ltb a.run_index b.run_index
            || ((a.run_index == b.run_index) && ltb a.result_index b.result_index)))

unfoldable pub insert_key : Occurrence → List Occurrence → List Occurrence
unfolding is_before
insert_key k [] = k ∷ []
insert_key k (j ∷ js) = let rest = insert_key k js in if is_before j k then j ∷ rest else k ∷ j ∷ js

unfoldable pub sorted_keys : List Occurrence → List Occurrence
unfolding insert_key
sorted_keys [] = []
sorted_keys (k ∷ ks) = insert_key k (sorted_keys ks)

-- `sorted(set(automatic) | set(human))`
unfoldable pub all_keys :
    Dict Occurrence TriageLabel → Dict Occurrence TriageLabel → List Occurrence
unfolding sorted_keys contains filter
all_keys automatic human =
    sorted_keys (keys automatic ++ filter (λ k. not (contains k automatic)) (keys human))

-- The matrix of a human label and an automatic one, and the loop that fills it.
abbrev pub Matrix : Type 0
Matrix = TriageLabel → TriageLabel → ℕ

unfoldable pub bump : Matrix → Option TriageLabel → Option TriageLabel → Matrix
bump m (some expected) (some actual) e a =
    if (expected == e) && (actual == a) then suc (m e a) else m e a
bump m (some expected) none e a = m e a
bump m none actual e a = m e a

unfoldable pub fill : Matrix → List EvaluationRow → Matrix
unfolding bump
fill m [] = m
fill m (row ∷ rows) = fill (bump m row.baseline_label row.automatic_label) rows

unfoldable pub confusion_matrix : List EvaluationRow → Matrix
unfolding fill
confusion_matrix aligned = fill (λ e a. 0) aligned

-- `Counter(...)[label]`, of labels that may be absent
unfoldable pub count : TriageLabel → List (Option TriageLabel) → ℕ
count l [] = 0
count l (none ∷ xs) = count l xs
count l (some x ∷ xs) = let rest = count l xs in if x == l then suc rest else rest

-- A quotient, or zero where the divisor is.
pub record Ratio : Type 0 where
  pub numerator : ℕ
  pub denominator : ℕ

abbrev pub quotient : ℕ → ℕ → Ratio
quotient n d =
    if d == 0
    then record { numerator = 0; denominator = 1 }
    else record { numerator = n; denominator = d }

abbrev pub times : Ratio → Ratio → Ratio
times a b = record {
  numerator = a.numerator * b.numerator;
  denominator = a.denominator * b.denominator;
}

abbrev pub plus : Ratio → Ratio → Ratio
plus a b = record {
  numerator = a.numerator * b.denominator + b.numerator * a.denominator;
  denominator = a.denominator * b.denominator;
}

-- `a / b if b else 0`
abbrev pub over : Ratio → Ratio → Ratio
over a b = quotient (a.numerator * b.denominator) (a.denominator * b.numerator)

pub record ClassMetric : Type 0 where
  pub precision : Ratio
  pub recall : Ratio
  pub f1 : Ratio
  pub support : ℕ

-- The sums of a column and of a row of the matrix, without the diagonal.
abbrev pub others : (TriageLabel → ℕ) → TriageLabel → ℕ
others f tp = f fp + f nmc
others f fp = f tp + f nmc
others f nmc = f tp + f fp

-- `_metric`
unfoldable pub metric : Matrix → TriageLabel → ClassMetric
metric m label =
    let true_positive = m label label in
    let false_positive = others (λ expected. m expected label) label in
    let false_negative = others (m label) label in
    let precision = quotient true_positive (true_positive + false_positive) in
    let recall = quotient true_positive (true_positive + false_negative) in
    record {
      precision = precision;
      recall = recall;
      f1 =
          over (times (record { numerator = 2; denominator = 1 }) (times precision recall))
            (plus precision recall);
      support = true_positive + false_negative;
    }

-- `evaluated_at`, the time, is left out.
pub record BaselineEvaluation : Type 0 where
  pub automatic_counts : TriageLabel → ℕ
  pub baseline_counts : TriageLabel → ℕ
  pub confusion_matrix : Matrix
  pub metrics : TriageLabel → ClassMetric
  pub agreement : Ratio
  pub determined_rate : Ratio
  pub nmc_rate : Ratio
  pub aligned_count : ℕ
  pub missing_automatic : ℕ
  pub missing_baseline : ℕ
  pub rows : List EvaluationRow

-- `BaselineEvaluation.validate_rates`; a quotient of natural numbers is not below zero.
abbrev pub is_out_of_range : Ratio → Bool
is_out_of_range r = ltb r.denominator r.numerator

unfoldable pub validate_rates : BaselineEvaluation → Result EvaluationError (Unit {0})
validate_rates e =
    raise_if
      (is_out_of_range e.agreement
        || (is_out_of_range e.determined_rate || is_out_of_range e.nmc_rate))
      rate_out_of_range

abbrev pub is_missing : Option TriageLabel → Bool
is_missing none = true
is_missing (some _) = false

abbrev pub is_aligned : EvaluationRow → Bool
is_aligned row = elim row.agreement [ some _ ↦ true | none ↦ false ]

abbrev pub agrees : EvaluationRow → Bool
agrees row = elim row.agreement [ some b ↦ b | none ↦ false ]

abbrev pub automatic_of : EvaluationRow → Option TriageLabel
automatic_of row = row.automatic_label

abbrev pub report_label : Occurrence × AlertReport → Occurrence × TriageLabel
report_label (k, r) = (k, r.label)

-- The rates and counts of the rows.
unfoldable pub summary : List EvaluationRow → List TriageLabel → BaselineEvaluation
unfolding confusion_matrix count filter metric
summary rows human =
    let aligned = filter is_aligned rows in
    let m = confusion_matrix aligned in
    let automatic_counts : TriageLabel → ℕ = λ l. count l (map automatic_of aligned) in
    let total = length aligned in
    record {
      automatic_counts = automatic_counts;
      baseline_counts = λ l. count l (map some human);
      confusion_matrix = m;
      metrics = metric m;
      agreement = quotient (length (filter agrees aligned)) total;
      determined_rate = quotient (automatic_counts tp + automatic_counts fp) total;
      nmc_rate = quotient (automatic_counts nmc) total;
      aligned_count = total;
      missing_automatic =
          length (filter (λ (row : EvaluationRow). is_missing row.automatic_label) rows);
      missing_baseline =
          length (filter (λ (row : EvaluationRow). is_missing row.baseline_label) rows);
      rows = rows;
    }
