-- ===== src/Evaluation/Tally.antt =====
-- The sums of the confusion matrix of src/evitriage/evaluation.py.
use evi_triage_ql.Prelude.{
  ℕ, suc, ◌+◌, ◌≡◌, refl, sym, ap, subst, ◌∙◌, inl, inr, Bool, true, false, Option, none, some,
  List, [], ◌∷◌, map, length, filter, In, filter-In, map-In, lookup, Dict, ◌==◌, Bool-cases, arith,
}
use evi_triage_ql.Evidence.{reference_eq}
use evi_triage_ql.Triage.{TriageLabel, tp, fp, nmc, label_eq, TriageLabel-discrete}
use evi_triage_ql.Evaluation.{Occurrence}
use evi_triage_ql.Evaluation.Summary.{
  EvaluationRow, agree, row_of, Matrix, bump, fill, confusion_matrix, count, is_aligned, agrees,
  automatic_of,
}

abbrev pub row_sum : Matrix → TriageLabel → ℕ
row_sum m e = m e tp + (m e fp + m e nmc)

abbrev pub column_sum : Matrix → TriageLabel → ℕ
column_sum m a = m tp a + (m fp a + m nmc a)

abbrev pub cells : Matrix → ℕ
cells m = column_sum m tp + (column_sum m fp + column_sum m nmc)

abbrev pub diagonal : Matrix → ℕ
diagonal m = m tp tp + (m fp fp + m nmc nmc)

abbrev pub baseline_of : EvaluationRow → Option TriageLabel
baseline_of row = row.baseline_label

-- The row has both labels, and says whether they are the same.
abbrev IsAligned : EvaluationRow → Type 0
IsAligned row =
    (e : TriageLabel) × (a : TriageLabel) × (row.baseline_label ≡ some e)
    × (row.automatic_label ≡ some a)
    × (row.agreement ≡ some (a == e))

abbrev one_if : Bool → ℕ
one_if true = 1
one_if false = 0

bump-cells : (m : Matrix) (e a : TriageLabel) → cells (bump m (some e) (some a)) ≡ suc (cells m)
unfolding bump TriageLabel-discrete
bump-cells m e a = grind arith

bump-diagonal :
    (m : Matrix) (e a : TriageLabel)
    → diagonal (bump m (some e) (some a)) ≡ one_if (a == e) + diagonal m
unfolding bump TriageLabel-discrete
bump-diagonal m e a = grind arith

bump-column_sum :
    (m : Matrix) (e a l : TriageLabel)
    → column_sum (bump m (some e) (some a)) l ≡ one_if (a == l) + column_sum m l
unfolding bump TriageLabel-discrete
bump-column_sum m e a l = grind arith

bump-row_sum :
    (m : Matrix) (e a l : TriageLabel)
    → row_sum (bump m (some e) (some a)) l ≡ one_if (e == l) + row_sum m l
unfolding bump TriageLabel-discrete
bump-row_sum m e a l = grind arith

count_cons :
    (l a : TriageLabel) (xs : List (Option TriageLabel))
    → count l (some a ∷ xs) ≡ one_if (a == l) + count l xs
unfolding count
count_cons l a xs = elim (Bool-cases (a == l)) [
  | inl h ↦ rw h (omega arith)
  | inr h ↦ rw h (omega arith)
]

-- The count of the labels of rows, by the first one's label.
count_first :
    (label_of : EvaluationRow → Option TriageLabel) (l a : TriageLabel) (row : EvaluationRow)
    (rows : List EvaluationRow)
    → label_of row ≡ some a
    → count l (map label_of (row ∷ rows)) ≡ one_if (a == l) + count l (map label_of rows)
count_first label_of l a row rows p =
    subst (λ x. count l (x ∷ map label_of rows) ≡ one_if (a == l) + count l (map label_of rows))
      (sym p) (count_cons l a (map label_of rows))

length-filter :
    (p : EvaluationRow → Bool) (row : EvaluationRow) (rows : List EvaluationRow) (b : Bool)
    → p row ≡ b
    → length (filter p (row ∷ rows)) ≡ one_if b + length (filter p rows)
unfolding filter
length-filter p row rows true h = rw h (omega arith)
length-filter p row rows false h = rw h (omega arith)

agrees_cons :
    (row : EvaluationRow) (rows : List EvaluationRow) (b : Bool)
    → row.agreement ≡ some b
    → length (filter agrees (row ∷ rows)) ≡ one_if b + length (filter agrees rows)
agrees_cons row rows b h =
    length-filter agrees row rows b
      (ap (λ (o : Option Bool). elim o [ some b ↦ b | none ↦ false ]) h)

-- The sums of the matrix `n` exceed those of `m` by the counts of the rows.
abbrev IsCounted : Matrix → List EvaluationRow → Matrix → Type 0
IsCounted m rows n =
    (cells n ≡ cells m + length rows)
    × (diagonal n ≡ diagonal m + length (filter agrees rows))
    × ((l : TriageLabel) → column_sum n l ≡ column_sum m l + count l (map automatic_of rows))
    × ((l : TriageLabel) → row_sum n l ≡ row_sum m l + count l (map baseline_of rows))

fill-IsCounted :
    (m : Matrix) (rows : List EvaluationRow)
    → ((row : EvaluationRow) → In row rows → IsAligned row)
    → IsCounted m rows (fill m rows)
unfolding fill filter count
fill-IsCounted m [] h = (omega arith, omega arith, λ l. omega arith, λ l. omega arith)
fill-IsCounted m (row ∷ rows) h =
    let (e, a, pe, pa, same) = h row (inl refl) in
    let n = bump m row.baseline_label row.automatic_label in
    let is_bump : n ≡ bump m (some e) (some a) =
      ap (λ x. bump m x row.automatic_label) pe ∙ ap (bump m (some e)) pa in
    let (c, d, s, t) = fill-IsCounted n rows (λ r m. h r (inr m)) in
    (
      c ∙ (let q = ap cells is_bump ∙ bump-cells m e a in omega arith),
      d
          ∙ (let q = ap diagonal is_bump ∙ bump-diagonal m e a in
              let k = agrees_cons row rows (a == e) same in omega arith),
      λ l.
          s l
          ∙ (let q = ap (λ x. column_sum x l) is_bump ∙ bump-column_sum m e a l in
              let k = count_first automatic_of l a row rows pa in omega arith),
      λ l.
          t l
          ∙ (let q = ap (λ x. row_sum x l) is_bump ∙ bump-row_sum m e a l in
              let k = count_first baseline_of l e row rows pe in omega arith),
    )

-- The row of an occurrence, by what the two dictionaries store.
labelled :
    (x y : Option TriageLabel) (b : Option Bool)
    → agree x y ≡ b
    → elim b [ some c ↦ true | none ↦ false ] ≡ true
    → (e : TriageLabel) × (a : TriageLabel) × (y ≡ some e)
      × (x ≡ some a)
      × (agree x y ≡ some (a == e))
labelled (some a) (some e) b h t = (e, a, refl, refl, refl)
labelled (some a) none (some b) h t = absurd (cc h)
labelled (some a) none none h t = absurd (cc t)
labelled none y (some b) h t = absurd (cc h)
labelled none y none h t = absurd (cc t)

-- An aligned row of two dictionaries has both labels.
row_of-IsAligned :
    (automatic human : Dict Occurrence TriageLabel) (ks : List Occurrence) (row : EvaluationRow)
    → In row (filter is_aligned (map (row_of automatic human) ks))
    → IsAligned row
unfolding row_of
row_of-IsAligned automatic human ks row m =
    let (n, t) = filter-In is_aligned row _ m in
    let (k, _, q) = map-In (row_of automatic human) row ks n in
    let s : is_aligned (row_of automatic human k) ≡ true = subst (λ r. is_aligned r ≡ true) q t in
    subst IsAligned (sym q) (labelled (lookup k automatic) (lookup k human) _ refl s)

-- The sums of the matrix of the aligned rows of two dictionaries.
pub confusion_matrix-sums :
    (automatic human : Dict Occurrence TriageLabel) (ks : List Occurrence)
    (aligned : List EvaluationRow)
    → aligned ≡ filter is_aligned (map (row_of automatic human) ks)
    → (cells (confusion_matrix aligned) ≡ length aligned)
      × (diagonal (confusion_matrix aligned) ≡ length (filter agrees aligned))
      × ((l : TriageLabel)
          → column_sum (confusion_matrix aligned) l ≡ count l (map automatic_of aligned))
      × ((l : TriageLabel)
          → row_sum (confusion_matrix aligned) l ≡ count l (map baseline_of aligned))
unfolding confusion_matrix
confusion_matrix-sums automatic human ks aligned same =
    let (c, d, s, t) =
      fill-IsCounted (λ e a. 0) aligned
        (λ row m. row_of-IsAligned automatic human ks row (subst (In row) same m)) in
    (c ∙ omega arith, d ∙ omega arith, λ l. s l ∙ omega arith, λ l. t l ∙ omega arith)
