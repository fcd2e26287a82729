-- ===== src/ContextBuilder/Placed.antt =====
-- The ranges that the policies of src/evitriage/context/builder.py select, and the references that they
-- are selected for.
use evi_triage_ql.Prelude.{
  ℕ, ◌+◌, ◌≤◌, ◌≡◌, refl, sym, subst, inl, inr, true, String, Option, none, some, List, map, arith,
  length, ltb, Bool-cases, In, In-append, map-In, collect-In, ok, ◌==◌, nat_eq,
}
use evi_triage_ql.Evidence.{SourceLocation, utf16_code_units}
use evi_triage_ql.Alerts.{
  NormalizedAlert, DataFlowPath, PathStep, check_region, validate_region_order,
}
use evi_triage_ql.Context.{
  ContextPolicyName, fixed_window, path_function_slice, ReferenceKind, additional, related,
  is_on_path, ContextReference, validate_path_coordinates,
}
use evi_triage_ql.ContextBuilder.{SourceDocument, Selection, JavaPatterns}
use evi_triage_ql.ContextBuilder.Callable.{Callable, enclosing_java_function}
use evi_triage_ql.ContextBuilder.Enclosing.{Encloses, enclosing_java_function-Encloses}
use evi_triage_ql.ContextBuilder.Selecting.{
  or_else, reference_at, last_line, fixed_window_select, around, path_function_select, select,
  alert_references, step_reference_kind, step_reference, path_references, coordinate_error,
}

-- A location as the records of an alert have it: its lines are positive and its region is ordered.
abbrev pub IsPlaced : SourceLocation → Type 0
IsPlaced l = (1 ≤ l.start_line) × (validate_region_order l ≡ ok tt)

start-le-last : (l : SourceLocation) → IsPlaced l → l.start_line ≤ last_line l
unfolding validate_region_order check_region
start-le-last l (p, h) = go l.end_line l.end_column h
  where
    go :
        (line column : Option ℕ)
        → check_region l.start_line l.start_column line column ≡ ok tt
        → l.start_line ≤ or_else line l.start_line
    go none column h = omega arith
    go (some m) none h = ground arith
    go (some m) (some c) h = ground arith

-- A selected range: it starts at a line of the file and is not empty.
abbrev pub IsRange : Selection → Type 0
IsRange s = (1 ≤ s.start_line) × (s.start_line ≤ s.end_line)

-- It is around the location.
abbrev pub Covers : Selection → SourceLocation → Type 0
Covers s l = (1 ≤ s.start_line) × (s.start_line ≤ l.start_line) × (l.start_line ≤ s.end_line)

coordinate_error-within :
    (number : ℕ → String) (doc : SourceDocument) (l : SourceLocation)
    → coordinate_error number doc l ≡ none
    → l.start_line ≤ length doc.lines
unfolding coordinate_error
coordinate_error-within number doc l h = elim (Bool-cases (ltb (length doc.lines) l.start_line)) [
  | inl q ↦ absurd (let k : some _ ≡ none = rw q at h in cc k)
  | inr q ↦ ground arith
]

fixed_window-Covers :
    (radius : ℕ) (doc : SourceDocument) (l : SourceLocation)
    → IsPlaced l
    → l.start_line ≤ length doc.lines
    → Covers (fixed_window_select radius doc l) l
unfolding fixed_window_select
fixed_window-Covers radius doc l p h = let last = start-le-last l p in ground (arith, p.0)

module _ (patterns : JavaPatterns) (number : ℕ → String) where
  around-Covers :
      (radius : ℕ) (doc : SourceDocument) (l : SourceLocation) (f : Option Callable)
      → IsPlaced l
      → l.start_line ≤ length doc.lines
      → ((g : Callable) → f ≡ some g → Encloses doc.text l.start_line g)
      → Covers (around patterns number radius doc l f) l
  unfolding around
  around-Covers radius doc l none p h e = fixed_window-Covers radius doc l p h
  around-Covers radius doc l (some g) p h e = let w = e g refl in (w.positive, w.starts, w.ends)

  -- With either policy the range that is selected for a location of the file contains the line that
  -- the location starts at.
  pub select-Covers :
      (policy : ContextPolicyName) (doc : SourceDocument) (l : SourceLocation)
      → IsPlaced l
      → coordinate_error number doc l ≡ none
      → Covers (select patterns number policy doc l) l
  unfolding select path_function_select
  select-Covers fixed_window doc l p h =
      fixed_window-Covers 5 doc l p (coordinate_error-within number doc l h)
  select-Covers path_function_slice doc l p h =
      around-Covers 5 doc l (enclosing_java_function patterns doc.text l.start_line) p
        (coordinate_error-within number doc l h)
        (enclosing_java_function-Encloses patterns doc.text l.start_line)

-- A reference whose kind and path coordinates agree.
abbrev pub IsReference : ContextReference → Type 0
IsReference r = validate_path_coordinates r ≡ ok tt

step_kind-on_path : (count index : ℕ) → is_on_path (step_reference_kind count index) ≡ true
unfolding step_reference_kind
step_kind-on_path count index = elim (Bool-cases (index == 0)) [
  | inl q ↦ rw q
  | inr q ↦ elim (Bool-cases (index + 1 == count)) [ inl p ↦ rw (q, p) | inr p ↦ rw (q, p) ]
]

step_reference-IsReference :
    (path : DataFlowPath) (step : PathStep) → IsReference (step_reference path step)
unfolding validate_path_coordinates
step_reference-IsReference path step =
    rw (step_kind-on_path (length path.steps) step.index, validate_path_coordinates)

located :
    (kind : ReferenceKind) (ls : List SourceLocation) (r : ContextReference)
    → IsReference (
        reference_at kind (record {
          path = "";
          column_kind = utf16_code_units;
          start_line = 0;
          start_column = 0;
          end_line = none;
          end_column = none;
          artifact_sha256 = none;
          snippet = none;
        }))
    → In r (map (reference_at kind) ls)
    → IsReference r
unfolding validate_path_coordinates
located kind ls r h m =
    let (l, n, e) = map-In (reference_at kind) r ls m in subst IsReference (sym e) h

-- Every reference of an alert is well-formed.
pub alert_references-IsReference :
    {Severity Json : Type 0} (alert : NormalizedAlert Severity Json) (r : ContextReference)
    → In r (alert_references alert)
    → IsReference r
unfolding alert_references validate_path_coordinates
alert_references-IsReference alert r (inl e) = subst IsReference (sym e) refl
alert_references-IsReference alert r (inr m) = elim (In-append r _ _ m) [
  | inl n ↦ located additional alert.additional_locations r refl n
  | inr n ↦ elim (In-append r _ _ n) [
    | inl k ↦ located related alert.related_locations r refl k
    | inr k ↦
        let (path, _, j) = collect-In path_references r alert.paths k in
        let (step, _, e) = map-In (step_reference path) r path.steps j in
        subst IsReference (sym e) (step_reference-IsReference path step)
  ]
]
