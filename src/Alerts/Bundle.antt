-- ===== src/Alerts/Bundle.antt =====
-- What the validator of an alert bundle (src/evitriage/domain/alerts.py) accepts.
use evi_triage_ql.Prelude.{
  ℕ, ◌≡◌, refl, sym, subst, inl, inr, Bool, true, false, not, ◌||◌, List, [], ◌∷◌, map, nat_eq,
  string_eq, ok, raise_if_elim, elem, elem-In, In-elem, In, map-In, Unique, Bool-cases, arith,
}
use evi_triage_ql.Alerts.{
  NormalizedAlert, AlertBundle, same_commit, pair_eq, check_alerts, validate_alert_provenance,
}

belongs_of :
    (a b c d : Bool)
    → (not a || (not b || (not c || not d))) ≡ false
    → (a ≡ true) × (b ≡ true) × (c ≡ true) × (d ≡ true)
belongs_of true true true true h = (refl, refl, refl, refl)
belongs_of false b c d h = cc h
belongs_of true false c d h = cc h
belongs_of true true false d h = cc h
belongs_of true true true false h = cc h

older_false : (a x : ℕ × ℕ) (seen : List (ℕ × ℕ)) → elem a (x ∷ seen) ≡ false → elem a seen ≡ false
unfolding elem
older_false a x seen h = ground arith

module _ {Severity Json : Type 0} where
  -- The run and result indexes of an alert.
  abbrev pub reference_of : NormalizedAlert Severity Json → ℕ × ℕ
  reference_of alert =
      (alert.raw_result_reference.run_index, alert.raw_result_reference.result_index)

  -- The alert is of the bundle's run, repository, commit and SARIF file.
  pub record BelongsTo (bundle : AlertBundle Severity Json) (alert : NormalizedAlert Severity Json)
      : Type 0 where
    pub run : alert.run_id ≡ bundle.run_id
    pub repository : alert.repository_identity ≡ bundle.repository_identity
    pub commit : same_commit alert.commit_sha bundle.commit_sha ≡ true
    pub sarif : alert.raw_result_reference.raw_sarif_sha256 ≡ bundle.raw_sarif_sha256

  later_distinct :
      (x : NormalizedAlert Severity Json) (xs : List (NormalizedAlert Severity Json))
      (seen : List (ℕ × ℕ))
      → ((y : NormalizedAlert Severity Json)
          → In y xs
          → elem (reference_of y) (reference_of x ∷ seen) ≡ false)
      → elem (reference_of x) (map reference_of xs) ≡ false
  later_distinct x xs seen h = elim (Bool-cases (elem (reference_of x) (map reference_of xs))) [
    | inr e ↦ e
    | inl e ↦
        let (y, m, p) = map-In reference_of (reference_of x) xs (elem-In _ _ e) in
        let q : elem (reference_of y) (reference_of x ∷ seen) ≡ true =
          In-elem (reference_of y) (reference_of x ∷ seen) (inl (sym p)) in
        let n = h y m in cc (q, n)
  ]

  check_alerts_elim :
      (bundle : AlertBundle Severity Json) (seen : List (ℕ × ℕ))
      (alerts : List (NormalizedAlert Severity Json))
      → check_alerts bundle seen alerts ≡ ok tt
      → ((y : NormalizedAlert Severity Json)
          → In y alerts
          → BelongsTo bundle y × (elem (reference_of y) seen ≡ false))
        × Unique (map reference_of alerts)
  unfolding check_alerts
  check_alerts_elim bundle seen [] h = (λ y m. absurd m, tt)
  check_alerts_elim bundle seen (x ∷ xs) h =
      let (a, h1) = raise_if_elim _ _ _ _ h in
      let (b, h2) = raise_if_elim _ _ _ _ h1 in
      let (rest, unique) = check_alerts_elim bundle (reference_of x ∷ seen) xs h2 in
      let (p, q, r, s) = belongs_of _ _ _ _ a in
      let here : BelongsTo bundle x × (elem (reference_of x) seen ≡ false) = (
        record {
          run = (string_eq.beq_iff _ _).0 p;
          repository = (string_eq.beq_iff _ _).0 q;
          commit = r;
          sarif = (nat_eq.beq_iff _ _).0 s;
        },
        b,
      ) in
      (
        λ y m. elim m [
          | inl e ↦
              subst (λ z. BelongsTo bundle z × (elem (reference_of z) seen ≡ false)) (sym e) here
          | inr n ↦ ((rest y n).0, older_false _ _ seen (rest y n).1)
        ],
        (later_distinct x xs seen (λ y n. (rest y n).1), unique),
      )

-- In a bundle that its validator accepts every alert is of the bundle's run, repository, commit and
-- SARIF file, and no two alerts are of the same result of that file.
pub validate_alert_provenance-BelongsTo :
    {Severity Json : Type 0} (bundle : AlertBundle Severity Json)
    → validate_alert_provenance bundle ≡ ok tt
    → ((y : NormalizedAlert Severity Json) → In y bundle.alerts → BelongsTo bundle y)
      × Unique (map reference_of bundle.alerts)
unfolding validate_alert_provenance
validate_alert_provenance-BelongsTo bundle h =
    let (a, u) = check_alerts_elim bundle [] bundle.alerts h in (λ y m. (a y m).0, u)
