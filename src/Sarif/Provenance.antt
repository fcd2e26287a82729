-- ===== src/Sarif/Provenance.antt =====
-- The bundle that `SarifNormalizer.normalize` (src/evitriage/sarif/normalizer.py) returns: where its
-- alerts come from, in what order, and the validators of src/evitriage/domain/alerts.py.
use evi_triage_ql.Prelude.{
  ℕ, ◌+◌, String, ◌≡◌, refl, sym, subst, inl, inr, Bool, true, false, not, ◌&&◌, ◌||◌, Option, none,
  some, List, [], ◌∷◌, ◌++◌, map, ◌==◌, nat_eq, string_eq, ltb, leb, is_empty, ok, arith, elem,
  elem-In, In, Bool-cases, raise_if_intro,
}
use evi_triage_ql.Evidence.{Sha256}
use evi_triage_ql.Alerts.{
  DataFlowPath, counts_from, validate_step_indexes, NormalizedAlert, AlertBundle, same_commit,
  pair_eq, validate_pack_provenance, check_alerts, validate_alert_provenance,
}
use evi_triage_ql.Alerts.Bundle.{reference_of}
use evi_triage_ql.Sarif.Normalized.{AreFrom}

abbrev ordinal_of : DataFlowPath → ℕ
ordinal_of path = path.ordinal

counts_first :
    (n m : ℕ) (xs : List ℕ) → m ≡ n → counts_from (n + 1) xs ≡ true → counts_from n (m ∷ xs) ≡ true
unfolding counts_from
counts_first n m xs e h = ground arith

pub AreFrom-counts :
    (n : ℕ) (paths : List DataFlowPath)
    → AreFrom n paths
    → counts_from n (map ordinal_of paths) ≡ true
unfolding AreFrom counts_from
AreFrom-counts n [] h = refl
AreFrom-counts n (path ∷ paths) (h, hs) =
    counts_first n path.ordinal _ h.0 (AreFrom-counts (n + 1) paths hs)

pub AreFrom-In :
    (n : ℕ) (paths : List DataFlowPath)
    → AreFrom n paths
    → (path : DataFlowPath) → In path paths
    → validate_step_indexes path ≡ ok tt
unfolding AreFrom
AreFrom-In n [] h path m = absurd m
AreFrom-In n (x ∷ xs) (h, hs) path m = elim m [
  | inl e ↦ subst (λ z. validate_step_indexes z ≡ ok tt) (sym e) h.1
  | inr k ↦ AreFrom-In (n + 1) xs hs path k
]

-- The second pair of indexes is not before the first.
abbrev follows : ℕ × ℕ → ℕ × ℕ → Bool
follows x y = ltb x.0 y.0 || ((x.0 == y.0) && leb x.1 y.1)

abbrev next_of : ℕ × ℕ → ℕ × ℕ
next_of x = (x.0, x.1 + 1)

follows_trans : (x y z : ℕ × ℕ) → follows x y ≡ true → follows y z ≡ true → follows x z ≡ true
follows_trans x y z h k = ground arith

follows_next : (x y : ℕ × ℕ) → follows x y ≡ true → follows (next_of y) x ≡ false
follows_next x y h = ground arith

follows_refl : (x : ℕ × ℕ) → follows x x ≡ true
follows_refl x = ground arith

same_commit_refl : (c : Option Sha256) → same_commit c c ≡ true
same_commit_refl none = refl
same_commit_refl (some c) = ground arith

next_follows : (x : ℕ × ℕ) → follows x (next_of x) ≡ true
next_follows x = ground arith

follows_run : (x : ℕ × ℕ) → follows x (x.0 + 1, 0) ≡ true
follows_run x = ground arith

-- A seen reference is before every later one.
unfoldable AreBefore : List (ℕ × ℕ) → ℕ × ℕ → Type 0
AreBefore seen x = (y : ℕ × ℕ) → In y seen → follows (next_of y) x ≡ true

not_seen : (seen : List (ℕ × ℕ)) (x : ℕ × ℕ) → AreBefore seen x → elem x seen ≡ false
unfolding AreBefore
not_seen seen x h = elim (Bool-cases (elem x seen)) [
  | inr e ↦ e
  | inl e ↦ absurd (cc (h x (elem-In x seen e), follows_next x x (follows_refl x)))
]

before_later :
    (seen : List (ℕ × ℕ)) (x y : ℕ × ℕ) → AreBefore seen x → follows x y ≡ true → AreBefore seen y
unfolding AreBefore
before_later seen x y h k z m = follows_trans (next_of z) x y (h z m) k

seen_next :
    (seen : List (ℕ × ℕ)) (x y : ℕ × ℕ)
    → AreBefore seen x
    → follows x y ≡ true
    → AreBefore (y ∷ seen) (next_of y)
unfolding AreBefore
seen_next seen x y h k z m = elim m [
  | inl e ↦ subst (λ w. follows (next_of w) (next_of y) ≡ true) (sym e) (follows_refl (next_of y))
  | inr n ↦
      follows_trans (next_of z) y (next_of y) (follows_trans (next_of z) x y (h z n) k)
        (next_follows y)
]

foreign_false :
    (a b c d : Bool)
    → a ≡ true
    → b ≡ true
    → c ≡ true
    → d ≡ true
    → (not a || (not b || (not c || not d))) ≡ false
foreign_false a b c d p q r s = ground arith

module _ {Severity Json : Type 0} (run_id repository : String) (commit : Option Sha256)
    (sarif : Sha256) where
  -- The alert is of the run, the repository, the commit and the file, and what its validators ask for holds of its parts.
  pub record IsOf (alert : NormalizedAlert Severity Json) : Type 0 where
    pub of_run : alert.run_id ≡ run_id
    pub of_repository : alert.repository_identity ≡ repository
    pub of_commit : alert.commit_sha ≡ commit
    pub of_sarif : alert.raw_result_reference.raw_sarif_sha256 ≡ sarif
    pub flows : not (is_empty alert.paths) ≡ alert.has_code_flows
    pub paths : AreFrom 0 alert.paths
    pub pack : validate_pack_provenance alert.rule ≡ ok tt

  -- The alerts follow one another from the given indexes on.
  unfoldable pub AreAfter : ℕ × ℕ → List (NormalizedAlert Severity Json) → Type 0
  AreAfter x [] = Unit
  AreAfter x (alert ∷ alerts) =
      (IsOf alert × (follows x (reference_of alert) ≡ true))
      × AreAfter (next_of (reference_of alert)) alerts

  -- The bundle of some alerts.
  abbrev pub bundle_of : List (NormalizedAlert Severity Json) → AlertBundle Severity Json
  bundle_of alerts = record {
    run_id = run_id;
    repository_identity = repository;
    commit_sha = commit;
    raw_sarif_sha256 = sarif;
    alerts = alerts;
  }

  check_alerts-accepts :
      (all : List (NormalizedAlert Severity Json)) (x : ℕ × ℕ) (seen : List (ℕ × ℕ))
      (alerts : List (NormalizedAlert Severity Json))
      → AreBefore seen x
      → AreAfter x alerts
      → check_alerts (bundle_of all) seen alerts ≡ ok tt
  unfolding check_alerts AreAfter
  check_alerts-accepts all x seen [] h k = refl
  check_alerts-accepts all x seen (alert ∷ alerts) h ((p, f), ps) =
      raise_if_intro _ _ _ _
        (foreign_false _ _ _ _ ((string_eq.beq_iff _ _).1 p.of_run)
          ((string_eq.beq_iff _ _).1 p.of_repository)
          (subst (λ c. same_commit alert.commit_sha c ≡ true) p.of_commit
            (same_commit_refl alert.commit_sha))
          ((nat_eq.beq_iff _ _).1 p.of_sarif))
        (raise_if_intro _ _ _ _
          (not_seen seen (reference_of alert) (before_later seen x (reference_of alert) h f))
          (check_alerts-accepts all (next_of (reference_of alert)) (reference_of alert ∷ seen)
            alerts (seen_next seen x (reference_of alert) h f) ps))

  pub bundle_of-accepted :
      (alerts : List (NormalizedAlert Severity Json))
      → AreAfter (0, 0) alerts
      → validate_alert_provenance (bundle_of alerts) ≡ ok tt
  unfolding validate_alert_provenance AreBefore
  bundle_of-accepted alerts h = check_alerts-accepts alerts (0, 0) [] alerts (λ y m. absurd m) h

  pub AreAfter-In :
      (x : ℕ × ℕ) (alerts : List (NormalizedAlert Severity Json))
      → AreAfter x alerts
      → (alert : NormalizedAlert Severity Json) → In alert alerts
      → IsOf alert
  unfolding AreAfter
  AreAfter-In x [] h alert m = absurd m
  AreAfter-In x (a ∷ rest) ((p, f), ps) alert m = elim m [
    | inl e ↦ subst IsOf (sym e) p
    | inr n ↦ AreAfter-In (next_of (reference_of a)) rest ps alert n
  ]

  -- The alerts have the indexes of the results of a run, one after another.
  unfoldable pub AreOfRun : ℕ × ℕ → List (NormalizedAlert Severity Json) → Type 0
  AreOfRun x [] = Unit
  AreOfRun x (alert ∷ alerts) =
      (IsOf alert × (reference_of alert ≡ x)) × AreOfRun (next_of x) alerts

  earlier-AreAfter :
      (x y : ℕ × ℕ) (alerts : List (NormalizedAlert Severity Json))
      → follows x y ≡ true
      → AreAfter y alerts
      → AreAfter x alerts
  unfolding AreAfter
  earlier-AreAfter x y [] f h = tt
  earlier-AreAfter x y (a ∷ rest) f ((p, g), ps) = ((p, follows_trans x y (reference_of a) f g), ps)

  pub append-AreAfter :
      (x : ℕ × ℕ) (here later : List (NormalizedAlert Severity Json))
      → AreOfRun x here
      → AreAfter (x.0 + 1, 0) later
      → AreAfter x (here ++ later)
  unfolding AreOfRun AreAfter
  append-AreAfter x [] later h k = earlier-AreAfter x (x.0 + 1, 0) later (follows_run x) k
  append-AreAfter x (a ∷ rest) later ((p, e), ps) k = (
    (p, subst (λ y. follows x y ≡ true) (sym e) (follows_refl x)),
    subst (λ y. AreAfter (next_of y) (rest ++ later)) (sym e)
        (append-AreAfter (next_of x) rest later ps k),
  )
