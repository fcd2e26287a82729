-- ===== src/Sarif/Accepted.antt =====
-- The bundle that `SarifNormalizer.normalize` (src/evitriage/sarif/normalizer.py) returns passes the
-- validators of src/evitriage/domain/alerts.py.
use evi_triage_ql.Prelude.{
  if◌then◌else◌, ℕ, ◌+◌, ◌≡◌, refl, subst, raise_if_ok, raise_if_intro, Bool, true, false, not,
  some, List, [], ◌∷◌, ◌++◌, String, nat_eq, string_eq, Dict, Result, ok, err, arith, In,
}
use evi_triage_ql.Alerts.{
  DataFlowPath, validate_step_indexes, NormalizedAlert, AlertBundle, differ,
  validate_path_provenance, validate_pack_provenance, validate_alert_provenance,
}
use evi_triage_ql.Alerts.Bundle.{reference_of}
use evi_triage_ql.Sarif.{SarifError, too_many_results}
use evi_triage_ql.Sarif.Bases.{Snapshot}
use evi_triage_ql.Sarif.Raw.{ReportingDescriptor, SarifResult, Run}
use evi_triage_ql.Sarif.Located.{message_text, Sources, Resolver, lift, each, source_location}
use evi_triage_ql.Sarif.Rules.{
  resolve_rule, index_related, fingerprints_of, Readings, normalize_paths, rule_metadata,
}
use evi_triage_ql.Sarif.Normalize.{
  first_location, within_steps, nonempty_message, json_properties, count_steps, Normalization,
  normalize_result, normalize_results, normalize_run, normalize_runs, after_run, normalize,
}
use evi_triage_ql.Sarif.Normalized.{not_of, Gives, go_on-Gives, anything, normalize_paths-Numbered}
use evi_triage_ql.Sarif.Provenance.{
  IsOf, AreAfter, AreOfRun, AreFrom-counts, AreFrom-In, AreAfter-In, append-AreAfter,
  bundle_of-accepted, bundle_of,
}

cong_not : {a b : Bool} → a ≡ b → not a ≡ not b
cong_not h = rw h

same_differ : (a b : Bool) → not b ≡ a → differ a (not b) ≡ false
same_differ a b h = ground arith

-- The validators of an alert, of its paths and of its rule accept it.
pub record IsValid {Severity Json : Type 0} (alert : NormalizedAlert Severity Json) : Type 0 where
  pub of_alert : validate_path_provenance alert ≡ ok tt
  pub of_paths : (path : DataFlowPath) → In path alert.paths → validate_step_indexes path ≡ ok tt
  pub of_rule : validate_pack_provenance alert.rule ≡ ok tt

module _ {S Value Severity Json : Type 0} (readings : Readings Value Severity Json)
    (sources : Sources S) (snapshot_of : Run Value → Snapshot) (given : Normalization) where
  abbrev Own : NormalizedAlert Severity Json → Type 0
  Own = IsOf given.run_id given.repository_identity given.commit_sha given.raw_sarif_sha256

  abbrev OfRun : ℕ × ℕ → List (NormalizedAlert Severity Json) → Type 0
  OfRun = AreOfRun given.run_id given.repository_identity given.commit_sha given.raw_sarif_sha256

  abbrev After : ℕ × ℕ → List (NormalizedAlert Severity Json) → Type 0
  After = AreAfter given.run_id given.repository_identity given.commit_sha given.raw_sarif_sha256

  -- The alert is the normalizer's and has the given indexes.
  abbrev At : ℕ → ℕ → ℕ × NormalizedAlert Severity Json → Type 0
  At i j one = Own one.1 × (reference_of one.1 ≡ (i, j))

  normalize_result-Own :
      (run : Run Value) (by_id : Dict String (ReportingDescriptor Value)) (i j : ℕ)
      (result : SarifResult Value) (steps : ℕ) (r : Resolver S)
      → Gives
          (At i j)
          (normalize_result readings sources snapshot_of given run by_id i j result steps r)
  unfolding normalize_result Gives rule_metadata validate_pack_provenance
  normalize_result-Own run by_id i j result steps r =
      go_on-Gives (At i j) (lift (resolve_rule result run.rules by_id) r) _ (anything _)
        λ descriptor _ r1.
          go_on-Gives (At i j) (lift (index_related [] result.related_locations) r1) _ (anything _)
            λ related_by_id _ r2.
              go_on-Gives (At i j)
                (each
                  (source_location sources (snapshot_of run) run.artifacts run.column_kind
                    related_by_id)
                  result.locations r2)
                _ (anything _)
                λ locations _ r3.
                  go_on-Gives (At i j)
                    (first_location readings sources snapshot_of given locations r3) _ (anything _)
                    λ first _ r4.
                      go_on-Gives (At i j)
                        (each
                          (source_location sources (snapshot_of run) run.artifacts run.column_kind
                            related_by_id)
                          result.related_locations r4)
                        _ (anything _)
                        λ related _ r5.
                          go_on-Gives (At i j)
                            (normalize_paths readings
                              (source_location sources (snapshot_of run) run.artifacts
                                run.column_kind related_by_id)
                              0 result.code_flows r5)
                            _
                            (normalize_paths-Numbered readings
                              (source_location sources (snapshot_of run) run.artifacts
                                run.column_kind related_by_id)
                              0 result.code_flows r5)
                            λ paths h r6.
                              go_on-Gives (At i j)
                                (within_steps readings sources snapshot_of given
                                  (steps + count_steps paths) r6)
                                _ (anything _)
                                λ _ _ r7.
                                  go_on-Gives (At i j)
                                    (lift (fingerprints_of result.fingerprints) r7) _ (anything _)
                                    λ fingerprints _ r8.
                                      go_on-Gives (At i j)
                                        (lift (fingerprints_of result.partial_fingerprints) r8) _
                                        (anything _)
                                        λ partial _ r9.
                                          go_on-Gives (At i j)
                                            (nonempty_message readings sources snapshot_of given
                                              (message_text (some result.message)) r9)
                                            _ (anything _)
                                            λ message _ r10.
                                              go_on-Gives (At i j)
                                                (lift
                                                  (json_properties readings sources snapshot_of
                                                    given result.properties)
                                                  r10)
                                                _ (anything _)
                                                λ properties _ r11. (
                                                  record {
                                                    of_run = refl;
                                                    of_repository = refl;
                                                    of_commit = refl;
                                                    of_sarif = refl;
                                                    flows = cong_not h.1;
                                                    paths = h.0;
                                                    pack = refl;
                                                  },
                                                  refl,
                                                )

  normalize_results-OfRun :
      (run : Run Value) (by_id : Dict String (ReportingDescriptor Value)) (i j : ℕ)
      (results : List (SarifResult Value)) (steps : ℕ) (r : Resolver S)
      → Gives
          (λ (all : ℕ × List (NormalizedAlert Severity Json)). OfRun (i, j) all.1)
          (normalize_results readings sources snapshot_of given run by_id i j results steps r)
  unfolding normalize_results Gives AreOfRun
  normalize_results-OfRun run by_id i j [] steps r = tt
  normalize_results-OfRun run by_id i j (result ∷ results) steps r =
      go_on-Gives {A = ℕ × NormalizedAlert Severity Json} _
        (normalize_result readings sources snapshot_of given run by_id i j result steps r) _
        (normalize_result-Own run by_id i j result steps r)
        λ one h r1.
          go_on-Gives {A = ℕ × List (NormalizedAlert Severity Json)} _
            (normalize_results readings sources snapshot_of given run by_id i (j + 1) results one.0
              r1)
            _ (normalize_results-OfRun run by_id i (j + 1) results one.0 r1) λ all hs r2. (h, hs)

  normalize_run-OfRun :
      (i : ℕ) (run : Run Value) (steps : ℕ) (system : S)
      → Gives
          (λ (all : ℕ × List (NormalizedAlert Severity Json)). OfRun (i, 0) all.1)
          (normalize_run readings sources snapshot_of given i run steps system)
  unfolding normalize_run
  normalize_run-OfRun i run steps system =
      go_on-Gives _ _ _ (anything _)
        λ by_id _ r. normalize_results-OfRun run by_id i 0 run.results steps r

  -- The alerts that are returned, if any are, follow the first result of a run.
  unfoldable Returns : ℕ → Result SarifError (List (NormalizedAlert Severity Json)) → Type 0
  unfolding AreAfter
  Returns i (ok alerts) = After (i, 0) alerts
  Returns i (err e) = Unit

  joined :
      (i : ℕ) (here : List (NormalizedAlert Severity Json))
      (later : Result SarifError (List (NormalizedAlert Severity Json)))
      → OfRun (i, 0) here
      → Returns (i + 1) later
      → Returns i (elim later as (λ _. Result SarifError (List (NormalizedAlert Severity Json))) [
        | err e ↦ err e
        | ok others ↦ ok (here ++ others)
      ])
  unfolding Returns
  joined i here (err e) h k = tt
  joined i here (ok others) h k = append-AreAfter _ _ _ _ (i, 0) here others h k

  after_run-Returns :
      (i : ℕ) (x : Result SarifError (ℕ × List (NormalizedAlert Severity Json)) × Resolver S)
      (rest : ℕ → S → Result SarifError (List (NormalizedAlert Severity Json)))
      → Gives (λ (all : ℕ × List (NormalizedAlert Severity Json)). OfRun (i, 0) all.1) x
      → ((count : ℕ) (system : S) → Returns (i + 1) (rest count system))
      → Returns i (after_run readings sources snapshot_of given x rest)
  unfolding Gives Returns
  after_run-Returns i (err e, later) rest h k = tt
  after_run-Returns i (ok (count, here), later) rest h k =
      joined i here (rest count later.system) h (k count later.system)

  normalize_runs-Returns :
      (i : ℕ) (runs : List (Run Value)) (steps : ℕ) (system : S)
      → Returns i (normalize_runs readings sources snapshot_of given i runs steps system)
  unfolding normalize_runs Returns AreAfter
  normalize_runs-Returns i [] steps system = tt
  normalize_runs-Returns i (run ∷ runs) steps system =
      after_run-Returns i (normalize_run readings sources snapshot_of given i run steps system)
        (λ count later. normalize_runs readings sources snapshot_of given (i + 1) runs count later)
        (normalize_run-OfRun i run steps system)
        (λ count later. normalize_runs-Returns (i + 1) runs count later)

  Own-IsValid : (alert : NormalizedAlert Severity Json) → Own alert → IsValid alert
  unfolding validate_path_provenance
  Own-IsValid alert h = record {
    of_alert =
        raise_if_intro _ _ _ _ (same_differ _ _ h.flows)
          (raise_if_ok _ _ (not_of _ (AreFrom-counts 0 alert.paths h.paths)));
    of_paths = AreFrom-In 0 alert.paths h.paths;
    of_rule = h.pack;
  }

  returned :
      (b : Bool) (result : Result SarifError (List (NormalizedAlert Severity Json)))
      (bundle : AlertBundle Severity Json)
      → Returns 0 result
      → (if b
          then err too_many_results
          else elim result as (λ _. Result SarifError (AlertBundle Severity Json)) [
            | err e ↦ err e
            | ok alerts ↦ ok (
                bundle_of given.run_id given.repository_identity given.commit_sha
                  given.raw_sarif_sha256 alerts)
          ])
        ≡ ok bundle
      → After (0, 0) bundle.alerts × (validate_alert_provenance bundle ≡ ok tt)
  unfolding Returns
  returned true result bundle h q = absurd (cc q)
  returned false (err e) bundle h q = absurd (cc q)
  returned false (ok alerts) bundle h q =
      let e : bundle_of given.run_id given.repository_identity given.commit_sha
            given.raw_sarif_sha256 alerts
          ≡ bundle =
        cc q in
      subst
        (λ (z : AlertBundle Severity Json).
          After (0, 0) z.alerts × (validate_alert_provenance z ≡ ok tt))
        e (h, bundle_of-accepted _ _ _ _ alerts h)

-- Whatever the files, the rules and the readings are: a bundle that `normalize` returns passes the
-- validators that its constructors call, which are the provenance of the bundle with distinct results,
-- the numbering of the paths of an alert, their presence with code flows, the indexes of the steps of
-- a path and the query pack of a rule.
pub normalize-IsValid :
    {S Value Severity Json : Type 0} (readings : Readings Value Severity Json) (sources : Sources S)
    (snapshot_of : Run Value → Snapshot) (given : Normalization) (runs : List (Run Value))
    (system : S) (bundle : AlertBundle Severity Json)
    → normalize readings sources snapshot_of given runs system ≡ ok bundle
    → (validate_alert_provenance bundle ≡ ok tt)
      × ((alert : NormalizedAlert Severity Json) → In alert bundle.alerts → IsValid alert)
unfolding normalize
normalize-IsValid readings sources snapshot_of given runs system bundle h =
    let (after, accepted) =
      returned readings sources snapshot_of given _ _ bundle
        (normalize_runs-Returns readings sources snapshot_of given 0 runs 0 system) h in
    (
      accepted,
      λ alert m.
          Own-IsValid readings sources snapshot_of given alert
            (AreAfter-In _ _ _ _ (0, 0) bundle.alerts after alert m),
    )
