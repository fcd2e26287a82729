-- ===== src/Manifest/Audit.antt =====
-- What the validator of a manifest accepts, check by check, and how it treats one more event.
use evi_triage_ql.Prelude.{
  ℕ, suc, ◌+◌, ◌≡◌, refl, ap, ◌∙◌, subst, Bool, true, false, not, ◌&&◌, ◌||◌, List, [], ◌∷◌, ◌++◌,
  map, arith, ◌==◌, nat_eq, string_eq, ltb, ok, >>=-eq-ok, >>_elim, >>_intro, unless_elim,
  unless_intro, raise_if_elim, raise_if_intro, raise_if-eq-ok, raise_if_ok, any, all, all_elim,
  elem, elem-In, is_unique, length,
}
use evi_triage_ql.Manifest.{
  Sha256, WorkflowState, WorkflowState-discrete, created, project_validated, workspace_ready,
  source_ready, build_ready, codeql_db_ready, scanned, sarif_ingested, context_ready, analyzed,
  rebutted, judged, invalid_sarif, context_incomplete, model_failed, policy_rejected, codeql_failed,
  sarif, scan, running, completed, failed, state_eq, mode_eq, status_eq, WorkflowEvent, RunManifest,
  is_failure, transition_is_allowed, is_state, check_event, check_events, to_codeql_branch,
  to_sarif_branch, is_bad_version, last_time, before, is_none, path_of, check_ending, check_start,
  audit_chain_is_consistent, successors,
}

-- The checks on the final state, the status and the times.
pub record IsEnding (m : RunManifest) : Type 0 where
  pub paths : is_unique (map path_of m.artifacts) ≡ true
  pub no_codeql_branch : ((m.input_mode == sarif) && any to_codeql_branch m.events) ≡ false
  pub no_sarif_branch : ((m.input_mode == scan) && any to_sarif_branch m.events) ≡ false
  pub no_codeql_failure : ((m.input_mode == sarif) && (m.state == codeql_failed)) ≡ false
  pub running_open : ((m.status == running) && not (is_none m.completed_at)) ≡ false
  pub completed_closed :
      ((m.status == completed)
        && (not (elem m.state (context_ready ∷ judged ∷ [])) || is_none m.completed_at))
      ≡ false
  pub failed_closed :
      ((m.status == failed) && (not (is_failure m.state) || is_none m.completed_at)) ≡ false
  pub failure_failed : (not (m.status == failed) && is_failure m.state) ≡ false
  pub updated_after_start : ltb m.updated_at m.started_at ≡ false
  pub completed_after_start : before m.completed_at m.started_at ≡ false
  pub updated_after_event : ltb m.updated_at (last_time 0 m.events) ≡ false
  pub versions : any is_bad_version m.tool_versions ≡ false

check_ending_elim : (m : RunManifest) → check_ending m ≡ ok tt → IsEnding m
unfolding check_ending
check_ending_elim m h =
    let (a, h1) = unless_elim _ _ _ _ h in
    let (b, h2) = raise_if_elim _ _ _ _ h1 in
    let (c, h3) = raise_if_elim _ _ _ _ h2 in
    let (d, h4) = raise_if_elim _ _ _ _ h3 in
    let (e, h5) = raise_if_elim _ _ _ _ h4 in
    let (f, h6) = raise_if_elim _ _ _ _ h5 in
    let (g, h7) = raise_if_elim _ _ _ _ h6 in
    let (i, h8) = raise_if_elim _ _ _ _ h7 in
    let (j, h9) = raise_if_elim _ _ _ _ h8 in
    let (k, h10) = raise_if_elim _ _ _ _ h9 in
    let (l, h11) = raise_if_elim _ _ _ _ h10 in
    record {
      paths = a;
      no_codeql_branch = b;
      no_sarif_branch = c;
      no_codeql_failure = d;
      running_open = e;
      completed_closed = f;
      failed_closed = g;
      failure_failed = i;
      updated_after_start = j;
      completed_after_start = k;
      updated_after_event = l;
      versions = raise_if-eq-ok _ _ h11;
    }

check_ending_intro : (m : RunManifest) → IsEnding m → check_ending m ≡ ok tt
unfolding check_ending
check_ending_intro m w = unless_intro _ _ _ _ w.paths (
    raise_if_intro _ _ _ _ w.no_codeql_branch (
      raise_if_intro _ _ _ _ w.no_sarif_branch (
        raise_if_intro _ _ _ _ w.no_codeql_failure (
          raise_if_intro _ _ _ _ w.running_open (
            raise_if_intro _ _ _ _ w.completed_closed (
              raise_if_intro _ _ _ _ w.failed_closed (
                raise_if_intro _ _ _ _ w.failure_failed (
                  raise_if_intro _ _ _ _ w.updated_after_start (
                    raise_if_intro _ _ _ _ w.completed_after_start (
                      raise_if_intro _ _ _ _ w.updated_after_event
                        (raise_if_ok _ _ w.versions)))))))))))

-- The manifest's history starts well, runs to its state, and ends well.
pub record IsAudited (m : RunManifest) : Type 0 where
  pub started : check_start m.events ≡ ok tt
  pub chained :
      check_events m.project_spec_sha256 m.snapshot_identity 0 created m.events ≡ ok m.state
  pub ended : IsEnding m

pub audit_elim : (m : RunManifest) → audit_chain_is_consistent m ≡ ok tt → IsAudited m
unfolding audit_chain_is_consistent
audit_elim m h =
    let (a, h1) = >>_elim _ _ _ h in
    let (final, b, h2) =
      >>=-eq-ok (check_events m.project_spec_sha256 m.snapshot_identity 0 created m.events) _ h1 in
    let (c, h3) = unless_elim (final == m.state) _ _ _ h2 in
    record {
      started = a;
      chained = b ∙ ap ok ((state_eq.beq_iff final m.state).0 c);
      ended = check_ending_elim m h3;
    }

pub audit_intro : (m : RunManifest) → IsAudited m → audit_chain_is_consistent m ≡ ok tt
unfolding audit_chain_is_consistent
audit_intro m w = >>_intro _ _ _ w.started (
    rw w.chained (
      unless_intro (m.state == m.state) _ _ _ ((state_eq.beq_iff m.state m.state).1 refl)
        (check_ending_intro m w.ended)))

guard_off : (b x : Bool) → x ≡ true → (b && not x) ≡ false
guard_off b true h = ground arith
guard_off b false h = absurd (cc h)

-- An event that the loop lets pass.
pub check_event_intro :
    (spec snapshot : Sha256) (index : ℕ) (previous : WorkflowState) (event : WorkflowEvent)
    → event.sequence ≡ index
    → event.project_spec_sha256 ≡ spec
    → event.snapshot_identity ≡ snapshot
    → is_state previous event.from_state ≡ true
    → transition_is_allowed previous event.to_state ≡ true
    → check_event spec snapshot index previous event ≡ ok tt
unfolding check_event
check_event_intro spec snapshot index previous event a b c d e =
    unless_intro (event.sequence == index) _ _ _ ((nat_eq.beq_iff event.sequence index).1 a) (
      unless_intro (event.project_spec_sha256 == spec) _ _ _
        ((nat_eq.beq_iff event.project_spec_sha256 spec).1 b)
        (unless_intro (event.snapshot_identity == snapshot) _ _ _
          ((nat_eq.beq_iff event.snapshot_identity snapshot).1 c)
          (raise_if_intro (ltb 0 index && not (is_state previous event.from_state)) _ _ _
            (guard_off (ltb 0 index) _ d) (raise_if_ok _ _ (guard_off (ltb 0 index) _ e)))))

-- One more event at the end of a history.
pub check_events-snoc :
    (spec snapshot : Sha256) (index : ℕ) (p : WorkflowState) (events : List WorkflowEvent)
    (q : WorkflowState) (event : WorkflowEvent)
    → check_events spec snapshot index p events ≡ ok q
    → check_event spec snapshot (index + length events) q event ≡ ok tt
    → check_events spec snapshot index p (events ++ event ∷ []) ≡ ok event.to_state
unfolding check_events
check_events-snoc spec snapshot index p [] q event h k =
    let e : p ≡ q = cc h in
    let z : index + 0 ≡ index = omega arith in
    >>_intro _ _ _ (subst (λ n. check_event spec snapshot n p event ≡ ok tt) z (rw e k)) refl
check_events-snoc spec snapshot index p (x ∷ events) q event h k =
    let (a, b) = >>_elim _ _ _ h in
    let z : index + suc (length events) ≡ index + 1 + length events = omega arith in
    >>_intro _ _ _ a (
      check_events-snoc spec snapshot (index + 1) x.to_state events q event b
        (subst (λ n. check_event spec snapshot n q event ≡ ok tt) z k))

pub check_start-snoc :
    (events : List WorkflowEvent) (event : WorkflowEvent)
    → check_start events ≡ ok tt
    → check_start (events ++ event ∷ []) ≡ ok tt
check_start-snoc [] event h = cc
check_start-snoc (x ∷ events) event h = h

pub any-snoc {ℓ} :
    {A : Type ℓ} (p : A → Bool) (xs : List A) (a : A) → any p (xs ++ a ∷ []) ≡ (any p xs || p a)
unfolding any
any-snoc p [] a = ground arith
any-snoc p (x ∷ xs) a = ground (arith, any-snoc p xs a)

pub last_time-snoc :
    (t : ℕ) (events : List WorkflowEvent) (event : WorkflowEvent)
    → last_time t (events ++ event ∷ []) ≡ event.occurred_at
unfolding last_time
last_time-snoc t [] event = refl
last_time-snoc t (x ∷ events) event = last_time-snoc x.occurred_at events event

-- No successor in the table is a terminal failure.
successors_lem : (s : WorkflowState) → all (λ t. not (is_failure t)) (successors s) ≡ true
unfolding all is_failure elem WorkflowState-discrete
successors_lem created = refl
successors_lem project_validated = refl
successors_lem workspace_ready = refl
successors_lem source_ready = refl
successors_lem build_ready = refl
successors_lem codeql_db_ready = refl
successors_lem scanned = refl
successors_lem sarif_ingested = refl
successors_lem WorkflowState.normalized = refl
successors_lem context_ready = refl
successors_lem analyzed = refl
successors_lem rebutted = refl
successors_lem judged = refl
successors_lem invalid_sarif = refl
successors_lem codeql_failed = refl
successors_lem context_incomplete = refl
successors_lem model_failed = refl
successors_lem policy_rejected = refl

pub successors-is_failure :
    (s t : WorkflowState) → elem t (successors s) ≡ true → is_failure t ≡ false
successors-is_failure s t h =
    let a : not (is_failure t) ≡ true =
      all_elim (λ u. not (is_failure u)) t (successors s) (successors_lem s)
        (elem-In t (successors s) h) in
    ground (arith, a)

pub successors-allowed :
    (s t : WorkflowState) → elem t (successors s) ≡ true → transition_is_allowed s t ≡ true
unfolding transition_is_allowed
successors-allowed s t h = rw (successors-is_failure s t h) h
