-- ===== src/Journal/Step.antt =====
-- When a transition of a run journal (`transition` of src/evitriage/run_artifacts.py) succeeds.
use evi_triage_ql.Prelude.{
  ℕ, ◌+◌, ◌≡◌, refl, subst, ◌↔◌, inl, inr, Bool, true, false, not, ◌&&◌, none, some, List, [], ◌∷◌,
  ◌++◌, ◌==◌, nat_eq, Result, ok, err, ltb, arith, any, elem, length, Bool-cases,
}
use evi_triage_ql.Manifest.{
  WorkflowState, sarif_ingested, build_ready, codeql_db_ready, scanned, codeql_failed, state_eq,
  InputMode, sarif, scan, mode_eq, running, completed, failed, status_eq, is_failure, successors,
  WorkflowEvent, ManifestError, check_event, to_codeql_branch, to_sarif_branch, RunStatus,
  RunStatus-discrete, InputMode-discrete, WorkflowState-discrete, audit_chain_is_consistent,
}
use evi_triage_ql.Manifest.Audit.{
  IsAudited, IsEnding, audit_elim, audit_intro, check_event_intro, check_events-snoc,
  check_start-snoc, any-snoc, last_time-snoc, successors-allowed, successors-is_failure,
}
use evi_triage_ql.Journal.{
  Disk, saved, JournalError, Journal, Outcome, refuse_if, ◌then◌, EventDetails, manifest, new_event,
  replace_owned_file, replace_when, has_event_texts, append_event, persist_manifest, transition,
  finalized, invalid_step,
}

-- The log takes the line, the manifest is replaced, and the clock has not gone back.
pub record IsWorking (disk : Disk) (j : Journal) : Type 0 where
  pub logs : disk.log_takes_line ≡ true
  pub saves : disk.saving ≡ saved
  pub clock : ltb disk.now j.updated_at ≡ false

-- The state is not one of the other input mode's branch.
unfoldable pub fits_mode : InputMode → WorkflowState → Bool
unfolding elem
fits_mode sarif t = not (elem t (build_ready ∷ codeql_db_ready ∷ scanned ∷ []))
fits_mode scan t = not (t == sarif_ingested)

-- The journal with its next event, before the manifest is put on disk.
abbrev moved : Disk → WorkflowState → EventDetails → Journal → Journal
moved disk t details j = record j {
  state = t;
  events = j.events ++ new_event j details (some j.state) t disk.now ∷ [];
  updated_at = disk.now;
}

next_event-ok :
    (j : Journal) (details : EventDetails) (t : WorkflowState) (time : ℕ)
    → elem t (successors j.state) ≡ true
    → check_event j.project_spec_sha256 j.snapshot_identity
        (0 + length j.events)
        j.state
        (new_event j details (some j.state) t time)
      ≡ ok tt
unfolding new_event
next_event-ok j details t time h =
    check_event_intro j.project_spec_sha256 j.snapshot_identity (0 + length j.events) j.state _
      (omega arith) refl refl ((state_eq.beq_iff j.state j.state).1 refl)
      (successors-allowed j.state t h)

-- A running journal meets what is asked of the ended ones.
running-eq-completed : (r : RunStatus) (x : Bool) → r ≡ running → ((r == completed) && x) ≡ false
unfolding RunStatus-discrete
running-eq-completed r x h = rw h refl

running-eq-failed : (r : RunStatus) (x : Bool) → r ≡ running → ((r == failed) && x) ≡ false
unfolding RunStatus-discrete
running-eq-failed r x h = rw h refl

codeql_branch-snoc :
    (mode : InputMode) (events : List WorkflowEvent) (event : WorkflowEvent)
    → ((mode == sarif) && any to_codeql_branch events) ≡ false
    → fits_mode mode event.to_state ≡ true
    → ((mode == sarif) && any to_codeql_branch (events ++ event ∷ [])) ≡ false
unfolding fits_mode InputMode-discrete
codeql_branch-snoc sarif events event h f =
    rw (any-snoc to_codeql_branch events event) (ground arith)
codeql_branch-snoc scan events event h f = refl

sarif_branch-snoc :
    (mode : InputMode) (events : List WorkflowEvent) (event : WorkflowEvent)
    → ((mode == scan) && any to_sarif_branch events) ≡ false
    → fits_mode mode event.to_state ≡ true
    → ((mode == scan) && any to_sarif_branch (events ++ event ∷ [])) ≡ false
unfolding fits_mode InputMode-discrete
sarif_branch-snoc sarif events event h f = refl
sarif_branch-snoc scan events event h f = rw (any-snoc to_sarif_branch events event) (ground arith)

branches-fits_mode :
    (mode : InputMode) (events : List WorkflowEvent) (event : WorkflowEvent)
    → ((mode == sarif) && any to_codeql_branch (events ++ event ∷ [])) ≡ false
    → ((mode == scan) && any to_sarif_branch (events ++ event ∷ [])) ≡ false
    → fits_mode mode event.to_state ≡ true
unfolding fits_mode InputMode-discrete
branches-fits_mode sarif events event a b =
    let c = any-snoc to_codeql_branch events event in ground arith
branches-fits_mode scan events event a b =
    let c = any-snoc to_sarif_branch events event in ground arith

not_codeql_failed :
    (t : WorkflowState) (x : Bool) → is_failure t ≡ false → (x && (t == codeql_failed)) ≡ false
unfolding is_failure WorkflowState-discrete elem
not_codeql_failed t x n = elim (Bool-cases (t == codeql_failed)) [
  | inl e ↦
      let p : t ≡ codeql_failed = (state_eq.beq_iff t codeql_failed).0 e in
      let q : is_failure codeql_failed ≡ false = subst (λ s. is_failure s ≡ false) p n in
      absurd (cc q)
  | inr e ↦ rw e (ground arith)
]

not_earlier : (a b c : ℕ) → ltb b a ≡ false → ltb c b ≡ false → ltb c a ≡ false
not_earlier a b c h k = ground arith

moved-IsEnding :
    (disk : Disk) (t : WorkflowState) (details : EventDetails) (j : Journal)
    → IsWorking disk j
    → IsEnding (manifest j)
    → (j.status == running) ≡ true
    → is_failure t ≡ false
    → fits_mode j.input_mode t ≡ true
    → IsEnding (manifest (moved disk t details j))
unfolding manifest fits_mode new_event
moved-IsEnding disk t details j w e r n f =
    let s : j.status ≡ running = (status_eq.beq_iff j.status running).0 r in
    record {
      paths = e.paths;
      no_codeql_branch = codeql_branch-snoc j.input_mode j.events _ e.no_codeql_branch f;
      no_sarif_branch = sarif_branch-snoc j.input_mode j.events _ e.no_sarif_branch f;
      no_codeql_failure = not_codeql_failed t _ n;
      running_open = e.running_open;
      completed_closed = running-eq-completed j.status _ s;
      failed_closed = running-eq-failed j.status _ s;
      failure_failed = rw n (ground arith);
      updated_after_start =
          not_earlier j.started_at j.updated_at disk.now e.updated_after_start w.clock;
      completed_after_start = e.completed_after_start;
      updated_after_event = rw (last_time-snoc 0 j.events _) (ground arith);
      versions = e.versions;
    }

moved-IsAudited :
    (disk : Disk) (t : WorkflowState) (details : EventDetails) (j : Journal)
    → IsWorking disk j
    → IsAudited (manifest j)
    → (j.status == running) ≡ true
    → elem t (successors j.state) ≡ true
    → fits_mode j.input_mode t ≡ true
    → IsAudited (manifest (moved disk t details j))
unfolding manifest new_event
moved-IsAudited disk t details j w a r h f = record {
  started = check_start-snoc j.events _ a.started;
  chained =
      check_events-snoc j.project_spec_sha256 j.snapshot_identity 0 _ j.events j.state _ a.chained
        (next_event-ok j details t disk.now h);
  ended = moved-IsEnding disk t details j w a.ended r (successors-is_failure j.state t h) f;
}

persist_manifest-saves :
    (disk : Disk) (j : Journal)
    → disk.saving ≡ saved
    → audit_chain_is_consistent (manifest j) ≡ ok tt
    → (persist_manifest disk j).1 ≡ none
unfolding persist_manifest replace_when replace_owned_file
persist_manifest-saves disk j s a = rw (a, s) refl

checked_only :
    (disk : Disk) (j : Journal) (r : Result ManifestError (Unit {0}))
    → (replace_when disk j r).1 ≡ none
    → r ≡ ok tt
unfolding replace_when
checked_only disk j (ok u) h = refl
checked_only disk j (err e) h = cc h

persist_manifest-audited :
    (disk : Disk) (j : Journal)
    → (persist_manifest disk j).1 ≡ none
    → audit_chain_is_consistent (manifest j) ≡ ok tt
unfolding persist_manifest
persist_manifest-audited disk j h = checked_only disk j _ h

refuse_if-passed :
    (b : Bool) (e : JournalError) (j : Journal) (rest : Outcome)
    → (refuse_if (not b) e j rest).1 ≡ none
    → (b ≡ true) × (rest.1 ≡ none)
unfolding refuse_if
refuse_if-passed true e j rest h = (refl, h)
refuse_if-passed false e j rest h = cc h

-- A manifest saved after the event has it in the right branch.
moved-fits_mode :
    (disk : Disk) (t : WorkflowState) (details : EventDetails) (j : Journal)
    → (persist_manifest disk (moved disk t details j)).1 ≡ none
    → fits_mode j.input_mode t ≡ true
unfolding manifest new_event
moved-fits_mode disk t details j n =
    let a = audit_elim _ (persist_manifest-audited disk (moved disk t details j) n) in
    branches-fits_mode j.input_mode j.events _ a.ended.no_codeql_branch a.ended.no_sarif_branch

-- What follows the guards of a transition.
abbrev stepped : Disk → WorkflowState → EventDetails → Journal → Outcome
stepped disk t details j =
    append_event disk disk.now details (some j.state) t (record j { state = t })
    then persist_manifest disk

append_event-passed :
    (disk : Disk) (t : WorkflowState) (details : EventDetails) (j : Journal)
    → (stepped disk t details j).1 ≡ none
    → has_event_texts details ≡ true
unfolding append_event refuse_if ◌then◌
append_event-passed disk t details j n = elim (Bool-cases (has_event_texts details)) [
  | inl e ↦ e
  | inr e ↦ absurd (cc (rw e at n))
]

-- Given a journal whose manifest passes its validator, a disk that takes the log's line and replaces
-- the manifest, and a clock that has not gone back since the last update, `transition` raises nothing
-- exactly when the run is running, the state asked for is a successor of the present one in the table
-- and not a state of the other input mode's branch, and the event's type and error code are texts of
-- the form that the event's record asks for.
pub transition_iff :
    (disk : Disk) (t : WorkflowState) (details : EventDetails) (j : Journal)
    → IsWorking disk j
    → audit_chain_is_consistent (manifest j) ≡ ok tt
    → (transition disk t details j).1 ≡ none
      ↔ ((j.status == running) ≡ true)
        × (elem t (successors j.state) ≡ true)
        × (fits_mode j.input_mode t ≡ true)
        × (has_event_texts details ≡ true)
unfolding transition ◌then◌ append_event refuse_if
transition_iff disk t details j w a = (
  λ n.
      let (r, n1) =
        refuse_if-passed (j.status == running) finalized j
          (refuse_if (not (elem t (successors j.state))) invalid_step j (stepped disk t details j))
          n in
      let (h, n2) =
        refuse_if-passed (elem t (successors j.state)) invalid_step j (stepped disk t details j)
          n1 in
      let e = append_event-passed disk t details j n2 in
      let n3 : (persist_manifest disk (moved disk t details j)).1 ≡ none = rw (e, w.logs) at n2 in
      (r, h, moved-fits_mode disk t details j n3, e),
  λ (r, h, f, e).
      rw (r, h, e, w.logs)
        (persist_manifest-saves disk (moved disk t details j) w.saves
          (audit_intro _ (moved-IsAudited disk t details j w (audit_elim (manifest j) a) r h f))),
)
