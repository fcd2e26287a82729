-- ===== src/Journal/Tests.antt =====
-- Runs of the journal of src/evitriage/run_artifacts.py from its constructor on.
use evi_triage_ql.Prelude.{
  ◌≡◌, refl, ◌↔◌, true, false, none, some, [], ◌∷◌, ◌==◌, ok, elem, is_unique,
}
use evi_triage_ql.Manifest.{
  RunManifest, project_validated, sarif, running, state_eq, status_eq, WorkflowState-discrete,
  RunStatus-discrete, InputMode-discrete, transition_is_allowed, model_failed, failed, created,
  WorkflowEvent, successors, audit_chain_is_consistent,
}
use evi_triage_ql.Journal.{
  Disk, Saving, unreadable, JournalError, Journal, EventDetails, has_event_texts, manifest,
  transition,
}
use evi_triage_ql.Journal.Lifecycle.{Allocation, start, move, finish, perform, run_operations}
use evi_triage_ql.Journal.Saved.{saved_manifest-IsAudited}
use evi_triage_ql.Journal.Current.{IsCurrent, perform-IsCurrent, perform_finalized}
use evi_triage_ql.Journal.Step.{IsWorking, fits_mode, transition_iff}

abbrev working_disk : Disk
working_disk = record {
  log_takes_line = true;
  saving = Saving.saved;
  target_is_safe = true;
  writes_artifact = true;
  artifacts_unchanged = true;
  audit_files_protected = true;
  now = 100;
  later = 101;
}

abbrev later_disk : Disk
later_disk = record working_disk { now = 200; later = 201 }

abbrev small_allocation : Allocation
small_allocation = record {
  run_id = "run";
  project_id = "project";
  project_spec_sha256 = 3;
  snapshot_identity = 4;
}

abbrev creation : WorkflowEvent
creation = record {
  sequence = 0;
  event_type = "run_created";
  from_state = none;
  to_state = created;
  project_spec_sha256 = 3;
  snapshot_identity = 4;
  input_sha256 = none;
  output_sha256 = none;
  tool_manifest_sha256 = none;
  error_code = none;
  retry_count = 0;
  occurred_at = 101;
}

abbrev new_manifest : RunManifest
new_manifest = record {
  run_id = "run";
  project_id = "project";
  input_mode = sarif;
  project_spec_sha256 = 3;
  snapshot_identity = 4;
  state = created;
  status = running;
  artifacts = [];
  events = creation ∷ [];
  tool_versions = [];
  started_at = 100;
  updated_at = 101;
  completed_at = none;
}

abbrev new_journal : Journal
new_journal = record {
  run_id = "run";
  project_id = "project";
  input_mode = sarif;
  project_spec_sha256 = 3;
  snapshot_identity = 4;
  state = created;
  status = running;
  artifacts = [];
  events = creation ∷ [];
  tool_versions = [];
  started_at = 100;
  updated_at = 101;
  completed_at = none;
  on_disk = some new_manifest;
}

abbrev validation : EventDetails
validation = record {
  event_type = "project_validated";
  input_sha256 = none;
  output_sha256 = some 9;
  tool_manifest_sha256 = none;
  error_code = none;
}

abbrev validated_journal : Journal
validated_journal = (transition later_disk project_validated validation new_journal).0

abbrev failed_journal : Journal
failed_journal = record new_journal {
  state = model_failed;
  status = failed;
  completed_at = some 150;
}

-- The constructor, which cannot read the first metadata file, and then a completion that is refused.
small_run :
    (run_operations
      ((later_disk, finish) ∷ [])
      (start working_disk working_disk working_disk false unreadable unreadable small_allocation
        sarif).0).on_disk
    ≡ some new_manifest
unfolding run_operations start WorkflowState-discrete RunStatus-discrete InputMode-discrete
    is_unique transition_is_allowed
small_run = refl

saved_manifest-IsAudited_example : audit_chain_is_consistent new_manifest ≡ ok tt
saved_manifest-IsAudited_example =
    saved_manifest-IsAudited working_disk working_disk working_disk false unreadable unreadable
      small_allocation sarif ((later_disk, finish) ∷ []) new_manifest small_run

perform-IsCurrent_example : IsCurrent validated_journal
unfolding start transition WorkflowState-discrete RunStatus-discrete InputMode-discrete is_unique
    transition_is_allowed
perform-IsCurrent_example =
    perform-IsCurrent later_disk (move project_validated validation) new_journal refl

new_journal-audited : audit_chain_is_consistent (manifest new_journal) ≡ ok tt
unfolding start manifest audit_chain_is_consistent WorkflowState-discrete InputMode-discrete
    RunStatus-discrete is_unique
new_journal-audited = refl

later_disk-IsWorking : IsWorking later_disk new_journal
unfolding start WorkflowState-discrete RunStatus-discrete InputMode-discrete is_unique
    transition_is_allowed
later_disk-IsWorking = record { logs = refl; saves = refl; clock = refl }

transition_iff_example :
    (transition later_disk project_validated validation new_journal).1 ≡ none
    ↔ ((new_journal.status == running) ≡ true)
      × (elem project_validated (successors new_journal.state) ≡ true)
      × (fits_mode new_journal.input_mode project_validated ≡ true)
      × (has_event_texts validation ≡ true)
transition_iff_example =
    transition_iff later_disk project_validated validation new_journal later_disk-IsWorking
      new_journal-audited

failed_journal-is_failed : (failed_journal.status == running) ≡ false
unfolding RunStatus-discrete
failed_journal-is_failed = refl

perform_finalized_example :
    (e : JournalError) × (perform later_disk (move project_validated validation) failed_journal
      ≡ (failed_journal, some e))
perform_finalized_example =
    perform_finalized later_disk (move project_validated validation) failed_journal
      failed_journal-is_failed
