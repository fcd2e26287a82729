-- ===== src/Journal/Lifecycle.antt =====
-- How a run journal begins and ends (`__init__`, `complete` and `fail` of
-- src/evitriage/run_artifacts.py), and every operation on one as a value.
use evi_triage_ql.Prelude.{
  ℕ, String, Bool, not, ◌||◌, Option, none, some, List, [], ◌∷◌, ◌==◌, nat_eq, elem,
}
use evi_triage_ql.Evidence.{Sha256}
use evi_triage_ql.Manifest.{
  WorkflowState, created, context_ready, judged, state_eq, ArtifactRole, metadata, ArtifactRecord,
  InputMode, running, completed, failed, status_eq, is_failure,
}
use evi_triage_ql.Journal.{
  Disk, Reading, Journal, Outcome, done, refuse_if, ◌then◌, EventDetails, finalized,
  not_completable, unsupported_failure, artifacts_changed, audit_not_protected, audit_exists,
  append_event, persist_manifest, transition, add_tool_versions, write_artifact, ingest_file,
  record_existing_artifact,
}

-- `_finalize_registered_artifacts`
unfoldable pub finalize_registered_artifacts : Disk → Journal → Outcome
unfolding refuse_if
finalize_registered_artifacts disk j =
    refuse_if (not disk.artifacts_unchanged) artifacts_changed j (done j)

-- `_finalize_audit_files`
unfoldable pub finalize_audit_files : Disk → Journal → Outcome
unfolding refuse_if
finalize_audit_files disk j =
    refuse_if (not disk.audit_files_protected) audit_not_protected j (done j)

-- `complete`
unfoldable pub complete : Disk → Journal → Outcome
unfolding persist_manifest elem ◌then◌ refuse_if finalize_registered_artifacts finalize_audit_files
complete disk j =
    refuse_if (not (j.status == running) || not (elem j.state (context_ready ∷ judged ∷ [])))
      not_completable j
      (finalize_registered_artifacts disk j
        then (λ j.
            persist_manifest disk (record j {
              status = completed;
              completed_at = some disk.now;
              updated_at = disk.now;
            }))
        then finalize_audit_files disk)

abbrev pub failure_details : String → Option Sha256 → EventDetails
failure_details code artifact = record {
  event_type = "run_failed";
  input_sha256 = none;
  output_sha256 = artifact;
  tool_manifest_sha256 = none;
  error_code = some code;
}

-- `fail`
unfoldable pub fail : Disk → WorkflowState → String → Option Sha256 → Journal → Outcome
unfolding append_event persist_manifest is_failure elem ◌then◌ refuse_if
    finalize_registered_artifacts finalize_audit_files
fail disk to_state code artifact j = refuse_if (not (is_failure to_state)) unsupported_failure j (
    refuse_if (not (j.status == running)) finalized j (
      finalize_registered_artifacts disk j
      then (λ j.
          append_event disk disk.later (failure_details code artifact) (some j.state) to_state
            (record j {
              state = to_state;
              status = failed;
              completed_at = some disk.now;
              updated_at = disk.now;
            }))
      then persist_manifest disk
      then finalize_audit_files disk))

-- What `__init__` takes from the allocation.
pub record Allocation : Type 0 where
  pub run_id : String
  pub project_id : String
  pub project_spec_sha256 : Sha256
  pub snapshot_identity : Sha256

abbrev pub creation_details : EventDetails
creation_details = record {
  event_type = "run_created";
  input_sha256 = none;
  output_sha256 = none;
  tool_manifest_sha256 = none;
  error_code = none;
}

-- The fields as `__init__` sets them before the first event.
abbrev pub blank : Allocation → InputMode → ℕ → Journal
blank allocation mode time = record {
  run_id = allocation.run_id;
  project_id = allocation.project_id;
  project_spec_sha256 = allocation.project_spec_sha256;
  snapshot_identity = allocation.snapshot_identity;
  input_mode = mode;
  events = [];
  artifacts = [];
  tool_versions = [];
  state = created;
  status = running;
  started_at = time;
  updated_at = time;
  completed_at = none;
  on_disk = none;
}

abbrev pub maximum_input_bytes : ℕ
maximum_input_bytes = 67108864

-- `__init__`, on a run root where the audit files exist or not; `first` and `second` are what
-- reading the two metadata files gives.
unfoldable pub start :
    Disk → Disk → Disk → Bool → Reading → Reading → Allocation → InputMode → Outcome
unfolding append_event persist_manifest record_existing_artifact ◌then◌ refuse_if
start disk disk1 disk2 exists first second allocation mode =
    let j = blank allocation mode disk.now in
    refuse_if exists audit_exists j (
      append_event disk disk.later creation_details none created j
      then persist_manifest disk
      then record_existing_artifact disk1 first ".evitriage-workspace.json" metadata
          "application/json" maximum_input_bytes
      then record_existing_artifact disk2 second "project-spec.resolved.yaml" metadata
          "application/json" maximum_input_bytes)

-- The operations that a workflow calls on its journal.
pub data Operation : Type 0 where
  move : WorkflowState → EventDetails → Operation
  add_tools : List (String × String) → Operation
  write : ArtifactRecord → Operation
  ingest : Reading → String → ArtifactRole → String → ℕ → Operation
  register : Reading → String → ArtifactRole → String → ℕ → Operation
  finish : Operation
  give_up : WorkflowState → String → Option Sha256 → Operation

abbrev pub perform : Disk → Operation → Journal → Outcome
perform disk (move to_state details) = transition disk to_state details
perform disk (add_tools versions) = add_tool_versions disk versions
perform disk (write artifact) = write_artifact disk artifact
perform disk (ingest reading path role media maximum) =
    ingest_file disk reading path role media maximum
perform disk (register reading path role media maximum) =
    record_existing_artifact disk reading path role media maximum
perform disk finish = complete disk
perform disk (give_up to_state code artifact) = fail disk to_state code artifact

-- A sequence of operations, each on the journal that the last one left, raised or not.
unfoldable pub run_operations : List (Disk × Operation) → Journal → Journal
unfolding transition add_tool_versions write_artifact ingest_file record_existing_artifact complete
    fail
run_operations [] j = j
run_operations ((disk, operation) ∷ rest) j = run_operations rest (perform disk operation j).0
