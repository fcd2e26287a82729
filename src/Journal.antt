-- ===== src/Journal.antt =====
-- The run journal, src/evitriage/run_artifacts.py: the state that `RunJournal` keeps in memory and the
-- manifest that it last put on disk.
--
-- What the operating system does is an argument of every operation, a `Disk`: whether the event log
-- took the line, how the replacement of the manifest ended, whether the artifact files could be
-- written, read back and made read-only, and what the clock said. A Python exception is an
-- `Outcome` that keeps the journal as the method left it, since the object outlives the exception.
pub mod Lifecycle
mod Saved
mod Current
mod Step
mod Tests
use evi_triage_ql.Prelude.{
  ℕ, ◌+◌, String, Bool, true, false, not, ◌&&◌, ◌||◌, Option, none, some, List, [], ◌∷◌, ◌++◌, map,
  ◌==◌, nat_eq, string_eq, ltb, Result, ok, err, any, elem, length, Dict, lookup, insert,
}
use evi_triage_ql.Evidence.{Sha256}
use evi_triage_ql.Manifest.{
  WorkflowState, created, context_ready, judged, state_eq, ArtifactRole, metadata, ArtifactRecord,
  WorkflowEvent, is_event_type, is_error_code, InputMode, RunStatus, running, completed, failed,
  status_eq, RunManifest, ManifestError, is_failure, successors, is_bad_version, path_of,
  audit_chain_is_consistent,
}

-- How `_replace_owned_file` ended: the manifest replaced, not replaced, or replaced and the call
-- on its mode refused.
pub data Saving : Type 0 where
  saved not_saved saved_unprotected : Saving

-- What reading a file gave: its digest and size, or an error.
pub data Reading : Type 0 where
  content : Sha256 → ℕ → Reading
  unreadable : Reading

pub record Disk : Type 0 where
  pub log_takes_line : Bool
  pub saving : Saving
  pub target_is_safe : Bool
  pub writes_artifact : Bool
  pub artifacts_unchanged : Bool
  pub audit_files_protected : Bool
  pub now : ℕ
  pub later : ℕ

pub data JournalError : Type 0 where
  finalized invalid_step bad_version version_changed duplicate_artifact unsafe_target : JournalError
  unreadable_input too_large bad_maximum not_written not_completable unsupported_failure :
      JournalError
  artifacts_changed log_failed not_persisted audit_not_protected audit_exists : JournalError
  invalid_event : JournalError
  invalid_manifest : ManifestError → JournalError

pub record Journal : Type 0 where
  pub run_id : String
  pub project_id : String
  pub project_spec_sha256 : Sha256
  pub snapshot_identity : Sha256
  pub input_mode : InputMode
  pub events : List WorkflowEvent
  pub artifacts : List ArtifactRecord
  pub tool_versions : Dict String String
  pub state : WorkflowState
  pub status : RunStatus
  pub started_at : ℕ
  pub updated_at : ℕ
  pub completed_at : Option ℕ
  pub on_disk : Option RunManifest

-- The journal as a method leaves it, and the exception it raised.
abbrev pub Outcome : Type 0
Outcome = Journal × Option JournalError

abbrev pub done : Journal → Outcome
done j = (j, none)

abbrev pub raise : JournalError → Journal → Outcome
raise e j = (j, some e)

-- The next statement, which runs when nothing was raised.
infixl 4 ◌then◌
unfoldable pub ◌then◌ : Outcome → (Journal → Outcome) → Outcome
(j, none) then k = k j
(j, some e) then k = (j, some e)

-- `if c: raise e`, and otherwise what the rest gives.
unfoldable pub refuse_if : Bool → JournalError → Journal → Outcome → Outcome
refuse_if true e j rest = (j, some e)
refuse_if false e j rest = rest

-- The property `manifest`.
unfoldable pub manifest : Journal → RunManifest
manifest j = record {
  run_id = j.run_id;
  project_id = j.project_id;
  input_mode = j.input_mode;
  project_spec_sha256 = j.project_spec_sha256;
  snapshot_identity = j.snapshot_identity;
  state = j.state;
  status = j.status;
  artifacts = j.artifacts;
  events = j.events;
  tool_versions = j.tool_versions;
  started_at = j.started_at;
  updated_at = j.updated_at;
  completed_at = j.completed_at;
}

-- `_replace_owned_file` on the manifest's file.
unfoldable pub replace_owned_file : Saving → RunManifest → Journal → Outcome
replace_owned_file saved m j = done (record j { on_disk = some m })
replace_owned_file not_saved m j = raise not_persisted j
replace_owned_file saved_unprotected m j = raise not_persisted (record j { on_disk = some m })

-- The manifest, when its validator gave `ok`, put on disk.
unfoldable pub replace_when : Disk → Journal → Result ManifestError (Unit {0}) → Outcome
unfolding replace_owned_file
replace_when disk j (ok _) = replace_owned_file disk.saving (manifest j) j
replace_when disk j (err e) = raise (invalid_manifest e) j

-- `_persist_manifest`: building the manifest runs its validator.
unfoldable pub persist_manifest : Disk → Journal → Outcome
unfolding replace_when manifest audit_chain_is_consistent
persist_manifest disk j = replace_when disk j (audit_chain_is_consistent (manifest j))

-- The arguments of `_append_event` other than its states.
pub record EventDetails : Type 0 where
  pub event_type : String
  pub input_sha256 : Option Sha256
  pub output_sha256 : Option Sha256
  pub tool_manifest_sha256 : Option Sha256
  pub error_code : Option String

unfoldable pub new_event :
    Journal → EventDetails → Option WorkflowState → WorkflowState → ℕ → WorkflowEvent
new_event j details before after time = record {
  sequence = length j.events;
  event_type = details.event_type;
  from_state = before;
  to_state = after;
  project_spec_sha256 = j.project_spec_sha256;
  snapshot_identity = j.snapshot_identity;
  input_sha256 = details.input_sha256;
  output_sha256 = details.output_sha256;
  tool_manifest_sha256 = details.tool_manifest_sha256;
  error_code = details.error_code;
  retry_count = 0;
  occurred_at = time;
}

-- The texts of the event are of the form that `WorkflowEvent` asks for.
unfoldable pub has_event_texts : EventDetails → Bool
unfolding is_event_type is_error_code
has_event_texts details = is_event_type details.event_type && is_error_code details.error_code

-- `_append_event`, at the time the event is built: the record's validators, and then the log.
unfoldable pub append_event :
    Disk → ℕ → EventDetails → Option WorkflowState → WorkflowState → Journal → Outcome
unfolding new_event has_event_texts refuse_if
append_event disk time details before after j =
    refuse_if (not (has_event_texts details)) invalid_event j (
      refuse_if (not disk.log_takes_line) log_failed j (
        done (record j {
          events = j.events ++ new_event j details before after time ∷ [];
          updated_at = time;
        })))

-- `transition`
unfoldable pub transition : Disk → WorkflowState → EventDetails → Journal → Outcome
unfolding append_event persist_manifest elem ◌then◌ refuse_if
transition disk to_state details j = refuse_if (not (j.status == running)) finalized j (
    refuse_if (not (elem to_state (successors j.state))) invalid_step j (
      append_event disk disk.now details (some j.state) to_state (record j { state = to_state })
      then persist_manifest disk))

-- The version that the journal has under a name is another one.
abbrev pub is_changed : Option String → String → Bool
is_changed none version = false
is_changed (some known) version = not (known == version)

-- The loop of `add_tool_versions`.
unfoldable pub add_versions : List (String × String) → Journal → Outcome
unfolding is_bad_version lookup insert refuse_if
add_versions [] j = done j
add_versions ((name, version) ∷ versions) j =
    refuse_if (is_bad_version (name, version)) bad_version j (
      refuse_if (is_changed (lookup name j.tool_versions) version) version_changed j
        (add_versions versions (record j { tool_versions = insert name version j.tool_versions })))

-- `add_tool_versions`
unfoldable pub add_tool_versions : Disk → List (String × String) → Journal → Outcome
unfolding add_versions persist_manifest ◌then◌ refuse_if
add_tool_versions disk versions j =
    refuse_if (not (j.status == running)) finalized j
      (add_versions versions j then λ j. persist_manifest disk (record j { updated_at = disk.now }))

-- `_record_artifact`
unfoldable pub record_artifact : Disk → ArtifactRecord → Journal → Outcome
unfolding persist_manifest any refuse_if
record_artifact disk artifact j =
    refuse_if (any (λ known. path_of known == path_of artifact) j.artifacts) duplicate_artifact j
      (persist_manifest disk (record j { artifacts = j.artifacts ++ artifact ∷ [] }))

-- `write_artifact`, with the record of the content written.
unfoldable pub write_artifact : Disk → ArtifactRecord → Journal → Outcome
unfolding record_artifact refuse_if
write_artifact disk artifact j = refuse_if (not (j.status == running)) finalized j (
    refuse_if (not disk.target_is_safe) unsafe_target j
      (refuse_if (not disk.writes_artifact) not_written j (record_artifact disk artifact j)))

-- `_read_regular_file` followed by the statements `k` on the digest and size read.
unfoldable pub with_file : Reading → ℕ → Journal → (Sha256 → ℕ → Outcome) → Outcome
unfolding refuse_if
with_file unreadable maximum j k = raise unreadable_input j
with_file (content digest size) maximum j k =
    refuse_if (ltb maximum size) too_large j (k digest size)

abbrev pub artifact_of : String → ArtifactRole → String → Sha256 → ℕ → ArtifactRecord
artifact_of path role media digest size = record {
  relative_path = path;
  sha256 = digest;
  size_bytes = size;
  role = role;
  media_type = media;
}

-- `ingest_file`
unfoldable pub ingest_file : Disk → Reading → String → ArtifactRole → String → ℕ → Journal → Outcome
unfolding write_artifact refuse_if with_file
ingest_file disk reading path role media maximum j = refuse_if (ltb maximum 1) bad_maximum j (
    with_file reading maximum j
      (λ digest size. write_artifact disk (artifact_of path role media digest size) j))

-- `record_existing_artifact`
unfoldable pub record_existing_artifact :
    Disk → Reading → String → ArtifactRole → String → ℕ → Journal → Outcome
unfolding record_artifact refuse_if with_file
record_existing_artifact disk reading path role media maximum j =
    refuse_if (not (j.status == running)) finalized j (
      refuse_if (ltb maximum 1) bad_maximum j (
        refuse_if (not disk.target_is_safe) unsafe_target j (
          with_file reading maximum j
            (λ digest size. record_artifact disk (artifact_of path role media digest size) j))))
