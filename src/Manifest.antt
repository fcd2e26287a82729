-- ===== src/Manifest.antt =====
-- The audit records of src/evitriage/domain/run.py: workflow states, events, the run manifest and
-- the validator that checks a manifest against its event history.
--
-- A time is the number of microseconds of a UTC timestamp, so that times compare as numbers; the
-- check that a timestamp has a timezone is pydantic's and is not modelled.

pub mod Audit
use Prim.Native.Char.{code}
use evi_triage_ql.Prelude.{
  ℕ, zero, suc, ◌+◌, String, Bool, true, false, not, ◌&&◌, ◌||◌, Option, none, some, List, [], ◌∷◌,
  map, Eq, ◌==◌, nat_eq, string_eq, enum_eq, ltb, leb, Result, ok, err, raise_if, ◌>>◌, ◌>>=◌, any,
  elem, is_unique, Dict, if◌then◌else◌,
}
use evi_triage_ql.Evidence.{Sha256}

pub data WorkflowState : Type 0 where
  created project_validated workspace_ready source_ready build_ready : WorkflowState
  codeql_db_ready scanned sarif_ingested normalized context_ready analyzed : WorkflowState
  rebutted judged invalid_sarif codeql_failed context_incomplete model_failed : WorkflowState
  policy_rejected : WorkflowState

unfoldable pub WorkflowState-discrete : Discrete WorkflowState
WorkflowState-discrete = hlevel

instance abbrev pub state_eq : Eq WorkflowState
state_eq = enum_eq WorkflowState-discrete

pub data ArtifactRole : Type 0 where
  input normalized context evidence tool_log tool_output metadata model decision : ArtifactRole
  report : ArtifactRole

pub record ArtifactRecord : Type 0 where
  pub relative_path : String
  pub sha256 : Sha256
  pub size_bytes : ℕ
  pub role : ArtifactRole
  pub media_type : String

pub record WorkflowEvent : Type 0 where
  pub sequence : ℕ
  pub event_type : String
  pub from_state : Option WorkflowState
  pub to_state : WorkflowState
  pub project_spec_sha256 : Sha256
  pub snapshot_identity : Sha256
  pub input_sha256 : Option Sha256
  pub output_sha256 : Option Sha256
  pub tool_manifest_sha256 : Option Sha256
  pub error_code : Option String
  pub retry_count : ℕ
  pub occurred_at : ℕ

abbrev pub is_between : ℕ → ℕ → ℕ → Bool
is_between low high c = leb low c && leb c high

-- Each character is of `[a-z0-9_]`.
unfoldable pub are_word_characters : String → Bool
are_word_characters String.[] = true
are_word_characters (String.◌∷◌ c s) =
    (is_between 97 122 (code c) || (is_between 48 57 (code c) || (code c == 95)))
    && are_word_characters s

unfoldable pub characters : String → ℕ
characters String.[] = 0
characters (String.◌∷◌ c s) = suc (characters s)

-- `WorkflowEvent.event_type`: at most 128 characters, of the pattern `^[a-z][a-z0-9_]*$`
unfoldable pub is_event_type : String → Bool
unfolding are_word_characters characters
is_event_type String.[] = false
is_event_type (String.◌∷◌ c s) =
    is_between 97 122 (code c) && (are_word_characters s && ltb (characters s) 128)

-- `WorkflowEvent.error_code`: none, or of 1 to 128 characters
unfoldable pub is_error_code : Option String → Bool
unfolding characters
is_error_code none = true
is_error_code (some text) = is_between 1 128 (characters text)

pub data InputMode : Type 0 where
  sarif scan : InputMode

pub data RunStatus : Type 0 where
  running completed failed : RunStatus

unfoldable pub InputMode-discrete : Discrete InputMode
InputMode-discrete = hlevel

unfoldable pub RunStatus-discrete : Discrete RunStatus
RunStatus-discrete = hlevel

instance abbrev pub mode_eq : Eq InputMode
mode_eq = enum_eq InputMode-discrete

instance abbrev pub status_eq : Eq RunStatus
status_eq = enum_eq RunStatus-discrete

pub record RunManifest : Type 0 where
  pub run_id : String
  pub project_id : String
  pub input_mode : InputMode
  pub project_spec_sha256 : Sha256
  pub snapshot_identity : Sha256
  pub state : WorkflowState
  pub status : RunStatus
  pub artifacts : List ArtifactRecord
  pub events : List WorkflowEvent
  pub tool_versions : Dict String String
  pub started_at : ℕ
  pub updated_at : ℕ
  pub completed_at : Option ℕ

-- The five terminal failures.
abbrev pub failure_states : List WorkflowState
failure_states =
    invalid_sarif ∷ codeql_failed ∷ context_incomplete ∷ model_failed ∷ policy_rejected ∷ []

unfoldable pub is_failure : WorkflowState → Bool
is_failure s = elem s failure_states

-- The table `allowed` of `_workflow_transition_is_allowed`.
abbrev pub successors : WorkflowState → List WorkflowState
successors created = project_validated ∷ []
successors project_validated = workspace_ready ∷ []
successors workspace_ready = source_ready ∷ []
successors source_ready = build_ready ∷ sarif_ingested ∷ []
successors build_ready = codeql_db_ready ∷ []
successors codeql_db_ready = scanned ∷ []
successors scanned = WorkflowState.normalized ∷ []
successors sarif_ingested = WorkflowState.normalized ∷ []
successors WorkflowState.normalized = context_ready ∷ []
successors context_ready = analyzed ∷ []
successors analyzed = rebutted ∷ []
successors rebutted = judged ∷ []
successors judged = []
successors invalid_sarif = []
successors codeql_failed = []
successors context_incomplete = []
successors model_failed = []
successors policy_rejected = []

-- `_workflow_transition_is_allowed`
unfoldable pub transition_is_allowed : WorkflowState → WorkflowState → Bool
unfolding is_failure elem
transition_is_allowed previous following =
    if is_failure following then not (is_failure previous) else elem following (successors previous)

-- The messages of the validator.
pub data ManifestError : Type 0 where
  no_events bad_start not_contiguous foreign_spec foreign_snapshot discontinuous : ManifestError
  invalid_transition state_mismatch duplicate_paths codeql_branch_in_sarif : ManifestError
  sarif_branch_in_scan codeql_failed_in_sarif running_with_completion : ManifestError
  bad_completion bad_failure failure_needs_status updated_before_start : ManifestError
  completed_before_start updated_before_event bad_tool_versions : ManifestError

abbrev pub is_state : WorkflowState → Option WorkflowState → Bool
is_state s none = false
is_state s (some t) = t == s

-- One round of the loop over the events, at its index and with the state before it.
unfoldable pub check_event :
    Sha256 → Sha256 → ℕ → WorkflowState → WorkflowEvent → Result ManifestError (Unit {0})
check_event spec snapshot index previous event = do
  raise_if (not (event.sequence == index)) not_contiguous
  raise_if (not (event.project_spec_sha256 == spec)) foreign_spec
  raise_if (not (event.snapshot_identity == snapshot)) foreign_snapshot
  raise_if (ltb 0 index && not (is_state previous event.from_state)) discontinuous
  raise_if (ltb 0 index && not (transition_is_allowed previous event.to_state)) invalid_transition

-- The loop, which returns the state after the last event.
unfoldable pub check_events :
    Sha256 → Sha256 → ℕ → WorkflowState → List WorkflowEvent → Result ManifestError WorkflowState
check_events spec snapshot index previous [] = ok previous
check_events spec snapshot index previous (event ∷ events) = do
  check_event spec snapshot index previous event
  check_events spec snapshot (index + 1) event.to_state events

abbrev pub to_codeql_branch : WorkflowEvent → Bool
to_codeql_branch event = elem event.to_state (build_ready ∷ codeql_db_ready ∷ scanned ∷ [])

abbrev pub to_sarif_branch : WorkflowEvent → Bool
to_sarif_branch event = event.to_state == sarif_ingested

abbrev pub has_control : String → Bool
has_control String.[] = false
has_control (String.◌∷◌ c s) = ltb (code c) 32 || has_control s

abbrev pub is_blank : String → Bool
is_blank String.[] = true
is_blank (String.◌∷◌ c s) = false

-- `not name or not version or any(ord(character) < 32 for character in name + version)`
unfoldable pub is_bad_version : String × String → Bool
is_bad_version (name, version) =
    is_blank name || (is_blank version || (has_control name || has_control version))

unfoldable pub last_time : ℕ → List WorkflowEvent → ℕ
last_time t [] = t
last_time t (event ∷ events) = last_time event.occurred_at events

abbrev pub before : Option ℕ → ℕ → Bool
before none t = false
before (some c) t = ltb c t

abbrev pub is_none : Option ℕ → Bool
is_none none = true
is_none (some _) = false

abbrev pub starts_badly : WorkflowEvent → Bool
starts_badly first =
    not (first.sequence == 0)
    || (elim first.from_state [ none ↦ false | some _ ↦ true ] || not (first.to_state == created))

abbrev pub path_of : ArtifactRecord → String
path_of artifact = artifact.relative_path

-- The checks of the validator on the final state, the status and the times, in their order.
unfoldable pub check_ending : RunManifest → Result ManifestError (Unit {0})
unfolding is_failure is_bad_version last_time
check_ending m = do
  raise_if (not (is_unique (map path_of m.artifacts))) duplicate_paths
  raise_if ((m.input_mode == sarif) && any to_codeql_branch m.events) codeql_branch_in_sarif
  raise_if ((m.input_mode == scan) && any to_sarif_branch m.events) sarif_branch_in_scan
  raise_if ((m.input_mode == sarif) && (m.state == codeql_failed)) codeql_failed_in_sarif
  raise_if ((m.status == running) && not (is_none m.completed_at)) running_with_completion
  raise_if
      ((m.status == completed)
        && (not (elem m.state (context_ready ∷ judged ∷ [])) || is_none m.completed_at))
      bad_completion
  raise_if ((m.status == failed) && (not (is_failure m.state) || is_none m.completed_at))
      bad_failure
  raise_if (not (m.status == failed) && is_failure m.state) failure_needs_status
  raise_if (ltb m.updated_at m.started_at) updated_before_start
  raise_if (before m.completed_at m.started_at) completed_before_start
  raise_if (ltb m.updated_at (last_time 0 m.events)) updated_before_event
  raise_if (any is_bad_version m.tool_versions) bad_tool_versions

abbrev pub check_start : List WorkflowEvent → Result ManifestError (Unit {0})
check_start [] = err no_events
check_start (first ∷ _) = raise_if (starts_badly first) bad_start

-- `RunManifest._audit_chain_is_consistent`
unfoldable pub audit_chain_is_consistent : RunManifest → Result ManifestError (Unit {0})
unfolding check_event check_events check_ending
audit_chain_is_consistent m = do
  check_start m.events
  final ← check_events m.project_spec_sha256 m.snapshot_identity 0 created m.events
  raise_if (not (final == m.state)) state_mismatch
  check_ending m
