-- ===== src/Journal/Saved.antt =====
-- What of a run journal (src/evitriage/run_artifacts.py) holds whatever the disk does: what the saved
-- manifest is, when it is current, and what a finalized journal still accepts.
use evi_triage_ql.Prelude.{
  ℕ, String, ◌≡◌, refl, subst, Bool, true, false, Option, none, some, List, [], ◌∷◌, nat_eq, ltb,
  Result, ok, err,
}
use evi_triage_ql.Evidence.{Sha256}
use evi_triage_ql.Manifest.{
  WorkflowState, InputMode, status_eq, RunManifest, ManifestError, audit_chain_is_consistent,
  ArtifactRecord, ArtifactRole,
}
use evi_triage_ql.Journal.{
  Disk, Saving, saved, not_saved, saved_unprotected, Reading, content, unreadable, JournalError,
  Journal, Outcome, refuse_if, ◌then◌, EventDetails, manifest, replace_owned_file, append_event,
  persist_manifest, replace_when, transition, add_versions, add_tool_versions, record_artifact,
  write_artifact, ingest_file, record_existing_artifact, with_file, too_large,
}
use evi_triage_ql.Journal.Lifecycle.{
  complete, fail, start, Operation, move, add_tools, write, ingest, register, finish, give_up,
  perform, run_operations, finalize_registered_artifacts, finalize_audit_files, Allocation, blank,
}

-- The manifest on disk, when there is one, is one that the validator accepts.
pub SavedIsAudited : Option RunManifest → Type 0
SavedIsAudited none = Unit
SavedIsAudited (some m) = audit_chain_is_consistent m ≡ ok tt

pub IsSound : Outcome → Type 0
IsSound o = SavedIsAudited (o.0.on_disk)

IsSound-intro : (o : Outcome) → SavedIsAudited o.0.on_disk → IsSound o
unfolding IsSound
IsSound-intro o h = h

IsSound-elim : (o : Outcome) → IsSound o → SavedIsAudited o.0.on_disk
unfolding IsSound
IsSound-elim o h = h

refuse_if-IsSound :
    (b : Bool) (e : JournalError) (j : Journal) (rest : Outcome)
    → SavedIsAudited j.on_disk
    → (SavedIsAudited j.on_disk → IsSound rest)
    → IsSound (refuse_if b e j rest)
unfolding IsSound refuse_if
refuse_if-IsSound true e j rest h f = h
refuse_if-IsSound false e j rest h f = f h

then-IsSound :
    (o : Outcome) (k : Journal → Outcome)
    → IsSound o
    → ((j : Journal) → SavedIsAudited j.on_disk → IsSound (k j))
    → IsSound (o then k)
unfolding IsSound ◌then◌
then-IsSound (j, none) k h f = f j h
then-IsSound (j, some e) k h f = h

replace-IsSound :
    (s : Saving) (m : RunManifest) (j : Journal)
    → audit_chain_is_consistent m ≡ ok tt
    → SavedIsAudited j.on_disk
    → IsSound (replace_owned_file s m j)
unfolding IsSound replace_owned_file SavedIsAudited
replace-IsSound saved m j a h = a
replace-IsSound not_saved m j a h = h
replace-IsSound saved_unprotected m j a h = a

by_audit-IsSound :
    (disk : Disk) (j : Journal) (r : Result ManifestError (Unit {0}))
    → audit_chain_is_consistent (manifest j) ≡ r
    → SavedIsAudited j.on_disk
    → IsSound (replace_when disk j r)
unfolding IsSound replace_when
by_audit-IsSound disk j (ok u) a h = replace-IsSound disk.saving (manifest j) j a h
by_audit-IsSound disk j (err e) a h = h

persist_manifest-IsSound :
    (disk : Disk) (j : Journal) → SavedIsAudited j.on_disk → IsSound (persist_manifest disk j)
unfolding persist_manifest
persist_manifest-IsSound disk j h =
    by_audit-IsSound disk j (audit_chain_is_consistent (manifest j)) refl h

append_event-IsSound :
    (disk : Disk) (time : ℕ) (details : EventDetails) (before : Option WorkflowState)
    (after : WorkflowState) (j : Journal)
    → SavedIsAudited j.on_disk
    → IsSound (append_event disk time details before after j)
unfolding append_event
append_event-IsSound disk time details before after j h = search (refuse_if-IsSound, IsSound-intro)

transition-IsSound :
    (disk : Disk) (t : WorkflowState) (details : EventDetails) (j : Journal)
    → SavedIsAudited j.on_disk
    → IsSound (transition disk t details j)
unfolding transition
transition-IsSound disk t details j h =
    search (refuse_if-IsSound, then-IsSound, append_event-IsSound, persist_manifest-IsSound)

add_versions-IsSound :
    (versions : List (String × String)) (j : Journal)
    → SavedIsAudited j.on_disk
    → IsSound (add_versions versions j)
unfolding add_versions
add_versions-IsSound [] j h = IsSound-intro (j, none) h
add_versions-IsSound ((name, version) ∷ versions) j h =
    search (refuse_if-IsSound, add_versions-IsSound versions)

add_tool_versions-IsSound :
    (disk : Disk) (versions : List (String × String)) (j : Journal)
    → SavedIsAudited j.on_disk
    → IsSound (add_tool_versions disk versions j)
unfolding add_tool_versions
add_tool_versions-IsSound disk versions j h =
    search (refuse_if-IsSound, then-IsSound, add_versions-IsSound, persist_manifest-IsSound)

record_artifact-IsSound :
    (disk : Disk) (artifact : ArtifactRecord) (j : Journal)
    → SavedIsAudited j.on_disk
    → IsSound (record_artifact disk artifact j)
unfolding record_artifact
record_artifact-IsSound disk artifact j h = search (refuse_if-IsSound, persist_manifest-IsSound)

write_artifact-IsSound :
    (disk : Disk) (artifact : ArtifactRecord) (j : Journal)
    → SavedIsAudited j.on_disk
    → IsSound (write_artifact disk artifact j)
unfolding write_artifact
write_artifact-IsSound disk artifact j h = search (refuse_if-IsSound, record_artifact-IsSound)

with_file-IsSound :
    (reading : Reading) (maximum : ℕ) (j : Journal) (k : Sha256 → ℕ → Outcome)
    → SavedIsAudited j.on_disk
    → ((digest : Sha256) (size : ℕ) → IsSound (k digest size))
    → IsSound (with_file reading maximum j k)
unfolding IsSound with_file
with_file-IsSound unreadable maximum j k h f = h
with_file-IsSound (content digest size) maximum j k h f =
    refuse_if-IsSound (ltb maximum size) too_large j (k digest size) h (λ _. f digest size)

register-IsSound :
    (disk : Disk) (reading : Reading) (path : String) (role : ArtifactRole) (media : String)
    (maximum : ℕ) (j : Journal)
    → SavedIsAudited j.on_disk
    → IsSound (record_existing_artifact disk reading path role media maximum j)
unfolding record_existing_artifact
register-IsSound disk reading path role media maximum j h =
    search (refuse_if-IsSound, with_file-IsSound, record_artifact-IsSound)

finalize_registered-IsSound :
    (disk : Disk) (j : Journal)
    → SavedIsAudited j.on_disk
    → IsSound (finalize_registered_artifacts disk j)
unfolding finalize_registered_artifacts
finalize_registered-IsSound disk j h = search (refuse_if-IsSound, IsSound-intro)

finalize_audit-IsSound :
    (disk : Disk) (j : Journal) → SavedIsAudited j.on_disk → IsSound (finalize_audit_files disk j)
unfolding finalize_audit_files
finalize_audit-IsSound disk j h = search (refuse_if-IsSound, IsSound-intro)

complete-IsSound :
    (disk : Disk) (j : Journal) → SavedIsAudited j.on_disk → IsSound (complete disk j)
unfolding complete
complete-IsSound disk j h = search (
  refuse_if-IsSound, then-IsSound, finalize_registered-IsSound, persist_manifest-IsSound,
  finalize_audit-IsSound,
)

fail-IsSound :
    (disk : Disk) (t : WorkflowState) (code : String) (artifact : Option Sha256) (j : Journal)
    → SavedIsAudited j.on_disk
    → IsSound (fail disk t code artifact j)
unfolding fail
fail-IsSound disk t code artifact j h =
    search
      (
        refuse_if-IsSound, then-IsSound, finalize_registered-IsSound, append_event-IsSound,
        persist_manifest-IsSound, finalize_audit-IsSound,
      )
      depth 9

perform-IsSound :
    (disk : Disk) (operation : Operation) (j : Journal)
    → SavedIsAudited j.on_disk
    → IsSound (perform disk operation j)
unfolding ingest_file
perform-IsSound disk (move t details) j h = transition-IsSound disk t details j h
perform-IsSound disk (add_tools versions) j h = add_tool_versions-IsSound disk versions j h
perform-IsSound disk (write artifact) j h = write_artifact-IsSound disk artifact j h
perform-IsSound disk (ingest reading path role media maximum) j h =
    search (refuse_if-IsSound, with_file-IsSound, write_artifact-IsSound)
perform-IsSound disk (register reading path role media maximum) j h =
    register-IsSound disk reading path role media maximum j h
perform-IsSound disk finish j h = complete-IsSound disk j h
perform-IsSound disk (give_up t code artifact) j h = fail-IsSound disk t code artifact j h

start-IsSound :
    (disk disk1 disk2 : Disk) (exists : Bool) (first second : Reading) (allocation : Allocation)
    (mode : InputMode)
    → IsSound (start disk disk1 disk2 exists first second allocation mode)
unfolding start SavedIsAudited
start-IsSound disk disk1 disk2 exists first second allocation mode =
    let h : SavedIsAudited (blank allocation mode disk.now).on_disk = tt in
    search (
      refuse_if-IsSound, then-IsSound, append_event-IsSound, persist_manifest-IsSound,
      register-IsSound,
    )

run_operations_sound :
    (operations : List (Disk × Operation)) (j : Journal)
    → SavedIsAudited j.on_disk
    → SavedIsAudited (run_operations operations j).on_disk
unfolding run_operations
run_operations_sound [] j h = h
run_operations_sound ((disk, operation) ∷ rest) j h =
    run_operations_sound rest (perform disk operation j).0
      (IsSound-elim _ (perform-IsSound disk operation j h))

-- A journal begun by its constructor, with any disk, and then given any operations in any order, each
-- with any disk and continued even after an exception, never leaves on disk a manifest that the
-- manifest's own validator refuses.
pub saved_manifest-IsAudited :
    (disk disk1 disk2 : Disk) (exists : Bool) (first second : Reading) (allocation : Allocation)
    (mode : InputMode) (operations : List (Disk × Operation)) (m : RunManifest)
    → (run_operations operations
        (start disk disk1 disk2 exists first second allocation mode).0).on_disk
      ≡ some m
    → audit_chain_is_consistent m ≡ ok tt
unfolding IsSound SavedIsAudited
saved_manifest-IsAudited disk disk1 disk2 exists first second allocation mode operations m h =
    subst SavedIsAudited h (
      run_operations_sound operations _
        (start-IsSound disk disk1 disk2 exists first second allocation mode))
