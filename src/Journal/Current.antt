-- ===== src/Journal/Current.antt =====
-- What an operation on a run journal (src/evitriage/run_artifacts.py) that raised nothing left behind,
-- and what one on a finalized journal does.
use evi_triage_ql.Prelude.{
  ℕ, String, ◌≡◌, refl, Bool, true, false, not, ◌||◌, Option, none, some, List, ◌==◌, Result, ok,
  err, ltb,
}
use evi_triage_ql.Evidence.{Sha256}
use evi_triage_ql.Manifest.{
  WorkflowState, running, status_eq, ManifestError, audit_chain_is_consistent, ArtifactRecord,
}
use evi_triage_ql.Journal.{
  Disk, Saving, saved, not_saved, saved_unprotected, Reading, content, unreadable, JournalError,
  Journal, Outcome, refuse_if, ◌then◌, EventDetails, manifest, replace_owned_file, replace_when,
  persist_manifest, transition, add_tool_versions, record_artifact, write_artifact, ingest_file,
  record_existing_artifact, with_file, audit_not_protected, done,
}
use evi_triage_ql.Journal.Lifecycle.{
  complete, fail, Operation, move, add_tools, write, ingest, register, finish, give_up, perform,
  finalize_audit_files,
}

-- The saved manifest is the journal's, and its validator accepts it.
pub record IsCurrent (j : Journal) : Type 0 where
  pub saved : j.on_disk ≡ some (manifest j)
  pub audited : audit_chain_is_consistent (manifest j) ≡ ok tt

-- If nothing was raised, the journal is current.
Leaves : Outcome → Type 0
Leaves o = o.1 ≡ none → IsCurrent o.0

refuse_if-Leaves :
    (b : Bool) (e : JournalError) (j : Journal) (rest : Outcome)
    → Leaves rest
    → Leaves (refuse_if b e j rest)
unfolding Leaves refuse_if
refuse_if-Leaves true e j rest f h = cc h
refuse_if-Leaves false e j rest f h = f h

with_file-Leaves :
    (reading : Reading) (maximum : ℕ) (j : Journal) (k : Sha256 → ℕ → Outcome)
    → ((digest : Sha256) (size : ℕ) → Leaves (k digest size))
    → Leaves (with_file reading maximum j k)
unfolding with_file Leaves
with_file-Leaves unreadable maximum j k f h = cc h
with_file-Leaves (content digest size) maximum j k f h =
    refuse_if-Leaves (ltb maximum size) _ j (k digest size) (f digest size) h

then-Leaves :
    (o : Outcome) (k : Journal → Outcome) → ((j : Journal) → Leaves (k j)) → Leaves (o then k)
unfolding Leaves ◌then◌
then-Leaves (j, none) k f h = f j h
then-Leaves (j, some e) k f h = cc h

replace-Leaves :
    (s : Saving) (j : Journal)
    → audit_chain_is_consistent (manifest j) ≡ ok tt
    → Leaves (replace_owned_file s (manifest j) j)
unfolding Leaves replace_owned_file manifest
replace-Leaves saved j a h = record { saved = refl; audited = a }
replace-Leaves not_saved j a h = cc h
replace-Leaves saved_unprotected j a h = cc h

by_audit-Leaves :
    (disk : Disk) (j : Journal) (r : Result ManifestError (Unit {0}))
    → audit_chain_is_consistent (manifest j) ≡ r
    → Leaves (replace_when disk j r)
unfolding Leaves replace_when
by_audit-Leaves disk j (ok u) a h = replace-Leaves disk.saving j a h
by_audit-Leaves disk j (err e) a h = cc h

persist_manifest-Leaves : (disk : Disk) (j : Journal) → Leaves (persist_manifest disk j)
unfolding persist_manifest
persist_manifest-Leaves disk j =
    by_audit-Leaves disk j (audit_chain_is_consistent (manifest j)) refl

unchanged_if :
    (b : Bool) (j : Journal)
    → Leaves (j, none)
    → Leaves (refuse_if b audit_not_protected j (done j))
unfolding Leaves refuse_if
unchanged_if true j f h = cc h
unchanged_if false j f h = f refl

-- Protecting the audit files leaves the journal as it was.
protected-Leaves :
    (disk : Disk) (o : Outcome) → Leaves o → Leaves (o then finalize_audit_files disk)
unfolding Leaves ◌then◌ finalize_audit_files
protected-Leaves disk (j, some e) f h = cc h
protected-Leaves disk (j, none) f h = unchanged_if (not disk.audit_files_protected) j f h

transition-Leaves :
    (disk : Disk) (t : WorkflowState) (details : EventDetails) (j : Journal)
    → Leaves (transition disk t details j)
unfolding transition
transition-Leaves disk t details j = search (refuse_if-Leaves, then-Leaves, persist_manifest-Leaves)

add_tool_versions-Leaves :
    (disk : Disk) (versions : List (String × String)) (j : Journal)
    → Leaves (add_tool_versions disk versions j)
unfolding add_tool_versions
add_tool_versions-Leaves disk versions j =
    search (refuse_if-Leaves, then-Leaves, persist_manifest-Leaves)

record_artifact-Leaves :
    (disk : Disk) (artifact : ArtifactRecord) (j : Journal)
    → Leaves (record_artifact disk artifact j)
unfolding record_artifact
record_artifact-Leaves disk artifact j = search (refuse_if-Leaves, persist_manifest-Leaves)

write_artifact-Leaves :
    (disk : Disk) (artifact : ArtifactRecord) (j : Journal)
    → Leaves (write_artifact disk artifact j)
unfolding write_artifact
write_artifact-Leaves disk artifact j = search (refuse_if-Leaves, record_artifact-Leaves)

complete-Leaves : (disk : Disk) (j : Journal) → Leaves (complete disk j)
unfolding complete
complete-Leaves disk j =
    search (refuse_if-Leaves, protected-Leaves, then-Leaves, persist_manifest-Leaves)

fail-Leaves :
    (disk : Disk) (t : WorkflowState) (code : String) (artifact : Option Sha256) (j : Journal)
    → Leaves (fail disk t code artifact j)
unfolding fail
fail-Leaves disk t code artifact j =
    search (refuse_if-Leaves, protected-Leaves, then-Leaves, persist_manifest-Leaves)

perform-Leaves :
    (disk : Disk) (operation : Operation) (j : Journal) → Leaves (perform disk operation j)
unfolding ingest_file record_existing_artifact
perform-Leaves disk (move t details) j = transition-Leaves disk t details j
perform-Leaves disk (add_tools versions) j = add_tool_versions-Leaves disk versions j
perform-Leaves disk (write artifact) j = write_artifact-Leaves disk artifact j
perform-Leaves disk (ingest reading path role media maximum) j =
    search (refuse_if-Leaves, with_file-Leaves, write_artifact-Leaves)
perform-Leaves disk (register reading path role media maximum) j =
    search (refuse_if-Leaves, with_file-Leaves, record_artifact-Leaves)
perform-Leaves disk finish j = complete-Leaves disk j
perform-Leaves disk (give_up t code artifact) j = fail-Leaves disk t code artifact j

-- An operation on any journal, with any disk, that raises nothing leaves on disk exactly the manifest
-- of the journal as it then is, and that manifest passes its validator.
pub perform-IsCurrent :
    (disk : Disk) (operation : Operation) (j : Journal)
    → (perform disk operation j).1 ≡ none
    → IsCurrent (perform disk operation j).0
unfolding Leaves
perform-IsCurrent disk operation j h = perform-Leaves disk operation j h

-- The call raised something and left the journal as it was.
abbrev Refuses : Outcome → Journal → Type 0
Refuses o j = (e : JournalError) × (o ≡ (j, some e))

refuse_if-Refuses :
    (b : Bool) (e : JournalError) (j : Journal) (rest : Outcome)
    → b ≡ true
    → Refuses (refuse_if b e j rest) j
unfolding refuse_if
refuse_if-Refuses true e j rest h = (e, refl)
refuse_if-Refuses false e j rest h = absurd (cc h)

refuse_if-passes_on :
    (b : Bool) (e : JournalError) (j : Journal) (rest : Outcome)
    → Refuses rest j
    → Refuses (refuse_if b e j rest) j
unfolding refuse_if
refuse_if-passes_on true e j rest h = (e, refl)
refuse_if-passes_on false e j rest h = h

with_file-Refuses :
    (reading : Reading) (maximum : ℕ) (j : Journal) (k : Sha256 → ℕ → Outcome)
    → ((digest : Sha256) (size : ℕ) → Refuses (k digest size) j)
    → Refuses (with_file reading maximum j k) j
unfolding with_file
with_file-Refuses unreadable maximum j k f = (_, refl)
with_file-Refuses (content digest size) maximum j k f = refuse_if-passes_on _ _ j _ (f digest size)

write_artifact-Refuses :
    (disk : Disk) (artifact : ArtifactRecord) (j : Journal)
    → not (j.status == running) ≡ true
    → Refuses (write_artifact disk artifact j) j
unfolding write_artifact
write_artifact-Refuses disk artifact j h = search (refuse_if-Refuses)

operation-Refuses :
    (disk : Disk) (operation : Operation) (j : Journal)
    → not (j.status == running) ≡ true
    → Refuses (perform disk operation j) j
unfolding transition add_tool_versions ingest_file record_existing_artifact complete fail
operation-Refuses disk (move t details) j h = search (refuse_if-Refuses)
operation-Refuses disk (add_tools versions) j h = search (refuse_if-Refuses)
operation-Refuses disk (write artifact) j h = write_artifact-Refuses disk artifact j h
operation-Refuses disk (ingest reading path role media maximum) j h =
    search (refuse_if-passes_on, with_file-Refuses, write_artifact-Refuses)
operation-Refuses disk (register reading path role media maximum) j h = search (refuse_if-Refuses)
operation-Refuses disk finish j h =
    let either : (b : Bool) → (not (j.status == running) || b) ≡ true = λ b. rw h refl in
    search (refuse_if-Refuses, either)
operation-Refuses disk (give_up t code artifact) j h =
    search (refuse_if-passes_on, refuse_if-Refuses)

-- Every operation on a finalized journal, one whose status is not running, raises and leaves the
-- journal as it was.
pub perform_finalized :
    (disk : Disk) (operation : Operation) (j : Journal)
    → (j.status == running) ≡ false
    → (e : JournalError) × (perform disk operation j ≡ (j, some e))
perform_finalized disk operation j h = operation-Refuses disk operation j (rw h refl)
