-- ===== src/Lib.antt =====
-- EviTriage-QL, a triage pipeline for CodeQL alerts: models and proofs of its core.
--
-- The program reads SARIF results, gathers evidence for each alert into a registry, has three
-- language-model agents (Analyst, Rebuttal, Judge) make claims that cite that evidence, and lets a
-- deterministic policy turn the Judge's candidate label into the final decision. A run is recorded
-- by a journal whose manifest is checked against its own event history.
--
-- The parts and the files:
-- - Prelude: names of the libraries, and a Python exception as a result, sets, dictionaries, sorting
--   and loops over lists.
-- - Evidence, Evidence/Registry: src/evitriage/domain/evidence.py, the evidence items, claims and the
--   registry (`EvidenceRegistry`) with `validate_closed_registry`; references to a SARIF result are
--   those of src/evitriage/domain/alerts.py. Evidence/Registry/Closure says what the validator accepts.
-- - Alerts: src/evitriage/domain/alerts.py, the normalized alerts, data-flow paths and bundles;
--   Alerts/Bundle says what an accepted bundle has.
-- - Triage, Triage/Stages: src/evitriage/domain/triage.py, the agents' outputs, the records of a
--   triage and of its stages, their validators, `materialize_claim`;
--   Triage/Shape says when the validator of `Claim` accepts what it makes.
-- - Policy: src/evitriage/agents/policy.py, `DeterministicDecisionPolicy.apply`. Policy/Basis is the
--   specification, written of the registry and the claims alone; Trace, Reflection, Considering and
--   GateLaws relate the code's dictionaries, sets and gates to it; Labels, Decision, Safety and
--   Totality prove the properties.
-- - Resource: src/evitriage/domain/resource.py, the resource agents' outputs and their validators.
-- - ResourcePolicy: src/evitriage/agents/resource_policy.py, `ResourceDecisionPolicy.apply`, with the
--   gates in their order; ResourcePolicy/Basis says what a binary label rests on and
--   ResourcePolicy/Decision proves it of `apply`.
-- - Manifest: src/evitriage/domain/run.py, the workflow states, the events and the audit of a
--   `RunManifest`; Manifest/Audit takes the audit apart and extends a history by an event.
-- - Journal, Journal/Lifecycle: src/evitriage/run_artifacts.py, `RunJournal`. Journal/Saved,
--   Journal/Current and Journal/Step prove its properties.
-- - Workflow: src/evitriage/agents/workflow.py, `TriageWorkflow`. Workflow/Role is `_complete_role`,
--   the attempts of one agent; Workflow/Validators the semantic validators of a response;
--   Workflow/Security `triage`, the three roles, the policy and the result. Workflow/Calls says what a
--   role's run adds to the invocations, Made counts the calls that its model receives and Bounds has
--   the limits of both, Grounded takes the validators apart, and Ends and Complete compose the roles
--   with the policy's totality.
-- - ResourceWorkflow: src/evitriage/agents/resource_workflow.py, `ResourceTriageWorkflow`: the validators
--   of its responses, and in ResourceWorkflow/Triage `triage`. Its `_complete` is the loop of Workflow/Role
--   with another repair entry, which has the issues of the last error. ResourceWorkflow/Dispatcher is
--   `TriageDispatcher` of src/evitriage/agents/dispatcher.py; ResourceWorkflow/Bounds has the limits of the calls,
--   ResourceWorkflow/Accepted says what the Rebuttal's validator accepts.
-- - Observability: src/evitriage/observability.py, the redaction of a payload before it is sent.
-- - Supplement: src/evitriage/evidence/registry.py, `merge_evidence_supplement`, and the supplements of
--   src/evitriage/domain/evidence.py; Supplement/Items and Supplement/Merge prove what it does.
-- - Sarif: src/evitriage/sarif/normalizer.py, how the URI of a location becomes a path below the source
--   root: Uri is the parsing, Bases the bases of a run with their cache, PathText the validator of a
--   location's path in src/evitriage/domain/alerts.py. Safe, Joined and Resolved prove what a path has.
--   Raw has the records of src/evitriage/sarif/raw_models.py, Located the location that a result names
--   with the digest of its file, Rules the rules, the data flows and the fingerprints, and Normalize
--   `SarifNormalizer.normalize`; the limits on the lengths of the texts are not modelled. Normalized,
--   Provenance and Accepted prove that the validators of src/evitriage/domain/alerts.py, which the
--   constructors call and the model leaves out there, accept what it returns.
-- - Context: src/evitriage/domain/context.py, the slices of source that an alert's context is made of.
-- - ContextBuilder: src/evitriage/context/builder.py. Reading is `_read_source` with its cache; Selecting
--   the references, the coordinate checks, the policies and the first loop of `_build_alert`; Strip,
--   Lines and Callable are the stripping of comments, the line numbers and the search for the callable
--   around a line; Callees the same-file callees and the lexical candidates; Build the token budget, the
--   artifact and `build`. Blank, Enclosing, Placed, Gathering, Expansions, Budget, Accepted and Cache
--   prove their properties; Detail has the texts of the omissions.
-- - Builder: src/evitriage/evidence/registry.py, `build_evidence_registry`. Builder/Walk makes its items
--   and Builder/Build its loops; Builder/Sound says what a step keeps of the graph, Builder/Alert and
--   Builder/Closed compose the steps.
-- - Evaluation: src/evitriage/evaluation.py, the comparison of final decisions with a human baseline;
--   Evaluation/Summary is its rows, matrix and rates, Evaluation/Final the whole comparison;
--   Evaluation/Tally is about the confusion matrix, Evaluation/Cases about results and errors.
-- - The modules named Tests run the definitions on small inputs.
--
-- How code becomes definitions: a method that raises returns a `Result`, or, on a journal, the
-- journal as it is left with the exception, since the object outlives the exception. A dictionary
-- is an association list with the last binding of a key in the place of the first; a set is a list
-- without repetitions. Identifiers and digests are numbers: they are hexadecimal texts of one length,
-- so equality and order agree. Timestamps are numbers of microseconds.
-- A call that may use the language model takes the session, which is the invocations on record and the
-- model's own state, and returns or raises with the session as it is then.
-- Every loop is a recursion on a list, or, in `_complete_role`, on the attempts that are left; only the
-- binary search for a line takes fuel, one more than the lines there are, which is always enough. A rate, a float, is kept as the quotient that it is computed as.
--
-- What is a parameter: SHA-256 of the canonical JSON is the argument `digest`; what the operating
-- system does for the journal is the argument `Disk` (did the event log take the line, how did the
-- replacement of the manifest end, were the artifacts unchanged, what did the clock say) and
-- `Reading` (what reading a file gave). The path and symbolic-link checks of an artifact's target are
-- the field `target_is_safe`.
-- The language model is the record `Model`: functions of the request and of a state of the model, so a
-- run may get any responses in any order. What JSON and SHA-256 compute of a request is the record
-- `Encoding`; what the regular expressions of the redaction and of the
-- lexical observations find, how a number is written, and what `str.strip` and `ord` say of
-- a text, are functions on texts.
--
-- What is not modelled: the limits on lengths, numbers and patterns that pydantic checks on a field
-- (but for the type and the error code of a journal's event, which are checked when it is appended),
-- JSON text, the validators of a path's text but for that of a location, the content of the event log after a failed write, and the parts of the program
-- outside the files named above (the reading of a SARIF file, model clients, workspaces, reports, the command line).
pub mod Prelude
pub mod Evidence
pub mod Alerts
pub mod Triage
pub mod Observability
pub mod Workflow
pub mod ResourceWorkflow
pub mod Evaluation
pub mod Context
pub mod ContextBuilder
pub mod Builder
pub mod Sarif
pub mod Supplement
pub mod Policy
pub mod Resource
pub mod ResourcePolicy
pub mod Manifest
pub mod Journal
