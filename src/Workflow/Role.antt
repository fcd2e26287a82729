-- ===== src/Workflow/Role.antt =====
-- One role of a triage workflow, `TriageWorkflow._complete_role` of src/evitriage/agents/workflow.py:
-- attempts with a bound on the schema repairs and on the model calls. The resource workflow's
-- `_complete` (src/evitriage/agents/resource_workflow.py) is the same loop with another repair entry.
use evi_triage_ql.Prelude.{
  ℕ, zero, suc, ◌+◌, String, Bool, true, false, Option, some, [], ◌∷◌, ◌++◌, Result, ok, err, ltb,
  leb, if◌then◌else◌, length,
}
use evi_triage_ql.Evidence.{Sha256, AgentRole}
use evi_triage_ql.Triage.{TriageTarget, ModelInvocationRecord, InvocationStatus, accepted, invalid}
use evi_triage_ql.Observability.{Json, Items, Fields, redact_mapping}
use evi_triage_ql.Workflow.{
  TriageLimits, LlmProfile, Request, Reply, replied, bad_response, failed, ResponseError,
  too_many_calls, request_too_large, model_failed, response_invalid, Encoding, set_field, Session,
  Answer, Call, throw,
}

-- What a workflow is made with, and the run that it triages for.
pub record Setting : Type 0 where
  pub profile : LlmProfile
  pub limits : TriageLimits
  pub run_id : String
  pub target : TriageTarget

-- What `_complete_role` is told of its role: the payload, the schema's name, the digest and the
-- validator of a response, and the entry `schema_repair` of an attempt.
pub record Task (Output : Type 0) : Type 0 where
  pub role : AgentRole
  pub user_payload : Fields
  pub response_schema : String
  pub output_digest : Output → Sha256
  pub validate : Output → Result ResponseError (Unit {0})
  pub repair_entry : ℕ → Items → Json

-- `issues` are those of the last error, none at first.
-- The payload and the prompt of an attempt: after the first, they ask for a repair.
unfoldable pub attempt_payload : {Output : Type 0} → Encoding → Task Output → ℕ → Items → Fields
unfolding redact_mapping set_field
attempt_payload encoding task zero issues =
    redact_mapping encoding.is_secret encoding.redact_text task.user_payload
attempt_payload encoding task (suc n) issues =
    set_field "schema_repair" (task.repair_entry (suc n) issues)
      (redact_mapping encoding.is_secret encoding.redact_text task.user_payload)

abbrev pub repairs_at : ℕ → Bool
repairs_at zero = false
repairs_at (suc n) = true

unfoldable pub request_of :
    {Output : Type 0} → Setting → Encoding → Task Output → ℕ → Items → Request
unfolding attempt_payload
request_of setting encoding task attempt issues = record {
  system_prompt = record { role = task.role; repairs = repairs_at attempt };
  user_payload = attempt_payload encoding task attempt issues;
  response_schema = task.response_schema;
  run_id = setting.run_id;
  target = setting.target;
  agent_role = task.role;
  attempt = attempt;
  profile = setting.profile;
}

-- `ModelInvocationRecord(...)`, accepted or invalid.
unfoldable pub invocation :
    {Output : Type 0}
    → Setting
    → Encoding
    → Task Output
    → ℕ
    → Items
    → InvocationStatus
    → Option Sha256
    → ModelInvocationRecord
unfolding request_of
invocation setting encoding task attempt issues status response = record {
  agent_role = task.role;
  attempt = attempt;
  request_sha256 = encoding.request_digest (request_of setting encoding task attempt issues);
  prompt_sha256 =
      encoding.prompt_digest (record { role = task.role; repairs = repairs_at attempt });
  response_sha256 = response;
  response_schema = task.response_schema;
  profile_id = setting.profile.id;
  model_id = setting.profile.model_id;
  status = status;
  has_error_code = elim status [ accepted ↦ false | invalid ↦ true ];
}

abbrev pub appended : {S : Type 0} → ModelInvocationRecord → S → Session S → Session S
appended record_of_call model s = record s {
  invocations = s.invocations ++ record_of_call ∷ [];
  model = model;
}

-- How an attempt went: a valid response, one that asks for a repair, or an error of the model.
pub data Verdict (Output : Type 0) : Type 0 where
  accept : Output → Verdict Output
  repair : Option Sha256 → Items → Verdict Output
  give_up : Verdict Output

-- `semantic_validator(output)`, within the `try`.
unfoldable pub judged : {Output : Type 0} → Task Output → Reply Output → Verdict Output
judged task (replied output) = elim (task.validate output) [
  | ok _ ↦ accept output
  | err _ ↦ repair (some (task.output_digest output)) Items.nil
]
judged task (bad_response digest issues) = repair digest issues
judged task failed = give_up

-- `_enforce_request_size`
unfoldable pub is_oversized : TriageLimits → Encoding → Request → Bool
is_oversized limits encoding request =
    ltb limits.maximum_request_bytes
      (encoding.prompt_bytes request.system_prompt + encoding.payload_bytes request.user_payload)

module _ {S Output : Type 0} (setting : Setting) (encoding : Encoding)
    (complete : Request → S → Reply Output × S) (task : Task Output) where
  -- What follows the verdict: the record is appended, and the output returned or `next` tried.
  unfoldable pub conclude : ℕ → Items → S → (Items → Call S Output) → Verdict Output → Call S Output
  unfolding invocation
  conclude attempt issues model next (accept output) s = (
    Answer.returned output,
    appended
        (invocation setting encoding task attempt issues accepted
          (some (task.output_digest output)))
        model s,
  )
  conclude attempt issues model next (repair digest found) s =
      next found (appended (invocation setting encoding task attempt issues invalid digest) model s)
  conclude attempt issues model next give_up s = throw model_failed (record s { model = model })

  -- The call of the model, and what follows.
  unfoldable pub ask : ℕ → Items → (Items → Call S Output) → Call S Output
  unfolding conclude request_of judged
  ask attempt issues next s =
      let reply = complete (request_of setting encoding task attempt issues) s.model in
      conclude attempt issues reply.1 next (judged task reply.0) s

  -- The attempts that are left, from one on; when none is, the last error is raised.
  unfoldable pub attempts : ℕ → ℕ → Items → Call S Output
  unfolding ask
  attempts zero attempt issues s = throw response_invalid s
  attempts (suc left) attempt issues s =
      let rest = ask attempt issues (attempts left (attempt + 1)) in
      if leb setting.limits.maximum_model_calls_per_alert (length s.invocations)
      then throw too_many_calls s
      else if is_oversized setting.limits encoding (request_of setting encoding task attempt issues)
      then throw request_too_large s
      else rest s

  -- `_complete_role`
  unfoldable pub complete_role : Call S Output
  unfolding attempts
  complete_role = attempts (suc setting.limits.maximum_schema_repairs_per_agent) 0 Items.nil
