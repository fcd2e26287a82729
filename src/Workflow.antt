-- ===== src/Workflow.antt =====
-- The bounded three-role workflow of src/evitriage/agents/workflow.py: its limits, the requests that it
-- sends to the language model, and the state that it carries.
--
-- The language model is a function of the request and of a state of its own, from the type `S`. What
-- pydantic, JSON and SHA-256 compute is the record `Encoding`: the JSON of a record, the digests of a
-- request, a prompt and a response, and the number of bytes of a prompt and of a payload.
-- `InvocationContext` is the request's last four fields.
pub mod Role
pub mod Validators
pub mod Security
pub mod Made
pub mod Calls
pub mod Bounds
pub mod Grounded
pub mod Ends
pub mod Complete
mod Tests
use evi_triage_ql.Prelude.{
  ℕ, ◌+◌, String, Bool, true, false, Option, none, some, List, [], ◌∷◌, ◌++◌, ◌==◌, string_eq,
}
use evi_triage_ql.Evidence.{
  Sha256, ClaimId, ClaimContent, EvidenceItem, AgentRole, analyst, rebuttal, judge, Claim,
}
use evi_triage_ql.Triage.{
  TriageTarget, TriageError, ModelInvocationRecord, InvocationStatus, accepted, invalid,
}
use evi_triage_ql.Policy.{PolicyError}
use evi_triage_ql.Observability.{Json, Items, Fields}

pub record TriageLimits : Type 0 where
  pub maximum_schema_repairs_per_agent : ℕ
  pub maximum_model_calls_per_alert : ℕ
  pub maximum_request_bytes : ℕ

pub data Provider : Type 0 where
  fake replay deepseek : Provider

pub data DataPolicy : Type 0 where
  offline_only remote_llm_allowed : DataPolicy

-- `temperature` is always zero, and is left out.
pub record LlmProfile : Type 0 where
  pub id : String
  pub provider : Provider
  pub model_id : String
  pub maximum_output_tokens : ℕ
  pub data_policy : DataPolicy

-- The prompt of a role, with the schema repair's addition or not. Their texts are not modelled.
pub record Prompt : Type 0 where
  pub role : AgentRole
  pub repairs : Bool

pub record Request : Type 0 where
  pub system_prompt : Prompt
  pub user_payload : Fields
  pub response_schema : String
  pub run_id : String
  pub target : TriageTarget
  pub agent_role : AgentRole
  pub attempt : ℕ
  pub profile : LlmProfile

-- What `StructuredLLM.complete` does: it returns a response, raises `ModelResponseError`, with the
-- digest of the response if it has one and its issues, or raises another `ModelError`.
pub data Reply (Output : Type 0) : Type 0 where
  replied : Output → Reply Output
  bad_response : Option Sha256 → Items → Reply Output
  failed : Reply Output

-- The errors that `semantic_validator` raises, all of them `ModelResponseError`.
pub data ResponseError : Type 0 where
  foreign_evidence rebutted_by_analyst duplicate_claims unknown_claim wrong_kind : ResponseError

-- What `triage` raises.
pub data WorkflowError : Type 0 where
  foreign_sarif no_evidence too_many_calls request_too_large model_failed : WorkflowError
  response_invalid claims_not_unique no_workflow : WorkflowError
  policy_rejected : PolicyError → WorkflowError
  invalid_result : TriageError → WorkflowError

pub record Encoding : Type 0 where
  pub is_secret : String → Bool
  pub redact_text : String → String
  pub claim_digest : ClaimContent → ClaimId
  pub target_json : TriageTarget → Json
  pub item_json : EvidenceItem → Json
  pub claim_json : Claim → Json
  pub number_json : ℕ → Json
  pub request_digest : Request → Sha256
  pub prompt_digest : Prompt → Sha256
  pub prompt_bytes : Prompt → ℕ
  pub payload_bytes : Fields → ℕ

-- `payload[key] = value`: the value of a key that is there changes, another key comes last.
unfoldable pub set_field : String → Json → Fields → Fields
set_field key value Fields.end = Fields.field key value Fields.end
set_field key value (Fields.field other item fs) =
    let later = set_field key value fs in
    elim (other == key) [
      | true ↦ Fields.field other value fs
      | false ↦ Fields.field other item later
    ]

-- A list as a JSON array.
unfoldable pub json_items : {A : Type 0} → (A → Json) → List A → Items
json_items f [] = Items.nil
json_items f (x ∷ xs) = Items.cons (f x) (json_items f xs)

abbrev pub json_array : {A : Type 0} → (A → Json) → List A → Json
unfolding json_items
json_array f xs = Json.array (json_items f xs)

-- The invocations appended so far, and the model's state.
pub record Session (S : Type 0) : Type 0 where
  pub invocations : List ModelInvocationRecord
  pub model : S

-- A call that changes the session and returns or raises; the session survives the exception.
pub data Answer (A : Type 0) : Type 0 where
  returned : A → Answer A
  raised : WorkflowError → Answer A

abbrev pub Call : Type 0 → Type 0 → Type 0
Call S A = Session S → Answer A × Session S

abbrev pub pass : {S A B : Type 0} → Answer A → Session S → (A → Call S B) → Answer B × Session S
pass (returned a) s f = f a s
pass (raised e) s f = (raised e, s)

infixl 5 ◌>>=◌
unfoldable pub ◌>>=◌ : {S A B : Type 0} → Call S A → (A → Call S B) → Call S B
◌>>=◌ m f s = pass (m s).0 (m s).1 f

abbrev pub return : {S A : Type 0} → A → Call S A
return a s = (returned a, s)

abbrev pub throw : {S A : Type 0} → WorkflowError → Call S A
throw e s = (raised e, s)
