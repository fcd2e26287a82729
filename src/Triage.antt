-- ===== src/Triage.antt =====
-- The agents' outputs and the decision records of src/evitriage/domain/triage.py.
--
-- `raw_confidence` is a float that the code copies and never computes with: its type is the
-- parameter `Confidence`. Limits on the length of a text or of a list are pydantic field
-- constraints, checked before a record reaches the code here; they are not modelled.
pub mod Stages
mod Shape
use evi_triage_ql.Prelude.{
  ℕ, String, Bool, true, false, not, ◌&&◌, ◌||◌, Option, List, [], ◌∷◌, ◌++◌, map, Eq, ◌==◌, nat_eq,
  string_eq, enum_eq, Result, raise_if, ◌>>◌, is_unique, is_empty, filter,
}
use evi_triage_ql.Evidence.{
  Sha256, EvidenceId, ClaimId, ClaimKind, ClaimContent, ClaimStatus, unresolved, claim_status_eq,
  AgentRole, analyst, rebuttal, judge, agent_role_eq, RawResultReference, reference_eq, Claim,
}

pub data TriageLabel : Type 0 where
  tp fp nmc : TriageLabel

unfoldable pub TriageLabel-discrete : Discrete TriageLabel
TriageLabel-discrete = hlevel

instance abbrev pub label_eq : Eq TriageLabel
label_eq = enum_eq TriageLabel-discrete

pub data PolicyFlag : Type 0 where
  auto_dismiss_disabled conflicting_high_strength_evidence critical_evidence_missing : PolicyFlag
  fp_decisive_rebuttal_present fp_missing_decisive_rebuttal high_strength_fp_blocks_tp : PolicyFlag
  judge_label_accepted judge_requested_nmc tp_support_missing unknown_or_unresolved : PolicyFlag
  resource_acquisition_missing resource_context_incomplete resource_evidence_conflict : PolicyFlag
  resource_fp_basis_missing resource_ownership_confirmed : PolicyFlag
  resource_release_coverage_confirmed resource_tp_basis_confirmed : PolicyFlag
  resource_unreleased_exit_missing : PolicyFlag

unfoldable pub PolicyFlag-discrete : Discrete PolicyFlag
PolicyFlag-discrete = hlevel

instance abbrev pub policy_flag_eq : Eq PolicyFlag
policy_flag_eq = enum_eq PolicyFlag-discrete

pub record TriageTarget : Type 0 where
  pub alert_fingerprint : Sha256
  pub raw_result_reference : RawResultReference

unfoldable pub target_beq : TriageTarget → TriageTarget → Bool
target_beq a b =
    (a.alert_fingerprint == b.alert_fingerprint)
    && (a.raw_result_reference == b.raw_result_reference)

-- The claim kinds that `ClaimDraft` admits.
pub data SecurityClaimKind : Type 0 where
  source_controllable path_feasible sanitizer_effective sink_dangerous : SecurityClaimKind
  exploit_succeeds : SecurityClaimKind

pub record ClaimDraft : Type 0 where
  pub kind : SecurityClaimKind
  pub statement : String
  pub status : ClaimStatus
  pub evidence_ids : List EvidenceId

pub record AnalystOutput : Type 0 where
  pub claims : List ClaimDraft
  pub unknowns : List String

pub record RebuttalOutput : Type 0 where
  pub claims : List ClaimDraft
  pub rebutted_claim_ids : List ClaimId
  pub unknowns : List String

pub record JudgeOutput (Confidence : Type 0) : Type 0 where
  pub label : TriageLabel
  pub raw_confidence : Confidence
  pub critical_claim_ids : List ClaimId
  pub critical_evidence_ids : List EvidenceId
  pub unknowns : List String
  pub reasoning_summary : String
  pub next_actions : List String
  pub fix_guidance : List String

pub data InvocationStatus : Type 0 where
  accepted invalid : InvocationStatus

unfoldable pub InvocationStatus-discrete : Discrete InvocationStatus
InvocationStatus-discrete = hlevel

instance abbrev pub invocation_status_eq : Eq InvocationStatus
invocation_status_eq = enum_eq InvocationStatus-discrete

-- `error_code` has one possible value, MODEL_RESPONSE_INVALID: it is whether the code is present.
pub record ModelInvocationRecord : Type 0 where
  pub agent_role : AgentRole
  pub attempt : ℕ
  pub request_sha256 : Sha256
  pub prompt_sha256 : Sha256
  pub response_sha256 : Option Sha256
  pub response_schema : String
  pub profile_id : String
  pub model_id : String
  pub status : InvocationStatus
  pub has_error_code : Bool

pub record FinalDecision (Confidence : Type 0) : Type 0 where
  pub target : TriageTarget
  pub label : TriageLabel
  pub requested_label : TriageLabel
  pub raw_confidence : Confidence
  pub critical_claim_ids : List ClaimId
  pub critical_evidence_ids : List EvidenceId
  pub unknowns : List String
  pub reasoning_summary : String
  pub next_actions : List String
  pub fix_guidance : List String
  pub policy_flags : List PolicyFlag
  pub auto_dismiss : Bool

-- The outputs are those of the security agents or of the resource agents.
pub record TriageResult (Analyst Rebuttal Judge Confidence : Type 0) : Type 0 where
  pub target : TriageTarget
  pub analyst : Analyst
  pub analyst_claims : List Claim
  pub rebuttal : Rebuttal
  pub rebuttal_claims : List Claim
  pub judge : Judge
  pub final_decision : FinalDecision Confidence
  pub invocations : List ModelInvocationRecord

-- The messages of the validators.
pub data TriageError : Type 0 where
  duplicate_references evidence_required duplicate_unknowns duplicate_lists : TriageError
  accepted_with_error invalid_without_error duplicate_decision_lists : TriageError
  target_mismatch duplicate_claim_ids wrong_accepted_roles : TriageError

-- `ClaimDraft.validate_evidence_shape`
unfoldable pub validate_evidence_shape : ClaimDraft → Result TriageError (Unit {0})
validate_evidence_shape draft = do
  raise_if (not (is_unique draft.evidence_ids)) duplicate_references
  raise_if (not (draft.status == unresolved) && is_empty draft.evidence_ids) evidence_required

-- `AnalystOutput.validate_unique_unknowns`
unfoldable pub validate_unique_unknowns : AnalystOutput → Result TriageError (Unit {0})
validate_unique_unknowns output = raise_if (not (is_unique output.unknowns)) duplicate_unknowns

-- `RebuttalOutput.validate_unique_references`
unfoldable pub validate_unique_references : RebuttalOutput → Result TriageError (Unit {0})
validate_unique_references output = do
  raise_if (not (is_unique output.rebutted_claim_ids)) duplicate_references
  raise_if (not (is_unique output.unknowns)) duplicate_unknowns

module _ {Confidence : Type 0} where
  -- `JudgeOutput.validate_unique_lists`
  unfoldable pub validate_unique_lists : JudgeOutput Confidence → Result TriageError (Unit {0})
  validate_unique_lists j =
      raise_if
        (not (is_unique j.critical_claim_ids)
          || (not (is_unique j.critical_evidence_ids)
              || (not (is_unique j.unknowns)
                  || (not (is_unique j.next_actions) || not (is_unique j.fix_guidance)))))
        duplicate_lists

  -- `FinalDecision.validate_unique_references`
  unfoldable pub validate_decision_references :
      FinalDecision Confidence → Result TriageError (Unit {0})
  validate_decision_references d =
      raise_if
        (not (is_unique d.critical_claim_ids)
          || (not (is_unique d.critical_evidence_ids)
              || (not (is_unique d.unknowns)
                  || (not (is_unique d.next_actions)
                      || (not (is_unique d.fix_guidance) || not (is_unique d.policy_flags))))))
        duplicate_decision_lists

-- `ModelInvocationRecord.validate_status_metadata`
unfoldable pub validate_status_metadata : ModelInvocationRecord → Result TriageError (Unit {0})
validate_status_metadata r = do
  raise_if ((r.status == accepted) && r.has_error_code) accepted_with_error
  raise_if ((r.status == invalid) && not r.has_error_code) invalid_without_error

abbrev pub claim_id_of : Claim → ClaimId
claim_id_of c = c.claim_id

abbrev pub role_of : ModelInvocationRecord → AgentRole
role_of r = r.agent_role

abbrev pub is_accepted : ModelInvocationRecord → Bool
is_accepted r = r.status == accepted

unfoldable pub roles_beq : List AgentRole → List AgentRole → Bool
roles_beq [] [] = true
roles_beq (x ∷ xs) (y ∷ ys) = (x == y) && roles_beq xs ys
roles_beq _ _ = false

-- `TriageResult.validate_trace`
unfoldable pub validate_trace :
    {Analyst Rebuttal Judge Confidence : Type 0}
    → TriageResult Analyst Rebuttal Judge Confidence
    → Result TriageError (Unit {0})
unfolding target_beq roles_beq
validate_trace r = do
  raise_if (not (target_beq r.final_decision.target r.target)) target_mismatch
  raise_if (not (is_unique (map claim_id_of (r.analyst_claims ++ r.rebuttal_claims))))
      duplicate_claim_ids
  raise_if
      (not (
        roles_beq (map role_of (filter is_accepted r.invocations))
          (analyst ∷ rebuttal ∷ judge ∷ [])))
      wrong_accepted_roles

abbrev pub claim_kind : SecurityClaimKind → ClaimKind
claim_kind SecurityClaimKind.source_controllable = ClaimKind.source_controllable
claim_kind SecurityClaimKind.path_feasible = ClaimKind.path_feasible
claim_kind SecurityClaimKind.sanitizer_effective = ClaimKind.sanitizer_effective
claim_kind SecurityClaimKind.sink_dangerous = ClaimKind.sink_dangerous
claim_kind SecurityClaimKind.exploit_succeeds = ClaimKind.exploit_succeeds

-- `materialize_claim`; `digest` is SHA-256 of the canonical JSON of the content. The validator that
-- the constructor of `Claim` calls is left out here: see Triage/Shape.
unfoldable pub materialize_claim : (ClaimContent → ClaimId) → AgentRole → ClaimDraft → Claim
materialize_claim digest role draft =
    let content : ClaimContent = record {
      kind = claim_kind draft.kind;
      statement = draft.statement;
      status = draft.status;
      evidence_ids = draft.evidence_ids;
      produced_by = role;
    } in
    record { claim_id = digest content; content = content }

abbrev pub target_key : TriageTarget → Sha256 × (Sha256 × (ℕ × ℕ))
target_key t =
    let r = t.raw_result_reference in
    (t.alert_fingerprint, (r.raw_sarif_sha256, (r.run_index, r.result_index)))
