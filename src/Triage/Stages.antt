-- ===== src/Triage/Stages.antt =====
-- The records that a run stores after each agent stage, src/evitriage/domain/triage.py, and their
-- validators. The type of an output is a parameter: the security agent's or the resource agent's.
use evi_triage_ql.Prelude.{
  String, Bool, true, not, ◌&&◌, ◌||◌, List, map, filter, any, ◌==◌, nat_eq, Result, raise_if, ◌>>◌,
  [], ◌∷◌, length,
}
use evi_triage_ql.Evidence.{AgentRole, analyst, rebuttal, agent_role_eq, Claim}
use evi_triage_ql.Triage.{
  TriageTarget, TriageResult, ModelInvocationRecord, is_accepted, role_of, target_beq,
}

-- `AnalystStageRecord` and `RebuttalStageRecord`, which have the same fields.
pub record StageRecord (Output : Type 0) : Type 0 where
  pub target : TriageTarget
  pub output : Output
  pub claims : List Claim
  pub invocations : List ModelInvocationRecord

pub data StageError : Type 0 where
  foreign_claim wrong_invocations duplicate_targets : StageError

module _ {Output : Type 0} where
  -- The checks of a stage, for its role.
  unfoldable pub validate_stage : AgentRole → StageRecord Output → Result StageError (Unit {0})
  unfolding any filter length
  validate_stage role stage = do
    raise_if (any (λ (claim : Claim). not (claim.produced_by == role)) stage.claims) foreign_claim
    raise_if
        (not (length (filter is_accepted stage.invocations) == 1)
          || any (λ r. not (role_of r == role)) stage.invocations)
        wrong_invocations

  -- `AnalystStageRecord.validate_analyst_trace`
  unfoldable pub validate_analyst_trace : StageRecord Output → Result StageError (Unit {0})
  unfolding validate_stage
  validate_analyst_trace stage = validate_stage analyst stage

  -- `RebuttalStageRecord.validate_rebuttal_trace`
  unfoldable pub validate_rebuttal_trace : StageRecord Output → Result StageError (Unit {0})
  unfolding validate_stage
  validate_rebuttal_trace stage = validate_stage rebuttal stage

-- The keys of the targets are distinct: no target is equal to a later one.
unfoldable pub targets_are_unique : List TriageTarget → Bool
unfolding any target_beq
targets_are_unique [] = true
targets_are_unique (target ∷ targets) =
    not (any (target_beq target) targets) && targets_are_unique targets

-- `_validate_unique_targets`
unfoldable pub validate_targets : List TriageTarget → Result StageError (Unit {0})
unfolding targets_are_unique
validate_targets targets = raise_if (not (targets_are_unique targets)) duplicate_targets

-- `AnalystRunArtifact`, `RebuttalRunArtifact` and `JudgedRunArtifact`, by the type of a result.
pub record RunArtifact (Stage : Type 0) : Type 0 where
  pub run_id : String
  pub analysis_identity : String
  pub results : List Stage

-- The validator of the stage artifacts.
unfoldable pub validate_stage_targets :
    {Output : Type 0} → RunArtifact (StageRecord Output) → Result StageError (Unit {0})
unfolding validate_targets
validate_stage_targets {Output = Output} artifact =
    validate_targets (map (λ (stage : StageRecord Output). stage.target) artifact.results)

-- The validator of the judged artifact.
unfoldable pub validate_judged_targets :
    {Analyst Rebuttal Judge Confidence : Type 0}
    → RunArtifact (TriageResult Analyst Rebuttal Judge Confidence)
    → Result StageError (Unit {0})
unfolding validate_targets
validate_judged_targets {Analyst = A} {Rebuttal = R} {Judge = J} {Confidence = C} artifact =
    validate_targets (map (λ (result : TriageResult A R J C). result.target) artifact.results)
