-- ===== src/ResourceWorkflow/Bounds.antt =====
-- The number of model calls of a resource triage, src/evitriage/agents/resource_workflow.py.
use evi_triage_ql.Prelude.{
  ℕ, suc, ◌+◌, ◌*◌, ◌≤◌, refl, Bool, true, false, [], ◌++◌, length, Result, ok, err, ◌==◌, nat_eq,
  is_empty, arith,
}
use evi_triage_ql.Evidence.Registry.{EvidenceRegistry}
use evi_triage_ql.Triage.{TriageTarget, TriageError, validate_trace}
use evi_triage_ql.Resource.{
  ResourceKind, ResourceAnalystOutput, ResourceRebuttalOutput, ResourceJudgeOutput,
}
use evi_triage_ql.ResourcePolicy.{apply}
use evi_triage_ql.Workflow.{
  Request, WorkflowError, TriageLimits, LlmProfile, foreign_sarif, no_evidence, invalid_result,
  Encoding, Session, Answer, Call, return, throw,
}
use evi_triage_ql.Workflow.Role.{Setting}
use evi_triage_ql.Workflow.Security.{target_items, decided}
use evi_triage_ql.Workflow.Made.{counted}
use evi_triage_ql.Workflow.Bounds.{
  IsWithin, Adds, same-IsWithin, more-IsWithin, >>=-Adds, decided-Adds, role-Adds,
}
use evi_triage_ql.ResourceWorkflow.Triage.{
  ResourceModel, ResourceResult, setting, analyst_task, rebuttal_task, judge_task, checked,
  analyst_claims_of, rebuttal_claims_of, result_of, conclude, decide, run_judge, run_rebuttal,
  run_roles, triage,
}

-- Each call of the model adds at most one to the count.
record Counts {S Confidence : Type 0} (model : ResourceModel S Confidence) (made : S → ℕ)
    : Type 0 where
  of_analyst : (request : Request) (m : S) → made (model.ask_analyst request m).1 ≤ made m + 1
  of_rebuttal : (request : Request) (m : S) → made (model.ask_rebuttal request m).1 ≤ made m + 1
  of_judge : (request : Request) (m : S) → made (model.ask_judge request m).1 ≤ made m + 1

-- The model with its calls counted.
abbrev pub counted_resource_model :
    {S Confidence : Type 0} → ResourceModel S Confidence → ResourceModel (S × ℕ) Confidence
counted_resource_model model = record {
  ask_analyst = counted model.ask_analyst;
  ask_rebuttal = counted model.ask_rebuttal;
  ask_judge = counted model.ask_judge;
  analyst_digest = model.analyst_digest;
  rebuttal_digest = model.rebuttal_digest;
  judge_digest = model.judge_digest;
  kind_json = model.kind_json;
  analyst_json = model.analyst_json;
  rebuttal_json = model.rebuttal_json;
}

module _ {S Confidence : Type 0} (profile : LlmProfile) (limits : TriageLimits)
    (encoding : Encoding) (model : ResourceModel S Confidence) (registry : EvidenceRegistry)
    (target : TriageTarget) (kind : ResourceKind) (made : S → ℕ) (counts : Counts model made) where
  abbrev limit : ℕ
  limit = limits.maximum_model_calls_per_alert

  abbrev calls : ℕ
  calls = suc limits.maximum_schema_repairs_per_agent

  abbrev here : Setting
  here = setting profile limits encoding model registry target kind

  check-Adds :
      (x : Result TriageError (Unit {0})) (r : ResourceResult Confidence)
      → Adds limit made 0 (elim x as (λ k. Call S (ResourceResult Confidence)) [
        | ok _ ↦ return r
        | err e ↦ throw (invalid_result e)
      ])
  check-Adds (ok _) r = record { within = same-IsWithin limit made _ }
  check-Adds (err e) r = record { within = same-IsWithin limit made _ }

  checked-Adds :
      (r : ResourceResult Confidence)
      → Adds limit made 0 (checked profile limits encoding model registry target kind r)
  unfolding checked
  checked-Adds r = check-Adds (validate_trace r) r

  decide-Adds :
      (a : ResourceAnalystOutput) (r : ResourceRebuttalOutput) (j : ResourceJudgeOutput Confidence)
      → Adds limit made (0 + 0) (decide profile limits encoding model registry target kind a r j)
  unfolding decide conclude
  decide-Adds a r j =
      let xs = analyst_claims_of profile limits encoding model registry target kind a in
      let ys = rebuttal_claims_of profile limits encoding model registry target kind r in
      >>=-Adds limit made (conclude profile limits encoding model registry target kind a r j) 0 0
        (λ d. record {
          within = λ s.
              (checked-Adds (
                  result_of profile limits encoding model registry target kind a r j d
                    s.invocations)).within
                s;
        })
        (decided (apply registry target a xs r ys j))
        (decided-Adds limit made (apply registry target a xs r ys j))

  run_judge-Adds :
      (a : ResourceAnalystOutput) (r : ResourceRebuttalOutput)
      → Adds limit made
          (calls + (0 + 0))
          (run_judge profile limits encoding model registry target kind a r)
  unfolding run_judge
  run_judge-Adds a r =
      let xs = analyst_claims_of profile limits encoding model registry target kind a in
      let ys = rebuttal_claims_of profile limits encoding model registry target kind r in
      >>=-Adds limit made (decide profile limits encoding model registry target kind a r) calls _
        (decide-Adds a r) _
        (role-Adds limit made here encoding model.ask_judge
          (judge_task profile limits encoding model registry target kind a r (xs ++ ys)) refl
          counts.of_judge)

  run_rebuttal-Adds :
      (a : ResourceAnalystOutput)
      → Adds limit made
          (calls + (calls + (0 + 0)))
          (run_rebuttal profile limits encoding model registry target kind a)
  unfolding run_rebuttal
  run_rebuttal-Adds a =
      let xs = analyst_claims_of profile limits encoding model registry target kind a in
      >>=-Adds limit made (run_judge profile limits encoding model registry target kind a) calls _
        (run_judge-Adds a) _
        (role-Adds limit made here encoding model.ask_rebuttal
          (rebuttal_task profile limits encoding model registry target kind a xs) refl
          counts.of_rebuttal)

  run_roles-Adds :
      Adds limit made
        (calls + (calls + (calls + (0 + 0))))
        (run_roles profile limits encoding model registry target kind)
  unfolding run_roles
  run_roles-Adds =
      >>=-Adds limit made (run_rebuttal profile limits encoding model registry target kind) calls _
        run_rebuttal-Adds _
        (role-Adds limit made here encoding model.ask_analyst
          (analyst_task profile limits encoding model registry target kind) refl counts.of_analyst)

  none_called :
      (s : Session S) (e : WorkflowError)
      → IsWithin limit made
          (calls + (calls + (calls + (0 + 0))))
          s
          (throw {S = S} {A = ResourceResult Confidence} e s)
  none_called s e = more-IsWithin limit made 0 _ s _ (omega arith) (same-IsWithin limit made _ s)

  ended-IsWithin :
      (s : Session S) (same none : Bool)
      → IsWithin limit made
          (calls + (calls + (calls + (0 + 0))))
          s
          (elim same as (λ k. Answer (ResourceResult Confidence) × Session S) [
            | false ↦ throw foreign_sarif s
            | true ↦ elim none as (λ k. Answer (ResourceResult Confidence) × Session S) [
              | true ↦ throw no_evidence s
              | false ↦ run_roles profile limits encoding model registry target kind s
            ]
          ])
  ended-IsWithin s false none = none_called s foreign_sarif
  ended-IsWithin s true true = none_called s no_evidence
  ended-IsWithin s true false = run_roles-Adds.within s

  triage-ends :
      (start : S)
      → IsWithin limit made
          (calls + (calls + (calls + (0 + 0))))
          (record { invocations = []; model = start })
          (triage profile limits encoding model registry target kind start)
  unfolding triage
  triage-ends start =
      ended-IsWithin (record { invocations = []; model = start })
        (target.raw_result_reference.raw_sarif_sha256 == registry.raw_sarif_sha256)
        (is_empty (target_items registry target))

-- However a resource triage ends, by a result or by an error, the calls of the language model that
-- it makes, which are counted by the model itself, are at most `maximum_model_calls_per_alert`, and
-- at most three times one more than the schema repairs of an agent; and so are the calls on record.
pub resource_triage-IsWithin :
    {S Confidence : Type 0} (profile : LlmProfile) (limits : TriageLimits) (encoding : Encoding)
    (model : ResourceModel S Confidence) (registry : EvidenceRegistry) (target : TriageTarget)
    (kind : ResourceKind) (start : S)
    → ((triage profile limits encoding
          (counted_resource_model model)
          registry
          target
          kind
          (start, 0)).1.model.1
        ≤ limits.maximum_model_calls_per_alert)
      × ((triage profile limits encoding
            (counted_resource_model model)
            registry
            target
            kind
            (start, 0)).1.model.1
          ≤ 3 * (limits.maximum_schema_repairs_per_agent + 1))
      × (length (triage profile limits encoding model registry target kind start).1.invocations
          ≤ limits.maximum_model_calls_per_alert)
      × (length (triage profile limits encoding model registry target kind start).1.invocations
          ≤ 3 * (limits.maximum_schema_repairs_per_agent + 1))
resource_triage-IsWithin profile limits encoding model registry target kind start =
    let (_, _, runs) =
      triage-ends profile limits encoding (counted_resource_model model) registry target kind
        (λ m. m.1)
        (record {
          of_analyst = λ q m. omega arith;
          of_rebuttal = λ q m. omega arith;
          of_judge = λ q m. omega arith;
        })
        (start, 0) in
    let run = runs (omega arith) in
    let most = run.at_most in
    let (h, g, _) =
      triage-ends profile limits encoding model registry target kind (λ m. 0)
        (record {
          of_analyst = λ q m. omega arith;
          of_rebuttal = λ q m. omega arith;
          of_judge = λ q m. omega arith;
        })
        start in
    (run.in_limit (omega arith), omega arith, h (omega arith), omega arith)
