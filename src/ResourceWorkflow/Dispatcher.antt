-- ===== src/ResourceWorkflow/Dispatcher.antt =====
-- `TriageDispatcher.triage` of src/evitriage/agents/dispatcher.py: one of the two workflows, by the
-- family of the rule.
use evi_triage_ql.Prelude.{
  ℕ, ◌+◌, ◌*◌, ◌≤◌, length, String, Bool, true, false, Option, none, some, [], arith,
}
use evi_triage_ql.Evidence.Registry.{EvidenceRegistry}
use evi_triage_ql.Triage.{TriageTarget}
use evi_triage_ql.Resource.{
  QueryFamily, ResourceKind, classify_query_family, resource_kind_for_family,
}
use evi_triage_ql.Workflow.{TriageLimits, LlmProfile, Encoding, no_workflow, Session, Answer, throw}
use evi_triage_ql.Workflow.Security.{Model, SecurityResult}
use evi_triage_ql.Workflow.Security as Security
use evi_triage_ql.ResourceWorkflow.Triage.{
  ResourceModel, ResourceResult, Dispatched, security, resource, dispatched,
}
use evi_triage_ql.ResourceWorkflow.Triage as Resources
use evi_triage_ql.Builder.{is_legacy}
use evi_triage_ql.Workflow.Bounds.{counted_model, triage-IsWithin}
use evi_triage_ql.ResourceWorkflow.Bounds.{counted_resource_model, resource_triage-IsWithin}

module _ {S Confidence : Type 0} (profile : LlmProfile) (limits : TriageLimits)
    (encoding : Encoding) (model : Model S Confidence) (resource_model : ResourceModel S Confidence)
    (registry : EvidenceRegistry) (target : TriageTarget) where
  abbrev pub Either : Type 0
  Either = Dispatched (SecurityResult Confidence) (ResourceResult Confidence)

  -- The workflow of a family, which has the resource kind.
  unfoldable pub by_family : QueryFamily → Option ResourceKind → S → Answer Either × Session S
  by_family family none start = elim (is_legacy family) [
    | false ↦ throw no_workflow (record { invocations = []; model = start })
    | true ↦
        dispatched security (Security.triage profile limits encoding model registry target start)
  ]
  by_family family (some kind) start =
      dispatched resource
        (Resources.triage profile limits encoding resource_model registry target kind start)

  -- `TriageDispatcher.triage`
  unfoldable pub dispatch : String → S → Answer Either × Session S
  unfolding by_family
  dispatch rule_id start =
      let family = classify_query_family rule_id in
      by_family family (resource_kind_for_family family) start

module _ {S : Type 0} (limits : TriageLimits) where
  -- The calls on record are within the two limits.
  abbrev pub IsBounded : Session S → Type 0
  IsBounded s =
      (length s.invocations ≤ limits.maximum_model_calls_per_alert)
      × (length s.invocations ≤ 3 * (limits.maximum_schema_repairs_per_agent + 1))

-- The calls that the model has counted are within the two limits.
abbrev pub IsCounted : {S : Type 0} → TriageLimits → Session (S × ℕ) → Type 0
IsCounted limits s =
    (s.model.1 ≤ limits.maximum_model_calls_per_alert)
    × (s.model.1 ≤ 3 * (limits.maximum_schema_repairs_per_agent + 1))

dispatched-ends :
    {S A B C : Type 0} (P : Session S → Type 0) (f : A → Dispatched B C) (o : Answer A × Session S)
    → P o.1
    → P (dispatched f o).1
dispatched-ends P f (Answer.returned a, s) h = h
dispatched-ends P f (Answer.raised e, s) h = h

-- Whichever workflow runs, or none, the end has what the two workflows' ends and the start have.
by_family-ends :
    {S Confidence : Type 0} (profile : LlmProfile) (limits : TriageLimits) (encoding : Encoding)
    (model : Model S Confidence) (resource_model : ResourceModel S Confidence)
    (registry : EvidenceRegistry) (target : TriageTarget) (P : Session S → Type 0)
    (family : QueryFamily) (kind : Option ResourceKind) (start : S)
    → P (record { invocations = []; model = start })
    → P (Security.triage profile limits encoding model registry target start).1
    → ((k : ResourceKind)
        → P (Resources.triage profile limits encoding resource_model registry target k start).1)
    → P (by_family profile limits encoding model resource_model registry target family kind start).1
unfolding by_family
by_family-ends {S = S} {Confidence = Confidence} profile limits encoding model resource_model
      registry target P family none start none_run here there =
    go (is_legacy family)
  where
    go :
        (b : Bool)
        → P
            (elim b
              as (λ k.
                Answer (Dispatched (SecurityResult Confidence) (ResourceResult Confidence))
                × Session S) [
                  | false ↦ throw no_workflow (record { invocations = []; model = start })
                  | true ↦
                      dispatched security
                        (Security.triage profile limits encoding model registry target start)
                ]).1
    go false = none_run
    go true = dispatched-ends P security _ here
by_family-ends profile limits encoding model resource_model registry target P family (some kind)
      start none_run here there =
    dispatched-ends P resource _ (there kind)

-- Whatever the rule, and however the triage that it selects ends, the calls of the language model
-- that it makes, which are counted by the models themselves, are at most
-- `maximum_model_calls_per_alert`, and at most three times one more than the schema repairs of an
-- agent; and so are the calls on record.
pub dispatch-IsWithin :
    {S Confidence : Type 0} (profile : LlmProfile) (limits : TriageLimits) (encoding : Encoding)
    (model : Model S Confidence) (resource_model : ResourceModel S Confidence)
    (registry : EvidenceRegistry) (target : TriageTarget) (rule_id : String) (start : S)
    → IsCounted limits
        (dispatch profile limits encoding
          (counted_model model)
          (counted_resource_model resource_model)
          registry
          target
          rule_id
          (start, 0)).1
      × IsBounded limits
          (dispatch profile limits encoding model resource_model registry target rule_id start).1
unfolding dispatch
dispatch-IsWithin profile limits encoding model resource_model registry target rule_id start =
    let family = classify_query_family rule_id in
    let kind = resource_kind_for_family family in
    let (a, b, c, d) = triage-IsWithin profile limits encoding model registry target start in
    (
      by_family-ends profile limits encoding (counted_model model)
          (counted_resource_model resource_model) registry target (IsCounted limits) family kind
          (start, 0) (omega arith, omega arith) (a, b)
          (λ k.
            let (e, f, _, _) =
              resource_triage-IsWithin profile limits encoding resource_model registry target k
                start in
            (e, f)),
      by_family-ends profile limits encoding model resource_model registry target (IsBounded limits)
          family kind start (omega arith, omega arith) (c, d)
          (λ k.
            let (_, _, e, f) =
              resource_triage-IsWithin profile limits encoding resource_model registry target k
                start in
            (e, f)),
    )
