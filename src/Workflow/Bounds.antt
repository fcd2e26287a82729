-- ===== src/Workflow/Bounds.antt =====
-- The number of model calls of `TriageWorkflow.triage`, src/evitriage/agents/workflow.py.
use evi_triage_ql.Prelude.{
  ℕ, suc, ◌+◌, ◌*◌, ◌≤◌, ◌≡◌, refl, ap, subst, ◌∙◌, [], Bool, true, false, List, ◌++◌, length,
  length-append, Result, ok, err, ◌==◌, nat_eq, is_empty, arith,
}
use evi_triage_ql.Evidence.{AgentRole, analyst, rebuttal, Claim}
use evi_triage_ql.Evidence.Registry.{EvidenceRegistry}
use evi_triage_ql.Triage.{
  TriageTarget, AnalystOutput, RebuttalOutput, JudgeOutput, TriageError, ClaimDraft, FinalDecision,
  validate_trace,
}
use evi_triage_ql.Policy.{PolicyError, apply}
use evi_triage_ql.Workflow.{
  TriageLimits, LlmProfile, Request, Reply, WorkflowError, foreign_sarif, no_evidence,
  invalid_result, return, throw, Encoding, Session, Answer, Call, pass, ◌>>=◌,
}
use evi_triage_ql.Workflow.Role.{Setting, Task, complete_role}
use evi_triage_ql.Workflow.Security.{
  Model, materialize_unique_claims, decided, checked, SecurityResult, run_roles, run_rebuttal,
  run_judge, decide, conclude, result_of, analyst_task, rebuttal_task, judge_task, triage, setting,
  target_items,
}
use evi_triage_ql.Workflow.Made.{Makes, counted, complete_role-Makes}
use evi_triage_ql.Workflow.Calls.{complete_role-IsRun}

module _ (limit : ℕ) {S : Type 0} (made : S → ℕ) where
  -- The invocations on record at the end are within the limit if those at the start are, and at most
  -- `n` more; and so are the calls made, if those at the start are all on record.
  abbrev pub IsWithin : {A : Type 0} → ℕ → Session S → Answer A × Session S → Type 0
  IsWithin n s out =
      (length s.invocations ≤ limit → length out.1.invocations ≤ limit)
      × (length out.1.invocations ≤ length s.invocations + n)
      × (made s.model ≤ length s.invocations → Makes made limit n s out)

  -- The call adds at most `n` invocations, in every outcome, and none past the limit.
  pub record Adds {A : Type 0} (n : ℕ) (m : Call S A) : Type 0 where
    pub within : (s : Session S) → IsWithin n s (m s)

  pub same-IsWithin : {A : Type 0} (a : Answer A) (s : Session S) → IsWithin 0 s (a, s)
  same-IsWithin (Answer.returned a) s = (
    λ h. h,
    omega arith,
    λ h. record { at_most = omega arith; in_limit = λ k. omega arith; on_record = h },
  )
  same-IsWithin (Answer.raised e) s = (
    λ h. h,
    omega arith,
    λ h. record { at_most = omega arith; in_limit = λ k. omega arith; on_record = tt },
  )

  pub more-IsWithin :
      {A : Type 0} (n k : ℕ) (s : Session S) (out : Answer A × Session S)
      → n ≤ k
      → IsWithin n s out
      → IsWithin k s out
  more-IsWithin n k s out few (h, g, c) = (
    h,
    omega arith,
    λ e.
        let run = c e in
        let most = run.at_most in
        record { at_most = omega arith; in_limit = run.in_limit; on_record = run.on_record },
  )

  module _ {A B : Type 0} (f : A → Call S B) (n k : ℕ) (later : (a : A) → Adds k (f a)) where
    then-Makes :
        (s t : Session S) (a : A)
        → (length s.invocations ≤ limit → length t.invocations ≤ limit)
        → length t.invocations ≤ length s.invocations + n
        → Makes made limit n s (Answer.returned a, t)
        → Makes made limit (n + k) s (f a t)
    then-Makes s t a h g run =
        let (_, _, r) = (later a).within t in
        let rest = r run.on_record in
        let most = rest.at_most in
        record {
          at_most = omega arith;
          in_limit = λ e. rest.in_limit (h e);
          on_record = rest.on_record;
        }

    pass-IsWithin :
        (s t : Session S) (a : Answer A) → IsWithin n s (a, t) → IsWithin (n + k) s (pass a t f)
    pass-IsWithin s t (Answer.returned a) (h, g, c) =
        let (p, q, r) = (later a).within t in
        (λ x. p (h x), omega arith, λ e. then-Makes s t a h g (c e))
    pass-IsWithin s t (Answer.raised e) (h, g, c) = (
      h,
      omega arith,
      λ i.
          let run = c i in
          let most = run.at_most in
          record { at_most = omega arith; in_limit = run.in_limit; on_record = tt },
    )

    pub >>=-Adds : (m : Call S A) → Adds n m → Adds (n + k) (m >>= f)
    unfolding ◌>>=◌
    >>=-Adds m here = record { within = λ s. pass-IsWithin s (m s).1 (m s).0 (here.within s) }

  pub decided-Adds : {C : Type 0} (r : Result PolicyError (FinalDecision C)) → Adds 0 (decided r)
  unfolding decided
  decided-Adds (ok d) = record { within = same-IsWithin _ }
  decided-Adds (err e) = record { within = same-IsWithin _ }

  guard-Adds :
      {A : Type 0} (b : Bool) (a : A) (e : WorkflowError)
      → Adds 0 (elim b as (λ k. Call S A) [ true ↦ return a | false ↦ throw e ])
  guard-Adds true a e = record { within = same-IsWithin _ }
  guard-Adds false a e = record { within = same-IsWithin _ }

  materialize-Adds :
      (encoding : Encoding) (role : AgentRole) (drafts : List ClaimDraft)
      → Adds 0 (materialize_unique_claims encoding role drafts)
  unfolding materialize_unique_claims
  materialize-Adds encoding role drafts = guard-Adds _ _ _

  check-Adds :
      {C : Type 0} (x : Result TriageError (Unit {0})) (r : SecurityResult C)
      → Adds 0 (elim x as (λ k. Call S (SecurityResult C)) [
        | ok _ ↦ return r
        | err e ↦ throw (invalid_result e)
      ])
  check-Adds (ok _) r = record { within = same-IsWithin _ }
  check-Adds (err e) r = record { within = same-IsWithin _ }

  checked-Adds : {C : Type 0} (r : SecurityResult C) → Adds 0 (checked r)
  unfolding checked
  checked-Adds r = check-Adds (validate_trace r) r

  pub role-Adds :
      {Output : Type 0} (setting : Setting) (encoding : Encoding)
      (complete : Request → S → Reply Output × S) (task : Task Output)
      → setting.limits.maximum_model_calls_per_alert ≡ limit
      → ((request : Request) (m : S) → made (complete request m).1 ≤ made m + 1)
      → Adds
          (suc setting.limits.maximum_schema_repairs_per_agent)
          (complete_role setting encoding complete task)
  role-Adds setting encoding complete task same counts = record {
    within = λ s.
        let run =
          complete_role-IsRun setting encoding complete task (λ o. Unit) (λ q m o e. tt) s in
        (
          subst
              (λ l.
                length s.invocations ≤ l
                → length (complete_role setting encoding complete task s).1.invocations ≤ l)
              same run.within,
          let few = run.few in
              let grown = ap length run.grown ∙ length-append s.invocations run.added in
              omega arith,
          λ h.
              subst
                (λ l.
                  Makes made l (suc setting.limits.maximum_schema_repairs_per_agent) s
                    (complete_role setting encoding complete task s))
                same (complete_role-Makes made setting encoding complete task counts s h),
        );
  }

-- Each call of the model adds at most one to the count.
record Counts {S Confidence : Type 0} (model : Model S Confidence) (made : S → ℕ) : Type 0 where
  of_analyst : (request : Request) (m : S) → made (model.ask_analyst request m).1 ≤ made m + 1
  of_rebuttal : (request : Request) (m : S) → made (model.ask_rebuttal request m).1 ≤ made m + 1
  of_judge : (request : Request) (m : S) → made (model.ask_judge request m).1 ≤ made m + 1

-- The model with its calls counted.
abbrev pub counted_model : {S Confidence : Type 0} → Model S Confidence → Model (S × ℕ) Confidence
counted_model model = record {
  ask_analyst = counted model.ask_analyst;
  ask_rebuttal = counted model.ask_rebuttal;
  ask_judge = counted model.ask_judge;
  analyst_digest = model.analyst_digest;
  rebuttal_digest = model.rebuttal_digest;
  judge_digest = model.judge_digest;
}

module _ {S Confidence : Type 0} (profile : LlmProfile) (limits : TriageLimits)
    (encoding : Encoding) (model : Model S Confidence) (registry : EvidenceRegistry)
    (target : TriageTarget) (made : S → ℕ) (counts : Counts model made) where
  abbrev calls : ℕ
  calls = suc limits.maximum_schema_repairs_per_agent

  abbrev limit : ℕ
  limit = limits.maximum_model_calls_per_alert

  abbrev here : Setting
  here = setting profile limits encoding model registry target

  claims-Adds :
      (role : AgentRole) (drafts : List ClaimDraft)
      → Adds limit made 0 (materialize_unique_claims {S = S} encoding role drafts)
  claims-Adds role drafts = materialize-Adds limit made encoding role drafts

  decide-Adds :
      (a : AnalystOutput) (xs : List Claim) (r : RebuttalOutput) (ys : List Claim)
      (j : JudgeOutput Confidence)
      → Adds limit made (0 + 0) (decide profile limits encoding model registry target a xs r ys j)
  unfolding decide conclude
  decide-Adds a xs r ys j =
      >>=-Adds limit made (conclude profile limits encoding model registry target a xs r ys j) 0 0
        (λ d. record {
          within = λ s.
              (checked-Adds limit made (
                  result_of profile limits encoding model registry target a xs r ys j d
                    s.invocations)).within
                s;
        })
        (decided (apply registry target a xs r ys j))
        (decided-Adds limit made (apply registry target a xs r ys j))

  run_judge-Adds :
      (a : AnalystOutput) (xs : List Claim) (r : RebuttalOutput) (ys : List Claim)
      → Adds limit made
          (calls + (0 + 0))
          (run_judge profile limits encoding model registry target a xs r ys)
  unfolding run_judge
  run_judge-Adds a xs r ys =
      >>=-Adds limit made (decide profile limits encoding model registry target a xs r ys) calls _
        (decide-Adds a xs r ys) _
        (role-Adds limit made here encoding model.ask_judge
          (judge_task encoding registry target model.judge_digest (xs ++ ys)) refl counts.of_judge)

  run_rebuttal-Adds :
      (a : AnalystOutput) (xs : List Claim)
      → Adds limit made
          (calls + (0 + (calls + (0 + 0))))
          (run_rebuttal profile limits encoding model registry target a xs)
  unfolding run_rebuttal
  run_rebuttal-Adds a xs =
      >>=-Adds limit made _ calls _
        (λ r.
          >>=-Adds limit made (run_judge profile limits encoding model registry target a xs r) 0 _
            (run_judge-Adds a xs r) _ (claims-Adds rebuttal r.claims))
        _
        (role-Adds limit made here encoding model.ask_rebuttal
          (rebuttal_task encoding registry target model.rebuttal_digest xs) refl counts.of_rebuttal)

  run_roles-Adds :
      Adds limit made
        (calls + (0 + (calls + (0 + (calls + (0 + 0))))))
        (run_roles profile limits encoding model registry target)
  unfolding run_roles
  run_roles-Adds =
      >>=-Adds limit made _ calls _
        (λ a.
          >>=-Adds limit made (run_rebuttal profile limits encoding model registry target a) 0 _
            (run_rebuttal-Adds a) _ (claims-Adds analyst a.claims))
        _
        (role-Adds limit made here encoding model.ask_analyst
          (analyst_task encoding registry target model.analyst_digest) refl counts.of_analyst)

  none_called :
      (s : Session S) (e : WorkflowError)
      → IsWithin limit made
          (calls + (0 + (calls + (0 + (calls + (0 + 0))))))
          s
          (throw {S = S} {A = SecurityResult Confidence} e s)
  none_called s e = more-IsWithin limit made 0 _ s _ (omega arith) (same-IsWithin limit made _ s)

  ended-IsWithin :
      (s : Session S) (same none : Bool)
      → IsWithin limits.maximum_model_calls_per_alert made
          (calls + (0 + (calls + (0 + (calls + (0 + 0))))))
          s
          (elim same as (λ k. Answer (SecurityResult Confidence) × Session S) [
            | false ↦ throw foreign_sarif s
            | true ↦ elim none as (λ k. Answer (SecurityResult Confidence) × Session S) [
              | true ↦ throw no_evidence s
              | false ↦ run_roles profile limits encoding model registry target s
            ]
          ])
  ended-IsWithin s false none = none_called s foreign_sarif
  ended-IsWithin s true true = none_called s no_evidence
  ended-IsWithin s true false = run_roles-Adds.within s

  -- The three ends of `triage`.
  triage-ends :
      (start : S)
      → IsWithin limits.maximum_model_calls_per_alert made
          (calls + (0 + (calls + (0 + (calls + (0 + 0))))))
          (record { invocations = []; model = start })
          (triage profile limits encoding model registry target start)
  unfolding triage
  triage-ends start =
      ended-IsWithin (record { invocations = []; model = start })
        (target.raw_result_reference.raw_sarif_sha256 == registry.raw_sarif_sha256)
        (is_empty (target_items registry target))

-- However a security triage ends, by a result or by an error, the calls of the language model that
-- it makes, which are counted by the model itself, are at most `maximum_model_calls_per_alert`, and
-- at most three times one more than the schema repairs of an agent; and so are the calls on record.
pub triage-IsWithin :
    {S Confidence : Type 0} (profile : LlmProfile) (limits : TriageLimits) (encoding : Encoding)
    (model : Model S Confidence) (registry : EvidenceRegistry) (target : TriageTarget) (start : S)
    → ((triage profile limits encoding (counted_model model) registry target (start, 0)).1.model.1
        ≤ limits.maximum_model_calls_per_alert)
      × ((triage profile limits encoding (counted_model model) registry target (start, 0)).1.model.1
          ≤ 3 * (limits.maximum_schema_repairs_per_agent + 1))
      × (length (triage profile limits encoding model registry target start).1.invocations
          ≤ limits.maximum_model_calls_per_alert)
      × (length (triage profile limits encoding model registry target start).1.invocations
          ≤ 3 * (limits.maximum_schema_repairs_per_agent + 1))
triage-IsWithin profile limits encoding model registry target start =
    let (_, _, runs) =
      triage-ends profile limits encoding (counted_model model) registry target (λ m. m.1)
        (record {
          of_analyst = λ q m. omega arith;
          of_rebuttal = λ q m. omega arith;
          of_judge = λ q m. omega arith;
        })
        (start, 0) in
    let run = runs (omega arith) in
    let most = run.at_most in
    let (h, g, _) =
      triage-ends profile limits encoding model registry target (λ m. 0)
        (record {
          of_analyst = λ q m. omega arith;
          of_rebuttal = λ q m. omega arith;
          of_judge = λ q m. omega arith;
        })
        start in
    (run.in_limit (omega arith), omega arith, h (omega arith), omega arith)
