-- ===== src/Workflow/Made.antt =====
-- The calls of the language model that a role's run (`_complete_role` of
-- src/evitriage/agents/workflow.py) makes, on record or not: they are counted in the model's state.
use evi_triage_ql.Prelude.{
  ℕ, zero, suc, ◌+◌, ◌≤◌, inl, inr, [], ◌∷◌, leb, length, length-append, Bool-cases, arith,
}
use evi_triage_ql.Triage.{ModelInvocationRecord}
use evi_triage_ql.Observability.{Items}
use evi_triage_ql.Workflow.{
  Request, Reply, WorkflowError, too_many_calls, request_too_large, response_invalid, Session,
  Answer, Call,
}
use evi_triage_ql.Workflow.Role.{
  Setting, Task, Verdict, accept, repair, give_up, judged, is_oversized, request_of, conclude, ask,
  attempts, complete_role, appended,
}
use evi_triage_ql.Workflow.{Encoding}

-- A model whose state has the number of the calls made: each call adds one, whatever it answers.
abbrev pub counted :
    {S Output : Type 0}
    → (Request → S → Reply Output × S)
    → Request
    → S × ℕ
    → Reply Output × (S × ℕ)
counted complete request (s, n) = let (reply, t) = complete request s in (reply, (t, n + 1))

module _ {S : Type 0} (made : S → ℕ) (limit : ℕ) where
  -- After a returned value every call is on record.
  abbrev pub IsOnRecord : {A : Type 0} → Answer A × Session S → Type 0
  IsOnRecord (Answer.returned a, t) = made t.model ≤ length t.invocations
  IsOnRecord (Answer.raised e, t) = Unit

  -- The calls made up to the end, from a session whose calls are all on record.
  pub record Makes {A : Type 0} (n : ℕ) (s : Session S) (out : Answer A × Session S) : Type 0 where
    pub at_most : made out.1.model ≤ length s.invocations + n
    pub in_limit : length s.invocations ≤ limit → made out.1.model ≤ limit
    pub on_record : IsOnRecord out

module _ {S Output : Type 0} (made : S → ℕ) (setting : Setting) (encoding : Encoding)
    (complete : Request → S → Reply Output × S) (task : Task Output)
    (counts : (request : Request) (m : S) → made (complete request m).1 ≤ made m + 1) where
  abbrev limit : ℕ
  limit = setting.limits.maximum_model_calls_per_alert

  -- The later attempts, after a call that is on record.
  retried :
      (left : ℕ) (r : ModelInvocationRecord) (model : S) (s : Session S)
      (out : Answer Output × Session S)
      → suc (length s.invocations) ≤ limit
      → Makes made limit left (appended r model s) out
      → Makes made limit (suc left) s out
  retried left r model s out room later =
      let grown = length-append s.invocations (r ∷ []) in
      let few = later.at_most in
      record {
        at_most = omega arith;
        in_limit = λ _. later.in_limit (omega arith);
        on_record = later.on_record;
      }

  stops-Makes :
      (n : ℕ) (s : Session S) (e : WorkflowError)
      → made s.model ≤ length s.invocations
      → Makes made limit {A = Output} n s (Answer.raised e, s)
  stops-Makes n s e h = record {
    at_most = omega arith;
    in_limit = λ k. omega arith;
    on_record = tt;
  }

  concludes-Makes :
      (left attempt : ℕ) (issues : Items) (model : S) (next : Items → Call S Output) (s : Session S)
      (v : Verdict Output)
      → made model ≤ length s.invocations + 1
      → suc (length s.invocations) ≤ limit
      → ((found : Items) (t : Session S)
          → made t.model ≤ length t.invocations
          → Makes made limit left t (next found t))
      → Makes made limit
          (suc left)
          s
          (conclude setting encoding complete task attempt issues model next v s)
  unfolding conclude
  concludes-Makes left attempt issues model next s (accept output) c room later = record {
    at_most = omega arith;
    in_limit = λ _. omega arith;
    on_record = omega (arith, length-append s.invocations);
  }
  concludes-Makes left attempt issues model next s (repair digest found) c room later =
      retried left _ model s _ room (later found _ (omega (arith, length-append s.invocations)))
  concludes-Makes left attempt issues model next s give_up c room later = record {
    at_most = omega arith;
    in_limit = λ _. omega arith;
    on_record = tt;
  }

  attempts-Makes :
      (left attempt : ℕ) (issues : Items) (s : Session S)
      → made s.model ≤ length s.invocations
      → Makes made limit left s (attempts setting encoding complete task left attempt issues s)
  unfolding attempts ask
  attempts-Makes zero attempt issues s h = stops-Makes zero s response_invalid h
  attempts-Makes (suc left) attempt issues s h =
      let request = request_of setting encoding task attempt issues in
      let reply = complete request s.model in
      elim (Bool-cases (leb limit (length s.invocations))) [
        | inl full ↦ rw full (stops-Makes (suc left) s too_many_calls h)
        | inr room ↦ rw room (elim (Bool-cases (is_oversized setting.limits encoding request)) [
          | inl big ↦ rw big (stops-Makes (suc left) s request_too_large h)
          | inr fits ↦ rw fits (
              concludes-Makes left attempt issues reply.1
                (attempts setting encoding complete task left (attempt + 1)) s (judged task reply.0)
                (let one = counts request s.model in omega arith) (ground arith)
                (λ found t k. attempts-Makes left (attempt + 1) found t k))
        ])
      ]

  -- A role makes at most one call more than its repairs, and none past the limit.
  pub complete_role-Makes :
      (s : Session S)
      → made s.model ≤ length s.invocations
      → Makes made limit
          (suc setting.limits.maximum_schema_repairs_per_agent)
          s
          (complete_role setting encoding complete task s)
  unfolding complete_role
  complete_role-Makes s h = attempts-Makes _ 0 Items.nil s h
