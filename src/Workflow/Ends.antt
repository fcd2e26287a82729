-- ===== src/Workflow/Ends.antt =====
-- The pieces of how `TriageWorkflow.triage` (src/evitriage/agents/workflow.py) ends: the calls in turn,
-- a role's end, and the result's validator.
use evi_triage_ql.Prelude.{
  suc, not, raise_if, ◌≡◌, refl, sym, ap, subst, ◌∙◌, inl, inr, Bool, true, false, List, [], ◌∷◌,
  ◌++◌, map, Result, ok, err, is_unique, filter, Bool-cases, nat_eq, arith, unless_intro,
}
use mathlib.Core.List.{map-append}
use evi_triage_ql.Evidence.{
  AgentRole, analyst, rebuttal, judge, AgentRole-discrete, reference_beq_iff,
}
use evi_triage_ql.Evidence.Registry.{EvidenceRegistry}
use evi_triage_ql.Triage.{
  TriageTarget, TriageError, ClaimDraft, JudgeOutput, FinalDecision, ModelInvocationRecord,
  is_accepted, role_of, claim_id_of, target_beq, roles_beq, validate_trace,
}
use evi_triage_ql.Policy.{apply, final_decision, Verdict}
use evi_triage_ql.Workflow.{
  Request, Reply, replied, WorkflowError, foreign_sarif, no_evidence, invalid_result, throw, return,
  Encoding, Session, Answer, Call, pass, ◌>>=◌,
}
use evi_triage_ql.Workflow.Role.{Setting, Task, complete_role}
use evi_triage_ql.Workflow.Validators.{claims_of}
use evi_triage_ql.Workflow.Security.{materialize_unique_claims, checked, SecurityResult}
use evi_triage_ql.Workflow.Calls.{IsRoleError, IsRun, complete_role-IsRun}

-- What `triage` raises: an error of a role, or that the target is not one of the registry's.
pub data IsTriageError : WorkflowError → Type 0 where
  foreign : IsTriageError foreign_sarif
  without_evidence : IsTriageError no_evidence
  of_role : (e : WorkflowError) → IsRoleError e → IsTriageError e

-- The agents of the accepted calls so far.
abbrev pub agents : List ModelInvocationRecord → List AgentRole
agents xs = map role_of (filter is_accepted xs)

filter-append :
    (xs ys : List ModelInvocationRecord)
    → filter is_accepted (xs ++ ys) ≡ filter is_accepted xs ++ filter is_accepted ys
unfolding filter
filter-append [] ys = refl
filter-append (x ∷ xs) ys = elim (Bool-cases (is_accepted x)) [
  | inl h ↦ rw h (ap (x ∷◌) (filter-append xs ys))
  | inr h ↦ rw h (filter-append xs ys)
]

module _ {S A B : Type 0} (Q : Answer B × Session S → Type 0) (f : A → Call S B) where
  by_answer :
      (o r : Answer A × Session S)
      → o ≡ r
      → ((a : A) (t : Session S) → o ≡ (Answer.returned a, t) → Q (f a t))
      → ((e : WorkflowError) (t : Session S) → o ≡ (Answer.raised e, t) → Q (Answer.raised e, t))
      → Q (pass r.0 r.1 f)
  by_answer o (Answer.returned a, t) same onward stop = onward a t same
  by_answer o (Answer.raised e, t) same onward stop = stop e t same

  -- To show something of `m >>= f` is to show it of what follows each end of `m`.
  pub >>=-cases :
      (m : Call S A) (s : Session S)
      → ((a : A) (t : Session S) → m s ≡ (Answer.returned a, t) → Q (f a t))
      → ((e : WorkflowError) (t : Session S) → m s ≡ (Answer.raised e, t) → Q (Answer.raised e, t))
      → Q ((m >>= f) s)
  unfolding ◌>>=◌
  >>=-cases m s onward stop = by_answer (m s) (m s) refl onward stop

module _ {S Output : Type 0} (setting : Setting) (encoding : Encoding)
    (complete : Request → S → Reply Output × S) (task : Task Output) (IsReply : Output → Type 0)
    (replies : (request : Request) (model : S) (output : Output)
      → (complete request model).0 ≡ replied output
      → IsReply output)
    (s t : Session S) where
  role-IsRun :
      (o : Answer Output × Session S)
      → complete_role setting encoding complete task s ≡ o
      → IsRun setting encoding complete task IsReply replies
          (suc setting.limits.maximum_schema_repairs_per_agent)
          s
          o
  role-IsRun o h =
      subst
        (IsRun setting encoding complete task IsReply replies
          (suc setting.limits.maximum_schema_repairs_per_agent) s)
        h (complete_role-IsRun setting encoding complete task IsReply replies s)

  -- A role that returned: its output is valid, and its accepted call is the last.
  pub role_returned :
      (output : Output)
      → complete_role setting encoding complete task s ≡ (Answer.returned output, t)
      → (task.validate output ≡ ok tt)
        × IsReply output
        × (agents t.invocations ≡ agents s.invocations ++ task.role ∷ [])
  role_returned output h =
      let run = role-IsRun _ h in
      let (v, p, (q, one, role)) = run.ends in
      (
        v,
        p,
        ap agents run.grown
            ∙ (ap (map role_of) (filter-append s.invocations run.added)
                ∙ (map-append role_of _ _
                    ∙ ap (map role_of (filter is_accepted s.invocations) ++◌)
                        (ap (map role_of) one ∙ ap (◌∷ []) role))),
      )

  pub role_raised :
      (e : WorkflowError)
      → complete_role setting encoding complete task s ≡ (Answer.raised e, t)
      → IsTriageError e
  role_raised e h = let run = role-IsRun _ h in of_role e (run.ends).1

in_turn :
    (xs : List AgentRole)
    → xs ≡ analyst ∷ rebuttal ∷ judge ∷ []
    → roles_beq xs (analyst ∷ rebuttal ∷ judge ∷ []) ≡ true
unfolding roles_beq AgentRole-discrete
in_turn xs h = rw h refl

raise_unless : {E : Type 0} (b : Bool) (e : E) → b ≡ true → raise_if (not b) e ≡ ok tt
raise_unless true e h = refl
raise_unless false e h = absurd (cc h)

module _ {Confidence : Type 0} (registry : EvidenceRegistry) (target : TriageTarget) where
  -- A returned result has a valid trace, and its decision is the policy's; an error is one of a role
  -- or of the target.
  abbrev pub IsOutcome : {S : Type 0} → Answer (SecurityResult Confidence) × Session S → Type 0
  IsOutcome (Answer.returned r, t) =
      (validate_trace r ≡ ok tt)
      × (apply registry target r.analyst r.analyst_claims r.rebuttal r.rebuttal_claims r.judge
          ≡ ok r.final_decision)
      × (r.invocations ≡ t.invocations)
  IsOutcome (Answer.raised e, t) = IsTriageError e

pub decided_target :
    {Confidence : Type 0} (target : TriageTarget) (judgment : JudgeOutput Confidence)
    (unknowns : List _) (v : Verdict) (d : FinalDecision Confidence)
    → final_decision target judgment unknowns v ≡ ok d
    → d.target ≡ target
unfolding final_decision
decided_target target judgment unknowns v d h = ground arith

target_refl : (target : TriageTarget) → target_beq target target ≡ true
unfolding target_beq
target_refl target =
    rw
      (
        (nat_eq.beq_iff target.alert_fingerprint _).1 refl,
        (reference_beq_iff target.raw_result_reference _).1 refl,
      )
      refl

pub trace_valid :
    {Confidence : Type 0} (r : SecurityResult Confidence)
    → r.final_decision.target ≡ r.target
    → is_unique (map claim_id_of (r.analyst_claims ++ r.rebuttal_claims)) ≡ true
    → agents r.invocations ≡ analyst ∷ rebuttal ∷ judge ∷ []
    → validate_trace r ≡ ok tt
unfolding validate_trace
trace_valid r same unique roles =
    unless_intro _ _ _ _
      (subst (λ x. target_beq x r.target ≡ true) (sym same) (target_refl r.target))
      (unless_intro _ _ _ _ unique (raise_unless _ _ (in_turn _ roles)))

check_returns :
    {S Confidence : Type 0} (x : Result TriageError (Unit {0})) (r : SecurityResult Confidence)
    (s : Session S)
    → x ≡ ok tt
    → (elim x as (λ k. Call S (SecurityResult Confidence)) [
      | ok _ ↦ return r
      | err e ↦ throw (invalid_result e)
    ])
        s
      ≡ (Answer.returned r, s)
check_returns (ok _) r s h = refl
check_returns (err e) r s h = absurd (cc h)

pub checked_returns :
    {S Confidence : Type 0} (r : SecurityResult Confidence) (s : Session S)
    → validate_trace r ≡ ok tt
    → checked r s ≡ (Answer.returned r, s)
unfolding checked
checked_returns r s h = check_returns (validate_trace r) r s h

guard_returns :
    {S A : Type 0} (b : Bool) (a : A) (e : WorkflowError) (s : Session S)
    → b ≡ true
    → (elim b as (λ k. Call S A) [ true ↦ return a | false ↦ throw e ]) s ≡ (Answer.returned a, s)
guard_returns true a e s h = refl
guard_returns false a e s h = absurd (cc h)

pub materialize_returns :
    {S : Type 0} (encoding : Encoding) (role : AgentRole) (drafts : List ClaimDraft) (s : Session S)
    → is_unique (map claim_id_of (claims_of encoding.claim_digest role drafts)) ≡ true
    → materialize_unique_claims encoding role drafts s
      ≡ (Answer.returned (claims_of encoding.claim_digest role drafts), s)
unfolding materialize_unique_claims
materialize_returns encoding role drafts s h = guard_returns _ _ _ s h
