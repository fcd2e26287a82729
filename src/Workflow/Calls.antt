-- ===== src/Workflow/Calls.antt =====
-- What a role's run (`_complete_role` of src/evitriage/agents/workflow.py) adds to the invocations.
use evi_triage_ql.Prelude.{
  ℕ, zero, suc, ◌+◌, ◌≤◌, ◌≡◌, refl, sym, ap, subst, ◌∙◌, inl, inr, Option, some, List, [], ◌∷◌,
  ◌++◌, Result, ok, err, leb, length, length-append, filter, In, Bool-cases, arith,
}
use mathlib.Core.List.{append-nil, append_assoc}
use evi_triage_ql.Evidence.{Sha256}
use evi_triage_ql.Triage.{
  ModelInvocationRecord, accepted, invalid, is_accepted, role_of, validate_status_metadata,
  InvocationStatus-discrete,
}
use evi_triage_ql.Observability.{Items}
use evi_triage_ql.Workflow.{
  Request, Reply, replied, bad_response, failed, ResponseError, WorkflowError, too_many_calls,
  request_too_large, model_failed, response_invalid, Encoding, Session, Answer, Call,
}
use evi_triage_ql.Workflow.Role.{
  Setting, Task, Verdict, accept, repair, give_up, invocation, judged, is_oversized, request_of,
  conclude, ask, attempts, complete_role, appended,
}

-- What a role raises.
pub data IsRoleError : WorkflowError → Type 0 where
  too_many : IsRoleError too_many_calls
  too_large : IsRoleError request_too_large
  no_reply : IsRoleError model_failed
  no_valid_reply : IsRoleError response_invalid

module _ {S Output : Type 0} (setting : Setting) (encoding : Encoding)
    (complete : Request → S → Reply Output × S) (task : Task Output) (IsReply : Output → Type 0)
    (replies : (request : Request) (model : S) (output : Output)
      → (complete request model).0 ≡ replied output
      → IsReply output) where
  -- A returned output passed the validator and was accepted, once; after an error nothing was.
  abbrev pub Ends : Answer Output → List ModelInvocationRecord → Type 0
  Ends (Answer.returned output) added =
      (task.validate output ≡ ok tt)
      × IsReply output
      × ((r : ModelInvocationRecord) × (filter is_accepted added ≡ r ∷ [])
          × (role_of r ≡ task.role))
  Ends (Answer.raised e) added = (filter is_accepted added ≡ []) × IsRoleError e

  abbrev pub IsCallOf : ModelInvocationRecord → Type 0
  IsCallOf r = (role_of r ≡ task.role) × (validate_status_metadata r ≡ ok tt)

  -- The run of at most `left` attempts from the session `s`.
  pub record IsRun (left : ℕ) (s : Session S) (out : Answer Output × Session S) : Type 0 where
    pub added : List ModelInvocationRecord
    pub grown : out.1.invocations ≡ s.invocations ++ added
    pub few : length added ≤ left
    pub within :
        length s.invocations ≤ setting.limits.maximum_model_calls_per_alert
        → length out.1.invocations ≤ setting.limits.maximum_model_calls_per_alert
    pub calls : (r : ModelInvocationRecord) → In r added → IsCallOf r
    pub ends : Ends out.0 added

  filter_nil : filter is_accepted [] ≡ []
  unfolding filter
  filter_nil = refl

  stops :
      (left : ℕ) (s t : Session S) (e : WorkflowError)
      → t.invocations ≡ s.invocations
      → IsRoleError e
      → IsRun left s (Answer.raised e, t)
  stops left s t e same i = record {
    added = [];
    grown = same ∙ sym (append-nil s.invocations);
    few = omega arith;
    within = λ h. rw same h;
    calls = λ r m. absurd m;
    ends = (filter_nil, i);
  }

  call-IsCallOf :
      (attempt : ℕ) (issues : Items) (digest : Option Sha256)
      → IsCallOf (invocation setting encoding task attempt issues accepted digest)
        × IsCallOf (invocation setting encoding task attempt issues invalid digest)
  unfolding invocation validate_status_metadata InvocationStatus-discrete
  call-IsCallOf attempt issues digest = ((refl, refl), (refl, refl))

  accepted_kept :
      (attempt : ℕ) (issues : Items) (digest : Option Sha256) (xs : List ModelInvocationRecord)
      → filter is_accepted (invocation setting encoding task attempt issues accepted digest ∷ xs)
        ≡ invocation setting encoding task attempt issues accepted digest ∷ filter is_accepted xs
  unfolding invocation InvocationStatus-discrete filter
  accepted_kept attempt issues digest xs = refl

  invalid_skipped :
      (attempt : ℕ) (issues : Items) (digest : Option Sha256) (xs : List ModelInvocationRecord)
      → filter is_accepted (invocation setting encoding task attempt issues invalid digest ∷ xs)
        ≡ filter is_accepted xs
  unfolding invocation InvocationStatus-discrete filter
  invalid_skipped attempt issues digest xs = refl

  Ends-cons :
      (a : Answer Output) (r : ModelInvocationRecord) (xs : List ModelInvocationRecord)
      → filter is_accepted (r ∷ xs) ≡ filter is_accepted xs
      → Ends a xs
      → Ends a (r ∷ xs)
  Ends-cons (Answer.returned output) r xs same (v, p, (q, one, role)) =
      (v, p, (q, same ∙ one, role))
  Ends-cons (Answer.raised e) r xs same (none_accepted, i) = (same ∙ none_accepted, i)

  accepts :
      (left attempt : ℕ) (issues : Items) (model : S) (s : Session S) (output : Output)
      → task.validate output ≡ ok tt
      → IsReply output
      → suc (length s.invocations) ≤ setting.limits.maximum_model_calls_per_alert
      → IsRun (suc left) s (
        Answer.returned output,
        appended
            (invocation setting encoding task attempt issues accepted
              (some (task.output_digest output)))
            model
            s,
      )
  unfolding filter
  accepts left attempt issues model s output v p room =
      let r =
        invocation setting encoding task attempt issues accepted
          (some (task.output_digest output)) in
      record {
        added = r ∷ [];
        grown = refl;
        few = omega arith;
        within = λ _. omega (arith, length-append s.invocations (r ∷ []));
        calls = λ q m. elim m [
          | inl e ↦ subst IsCallOf (sym e) (call-IsCallOf attempt issues _).0
          | inr x ↦ absurd x
        ];
        ends = (v, p, (r, accepted_kept attempt issues _ [], (call-IsCallOf attempt issues _).0.0));
      }

  retries :
      (left attempt : ℕ) (issues : Items) (digest : Option Sha256) (model : S) (s : Session S)
      (out : Answer Output × Session S)
      → suc (length s.invocations) ≤ setting.limits.maximum_model_calls_per_alert
      → IsRun left
          (appended (invocation setting encoding task attempt issues invalid digest) model s)
          out
      → IsRun (suc left) s out
  unfolding filter
  retries left attempt issues digest model s out room run =
      let r = invocation setting encoding task attempt issues invalid digest in
      record {
        added = r ∷ run.added;
        grown = run.grown ∙ append_assoc s.invocations (r ∷ []) run.added;
        few = let h = run.few in omega arith;
        within = λ _. run.within (omega (arith, length-append s.invocations (r ∷ [])));
        calls = λ q m. elim m [
          | inl e ↦ subst IsCallOf (sym e) (call-IsCallOf attempt issues _).1
          | inr n ↦ run.calls q n
        ];
        ends =
            Ends-cons out.0 r run.added (invalid_skipped attempt issues digest run.added) run.ends;
      }

  by_validation :
      (o output : Output) (r : Result ResponseError (Unit {0}))
      → task.validate o ≡ r
      → elim r [ ok _ ↦ accept o | err _ ↦ repair (some (task.output_digest o)) Items.nil ]
        ≡ accept output
      → (task.validate output ≡ ok tt) × (replied o ≡ replied output)
  by_validation o output (ok tt) valid h =
      let same : o ≡ output = cc h in
      (subst (λ x. task.validate x ≡ ok tt) same valid, ap replied same)
  by_validation o output (err e) valid h = absurd (cc h)

  judged-eq-accept :
      (reply : Reply Output) (output : Output)
      → judged task reply ≡ accept output
      → (task.validate output ≡ ok tt) × (reply ≡ replied output)
  unfolding judged
  judged-eq-accept (replied o) output h = by_validation o output (task.validate o) refl h
  judged-eq-accept (bad_response digest issues) output h = absurd (cc h)
  judged-eq-accept failed output h = absurd (cc h)

  concludes :
      (left attempt : ℕ) (issues : Items) (model : S) (next : Items → Call S Output) (s : Session S)
      (v : Verdict Output)
      → ((output : Output) → v ≡ accept output → (task.validate output ≡ ok tt) × IsReply output)
      → suc (length s.invocations) ≤ setting.limits.maximum_model_calls_per_alert
      → ((found : Items) (t : Session S) → IsRun left t (next found t))
      → IsRun (suc left) s (conclude setting encoding complete task attempt issues model next v s)
  unfolding conclude
  concludes left attempt issues model next s (accept output) valid room later =
      let (v, p) = valid output refl in accepts left attempt issues model s output v p room
  concludes left attempt issues model next s (repair digest found) valid room later =
      retries left attempt issues digest model s _ room (later found _)
  concludes left attempt issues model next s give_up valid room later =
      stops (suc left) s _ model_failed refl no_reply

  attempts-IsRun :
      (left attempt : ℕ) (issues : Items) (s : Session S)
      → IsRun left s (attempts setting encoding complete task left attempt issues s)
  unfolding attempts ask
  attempts-IsRun zero attempt issues s = stops zero s s response_invalid refl no_valid_reply
  attempts-IsRun (suc left) attempt issues s =
      let limit = setting.limits.maximum_model_calls_per_alert in
      let request = request_of setting encoding task attempt issues in
      let reply = complete request s.model in
      elim (Bool-cases (leb limit (length s.invocations))) [
        | inl full ↦ rw full (stops (suc left) s s too_many_calls refl too_many)
        | inr room ↦ rw room (elim (Bool-cases (is_oversized setting.limits encoding request)) [
          | inl big ↦ rw big (stops (suc left) s s request_too_large refl too_large)
          | inr fits ↦ rw fits (
              concludes left attempt issues reply.1
                (attempts setting encoding complete task left (attempt + 1)) s (judged task reply.0)
                (λ output e.
                  let (v, q) = judged-eq-accept _ output e in (v, replies request s.model output q))
                (ground arith) (λ found t. attempts-IsRun left (attempt + 1) found t))
        ])
      ]

  pub complete_role-IsRun :
      (s : Session S)
      → IsRun
          (suc setting.limits.maximum_schema_repairs_per_agent)
          s
          (complete_role setting encoding complete task s)
  unfolding complete_role
  complete_role-IsRun s = attempts-IsRun _ 0 Items.nil s
