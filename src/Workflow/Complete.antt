-- ===== src/Workflow/Complete.antt =====
-- How `TriageWorkflow.triage` of src/evitriage/agents/workflow.py ends, in every case.
use evi_triage_ql.Prelude.{
  ◌≡◌, refl, sym, ap, subst, ◌∙◌, inl, inr, Bool, true, false, List, [], ◌∷◌, ◌++◌, map, ok, In,
  In-append, is_empty, is_unique, is_unique_iff, Unique, filter, ◌==◌, nat_eq, >>_elim,
}
use evi_triage_ql.Evidence.{
  EvidenceId, ClaimContent, EvidenceItem, AgentRole, analyst, rebuttal, judge, Claim,
}
use evi_triage_ql.Evidence.Registry.{EvidenceRegistry, item_id}
use evi_triage_ql.Triage.{
  TriageTarget, ClaimDraft, AnalystOutput, RebuttalOutput, JudgeOutput, FinalDecision, claim_id_of,
  validate_unique_lists,
}
use evi_triage_ql.Policy.{apply}
use evi_triage_ql.Policy.Run.{apply-Run}
use evi_triage_ql.Policy.Totality.{NamesItem, apply-total}
use evi_triage_ql.Policy.Basis.{OnTarget}
use evi_triage_ql.Workflow.{
  TriageLimits, LlmProfile, Request, replied, foreign_sarif, no_evidence, throw, Encoding, Session,
  Answer, Call, pass, ◌>>=◌,
}
use evi_triage_ql.Workflow.Role.{Setting, complete_role}
use evi_triage_ql.Workflow.Validators.{
  claims_of, validate_claim_drafts, validate_analyst, validate_rebuttal,
}
use evi_triage_ql.Workflow.Security.{
  Model, target_items, evidence_ids, analyst_task, rebuttal_task, judge_task,
  materialize_unique_claims, decided, SecurityResult, setting, result_of, conclude, decide,
  run_judge, run_rebuttal, run_roles, triage,
}
use evi_triage_ql.Workflow.Grounded.{
  evidence_ids_name, target_item, accepted_drafts, claims_distinct, judge-IsGrounded,
}
use evi_triage_ql.Workflow.Ends.{
  foreign, without_evidence, agents, IsOutcome, >>=-cases, role_returned, role_raised,
  decided_target, trace_valid, checked_returns, materialize_returns,
}

module _ {S Confidence : Type 0} (profile : LlmProfile) (limits : TriageLimits)
    (encoding : Encoding) (model : Model S Confidence) (registry : EvidenceRegistry)
    (target : TriageTarget) where
  -- What follows the roles, on claims and a judgment that the policy accepts.
  decide-IsOutcome :
      (a : AnalystOutput) (xs : List Claim) (r : RebuttalOutput) (ys : List Claim)
      (j : JudgeOutput Confidence) (d : FinalDecision Confidence) (s : Session S)
      → apply registry target a xs r ys j ≡ ok d
      → is_unique (map claim_id_of (xs ++ ys)) ≡ true
      → agents s.invocations ≡ analyst ∷ rebuttal ∷ judge ∷ []
      → IsOutcome registry target
          (decide profile limits encoding model registry target a xs r ys j s)
  unfolding decide conclude decided ◌>>=◌
  decide-IsOutcome a xs r ys j d s decision unique roles =
      let result =
        result_of profile limits encoding model registry target a xs r ys j d s.invocations in
      let run = apply-Run registry target a xs r ys j d decision in
      let valid =
        trace_valid result (decided_target target j _ run.verdict d run.decided) unique roles in
      let end = checked_returns result s valid in
      rw decision (subst (λ o. IsOutcome registry target o) (sym end) (valid, decision, refl))

  module _ (items : Unique (map item_id registry.items))
      (apart : (c d : ClaimContent)
        → encoding.claim_digest c ≡ encoding.claim_digest d
        → c.produced_by ≡ d.produced_by)
      (judges : (request : Request) (m : S) (output : JudgeOutput Confidence)
        → (model.ask_judge request m).0 ≡ replied output
        → validate_unique_lists output ≡ ok tt)
      (item : (i : EvidenceItem) × OnTarget registry target i) where
    abbrev ids : List EvidenceId
    ids = evidence_ids encoding registry target

    abbrev here : Setting
    here = setting profile limits encoding model registry target

    abbrev Ends : Answer (SecurityResult Confidence) × Session S → Type 0
    Ends o = IsOutcome registry target o

    named : (k : EvidenceId) → In k ids → NamesItem registry target k
    named = evidence_ids_name registry target ids refl

    abbrev made : AgentRole → List ClaimDraft → List Claim
    made role drafts = claims_of encoding.claim_digest role drafts

    -- Drafts that a validator accepted become claims; nothing is raised.
    materialized :
        (role : AgentRole) (drafts : List ClaimDraft) (s : Session S)
        (f : List Claim → Call S (SecurityResult Confidence))
        → validate_claim_drafts encoding.claim_digest role ids drafts ≡ ok tt
        → Ends (f (made role drafts) s)
        → Ends ((materialize_unique_claims encoding role drafts >>= f) s)
    unfolding ◌>>=◌
    materialized role drafts s f h later =
        let unique = (accepted_drafts encoding.claim_digest role ids drafts h).1 in
        subst (λ o. Ends (pass o.0 o.1 f)) (sym (materialize_returns encoding role drafts s unique))
          later

    module _ (a : AnalystOutput) (r : RebuttalOutput)
        (from_analyst : validate_claim_drafts encoding.claim_digest analyst ids a.claims ≡ ok tt)
        (from_rebuttal : validate_claim_drafts encoding.claim_digest rebuttal ids r.claims
          ≡ ok tt) where
      abbrev xs : List Claim
      xs = made analyst a.claims

      abbrev ys : List Claim
      ys = made rebuttal r.claims

      cited :
          (c : Claim) (k : EvidenceId)
          → In c (xs ++ ys)
          → In k c.evidence_ids
          → NamesItem registry target k
      cited c k m n =
          let p = accepted_drafts encoding.claim_digest analyst ids a.claims from_analyst in
          let q = accepted_drafts encoding.claim_digest rebuttal ids r.claims from_rebuttal in
          named k (elim (In-append c xs ys m) [ inl l ↦ p.0 c k l n | inr l ↦ q.0 c k l n ])

      distinct : Unique (map claim_id_of (xs ++ ys))
      distinct =
          let p = accepted_drafts encoding.claim_digest analyst ids a.claims from_analyst in
          let q = accepted_drafts encoding.claim_digest rebuttal ids r.claims from_rebuttal in
          claims_distinct encoding.claim_digest a.claims r.claims apart p.1 q.1

      run_judge-IsOutcome :
          (s : Session S)
          → agents s.invocations ≡ analyst ∷ rebuttal ∷ []
          → Ends (run_judge profile limits encoding model registry target a xs r ys s)
      unfolding run_judge judge_task
      run_judge-IsOutcome s roles =
          let task = judge_task encoding registry target model.judge_digest (xs ++ ys) in
          let IsReply = λ (o : JudgeOutput Confidence). validate_unique_lists o ≡ ok tt in
          >>=-cases Ends (decide profile limits encoding model registry target a xs r ys)
            (complete_role here encoding model.ask_judge task) s
            (λ j t h.
              let (v, p, q) =
                role_returned here encoding model.ask_judge task IsReply judges s t j h in
              let grounded = judge-IsGrounded registry target xs ys j ids named item cited v in
              let (d, decision) =
                apply-total registry target a xs r ys j (items, distinct) grounded p in
              decide-IsOutcome a xs r ys j d t decision ((is_unique_iff _).1 distinct)
                (q ∙ ap (◌++ judge ∷ []) roles))
            (λ e t h. role_raised here encoding model.ask_judge task IsReply judges s t e h)

    run_rebuttal-IsOutcome :
        (a : AnalystOutput) (s : Session S)
        → validate_claim_drafts encoding.claim_digest analyst ids a.claims ≡ ok tt
        → agents s.invocations ≡ analyst ∷ []
        → Ends
            (run_rebuttal profile limits encoding model registry target a (made analyst a.claims) s)
    unfolding run_rebuttal rebuttal_task validate_rebuttal
    run_rebuttal-IsOutcome a s valid roles =
        let task =
          rebuttal_task encoding registry target model.rebuttal_digest (made analyst a.claims) in
        let IsReply = λ (o : RebuttalOutput). Unit {0} in
        >>=-cases Ends
          (λ (r : RebuttalOutput).
            materialize_unique_claims encoding rebuttal r.claims
            >>= run_judge profile limits encoding model registry target a (made analyst a.claims) r)
          (complete_role here encoding model.ask_rebuttal task) s
          (λ r t h.
            let (v, _, q) =
              role_returned here encoding model.ask_rebuttal task IsReply (λ q m o e. tt) s t r h in
            let (w, _) = >>_elim _ _ _ v in
            materialized rebuttal r.claims t _ w
              (run_judge-IsOutcome a r valid w t (q ∙ ap (◌++ rebuttal ∷ []) roles)))
          (λ e t h.
            role_raised here encoding model.ask_rebuttal task IsReply (λ q m o e. tt) s t e h)

    run_roles-IsOutcome :
        (s : Session S)
        → agents s.invocations ≡ []
        → Ends (run_roles profile limits encoding model registry target s)
    unfolding run_roles analyst_task validate_analyst
    run_roles-IsOutcome s roles =
        let task = analyst_task encoding registry target model.analyst_digest in
        let IsReply = λ (o : AnalystOutput). Unit {0} in
        >>=-cases Ends
          (λ (a : AnalystOutput).
            materialize_unique_claims encoding analyst a.claims
            >>= run_rebuttal profile limits encoding model registry target a)
          (complete_role here encoding model.ask_analyst task) s
          (λ a t h.
            let (v, _, q) =
              role_returned here encoding model.ask_analyst task IsReply (λ q m o e. tt) s t a h in
            materialized analyst a.claims t _ v
              (run_rebuttal-IsOutcome a t v (q ∙ ap (◌++ analyst ∷ []) roles)))
          (λ e t h.
            role_raised here encoding model.ask_analyst task IsReply (λ q m o e. tt) s t e h)

  module _ (items : Unique (map item_id registry.items))
      (apart : (c d : ClaimContent)
        → encoding.claim_digest c ≡ encoding.claim_digest d
        → c.produced_by ≡ d.produced_by)
      (judges : (request : Request) (m : S) (output : JudgeOutput Confidence)
        → (model.ask_judge request m).0 ≡ replied output
        → validate_unique_lists output ≡ ok tt) where
    ended-IsOutcome :
        (s : Session S) (same none : Bool)
        → agents s.invocations ≡ []
        → is_empty (target_items registry target) ≡ none
        → IsOutcome registry target
            (elim same as (λ k. Answer (SecurityResult Confidence) × Session S) [
              | false ↦ throw foreign_sarif s
              | true ↦ elim none as (λ k. Answer (SecurityResult Confidence) × Session S) [
                | true ↦ throw no_evidence s
                | false ↦ run_roles profile limits encoding model registry target s
              ]
            ])
    ended-IsOutcome s false none roles h = foreign
    ended-IsOutcome s true true roles h = without_evidence
    ended-IsOutcome s true false roles h =
        run_roles-IsOutcome items apart judges (target_item registry target h) s roles

-- Where the identifiers of the registry's items are distinct, claims of two roles never have
-- the same digest and each response of the Judge passes its own validator, a security triage ends in one of two ways:
-- with a result whose trace is valid and whose decision is the policy's, or with an error of a role or
-- of the target; the policy never rejects what the roles returned, and no validator of the result or
-- of a claim raises.
pub triage-IsOutcome :
    {S Confidence : Type 0} (profile : LlmProfile) (limits : TriageLimits) (encoding : Encoding)
    (model : Model S Confidence) (registry : EvidenceRegistry) (target : TriageTarget) (start : S)
    → Unique (map item_id registry.items)
    → ((c d : ClaimContent)
        → encoding.claim_digest c ≡ encoding.claim_digest d
        → c.produced_by ≡ d.produced_by)
    → ((request : Request) (m : S) (output : JudgeOutput Confidence)
        → (model.ask_judge request m).0 ≡ replied output
        → validate_unique_lists output ≡ ok tt)
    → IsOutcome registry target (triage profile limits encoding model registry target start)
unfolding triage filter
triage-IsOutcome profile limits encoding model registry target start items apart judges =
    ended-IsOutcome profile limits encoding model registry target items apart judges
      (record { invocations = []; model = start })
      (target.raw_result_reference.raw_sarif_sha256 == registry.raw_sarif_sha256)
      (is_empty (target_items registry target)) refl refl
