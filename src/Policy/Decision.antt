-- ===== src/Policy/Decision.antt =====
-- The decision against the specification of Policy/Basis, for distinct identifiers.
use evi_triage_ql.Prelude.{
  ◌≡◌, refl, sym, ◌∙◌, ◌↔◌, ◌⊎◌, inl, inr, Bool, true, false, List, [], ◌∷◌, ◌++◌, arith, ok, In,
  stable_unique, stable_unique-In, is_empty, string_eq, String, any, ◌&&◌,
}
use evi_triage_ql.Evidence.{Claim, supports_tp, supports_fp}
use evi_triage_ql.Evidence.Registry.{EvidenceRegistry}
use evi_triage_ql.Triage.{
  TriageTarget, AnalystOutput, RebuttalOutput, JudgeOutput, FinalDecision, TriageLabel, tp, fp, nmc,
  policy_flag_eq,
}
use evi_triage_ql.Policy.{Verdict, has_high_polarity, final_decision, apply, is_unresolved}
use evi_triage_ql.Policy.Basis.{Distinct, TpIsDue, FpIsDue, HasStrong, HasUnresolved}
use evi_triage_ql.Policy.Labels.{choose_label_tp, choose_label_fp}
use evi_triage_ql.Policy.Run.{Run, apply-Run}
use evi_triage_ql.Policy.Considering.{
  HasStrong-iff, has_unresolved_iff, due_fp_iff, due_tp_iff, gates, chosen_value, tp_considers,
  fp_strong, considers,
}

-- A test is off exactly when what it tests fails.
off_iff : {P : Type 0} (b : Bool) → (b ≡ true) ↔ P → (b ≡ false) ↔ (¬ P)
off_iff true h = (λ q. absurd (cc q), λ n. absurd (n (h.0 refl)))
off_iff false h = (λ q p. absurd (cc (h.1 p)), λ n. refl)

empty_of_no_element : (xs : List String) → ((x : String) → ¬ In x xs) → xs ≡ []
empty_of_no_element [] h = refl
empty_of_no_element (x ∷ xs) h = absurd (h x (inl refl))

-- Without repetitions, a list is empty exactly when it was.
is_empty-stable_unique : (xs : List String) → (is_empty (stable_unique xs) ≡ true) ↔ (xs ≡ [])
unfolding stable_unique
is_empty-stable_unique xs = (there, λ p. rw p)
  where
    there : is_empty (stable_unique xs) ≡ true → xs ≡ []
    there h =
        empty_of_no_element xs λ x m. nothing (stable_unique xs) h x ((stable_unique-In x xs).1 m)
      where
        nothing : (ys : List String) → is_empty ys ≡ true → (x : String) → ¬ In x ys
        nothing [] q x n = n
        nothing (y ∷ ys) q x n = cc q

no_unknowns_iff :
    (a b c : List String)
    → (is_empty (stable_unique (a ++ (b ++ c))) ≡ true) ↔ ((a ≡ []) × (b ≡ []) × (c ≡ []))
no_unknowns_iff a b c = (
  λ h. parts a b c ((is_empty-stable_unique (a ++ (b ++ c))).0 h),
  λ (p, q, r). (is_empty-stable_unique (a ++ (b ++ c))).1 (rw (p, q, r)),
)
  where
    parts : (a b c : List String) → a ++ (b ++ c) ≡ [] → (a ≡ []) × (b ≡ []) × (c ≡ [])
    parts [] [] [] h = (refl, refl, refl)
    parts [] [] (x ∷ c) h = absurd (cc h)
    parts [] (x ∷ b) c h = absurd (cc h)
    parts (x ∷ a) b c h = absurd (cc h)

decided-label :
    {Confidence : Type 0} (target : TriageTarget) (judge : JudgeOutput Confidence)
    (unknowns : List String) (v : Verdict) (d : FinalDecision Confidence)
    → final_decision target judge unknowns v ≡ ok d
    → d.label ≡ v.0
unfolding final_decision
decided-label target judge unknowns v d h = ground arith

each_label : (l : TriageLabel) → (l ≡ tp) ⊎ ((l ≡ fp) ⊎ (l ≡ nmc))
each_label tp = inl refl
each_label fp = inr (inl refl)
each_label nmc = inr (inr refl)

module _ {Confidence : Type 0} (registry : EvidenceRegistry) (target : TriageTarget)
    (analyst : AnalystOutput) (analyst_claims : List Claim) (rebuttal : RebuttalOutput)
    (rebuttal_claims : List Claim) (judge : JudgeOutput Confidence)
    (distinct : Distinct registry analyst_claims rebuttal_claims)
    (d : FinalDecision Confidence) where
  abbrev Returns : Type 0
  Returns = apply registry target analyst analyst_claims rebuttal rebuttal_claims judge ≡ ok d

  -- Nothing is unknown and no critical claim is open.
  abbrev Settled : Type 0
  Settled =
      ((analyst.unknowns ≡ []) × (rebuttal.unknowns ≡ []) × (judge.unknowns ≡ []))
      × ¬ HasUnresolved registry target analyst_claims rebuttal_claims judge

  module _ (h : Returns) where
    abbrev run : Run registry target analyst analyst_claims rebuttal rebuttal_claims judge d
    run = apply-Run registry target analyst analyst_claims rebuttal rebuttal_claims judge d h

    label_of : d.label ≡ run.verdict.0
    label_of = decided-label target judge _ run.verdict d run.decided

    strong_off :
        (has_high_polarity run.considered supports_fp ≡ false)
        ↔ (¬ HasStrong registry target analyst_claims rebuttal_claims judge supports_fp)
    strong_off = off_iff _ (
        HasStrong-iff registry target analyst analyst_claims rebuttal rebuttal_claims judge distinct
          d run supports_fp)

    open_off :
        (any is_unresolved run.critical ≡ false)
        ↔ (¬ HasUnresolved registry target analyst_claims rebuttal_claims judge)
    open_off = off_iff _ (
        has_unresolved_iff registry target analyst analyst_claims rebuttal rebuttal_claims judge
          distinct d run)

    -- The label is TP exactly when a true positive is due.
    label-tp :
        (d.label ≡ tp)
        ↔ TpIsDue registry target analyst_claims rebuttal_claims judge analyst.unknowns
            rebuttal.unknowns
    label-tp =
        let g =
          gates registry target analyst analyst_claims rebuttal rebuttal_claims judge distinct d
            run in
        let c =
          chosen_value registry target analyst analyst_claims rebuttal rebuttal_claims judge
            distinct d run in
        let t =
          due_tp_iff registry target analyst analyst_claims rebuttal rebuttal_claims judge distinct
            d run in
        let e = choose_label_tp g _ _ run.verdict c in
        let u = no_unknowns_iff analyst.unknowns rebuttal.unknowns judge.unknowns in
        (
          λ l.
              let (q, (_, n, o), s, b) = e.0 (sym label_of ∙ l) in
              (q, u.0 n, open_off.0 o, strong_off.0 s, t.0 b),
          λ (q, n, o, s, b).
              label_of
              ∙ e.1 (
                q,
                (
                  tp_considers registry target analyst analyst_claims rebuttal rebuttal_claims judge
                      distinct d run b,
                  u.1 n,
                  open_off.1 o,
                ),
                strong_off.1 s,
                t.1 b,
              ),
        )

    -- Strong evidence on one side only, when there is some for a false positive.
    one_sided :
        HasStrong registry target analyst_claims rebuttal_claims judge supports_fp
        → ((has_high_polarity run.considered supports_tp
              && has_high_polarity run.considered supports_fp)
            ≡ false)
          ↔ (¬ HasStrong registry target analyst_claims rebuttal_claims judge supports_tp)
    one_sided s =
        let p =
          HasStrong-iff registry target analyst analyst_claims rebuttal rebuttal_claims judge
            distinct d run supports_tp in
        let q : has_high_polarity run.considered supports_fp ≡ true =
          (HasStrong-iff registry target analyst analyst_claims rebuttal rebuttal_claims judge
              distinct d run supports_fp).1
            s in
        let o = off_iff _ p in (λ e. o.0 (ground arith), λ n. rw (o.1 n))

    -- The label is FP exactly when a false positive is due.
    label-fp :
        (d.label ≡ fp)
        ↔ FpIsDue registry target analyst_claims rebuttal_claims judge analyst.unknowns
            rebuttal.unknowns
    label-fp =
        let g =
          gates registry target analyst analyst_claims rebuttal rebuttal_claims judge distinct d
            run in
        let c =
          chosen_value registry target analyst analyst_claims rebuttal rebuttal_claims judge
            distinct d run in
        let t =
          due_fp_iff registry target analyst analyst_claims rebuttal rebuttal_claims judge distinct
            d run in
        let strong =
          fp_strong registry target analyst analyst_claims rebuttal rebuttal_claims judge distinct d
            run in
        let e = choose_label_fp g _ _ run.verdict c in
        let u = no_unknowns_iff analyst.unknowns rebuttal.unknowns judge.unknowns in
        (
          λ l.
              let (q, (_, n, o), s, b) = e.0 (sym label_of ∙ l) in
              let r = t.0 b in (q, u.0 n, open_off.0 o, (one_sided (strong r)).0 s, r),
          λ (q, n, o, s, b).
              let (i, k, _, _) = strong b in
              label_of
              ∙ e.1 (
                q,
                (
                  considers registry target analyst analyst_claims rebuttal rebuttal_claims judge
                      distinct d run i k,
                  u.1 n,
                  open_off.1 o,
                ),
                (one_sided (strong b)).1 s,
                t.1 b,
              ),
        )

-- For distinct identifiers, a decision that the policy returns is TP exactly when the Judge asks for
-- it, no agent reports an unknown, no critical claim is unresolved, no strong evidence for a false
-- positive is under consideration, and a supported true-positive case stands; it is FP exactly when
-- the Judge asks for it, nothing is unknown or unresolved, no strong evidence for a true positive is
-- under consideration, and a decisive rebuttal stands. In every other case it is NMC.
pub apply-label :
    {Confidence : Type 0} (registry : EvidenceRegistry) (target : TriageTarget)
    (analyst : AnalystOutput) (analyst_claims : List Claim) (rebuttal : RebuttalOutput)
    (rebuttal_claims : List Claim) (judge : JudgeOutput Confidence) (d : FinalDecision Confidence)
    → Distinct registry analyst_claims rebuttal_claims
    → apply registry target analyst analyst_claims rebuttal rebuttal_claims judge ≡ ok d
    → ((d.label ≡ tp)
        ↔ TpIsDue registry target analyst_claims rebuttal_claims judge analyst.unknowns
            rebuttal.unknowns)
      × ((d.label ≡ fp)
          ↔ FpIsDue registry target analyst_claims rebuttal_claims judge analyst.unknowns
              rebuttal.unknowns)
      × ((d.label ≡ tp) ⊎ ((d.label ≡ fp) ⊎ (d.label ≡ nmc)))
apply-label registry target analyst analyst_claims rebuttal rebuttal_claims judge d u h = (
  label-tp registry target analyst analyst_claims rebuttal rebuttal_claims judge u d h,
  label-fp registry target analyst analyst_claims rebuttal rebuttal_claims judge u d h,
  each_label d.label,
)
