-- ===== src/Policy/Safety.antt =====
-- What every decision of the policy keeps to, whatever the claims and the evidence.
use evi_triage_ql.Prelude.{
  String, ◌≡◌, ◌≢◌, refl, sym, ◌⊎◌, inl, inr, Bool, true, false, List, [], ◌∷◌, arith, Result, ok,
  err, elem, Bool-cases, nat_eq, string_eq, if◌then◌else◌, subst, ◌>>=◌, ◌==◌,
}
use evi_triage_ql.Evidence.{Claim}
use evi_triage_ql.Evidence.Registry.{EvidenceRegistry}
use evi_triage_ql.Triage.{
  TriageTarget, AnalystOutput, RebuttalOutput, JudgeOutput, FinalDecision, TriageLabel, tp, fp, nmc,
  label_eq, validate_decision_references, PolicyFlag, policy_flag_eq, PolicyFlag-discrete,
  TriageLabel-discrete,
}
use evi_triage_ql.Policy.{
  PolicyError, Verdict, Gates, choose_label, final_decision, apply, fp_verdict, tp_verdict,
}
use evi_triage_ql.Policy.Run.{apply-Run}

-- The label is NMC, or the one requested, which is then recorded as accepted.
abbrev pub IsConservative : TriageLabel → TriageLabel → List PolicyFlag → Type 0
IsConservative requested label flags =
    ((label ≡ nmc) × (elem PolicyFlag.judge_label_accepted flags ≡ false))
    ⊎ ((label ≡ requested) × (label ≢ nmc) × (elem PolicyFlag.judge_label_accepted flags ≡ true))

-- Every verdict that the call returns has the property.
abbrev Yields : (Verdict → Type 0) → Result PolicyError Verdict → Type 0
Yields P r = (v : Verdict) → r ≡ ok v → P v

if-Yields :
    (P : Verdict → Type 0) (b : Bool) (r s : Result PolicyError Verdict)
    → (b ≡ true → Yields P r)
    → (b ≡ false → Yields P s)
    → Yields P (if b then r else s)
if-Yields P true r s p q = p refl
if-Yields P false r s p q = q refl

ok-Yields : (P : Verdict → Type 0) (w : Verdict) → P w → Yields P (ok w)
ok-Yields P w p v h = let e : w ≡ v = cc h in subst P e p

remaining : (l : TriageLabel) → (l == nmc) ≡ false → (l == fp) ≡ false → l ≡ tp
unfolding TriageLabel-discrete
remaining tp h q = refl
remaining fp h q = absurd (cc q)
remaining nmc h q = absurd (cc h)

module _ (g : Gates) where
  abbrev Fits : Verdict → Type 0
  Fits v = IsConservative g.requested v.0 (PolicyFlag.auto_dismiss_disabled ∷ v.1)

  declines :
      (flag : PolicyFlag)
      → elem PolicyFlag.judge_label_accepted (PolicyFlag.auto_dismiss_disabled ∷ flag ∷ []) ≡ false
      → Yields Fits (ok (nmc, flag ∷ []))
  declines flag n = ok-Yields Fits (nmc, flag ∷ []) (inl (refl, n))

  on_fp :
      (r : Result PolicyError Bool) → g.requested ≡ fp → Yields Fits (r >>= λ b. ok (fp_verdict b))
  unfolding elem PolicyFlag-discrete
  on_fp (ok true) p = ok-Yields Fits (fp_verdict true) (inr (sym p, (λ e. cc e), refl))
  on_fp (ok false) p = declines PolicyFlag.fp_missing_decisive_rebuttal refl
  on_fp (err e) p = λ v h. absurd (cc h)

  on_tp :
      (r : Result PolicyError Bool) → g.requested ≡ tp → Yields Fits (r >>= λ b. ok (tp_verdict b))
  unfolding elem PolicyFlag-discrete
  on_tp (ok true) p = ok-Yields Fits (tp_verdict true) (inr (sym p, (λ e. cc e), refl))
  on_tp (ok false) p = declines PolicyFlag.tp_support_missing refl
  on_tp (err e) p = λ v h. absurd (cc h)

  plain :
      (b : Bool) (r s : Result PolicyError Verdict)
      → Yields Fits r
      → Yields Fits s
      → Yields Fits (if b then r else s)
  plain true r s p q = p
  plain false r s p q = q

  choose_label-IsConservative : (r s : Result PolicyError Bool) → Yields Fits (choose_label g r s)
  unfolding choose_label elem PolicyFlag-discrete
  choose_label-IsConservative r s = elim (Bool-cases (g.requested == nmc)) [
    | inl y ↦ rw y (declines PolicyFlag.judge_requested_nmc refl)
    | inr n ↦ rw n (
        plain _ _ _ (declines PolicyFlag.critical_evidence_missing refl) (
          plain _ _ _ (declines PolicyFlag.unknown_or_unresolved refl) (
            plain _ _ _ (declines PolicyFlag.conflicting_high_strength_evidence refl) (
              plain _ _ _ (declines PolicyFlag.high_strength_fp_blocks_tp refl) (
                if-Yields Fits _ _ _ (λ f. on_fp r ((label_eq.beq_iff g.requested fp).0 f))
                  (λ f. on_tp s (remaining g.requested n f)))))))
  ]

module _ {Confidence : Type 0} (target : TriageTarget) (judge : JudgeOutput Confidence) where
  -- The record that the decision is, when its validator accepts.
  pub decided_fields :
      (unknowns : List String) (v : Verdict) (d : FinalDecision Confidence)
      → final_decision target judge unknowns v ≡ ok d
      → (d.label ≡ v.0)
        × (d.policy_flags ≡ PolicyFlag.auto_dismiss_disabled ∷ v.1)
        × (d.requested_label ≡ judge.label)
        × (d.auto_dismiss ≡ false)
        × (validate_decision_references d ≡ ok tt)
  unfolding final_decision
  decided_fields unknowns v d h = ground arith

-- A decision that the policy returns is never dismissed automatically, keeps the Judge's label as
-- the requested one, and is NMC without a recorded acceptance or the requested binary label with
-- one; its references, texts and flags are distinct.
pub apply-IsConservative :
    {Confidence : Type 0} (registry : EvidenceRegistry) (target : TriageTarget)
    (analyst : AnalystOutput) (analyst_claims : List Claim) (rebuttal : RebuttalOutput)
    (rebuttal_claims : List Claim) (judge : JudgeOutput Confidence) (d : FinalDecision Confidence)
    → apply registry target analyst analyst_claims rebuttal rebuttal_claims judge ≡ ok d
    → (d.auto_dismiss ≡ false)
      × (d.requested_label ≡ judge.label)
      × IsConservative judge.label d.label d.policy_flags
      × (validate_decision_references d ≡ ok tt)
apply-IsConservative registry target analyst analyst_claims rebuttal rebuttal_claims judge d h =
    let run = apply-Run registry target analyst analyst_claims rebuttal rebuttal_claims judge d h in
    let (l, f, q, a, u) = decided_fields target judge _ run.verdict d run.decided in
    let c = choose_label-IsConservative _ _ _ run.verdict run.chosen in (a, q, rw (l, f) c, u)
