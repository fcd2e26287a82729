-- ===== src/Policy/Labels.antt =====
-- The chain of gates as a table: when each label comes out, and with which flags.
use evi_triage_ql.Prelude.{
  ◌≡◌, refl, ◌↔◌, ◌≢◌, Bool, true, false, [], ◌∷◌, arith, Result, ok, is_empty, any, if◌then◌else◌,
  ◌&&◌, elem, is_unique,
}
use evi_triage_ql.Evidence.{supports_tp, supports_fp}
use evi_triage_ql.Triage.{tp, fp, nmc, label_eq, PolicyFlag, policy_flag_eq, PolicyFlag-discrete}
use evi_triage_ql.Policy.{
  PolicyError, Gates, Verdict, is_unresolved, fp_verdict, tp_verdict, has_high_polarity,
  choose_label,
}

-- The call returns a verdict whose flags, with the one that is always set, are distinct; they record
-- an acceptance exactly when the label is not NMC.
abbrev pub IsSound : Result PolicyError Verdict → Type 0
IsSound r =
    (v : Verdict) × (r ≡ ok v)
    × (is_unique (PolicyFlag.auto_dismiss_disabled ∷ v.1) ≡ true)
    × ((elem PolicyFlag.judge_label_accepted v.1 ≡ true) ↔ (v.0 ≢ nmc))

if-IsSound :
    (b : Bool) (r s : Result PolicyError Verdict)
    → IsSound r
    → IsSound s
    → IsSound (if b then r else s)
if-IsSound true r s p q = p
if-IsSound false r s p q = q

declined :
    (flag : PolicyFlag)
    → is_unique (PolicyFlag.auto_dismiss_disabled ∷ flag ∷ []) ≡ true
    → elem PolicyFlag.judge_label_accepted (flag ∷ []) ≡ false
    → IsSound (ok (nmc, flag ∷ []))
declined flag u n = ((nmc, flag ∷ []), refl, u, (λ h. absurd (cc (n, h)), λ h. absurd (h refl)))

accept_fp-IsSound : (b : Bool) → IsSound (ok (fp_verdict b))
unfolding is_unique PolicyFlag-discrete
accept_fp-IsSound true = (_, refl, refl, (λ h. cc, λ h. refl))
accept_fp-IsSound false = declined PolicyFlag.fp_missing_decisive_rebuttal refl refl

accept_tp-IsSound : (b : Bool) → IsSound (ok (tp_verdict b))
unfolding is_unique PolicyFlag-discrete
accept_tp-IsSound true = (_, refl, refl, (λ h. cc, λ h. refl))
accept_tp-IsSound false = declined PolicyFlag.tp_support_missing refl refl

module _ (g : Gates) (decisive_rebuttal supported_tp_case : Bool) where
  -- The gates that both binary labels pass: evidence is considered, nothing is unknown or open.
  abbrev pub IsSettled : Type 0
  IsSettled =
      (is_empty g.considered ≡ false)
      × (is_empty g.unknowns ≡ true)
      × (any is_unresolved g.critical_claims ≡ false)

  abbrev chosen : Result PolicyError Verdict
  chosen = choose_label g (ok decisive_rebuttal) (ok supported_tp_case)

  pub choose_label-IsSound : IsSound chosen
  unfolding choose_label is_unique PolicyFlag-discrete
  choose_label-IsSound = if-IsSound _ _ _ (declined PolicyFlag.judge_requested_nmc refl refl) (
      if-IsSound _ _ _ (declined PolicyFlag.critical_evidence_missing refl refl) (
        if-IsSound _ _ _ (declined PolicyFlag.unknown_or_unresolved refl refl) (
          if-IsSound _ _ _ (declined PolicyFlag.conflicting_high_strength_evidence refl refl) (
            if-IsSound _ _ _ (declined PolicyFlag.high_strength_fp_blocks_tp refl refl) (
              if-IsSound _ _ _ (accept_fp-IsSound decisive_rebuttal)
                (accept_tp-IsSound supported_tp_case))))))

  pub choose_label_tp :
      (v : Verdict)
      → chosen ≡ ok v
      → (v.0 ≡ tp) ↔ (
          (g.requested ≡ tp)
          × IsSettled
          × (has_high_polarity g.considered supports_fp ≡ false)
          × (supported_tp_case ≡ true))
  unfolding choose_label
  choose_label_tp v h =
      let a = label_eq.beq_iff g.requested nmc in
      let b = label_eq.beq_iff g.requested tp in
      let c = label_eq.beq_iff g.requested fp in
      (λ p. ground (arith, a, b, c), λ p. ground (arith, a, b, c))

  pub choose_label_fp :
      (v : Verdict)
      → chosen ≡ ok v
      → (v.0 ≡ fp) ↔ (
          (g.requested ≡ fp)
          × IsSettled
          × ((has_high_polarity g.considered supports_tp
                && has_high_polarity g.considered supports_fp)
              ≡ false)
          × (decisive_rebuttal ≡ true))
  unfolding choose_label
  choose_label_fp v h =
      let a = label_eq.beq_iff g.requested nmc in
      let b = label_eq.beq_iff g.requested tp in
      let c = label_eq.beq_iff g.requested fp in
      (λ p. ground (arith, a, b, c), λ p. ground (arith, a, b, c))
