-- ===== src/Sarif/Normalized.antt =====
-- What `SarifNormalizer.normalize` (src/evitriage/sarif/normalizer.py) builds: the validators that the
-- constructors of src/evitriage/domain/alerts.py call accept all of it.
use evi_triage_ql.Prelude.{
  ℕ, suc, ◌+◌, ◌≡◌, refl, subst, raise_if_ok, Bool, true, false, not, List, [], ◌∷◌, ◌++◌, map,
  nat_eq, length, is_empty, Result, ok, err, arith,
}
use evi_triage_ql.Evidence.{SourceLocation}
use evi_triage_ql.Alerts.{PathStep, DataFlowPath, counts_from, validate_step_indexes}
use evi_triage_ql.Sarif.{SarifError}
use evi_triage_ql.Sarif.Raw.{Location, ThreadFlowLocation, ThreadFlow, CodeFlow}
use evi_triage_ql.Sarif.Located.{Resolver, Resolving, go_on, raise}
use evi_triage_ql.Sarif.Rules.{
  Readings, steps_from, path_of_flow, thread_paths, flow_paths, normalize_paths,
}

-- What a call returns, if it returns a value.
unfoldable pub Gives : {S A : Type 0} → (A → Type 0) → Result SarifError A × Resolver S → Type 0
Gives P (ok a, r) = P a
Gives P (err e, r) = Unit

pub go_on-Gives :
    {S A B : Type 0} {P : A → Type 0} (Q : B → Type 0) (x : Result SarifError A × Resolver S)
    (f : A → Resolving S B)
    → Gives P x
    → ((a : A) → P a → (r : Resolver S) → Gives Q (f a r))
    → Gives Q (go_on x f)
unfolding Gives
go_on-Gives Q (ok a, r) f p h = h a p r
go_on-Gives Q (err e, r) f p h = tt

pub anything : {S A : Type 0} (x : Result SarifError A × Resolver S) → Gives (λ _. Unit {0}) x
unfolding Gives
anything (ok a, r) = tt
anything (err e, r) = tt

pub not_of : (b : Bool) → b ≡ true → not b ≡ false
not_of true h = refl
not_of false h = cc

guarded :
    {S A : Type 0} (P : A → Type 0) (b : Bool) (e : SarifError) (m : Resolving S A)
    → (b ≡ false → (r : Resolver S) → Gives P (m r))
    → (r : Resolver S) → Gives P ((elim b as (λ _. Resolving S A) [ true ↦ raise e | false ↦ m ]) r)
unfolding Gives
guarded P true e m h r = tt
guarded P false e m h r = h refl r

abbrev index_of : PathStep → ℕ
index_of step = step.index

counts_cons : (n : ℕ) (xs : List ℕ) → counts_from (n + 1) xs ≡ true → counts_from n (n ∷ xs) ≡ true
unfolding counts_from
counts_cons n xs h = ground arith

-- The paths are numbered from a number on and their validators accept them.
unfoldable pub AreFrom : ℕ → List DataFlowPath → Type 0
AreFrom n [] = Unit
AreFrom n (path ∷ paths) =
    ((path.ordinal ≡ n) × (validate_step_indexes path ≡ ok tt)) × AreFrom (n + 1) paths

add_zero : (n : ℕ) → n + 0 ≡ n
add_zero n = omega arith

move : (n m : ℕ) → n + suc m ≡ n + 1 + m
move n m = omega arith

append-AreFrom :
    (n : ℕ) (xs ys : List DataFlowPath)
    → AreFrom n xs
    → AreFrom (n + length xs) ys
    → AreFrom n (xs ++ ys)
unfolding AreFrom
append-AreFrom n [] ys h k = subst (λ m. AreFrom m ys) (add_zero n) k
append-AreFrom n (x ∷ xs) ys (h, hs) k =
    (h, append-AreFrom (n + 1) xs ys hs (subst (λ m. AreFrom m ys) (move n (length xs)) k))

append-is_empty : (xs ys : List DataFlowPath) → is_empty xs ≡ false → is_empty (xs ++ ys) ≡ false
append-is_empty [] ys h = cc
append-is_empty (x ∷ xs) ys h = refl

module _ {S Value Severity Json : Type 0} (readings : Readings Value Severity Json)
    (locate : Location → Resolving S SourceLocation) where
  steps_from-counts :
      (index final_index : ℕ) (raws : List ThreadFlowLocation) (r : Resolver S)
      → Gives
          (λ steps. counts_from index (map index_of steps) ≡ true)
          (steps_from readings locate index final_index raws r)
  unfolding steps_from counts_from Gives
  steps_from-counts index final_index [] r = refl
  steps_from-counts index final_index (raw ∷ raws) r =
      go_on-Gives _ (locate raw.location r) _ (anything _) λ location _ r1.
        go_on-Gives _ (steps_from readings locate (index + 1) final_index raws r1) _
          (steps_from-counts (index + 1) final_index raws r1)
          λ steps h r2. counts_cons index (map index_of steps) h

  -- The index of a step counts the steps.
  validate-path_of_flow :
      (ordinal : ℕ) (code_flow : CodeFlow) (thread_flow : ThreadFlow) (r : Resolver S)
      → Gives
          (λ path. (path.ordinal ≡ ordinal) × (validate_step_indexes path ≡ ok tt))
          (path_of_flow readings locate ordinal code_flow thread_flow r)
  unfolding path_of_flow Gives validate_step_indexes
  validate-path_of_flow ordinal code_flow thread_flow r =
      guarded _ (is_empty thread_flow.locations) _ _
        (λ _ r0.
          go_on-Gives _ (steps_from readings locate 0 _ thread_flow.locations r0) _
            (steps_from-counts 0 _ thread_flow.locations r0)
            λ steps h r2. (refl, raise_if_ok _ _ (not_of _ h)))
        r

  thread_paths-Numbered :
      (code_flow : CodeFlow) (ordinal : ℕ) (flows : List ThreadFlow) (r : Resolver S)
      → Gives
          (λ paths. AreFrom ordinal paths × (is_empty paths ≡ is_empty flows))
          (thread_paths readings locate code_flow ordinal flows r)
  unfolding thread_paths Gives AreFrom
  thread_paths-Numbered code_flow ordinal [] r = (tt, refl)
  thread_paths-Numbered code_flow ordinal (flow ∷ flows) r =
      go_on-Gives _ (path_of_flow readings locate ordinal code_flow flow r) _
        (validate-path_of_flow ordinal code_flow flow r)
        λ path h r1.
          go_on-Gives _ (thread_paths readings locate code_flow (ordinal + 1) flows r1) _
            (thread_paths-Numbered code_flow (ordinal + 1) flows r1)
            λ paths hs r2. ((h, hs.0), refl)

  flow_paths-Numbered :
      (ordinal : ℕ) (code_flow : CodeFlow) (r : Resolver S)
      → Gives
          (λ paths. AreFrom ordinal paths × (is_empty paths ≡ false))
          (flow_paths readings locate ordinal code_flow r)
  unfolding flow_paths
  flow_paths-Numbered ordinal code_flow r =
      guarded _ (is_empty code_flow.thread_flows) _ _
        (λ e r0.
          subst
            (λ b.
              Gives (λ paths. AreFrom ordinal paths × (is_empty paths ≡ b))
                (thread_paths readings locate code_flow ordinal code_flow.thread_flows r0))
            e (thread_paths-Numbered code_flow ordinal code_flow.thread_flows r0))
        r

  pub normalize_paths-Numbered :
      (ordinal : ℕ) (flows : List CodeFlow) (r : Resolver S)
      → Gives
          (λ paths. AreFrom ordinal paths × (is_empty paths ≡ is_empty flows))
          (normalize_paths readings locate ordinal flows r)
  unfolding normalize_paths Gives AreFrom
  normalize_paths-Numbered ordinal [] r = (tt, refl)
  normalize_paths-Numbered ordinal (flow ∷ flows) r =
      go_on-Gives _ (flow_paths readings locate ordinal flow r) _
        (flow_paths-Numbered ordinal flow r)
        λ paths h r1.
          go_on-Gives _ (normalize_paths readings locate (ordinal + length paths) flows r1) _
            (normalize_paths-Numbered (ordinal + length paths) flows r1)
            λ later hs r2.
              (append-AreFrom ordinal paths later h.0 hs.0, append-is_empty paths later h.1)
