-- ===== src/Prelude/Loops.antt =====
-- What the loops over fallible calls return.
use mathlib.Core.Path.{◌≡◌, refl, sym, subst}
use mathlib.Core.Logic.{inl, inr}
use mathlib.Core.Bool.{Bool, true}
use mathlib.Core.List.{List, [], ◌∷◌}
use native.Mathlib.Omega.{arith}
use evi_triage_ql.Prelude.Tests.{Bool-cases}
use evi_triage_ql.Prelude.Raising.{Result, ok, >>=-eq-ok, map_result, any_result, all_result}
use evi_triage_ql.Prelude.Lists.{In, any, all}

module _ {E A : Type 0} where
  -- Tests that do not raise make a loop that does not raise.
  pub any_result_lem :
      (f : A → Result E Bool) (g : A → Bool) (xs : List A)
      → ((a : A) → In a xs → f a ≡ ok (g a))
      → any_result f xs ≡ ok (any g xs)
  unfolding any_result any
  any_result_lem f g [] h = refl
  any_result_lem f g (x ∷ xs) h =
      let here : f x ≡ ok (g x) = h x (inl refl) in
      let later : any_result f xs ≡ ok (any g xs) = any_result_lem f g xs (λ a m. h a (inr m)) in
      ground arith

  pub all_result_lem :
      (f : A → Result E Bool) (g : A → Bool) (xs : List A)
      → ((a : A) → In a xs → f a ≡ ok (g a))
      → all_result f xs ≡ ok (all g xs)
  unfolding all_result all
  all_result_lem f g [] h = refl
  all_result_lem f g (x ∷ xs) h =
      ground (arith, h x (inl refl), all_result_lem f g xs (λ a m. h a (inr m)))

  module _ {B : Type 0} (f : A → Result E B) where
    -- Each result comes from an element.
    pub map_result-In :
        (xs : List A) (ys : List B) (b : B)
        → map_result f xs ≡ ok ys
        → In b ys
        → (a : A) × In a xs × (f a ≡ ok b)
    unfolding map_result
    map_result-In [] ys b h m = let e : [] ≡ ys = cc h in absurd (subst (In b) (sym e) m)
    map_result-In (x ∷ xs) ys b h m =
        let (c, p, h1) = >>=-eq-ok (f x) _ h in
        let (cs, q, h2) = >>=-eq-ok (map_result f xs) _ h1 in
        let e : c ∷ cs ≡ ys = cc h2 in
        elim (subst (In b) (sym e) m) [
          | inl l ↦ (x, inl refl, rw l p)
          | inr r ↦ let (a, n, k) = map_result-In xs cs b q r in (a, inr n, k)
        ]

    pub In-map_result :
        (xs : List A) (ys : List B) (a : A)
        → map_result f xs ≡ ok ys
        → In a xs
        → (b : B) × In b ys × (f a ≡ ok b)
    unfolding map_result
    In-map_result [] ys a h m = absurd m
    In-map_result (x ∷ xs) ys a h m =
        let (c, p, h1) = >>=-eq-ok (f x) _ h in
        let (cs, q, h2) = >>=-eq-ok (map_result f xs) _ h1 in
        let e : c ∷ cs ≡ ys = cc h2 in
        elim m [
          | inl l ↦ (c, subst (In c) e (inl refl), rw l p)
          | inr r ↦ let (b, n, k) = In-map_result xs cs a q r in (b, subst (In b) e (inr n), k)
        ]

    pub map_result_total :
        (xs : List A)
        → ((a : A) → In a xs → (b : B) × (f a ≡ ok b))
        → (ys : List B) × (map_result f xs ≡ ok ys)
    unfolding map_result
    map_result_total [] h = ([], refl)
    map_result_total (x ∷ xs) h =
        let (b, p) = h x (inl refl) in
        let (bs, q) = map_result_total xs (λ a m. h a (inr m)) in (b ∷ bs, rw (p, q))

module _ {E A : Type 0} (f : A → Result E Bool) where
  -- A loop that found something found it at an element.
  pub any_result_elim :
      (xs : List A) → any_result f xs ≡ ok true → (a : A) × In a xs × (f a ≡ ok true)
  unfolding any_result
  any_result_elim [] h = absurd (cc h)
  any_result_elim (x ∷ xs) h =
      let (b, here, h1) = >>=-eq-ok (f x) _ h in
      elim (Bool-cases b) [
        | inl t ↦ (x, inl refl, rw t at here)
        | inr n ↦ let (a, m, k) = any_result_elim xs (rw n at h1) in (a, inr m, k)
      ]

  pub all_result_elim :
      (xs : List A) → all_result f xs ≡ ok true → (a : A) → In a xs → f a ≡ ok true
  unfolding all_result
  all_result_elim [] h a m = absurd m
  all_result_elim (x ∷ xs) h a (inl p) = rw p (ground arith)
  all_result_elim (x ∷ xs) h a (inr m) = all_result_elim xs (ground arith) a m
