-- ===== src/Prelude/Sorting.antt =====
-- `sorted(xs)` on numbers, and the loops that collect the parts of a list's elements.
use Prim.Native.Nat.{ℕ}
use mathlib.Core.Path.{◌≡◌, refl, subst}
use mathlib.Core.Logic.{◌⊎◌, inl, inr}
use mathlib.Core.List.{List, [], ◌∷◌, ◌++◌}
use evi_triage_ql.Prelude.Tests.{leb, if◌then◌else◌, Bool-cases}
use evi_triage_ql.Prelude.Lists.{In, In-append, In-append_left, In-append_right}

-- Insertion by a key, after the elements that are not above it: the sort is stable.
module _ {A : Type 0} (key : A → ℕ) where
  unfoldable pub insert_sorted : A → List A → List A
  insert_sorted a [] = a ∷ []
  insert_sorted a (x ∷ xs) = if leb (key a) (key x) then a ∷ x ∷ xs else x ∷ insert_sorted a xs

  -- `sorted(xs, key=key)`
  unfoldable pub sorted : List A → List A
  unfolding insert_sorted
  sorted [] = []
  sorted (x ∷ xs) = insert_sorted x (sorted xs)

  insert_sorted-In : (b a : A) (xs : List A) → In b (insert_sorted a xs) → (b ≡ a) ⊎ In b xs
  unfolding insert_sorted
  insert_sorted-In b a [] h = h
  insert_sorted-In b a (x ∷ xs) h = elim (Bool-cases (leb (key a) (key x))) [
    | inl q ↦ rw q at h
    | inr q ↦ elim (let k : In b (x ∷ insert_sorted a xs) = rw q at h in k) [
      | inl p ↦ inr (inl p)
      | inr m ↦ elim (insert_sorted-In b a xs m) [ inl p ↦ inl p | inr n ↦ inr (inr n) ]
    ]
  ]

  In-insert_sorted : (b a : A) (xs : List A) → (b ≡ a) ⊎ In b xs → In b (insert_sorted a xs)
  unfolding insert_sorted
  In-insert_sorted b a [] h = h
  In-insert_sorted b a (x ∷ xs) h = elim (Bool-cases (leb (key a) (key x))) [
    | inl q ↦ rw q h
    | inr q ↦ rw q (elim h [
      | inl p ↦ inr (In-insert_sorted b a xs (inl p))
      | inr (inl p) ↦ inl p
      | inr (inr m) ↦ inr (In-insert_sorted b a xs (inr m))
    ])
  ]

  -- Sorting keeps the elements.
  pub sorted-In : (b : A) (xs : List A) → In b (sorted xs) → In b xs
  unfolding sorted
  sorted-In b [] h = h
  sorted-In b (x ∷ xs) h = elim (insert_sorted-In b x (sorted xs) h) [
    | inl p ↦ inl p
    | inr m ↦ inr (sorted-In b xs m)
  ]

  pub In-sorted : (b : A) (xs : List A) → In b xs → In b (sorted xs)
  unfolding sorted
  In-sorted b [] h = h
  In-sorted b (x ∷ xs) (inl p) = In-insert_sorted b x (sorted xs) (inl p)
  In-sorted b (x ∷ xs) (inr m) = In-insert_sorted b x (sorted xs) (inr (In-sorted b xs m))

module _ {A B : Type 0} (f : A → List B) where
  -- `(y for x in xs for y in f(x))`
  unfoldable pub collect : List A → List B
  collect [] = []
  collect (x ∷ xs) = f x ++ collect xs

  pub collect-In : (b : B) (xs : List A) → In b (collect xs) → (a : A) × In a xs × In b (f a)
  unfolding collect
  collect-In b [] h = absurd h
  collect-In b (x ∷ xs) h = elim (In-append b (f x) (collect xs) h) [
    | inl m ↦ (x, inl refl, m)
    | inr m ↦ let (a, n, k) = collect-In b xs m in (a, inr n, k)
  ]

  pub In-collect : (b : B) (a : A) (xs : List A) → In a xs → In b (f a) → In b (collect xs)
  unfolding collect
  In-collect b a [] h m = absurd h
  In-collect b a (x ∷ xs) (inl p) m =
      In-append_left b (f x) (collect xs) (subst (λ z. In b (f z)) p m)
  In-collect b a (x ∷ xs) (inr n) m = In-append_right b (f x) (collect xs) (In-collect b a xs n m)
