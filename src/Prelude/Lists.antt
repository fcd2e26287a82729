-- ===== src/Prelude/Lists.antt =====
-- Lists with the native numbers, membership by recursion, and Python's `any` and `all`.
use Prim.Native.Nat.{ℕ, zero, suc, ◌+◌}
use mathlib.Core.Path.{◌≡◌, refl, ap}
use mathlib.Core.Logic.{◌⊎◌, inl, inr}
use mathlib.Core.Bool.{Bool, true, false, ◌&&◌, ◌||◌}
use mathlib.Core.Option.{Option, none, some}
use mathlib.Core.List.{List, [], ◌∷◌, ◌++◌, map}
use native.Mathlib.Omega.{arith}
use evi_triage_ql.Prelude.Tests.{if◌then◌else◌, Bool-cases}

module _ {ℓ} {A : Type ℓ} where
  abbrev pub length : List A → ℕ
  length [] = 0
  length (x ∷ xs) = suc (length xs)

  abbrev pub is_empty : List A → Bool
  is_empty [] = true
  is_empty (x ∷ xs) = false

  -- `xs[i]`, where the index is in range
  abbrev pub get_elem? : List A → ℕ → Option A
  get_elem? [] i = none
  get_elem? (x ∷ xs) zero = some x
  get_elem? (x ∷ xs) (suc i) = get_elem? xs i

  -- `xs[:n]` and `xs[n:]`
  abbrev pub take : ℕ → List A → List A
  take zero xs = []
  take (suc n) [] = []
  take (suc n) (x ∷ xs) = x ∷ take n xs

  abbrev pub drop : ℕ → List A → List A
  drop zero xs = xs
  drop (suc n) [] = []
  drop (suc n) (x ∷ xs) = drop n xs

  unfoldable pub any : (A → Bool) → List A → Bool
  any p [] = false
  any p (x ∷ xs) = p x || any p xs

  unfoldable pub all : (A → Bool) → List A → Bool
  all p [] = true
  all p (x ∷ xs) = p x && all p xs

  unfoldable pub filter : (A → Bool) → List A → List A
  filter p [] = []
  filter p (x ∷ xs) = let rest = filter p xs in if p x then x ∷ rest else rest

  pub length-append : (xs ys : List A) → length (xs ++ ys) ≡ length xs + length ys
  length-append [] ys = omega arith
  length-append (x ∷ xs) ys = omega (arith, length-append xs ys)

-- `a` stands somewhere in the list.
abbrev pub In : {A : Type 0} → A → List A → Type 0
In a [] = ⊥
In a (x ∷ xs) = (a ≡ x) ⊎ In a xs

module _ {A : Type 0} where
  pub In-append_left : (a : A) (xs ys : List A) → In a xs → In a (xs ++ ys)
  In-append_left a [] ys h = absurd h
  In-append_left a (x ∷ xs) ys (inl e) = inl e
  In-append_left a (x ∷ xs) ys (inr h) = inr (In-append_left a xs ys h)

  pub In-append_right : (a : A) (xs ys : List A) → In a ys → In a (xs ++ ys)
  In-append_right a [] ys h = h
  In-append_right a (x ∷ xs) ys h = inr (In-append_right a xs ys h)

  pub In-append : (a : A) (xs ys : List A) → In a (xs ++ ys) → In a xs ⊎ In a ys
  In-append a [] ys h = inr h
  In-append a (x ∷ xs) ys (inl e) = inl (inl e)
  In-append a (x ∷ xs) ys (inr h) = elim (In-append a xs ys h) [
    | inl l ↦ inl (inr l)
    | inr r ↦ inr r
  ]

  pub In-map : {B : Type 0} (f : A → B) (a : A) (xs : List A) → In a xs → In (f a) (map f xs)
  In-map f a [] h = absurd h
  In-map f a (x ∷ xs) (inl e) = inl (ap f e)
  In-map f a (x ∷ xs) (inr h) = inr (In-map f a xs h)

  pub map-In :
      {B : Type 0} (f : A → B) (b : B) (xs : List A)
      → In b (map f xs)
      → (a : A) × In a xs × (b ≡ f a)
  map-In f b [] h = absurd h
  map-In f b (x ∷ xs) (inl e) = (x, inl refl, e)
  map-In f b (x ∷ xs) (inr h) = let (a, m, e) = map-In f b xs h in (a, inr m, e)

  module _ (p : A → Bool) where
    pub any_elim : (xs : List A) → any p xs ≡ true → (a : A) × In a xs × (p a ≡ true)
    unfolding any
    any_elim [] h = absurd (cc h)
    any_elim (x ∷ xs) h = elim (Bool-cases (p x)) [
      | inl e ↦ (x, inl refl, e)
      | inr e ↦ let (a, m, q) = any_elim xs (rw e at h) in (a, inr m, q)
    ]

    pub any_intro : (a : A) (xs : List A) → In a xs → p a ≡ true → any p xs ≡ true
    unfolding any
    any_intro a [] h q = absurd h
    any_intro a (x ∷ xs) (inl e) q = rw (← e, q)
    any_intro a (x ∷ xs) (inr h) q = ground (arith, any_intro a xs h q)

    pub any-eq-false : (a : A) (xs : List A) → any p xs ≡ false → In a xs → p a ≡ false
    unfolding any
    any-eq-false a [] h m = absurd m
    any-eq-false a (x ∷ xs) h (inl e) = rw e (ground arith)
    any-eq-false a (x ∷ xs) h (inr m) = any-eq-false a xs (ground arith) m

    pub all_elim : (a : A) (xs : List A) → all p xs ≡ true → In a xs → p a ≡ true
    unfolding all
    all_elim a [] h m = absurd m
    all_elim a (x ∷ xs) h (inl e) = rw e (ground arith)
    all_elim a (x ∷ xs) h (inr m) = all_elim a xs (ground arith) m

    pub all_intro : (xs : List A) → ((a : A) → In a xs → p a ≡ true) → all p xs ≡ true
    unfolding all
    all_intro [] h = refl
    all_intro (x ∷ xs) h = rw (h x (inl refl)) (all_intro xs (λ a m. h a (inr m)))

    pub filter-In : (a : A) (xs : List A) → In a (filter p xs) → In a xs × (p a ≡ true)
    unfolding filter
    filter-In a [] m = absurd m
    filter-In a (x ∷ xs) m = elim (Bool-cases (p x)) [
      | inl e ↦ elim (let k : In a (x ∷ filter p xs) = rw e at m in k) [
        | inl q ↦ (inl q, rw q e)
        | inr r ↦ let (i, t) = filter-In a xs r in (inr i, t)
      ]
      | inr e ↦ let (i, t) = filter-In a xs (rw e at m) in (inr i, t)
    ]

    pub In-filter : (a : A) (xs : List A) → In a xs → p a ≡ true → In a (filter p xs)
    unfolding filter
    In-filter a [] m q = absurd m
    In-filter a (x ∷ xs) (inl e) q = rw (← e, q) (inl refl)
    In-filter a (x ∷ xs) (inr m) q = elim (Bool-cases (p x)) [
      | inl e ↦ rw e (inr (In-filter a xs m q))
      | inr e ↦ rw e (In-filter a xs m q)
    ]
