-- ===== src/Prelude/Sets.antt =====
-- Python's `in`, `set`, `issubset`, `dict.fromkeys` and the test `len(xs) == len(set(xs))`.
use Prim.Native.Nat.{suc, ◌≤◌}
use mathlib.Core.Path.{◌≡◌, refl, sym, ap, subst, ◌∙◌}
use mathlib.Core.Logic.{◌↔◌, ◌⊎◌, inl, inr}
use mathlib.Core.Bool.{Bool, true, false, ◌||◌}
use mathlib.Core.List.{List, [], ◌∷◌, ◌++◌, map}
use native.Mathlib.Omega.{arith}
use evi_triage_ql.Prelude.Tests.{nat_beq, if◌then◌else◌, Bool-cases}
use evi_triage_ql.Prelude.Equality.{Eq, ◌==◌}
use evi_triage_ql.Prelude.Lists.{
  length, all, In, In-append, In-append_left, In-append_right, all_elim, all_intro, In-map,
}

module _ {A : Type 0} ⦃e : Eq A⦄ where
  -- `a in xs`
  unfoldable pub elem : A → List A → Bool
  elem a [] = false
  elem a (x ∷ xs) = a == x || elem a xs

  -- `set(xs).issubset(ys)`
  unfoldable pub is_subset : List A → List A → Bool
  unfolding elem all
  is_subset xs ys = all (λ x. elem x ys) xs

  -- `set(xs)`, in some order
  unfoldable pub to_set : List A → List A
  to_set [] = []
  to_set (x ∷ xs) = let rest = to_set xs in if elem x xs then rest else x ∷ rest

  -- `len(xs) == len(set(xs))`
  unfoldable pub is_unique : List A → Bool
  unfolding to_set elem
  is_unique xs = nat_beq (length xs) (length (to_set xs))

  abbrev keep : List A → A → List A
  keep seen x = if elem x seen then seen else seen ++ x ∷ []

  unfoldable pub keep_new : List A → List A → List A
  keep_new seen [] = seen
  keep_new seen (x ∷ xs) = keep_new (keep seen x) xs

  -- `tuple(dict.fromkeys(xs))`: each value at its first place
  unfoldable pub stable_unique : List A → List A
  unfolding keep_new elem
  stable_unique xs = keep_new [] xs

  -- No value stands twice.
  abbrev pub Unique : List A → Type 0
  Unique [] = Unit
  Unique (x ∷ xs) = (elem x xs ≡ false) × Unique xs

  pub elem-In : (a : A) (xs : List A) → elem a xs ≡ true → In a xs
  unfolding elem
  elem-In a [] h = absurd (cc h)
  elem-In a (x ∷ xs) h = elim (Bool-cases (a == x)) [
    | inl q ↦ inl ((e.beq_iff a x).0 q)
    | inr q ↦ inr (elem-In a xs (rw q at h))
  ]

  pub In-elem : (a : A) (xs : List A) → In a xs → elem a xs ≡ true
  unfolding elem
  In-elem a [] m = absurd m
  In-elem a (x ∷ xs) (inl q) = rw ((e.beq_iff a x).1 q)
  In-elem a (x ∷ xs) (inr m) = ground (arith, In-elem a xs m)

  pub is_subset_elim : (xs ys : List A) (a : A) → is_subset xs ys ≡ true → In a xs → In a ys
  unfolding is_subset
  is_subset_elim xs ys a h m = elem-In a ys (all_elim (λ x. elem x ys) a xs h m)

  pub is_subset_intro : (xs ys : List A) → ((a : A) → In a xs → In a ys) → is_subset xs ys ≡ true
  unfolding is_subset
  is_subset_intro xs ys h = all_intro (λ x. elem x ys) xs (λ a m. In-elem a ys (h a m))

  -- A set has the elements of the list.
  pub to_set-In : (a : A) (xs : List A) → In a (to_set xs) → In a xs
  unfolding to_set
  to_set-In a [] m = m
  to_set-In a (x ∷ xs) m = elim (Bool-cases (elem x xs)) [
    | inl q ↦ inr (to_set-In a xs (rw q at m))
    | inr q ↦ elim (let k : In a (x ∷ to_set xs) = rw q at m in k) [
      | inl p ↦ inl p
      | inr n ↦ inr (to_set-In a xs n)
    ]
  ]

  pub In-to_set : (a : A) (xs : List A) → In a xs → In a (to_set xs)
  unfolding to_set
  In-to_set a [] m = m
  In-to_set a (x ∷ xs) (inl p) = elim (Bool-cases (elem x xs)) [
    | inl q ↦ rw q (In-to_set a xs (subst (λ z. In z xs) (sym p) (elem-In x xs q)))
    | inr q ↦ rw q (inl p)
  ]
  In-to_set a (x ∷ xs) (inr m) = elim (Bool-cases (elem x xs)) [
    | inl q ↦ rw q (In-to_set a xs m)
    | inr q ↦ rw q (inr (In-to_set a xs m))
  ]

  length-to_set : (xs : List A) → length (to_set xs) ≤ length xs
  unfolding to_set
  length-to_set [] = omega arith
  length-to_set (x ∷ xs) = ground (arith, length-to_set xs)

  length-Unique : (xs : List A) → length xs ≡ length (to_set xs) → Unique xs
  unfolding to_set
  length-Unique [] h = tt
  length-Unique (x ∷ xs) h = elim (Bool-cases (elem x xs)) [
    | inl q ↦
        let k : suc (length xs) ≡ length (to_set xs) = rw q at h in
        absurd (omega (arith, length-to_set xs))
    | inr q ↦
        let k : suc (length xs) ≡ suc (length (to_set xs)) = rw q at h in
        (q, length-Unique xs (omega arith))
  ]

  Unique-length : (xs : List A) → Unique xs → length xs ≡ length (to_set xs)
  unfolding to_set
  Unique-length [] h = refl
  Unique-length (x ∷ xs) (q, h) = rw q (omega (arith, Unique-length xs h))

  pub is_unique_iff : (xs : List A) → (is_unique xs ≡ true) ↔ Unique xs
  unfolding is_unique
  is_unique_iff xs = (λ h. length-Unique xs (ground arith), λ h. ground (arith, Unique-length xs h))

  pub beq-eq-false : (a b : A) → (a == b) ≡ false → (b == a) ≡ false
  beq-eq-false a b h = elim (Bool-cases (b == a)) [
    | inl q ↦
        let k : (a == b) ≡ true = (e.beq_iff a b).1 (sym ((e.beq_iff b a).0 q)) in
        absurd (cc (h, k))
    | inr q ↦ q
  ]

  elem-snoc :
      (x a : A) (xs : List A) → elem x xs ≡ false → (x == a) ≡ false → elem x (xs ++ a ∷ []) ≡ false
  unfolding elem
  elem-snoc x a [] h q = rw q
  elem-snoc x a (y ∷ xs) h q = ground (arith, elem-snoc x a xs)

  -- `dict.fromkeys` keeps what it has seen, and adds only what is new.
  Unique-snoc : (xs : List A) (a : A) → Unique xs → elem a xs ≡ false → Unique (xs ++ a ∷ [])
  unfolding elem
  Unique-snoc [] a h q = (refl, tt)
  Unique-snoc (x ∷ xs) a (p, h) q =
      (elem-snoc x a xs p (beq-eq-false a x (ground arith)), Unique-snoc xs a h (ground arith))

  keep_new-Unique : (seen xs : List A) → Unique seen → Unique (keep_new seen xs)
  unfolding keep_new
  keep_new-Unique seen [] h = h
  keep_new-Unique seen (x ∷ xs) h = elim (Bool-cases (elem x seen)) [
    | inl q ↦ rw q (keep_new-Unique seen xs h)
    | inr q ↦ rw q (keep_new-Unique (seen ++ x ∷ []) xs (Unique-snoc seen x h q))
  ]

  pub stable_unique-Unique : (xs : List A) → Unique (stable_unique xs)
  unfolding stable_unique
  stable_unique-Unique xs = keep_new-Unique [] xs tt

  keep_new-In : (a : A) (seen xs : List A) → In a (keep_new seen xs) → In a seen ⊎ In a xs
  unfolding keep_new
  keep_new-In a seen [] m = inl m
  keep_new-In a seen (x ∷ xs) m = elim (Bool-cases (elem x seen)) [
    | inl q ↦ elim (keep_new-In a seen xs (rw q at m)) [ inl l ↦ inl l | inr r ↦ inr (inr r) ]
    | inr q ↦ elim (keep_new-In a (seen ++ x ∷ []) xs (rw q at m)) [
      | inl l ↦ elim (In-append a seen (x ∷ []) l) [
        | inl s ↦ inl s
        | inr (inl p) ↦ inr (inl p)
        | inr (inr p) ↦ absurd p
      ]
      | inr r ↦ inr (inr r)
    ]
  ]

  In-keep_new : (a : A) (seen xs : List A) → In a seen ⊎ In a xs → In a (keep_new seen xs)
  unfolding keep_new
  In-keep_new a seen [] (inl m) = m
  In-keep_new a seen [] (inr m) = absurd m
  In-keep_new a seen (x ∷ xs) h = elim (Bool-cases (elem x seen)) [
    | inl q ↦ rw q (
        In-keep_new a seen xs (elim h [
          | inl m ↦ inl m
          | inr (inl p) ↦ inl (elem-In a seen (rw p q))
          | inr (inr m) ↦ inr m
        ]))
    | inr q ↦ rw q (
        In-keep_new a (seen ++ x ∷ []) xs (elim h [
          | inl m ↦ inl (In-append_left a seen (x ∷ []) m)
          | inr (inl p) ↦ inl (In-append_right a seen (x ∷ []) (inl p))
          | inr (inr m) ↦ inr m
        ]))
  ]

  pub stable_unique-In : (a : A) (xs : List A) → In a (stable_unique xs) ↔ In a xs
  unfolding stable_unique
  stable_unique-In a xs = (
    λ m. elim (keep_new-In a [] xs m) [ inl l ↦ absurd l | inr r ↦ r ],
    λ m. In-keep_new a [] xs (inr m),
  )

module _ {A K : Type 0} ⦃e : Eq K⦄ (key : A → K) where
  -- Where the keys are distinct, a key determines its element.
  pub eq_of_key :
      (a b : A) (xs : List A) → Unique (map key xs) → In a xs → In b xs → key a ≡ key b → a ≡ b
  eq_of_key a b [] u m n h = absurd m
  eq_of_key a b (x ∷ xs) u (inl p) (inl q) h = p ∙ sym q
  eq_of_key a b (x ∷ xs) u (inl p) (inr n) h =
      let k : In (key x) (map key xs) =
        subst (λ z. In z (map key xs)) (sym h ∙ ap key p) (In-map key b xs n) in
      absurd (cc (u.0, In-elem (key x) (map key xs) k))
  eq_of_key a b (x ∷ xs) u (inr m) (inl q) h =
      let k : In (key x) (map key xs) =
        subst (λ z. In z (map key xs)) (h ∙ ap key q) (In-map key a xs m) in
      absurd (cc (u.0, In-elem (key x) (map key xs) k))
  eq_of_key a b (x ∷ xs) u (inr m) (inr n) h = eq_of_key a b xs u.1 m n h
