-- ===== src/Prelude/Mapping.antt =====
-- A Python `dict` in insertion order, and the comprehension `{key(x): x for x in xs}`.
use mathlib.Core.Path.{◌≡◌, refl, sym, ap, ◌∙◌}
use mathlib.Core.Logic.{◌⊎◌, inl, inr}
use mathlib.Core.Bool.{Bool, true, false}
use mathlib.Core.Option.{Option, none, some}
use mathlib.Core.List.{List, [], ◌∷◌}
use native.Mathlib.Omega.{arith}
use evi_triage_ql.Prelude.Tests.{if◌then◌else◌, Bool-cases}
use evi_triage_ql.Prelude.Equality.{Eq, ◌==◌}
use evi_triage_ql.Prelude.Lists.{In}

abbrev pub Dict : Type 0 → Type 0 → Type 0
Dict K V = List (K × V)

abbrev pub values : {K V : Type 0} → Dict K V → List V
values [] = []
values ((_, v) ∷ d) = v ∷ values d

abbrev pub keys : {K V : Type 0} → Dict K V → List K
keys [] = []
keys ((k, _) ∷ d) = k ∷ keys d

module _ {K V : Type 0} ⦃e : Eq K⦄ where
  -- `d.get(k)`
  unfoldable pub lookup : K → Dict K V → Option V
  lookup k [] = none
  lookup k ((j, v) ∷ d) = if j == k then some v else lookup k d

  -- `k in d`
  unfoldable pub contains : K → Dict K V → Bool
  unfolding lookup
  contains k d = elim (lookup k d) [ none ↦ false | some _ ↦ true ]

  -- `d[k] = v`
  unfoldable pub insert : K → V → Dict K V → Dict K V
  insert k v [] = (k, v) ∷ []
  insert k v ((j, w) ∷ d) = if j == k then (j, v) ∷ d else (j, w) ∷ insert k v d

  -- the loop of the comprehension
  unfoldable pub index_from : (V → K) → Dict K V → List V → Dict K V
  index_from key d [] = d
  index_from key d (x ∷ xs) = index_from key (insert (key x) x d) xs

  unfoldable pub index_by : (V → K) → List V → Dict K V
  unfolding index_from insert
  index_by key xs = index_from key [] xs

  pub lookup-insert :
      (j k : K) (v : V) (d : Dict K V)
      → lookup j (insert k v d) ≡ (if k == j then some v else lookup j d)
  unfolding lookup insert
  lookup-insert j k v [] = refl
  lookup-insert j k v ((i, w) ∷ d) =
      ground (arith, lookup-insert j k v d, e.beq_iff i k, e.beq_iff i j, e.beq_iff k j)

  -- The last value of a list that has the key, or the given one.
  find_last : (V → K) → K → Option V → List V → Option V
  find_last key k found [] = found
  find_last key k found (x ∷ xs) = find_last key k (if key x == k then some x else found) xs

  lookup-index_from :
      (key : V → K) (k : K) (d : Dict K V) (xs : List V)
      → lookup k (index_from key d xs) ≡ find_last key k (lookup k d) xs
  unfolding index_from find_last
  lookup-index_from key k d [] = refl
  lookup-index_from key k d (x ∷ xs) =
      lookup-index_from key k (insert (key x) x d) xs ∙ rw lookup-insert

  lookup-index_by :
      (key : V → K) (k : K) (xs : List V) → lookup k (index_by key xs) ≡ find_last key k none xs
  unfolding index_by lookup
  lookup-index_by key k xs = lookup-index_from key k [] xs

  find_last-In :
      (key : V → K) (k : K) (found : Option V) (xs : List V) (v : V)
      → find_last key k found xs ≡ some v
      → (found ≡ some v) ⊎ (In v xs × (key v ≡ k))
  unfolding find_last
  find_last-In key k found [] v h = inl h
  find_last-In key k found (x ∷ xs) v h = elim (Bool-cases (key x == k)) [
    | inl q ↦ elim (find_last-In key k (some x) xs v (rw q at h)) [
      | inl l ↦ let p : x ≡ v = cc in inr (inl (sym p), ap key (sym p) ∙ (e.beq_iff (key x) k).0 q)
      | inr (m, p) ↦ inr (inr m, p)
    ]
    | inr q ↦ elim (find_last-In key k found xs v (rw q at h)) [
      | inl l ↦ inl l
      | inr (m, p) ↦ inr (inr m, p)
    ]
  ]

  -- What the comprehension stores under a key is a value of the list that has the key.
  pub lookup-index_by-In :
      (key : V → K) (k : K) (xs : List V) (v : V)
      → lookup k (index_by key xs) ≡ some v
      → In v xs × (key v ≡ k)
  lookup-index_by-In key k xs v h =
      elim (find_last-In key k none xs v (sym (lookup-index_by key k xs) ∙ h)) [
        | inl l ↦ absurd (cc l)
        | inr r ↦ r
      ]

  find_last-some :
      (key : V → K) (k : K) (v : V) (xs : List V) → (w : V) × (find_last key k (some v) xs ≡ some w)
  unfolding find_last
  find_last-some key k v [] = (v, refl)
  find_last-some key k v (x ∷ xs) = elim (Bool-cases (key x == k)) [
    | inl q ↦ rw q (find_last-some key k x xs)
    | inr q ↦ rw q (find_last-some key k v xs)
  ]

  In-find_last :
      (key : V → K) (k : K) (found : Option V) (xs : List V) (v : V)
      → In v xs
      → key v ≡ k
      → (w : V) × (find_last key k found xs ≡ some w)
  unfolding find_last
  In-find_last key k found [] v m p = absurd m
  In-find_last key k found (x ∷ xs) v (inl q) p =
      rw ((e.beq_iff (key x) k).1 (ap key (sym q) ∙ p)) (find_last-some key k x xs)
  In-find_last key k found (x ∷ xs) v (inr m) p =
      In-find_last key k (if key x == k then some x else found) xs v m p

  -- Every value's key is present.
  pub In-lookup-index_by :
      (key : V → K) (xs : List V) (v : V)
      → In v xs
      → (w : V) × (lookup (key v) (index_by key xs) ≡ some w)
  In-lookup-index_by key xs v m =
      let (w, p) = In-find_last key (key v) none xs v m refl in
      (w, lookup-index_by key (key v) xs ∙ p)
