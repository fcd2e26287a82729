-- ===== src/Prelude/Raising.antt =====
-- A Python call that may raise: a value or the error raised, and the loops over such calls.
use mathlib.Core.Path.{◌≡◌, refl}
use mathlib.Core.Bool.{Bool, true, false, not}
use mathlib.Core.Option.{Option, none, some}
use mathlib.Core.List.{List, [], ◌∷◌}

pub data Result {ℓ} (E : Type 0) (A : Type ℓ) : Type ℓ where
  ok : A → Result E A
  err : E → Result E A

infixl 5 ◌>>◌ ◌>>=◌
abbrev pub ◌>>=◌ {ℓ κ} :
    {E : Type 0} {A : Type ℓ} {B : Type κ} → Result E A → (A → Result E B) → Result E B
ok a >>= f = f a
err e >>= f = err e

-- `if c: raise e`
abbrev pub raise_if : {E : Type 0} → Bool → E → Result E (Unit {0})
raise_if true e = err e
raise_if false e = ok tt

abbrev pub ◌>>◌ {ℓ} : {E : Type 0} {B : Type ℓ} → Result E (Unit {0}) → Result E B → Result E B
m >> k = m >>= λ _. k

-- `d[k]`, which raises on a missing key
abbrev pub or_raise {ℓ} : {E : Type 0} {A : Type ℓ} → Option A → E → Result E A
or_raise none e = err e
or_raise (some a) e = ok a

-- `tuple(f(x) for x in xs)`
unfoldable pub map_result {ℓ κ} :
    {E : Type 0} {A : Type ℓ} {B : Type κ} → (A → Result E B) → List A → Result E (List B)
map_result f [] = ok []
map_result f (x ∷ xs) = do b ← f x; bs ← map_result f xs; ok (b ∷ bs)

-- `any(f(x) for x in xs)`: it stops at the first true, and raises what a test raises.
unfoldable pub any_result {ℓ} :
    {E : Type 0} {A : Type ℓ} → (A → Result E Bool) → List A → Result E Bool
any_result f [] = ok false
any_result f (x ∷ xs) =
    let rest = any_result f xs in f x >>= λ b. elim b [ true ↦ ok true | false ↦ rest ]

-- `all(f(x) for x in xs)`
unfoldable pub all_result {ℓ} :
    {E : Type 0} {A : Type ℓ} → (A → Result E Bool) → List A → Result E Bool
all_result f [] = ok true
all_result f (x ∷ xs) =
    let rest = all_result f xs in f x >>= λ b. elim b [ true ↦ rest | false ↦ ok false ]

-- `a and b`, where either may raise
abbrev pub and_result : {E : Type 0} → Result E Bool → Result E Bool → Result E Bool
and_result p q = p >>= λ b. elim b [ true ↦ q | false ↦ ok false ]

module _ {ℓ} {E : Type 0} {A : Type ℓ} where
  -- A call that passed the guard `if b: raise e` and went on.
  pub raise_if_elim :
      (b : Bool) (e : E) (k : Result E A) (a : A)
      → (raise_if b e >> k) ≡ ok a
      → (b ≡ false) × (k ≡ ok a)
  raise_if_elim true e k a h = cc
  raise_if_elim false e k a h = (refl, h)

  -- The same with the guard `if not b: raise e`.
  pub unless_elim :
      (b : Bool) (e : E) (k : Result E A) (a : A)
      → (raise_if (not b) e >> k) ≡ ok a
      → (b ≡ true) × (k ≡ ok a)
  unless_elim true e k a h = (refl, h)
  unless_elim false e k a h = cc

  pub unless_intro :
      (b : Bool) (e : E) (k : Result E A) (a : A)
      → b ≡ true
      → k ≡ ok a
      → (raise_if (not b) e >> k) ≡ ok a
  unless_intro true e k a p h = h
  unless_intro false e k a p h = cc

  -- A call that passed a check and went on.
  pub >>_elim :
      (m : Result E (Unit {0})) (k : Result E A) (a : A)
      → (m >> k) ≡ ok a
      → (m ≡ ok tt) × (k ≡ ok a)
  >>_elim (ok u) k a h = (refl, h)
  >>_elim (err e) k a h = cc

  pub >>_intro :
      (m : Result E (Unit {0})) (k : Result E A) (a : A) → m ≡ ok tt → k ≡ ok a → (m >> k) ≡ ok a
  >>_intro (ok u) k a p h = h
  >>_intro (err e) k a p h = cc

  pub raise_if_intro :
      (b : Bool) (e : E) (k : Result E A) (a : A)
      → b ≡ false
      → k ≡ ok a
      → (raise_if b e >> k) ≡ ok a
  raise_if_intro true e k a p h = cc
  raise_if_intro false e k a p h = h

-- A step that returned, and what came of the call before it.
pub >>=-eq-ok {ℓ κ} :
    {E : Type 0} {A : Type ℓ} {B : Type κ} (m : Result E A) (f : A → Result E B) {b : B}
    → (m >>= f) ≡ ok b
    → (a : A) × (m ≡ ok a) × (f a ≡ ok b)
>>=-eq-ok (err e) f h = cc
>>=-eq-ok (ok a) f h = (a, refl, h)

-- A guard alone.
pub raise_if-eq-ok : {E : Type 0} (b : Bool) (e : E) → raise_if b e ≡ ok tt → b ≡ false
raise_if-eq-ok true e h = cc
raise_if-eq-ok false e h = refl

pub raise_if_ok : {E : Type 0} (b : Bool) (e : E) → b ≡ false → raise_if b e ≡ ok tt
raise_if_ok true e h = cc
raise_if_ok false e h = refl

pub unless_ok : {E : Type 0} (b : Bool) (e : E) → b ≡ true → raise_if (not b) e ≡ ok tt
unless_ok true e h = refl
unless_ok false e h = cc
