-- ===== src/Prelude/Equality.antt =====
-- Decidable tests that Python writes `==`, as an interface with one instance per type.
use Prim.Native.Nat.{ℕ}
use Prim.Native.String.{String}
use text.Mathlib.Text.{◌==◌ as str_eq}
use text.Mathlib.TextEquality.{eq_iff}
use mathlib.Core.Path.{◌≡◌, refl}
use mathlib.Core.Logic.{◌↔◌}
use mathlib.Core.Bool.{Bool, true, false}
use evi_triage_ql.Prelude.Tests.{nat_beq, nat_beq_iff}

pub record Eq {ℓ} (A : Type ℓ) : Type ℓ where
  pub beq : A → A → Bool
  pub beq_iff : (a b : A) → (beq a b ≡ true) ↔ (a ≡ b)

instance abbrev pub string_eq : Eq String
string_eq = record { beq = str_eq; beq_iff = eq_iff }

-- The test that a decision of equality makes.
abbrev pub decides {ℓ} : {A : Type ℓ} → Discrete A → A → A → Bool
decides d a b = elim (d a b) [ yes _ ↦ true | no _ ↦ false ]

pub decides_iff {ℓ} : {A : Type ℓ} (d : Discrete A) (a b : A) → (decides d a b ≡ true) ↔ (a ≡ b)
decides_iff d a b = go (d a b)
  where
    go : (c : Dec (a ≡ b)) → (elim c [ yes _ ↦ true | no _ ↦ false ] ≡ true) ↔ (a ≡ b)
    go (yes p) = (λ _. p, λ _. refl)
    go (no p) = (λ h. cc, λ q. absurd (p q))

abbrev pub enum_eq {ℓ} : {A : Type ℓ} → Discrete A → Eq A
enum_eq d = record { beq = decides d; beq_iff = decides_iff d }

instance abbrev pub nat_eq : Eq ℕ
nat_eq = record { beq = nat_beq; beq_iff = nat_beq_iff }

-- Python's `==`.
infix 50 ◌==◌
abbrev pub ◌==◌ {ℓ} : {A : Type ℓ} ⦃e : Eq A⦄ → A → A → Bool
◌==◌ ⦃e⦄ = e.beq
