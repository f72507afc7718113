-- ===== src/Prelude/Keys.antt =====
-- Keys of maps: a type with a Boolean equality, taken as an instance.
use Prim.Native.String.{String}
use text.Mathlib.Text.{◌==◌ as str_eq}
use text.Mathlib.TextEquality.{eq_iff}
use turbograph.Prelude.Tests.{◌==◌ as nat_eq, ==_iff}
use Prim.Native.Nat.{ℕ}
use mathlib.Core.Path.{◌≡◌}
use mathlib.Core.Logic.{◌↔◌}
use mathlib.Core.Bool.{Bool, true, ◌&&◌}
use native.Mathlib.Omega.{arith}

pub record Eq {ℓ} (A : Type ℓ) : Type ℓ where
  pub beq : A → A → Bool
  pub beq_iff : (a b : A) → (beq a b ≡ true) ↔ (a ≡ b)

instance abbrev pub nat_key : Eq ℕ
nat_key = record { beq = nat_eq; beq_iff = ==_iff }

instance abbrev pub string_key : Eq String
string_key = record { beq = str_eq; beq_iff = eq_iff }

pub pair_iff {ℓ} :
    {A : Type ℓ} ⦃e : Eq A⦄ (p q : A × A) → ((e.beq p.0 q.0 && e.beq p.1 q.1) ≡ true) ↔ (p ≡ q)
pair_iff ⦃e⦄ p q = (
  λ h. ground (arith, e.beq_iff p.0 q.0, e.beq_iff p.1 q.1),
  λ h. ground (arith, e.beq_iff p.0 q.0, e.beq_iff p.1 q.1),
)

-- Go's comparison of two-element arrays of keys
instance abbrev pub pair_key {ℓ} : {A : Type ℓ} ⦃e : Eq A⦄ → Eq (A × A)
pair_key ⦃e⦄ = record { beq = λ p q. e.beq p.0 q.0 && e.beq p.1 q.1; beq_iff = pair_iff }
