-- ===== src/Common/Equality.antt =====
-- Go's `==`, for every type that has an instance: a test into `Bool` that decides equality.
use Prim.Native.Nat.{ℕ, compare, Ordering}
use Prim.Native.String.{String}
use mathlib.Core.Path.{◌≡◌, refl}
use mathlib.Core.Logic.{◌↔◌, dite}
use mathlib.Core.Bool.{Bool, true, false, Bool-discrete}
use native.Mathlib.Omega.{arith}
use text.Mathlib.Text
use text.Mathlib.TextEquality.{eq_iff}

-- A type with a Boolean test of equality.
pub record Eq {ℓ} (T : Type ℓ) : Type ℓ where
  pub equals : T → T → Bool
  pub equals_iff : (x y : T) → (equals x y ≡ true) ↔ (x ≡ y)

module _ {ℓ} {T : Type ℓ} ⦃c : Eq T⦄ where
  infix 50 ◌==◌
  abbrev pub ◌==◌ : T → T → Bool
  ◌==◌ x y = c.equals x y

module _ {ℓ} {A : Type ℓ} (d : Discrete A) where
  abbrev pub test : A → A → Bool
  test a b = elim (d a b) [ yes p ↦ true | no p ↦ false ]

  pub test_iff : (a b : A) → (test a b ≡ true) ↔ (a ≡ b)
  test_iff a b =
      elim (d a b)
        as (λ x. (elim x as (λ _. Bool) [ yes p ↦ true | no p ↦ false ] ≡ true) ↔ (a ≡ b)) [
          | yes p ↦ (λ _. p, λ _. refl)
          | no p ↦ (λ h. cc, λ h. absurd (p h))
        ]

abbrev pub eq_of_discrete {ℓ} : {A : Type ℓ} → Discrete A → Eq A
eq_of_discrete d = record { equals = test d; equals_iff = test_iff d }

unfoldable pub string_discrete : Discrete String
string_discrete s t =
    dite (Bool-discrete (Text.◌==◌ s t) true) (λ same. yes ((eq_iff s t).0 same))
      (λ differ. no (λ p. differ ((eq_iff s t).1 p)))

instance abbrev pub string_eq : Eq String
string_eq = record { equals = Text.◌==◌; equals_iff = eq_iff }

abbrev pub nat_equals : ℕ → ℕ → Bool
nat_equals a b = elim (compare a b) [ Ordering.eq ↦ true | _ ↦ false ]

pub nat_equals_iff : (a b : ℕ) → (nat_equals a b ≡ true) ↔ (a ≡ b)
nat_equals_iff a b = ground arith

instance abbrev pub nat_eq : Eq ℕ
nat_eq = record { equals = nat_equals; equals_iff = nat_equals_iff }

instance abbrev pub bool_eq : Eq Bool
bool_eq = eq_of_discrete Bool-discrete
