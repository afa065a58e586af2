-- ===== src/Prelude/Equality.antt =====
-- Boolean equality as an interface, with one operator for all types that have it.
use Prim.Native.Nat.{ℕ}
use mathlib.Core.Path.{◌≡◌}
use mathlib.Core.Logic.{◌↔◌}
use mathlib.Core.Bool.{Bool, true, false, ◌&&◌}
use mathlib.Core.List.{List, [], ◌∷◌}
use native.Mathlib.Omega.{arith}
use iot_miniservers.Prelude.Tests.{nat_eqb, nat_eqb_iff}

abbrev pub list_eqb : List ℕ → List ℕ → Bool
list_eqb [] [] = true
list_eqb [] (y ∷ ys) = false
list_eqb (x ∷ xs) [] = false
list_eqb (x ∷ xs) (y ∷ ys) = nat_eqb x y && list_eqb xs ys

pub list_eqb_iff : (xs ys : List ℕ) → (list_eqb xs ys ≡ true) ↔ (xs ≡ ys)
list_eqb_iff [] [] = ground arith
list_eqb_iff [] (y ∷ ys) = ground arith
list_eqb_iff (x ∷ xs) [] = ground arith
list_eqb_iff (x ∷ xs) (y ∷ ys) = ground (arith, list_eqb_iff xs ys, nat_eqb_iff x y)

-- The test of a type and what it decides.
pub record Eq {κ} (T : Type κ) : Type κ where
  pub beq : T → T → Bool
  pub beq_iff : (x y : T) → (beq x y ≡ true) ↔ (x ≡ y)

instance abbrev pub text_eq : Eq (List ℕ)
text_eq = record { beq = list_eqb; beq_iff = list_eqb_iff }

instance abbrev pub nat_eq : Eq ℕ
nat_eq = record { beq = nat_eqb; beq_iff = nat_eqb_iff }

infix 50 ◌==◌
abbrev pub ◌==◌ {κ} : {T : Type κ} ⦃test : Eq T⦄ → T → T → Bool
◌==◌ ⦃test⦄ x y = test.beq x y
