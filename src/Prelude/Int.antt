-- ===== src/Prelude/Int.antt =====
-- Whole numbers, as far as the code tells them apart: `negsuc n` is -(n + 1).
use Prim.Native.Nat.{ℕ}
use mathlib.Core.Path.{◌≡◌}
use mathlib.Core.Logic.{◌↔◌}
use mathlib.Core.Bool.{Bool, true, false}
use native.Mathlib.Omega.{arith}
use iot_miniservers.Prelude.Tests.{nat_eqb, nat_eqb_iff}
use iot_miniservers.Prelude.Equality.{Eq}

pub data ℤ : Type 0 where
  pos : ℕ → ℤ
  negsuc : ℕ → ℤ

abbrev pub int_eqb : ℤ → ℤ → Bool
int_eqb (pos a) (pos b) = nat_eqb a b
int_eqb (pos a) (negsuc b) = false
int_eqb (negsuc a) (pos b) = false
int_eqb (negsuc a) (negsuc b) = nat_eqb a b

pub int_eqb_iff : (a b : ℤ) → (int_eqb a b ≡ true) ↔ (a ≡ b)
int_eqb_iff (pos a) (pos b) = ground (arith, nat_eqb_iff a b)
int_eqb_iff (pos a) (negsuc b) = ground arith
int_eqb_iff (negsuc a) (pos b) = ground arith
int_eqb_iff (negsuc a) (negsuc b) = ground (arith, nat_eqb_iff a b)

instance abbrev pub int_eq : Eq ℤ
int_eq = record { beq = int_eqb; beq_iff = int_eqb_iff }
