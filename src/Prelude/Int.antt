-- ===== src/Prelude/Int.antt =====
-- Signed integers over the native numbers, for `*fftypes.FFBigInt` values.
use Prim.Native.Nat.{ℕ}
use mathlib.Core.Path.{◌≡◌}
use mathlib.Core.Bool.{Bool, true, false}
use native.Mathlib.Omega.{arith}
use firefly_transaction_mana.Prelude.Tests.{◌==◌}

-- `negsuc n` is -(n + 1).
pub data ℤ : Type 0 where
  pos : ℕ → ℤ
  negsuc : ℕ → ℤ

-- `Cmp` returns 0.
abbrev pub int_eq : ℤ → ℤ → Bool
int_eq (pos a) (pos b) = a == b
int_eq (negsuc a) (negsuc b) = a == b
int_eq _ _ = false

pub int_eq_refl : (a : ℤ) → int_eq a a ≡ true
int_eq_refl (pos a) = ground arith
int_eq_refl (negsuc a) = ground arith

pub eq_of_int_eq : (a b : ℤ) → int_eq a b ≡ true → a ≡ b
eq_of_int_eq (pos a) (pos b) h = ground arith
eq_of_int_eq (negsuc a) (negsuc b) h = ground arith
eq_of_int_eq (pos a) (negsuc b) h = ground arith
eq_of_int_eq (negsuc a) (pos b) h = ground arith
