-- ===== src/Base/Int.antt =====
-- Signed integers over the native numbers; `negsuc n` is -(n + 1).
use Prim.Native.Nat.{ℕ}
use mathlib.Core.Path.{◌≡◌, ap}
use mathlib.Core.Bool.{Bool, true, false}
use native.Mathlib.Omega.{arith}
use zbluenet.Base.Tests.{◌==◌}

pub data ℤ : Type 0 where
  pos : ℕ → ℤ
  negsuc : ℕ → ℤ

abbrev pub same_int : ℤ → ℤ → Bool
same_int (pos m) (pos n) = m == n
same_int (negsuc m) (negsuc n) = m == n
same_int _ _ = false

pub same_int_refl : (a : ℤ) → same_int a a ≡ true
same_int_refl (pos m) = ground arith
same_int_refl (negsuc m) = ground arith

pub same_int→eq : (a b : ℤ) → same_int a b ≡ true → a ≡ b
same_int→eq (pos m) (pos n) e = ap pos (ground arith)
same_int→eq (negsuc m) (negsuc n) e = ap negsuc (ground arith)
same_int→eq (pos m) (negsuc n) e = absurd (ground arith)
same_int→eq (negsuc m) (pos n) e = absurd (ground arith)
