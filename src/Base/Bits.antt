-- ===== src/Base/Bits.antt =====
-- `|` of values that share no bit is their sum.
use Prim.Native.Nat.{
  ℕ, zero, suc, ◌+◌, ◌*◌, ◌/◌, ◌%◌, ◌^◌, ◌≤◌, ◌<◌, max, bit_or, digits, bit_or-bitwise,
}
use mathlib.Core.Path.{◌≡◌, refl, sym, ap, ◌∙◌}
use native.Mathlib.Omega.{arith}
use native.Mathlib.Nat.{pow-suc, mul_assoc}

abbrev or_digits : ℕ → ℕ → ℕ → ℕ
or_digits n a b = digits (λ b. b) max n a b

or_digits_fuel : (n m a b : ℕ) → a ≤ n → a ≤ m → or_digits n a b ≡ or_digits m a b
or_digits_fuel zero zero a b p q = refl
or_digits_fuel zero (suc m) zero b p q = refl
or_digits_fuel zero (suc m) (suc a) b p q = absurd (omega arith)
or_digits_fuel (suc n) zero zero b p q = refl
or_digits_fuel (suc n) zero (suc a) b p q = absurd (omega arith)
or_digits_fuel (suc n) (suc m) zero b p q = refl
or_digits_fuel (suc n) (suc m) (suc a) b p q =
    omega (arith, or_digits_fuel n m (suc a / 2) (b / 2) (omega arith) (omega arith))

zero-bit_or : (b : ℕ) → bit_or 0 b ≡ b
zero-bit_or b = bit_or-bitwise 0 b

bit_or_step : (a b : ℕ) → bit_or a b ≡ bit_or (a / 2) (b / 2) * 2 + max (a % 2) (b % 2)
bit_or_step zero b = omega (arith, zero-bit_or b, zero-bit_or (b / 2))
bit_or_step (suc a) b = omega (
  arith,
  bit_or-bitwise (suc a) b,
  bit_or-bitwise (suc a / 2) (b / 2),
  or_digits_fuel a (suc a / 2) (suc a / 2) (b / 2) (omega arith) (omega arith),
)

pub bit_or-shifted : (k lo m h : ℕ) → lo < 2 ^ k → m ≡ h * 2 ^ k → bit_or lo m ≡ lo + m
bit_or-shifted zero zero m h p e = omega (arith, zero-bit_or m)
bit_or-shifted zero (suc lo) m h p e = absurd (omega arith)
bit_or-shifted (suc k) lo m h p e =
    let twice : m ≡ h * 2 ^ k * 2 =
      e ∙ ap (λ t. h * t) (pow-suc 2 k) ∙ sym (mul_assoc h (2 ^ k) 2) in
    omega (
      arith,
      pow-suc 2 k,
      bit_or_step lo m,
      bit_or-shifted k (lo / 2) (h * 2 ^ k) h (omega (arith, pow-suc 2 k)) refl,
      ap (λ (t : ℕ). bit_or (lo / 2) t) {x = m / 2} {y = h * 2 ^ k} (omega arith),
    )
