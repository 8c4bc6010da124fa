-- ===== src/Base/Bits.antt =====
-- The bitwise or of two numbers whose digits do not meet is their sum.
use Prim.Native.Nat.{
  ℕ, zero, suc, ◌+◌, ◌*◌, ◌/◌, ◌%◌, ◌^◌, ◌≤◌, ◌<◌, max, bit_or, digits, bit_or-bitwise,
}
use mathlib.Core.Path.{◌≡◌, refl, ◌∙◌}
use native.Mathlib.Omega.{arith}
use native.Mathlib.Nat.{pow-suc}

abbrev or_digits : ℕ → ℕ → ℕ → ℕ
or_digits n a b = digits (λ b. b) max n a b

or_digits_fuel : (n m a b : ℕ) → a ≤ n → a ≤ m → or_digits n a b ≡ or_digits m a b
or_digits_fuel zero zero a b p q = refl
or_digits_fuel zero (suc m) zero b p q = refl
or_digits_fuel zero (suc m) (suc a) b p q = absurd (omega arith)
or_digits_fuel (suc n) zero zero b p q = refl
or_digits_fuel (suc n) zero (suc a) b p q = absurd (omega arith)
or_digits_fuel (suc n) (suc m) zero b p q = refl
or_digits_fuel (suc n) (suc m) (suc a) b p q =
    omega (arith, or_digits_fuel n m (suc a / 2) (b / 2) (omega arith) (omega arith))

zero-bit_or : (b : ℕ) → bit_or 0 b ≡ b
zero-bit_or b = bit_or-bitwise 0 b

-- The lowest digit of an or, and the rest.
bit_or_step : (a b : ℕ) → bit_or a b ≡ bit_or (a / 2) (b / 2) * 2 + max (a % 2) (b % 2)
bit_or_step zero b = omega (arith, zero-bit_or b, zero-bit_or (b / 2))
bit_or_step (suc a) b = omega (
  arith,
  bit_or-bitwise (suc a) b,
  bit_or-bitwise (suc a / 2) (b / 2),
  or_digits_fuel a (suc a / 2) (suc a / 2) (b / 2) (omega arith) (omega arith),
)

bit_or-zero_fuel : (n a : ℕ) → a ≤ n → bit_or a 0 ≡ a
bit_or-zero_fuel zero zero h = zero-bit_or 0
bit_or-zero_fuel zero (suc a) h = absurd (omega arith)
bit_or-zero_fuel (suc n) zero h = zero-bit_or 0
bit_or-zero_fuel (suc n) (suc a) h =
    omega (arith, bit_or_step (suc a) 0, bit_or-zero_fuel n (suc a / 2) (omega arith))

bit_or-zero : (a : ℕ) → bit_or a 0 ≡ a
bit_or-zero a = bit_or-zero_fuel a a (omega arith)

half_shifted : (b k : ℕ) → (b * 2 ^ suc k / 2 ≡ b * 2 ^ k) × (b * 2 ^ suc k % 2 ≡ 0)
half_shifted b k = rw pow-suc (omega arith)

low_step : (k a b : ℕ) → bit_or a (b * 2 ^ suc k) ≡ bit_or (a / 2) (b * 2 ^ k) * 2 + a % 2
low_step k a b =
    let (q, r) = half_shifted b k in bit_or_step a (b * 2 ^ suc k) ∙ rw (q, r) (omega arith)

high_step : (k a b : ℕ) → bit_or (a * 2 ^ suc k) b ≡ bit_or (a * 2 ^ k) (b / 2) * 2 + b % 2
high_step k a b =
    let (q, r) = half_shifted a k in bit_or_step (a * 2 ^ suc k) b ∙ rw (q, r) (omega arith)

-- The operand on the left stays below the bit from which the other one counts.
pub bit_or-shifted : (k a b : ℕ) → a < 2 ^ k → bit_or a (b * 2 ^ k) ≡ a + b * 2 ^ k
bit_or-shifted zero a b h =
    let e : a ≡ 0 = omega arith in rw e (omega (arith, zero-bit_or (b * 2 ^ 0)))
bit_or-shifted (suc k) a b h =
    let g : a < 2 ^ k * 2 = rw pow-suc at h in
    rw (low_step k a b, bit_or-shifted k (a / 2) b (omega arith), pow-suc) (omega arith)

-- The operand on the right stays below it.
pub shifted-bit_or : (k a b : ℕ) → b < 2 ^ k → bit_or (a * 2 ^ k) b ≡ a * 2 ^ k + b
shifted-bit_or zero a b h =
    let e : b ≡ 0 = omega arith in rw e (omega (arith, bit_or-zero (a * 2 ^ 0)))
shifted-bit_or (suc k) a b h =
    let g : b < 2 ^ k * 2 = rw pow-suc at h in
    rw (high_step k a b, shifted-bit_or k a (b / 2) (omega arith), pow-suc) (omega arith)
