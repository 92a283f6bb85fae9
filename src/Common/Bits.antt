-- ===== src/Common/Bits.antt =====
-- `&` with one bit: what `flags & (1 << k) != 0` says of the number.
use Prim.Native.Nat.{
  ℕ, zero, suc, ◌+◌, ◌*◌, ◌/◌, ◌%◌, ◌^◌, ◌≤◌, min, bit_and, digits, bit_and-bitwise,
}
use mathlib.Core.Path.{◌≡◌, refl}
use native.Mathlib.Nat.{pow-suc, one-le-pow, mul_comm, div-div-eq-div-mul}
use native.Mathlib.Omega.{arith}
use ristux.Common.Tests.{◌==◌}
use ristux.Common.Words.{has_flag}

-- The digit recursion behind `bit_and`, with its fuel.
abbrev conj_digits : ℕ → ℕ → ℕ → ℕ
conj_digits fuel a b = digits (λ b. zero) min fuel a b

more_fuel : (k l a b : ℕ) → a ≤ k → a ≤ l → conj_digits k a b ≡ conj_digits l a b
more_fuel zero zero a b h g = refl
more_fuel zero (suc l) zero b h g = refl
more_fuel (suc k) zero zero b h g = refl
more_fuel (suc k) (suc l) zero b h g = refl
more_fuel zero (suc l) (suc a) b h g = absurd (omega arith)
more_fuel (suc k) zero (suc a) b h g = absurd (omega arith)
more_fuel (suc k) (suc l) (suc a) b h g =
    omega (arith, more_fuel k l (suc a / 2) (b / 2) (omega arith) (omega arith))

bit_and-zero_left : (b : ℕ) → bit_and 0 b ≡ 0
bit_and-zero_left b = bit_and-bitwise 0 b

-- The lowest digits are joined by `min`, the rest by `&` again.
pub bit_and-halves : (a b : ℕ) → bit_and a b ≡ 2 * bit_and (a / 2) (b / 2) + min (a % 2) (b % 2)
bit_and-halves zero b = omega (arith, bit_and-zero_left b, bit_and-zero_left (b / 2))
bit_and-halves (suc a) b = omega (
  arith,
  more_fuel a (suc a / 2) (suc a / 2) (b / 2) (omega arith) (omega arith),
  bit_and-bitwise (suc a / 2) (b / 2),
  bit_and-bitwise (suc a) b,
)

bit_and-zero_right : (fuel a : ℕ) → a ≤ fuel → bit_and a 0 ≡ 0
bit_and-zero_right zero zero h = refl
bit_and-zero_right zero (suc a) h = absurd (omega arith)
bit_and-zero_right (suc fuel) zero h = refl
bit_and-zero_right (suc fuel) (suc a) h =
    omega (arith, bit_and-halves (suc a) 0, bit_and-zero_right fuel (suc a / 2) (omega arith))

half_double : (p : ℕ) → p * 2 / 2 ≡ p
half_double p = omega arith

bit_and-double :
    (a p : ℕ)
    → bit_and (a / 2) p ≡ a / 2 / p % 2 * p
    → bit_and a (p * 2) ≡ a / (p * 2) % 2 * (p * 2)
bit_and-double a p h =
    rw (bit_and-halves a (p * 2), half_double p, h, mul_comm p 2, ← div-div-eq-div-mul a 2 p)
      (omega arith)

-- `a & (1 << k)` is the k-th binary digit of `a`, in its place.
pub bit_and-two_pow : (k a : ℕ) → bit_and a (2 ^ k) ≡ a / 2 ^ k % 2 * 2 ^ k
bit_and-two_pow zero a =
    omega (arith, bit_and-halves a 1, bit_and-zero_right (a / 2) (a / 2) (omega arith))
bit_and-two_pow (suc k) a = rw pow-suc (bit_and-double a (2 ^ k) (bit_and-two_pow k (a / 2)))

-- The test of a bit reads that digit.
pub has_flag-two_pow : (k a : ℕ) → has_flag a (2 ^ k) ≡ (a / 2 ^ k % 2 == 1)
has_flag-two_pow k a = ground (arith, bit_and-two_pow k a, one-le-pow k 2)
