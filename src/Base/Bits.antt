-- ===== src/Base/Bits.antt =====
-- `|` on fields of a word that do not overlap is their sum.
use Prim.Native.Nat.{bit_or, bit_or-bitwise, digits}
use Prim.Native.Nat.{ℕ, zero, suc, ◌+◌, ◌*◌, ◌/◌, ◌%◌, ◌^◌, ◌≤◌, ◌<◌, max}
use mathlib.Core.Path.{◌≡◌, refl, ap}
use native.Mathlib.Nat.{pow-suc}
use native.Mathlib.Omega.{arith}

abbrev or_digits : ℕ → ℕ → ℕ → ℕ
or_digits n a b = digits (λ b. b) max n a b

or_digits_fuel : (a b n m : ℕ) → a ≤ n → a ≤ m → or_digits n a b ≡ or_digits m a b
or_digits_fuel zero b zero zero low high = refl
or_digits_fuel zero b zero (suc more) low high = refl
or_digits_fuel zero b (suc fuel) zero low high = refl
or_digits_fuel zero b (suc fuel) (suc more) low high = refl
or_digits_fuel (suc a) b (suc fuel) (suc more) low high =
    let rest = or_digits_fuel (suc a / 2) (b / 2) fuel more (omega arith) (omega arith) in
    omega (arith, rest)
or_digits_fuel (suc a) b zero m low high = absurd (omega arith)
or_digits_fuel (suc a) b (suc fuel) zero low high = absurd (omega arith)

zero-bit_or : (b : ℕ) → bit_or 0 b ≡ b
zero-bit_or b = bit_or-bitwise 0 b

bit_or_step : (a b : ℕ) → bit_or a b ≡ max (a % 2) (b % 2) + 2 * bit_or (a / 2) (b / 2)
bit_or_step zero b = omega (arith, zero-bit_or b, zero-bit_or (b / 2))
bit_or_step (suc a) b = omega (
  arith,
  bit_or-bitwise (suc a) b,
  bit_or-bitwise (suc a / 2) (b / 2),
  or_digits_fuel (suc a / 2) (b / 2) a (suc a / 2) (omega arith) (omega arith),
)

bit_or-zero_fuel : (n a : ℕ) → a ≤ n → bit_or a 0 ≡ a
bit_or-zero_fuel zero zero h = zero-bit_or 0
bit_or-zero_fuel zero (suc a) h = absurd (omega arith)
bit_or-zero_fuel (suc n) zero h = zero-bit_or 0
bit_or-zero_fuel (suc n) (suc a) h =
    omega (arith, bit_or_step (suc a) 0, bit_or-zero_fuel n (suc a / 2) (omega arith))

bit_or-zero : (a : ℕ) → bit_or a 0 ≡ a
bit_or-zero a = bit_or-zero_fuel a a (omega arith)

pub bit_or-disjoint : (k a b : ℕ) → b < 2 ^ k → bit_or (a * 2 ^ k) b ≡ a * 2 ^ k + b
bit_or-disjoint zero a b h =
    let none_left : b ≡ 0 = omega arith in rw none_left (omega (arith, bit_or-zero (a * 1)))
bit_or-disjoint (suc k) a b h =
    let fields : a * 2 ^ suc k ≡ a * 2 ^ k * 2 =
      omega (arith, ap (λ (t : ℕ). a * t) (pow-suc 2 k)) in
    let halved : a * 2 ^ k * 2 / 2 ≡ a * 2 ^ k = omega arith in
    let rest : b / 2 < 2 ^ k = omega (arith, pow-suc 2 k) in
    let here = rw halved at (bit_or_step (a * 2 ^ k * 2) b) in
    rw fields (omega (arith, here, bit_or-disjoint k a (b / 2) rest))
