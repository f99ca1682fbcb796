-- ===== src/Common/Bits.antt =====
-- The bit operations of the program's integers as arithmetic.
use Prim.Native.Nat.{
  ℕ, zero, suc, ◌+◌, ◌*◌, ◌/◌, ◌%◌, ◌^◌, ◌≤◌, ◌<◌, max, bit_and, bit_or, digits, bit_or-bitwise,
}
use mathlib.Core.Path.{◌≡◌, refl, ◌∙◌}
use mathlib.Core.Bool.{Bool, true, ◌&&◌}
use native.Mathlib.Omega.{arith}
use openshell_driver_lxd.Common.Tests.{nat_beq, nat_beq_iff}

-- Over a small range, every value is checked.
agree_below : (f g : ℕ → ℕ) → ℕ → Bool
agree_below f g zero = true
agree_below f g (suc n) = nat_beq (f n) (g n) && agree_below f g n

agree_below-eq : (f g : ℕ → ℕ) (n x : ℕ) → agree_below f g n ≡ true → x < n → f x ≡ g x
unfolding agree_below
agree_below-eq f g zero x h lt = absurd (omega arith)
agree_below-eq f g (suc n) x h lt = ground (arith, nat_beq_iff (f n) (g n), agree_below-eq f g n x)

pub low_bits : (b : ℕ) → b < 256 → bit_and b 0x7f ≡ b % 128
unfolding agree_below
low_bits b = agree_below-eq (λ x. bit_and x 0x7f) (λ x. x % 128) 256 b refl

pub top_bit : (b : ℕ) → b < 256 → bit_and b 0x80 ≡ b / 128 * 128
unfolding agree_below
top_bit b = agree_below-eq (λ x. bit_and x 0x80) (λ x. x / 128 * 128) 256 b refl

pub low_three_bits : (b : ℕ) → b < 256 → bit_and b 7 ≡ b % 8
unfolding agree_below
low_three_bits b = agree_below-eq (λ x. bit_and x 7) (λ x. x % 8) 256 b refl

-- The digits of `a | b`, from the lowest on.
abbrev or_digits : ℕ → ℕ → ℕ → ℕ
or_digits n a b = digits (λ b. b) max n a b

or_digits_fuel : (n m a b : ℕ) → a ≤ n → a ≤ m → or_digits n a b ≡ or_digits m a b
or_digits_fuel zero zero a b p q = refl
or_digits_fuel zero (suc m) zero b p q = refl
or_digits_fuel zero (suc m) (suc a) b p q = absurd (omega arith)
or_digits_fuel (suc n) zero zero b p q = refl
or_digits_fuel (suc n) zero (suc a) b p q = absurd (omega arith)
or_digits_fuel (suc n) (suc m) zero b p q = refl
or_digits_fuel (suc n) (suc m) (suc a) b p q =
    omega (arith, or_digits_fuel n m (suc a / 2) (b / 2) (omega arith) (omega arith))

zero-bit_or : (b : ℕ) → bit_or 0 b ≡ b
zero-bit_or b = bit_or-bitwise 0 b

bit_or_step : (a b : ℕ) → bit_or a b ≡ bit_or (a / 2) (b / 2) * 2 + max (a % 2) (b % 2)
bit_or_step zero b = omega (arith, zero-bit_or b, zero-bit_or (b / 2))
bit_or_step (suc a) b = omega (
  arith,
  bit_or-bitwise (suc a) b,
  bit_or-bitwise (suc a / 2) (b / 2),
  or_digits_fuel a (suc a / 2) (suc a / 2) (b / 2) (omega arith) (omega arith),
)

double_power : (s : ℕ) → 2 ^ suc s ≡ 2 ^ s + 2 ^ s
double_power s = omega arith

or_step :
    (a b x y : ℕ)
    → x ≡ y + y
    → bit_or (a / 2) (b * y) ≡ a / 2 + b * y
    → bit_or a (b * x) ≡ a + b * x
or_step a b x y e h =
    let twice : b * x ≡ b * y + b * y = grind (arith, e) in
    let half : b * x / 2 ≡ b * y = omega (arith, twice) in
    bit_or_step a (b * x) ∙ rw half (rw h (omega (arith, twice)))

-- Bits behind those of `a` are added to it.
pub bit_or_shifted : (s a b : ℕ) → a < 2 ^ s → bit_or a (b * 2 ^ s) ≡ a + b * 2 ^ s
bit_or_shifted zero zero b h = omega (arith, zero-bit_or (b * 1))
bit_or_shifted zero (suc a) b h = absurd (omega arith)
bit_or_shifted (suc s) a b h =
    or_step a b (2 ^ suc s) (2 ^ s) (double_power s)
      (bit_or_shifted s (a / 2) b (omega (arith, double_power s)))
