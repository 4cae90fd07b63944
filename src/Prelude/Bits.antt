-- ===== src/Prelude/Bits.antt =====
-- Masks and shifts of bytes as arithmetic.
use Prim.Native.Nat.{
  ℕ, zero, suc, ◌+◌, ◌*◌, ◌/◌, ◌%◌, ◌^◌, ◌≤◌, ◌<◌, min, max, bit_and, bit_or, digits,
  bit_and-bitwise, bit_or-bitwise,
}
use mathlib.Core.Path.{◌≡◌, refl, ap}
use native.Mathlib.Nat.{pow-suc}
use native.Mathlib.Omega.{arith}

-- The native operations stand for a recursion on binary digits; the fuel of it does not matter.
module _ (rest : ℕ → ℕ) (digit : ℕ → ℕ → ℕ) where
  digits_any_fuel :
      (n m a b : ℕ) → a ≤ n → a ≤ m → digits rest digit n a b ≡ digits rest digit m a b
  digits_any_fuel zero m zero b p q = digits_zero m b
    where
      digits_zero : (m b : ℕ) → rest b ≡ digits rest digit m zero b
      digits_zero zero b = refl
      digits_zero (suc m) b = refl
  digits_any_fuel zero m (suc a) b p q = absurd (omega arith)
  digits_any_fuel (suc n) zero zero b p q = refl
  digits_any_fuel (suc n) zero (suc a) b p q = absurd (omega arith)
  digits_any_fuel (suc n) (suc m) zero b p q = refl
  digits_any_fuel (suc n) (suc m) (suc a) b p q =
      ap (λ t. t * 2 + digit (suc a % 2) (b % 2))
        (digits_any_fuel n m (suc a / 2) (b / 2) (omega arith) (omega arith))

or_step : (a b : ℕ) → bit_or a b ≡ bit_or (a / 2) (b / 2) * 2 + max (a % 2) (b % 2)
or_step zero b = simp bit_or-bitwise (omega arith)
or_step (suc a) b = simp bit_or-bitwise (
    omega (
      arith,
      digits_any_fuel (λ y. y) max a (suc a / 2) (suc a / 2) (b / 2) (omega arith) (omega arith),
    ))

and_step : (a b : ℕ) → bit_and a b ≡ bit_and (a / 2) (b / 2) * 2 + min (a % 2) (b % 2)
and_step zero b = simp bit_and-bitwise (omega arith)
and_step (suc a) b = simp bit_and-bitwise (
    omega (
      arith,
      digits_any_fuel (λ y. 0) min a (suc a / 2) (suc a / 2) (b / 2) (omega arith) (omega arith),
    ))

and_none : (n a : ℕ) → a ≤ n → bit_and a 0 ≡ 0
and_none n zero h = refl
and_none zero (suc a) h = absurd (omega arith)
and_none (suc n) (suc a) h = omega (arith, and_step (suc a) 0, and_none n (suc a / 2) (omega arith))

and_one : (a : ℕ) → bit_and a 1 ≡ a % 2
and_one a = omega (arith, and_step a 1, and_none (a / 2) (a / 2) (omega arith))

and_low2 : (a : ℕ) → bit_and a 3 ≡ a % 4
and_low2 a = omega (arith, and_step a 3, and_one (a / 2))

and_low3 : (a : ℕ) → bit_and a 7 ≡ a % 8
and_low3 a = omega (arith, and_step a 7, and_low2 (a / 2))

and_low4 : (a : ℕ) → bit_and a 15 ≡ a % 16
and_low4 a = omega (arith, and_step a 15, and_low3 (a / 2))

and_low5 : (a : ℕ) → bit_and a 31 ≡ a % 32
and_low5 a = omega (arith, and_step a 31, and_low4 (a / 2))

and_low6 : (a : ℕ) → bit_and a 63 ≡ a % 64
and_low6 a = omega (arith, and_step a 63, and_low5 (a / 2))

-- The seven low bits.
pub bit_and-0x7f : (a : ℕ) → bit_and a 0x7f ≡ a % 128
bit_and-0x7f a = omega (arith, and_step a 127, and_low6 (a / 2))

and_bit1 : (a : ℕ) → bit_and a 2 ≡ a / 2 % 2 * 2
and_bit1 a = omega (arith, and_step a 2, and_one (a / 2))

and_bit2 : (a : ℕ) → bit_and a 4 ≡ a / 4 % 2 * 4
and_bit2 a = omega (arith, and_step a 4, and_bit1 (a / 2))

and_bit3 : (a : ℕ) → bit_and a 8 ≡ a / 8 % 2 * 8
and_bit3 a = omega (arith, and_step a 8, and_bit2 (a / 2))

and_bit4 : (a : ℕ) → bit_and a 16 ≡ a / 16 % 2 * 16
and_bit4 a = omega (arith, and_step a 16, and_bit3 (a / 2))

and_bit5 : (a : ℕ) → bit_and a 32 ≡ a / 32 % 2 * 32
and_bit5 a = omega (arith, and_step a 32, and_bit4 (a / 2))

and_bit6 : (a : ℕ) → bit_and a 64 ≡ a / 64 % 2 * 64
and_bit6 a = omega (arith, and_step a 64, and_bit5 (a / 2))

-- The continuation bit.
pub bit_and-0x80 : (a : ℕ) → bit_and a 0x80 ≡ a / 128 % 2 * 128
bit_and-0x80 a = omega (arith, and_step a 128, and_bit6 (a / 2))

-- `|` of a value below `2 ^ k` and one above is their sum.
pub bit_or_above : (k r q : ℕ) → r < 2 ^ k → bit_or r (q * 2 ^ k) ≡ r + q * 2 ^ k
bit_or_above zero zero q h = simp bit_or-bitwise (omega arith)
bit_or_above zero (suc r) q h = absurd (omega arith)
bit_or_above (suc k) r q h = ground (
  arith,
  or_step r (q * 2 ^ suc k),
  pow-suc 2 k,
  ap (λ (t : ℕ). q * t) (pow-suc 2 k),
  bit_or_above k (r / 2) q (omega (arith, pow-suc 2 k)),
)
