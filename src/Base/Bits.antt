-- ===== src/Base/Bits.antt =====
-- Masks and disjoint fields of machine words, as arithmetic.
use Prim.Native.Nat.{
  ℕ, zero, suc, ◌+◌, ◌-◌, ◌*◌, ◌/◌, ◌%◌, ◌^◌, ◌≤◌, ◌<◌, max, bit_or, digits, bit_or-bitwise,
}
use mathlib.Core.Path.{◌≡◌, refl, sym, ap, ◌∙◌}
use native.Mathlib.Nat.{pow-suc, suc-add}
use native.Mathlib.Omega.{arith}

module _ (last : ℕ → ℕ) (digit : ℕ → ℕ → ℕ) where
  digits_of_zero : (fuel y : ℕ) → digits last digit fuel 0 y ≡ last y
  digits_of_zero zero y = refl
  digits_of_zero (suc fuel) y = refl

  -- Spare fuel does not change what `digits` gives.
  spare_fuel :
      (spare fuel x y : ℕ)
      → x ≤ fuel
      → digits last digit (fuel + spare) x y ≡ digits last digit fuel x y
  spare_fuel spare fuel zero y h = digits_of_zero (fuel + spare) y ∙ sym (digits_of_zero fuel y)
  spare_fuel spare zero (suc x) y h = absurd (omega arith)
  spare_fuel spare (suc fuel) (suc x) y h =
      ap (λ (n : ℕ). digits last digit n (suc x) y) (suc-add fuel spare)
      ∙ let ih = spare_fuel spare fuel (suc x / 2) (y / 2) (omega arith) in omega (arith, ih)

-- The fuel of a half is the half, where the whole's is one less than the whole.
half_fuel :
    (x y : ℕ) → digits (λ v. v) max x (suc x / 2) y ≡ digits (λ v. v) max (suc x / 2) (suc x / 2) y
half_fuel x y =
    ap (λ (fuel : ℕ). digits (λ v. v) max fuel (suc x / 2) y) (omega arith)
    ∙ spare_fuel (λ v. v) max (x - suc x / 2) (suc x / 2) (suc x / 2) y (omega arith)

-- The lowest binary digit of `|`.
pub bit_or_low : (x y : ℕ) → bit_or x y ≡ bit_or (x / 2) (y / 2) * 2 + max (x % 2) (y % 2)
bit_or_low zero y = omega (arith, bit_or-bitwise 0 (y / 2), bit_or-bitwise 0 y)
bit_or_low (suc x) y =
    omega (arith, half_fuel x (y / 2), bit_or-bitwise (suc x / 2) (y / 2), bit_or-bitwise (suc x) y)

bit_or-zero_below : (n a : ℕ) → a ≤ n → bit_or a 0 ≡ a
bit_or-zero_below n zero h = bit_or-bitwise 0 0
bit_or-zero_below zero (suc a) h = absurd (omega arith)
bit_or-zero_below (suc n) (suc a) h =
    omega (arith, bit_or_low (suc a) 0, bit_or-zero_below n (suc a / 2) (omega arith))

pub bit_or-zero : (a : ℕ) → bit_or a 0 ≡ a
bit_or-zero a = bit_or-zero_below a a (omega arith)

-- `|` of a multiple of `2 ^ k` and a number below `2 ^ k` is their sum.
pub bit_or_add : (k q r : ℕ) → r < 2 ^ k → bit_or (q * 2 ^ k) r ≡ q * 2 ^ k + r
bit_or_add zero q r h = ground (arith, bit_or-zero q)
bit_or_add (suc k) q r h = ground (
  arith,
  pow-suc 2 k,
  bit_or_low (q * 2 ^ suc k) r,
  ap (λ (t : ℕ). q * t) (pow-suc 2 k),
  bit_or_add k q (r / 2) (omega (arith, pow-suc 2 k)),
)
