-- ===== src/Kprint/Digits.antt =====
-- Printed numbers read back.
use mathlib.Core.List.{reverse, reverse-cons}
use native.Mathlib.Nat.{pow-suc}
use snowkernel.Base.{
  ℕ, zero, suc, ◌+◌, ◌-◌, ◌*◌, ◌/◌, ◌%◌, ◌^◌, ◌<◌, true, ◌==◌, ltb, if◌then◌else◌, List, [], ◌∷◌,
  ◌++◌, get_or, ◌≡◌, refl, arith, Bool-cases, inl, inr, ==→eq,
}
use snowkernel.Base.Table.{all_below, all_below_sound}
use snowkernel.Kprint.{hex, dec_digits, hex_digits, print_dec, print_hex}

-- The number that a text of digits stands for, to a base and by the values of its digits.
unfoldable pub read_digits : (base : ℕ) → (ℕ → ℕ) → ℕ → List ℕ → ℕ
read_digits base val acc [] = acc
read_digits base val acc (c ∷ cs) = read_digits base val (acc * base + val c) cs

read-snoc :
    (base : ℕ) (val : ℕ → ℕ) (acc : ℕ) (cs : List ℕ) (c : ℕ)
    → read_digits base val acc (cs ++ c ∷ []) ≡ read_digits base val acc cs * base + val c
unfolding read_digits
read-snoc base val acc [] c = refl
read-snoc base val acc (d ∷ cs) c = read-snoc base val (acc * base + val d) cs c

abbrev pub dec_value : ℕ → ℕ
dec_value c = c - b'0'

abbrev pub hex_value : ℕ → ℕ
hex_value c = if ltb c b'a' then c - b'0' else c - b'a' + 10

pub read_dec : List ℕ → ℕ
unfolding read_digits
read_dec cs = read_digits 10 dec_value 0 cs

pub read_hex : List ℕ → ℕ
unfolding read_digits
read_hex cs = read_digits 16 hex_value 0 cs

hex_value_digit : (d : ℕ) → d < 16 → hex_value (get_or hex d 0) ≡ d
hex_value_digit d h =
    ==→eq _ _ (all_below_sound 16 (λ d. hex_value (get_or hex d 0) == d) d check h)
  where
    check : all_below 16 (λ d. hex_value (get_or hex d 0) == d) ≡ true
    check = unfold all_below in refl

dec_digits-read :
    (fuel v : ℕ) → v < 10 ^ fuel → read_digits 10 dec_value 0 (reverse (dec_digits fuel v)) ≡ v
unfolding dec_digits read_digits
dec_digits-read zero v h = omega (arith, h)
dec_digits-read (suc fuel) v h = elim (Bool-cases (v / 10 == 0)) [
  | inl e ↦ rw e (omega (arith, ==→eq (v / 10) 0 e))
  | inr e ↦
      rw
        (
          e,
          reverse-cons,
          read-snoc 10 dec_value 0 (reverse (dec_digits fuel (v / 10))) (b'0' + v % 10),
        )
        (omega (arith, dec_digits-read fuel (v / 10) (omega (arith, h, pow-suc 10 fuel))))
]

hex_digits-read :
    (fuel v : ℕ) → v < 16 ^ fuel → read_digits 16 hex_value 0 (reverse (hex_digits fuel v)) ≡ v
unfolding hex_digits read_digits
hex_digits-read zero v h = omega (arith, h)
hex_digits-read (suc fuel) v h = elim (Bool-cases (v / 16 == 0)) [
  | inl e ↦ rw e (omega (arith, ==→eq (v / 16) 0 e, hex_value_digit (v % 16) (omega arith)))
  | inr e ↦
      rw
        (
          e,
          reverse-cons,
          read-snoc 16 hex_value 0 (reverse (hex_digits fuel (v / 16))) (get_or hex (v % 16) 0),
        )
        (omega (
          arith,
          hex_value_digit (v % 16) (omega arith),
          hex_digits-read fuel (v / 16) (omega (arith, h, pow-suc 16 fuel)),
        ))
]

-- The digits that `%u` and `%x` put out for a 32-bit number read back, to base 10 and 16, as the
-- number: the 15 places of the buffer are enough.
pub printed-read :
    (v : ℕ) → v < 2 ^ 32 → (read_dec (print_dec v) ≡ v) × (read_hex (print_hex v) ≡ v)
unfolding read_dec read_hex print_dec print_hex
printed-read v h =
    (dec_digits-read 15 v (omega (arith, h)), hex_digits-read 15 v (omega (arith, h)))
