-- ===== src/Base/Bits.antt =====
-- Facts about single bits of a word: setting, clearing and masking at a small position.
use Prim.Native.Nat.{
  ℕ, zero, suc, ◌+◌, ◌-◌, ◌*◌, ◌/◌, ◌%◌, ◌≤◌, ◌<◌, min, max, bit_and, bit_or, digits,
  bit_and-bitwise, bit_or-bitwise,
}
use mathlib.Core.Path.{◌≡◌, refl}
use native.Mathlib.Nat.{le_refl}
use native.Mathlib.Omega.{arith}

-- Two amounts of fuel that both cover the first operand give the same digits.
module _ (skip : ℕ → ℕ) (both : ℕ → ℕ → ℕ) where
  digits_agree : (f g a b : ℕ) → a ≤ f → a ≤ g → digits skip both f a b ≡ digits skip both g a b
  digits_agree zero zero zero b p q = refl
  digits_agree zero (suc g) zero b p q = refl
  digits_agree (suc f) zero zero b p q = refl
  digits_agree (suc f) (suc g) zero b p q = refl
  digits_agree (suc f) (suc g) (suc a) b p q =
      omega (arith, digits_agree f g (suc a / 2) (b / 2) (omega arith) (omega arith))
  digits_agree zero g (suc a) b p q = absurd (omega arith)
  digits_agree (suc f) zero (suc a) b p q = absurd (omega arith)

pub bit_or_digit : (a b : ℕ) → bit_or a b ≡ bit_or (a / 2) (b / 2) * 2 + max (a % 2) (b % 2)
bit_or_digit zero b = omega (arith, bit_or-bitwise 0 b, bit_or-bitwise 0 (b / 2))
bit_or_digit (suc a) b = omega (
  arith,
  bit_or-bitwise (suc a) b,
  bit_or-bitwise (suc a / 2) (b / 2),
  digits_agree (λ y. y) max a (suc a / 2) (suc a / 2) (b / 2) (omega arith) (omega arith),
)

pub bit_and_digit : (a b : ℕ) → bit_and a b ≡ bit_and (a / 2) (b / 2) * 2 + min (a % 2) (b % 2)
bit_and_digit zero b = omega (arith, bit_and-bitwise 0 b, bit_and-bitwise 0 (b / 2))
bit_and_digit (suc a) b = omega (
  arith,
  bit_and-bitwise (suc a) b,
  bit_and-bitwise (suc a / 2) (b / 2),
  digits_agree (λ y. 0) min a (suc a / 2) (suc a / 2) (b / 2) (omega arith) (omega arith),
)

or_zero_below : (n a : ℕ) → a ≤ n → bit_or a 0 ≡ a
or_zero_below n zero h = refl
or_zero_below zero (suc a) h = absurd (omega arith)
or_zero_below (suc n) (suc a) h =
    omega (arith, bit_or_digit (suc a) 0, or_zero_below n (suc a / 2) (omega arith))

and_zero_below : (n a : ℕ) → a ≤ n → bit_and a 0 ≡ 0
and_zero_below n zero h = refl
and_zero_below zero (suc a) h = absurd (omega arith)
and_zero_below (suc n) (suc a) h =
    omega (arith, bit_and_digit (suc a) 0, and_zero_below n (suc a / 2) (omega arith))

-- `w | 2` sets the second bit.
pub or_two : (w : ℕ) → bit_or w 2 ≡ w + 2 - 2 * (w / 2 % 2)
or_two w =
    omega (arith, bit_or_digit w 2, bit_or_digit (w / 2) 1, or_zero_below _ (w / 2 / 2) (le_refl _))

-- `w & 2` keeps the second bit alone.
pub and_two : (w : ℕ) → bit_and w 2 ≡ 2 * (w / 2 % 2)
and_two w =
    omega
      (arith, bit_and_digit w 2, bit_and_digit (w / 2) 1, and_zero_below _ (w / 2 / 2) (le_refl _))

-- A mask with its lowest bit set keeps that bit.
and_odd : (w m : ℕ) → bit_and w (suc (m * 2)) ≡ bit_and (w / 2) m * 2 + w % 2
and_odd w m =
    let e : suc (m * 2) / 2 ≡ m = omega arith in rw (bit_and_digit w (suc (m * 2)), e) (omega arith)

-- Masking by `k` low bits takes the remainder by `2 ^ k`; here for 14 bits.
and_ones_14 : (w : ℕ) → bit_and w 16383 ≡ w % 16384
and_ones_14 w = omega (
  arith,
  and_odd (w) 8191,
  and_odd (w / 2) 4095,
  and_odd (w / 2 / 2) 2047,
  and_odd (w / 2 / 2 / 2) 1023,
  and_odd (w / 2 / 2 / 2 / 2) 511,
  and_odd (w / 2 / 2 / 2 / 2 / 2) 255,
  and_odd (w / 2 / 2 / 2 / 2 / 2 / 2) 127,
  and_odd (w / 2 / 2 / 2 / 2 / 2 / 2 / 2) 63,
  and_odd (w / 2 / 2 / 2 / 2 / 2 / 2 / 2 / 2) 31,
  and_odd (w / 2 / 2 / 2 / 2 / 2 / 2 / 2 / 2 / 2) 15,
  and_odd (w / 2 / 2 / 2 / 2 / 2 / 2 / 2 / 2 / 2 / 2) 7,
  and_odd (w / 2 / 2 / 2 / 2 / 2 / 2 / 2 / 2 / 2 / 2 / 2) 3,
  and_odd (w / 2 / 2 / 2 / 2 / 2 / 2 / 2 / 2 / 2 / 2 / 2 / 2) 1,
  and_odd (w / 2 / 2 / 2 / 2 / 2 / 2 / 2 / 2 / 2 / 2 / 2 / 2 / 2) 0,
  and_zero_below _ (w / 2 / 2 / 2 / 2 / 2 / 2 / 2 / 2 / 2 / 2 / 2 / 2 / 2 / 2) (le_refl _),
)

-- `w & ~2` clears the second bit of a 16-bit word.
pub and_not_two : (w : ℕ) → w < 65536 → bit_and w 65533 ≡ w - 2 * (w / 2 % 2)
and_not_two w h =
    omega (arith, bit_and_digit w 65533, bit_and_digit (w / 2) 32766, and_ones_14 (w / 2 / 2))

-- An operand with its lowest bit clear passes on the other's.
or_even : (a b : ℕ) → a % 2 ≡ 0 → bit_or a b ≡ bit_or (a / 2) (b / 2) * 2 + b % 2
or_even a b h = omega (arith, bit_or_digit a b)

-- `|` of a page address and an offset is their sum.
pub or_page : (a b : ℕ) → a % 4096 ≡ 0 → b < 4096 → bit_or a b ≡ a + b
or_page a b h k = omega (
  arith,
  or_even (a) (b) (omega arith),
  or_even (a / 2) (b / 2) (omega arith),
  or_even (a / 2 / 2) (b / 2 / 2) (omega arith),
  or_even (a / 2 / 2 / 2) (b / 2 / 2 / 2) (omega arith),
  or_even (a / 2 / 2 / 2 / 2) (b / 2 / 2 / 2 / 2) (omega arith),
  or_even (a / 2 / 2 / 2 / 2 / 2) (b / 2 / 2 / 2 / 2 / 2) (omega arith),
  or_even (a / 2 / 2 / 2 / 2 / 2 / 2) (b / 2 / 2 / 2 / 2 / 2 / 2) (omega arith),
  or_even (a / 2 / 2 / 2 / 2 / 2 / 2 / 2) (b / 2 / 2 / 2 / 2 / 2 / 2 / 2) (omega arith),
  or_even (a / 2 / 2 / 2 / 2 / 2 / 2 / 2 / 2) (b / 2 / 2 / 2 / 2 / 2 / 2 / 2 / 2) (omega arith),
  or_even (a / 2 / 2 / 2 / 2 / 2 / 2 / 2 / 2 / 2) (b / 2 / 2 / 2 / 2 / 2 / 2 / 2 / 2 / 2)
      (omega arith),
  or_even (a / 2 / 2 / 2 / 2 / 2 / 2 / 2 / 2 / 2 / 2) (b / 2 / 2 / 2 / 2 / 2 / 2 / 2 / 2 / 2 / 2)
      (omega arith),
  or_even (a / 2 / 2 / 2 / 2 / 2 / 2 / 2 / 2 / 2 / 2 / 2)
      (b / 2 / 2 / 2 / 2 / 2 / 2 / 2 / 2 / 2 / 2 / 2) (omega arith),
  none_left,
)
  where
    none_left :
        bit_or
          (a / 2 / 2 / 2 / 2 / 2 / 2 / 2 / 2 / 2 / 2 / 2 / 2)
          (b / 2 / 2 / 2 / 2 / 2 / 2 / 2 / 2 / 2 / 2 / 2 / 2)
        ≡ a / 2 / 2 / 2 / 2 / 2 / 2 / 2 / 2 / 2 / 2 / 2 / 2
    none_left =
        let e : b / 2 / 2 / 2 / 2 / 2 / 2 / 2 / 2 / 2 / 2 / 2 / 2 ≡ 0 = omega arith in
        rw e (or_zero_below _ (a / 2 / 2 / 2 / 2 / 2 / 2 / 2 / 2 / 2 / 2 / 2 / 2) (le_refl _))
