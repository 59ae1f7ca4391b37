-- ===== src/Base/Aligned.antt =====
-- A word whose low bits are masked to 0 is a multiple of the power of two.
use Prim.Native.Nat.{ℕ, zero, suc, ◌+◌, ◌*◌, ◌/◌, ◌%◌, bit_and}
use mathlib.Core.Path.{◌≡◌}
use native.Mathlib.Omega.{arith}
use tdx_module.Base.Bits.{bit_and_digit}

abbrev pub pow2 : ℕ → ℕ
pow2 zero = 1
pow2 (suc k) = pow2 k * 2

abbrev pub ones : ℕ → ℕ
ones zero = 0
ones (suc k) = suc (ones k * 2)

pub and_ones_zero : (k w : ℕ) → bit_and w (ones k) ≡ 0 → (q : ℕ) × (w ≡ q * pow2 k)
and_ones_zero zero w h = (w, omega arith)
and_ones_zero (suc k) w h =
    let half : suc (ones k * 2) / 2 ≡ ones k = omega arith in
    let d : bit_and w (suc (ones k * 2)) ≡ bit_and (w / 2) (ones k) * 2 + w % 2 =
      rw (bit_and_digit w (suc (ones k * 2)), half) (omega arith) in
    let (q, e) = and_ones_zero k (w / 2) (omega (arith, d)) in (q, omega (arith, d, e))
