-- ===== src/Hpa/Addressed.antt =====
-- What the check of an address that a caller gives establishes.
use tdx_module.Base.{ℕ, zero, suc, ◌-◌, ◌*◌, ◌/◌, ◌%◌, ◌^◌, ◌<◌, ◌≡◌, bit_and, arith, true}
use tdx_module.Base.Aligned.{pow2, ones, and_ones_zero}
use tdx_module.ErrorCodes.{is_success}
use tdx_module.Hpa as Hpa
use tdx_module.Hpa.{Global}

-- A multiple of `alignment` below 2^52 whose bits of the key identifier are 0.
pub record Addressed (g : Global) (hpa alignment : ℕ) : Type 0 where
  pub aligned : (q : ℕ) × (hpa ≡ q * alignment)
  pub keyless : bit_and hpa g.hkid_mask / 2 ^ g.hkid_start_bit % 2 ^ 16 ≡ 0
  pub below : hpa < 2 ^ 52

ones-pow2 : (k : ℕ) → pow2 k ≡ suc (ones k)
ones-pow2 zero = omega arith
ones-pow2 (suc k) = omega (arith, ones-pow2 k)

pub hpa_check-Addressed :
    (g : Global) (hpa alignment k : ℕ)
    → alignment ≡ pow2 k
    → is_success (Hpa.hpa_check_with_pwr_2_alignment g hpa alignment) ≡ true
    → Addressed g hpa alignment
unfolding Hpa.hpa_check_with_pwr_2_alignment Hpa.is_addr_aligned_pwr_of_2 Hpa.get_hkid_from_pa
hpa_check-Addressed g hpa alignment k power h =
    let small : hpa < 2 ^ 52 = ground (arith, h) in
    let low : hpa % 2 ^ 52 ≡ hpa = omega (arith, small) in
    let less : alignment - 1 ≡ ones k = omega (arith, power, ones-pow2 k) in
    let masked : bit_and hpa (alignment - 1) ≡ 0 = ground (arith, h) in
    let no_key : bit_and (hpa % 2 ^ 52) g.hkid_mask / 2 ^ g.hkid_start_bit % 2 ^ 16 ≡ 0 =
      ground (arith, h) in
    record {
      aligned = rw power (and_ones_zero k hpa (rw less at masked));
      keyless = rw low at no_key;
      below = small;
    }
