-- ===== src/Hpa.antt =====
-- src/common/helpers/helpers.c, src/common/helpers/helpers.h: the checks of a physical address that a
-- caller gives.
pub mod Lock
pub mod Stable
pub mod Addressed
pub mod Locked
pub mod Free
pub mod Examples
use tdx_module.Base.{
  ℕ, ◌+◌, ◌-◌, ◌*◌, ◌/◌, ◌%◌, ◌^◌, bit_and, bit_or, Bool, true, false, not, ◌&&◌, ◌||◌, List,
  Option, none, some, ltb, leb, ◌==◌, ◌!=◌, if◌then◌else◌,
}
use tdx_module.ErrorCodes.{ApiErrorCode, tdx_success, tdx_operand_invalid}
use tdx_module.Pamt.State.{TdmrEntry}
use tdx_module.Pamt.Block.{get_addr_from_pa}

-- The fields of `tdx_module_global_t` that the checks read.
pub record Global : Type 0 where
  pub hkid : ℕ
  pub hkid_mask : ℕ
  pub hkid_start_bit : ℕ
  pub private_hkid_min : ℕ
  pub private_hkid_max : ℕ
  pub seamrr_base : ℕ
  pub seamrr_size : ℕ
  pub tdmr_table : List TdmrEntry

abbrev pub max_uint64 : ℕ
max_uint64 = 0xFFFFFFFFFFFFFFFF

-- For a size that is a power of two.
unfoldable pub is_addr_aligned_pwr_of_2 : ℕ → ℕ → Bool
is_addr_aligned_pwr_of_2 addr size = bit_and addr (size - 1) == 0

unfoldable pub get_hkid_from_pa : Global → ℕ → ℕ
get_hkid_from_pa g pa = bit_and (pa % 2 ^ 52) g.hkid_mask / 2 ^ g.hkid_start_bit % 2 ^ 16

-- `full_pa` is the low 52 bits.
unfoldable pub set_hkid_to_pa : Global → ℕ → ℕ → ℕ
set_hkid_to_pa g pa hkid =
    pa
    - pa % 2 ^ 52
    + bit_or (bit_and (pa % 2 ^ 52) (max_uint64 - g.hkid_mask)) (hkid * 2 ^ g.hkid_start_bit)
      % 2 ^ 52

abbrev pub is_private_hkid : Global → ℕ → Bool
is_private_hkid g hkid = leb g.private_hkid_min hkid && leb hkid g.private_hkid_max

abbrev pub is_pa_smaller_than_max_pa : ℕ → Bool
is_pa_smaller_than_max_pa pa = ltb pa (2 ^ 52)

abbrev pub is_valid_integer_range : ℕ → ℕ → Bool
is_valid_integer_range base size = leb base (max_uint64 - size)

-- `none` is the FATAL_ERROR on a range that wraps.
unfoldable pub is_overlap : ℕ → ℕ → ℕ → ℕ → Option Bool
is_overlap base size base2 size2 =
    if not (is_valid_integer_range base size) || not (is_valid_integer_range base2 size2)
    then none
    else some (not (leb (base2 + size2) base || leb (base + size) base2))

-- With the answer to the overlap of the page with the SEAM range.
abbrev pub shared_hkid_check : Global → ℕ → Option Bool → Option ApiErrorCode
shared_hkid_check g hpa none = none
shared_hkid_check g hpa (some true) = some tdx_operand_invalid
shared_hkid_check g hpa (some false) =
    some
      (if leb g.private_hkid_min (get_hkid_from_pa g hpa) then tdx_operand_invalid else tdx_success)

unfoldable pub shared_hpa_check : Global → ℕ → ℕ → Option ApiErrorCode
unfolding get_addr_from_pa is_overlap
shared_hpa_check g hpa size =
    if not (is_pa_smaller_than_max_pa hpa)
    then some tdx_operand_invalid
    else shared_hkid_check g hpa
        (is_overlap (get_addr_from_pa g.hkid_mask hpa) size g.seamrr_base g.seamrr_size)

unfoldable pub shared_hpa_check_with_pwr_2_alignment : Global → ℕ → ℕ → Option ApiErrorCode
unfolding shared_hpa_check
shared_hpa_check_with_pwr_2_alignment g hpa size =
    if not (is_addr_aligned_pwr_of_2 hpa size)
    then some tdx_operand_invalid
    else shared_hpa_check g hpa size

unfoldable pub hpa_check_with_pwr_2_alignment : Global → ℕ → ℕ → ApiErrorCode
hpa_check_with_pwr_2_alignment g hpa size =
    if not (is_addr_aligned_pwr_of_2 hpa size)
    then tdx_operand_invalid
    else (if get_hkid_from_pa g hpa != 0
        then tdx_operand_invalid
        else (if not (is_pa_smaller_than_max_pa hpa) then tdx_operand_invalid else tdx_success))
