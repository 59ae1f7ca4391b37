-- ===== src/Tdmr.antt =====
-- src/vmm_dispatcher/api_calls/tdh_sys_config.c: the regions of memory that the host configures, and the
-- checks of one region.
pub mod Areas
pub mod Pamts
pub mod Config
pub mod Init
pub mod Passed
pub mod Placed
pub mod Sorted
pub mod Available
pub mod Convertible
pub mod Disjoint
pub mod Clear
mod Examples
use tdx_module.Base.{
  ℕ, zero, suc, ◌+◌, ◌-◌, ◌*◌, ◌/◌, ◌%◌, ◌^◌, Bool, true, false, not, ◌&&◌, ◌||◌, List, [], ◌∷◌,
  Option, none, some, ltb, leb, ◌==◌, ◌!=◌, if◌then◌else◌,
}
use tdx_module.ErrorCodes.{
  ApiErrorType, tdx_invalid_tdmr, tdx_invalid_reserved_in_tdmr, tdx_non_ordered_reserved_in_tdmr,
  api_error_with_multiple_info,
}
use tdx_module.Hpa.{
  Global, is_addr_aligned_pwr_of_2, get_hkid_from_pa, is_pa_smaller_than_max_pa,
  is_valid_integer_range,
}
use tdx_module.Pamt.State.{RsvdArea}

-- `tdmr_info_entry_t`, with the entries of its array of reserved areas in order.
pub record TdmrInfo : Type 0 where
  pub tdmr_base : ℕ
  pub tdmr_size : ℕ
  pub pamt_1g_base : ℕ
  pub pamt_1g_size : ℕ
  pub pamt_2m_base : ℕ
  pub pamt_2m_size : ℕ
  pub pamt_4k_base : ℕ
  pub pamt_4k_size : ℕ
  pub rsvd_areas : List RsvdArea

-- A convertible memory range.
pub record CmrInfo : Type 0 where
  pub cmr_base : ℕ
  pub cmr_size : ℕ

-- TDX_SUCCESS, another status, or a FATAL_ERROR.
pub data Check : Type 0 where
  passed : Check
  failed : ApiErrorType → Check
  fatal : Check

infixl 5 ◌>>◌
abbrev pub ◌>>◌ : Check → Check → Check
passed >> d = d
failed e >> d = failed e
fatal >> d = fatal

abbrev pub refuse_if : Bool → ApiErrorType → Check
refuse_if true e = failed e
refuse_if false e = passed

-- On 64 bits.
abbrev pub add64 : ℕ → ℕ → ℕ
add64 a b = (a + b) % 2 ^ 64

abbrev pub sub64 : ℕ → ℕ → ℕ
sub64 a b = (a + 2 ^ 64 - b) % 2 ^ 64

abbrev pub is_null : RsvdArea → Bool
is_null a = a.size == 0

abbrev pub next_is_set : List RsvdArea → Bool
next_is_set [] = false
next_is_set (a ∷ areas) = not (is_null a)

unfoldable pub check_tdmr_area_addresses_and_size : Global → TdmrInfo → ℕ → Check
check_tdmr_area_addresses_and_size g info i =
    let invalid : ApiErrorType = api_error_with_multiple_info tdx_invalid_tdmr i 0 0 0 in
    let tdmr_end = sub64 (add64 info.tdmr_base info.tdmr_size) 1 in
    refuse_if
      (not (is_addr_aligned_pwr_of_2 info.tdmr_base (2 ^ 30))
        || not (is_addr_aligned_pwr_of_2 info.tdmr_size (2 ^ 30))
        || info.tdmr_size == 0)
      invalid
    >> refuse_if
        (not (is_pa_smaller_than_max_pa info.tdmr_base) || get_hkid_from_pa g info.tdmr_base != 0)
        invalid
    >> refuse_if (not (is_pa_smaller_than_max_pa tdmr_end) || get_hkid_from_pa g tdmr_end != 0)
        invalid

abbrev pub starts_before_start : Option RsvdArea → RsvdArea → Bool
starts_before_start none a = false
starts_before_start (some prev) a = ltb a.offset prev.offset

abbrev pub starts_before_end : Option RsvdArea → RsvdArea → Bool
starts_before_end none a = false
starts_before_end (some prev) a = ltb a.offset (add64 prev.offset prev.size)

-- An area that is set, where the one before it is given.
unfoldable pub check_reserved_area : TdmrInfo → ℕ → ℕ → Option RsvdArea → RsvdArea → Check
check_reserved_area info i j prev a =
    let invalid : ApiErrorType =
      api_error_with_multiple_info tdx_invalid_reserved_in_tdmr i j 0 0 in
    let non_ordered : ApiErrorType =
      api_error_with_multiple_info tdx_non_ordered_reserved_in_tdmr i j 0 0 in
    let rsvd_start = add64 info.tdmr_base a.offset in
    let rsvd_end = add64 rsvd_start a.size in
    refuse_if (not (is_valid_integer_range a.offset a.size)) invalid
    >> refuse_if (starts_before_start prev a) non_ordered
    >> refuse_if (starts_before_end prev a) non_ordered
    >> refuse_if
        (not (is_addr_aligned_pwr_of_2 a.offset 4096) || not (is_addr_aligned_pwr_of_2 a.size 4096))
        invalid
    >> refuse_if (not (is_valid_integer_range info.tdmr_base a.offset)) invalid
    >> refuse_if (not (is_valid_integer_range rsvd_start a.size)) invalid
    >> refuse_if
        (ltb rsvd_start info.tdmr_base || ltb (add64 info.tdmr_base info.tdmr_size) rsvd_end)
        invalid

-- The loop over the areas from index `j` on.
unfoldable pub check_areas_from : TdmrInfo → ℕ → ℕ → Option RsvdArea → List RsvdArea → Check
unfolding check_reserved_area
check_areas_from info i j prev [] = passed
check_areas_from info i j prev (a ∷ areas) =
    let rest = check_areas_from info i (suc j) (some a) areas in
    (if is_null a
      then refuse_if (next_is_set areas)
          (api_error_with_multiple_info tdx_non_ordered_reserved_in_tdmr i j 0 0)
      else check_reserved_area info i j prev a)
    >> rest

unfoldable pub check_tdmr_reserved_areas : TdmrInfo → ℕ → Check
unfolding check_areas_from
check_tdmr_reserved_areas info i = check_areas_from info i 0 none info.rsvd_areas
