-- ===== src/Tdmr/Pamts.antt =====
-- src/vmm_dispatcher/api_calls/tdh_sys_config.c: the checks of where a region's metadata tables lie.
use tdx_module.Base.{ℕ, suc, ◌*◌, ◌/◌, ◌%◌, ◌^◌, not, ◌||◌, List, [], ◌∷◌, ltb, ◌!=◌}
use tdx_module.ErrorCodes.{
  ApiErrorType, tdx_invalid_pamt, tdx_pamt_overlap, tdx_pamt_outside_cmrs,
  api_error_with_multiple_info,
}
use tdx_module.Hpa.{
  Global, is_addr_aligned_pwr_of_2, get_hkid_from_pa, is_pa_smaller_than_max_pa,
  is_valid_integer_range, is_overlap,
}
use tdx_module.Tdmr.{TdmrInfo, CmrInfo, Check, passed, ◌>>◌, refuse_if, add64, sub64}
use tdx_module.Tdmr.Areas.{is_area_in_cmr, refuse_overlap, is_pamt_overlaps_available_area}

abbrev pub pt_4kb_code : ℕ
pt_4kb_code = 0

abbrev pub pt_2mb_code : ℕ
pt_2mb_code = 1

abbrev pub pt_1gb_code : ℕ
pt_1gb_code = 2

unfoldable pub check_pamt_addresses_and_size : Global → ℕ → ℕ → ℕ → ℕ → ApiErrorType → Check
check_pamt_addresses_and_size g pamt_base pamt_size entry_size tdmr_size e =
    let pamt_end = sub64 (add64 pamt_base pamt_size) 1 in
    refuse_if (not (is_valid_integer_range pamt_base pamt_size)) e
    >> refuse_if
        (not (is_addr_aligned_pwr_of_2 pamt_base 4096)
          || not (is_addr_aligned_pwr_of_2 pamt_size 4096))
        e
    >> refuse_if (not (is_pa_smaller_than_max_pa pamt_base) || get_hkid_from_pa g pamt_base != 0) e
    >> refuse_if (not (is_pa_smaller_than_max_pa pamt_end) || get_hkid_from_pa g pamt_end != 0) e
    >> refuse_if (ltb pamt_size (tdmr_size / entry_size * 16 % 2 ^ 64)) e

unfoldable pub check_pamt_addresses : Global → TdmrInfo → ℕ → Check
unfolding check_pamt_addresses_and_size
check_pamt_addresses g info i =
    check_pamt_addresses_and_size g info.pamt_1g_base info.pamt_1g_size (2 ^ 30) info.tdmr_size
      (api_error_with_multiple_info tdx_invalid_pamt i pt_1gb_code 0 0)
    >> check_pamt_addresses_and_size g info.pamt_2m_base info.pamt_2m_size (2 ^ 21) info.tdmr_size
        (api_error_with_multiple_info tdx_invalid_pamt i pt_2mb_code 0 0)
    >> check_pamt_addresses_and_size g info.pamt_4k_base info.pamt_4k_size (2 ^ 12) info.tdmr_size
        (api_error_with_multiple_info tdx_invalid_pamt i pt_4kb_code 0 0)

-- One table against the three of a region before; an overlap is refused with the caller's status.
unfoldable pub check_pamt_overlap : ℕ → ℕ → TdmrInfo → ApiErrorType → Check
unfolding is_overlap
check_pamt_overlap pamt_base pamt_size other e =
    refuse_overlap (is_overlap pamt_base pamt_size other.pamt_4k_base other.pamt_4k_size) e
    >> refuse_overlap (is_overlap pamt_base pamt_size other.pamt_2m_base other.pamt_2m_size) e
    >> refuse_overlap (is_overlap pamt_base pamt_size other.pamt_1g_base other.pamt_1g_size) e

-- The loop over the regions before, from index `j` on.
unfoldable pub pamt_overlaps_from : TdmrInfo → ℕ → ℕ → List TdmrInfo → Check
unfolding check_pamt_overlap
pamt_overlaps_from info i j [] = passed
pamt_overlaps_from info i j (other ∷ others) =
    check_pamt_overlap info.pamt_4k_base info.pamt_4k_size other
      (api_error_with_multiple_info tdx_pamt_overlap i pt_4kb_code j 0)
    >> check_pamt_overlap info.pamt_2m_base info.pamt_2m_size other
        (api_error_with_multiple_info tdx_pamt_overlap i pt_2mb_code j 0)
    >> check_pamt_overlap info.pamt_1g_base info.pamt_1g_size other
        (api_error_with_multiple_info tdx_pamt_overlap i pt_1gb_code j 0)
    >> pamt_overlaps_from info i (suc j) others

unfoldable pub check_all_pamt_overlap : TdmrInfo → ℕ → List TdmrInfo → Check
unfolding pamt_overlaps_from is_overlap
check_all_pamt_overlap info i earlier =
    pamt_overlaps_from info i 0 earlier
    >> refuse_overlap
        (is_overlap info.pamt_4k_base info.pamt_4k_size info.pamt_2m_base info.pamt_2m_size)
        (api_error_with_multiple_info tdx_pamt_overlap i pt_4kb_code i 0)
    >> refuse_overlap
        (is_overlap info.pamt_4k_base info.pamt_4k_size info.pamt_1g_base info.pamt_1g_size)
        (api_error_with_multiple_info tdx_pamt_overlap i pt_4kb_code i 0)
    >> refuse_overlap
        (is_overlap info.pamt_2m_base info.pamt_2m_size info.pamt_1g_base info.pamt_1g_size)
        (api_error_with_multiple_info tdx_pamt_overlap i pt_2mb_code i 0)

-- The three tables of the region `of` against the available areas of the region `in_info`.
unfoldable pub tables_in_available : TdmrInfo → ℕ → TdmrInfo → ℕ → Check
unfolding is_pamt_overlaps_available_area
tables_in_available of_info i in_info j =
    is_pamt_overlaps_available_area in_info of_info.pamt_4k_base of_info.pamt_4k_size
      (api_error_with_multiple_info tdx_pamt_overlap i pt_4kb_code j 0)
    >> is_pamt_overlaps_available_area in_info of_info.pamt_2m_base of_info.pamt_2m_size
        (api_error_with_multiple_info tdx_pamt_overlap i pt_2mb_code j 0)
    >> is_pamt_overlaps_available_area in_info of_info.pamt_1g_base of_info.pamt_1g_size
        (api_error_with_multiple_info tdx_pamt_overlap i pt_1gb_code j 0)

-- The loop over the regions before, from index `j` on, and then the region itself.
unfoldable pub available_overlaps_from : TdmrInfo → ℕ → ℕ → List TdmrInfo → Check
unfolding tables_in_available
available_overlaps_from info i j [] = tables_in_available info i info i
available_overlaps_from info i j (other ∷ others) =
    tables_in_available info i other j
    >> tables_in_available other j info i
    >> available_overlaps_from info i (suc j) others

unfoldable pub check_pamt_overlaps_available_areas : TdmrInfo → ℕ → List TdmrInfo → Check
unfolding available_overlaps_from
check_pamt_overlaps_available_areas info i earlier = available_overlaps_from info i 0 earlier

unfoldable pub check_pamt_in_cmr : List CmrInfo → TdmrInfo → ℕ → Check
unfolding is_area_in_cmr
check_pamt_in_cmr cmrs info i =
    refuse_if
      (not (is_area_in_cmr cmrs info.pamt_1g_base (add64 info.pamt_1g_base info.pamt_1g_size)))
      (api_error_with_multiple_info tdx_pamt_outside_cmrs i pt_1gb_code 0 0)
    >> refuse_if
        (not (is_area_in_cmr cmrs info.pamt_2m_base (add64 info.pamt_2m_base info.pamt_2m_size)))
        (api_error_with_multiple_info tdx_pamt_outside_cmrs i pt_2mb_code 0 0)
    >> refuse_if
        (not (is_area_in_cmr cmrs info.pamt_4k_base (add64 info.pamt_4k_base info.pamt_4k_size)))
        (api_error_with_multiple_info tdx_pamt_outside_cmrs i pt_4kb_code 0 0)

unfoldable pub check_tdmr_pamt_areas : Global → List CmrInfo → TdmrInfo → ℕ → List TdmrInfo → Check
unfolding check_pamt_addresses check_all_pamt_overlap check_pamt_overlaps_available_areas
    check_pamt_in_cmr
check_tdmr_pamt_areas g cmrs info i earlier =
    check_pamt_addresses g info i
    >> check_all_pamt_overlap info i earlier
    >> check_pamt_overlaps_available_areas info i earlier
    >> check_pamt_in_cmr cmrs info i
