-- ===== src/Tdmr/Config.antt =====
-- src/vmm_dispatcher/api_calls/tdh_sys_config.c: checking the regions one after the other, and the table that
-- they make.
use tdx_module.Base.{
  ℕ, suc, ◌/◌, ◌%◌, ◌^◌, Bool, false, not, List, [], ◌∷◌, ◌++◌, Option, none, some, ltb,
  if◌then◌else◌,
}
use tdx_module.ErrorCodes.{
  ApiErrorCode, ApiErrorType, tdx_invalid_tdmr, tdx_non_ordered_tdmr, is_success,
  api_error_with_operand_id, api_error_with_multiple_info,
}
use tdx_module.Hpa.{Global, is_valid_integer_range, shared_hpa_check_with_pwr_2_alignment}
use tdx_module.Pamt.State.{RsvdArea, TdmrEntry}
use tdx_module.Tdmr.{
  TdmrInfo, CmrInfo, Check, passed, failed, fatal, ◌>>◌, refuse_if, add64, is_null,
  check_tdmr_area_addresses_and_size, check_tdmr_reserved_areas,
}
use tdx_module.Tdmr.Areas.{check_tdmr_available_areas}
use tdx_module.Tdmr.Pamts.{check_tdmr_pamt_areas}

-- The areas before the first null one.
unfoldable pub set_areas : List RsvdArea → List RsvdArea
set_areas [] = []
set_areas (a ∷ areas) = let rest = set_areas areas in if is_null a then [] else a ∷ rest

-- `num_of_rsvd_areas` is the length of the list.
unfoldable pub set_tdmr_info_in_global_data : TdmrInfo → TdmrEntry
unfolding set_areas
set_tdmr_info_in_global_data info = record {
  base = info.tdmr_base;
  size = info.tdmr_size;
  last_initialized = info.tdmr_base;
  pamt_1g_base = info.pamt_1g_base;
  pamt_2m_base = info.pamt_2m_base;
  pamt_4k_base = info.pamt_4k_base;
  num_of_pamt_blocks = info.tdmr_size / 2 ^ 30 % 2 ^ 32;
  rsvd_areas = set_areas info.rsvd_areas;
  lock = 0;
}

abbrev pub region_starts_before_start : Option TdmrInfo → TdmrInfo → Bool
region_starts_before_start none info = false
region_starts_before_start (some prev) info = ltb info.tdmr_base prev.tdmr_base

abbrev pub region_starts_before_end : Option TdmrInfo → TdmrInfo → Bool
region_starts_before_end none info = false
region_starts_before_end (some prev) info = ltb info.tdmr_base (add64 prev.tdmr_base prev.tdmr_size)

-- The checks of the region `i`, where the one before it and all before it are given.
unfoldable pub check_tdmr :
    Global → List CmrInfo → ℕ → Option TdmrInfo → List TdmrInfo → TdmrInfo → Check
check_tdmr g cmrs i prev earlier info =
    let non_ordered : ApiErrorType = api_error_with_multiple_info tdx_non_ordered_tdmr i 0 0 0 in
    refuse_if (not (is_valid_integer_range info.tdmr_base info.tdmr_size))
      (api_error_with_multiple_info tdx_invalid_tdmr i 0 0 0)
    >> refuse_if (region_starts_before_start prev info) non_ordered
    >> refuse_if (region_starts_before_end prev info) non_ordered
    >> check_tdmr_area_addresses_and_size g info i
    >> check_tdmr_reserved_areas info i
    >> check_tdmr_pamt_areas g cmrs info i earlier
    >> check_tdmr_available_areas cmrs info i

-- The status, and the entries that have been written so far.
abbrev pub Configured : Type 0
Configured = Check × List TdmrEntry

abbrev pub when_passed : Check → TdmrEntry → Configured → Configured
when_passed passed entry (c, table) = (c, entry ∷ table)
when_passed (failed e) entry rest = (failed e, [])
when_passed fatal entry rest = (fatal, [])

abbrev pub operand_id_rcx : ℕ
operand_id_rcx = 1

abbrev pub checked_code : Option ApiErrorCode → Check
checked_code none = fatal
checked_code (some code) =
    if is_success code then passed else failed (api_error_with_operand_id code operand_id_rcx)

-- The address of a TDMR_INFO must be one of shared memory.
unfoldable pub check_entry_pa : Global → ℕ → Check
check_entry_pa g pa = checked_code (shared_hpa_check_with_pwr_2_alignment g pa 512)

-- The loop of `tdh_sys_config` over the addresses of the regions' descriptions, from index `i` on; `host`
-- is what stands there.
unfoldable pub config_tdmrs :
    Global
    → List CmrInfo
    → (ℕ → TdmrInfo)
    → ℕ
    → Option TdmrInfo
    → List TdmrInfo
    → List ℕ
    → Configured
unfolding set_tdmr_info_in_global_data
config_tdmrs g cmrs host i prev earlier [] = (passed, [])
config_tdmrs g cmrs host i prev earlier (pa ∷ pas) =
    when_passed (check_entry_pa g pa >> check_tdmr g cmrs i prev earlier (host pa))
      (set_tdmr_info_in_global_data (host pa))
      (config_tdmrs g cmrs host (suc i) (some (host pa)) (earlier ++ host pa ∷ []) pas)
