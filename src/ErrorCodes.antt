-- ===== src/ErrorCodes.antt =====
-- include/auto_gen/tdx_error_codes_defs.h, src/common/helpers/error_reporting.h: the status codes that
-- the modelled functions return, and an operand's number beside one.
use tdx_module.Base.{ℕ, ◌+◌, ◌*◌, ◌%◌, ◌^◌, Bool, true, false, not, ◌&&◌, ◌==◌}

pub data ApiErrorCode : Type 0 where
  tdx_success tdx_operand_busy tdx_operand_busy_host_priority uninitialize_error : ApiErrorCode
  tdx_operand_invalid tdx_operand_addr_range_error tdx_page_metadata_incorrect : ApiErrorCode
  tdx_td_fatal tdx_td_keys_not_configured tdx_tdcs_not_allocated tdx_op_state_incorrect :
      ApiErrorCode
  tdx_vcpu_associated tdx_vcpu_not_associated tdx_vcpu_state_incorrect : ApiErrorCode
  tdx_previous_tlb_epoch_busy : ApiErrorCode
  tdx_tdmr_already_initialized tdx_invalid_tdmr tdx_invalid_pamt tdx_invalid_reserved_in_tdmr
        tdx_non_ordered_reserved_in_tdmr :
      ApiErrorCode
  tdx_non_ordered_tdmr tdx_pamt_outside_cmrs tdx_pamt_overlap tdx_tdmr_outside_cmrs : ApiErrorCode

abbrev pub is_success : ApiErrorCode → Bool
is_success tdx_success = true
is_success _ = false

-- `api_error_type`: the code, whether its fatal bit is added, and the number in its low 32 bits.
pub record ApiErrorType : Type 0 where
  pub code : ApiErrorCode
  pub fatal : Bool
  pub details_l2 : ℕ

abbrev pub plain : ApiErrorCode → ApiErrorType
plain code = record { code = code; fatal = false; details_l2 = 0 }

abbrev pub api_error_fatal : ApiErrorCode → ApiErrorType
api_error_fatal code = record { code = code; fatal = true; details_l2 = 0 }

abbrev pub api_error_with_operand_id : ApiErrorCode → ℕ → ApiErrorType
api_error_with_operand_id code operand_id = record {
  code = code;
  fatal = false;
  details_l2 = operand_id;
}

abbrev pub api_error_with_multiple_info : ApiErrorCode → ℕ → ℕ → ℕ → ℕ → ApiErrorType
api_error_with_multiple_info code info_0 info_1 info_2 info_3 = record {
  code = code;
  fatal = false;
  details_l2 =
      info_0 % 2 ^ 8 + info_1 % 2 ^ 8 * 2 ^ 8 + info_2 % 2 ^ 8 * 2 ^ 16 + info_3 % 2 ^ 8 * 2 ^ 24;
}

abbrev pub is_tdx_success : ApiErrorType → Bool
is_tdx_success e = is_success e.code && not e.fatal && e.details_l2 == 0
