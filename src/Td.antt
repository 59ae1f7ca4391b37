-- ===== src/Td.antt =====
-- src/common/helpers/helpers.c, helpers.h: the checks of a TD's state at the head of a leaf, and the whole of
-- src/vmm_dispatcher/api_calls/tdh_mem_track.c, which is made of them.
pub mod OpState
pub mod Checked
pub mod Track
pub mod Released
pub mod Examples
use tdx_module.Base.{
  ℕ, ◌+◌, ◌-◌, ◌%◌, ◌^◌, Bool, true, false, not, ◌||◌, Option, none, some, ltb, ◌==◌, ◌!=◌,
  if◌then◌else◌,
}
use tdx_module.ErrorCodes.{
  ApiErrorCode, ApiErrorType, tdx_success, tdx_td_fatal, tdx_td_keys_not_configured,
  tdx_tdcs_not_allocated, tdx_op_state_incorrect, is_success, is_tdx_success, plain,
  api_error_fatal, api_error_with_operand_id,
}
use tdx_module.Locks.Types.{LockType, no_lock, shared, exclusive}
use tdx_module.Locks.Atomic.{Prog, ret, halt, ◌>>=◌, ◌>>◌}
use tdx_module.Locks.SharexHp.{acquire_sharex_lock_hp, release_sharex_lock_hp}
use tdx_module.Td.OpState.{
  seamcall_state_lookup, tdcall_state_lookup, servtd_bind_othertd_state_lookup, at_state, looked_up,
}

abbrev pub td_keys_configured : ℕ
td_keys_configured = 1

abbrev pub min_num_tdcs_pages : ℕ
min_num_tdcs_pages = 6

abbrev pub operand_id_op_state : ℕ
operand_id_op_state = 172

-- The management fields of a TD's root page.
pub record Tdr : Type 0 where
  pub fatal : Bool
  pub num_tdcx : ℕ
  pub lifecycle_state : ℕ

unfoldable pub check_td_in_correct_build_state : Tdr → ApiErrorType
check_td_in_correct_build_state t =
    if t.fatal
    then api_error_fatal tdx_td_fatal
    else if t.lifecycle_state != td_keys_configured
    then plain tdx_td_keys_not_configured
    else if ltb t.num_tdcx min_num_tdcs_pages
    then plain tdx_tdcs_not_allocated
    else plain tdx_success

unfoldable pub op_state_is_seamcall_allowed : ℕ → ℕ → Bool → Bool
op_state_is_seamcall_allowed leaf op_state other_td =
    if other_td
    then at_state servtd_bind_othertd_state_lookup op_state == 1
    else looked_up seamcall_state_lookup leaf op_state

-- `none` is a FATAL_ERROR.
unfoldable pub op_state_is_tdcall_allowed : ℕ → ℕ → Bool → Option Bool
op_state_is_tdcall_allowed leaf op_state other_td =
    if other_td then some (looked_up tdcall_state_lookup leaf op_state) else none

unfoldable pub is_allowed : ℕ → ℕ → Bool → Bool → Option Bool
is_allowed leaf op_state other_td guest_side_flow =
    if not guest_side_flow
    then some (op_state_is_seamcall_allowed leaf op_state other_td)
    else op_state_is_tdcall_allowed leaf op_state other_td

abbrev pub is_no_lock : LockType → Bool
is_no_lock no_lock = true
is_no_lock shared = false
is_no_lock exclusive = false

-- With the answer of the table. A FATAL_ERROR stops the module, as a failed sanity check does.
unfoldable pub when_allowed : LockType → Option Bool → Prog ApiErrorType
when_allowed op_state_lock_type (some true) = ret (plain tdx_success)
when_allowed op_state_lock_type (some false) =
    if is_no_lock op_state_lock_type
    then ret (plain tdx_op_state_incorrect)
    else (release_sharex_lock_hp op_state_lock_type >> ret (plain tdx_op_state_incorrect))
when_allowed op_state_lock_type none = halt 0

-- With what the acquire of the operation state lock returns.
unfoldable pub when_acquired : LockType → Option Bool → ApiErrorCode → Prog ApiErrorType
when_acquired op_state_lock_type allowed code =
    if is_success code
    then when_allowed op_state_lock_type allowed
    else ret (api_error_with_operand_id code operand_id_op_state)

-- A program over the operation state lock of the TD's control structure, whose operation state is given.
unfoldable pub check_any_td_state_map_tdcs_and_lock :
    Tdr → LockType → ℕ → Bool → Bool → ℕ → Prog ApiErrorType
check_any_td_state_map_tdcs_and_lock t op_state_lock_type leaf other_td guest_side_flow op_state =
    let allowed = is_allowed leaf op_state other_td guest_side_flow in
    if not (is_tdx_success (check_td_in_correct_build_state t))
    then ret (check_td_in_correct_build_state t)
    else if is_no_lock op_state_lock_type
    then when_allowed op_state_lock_type allowed
    else acquire_sharex_lock_hp op_state_lock_type guest_side_flow
      >>= when_acquired op_state_lock_type allowed

unfoldable pub check_state_map_tdcs_and_lock : Tdr → LockType → ℕ → ℕ → Prog ApiErrorType
check_state_map_tdcs_and_lock t op_state_lock_type leaf op_state =
    check_any_td_state_map_tdcs_and_lock t op_state_lock_type leaf false false op_state

unfoldable pub othertd_check_state_map_tdcs_and_lock :
    Tdr → LockType → ℕ → Bool → ℕ → Prog ApiErrorType
othertd_check_state_map_tdcs_and_lock t op_state_lock_type leaf guest_side_flow op_state =
    check_any_td_state_map_tdcs_and_lock t op_state_lock_type leaf true guest_side_flow op_state
