-- ===== src/Sept/Block.antt =====
-- src/vmm_dispatcher/api_calls/tdh_mem_range_block.c: blocking an L1 entry. `none` is a FATAL_ERROR.
pub mod Restored
use tdx_module.Base.{ℕ, false, Option, none, some, ◌||◌, ◌==◌, if◌then◌else◌}
use tdx_module.Sept.Entry.{
  Septe, SeptState, encoding, encoding_of, nl_mapped, nl_blocked, mapped, blocked, blockedw,
  pending, pending_blocked, pending_blockedw,
}
use tdx_module.Sept.State.{sept_cleanup_if_pending, sept_update_state}

abbrev pub without_rwx : Septe → Septe
without_rwx e = record e { r = false; w = false; x = false }

-- The `switch` on the state.
unfoldable pub block_state : Septe → Option Septe
unfolding sept_update_state
block_state e =
    let enc = encoding_of e in
    if enc == encoding nl_mapped
    then some (without_rwx (sept_update_state e nl_blocked))
    else (if (enc == encoding mapped) || (enc == encoding blockedw)
        then some (sept_update_state (without_rwx e) blocked)
        else (if (enc == encoding pending) || (enc == encoding pending_blockedw)
            then some (sept_update_state e pending_blocked)
            else none))

unfoldable pub block_sept_entry : Septe → ℕ → Option Septe
unfolding sept_cleanup_if_pending block_state
block_sept_entry e level = block_state (sept_cleanup_if_pending e level)
