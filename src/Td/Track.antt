-- ===== src/Td/Track.antt =====
-- src/vmm_dispatcher/api_calls/tdh_mem_track.c: the whole leaf, from the check of the TD's root page to the
-- release of its locks.
use tdx_module.Base.{ℕ, if◌then◌else◌}
use tdx_module.ErrorCodes.{ApiErrorType, is_tdx_success}
use tdx_module.Locks.Types.{shared}
use tdx_module.Locks.Atomic as Atomic
use tdx_module.Locks.SharexHp.{release_sharex_lock_hp_sh}
use tdx_module.Hpa.{Global}
use tdx_module.Hpa.Lock.{LockedHpa, check_and_lock_explicit_4k_private_hpa}
use tdx_module.Pamt.State.{M, halted, fatal, pure, ◌>>=◌, ◌>>◌, pt_tdr, pt_4kb}
use tdx_module.Pamt.Block.{BlockResult, found, not_found, check_failed, pamt_get_block}
use tdx_module.Pamt.Walk.{pamt_unwalk}
use tdx_module.Tdmr.Config.{operand_id_rcx}
use tdx_module.Tlb as Tlb
use tdx_module.Td.{Tdr, check_state_map_tdcs_and_lock}

-- What the root page of a TD and its control structure hold of the fields that the leaf uses.
pub record Td : Type 0 where
  pub tdr : Tdr
  pub op_state : ℕ
  pub op_state_lock : ℕ
  pub tracking : Tlb.EpochTracking

pub record TrackResult : Type 0 where
  pub code : ApiErrorType
  pub td : Td

abbrev pub tdh_mem_track_leaf : ℕ
tdh_mem_track_leaf = 38

abbrev pub op_state_released : TrackResult → Atomic.Outcome (Unit {0}) × ℕ → M TrackResult
op_state_released r (Atomic.done u, w) = pure (record r { td = record r.td { op_state_lock = w } })
op_state_released r (Atomic.halted id, w) = λ m. halted id

unfoldable pub release_op_state : TrackResult → M TrackResult
release_op_state r = op_state_released r (Atomic.run release_sharex_lock_hp_sh r.td.op_state_lock)

-- With what the section on the epoch returns.
abbrev pub epoch_tracked : Td → Tlb.Result Tlb.Answer → M TrackResult
epoch_tracked t (Tlb.ok a) =
    release_op_state (record { code = a.code; td = record t { tracking = a.tracking } })
epoch_tracked t (Tlb.halted id) = λ m. halted id
epoch_tracked t Tlb.fatal = λ m. fatal

-- With what the check of the TD's state returns. Where it refuses, the control structure is not mapped.
unfoldable pub state_checked : Td → Atomic.Outcome ApiErrorType × ℕ → M TrackResult
state_checked t (Atomic.done code, w) =
    if is_tdx_success code
    then epoch_tracked (record t { op_state_lock = w }) (Tlb.tdh_mem_track t.tracking)
    else pure (record { code = code; td = record t { op_state_lock = w } })
state_checked t (Atomic.halted id, w) = λ m. halted id

-- The root page is locked.
unfoldable pub track_td : Td → M TrackResult
track_td t = state_checked t (
    Atomic.run (check_state_map_tdcs_and_lock t.tdr shared tdh_mem_track_leaf t.op_state)
      t.op_state_lock)

-- The release of the root page, whose block the check has found.
unfoldable pub release_tdr : BlockResult → ℕ → TrackResult → M TrackResult
release_tdr (found b) tdr_pa r = pamt_unwalk tdr_pa b shared pt_4kb >> pure r
release_tdr not_found tdr_pa r = λ m. halted 0
release_tdr check_failed tdr_pa r = λ m. halted 0

-- With what the check of the root page returns.
unfoldable pub tdr_checked : Global → Td → ℕ → LockedHpa → M TrackResult
tdr_checked g t tdr_pa r =
    if is_tdx_success r.code
    then track_td t >>= release_tdr (pamt_get_block g.tdmr_table g.hkid_mask tdr_pa) tdr_pa
    else if r.is_locked
    then release_tdr (pamt_get_block g.tdmr_table g.hkid_mask tdr_pa) tdr_pa
        (record { code = r.code; td = t })
    else pure (record { code = r.code; td = t })

-- `t` is what stands at the address.
unfoldable pub tdh_mem_track : Global → Td → ℕ → M TrackResult
tdh_mem_track g t tdr_pa =
    check_and_lock_explicit_4k_private_hpa g tdr_pa operand_id_rcx shared pt_tdr
    >>= tdr_checked g t tdr_pa
