-- ===== src/Locks/Sept.antt =====
-- src/common/helpers/tdx_locks.h: the lock bit of a secure EPT entry, with host priority.
pub mod Protocol
pub mod Holds
pub mod Safety
use tdx_module.Base.{ℕ, ◌==◌, ◌!=◌}
use tdx_module.ErrorCodes.{
  ApiErrorCode, tdx_success, tdx_operand_busy, tdx_operand_busy_host_priority,
}
use tdx_module.Locks.Atomic.{
  Prog, ret, branch, ◌>>=◌, ◌>>◌, issue, sanity_check, bit_of, perform, load, bts_64b, btr_64b,
}

-- SEPT_ENTRY_TDEL_BIT_POSITION and SEPT_ENTRY_TDHP_BIT_POSITION.
abbrev pub tdel : ℕ
tdel = 11

abbrev pub tdhp : ℕ
tdhp = 52

-- The result of `bts` and `btr` is the bit in the word that they found.
unfoldable pub sept_lock_acquire_host : Prog ApiErrorCode
sept_lock_acquire_host = do
  raw ← issue (bts_64b tdel)
  branch (bit_of tdel raw == 0) (do issue (btr_64b tdhp); ret tdx_success)
      (do issue (bts_64b tdhp); ret tdx_operand_busy)

unfoldable pub sept_lock_acquire_guest : Prog ApiErrorCode
sept_lock_acquire_guest = do
  raw ← issue (bts_64b tdel)
  branch (bit_of tdel raw == 0)
      (do
        entry ← issue load
        branch (bit_of tdhp entry != 0)
            (do issue (btr_64b tdel); ret tdx_operand_busy_host_priority) (ret tdx_success))
      (ret tdx_operand_busy)

unfoldable pub sept_lock_release : Prog (Unit {0})
sept_lock_release = do
  raw ← issue load
  sanity_check (bit_of tdel raw != 0) 8
  issue (btr_64b tdel)
  ret tt

-- On a local copy of the entry: no atomic instruction.
unfoldable pub sept_lock_release_local : ℕ → ℕ
sept_lock_release_local raw = perform (btr_64b tdel) raw
