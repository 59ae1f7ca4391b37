-- ===== src/Locks/SharexHp.antt =====
-- src/common/helpers/tdx_locks.h: the shared/exclusive lock with host priority. A host that finds
-- the lock taken leaves a flag, and a guest that finds the flag backs off.
pub mod Protocol
pub mod Holds
pub mod Safety
pub mod Race
use tdx_module.Base.{ℕ, ◌/◌, ◌%◌, Bool, true, false, not, ◌||◌, ◌==◌, ◌!=◌, if◌then◌else◌}
use tdx_module.ErrorCodes.{
  ApiErrorCode, tdx_success, tdx_operand_busy, tdx_operand_busy_host_priority,
}
use tdx_module.Locks.Types.{LockType, no_lock, shared, exclusive}
use tdx_module.Locks.Atomic.{
  Prog, ret, branch, halt, ◌>>=◌, ◌>>◌, issue, sanity_check, load, cmpxchg, xadd_16b, or_16b,
  and_16b,
}

-- Layout: the readers count, the host-priority flag, the exclusive bit.
abbrev pub exclusive_of : ℕ → ℕ
exclusive_of raw = raw % 2

abbrev pub host_prio_of : ℕ → ℕ
host_prio_of raw = raw / 2 % 2

abbrev pub counter_of : ℕ → ℕ
counter_of raw = raw / 4

abbrev pub sharex_hp_free : ℕ
sharex_hp_free = 0

abbrev pub sharex_hp_exclusive_lock : ℕ
sharex_hp_exclusive_lock = 1

abbrev pub sharex_hp_host_priority : ℕ
sharex_hp_host_priority = 2

abbrev pub sharex_hp_single_reader : ℕ
sharex_hp_single_reader = 4

abbrev pub sharex_hp_full_counter : ℕ
sharex_hp_full_counter = 0x3FFF

-- The guest's half: it gives the count back if a host waits. `(uint16_t)-4` is 0xFFFC.
unfoldable pub acquire_sharex_lock_hp_sh_guest : Prog ApiErrorCode
acquire_sharex_lock_hp_sh_guest = do
  retval ← issue (xadd_16b sharex_hp_single_reader)
  branch (host_prio_of retval != 0) (do issue (xadd_16b 0xFFFC); ret tdx_operand_busy_host_priority)
      (branch (exclusive_of retval != 0) (ret tdx_operand_busy)
        (do sanity_check (counter_of retval != sharex_hp_full_counter) 10; ret tdx_success))

-- The host's half: it leaves the flag if the lock is taken, and clears it on success.
unfoldable pub acquire_sharex_lock_hp_sh_host : Prog ApiErrorCode
acquire_sharex_lock_hp_sh_host = do
  retval ← issue (xadd_16b sharex_hp_single_reader)
  branch (exclusive_of retval != 0)
      (do issue (or_16b sharex_hp_host_priority); ret tdx_operand_busy)
      (do
        branch (host_prio_of retval != 0) (do issue (and_16b 0xFFFD); ret tt) (ret tt)
        sanity_check (counter_of retval != sharex_hp_full_counter) 11
        ret tdx_success)

unfoldable pub acquire_sharex_lock_hp_sh : Bool → Prog ApiErrorCode
unfolding acquire_sharex_lock_hp_sh_guest acquire_sharex_lock_hp_sh_host
acquire_sharex_lock_hp_sh true = acquire_sharex_lock_hp_sh_guest
acquire_sharex_lock_hp_sh false = acquire_sharex_lock_hp_sh_host

unfoldable pub acquire_sharex_lock_hp_ex : Bool → Prog ApiErrorCode
acquire_sharex_lock_hp_ex is_guest = do
  retval ← issue (cmpxchg sharex_hp_free sharex_hp_exclusive_lock)
  branch (retval == sharex_hp_free) (ret tdx_success) (
      branch (retval == sharex_hp_host_priority)
        (branch is_guest (ret tdx_operand_busy_host_priority) (do
          again ← issue (cmpxchg sharex_hp_host_priority sharex_hp_exclusive_lock)
          ret (if again == sharex_hp_host_priority then tdx_success else tdx_operand_busy)))
        (branch is_guest (ret tdx_operand_busy)
          (do issue (or_16b sharex_hp_host_priority); ret tdx_operand_busy)))

unfoldable pub acquire_sharex_lock_hp : LockType → Bool → Prog ApiErrorCode
unfolding acquire_sharex_lock_hp_ex acquire_sharex_lock_hp_sh
acquire_sharex_lock_hp exclusive is_guest = acquire_sharex_lock_hp_ex is_guest
acquire_sharex_lock_hp shared is_guest = acquire_sharex_lock_hp_sh is_guest
acquire_sharex_lock_hp no_lock is_guest = halt 12

unfoldable pub release_sharex_lock_hp_sh : Prog (Unit {0})
release_sharex_lock_hp_sh = do
  retval ← issue (xadd_16b 0xFFFC)
  sanity_check (not (exclusive_of retval == 1 || counter_of retval == 0)) 13

-- The flag survives; the counter, with what failed readers added, and the exclusive bit do not.
unfoldable pub release_sharex_lock_hp_ex : Prog (Unit {0})
release_sharex_lock_hp_ex = do
  raw ← issue load
  sanity_check (exclusive_of raw == 1) 14
  issue (and_16b sharex_hp_host_priority)
  ret tt

unfoldable pub release_sharex_lock_hp : LockType → Prog (Unit {0})
unfolding release_sharex_lock_hp_sh release_sharex_lock_hp_ex
release_sharex_lock_hp exclusive = release_sharex_lock_hp_ex
release_sharex_lock_hp shared = release_sharex_lock_hp_sh
release_sharex_lock_hp no_lock = halt 15

abbrev waited_reader : ℕ
waited_reader = 6

unfoldable pub promote_sharex_lock_hp : Prog ApiErrorCode
promote_sharex_lock_hp = do
  retval ← issue (cmpxchg sharex_hp_single_reader sharex_hp_exclusive_lock)
  sanity_check (not (exclusive_of retval == 1 || retval == sharex_hp_free)) 16
  branch (retval == sharex_hp_single_reader) (ret tdx_success) (
      branch (retval == waited_reader)
        (do
          again ← issue (cmpxchg waited_reader sharex_hp_exclusive_lock)
          sanity_check (not (exclusive_of again == 1 || again == sharex_hp_free)) 17
          ret (if again == waited_reader then tdx_success else tdx_operand_busy))
        (do issue (or_16b sharex_hp_host_priority); ret tdx_operand_busy))
