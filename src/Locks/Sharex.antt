-- ===== src/Locks/Sharex.antt =====
-- src/common/helpers/tdx_locks.h: the shared/exclusive lock.
pub mod Protocol
pub mod Holds
pub mod Safety
use tdx_module.Base.{ℕ, ◌/◌, ◌%◌, not, ◌||◌, ◌==◌, ◌!=◌, if◌then◌else◌}
use tdx_module.Locks.Types.{LockType, no_lock, shared, exclusive, LockReturn, fail, success}
use tdx_module.Locks.Atomic.{
  Prog, ret, halt, ◌>>=◌, ◌>>◌, issue, sanity_check, cmpxchg, xchg, xadd_16b,
}

-- Layout: the readers count above the exclusive bit.
abbrev pub exclusive_of : ℕ → ℕ
exclusive_of raw = raw % 2

abbrev pub counter_of : ℕ → ℕ
counter_of raw = raw / 2

abbrev pub sharex_free : ℕ
sharex_free = 0

abbrev pub sharex_single_reader : ℕ
sharex_single_reader = 2

abbrev pub sharex_exclusive_lock : ℕ
sharex_exclusive_lock = 1

abbrev pub sharex_full_counter_no_writer : ℕ
sharex_full_counter_no_writer = 0xFFFE

unfoldable pub acquire_sharex_lock_sh : Prog LockReturn
acquire_sharex_lock_sh = do
  retval ← issue (xadd_16b 2)
  sanity_check (retval != sharex_full_counter_no_writer) 1
  ret (if exclusive_of retval == 0 then success else fail)

unfoldable pub acquire_sharex_lock_ex : Prog LockReturn
acquire_sharex_lock_ex = do
  retval ← issue (cmpxchg sharex_free sharex_exclusive_lock)
  ret (if retval == sharex_free then success else fail)

unfoldable pub acquire_sharex_lock : LockType → Prog LockReturn
unfolding acquire_sharex_lock_sh acquire_sharex_lock_ex
acquire_sharex_lock exclusive = acquire_sharex_lock_ex
acquire_sharex_lock shared = acquire_sharex_lock_sh
acquire_sharex_lock no_lock = halt 2

-- `(uint16_t)-2` is 0xFFFE.
unfoldable pub release_sharex_lock_sh : Prog (Unit {0})
release_sharex_lock_sh = do
  retval ← issue (xadd_16b 0xFFFE)
  sanity_check (not (exclusive_of retval == 1 || counter_of retval == 0)) 3

unfoldable pub release_sharex_lock_ex : Prog (Unit {0})
release_sharex_lock_ex = do
  retval ← issue (xchg sharex_free)
  sanity_check (exclusive_of retval == 1) 4

unfoldable pub release_sharex_lock : LockType → Prog (Unit {0})
unfolding release_sharex_lock_sh release_sharex_lock_ex
release_sharex_lock exclusive = release_sharex_lock_ex
release_sharex_lock shared = release_sharex_lock_sh
release_sharex_lock no_lock = halt 5

unfoldable pub promote_sharex_lock : Prog LockReturn
promote_sharex_lock = do
  retval ← issue (cmpxchg sharex_single_reader sharex_exclusive_lock)
  sanity_check (not (exclusive_of retval == 1 || retval == sharex_free)) 6
  ret (if counter_of retval == 1 then success else fail)

unfoldable pub demote_sharex_lock : Prog LockReturn
demote_sharex_lock = do
  retval ← issue (xchg sharex_single_reader)
  sanity_check (exclusive_of retval == 1) 7
  ret success
