-- ===== src/Locks/Mutex.antt =====
-- src/common/helpers/tdx_locks.h: the mutex.
pub mod Safety
use tdx_module.Base.{ℕ, ◌==◌, if◌then◌else◌}
use tdx_module.Locks.Types.{LockReturn, fail, success}
use tdx_module.Locks.Atomic.{Prog, ret, ◌>>=◌, issue, sanity_check, cmpxchg}

abbrev pub mutex_free : ℕ
mutex_free = 0

abbrev pub mutex_lock : ℕ
mutex_lock = 1

unfoldable pub acquire_mutex_lock : Prog LockReturn
acquire_mutex_lock = do
  retval ← issue (cmpxchg mutex_free mutex_lock)
  ret (if retval == mutex_free then success else fail)

unfoldable pub release_mutex_lock : Prog (Unit {0})
release_mutex_lock = do
  retval ← issue (cmpxchg mutex_lock mutex_free)
  sanity_check (retval == mutex_lock) 0
