-- ===== src/Locks/Types.antt =====
-- src/common/helpers/tdx_locks.h: the types that the lock functions share.
pub data LockType : Type 0 where
  no_lock shared exclusive : LockType

pub data LockReturn : Type 0 where
  fail success fail_host_priority : LockReturn

-- A hold that a caller may ask for.
pub data Mode : Type 0 where
  reading writing : Mode

abbrev pub type_of : Mode → LockType
type_of reading = shared
type_of writing = exclusive
