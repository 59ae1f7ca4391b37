-- ===== src/Locks/Sept/Protocol.antt =====
-- How hosts and guests use the lock bit of a secure EPT entry.
use tdx_module.ErrorCodes.{ApiErrorCode, tdx_success}
use tdx_module.Locks.Types.{LockType, no_lock, exclusive}
use tdx_module.Locks.Atomic.{Prog, ret, ◌>>◌}
use tdx_module.Locks.System.{Protocol}
use tdx_module.Locks.Sept

pub data Call : Type 0 where
  acquire_host acquire_guest release : Call

abbrev pub body : Call → Prog ApiErrorCode
body acquire_host = Sept.sept_lock_acquire_host
body acquire_guest = Sept.sept_lock_acquire_guest
body release = Sept.sept_lock_release >> ret tdx_success

abbrev pub before : Call → LockType
before acquire_host = no_lock
before acquire_guest = no_lock
before release = exclusive

abbrev pub after : Call → ApiErrorCode → LockType
after release _ = no_lock
after acquire_host tdx_success = exclusive
after acquire_host _ = no_lock
after acquire_guest tdx_success = exclusive
after acquire_guest _ = no_lock

abbrev pub sept_protocol : Protocol
sept_protocol = record {
  Call = Call;
  Result = ApiErrorCode;
  body = body;
  before = before;
  after = after;
}
