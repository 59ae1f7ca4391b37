-- ===== src/Locks/SharexHp/Protocol.antt =====
-- How hosts use the host-priority lock: they release and promote only what they hold.
use tdx_module.Base.{false}
use tdx_module.ErrorCodes.{ApiErrorCode, tdx_success}
use tdx_module.Locks.Types.{LockType, no_lock, shared, exclusive, Mode, type_of}
use tdx_module.Locks.Atomic.{Prog, ret, ◌>>◌}
use tdx_module.Locks.System.{Protocol}
use tdx_module.Locks.SharexHp

pub data Call : Type 0 where
  acquire : Mode → Call
  release : Mode → Call
  promote : Call

abbrev pub body : Call → Prog ApiErrorCode
body (acquire m) = SharexHp.acquire_sharex_lock_hp (type_of m) false
body (release m) = SharexHp.release_sharex_lock_hp (type_of m) >> ret tdx_success
body promote = SharexHp.promote_sharex_lock_hp

abbrev pub before : Call → LockType
before (acquire m) = no_lock
before (release m) = type_of m
before promote = shared

abbrev pub after : Call → ApiErrorCode → LockType
after (acquire m) tdx_success = type_of m
after (acquire m) _ = no_lock
after (release m) _ = no_lock
after promote tdx_success = exclusive
after promote _ = shared

abbrev pub host_protocol : Protocol
host_protocol = record {
  Call = Call;
  Result = ApiErrorCode;
  body = body;
  before = before;
  after = after;
}
