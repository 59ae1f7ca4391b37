-- ===== src/Locks/Sharex/Protocol.antt =====
-- How processors use the shared/exclusive lock: they release and convert only what they hold.
use tdx_module.Locks.Types.{
  LockType, no_lock, shared, exclusive, LockReturn, success, Mode, type_of,
}
use tdx_module.Locks.Atomic.{Prog, ret, ◌>>◌}
use tdx_module.Locks.System.{Protocol}
use tdx_module.Locks.Sharex

pub data Call : Type 0 where
  acquire : Mode → Call
  release : Mode → Call
  promote demote : Call

abbrev pub body : Call → Prog LockReturn
body (acquire m) = Sharex.acquire_sharex_lock (type_of m)
body (release m) = Sharex.release_sharex_lock (type_of m) >> ret success
body promote = Sharex.promote_sharex_lock
body demote = Sharex.demote_sharex_lock

abbrev pub before : Call → LockType
before (acquire m) = no_lock
before (release m) = type_of m
before promote = shared
before demote = exclusive

abbrev pub after : Call → LockReturn → LockType
after (acquire m) success = type_of m
after (acquire m) _ = no_lock
after (release m) _ = no_lock
after promote success = exclusive
after promote _ = shared
after demote success = shared
after demote _ = exclusive

abbrev pub sharex_protocol : Protocol
sharex_protocol = record {
  Call = Call;
  Result = LockReturn;
  body = body;
  before = before;
  after = after;
}
