-- ===== src/Locks/SharexHp/Safety.antt =====
-- The host-priority lock, used by hosts alone, is safe in every interleaving.
use tdx_module.Base.{ℕ, ◌≤◌, ◌<◌, ◌≡◌, ◌≢◌, arith}
use tdx_module.Locks.Types.{LockType, no_lock, exclusive}
use tdx_module.Locks.Atomic.{halt}
use tdx_module.Locks.System.{System, idle, busy, Reach}
use tdx_module.Locks.Safety
use tdx_module.Locks.Safety.{IsLock}
use tdx_module.Locks.SharexHp.Protocol.{Call, host_protocol}
use tdx_module.Locks.SharexHp.Holds.{Fits, limit, body-Keeps}

Fits-IsLock : IsLock limit Fits
Fits-IsLock = record {
  fits_free = omega arith;
  one_writer = λ f. ground arith;
  no_reader = λ f e. ground arith;
}

-- With at most 0x3FFF processors that, as hosts, acquire, release and promote one host-priority lock in any
-- interleaving of their atomic instructions: while one processor, between calls, holds it
-- exclusively, every other that is between calls holds nothing.
pub hosts_exclude :
    {n : ℕ} {s : System host_protocol}
    → n ≤ limit
    → Reach host_protocol n s
    → (i j : ℕ) → i < n
    → j < n
    → i ≢ j
    → s.cpu i ≡ idle exclusive
    → (h : LockType) → s.cpu j ≡ idle h
    → h ≡ no_lock
hosts_exclude = Safety.mutual_exclusion host_protocol limit Fits Fits-IsLock body-Keeps

-- With at most 0x3FFF processors that, as hosts, acquire, release and promote one host-priority
-- lock in any interleaving of their atomic instructions, none of its sanity checks ever fails.
pub hosts_never_panic :
    {n : ℕ} {s : System host_protocol}
    → n ≤ limit
    → Reach host_protocol n s
    → (i : ℕ) (c : Call) (id : ℕ) → s.cpu i ≢ busy c (halt id)
hosts_never_panic = Safety.no_panic host_protocol limit Fits Fits-IsLock body-Keeps
