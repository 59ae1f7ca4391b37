-- ===== src/Locks/Sharex/Safety.antt =====
-- The shared/exclusive lock is safe in every interleaving.
use tdx_module.Base.{ℕ, ◌≤◌, ◌<◌, ◌≡◌, ◌≢◌, arith}
use tdx_module.Locks.Types.{LockType, no_lock, exclusive}
use tdx_module.Locks.Atomic.{halt}
use tdx_module.Locks.System.{System, idle, busy, Reach}
use tdx_module.Locks.Safety
use tdx_module.Locks.Safety.{IsLock}
use tdx_module.Locks.Sharex.Protocol.{Call, sharex_protocol}
use tdx_module.Locks.Sharex.Holds.{Fits, limit, body-Keeps}

Fits-IsLock : IsLock limit Fits
Fits-IsLock = record {
  fits_free = omega arith;
  one_writer = λ f. ground arith;
  no_reader = λ f e. ground arith;
}

-- With at most 0x7FFF processors that acquire, release, promote and demote one sharex lock in any
-- interleaving of their atomic instructions: while one processor, between calls, holds it
-- exclusively, every other that is between calls holds nothing.
pub sharex_excludes :
    {n : ℕ} {s : System sharex_protocol}
    → n ≤ limit
    → Reach sharex_protocol n s
    → (i j : ℕ) → i < n
    → j < n
    → i ≢ j
    → s.cpu i ≡ idle exclusive
    → (h : LockType) → s.cpu j ≡ idle h
    → h ≡ no_lock
sharex_excludes = Safety.mutual_exclusion sharex_protocol limit Fits Fits-IsLock body-Keeps

-- With at most 0x7FFF processors that acquire, release, promote and demote one sharex lock in any
-- interleaving of their atomic instructions, none of its sanity checks ever fails.
pub sharex_never_panics :
    {n : ℕ} {s : System sharex_protocol}
    → n ≤ limit
    → Reach sharex_protocol n s
    → (i : ℕ) (c : Call) (id : ℕ) → s.cpu i ≢ busy c (halt id)
sharex_never_panics = Safety.no_panic sharex_protocol limit Fits Fits-IsLock body-Keeps
