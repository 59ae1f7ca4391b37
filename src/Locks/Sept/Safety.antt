-- ===== src/Locks/Sept/Safety.antt =====
-- The lock bit of a SEPT entry is safe in every interleaving.
use tdx_module.Base.{ℕ, ◌≤◌, ◌<◌, ◌≡◌, ◌≢◌, arith}
use tdx_module.Locks.Types.{LockType, no_lock, exclusive}
use tdx_module.Locks.Atomic.{halt}
use tdx_module.Locks.System.{System, idle, busy, Reach}
use tdx_module.Locks.Safety
use tdx_module.Locks.Safety.{IsLock}
use tdx_module.Locks.Sept.Protocol.{Call, sept_protocol}
use tdx_module.Locks.Sept.Holds.{Fits, limit, body-Keeps}

Fits-IsLock : IsLock limit Fits
Fits-IsLock = record {
  fits_free = omega arith;
  one_writer = λ f. ground arith;
  no_reader = λ f e. ground arith;
}

-- With at most 2 ^ 64 processors that, as hosts or guests, lock and release one SEPT entry in any
-- interleaving of their atomic instructions: while one processor, between calls, holds the
-- entry, every other that is between calls holds nothing.
pub sept_lock_excludes :
    {n : ℕ} {s : System sept_protocol}
    → n ≤ limit
    → Reach sept_protocol n s
    → (i j : ℕ) → i < n
    → j < n
    → i ≢ j
    → s.cpu i ≡ idle exclusive
    → (h : LockType) → s.cpu j ≡ idle h
    → h ≡ no_lock
sept_lock_excludes = Safety.mutual_exclusion sept_protocol limit Fits Fits-IsLock body-Keeps

-- With at most 2 ^ 64 processors that, as hosts or guests, lock and release one SEPT entry in any
-- interleaving of their atomic instructions, none of the sanity checks of the lock ever fails.
pub sept_lock_never_panics :
    {n : ℕ} {s : System sept_protocol}
    → n ≤ limit
    → Reach sept_protocol n s
    → (i : ℕ) (c : Call) (id : ℕ) → s.cpu i ≢ busy c (halt id)
sept_lock_never_panics = Safety.no_panic sept_protocol limit Fits Fits-IsLock body-Keeps
