-- ===== src/Locks/Mutex/Safety.antt =====
-- The mutex is safe in every interleaving.
use tdx_module.Base.{ℕ, ◌^◌, ◌≤◌, ◌<◌, ◌≡◌, ◌≢◌, arith, ◌==◌, if◌then◌else◌}
use tdx_module.Locks.Types.{LockType, no_lock, exclusive, LockReturn, success}
use tdx_module.Locks.Atomic.{Prog, ret, halt, ◌>>◌}
use tdx_module.Locks.Sharing.{Keeps}
use tdx_module.Locks.System.{Protocol, System, idle, busy, Reach}
use tdx_module.Locks.Safety
use tdx_module.Locks.Safety.{IsLock}
use tdx_module.Locks.Mutex

pub data Call : Type 0 where
  acquire release : Call

abbrev pub body : Call → Prog LockReturn
body acquire = Mutex.acquire_mutex_lock
body release = Mutex.release_mutex_lock >> ret success

abbrev before : Call → LockType
before acquire = no_lock
before release = exclusive

abbrev after : Call → LockReturn → LockType
after acquire success = exclusive
after acquire _ = no_lock
after release _ = no_lock

abbrev pub mutex_protocol : Protocol
mutex_protocol = record {
  Call = Call;
  Result = LockReturn;
  body = body;
  before = before;
  after = after;
}

-- The byte is 0 or 1, and counts the holders.
record Fits (w r x : ℕ) : Type 0 where
  word : w < 2
  writers : x ≡ w
  no_readers : r ≡ 0

abbrev pub limit : ℕ
limit = 2 ^ 64

body-Keeps : (c : Call) → Keeps limit Fits (body c) (λ r h. h ≡ after c r) (before c)
unfolding Mutex.acquire_mutex_lock Mutex.release_mutex_lock
body-Keeps acquire =
    λ w r x lt f. (if w == 0 then exclusive else no_lock, ground arith, ground arith)
body-Keeps release = λ w r x lt f. (no_lock, ground arith, ground arith)

Fits-IsLock : IsLock limit Fits
Fits-IsLock = record {
  fits_free = omega arith;
  one_writer = λ f. ground arith;
  no_reader = λ f e. ground arith;
}

-- With at most 2 ^ 64 processors that acquire and release one mutex in any interleaving of their
-- atomic instructions: while one processor, between calls, holds it, every other that is between
-- calls does not.
pub mutex_excludes :
    {n : ℕ} {s : System mutex_protocol}
    → n ≤ limit
    → Reach mutex_protocol n s
    → (i j : ℕ) → i < n
    → j < n
    → i ≢ j
    → s.cpu i ≡ idle exclusive
    → (h : LockType) → s.cpu j ≡ idle h
    → h ≡ no_lock
mutex_excludes = Safety.mutual_exclusion mutex_protocol limit Fits Fits-IsLock body-Keeps

-- With at most 2 ^ 64 processors that acquire and release one mutex in any interleaving of their
-- atomic instructions, the sanity check of the release never fails.
pub mutex_never_panics :
    {n : ℕ} {s : System mutex_protocol}
    → n ≤ limit
    → Reach mutex_protocol n s
    → (i : ℕ) (c : Call) (id : ℕ) → s.cpu i ≢ busy c (halt id)
mutex_never_panics = Safety.no_panic mutex_protocol limit Fits Fits-IsLock body-Keeps
