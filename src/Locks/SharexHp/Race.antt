-- ===== src/Locks/SharexHp/Race.antt =====
-- A guest that backs off while the exclusive holder releases.
use tdx_module.Base.{ℕ, ◌/◌, ◌%◌, ◌≡◌, refl, true, false, inl, inr, ◌==◌, Bool-cases, arith}
use tdx_module.Base.Bits.{and_two}
use tdx_module.Base.Family.{assign}
use tdx_module.ErrorCodes.{ApiErrorCode, tdx_success}
use tdx_module.Locks.Types.{LockType, no_lock, shared, exclusive, writing}
use tdx_module.Locks.Atomic.{Prog, ret, run, halted, perform, xadd_16b, and_16b, ◌>>◌}
use tdx_module.Locks.System.{
  Protocol, System, idle, turn, Steps, here, more, enter, instruction, then_case, pass, leave,
}
use tdx_module.Locks.SharexHp
use tdx_module.Locks.SharexHp.Protocol as Host

-- Hosts, and guests that take the lock shared.
pub data AnyCall : Type 0 where
  host : Host.Call → AnyCall
  guest_acquire guest_release : AnyCall

abbrev pub body : AnyCall → Prog ApiErrorCode
body (host c) = Host.body c
body guest_acquire = SharexHp.acquire_sharex_lock_hp shared true
body guest_release = SharexHp.release_sharex_lock_hp shared >> ret tdx_success

abbrev pub before : AnyCall → LockType
before (host c) = Host.before c
before guest_acquire = no_lock
before guest_release = shared

abbrev pub after : AnyCall → ApiErrorCode → LockType
after (host c) r = Host.after c r
after guest_acquire tdx_success = shared
after guest_acquire _ = no_lock
after guest_release _ = no_lock

abbrev pub mixed_protocol : Protocol
mixed_protocol = record {
  Call = AnyCall;
  Result = ApiErrorCode;
  body = body;
  before = before;
  after = after;
}

-- Processor 0 holds the lock exclusively; nobody else is at it.
abbrev pub held : ℕ → System mixed_protocol
held w = record { word = w; cpu = assign 0 (idle exclusive) (λ _. idle no_lock) }

-- The guest on processor 1 counts itself in, the holder releases, the guest counts itself out.
abbrev raced : ℕ → ℕ
raced w = perform (xadd_16b 0xFFFC) (perform (and_16b 2) (perform (xadd_16b 4) w))

raced_lem : (w : ℕ) → w / 2 % 2 ≡ 1 → raced w ≡ 0xFFFE
raced_lem w h = omega (arith, and_two (perform (xadd_16b 4) w))

-- If a guest starts to acquire the lock shared while a host holds it exclusively and another host
-- waits (both flags set, any counter), there is an interleaving of the guest with the release
-- after which nobody holds the lock, yet its word is 0xFFFE: the guest's decrement has wrapped the
-- counter that the release had reset. A host that then acquires it shared fails a sanity check.
pub guest_backoff_wraps :
    (w : ℕ)
    → SharexHp.exclusive_of w ≡ 1
    → SharexHp.host_prio_of w ≡ 1
    → (t : System mixed_protocol) × Steps mixed_protocol 2 (held w) t
      × (t.word ≡ 0xFFFE)
      × ((i : ℕ) → t.cpu i ≡ idle no_lock)
      × ((run (SharexHp.acquire_sharex_lock_hp shared false) t.word).0 ≡ halted 11)
unfolding SharexHp.acquire_sharex_lock_hp SharexHp.release_sharex_lock_hp
guest_backoff_wraps w ex hp = (
  _,
  more
      (more
        (more
          (more
            (more
              (more
                (more
                  (more
                    (more (more here (turn 1 (omega arith) (enter guest_acquire refl)))
                      (turn 1 (omega arith) instruction))
                    (turn 0 (omega arith) (enter (host (Host.release writing)) refl)))
                  (turn 0 (omega arith) instruction))
                (turn 0 (omega arith) (pass (ground arith))))
              (turn 0 (omega arith) instruction))
            (turn 0 (omega arith) leave))
          (turn 1 (omega arith) (then_case (ground arith))))
        (turn 1 (omega arith) instruction))
      (turn 1 (omega arith) leave),
  raced_lem w hp,
  λ i. elim (Bool-cases (1 == i)) [
    | inl e ↦ rw e
    | inr e ↦ elim (Bool-cases (0 == i)) [ inl f ↦ rw (e, f) | inr f ↦ rw (e, f) ]
  ],
  rw (raced_lem w hp),
)
