-- ===== src/Locks/Examples.antt =====
-- The theorems on locks at concrete systems, and runs of the lock functions.
use tdx_module.Base.{ℕ, ◌+◌, ◌^◌, ◌≡◌, ◌≢◌, refl, true, false, arith}
use tdx_module.ErrorCodes.{tdx_operand_busy, tdx_operand_busy_host_priority}
use tdx_module.Locks.Types.{no_lock, shared, reading, writing, success, fail}
use tdx_module.Locks.Atomic.{halt, run, done, halted}
use tdx_module.Locks.System.{
  Protocol, System, idle, busy, Reach, Steps, start, later, turn, enter, instruction, then_case,
  else_case, pass, leave,
}
use tdx_module.Locks.Mutex
use tdx_module.Locks.Mutex.Safety as MutexSafety
use tdx_module.Locks.Mutex.Safety.{mutex_excludes, mutex_never_panics}
use tdx_module.Locks.Sharex
use tdx_module.Locks.Sharex.Protocol as SharexCall
use tdx_module.Locks.Sharex.Safety.{sharex_excludes, sharex_never_panics}
use tdx_module.Locks.SharexHp
use tdx_module.Locks.SharexHp.Protocol as HostCall
use tdx_module.Locks.SharexHp.Safety.{hosts_exclude, hosts_never_panic}
use tdx_module.Locks.SharexHp.Race.{mixed_protocol, held, guest_backoff_wraps}
use tdx_module.Locks.Sept
use tdx_module.Locks.Sept.Protocol as SeptCall
use tdx_module.Locks.Sept.Safety.{sept_lock_excludes, sept_lock_never_panics}

-- In each system processor 0 has taken the lock exclusively, and processor 1 has tried and failed.
record Taken (p : Protocol) : Type 0 where
  state : System p
  reach : Reach p 2 state

abbrev mutex_taken : Taken MutexSafety.mutex_protocol
unfolding Mutex.acquire_mutex_lock
mutex_taken = record {
  state = _;
  reach =
      later
        (later
          (later
            (later
              (later (later start (turn 0 (omega arith) (enter MutexSafety.acquire refl)))
                (turn 0 (omega arith) instruction))
              (turn 1 (omega arith) (enter MutexSafety.acquire refl)))
            (turn 1 (omega arith) instruction))
          (turn 0 (omega arith) leave))
        (turn 1 (omega arith) leave);
}

mutex_excludes_example : no_lock ≡ no_lock
unfolding Mutex.acquire_mutex_lock
mutex_excludes_example =
    mutex_excludes (omega arith) mutex_taken.reach 0 1 (omega arith) (omega arith) (omega arith)
      refl no_lock refl

mutex_never_panics_example : mutex_taken.state.cpu 1 ≢ busy MutexSafety.acquire (halt 0)
mutex_never_panics_example =
    mutex_never_panics (omega arith) mutex_taken.reach 1 MutexSafety.acquire 0

abbrev sharex_taken : Taken SharexCall.sharex_protocol
unfolding Sharex.acquire_sharex_lock
sharex_taken = record {
  state = _;
  reach =
      later
        (later
          (later
            (later
              (later
                (later
                  (later start (turn 0 (omega arith) (enter (SharexCall.acquire writing) refl)))
                  (turn 0 (omega arith) instruction))
                (turn 1 (omega arith) (enter (SharexCall.acquire reading) refl)))
              (turn 1 (omega arith) instruction))
            (turn 0 (omega arith) leave))
          (turn 1 (omega arith) (pass refl)))
        (turn 1 (omega arith) leave);
}

sharex_excludes_example : no_lock ≡ no_lock
unfolding Sharex.acquire_sharex_lock
sharex_excludes_example =
    sharex_excludes (omega arith) sharex_taken.reach 0 1 (omega arith) (omega arith) (omega arith)
      refl no_lock refl

sharex_never_panics_example : sharex_taken.state.cpu 1 ≢ busy (SharexCall.acquire reading) (halt 1)
sharex_never_panics_example =
    sharex_never_panics (omega arith) sharex_taken.reach 1 (SharexCall.acquire reading) 1

abbrev hp_taken : Taken HostCall.host_protocol
unfolding SharexHp.acquire_sharex_lock_hp
hp_taken = record {
  state = _;
  reach =
      later
        (later
          (later
            (later
              (later
                (later
                  (later
                    (later
                      (later start (turn 0 (omega arith) (enter (HostCall.acquire writing) refl)))
                      (turn 0 (omega arith) instruction))
                    (turn 0 (omega arith) (then_case refl)))
                  (turn 0 (omega arith) leave))
                (turn 1 (omega arith) (enter (HostCall.acquire reading) refl)))
              (turn 1 (omega arith) instruction))
            (turn 1 (omega arith) (then_case refl)))
          (turn 1 (omega arith) instruction))
        (turn 1 (omega arith) leave);
}

-- The flag, one failed reader and the exclusive bit.
hp_taken_word : hp_taken.state.word ≡ 7
unfolding SharexHp.acquire_sharex_lock_hp
hp_taken_word = refl

hosts_exclude_example : no_lock ≡ no_lock
unfolding SharexHp.acquire_sharex_lock_hp
hosts_exclude_example =
    hosts_exclude (omega arith) hp_taken.reach 0 1 (omega arith) (omega arith) (omega arith) refl
      no_lock refl

hosts_never_panic_example : hp_taken.state.cpu 1 ≢ busy (HostCall.acquire reading) (halt 11)
hosts_never_panic_example =
    hosts_never_panic (omega arith) hp_taken.reach 1 (HostCall.acquire reading) 11

abbrev sept_taken : Taken SeptCall.sept_protocol
unfolding Sept.sept_lock_acquire_host Sept.sept_lock_acquire_guest
sept_taken = record {
  state = _;
  reach =
      later
        (later
          (later
            (later
              (later
                (later
                  (later
                    (later (later start (turn 0 (omega arith) (enter SeptCall.acquire_guest refl)))
                      (turn 0 (omega arith) instruction))
                    (turn 1 (omega arith) (enter SeptCall.acquire_host refl)))
                  (turn 1 (omega arith) instruction))
                (turn 0 (omega arith) (then_case refl)))
              (turn 0 (omega arith) instruction))
            (turn 0 (omega arith) (else_case refl)))
          (turn 0 (omega arith) leave))
        (turn 1 (omega arith) (else_case refl));
}

sept_lock_excludes_example : no_lock ≡ no_lock
unfolding Sept.sept_lock_acquire_host Sept.sept_lock_acquire_guest
sept_lock_excludes_example =
    sept_lock_excludes (omega arith)
      (later (later sept_taken.reach (turn 1 (omega arith) instruction))
        (turn 1 (omega arith) leave))
      0 1 (omega arith) (omega arith) (omega arith) refl no_lock refl

sept_lock_never_panics_example : sept_taken.state.cpu 1 ≢ busy SeptCall.acquire_host (halt 8)
sept_lock_never_panics_example =
    sept_lock_never_panics (omega arith) sept_taken.reach 1 SeptCall.acquire_host 8

-- Word 3: held exclusively, a host waits.
guest_backoff_wraps_example :
    (t : System mixed_protocol) × Steps mixed_protocol 2 (held 3) t
    × (t.word ≡ 0xFFFE)
    × ((i : ℕ) → t.cpu i ≡ idle no_lock)
    × ((run (SharexHp.acquire_sharex_lock_hp shared false) t.word).0 ≡ halted 11)
guest_backoff_wraps_example = guest_backoff_wraps 3 refl refl

guest_alone :
    run (SharexHp.acquire_sharex_lock_hp shared true) 6 ≡ (done tdx_operand_busy_host_priority, 6)
unfolding SharexHp.acquire_sharex_lock_hp
guest_alone = refl

promote_alone : run Sharex.promote_sharex_lock 2 ≡ (done success, 1)
unfolding Sharex.promote_sharex_lock
promote_alone = refl

promote_shared : run Sharex.promote_sharex_lock 4 ≡ (done fail, 4)
unfolding Sharex.promote_sharex_lock
promote_shared = refl

promote_free_panics : run Sharex.promote_sharex_lock 0 ≡ (halted 6, 0)
unfolding Sharex.promote_sharex_lock
promote_free_panics = refl

host_waits : run Sept.sept_lock_acquire_host (2 ^ 11) ≡ (done tdx_operand_busy, 2 ^ 11 + 2 ^ 52)
unfolding Sept.sept_lock_acquire_host
host_waits = refl
