-- ===== src/Locks/Sharex/Holds.antt =====
-- Each function of the shared/exclusive lock, with other processors at the same word.
use tdx_module.Base.{ℕ, ◌/◌, ◌%◌, ◌<◌, ◌≡◌, arith, ◌==◌, if◌then◌else◌}
use tdx_module.Locks.Types.{no_lock, shared, exclusive, reading, writing}
use tdx_module.Locks.Sharing.{Keeps}
use tdx_module.Locks.Sharex
use tdx_module.Locks.Sharex.Protocol.{Call, acquire, release, promote, demote, body, before, after}

-- The exclusive bit is the number of writers. While it is clear, the counter is the number of
-- readers; while it is set there is no reader, and the counter holds what failed readers added.
pub record Fits (w r x : ℕ) : Type 0 where
  pub word : w < 65536
  pub writers : x ≡ w % 2
  pub counted : w % 2 ≡ 0 → w / 2 ≡ r
  pub alone : w % 2 ≡ 1 → r ≡ 0

-- The counter has 15 bits.
abbrev pub limit : ℕ
limit = 0x7FFF

-- Every call keeps the word in step with the holds, and ends in the hold that its result says.
pub body-Keeps : (c : Call) → Keeps limit Fits (body c) (λ r h. h ≡ after c r) (before c)
unfolding Sharex.acquire_sharex_lock Sharex.release_sharex_lock Sharex.promote_sharex_lock
    Sharex.demote_sharex_lock
body-Keeps (acquire reading) =
    λ w r x lt f. (if w % 2 == 0 then shared else no_lock, ground arith, ground arith)
body-Keeps (acquire writing) =
    λ w r x lt f. (if w == 0 then exclusive else no_lock, ground arith, ground arith)
body-Keeps (release reading) = λ w r x lt f. (no_lock, ground arith, ground arith)
body-Keeps (release writing) = λ w r x lt f. (no_lock, ground arith, ground arith)
body-Keeps promote =
    λ w r x lt f. (if w == 2 then exclusive else shared, ground arith, ground arith)
body-Keeps demote = λ w r x lt f. (shared, ground arith, ground arith)
