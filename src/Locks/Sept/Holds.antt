-- ===== src/Locks/Sept/Holds.antt =====
-- Each function of the SEPT entry lock, with other processors at the same entry.
use tdx_module.Base.{ℕ, ◌^◌, ◌<◌, ◌≡◌, refl, arith, ◌==◌, if◌then◌else◌}
use tdx_module.Locks.Types.{no_lock, exclusive}
use tdx_module.Locks.Atomic.{bit_of, perform, bts_64b, btr_64b}
use tdx_module.Locks.Sharing.{Keeps}
use tdx_module.Locks.Sept
use tdx_module.Locks.Sept.Protocol.{Call, acquire_host, acquire_guest, release, body, before, after}

-- The lock bit is the number of holders, and nobody holds the entry shared.
pub record Fits (w r x : ℕ) : Type 0 where
  pub word : w < 2 ^ 64
  pub writers : x ≡ bit_of 11 w
  pub no_readers : r ≡ 0

-- Any number of processors: no counter can overflow.
abbrev pub limit : ℕ
limit = 2 ^ 64

-- The host-priority bit is set and cleared without touching the lock bit.
Fits-bts_hp : {w r x : ℕ} → Fits w r x → Fits (perform (bts_64b 52) w) r x
Fits-bts_hp {w} f = ground arith

Fits-btr_hp : {w r x : ℕ} → Fits w r x → Fits (perform (btr_64b 52) w) r x
Fits-btr_hp {w} f = ground arith

-- Every call keeps the lock bit in step with the holds, and ends in the hold that its result says.
pub body-Keeps : (c : Call) → Keeps limit Fits (body c) (λ r h. h ≡ after c r) (before c)
unfolding Sept.sept_lock_acquire_host Sept.sept_lock_acquire_guest Sept.sept_lock_release
body-Keeps acquire_host = λ w r x lt f. (
  if bit_of 11 w == 0 then exclusive else no_lock,
  ground arith,
  (
    λ free w' r' x' lt' f'. (exclusive, ground (arith, Fits-btr_hp f'), ground arith),
    λ taken w' r' x' lt' f'. (no_lock, ground (arith, Fits-bts_hp f'), ground arith),
  ),
)
body-Keeps acquire_guest = λ w r x lt f. (
  if bit_of 11 w == 0 then exclusive else no_lock,
  ground arith,
  (
    λ free w' r' x' lt' f'. (
      exclusive,
      ground arith,
      (λ waited w'' r'' x'' lt'' f''. (no_lock, ground arith, refl), λ calm. refl),
    ),
    λ taken. ground arith,
  ),
)
body-Keeps release = λ w r x lt f.
    (exclusive, ground arith, (ground arith, λ w' r' x' lt' f'. (no_lock, ground arith, refl)))
