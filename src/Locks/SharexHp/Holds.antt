-- ===== src/Locks/SharexHp/Holds.antt =====
-- Each host-side function of the host-priority lock, with other processors at the same word.
use tdx_module.Base.{
  false, ℕ, ◌/◌, ◌%◌, ◌<◌, ◌≡◌, bit_or, bit_and, refl, arith, ◌==◌, if◌then◌else◌,
}
use tdx_module.Base.Bits.{or_two, and_two, and_not_two}
use tdx_module.Locks.Types.{no_lock, shared, exclusive, Mode, reading, writing, type_of}
use tdx_module.Locks.Sharing.{Keeps}
use tdx_module.Locks.SharexHp
use tdx_module.Locks.SharexHp.Protocol.{Call, acquire, release, promote, body, before, after}

-- As for the plain lock, at the places of this layout; the flag may stand either way.
pub record Fits (w r x : ℕ) : Type 0 where
  pub word : w < 65536
  pub writers : x ≡ w % 2
  pub counted : w % 2 ≡ 0 → w / 4 ≡ r
  pub alone : w % 2 ≡ 1 → r ≡ 0

-- The counter has 14 bits.
abbrev pub limit : ℕ
limit = 0x3FFF

-- The flag is set and cleared without touching what is held.
Fits-or_two : {w r x : ℕ} → Fits w r x → Fits (bit_or w 2) r x
Fits-or_two {w} f = ground (arith, or_two w)

Fits-and_not_two : {w r x : ℕ} → Fits w r x → Fits (bit_and w 65533) r x
Fits-and_not_two {w} f = ground (arith, and_not_two w)

-- Every host call keeps the word in step with the holds, and ends in the hold that its result says.
pub body-Keeps : (c : Call) → Keeps limit Fits (body c) (λ r h. h ≡ after c r) (before c)
unfolding SharexHp.acquire_sharex_lock_hp SharexHp.release_sharex_lock_hp
    SharexHp.promote_sharex_lock_hp
body-Keeps (acquire reading) = λ w r x lt f. (
  if w % 2 == 0 then shared else no_lock,
  ground arith,
  (
    λ taken w' r' x' lt' f'. (no_lock, ground (arith, Fits-or_two f'), ground arith),
    λ free. (
      λ waited w' r' x' lt' f'. (shared, ground (arith, Fits-and_not_two f'), ground arith),
      λ calm. ground arith,
    ),
  ),
)
body-Keeps (acquire writing) = λ w r x lt f. (
  if w == 0 then exclusive else no_lock,
  ground arith,
  (
    λ free. ground arith,
    λ busy. (
      λ waited. (
        λ guest. cc,
        λ host w' r' x' lt' f'.
            (if w' == 2 then exclusive else no_lock, ground arith, ground arith),
      ),
      λ held. (
        λ guest. cc,
        λ host w' r' x' lt' f'. (no_lock, ground (arith, Fits-or_two f'), ground arith),
      ),
    ),
  ),
)
body-Keeps (release reading) = λ w r x lt f. (no_lock, ground arith, ground arith)
body-Keeps (release writing) = λ w r x lt f.
    (exclusive, f, (ground arith, λ w' r' x' lt' f'. (no_lock, ground (arith, and_two w'), refl)))
body-Keeps promote = λ w r x lt f. (
  if w == 4 then exclusive else shared,
  ground arith,
  (
    ground arith,
    (
      λ alone. ground arith,
      λ others. (
        λ waited w' r' x' lt' f'.
            (if w' == 6 then exclusive else shared, ground arith, (ground arith, ground arith)),
        λ many w' r' x' lt' f'. (shared, ground (arith, Fits-or_two f'), ground arith),
      ),
    ),
  ),
)

-- The two functions that are called by themselves.
pub acquire-Keeps :
    (m : Mode)
    → Keeps limit Fits
        (SharexHp.acquire_sharex_lock_hp (type_of m) false)
        (λ r h. h ≡ after (acquire m) r)
        no_lock
acquire-Keeps m = body-Keeps (acquire m)

pub release-Keeps :
    (m : Mode)
    → Keeps limit Fits
        (SharexHp.release_sharex_lock_hp (type_of m))
        (λ _ h. h ≡ no_lock)
        (type_of m)
unfolding SharexHp.release_sharex_lock_hp
release-Keeps reading = λ w r x lt f. (no_lock, ground arith, ground arith)
release-Keeps writing = λ w r x lt f.
    (exclusive, f, (ground arith, λ w' r' x' lt' f'. (no_lock, ground (arith, and_two w'), refl)))
