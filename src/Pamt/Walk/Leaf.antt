-- ===== src/Pamt/Walk/Leaf.antt =====
-- The entry that a walk stops at.
use tdx_module.Base.{ℕ, ◌≡◌, ◌⊎◌, true, false, ◌||◌, inl, inr, Bool-cases}
use tdx_module.ErrorCodes.{ApiErrorCode}
use tdx_module.Locks.Types.{LockType}
use tdx_module.Locks.SharexHp as SharexHp
use tdx_module.Pamt.State.{PageType, pt_reg, PageSize, pt_4kb, pt_2mb, pt_1gb, Mem, ok, at_lock}
use tdx_module.Pamt.Same.{reg_type, same_size, is_size-same}
use tdx_module.Pamt.Walk.{Path3, is_reg, is_size}
use tdx_module.Pamt.Walk.Stable.{at_lock-Stable, returned-SameTypes}

-- A walk to `target` stops at an entry of the level if it is of a regular page or the level asked for.
abbrev pub Stops : PageType → PageSize → PageSize → Type 0
Stops pt target level = (pt ≡ pt_reg) ⊎ (target ≡ level)

-- In the table `m`, the walk stops at the entry of this level and at none above.
abbrev pub IsLeaf : Mem → Path3 → PageSize → PageSize → Type 0
IsLeaf m w target pt_1gb = Stops (m w.p_1gb).pt target pt_1gb
IsLeaf m w target pt_2mb = ¬ Stops (m w.p_1gb).pt target pt_1gb × Stops (m w.p_2mb).pt target pt_2mb
IsLeaf m w target pt_4kb =
    ¬ Stops (m w.p_1gb).pt target pt_1gb × ¬ Stops (m w.p_2mb).pt target pt_2mb

pub is_reg-Stops :
    (pt : PageType) (target level : PageSize)
    → (is_reg pt || is_size target level) ≡ true
    → Stops pt target level
is_reg-Stops pt target level h = elim (Bool-cases (is_reg pt)) [
  | inl e ↦ inl (reg_type pt e)
  | inr e ↦ inr (same_size target level (rw e at h))
]

pub goes_on :
    (pt : PageType) (target level : PageSize)
    → (is_reg pt || is_size target level) ≡ false
    → ¬ Stops pt target level
goes_on pt target level h (inl e) = cc (rw e at h)
goes_on pt target level h (inr e) = elim (Bool-cases (is_reg pt)) [
  | inl r ↦ cc (rw r at h)
  | inr r ↦ cc (rw (r, e, is_size-same level) at h)
]

-- Taking a lock changes no type.
pub locked_type :
    (m : Mem) {m' : Mem} {r : ApiErrorCode} (p q : ℕ) (t : LockType)
    → at_lock p (SharexHp.acquire_sharex_lock_hp t false) m ≡ ok r m'
    → (m' q).pt ≡ (m q).pt
locked_type m p q t returns =
    returned-SameTypes (at_lock p (SharexHp.acquire_sharex_lock_hp t false)) m
      (at_lock-Stable p (SharexHp.acquire_sharex_lock_hp t false)) returns q
