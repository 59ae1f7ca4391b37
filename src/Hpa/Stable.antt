-- ===== src/Hpa/Stable.antt =====
-- The types of pages under the check of a page.
use tdx_module.Base.{ℕ, Bool, Option, none, some}
use tdx_module.Locks.Types.{LockType}
use tdx_module.Pamt.State.{PageType, PageSize, PamtBlock, PamtEntry}
use tdx_module.Pamt.Block.{BlockResult, found, not_found, check_failed}
use tdx_module.Pamt.Walk.{WalkResult}
use tdx_module.Pamt.Walk.Stable.{Stable, stable, pamt_walk-Stable, pamt_unwalk-Stable}
use tdx_module.Hpa.{Global}
use tdx_module.Hpa.Lock
use tdx_module.Hpa.Lock.{LockedHpa}
use tdx_module.Base.{refl}

module _ (hpa : ℕ) (t : LockType) (expected_pt : PageType) (requested : PageSize)
    (to_leaf : Bool) where
  entry-Stable :
      (b : PamtBlock) (r : WalkResult) (p : ℕ) (entry : PamtEntry)
      → Stable (Lock.checked_entry hpa b t expected_pt requested to_leaf r p entry)
  unfolding Lock.checked_entry Lock.unwalk_and_refuse
  entry-Stable b r p entry = search (stable, pamt_unwalk-Stable)

  entry_or_halt-Stable :
      (b : PamtBlock) (r : WalkResult) (p : Option ℕ)
      → Stable (Lock.entry_or_halt p (Lock.checked_at hpa b t expected_pt requested to_leaf r))
  unfolding Lock.checked_at
  entry_or_halt-Stable b r none = λ m q. refl
  entry_or_halt-Stable b r (some p) = search (stable, entry-Stable)

  block-Stable :
      (lookup : BlockResult) (is_guest : Bool)
      → Stable (Lock.non_shared_in_block lookup hpa t expected_pt requested to_leaf is_guest)
  unfolding Lock.non_shared_in_block Lock.checked_walk
  block-Stable not_found is_guest = λ m q. refl
  block-Stable check_failed is_guest = λ m q. refl
  block-Stable (found b) is_guest = search (stable, pamt_walk-Stable, entry_or_halt-Stable)

pub page-Stable :
    (g : Global) (hpa operand_id alignment : ℕ) (t : LockType) (expected_pt : PageType)
    (requested : PageSize) (to_leaf : Bool)
    → Stable (
        Lock.check_and_lock_explicit_private_hpa g hpa operand_id alignment t expected_pt requested
          to_leaf)
unfolding Lock.check_and_lock_explicit_private_hpa Lock.non_shared_hpa_metadata_check_and_lock
page-Stable g hpa operand_id alignment t expected_pt requested to_leaf =
    search (stable, block-Stable)
