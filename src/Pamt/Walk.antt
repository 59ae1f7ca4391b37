-- ===== src/Pamt/Walk.antt =====
-- src/common/memory_handlers/pamt_manager.c: the walk to a leaf entry and back.
pub mod Holds
pub mod Leaf
pub mod Returns
pub mod Stable
pub mod Unwalks
use tdx_module.Base.{ℕ, Bool, true, false, ◌||◌, Option, none, some, if◌then◌else◌}
use tdx_module.ErrorCodes.{ApiErrorCode, tdx_success, is_success}
use tdx_module.Locks.Types.{LockType, shared, exclusive}
use tdx_module.Locks.SharexHp.{
  acquire_sharex_lock_hp, release_sharex_lock_hp, release_sharex_lock_hp_sh, promote_sharex_lock_hp,
}
use tdx_module.Pamt.State.{
  PageType, pt_reg, PageSize, pt_4kb, pt_2mb, pt_1gb, PamtBlock, PamtEntry, M, ◌>>=◌, ◌>>◌, pure,
  read_entry, at_lock, elem,
}
use tdx_module.Pamt.Block.{idx_2m, idx_4k}

abbrev pub is_exclusive : LockType → Bool
is_exclusive exclusive = true
is_exclusive _ = false

abbrev pub is_reg : PageType → Bool
is_reg pt_reg = true
is_reg _ = false

abbrev pub is_size : PageSize → PageSize → Bool
is_size pt_4kb pt_4kb = true
is_size pt_2mb pt_2mb = true
is_size pt_1gb pt_1gb = true
is_size _ _ = false

-- The return value, and what the caller finds in `*leaf_size` and `*pamt_entry`.
pub record WalkResult : Type 0 where
  pub code : ApiErrorCode
  pub leaf_size : PageSize
  pub pamt_entry : Option ℕ

-- The entries of an address at the three levels.
pub record Path3 : Type 0 where
  pub p_1gb : ℕ
  pub p_2mb : ℕ
  pub p_4kb : ℕ

abbrev pub entries_of : PamtBlock → ℕ → Path3
entries_of b pa = record {
  p_1gb = b.pamt_1gb_p;
  p_2mb = elem b.pamt_2mb_p (idx_2m pa);
  p_4kb = elem b.pamt_4kb_p (idx_4k pa);
}

module _ (w : Path3) (leaf_lock_type : LockType) (target leaf_size : PageSize)
    (is_guest : Bool) where
  abbrev failed : ApiErrorCode → M WalkResult
  failed code = pure (record { code = code; leaf_size = leaf_size; pamt_entry = none })

  abbrev arrived : PageSize → ℕ → M WalkResult
  arrived size p = pure (record { code = tdx_success; leaf_size = size; pamt_entry = some p })

  -- EXIT_FAILURE_RELEASE_ROOT and EXIT_FAILURE_RELEASE_ALL.
  unfoldable pub release_root : ApiErrorCode → M WalkResult
  release_root code = do at_lock w.p_1gb release_sharex_lock_hp_sh; failed code

  unfoldable pub release_all : ApiErrorCode → M WalkResult
  unfolding release_root
  release_all code = do at_lock w.p_2mb release_sharex_lock_hp_sh; release_root code

  -- A leaf above the last level: its shared lock is promoted where an exclusive one is asked for.
  unfoldable pub leaf_at : PageSize → ℕ → (ApiErrorCode → M WalkResult) → M WalkResult
  leaf_at size p give_up =
      if is_exclusive leaf_lock_type
      then (do
        retval ← at_lock p promote_sharex_lock_hp
        if is_success retval then arrived size p else give_up retval)
      else arrived size p

  unfoldable pub walk_4kb : M WalkResult
  unfolding release_all
  walk_4kb = do
    retval ← at_lock w.p_4kb (acquire_sharex_lock_hp leaf_lock_type is_guest)
    if is_success retval then arrived pt_4kb w.p_4kb else release_all retval

  -- With the entry of this level held shared.
  unfoldable pub down_from_2mb : ApiErrorCode → PamtEntry → M WalkResult
  unfolding leaf_at walk_4kb release_all
  down_from_2mb retval entry =
      if is_success retval
      then (if is_reg entry.pt || is_size target pt_2mb
          then leaf_at pt_2mb w.p_2mb release_all
          else walk_4kb)
      else release_root retval

  unfoldable pub walk_2mb : M WalkResult
  unfolding down_from_2mb
  walk_2mb = do
    retval ← at_lock w.p_2mb (acquire_sharex_lock_hp shared is_guest)
    entry ← read_entry w.p_2mb
    down_from_2mb retval entry

  -- With the entry of this level held shared.
  unfoldable pub down_from_1gb : ApiErrorCode → PamtEntry → M WalkResult
  unfolding leaf_at walk_2mb release_root
  down_from_1gb retval entry =
      if is_success retval
      then (if is_reg entry.pt || is_size target pt_1gb
          then leaf_at pt_1gb w.p_1gb release_root
          else walk_2mb)
      else failed retval

  unfoldable pub walk_1gb : M WalkResult
  unfolding down_from_1gb
  walk_1gb = do
    retval ← at_lock w.p_1gb (acquire_sharex_lock_hp shared is_guest)
    entry ← read_entry w.p_1gb
    down_from_1gb retval entry

unfoldable pub pamt_walk : ℕ → PamtBlock → LockType → PageSize → Bool → Bool → M WalkResult
unfolding walk_1gb
pamt_walk pa b leaf_lock_type leaf_size walk_to_leaf_size is_guest =
    walk_1gb (entries_of b pa) leaf_lock_type (if walk_to_leaf_size then leaf_size else pt_4kb)
      leaf_size is_guest

unfoldable pub unwalk_from : Path3 → LockType → PageSize → M (Unit {0})
unwalk_from w leaf_lock_type pt_4kb = do
  at_lock w.p_4kb (release_sharex_lock_hp leaf_lock_type)
  at_lock w.p_2mb release_sharex_lock_hp_sh
  at_lock w.p_1gb release_sharex_lock_hp_sh
unwalk_from w leaf_lock_type pt_2mb = do
  at_lock w.p_2mb (release_sharex_lock_hp leaf_lock_type)
  at_lock w.p_1gb release_sharex_lock_hp_sh
unwalk_from w leaf_lock_type pt_1gb = do at_lock w.p_1gb (release_sharex_lock_hp leaf_lock_type)

unfoldable pub pamt_unwalk : ℕ → PamtBlock → LockType → PageSize → M (Unit {0})
unfolding unwalk_from
pamt_unwalk pa b leaf_lock_type leaf_size = unwalk_from (entries_of b pa) leaf_lock_type leaf_size
