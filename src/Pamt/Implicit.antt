-- ===== src/Pamt/Implicit.antt =====
-- src/common/memory_handlers/pamt_manager.c: an entry that is taken without a walk, and the test
-- that a range of 2MB is free.
pub mod RangeFree
use tdx_module.Base.{
  ℕ, zero, suc, ◌+◌, ◌*◌, ◌-◌, ◌%◌, ◌<◌, ◌≡◌, ◌↔◌, refl, ap, ◌∙◌, arith, Bool, true, false, not,
  ◌&&◌, List, Option, none, some, ◌==◌, if◌then◌else◌, inl, inr, Bool-cases,
}
use tdx_module.ErrorCodes.{ApiErrorCode, is_success}
use tdx_module.Locks.Types.{LockType}
use tdx_module.Locks.SharexHp.{acquire_sharex_lock_hp, release_sharex_lock_hp}
use tdx_module.Pamt.State.{
  pt_nda, pt_rsvd, PageSize, pt_4kb, pt_2mb, pt_1gb, PamtBlock, TdmrEntry, Mem, M, ok, ◌>>=◌, ◌>>◌,
  pure, fatal, halted, read_entry, sanity_check, at_lock, elem,
}
use tdx_module.Pamt.Block.{
  BlockResult, found, not_found, check_failed, pamt_get_block, idx_2m, idx_4k,
}
use tdx_module.Pamt.Resize.{is_type, pamt_entries_in_page, pamt_pages}

-- The level is checked again by no one: the three levels are all there are.
abbrev pub level_entry : PamtBlock → ℕ → PageSize → ℕ
level_entry b pa pt_1gb = b.pamt_1gb_p
level_entry b pa pt_2mb = elem b.pamt_2mb_p (idx_2m pa)
level_entry b pa pt_4kb = elem b.pamt_4kb_p (idx_4k pa)

unfoldable pub implicit_entry : BlockResult → ℕ → PageSize → M ℕ
implicit_entry (found b) pa leaf_size = do
  entry ← read_entry (level_entry b pa leaf_size)
  sanity_check (not (is_type entry.pt pt_nda) && not (is_type entry.pt pt_rsvd)) 10
  pure (level_entry b pa leaf_size)
implicit_entry not_found pa leaf_size = λ m. fatal
implicit_entry check_failed pa leaf_size = λ m. halted 0

unfoldable pub pamt_implicit_get : List TdmrEntry → ℕ → ℕ → PageSize → M ℕ
unfolding implicit_entry
pamt_implicit_get tdmr_table hkid_mask pa leaf_size =
    implicit_entry (pamt_get_block tdmr_table hkid_mask pa) pa leaf_size

-- The return value and `*pamt_entry`.
unfoldable pub pamt_implicit_get_and_lock :
    List TdmrEntry → ℕ → ℕ → PageSize → LockType → M (ApiErrorCode × Option ℕ)
pamt_implicit_get_and_lock tdmr_table hkid_mask pa leaf_size leaf_lock_type = do
  tmp_pamt_entry ← pamt_implicit_get tdmr_table hkid_mask pa leaf_size
  errc ← at_lock tmp_pamt_entry (acquire_sharex_lock_hp leaf_lock_type false)
  pure (errc, if is_success errc then some tmp_pamt_entry else none)

unfoldable pub pamt_implicit_release_lock : ℕ → LockType → M (Unit {0})
pamt_implicit_release_lock pamt_entry leaf_lock_type =
    at_lock pamt_entry (release_sharex_lock_hp leaf_lock_type)

-- The two loops over `n` entries from index `j` of a page and over `n` pages from page `i`; both
-- are left at the first entry that is assigned.
unfoldable pub page_is_free : ℕ → ℕ → ℕ → Mem → Bool
page_is_free page j zero m = true
page_is_free page j (suc n) m =
    let rest = page_is_free page (suc j) n m in
    if not (is_type (m (elem page j)).pt pt_nda) then false else rest

unfoldable pub pages_are_free : ℕ → ℕ → ℕ → Mem → Bool
unfolding page_is_free
pages_are_free children i zero m = true
pages_are_free children i (suc n) m =
    let rest = pages_are_free children (suc i) n m in
    if page_is_free (elem children (pamt_entries_in_page * i)) 0 pamt_entries_in_page m
    then rest
    else false

unfoldable pub pamt_is_2mb_range_free : ℕ → PamtBlock → M Bool
pamt_is_2mb_range_free hpa b = do
  sanity_check (elem b.pamt_4kb_p (idx_4k hpa) % 4096 == 0) 3
  λ m. ok (pages_are_free (elem b.pamt_4kb_p (idx_4k hpa)) 0 pamt_pages m) m
