-- ===== src/Pamt/Resize.antt =====
-- src/common/memory_handlers/pamt_manager.c: merging 512 leaf entries into one, and splitting one.
pub mod Filled
pub mod Demoted
pub mod Promoted
use tdx_module.Base.{
  ℕ, zero, suc, ◌+◌, ◌*◌, ◌%◌, ◌^◌, Bool, true, false, not, ◌&&◌, List, ◌==◌, if◌then◌else◌,
}
use tdx_module.ErrorCodes.{ApiErrorCode, tdx_success, is_success}
use tdx_module.Locks.SharexHp.{acquire_sharex_lock_hp_ex, release_sharex_lock_hp_ex}
use tdx_module.Pamt.State.{
  PageType, pt_nda, pt_rsvd, pt_reg, pt_tdr, pt_tdcx, pt_tdvpr, pt_ept, PageSize, pt_4kb, pt_2mb,
  pt_1gb, PamtBlock, PamtEntry, TdmrEntry, M, ◌>>=◌, ◌>>◌, pure, fatal, halted, read_entry,
  write_entry, sanity_check, at_lock, elem,
}
use tdx_module.Pamt.Block.{
  BlockResult, found, not_found, check_failed, pamt_get_block, idx_2m, idx_4k,
}
use tdx_module.Pamt.Walk.{is_reg}

abbrev pub code_of : PageType → ℕ
code_of pt_nda = 0
code_of pt_rsvd = 1
code_of pt_reg = 3
code_of pt_tdr = 4
code_of pt_tdcx = 5
code_of pt_tdvpr = 6
code_of pt_ept = 8

abbrev pub is_type : PageType → PageType → Bool
is_type s t = code_of s == code_of t

-- `for (i = start; i < start + n; i++)`.
unfoldable pub for_up : ℕ → ℕ → (ℕ → M (Unit {0})) → M (Unit {0})
for_up start zero body = pure tt
for_up start (suc n) body = do body start; for_up (suc start) n body

abbrev pub pamt_entries_in_page : ℕ
pamt_entries_in_page = 256

abbrev pub pamt_pages : ℕ
pamt_pages = 2

-- The pages of the children, and the entries of each page.
unfoldable pub for_children : ℕ → (ℕ → ℕ → ℕ → M (Unit {0})) → M (Unit {0})
unfolding for_up
for_children children body = for_up 0 pamt_pages (λ i.
    for_up 0 pamt_entries_in_page
      (λ j. body i j (elem (elem children (pamt_entries_in_page * i)) j)))

-- A child that is like the new leaf is no leaf any more.
unfoldable pub merge_child : ℕ → ℕ → M (Unit {0})
merge_child promoted p = do
  leaf ← read_entry promoted
  child ← read_entry p
  sanity_check (is_type leaf.pt child.pt && (leaf.owner == child.owner)) 6
  write_entry p (record child { pt = pt_nda })

-- One child of the merge; the first one gives the new leaf its type and owner.
unfoldable pub promote_child : ℕ → ℕ → ℕ → ℕ → ℕ → M (Unit {0})
promote_child promoted children i j p = do
  first ← read_entry p
  parent ← read_entry promoted
  if i == 0 && j == 0
      then write_entry promoted (record parent { pt = first.pt; owner = first.owner })
      else pure tt
  merge_child promoted p

unfoldable pub promote_entry : ℕ → ℕ → M ApiErrorCode
promote_entry promoted children = do
  entry ← read_entry promoted
  sanity_check (is_type entry.pt pt_nda) 4
  retval ← at_lock promoted (acquire_sharex_lock_hp_ex false)
  if is_success retval
      then (do
        sanity_check (children % 4096 == 0) 5
        for_children children (promote_child promoted children)
        at_lock promoted release_sharex_lock_hp_ex
        pure tdx_success)
      else pure retval

unfoldable pub demote_child : ℕ → ℕ → ℕ → ℕ → M (Unit {0})
demote_child demoted i j p = do
  parent ← read_entry demoted
  child ← read_entry p
  write_entry p (record child { pt = parent.pt; owner = parent.owner; bepoch = 0 })

unfoldable pub demote_entry : ℕ → ℕ → M ApiErrorCode
demote_entry demoted children = do
  entry ← read_entry demoted
  sanity_check (is_reg entry.pt) 8
  retval ← at_lock demoted (acquire_sharex_lock_hp_ex false)
  if is_success retval
      then (do
        sanity_check (children % 4096 == 0) 9
        for_children children (demote_child demoted)
        parent ← read_entry demoted
        write_entry demoted (record parent { pt = pt_nda })
        at_lock demoted release_sharex_lock_hp_ex
        pure tdx_success)
      else pure retval

-- The entry of the page and the first of its children, in the block that was found.
abbrev at_block : BlockResult → ℕ → PageSize → ℕ → (ℕ → ℕ → M ApiErrorCode) → M ApiErrorCode
at_block (found b) pa pt_2mb id resize =
    resize (elem b.pamt_2mb_p (idx_2m pa)) (elem b.pamt_4kb_p (idx_4k pa))
at_block (found b) pa pt_1gb id resize = resize b.pamt_1gb_p (elem b.pamt_2mb_p (idx_2m pa))
at_block (found b) pa pt_4kb id resize = λ m. halted id
at_block not_found pa pt_4kb id resize = λ m. halted id
at_block not_found pa pt_2mb id resize = λ m. fatal
at_block not_found pa pt_1gb id resize = λ m. fatal
at_block check_failed pa pt_4kb id resize = λ m. halted id
at_block check_failed pa pt_2mb id resize = λ m. halted 0
at_block check_failed pa pt_1gb id resize = λ m. halted 0

unfoldable pub pamt_promote : List TdmrEntry → ℕ → ℕ → PageSize → M ApiErrorCode
unfolding promote_entry
pamt_promote tdmr_table hkid_mask pa new_leaf_size =
    at_block (pamt_get_block tdmr_table hkid_mask pa) pa new_leaf_size 3 promote_entry

unfoldable pub pamt_demote : List TdmrEntry → ℕ → ℕ → PageSize → M ApiErrorCode
unfolding demote_entry
pamt_demote tdmr_table hkid_mask pa leaf_size =
    at_block (pamt_get_block tdmr_table hkid_mask pa) pa leaf_size 7 demote_entry
