-- ===== src/Hpa/Lock.antt =====
-- src/common/helpers/helpers.c: the check of a page that a caller gives, which locks its metadata entry.
use tdx_module.Base.{ℕ, Bool, true, false, not, ◌&&◌, Option, none, some, if◌then◌else◌}
use tdx_module.ErrorCodes.{
  ApiErrorCode, tdx_success, tdx_operand_invalid, tdx_operand_addr_range_error,
  tdx_page_metadata_incorrect, is_success, ApiErrorType, plain, api_error_with_operand_id,
  is_tdx_success,
}
use tdx_module.Locks.Types.{LockType}
use tdx_module.Pamt.State.{
  PageType, pt_nda, PageSize, pt_4kb, pt_2mb, PamtBlock, PamtEntry, M, ◌>>=◌, ◌>>◌, pure, halted,
  read_entry,
}
use tdx_module.Pamt.Block.{BlockResult, found, not_found, check_failed, pamt_get_block}
use tdx_module.Pamt.Walk.{WalkResult, is_size, pamt_walk, pamt_unwalk}
use tdx_module.Pamt.Resize.{is_type}
use tdx_module.Pamt.Implicit.{pamt_is_2mb_range_free}
use tdx_module.Hpa.{Global, hpa_check_with_pwr_2_alignment}

-- The return value, and what the caller finds in `*pamt_block`, `*pamt_entry` and `*leaf_size`.
pub record Checked : Type 0 where
  pub code : ApiErrorCode
  pub leaf_size : PageSize
  pub pamt_entry : Option ℕ

abbrev pub refuse : ApiErrorCode → PageSize → M Checked
refuse code leaf_size = pure (record { code = code; leaf_size = leaf_size; pamt_entry = none })

unfoldable pub unwalk_and_refuse : ℕ → PamtBlock → LockType → PageSize → M Checked
unwalk_and_refuse hpa b lock_type leaf_size = do
  pamt_unwalk hpa b lock_type leaf_size
  refuse tdx_page_metadata_incorrect leaf_size

-- With the entry that the walk found.
unfoldable pub checked_entry :
    ℕ → PamtBlock → LockType → PageType → PageSize → Bool → WalkResult → ℕ → PamtEntry → M Checked
checked_entry hpa b lock_type expected_pt requested walk_to_leaf_size r p entry =
    if walk_to_leaf_size && not (is_size requested r.leaf_size)
    then unwalk_and_refuse hpa b lock_type r.leaf_size
    else (if is_type entry.pt expected_pt
        then pure (record { code = tdx_success; leaf_size = r.leaf_size; pamt_entry = some p })
        else unwalk_and_refuse hpa b lock_type r.leaf_size)

unfoldable pub checked_at :
    ℕ → PamtBlock → LockType → PageType → PageSize → Bool → WalkResult → ℕ → M Checked
checked_at hpa b lock_type expected_pt requested walk_to_leaf_size r p =
    read_entry p >>= checked_entry hpa b lock_type expected_pt requested walk_to_leaf_size r p

-- A walk that succeeds has set its entry.
abbrev pub entry_or_halt : Option ℕ → (ℕ → M Checked) → M Checked
entry_or_halt none k = λ m. halted 0
entry_or_halt (some p) k = k p

-- With what the walk returns.
unfoldable pub checked_walk :
    ℕ → PamtBlock → LockType → PageType → PageSize → Bool → WalkResult → M Checked
checked_walk hpa b lock_type expected_pt requested walk_to_leaf_size r =
    if is_success r.code
    then entry_or_halt r.pamt_entry
        (checked_at hpa b lock_type expected_pt requested walk_to_leaf_size r)
    else refuse r.code r.leaf_size

unfoldable pub non_shared_in_block :
    BlockResult → ℕ → LockType → PageType → PageSize → Bool → Bool → M Checked
unfolding checked_walk
non_shared_in_block not_found hpa lock_type expected_pt leaf_size walk_to_leaf_size is_guest =
    refuse tdx_operand_addr_range_error leaf_size
non_shared_in_block check_failed hpa lock_type expected_pt leaf_size walk_to_leaf_size is_guest =
    λ m. halted 0
non_shared_in_block (found b) hpa lock_type expected_pt leaf_size walk_to_leaf_size is_guest = do
  r ← pamt_walk hpa b lock_type leaf_size walk_to_leaf_size is_guest
  checked_walk hpa b lock_type expected_pt leaf_size walk_to_leaf_size r

unfoldable pub non_shared_hpa_metadata_check_and_lock :
    Global → ℕ → LockType → PageType → PageSize → Bool → Bool → M Checked
unfolding non_shared_in_block
non_shared_hpa_metadata_check_and_lock g hpa lock_type expected_pt leaf_size walk_to_leaf_size
      is_guest =
    non_shared_in_block (pamt_get_block g.tdmr_table g.hkid_mask hpa) hpa lock_type expected_pt
      leaf_size walk_to_leaf_size is_guest

-- The return value, and what the caller finds in `*is_locked`, `*pamt_entry` and `*leaf_size`.
pub record LockedHpa : Type 0 where
  pub code : ApiErrorType
  pub leaf_size : PageSize
  pub pamt_entry : Option ℕ
  pub is_locked : Bool

-- With what the check of the metadata returns.
abbrev pub locked_of : ℕ → Checked → LockedHpa
locked_of operand_id c = record {
  code =
      if is_success c.code then plain tdx_success else api_error_with_operand_id c.code operand_id;
  leaf_size = c.leaf_size;
  pamt_entry = c.pamt_entry;
  is_locked = is_success c.code;
}

unfoldable pub check_and_lock_explicit_private_hpa :
    Global → ℕ → ℕ → ℕ → LockType → PageType → PageSize → Bool → M LockedHpa
check_and_lock_explicit_private_hpa g hpa operand_id alignment lock_type expected_pt leaf_size
      walk_to_leaf_size =
    if is_success (hpa_check_with_pwr_2_alignment g hpa alignment)
    then (do
      c ←
          non_shared_hpa_metadata_check_and_lock g hpa lock_type expected_pt leaf_size
            walk_to_leaf_size false
      pure (locked_of operand_id c))
    else pure (record {
      code = api_error_with_operand_id tdx_operand_invalid operand_id;
      leaf_size = leaf_size;
      pamt_entry = none;
      is_locked = false;
    })

unfoldable pub check_and_lock_explicit_4k_private_hpa :
    Global → ℕ → ℕ → LockType → PageType → M LockedHpa
check_and_lock_explicit_4k_private_hpa g hpa operand_id lock_type expected_pt =
    check_and_lock_explicit_private_hpa g hpa operand_id 4096 lock_type expected_pt pt_4kb true

-- With the answer of the test that the 2MB are free.
unfoldable pub free_range_answer : PamtBlock → ℕ → ℕ → LockType → LockedHpa → Bool → M LockedHpa
free_range_answer b hpa operand_id lock_type r free = if free then pure r else (do
  pamt_unwalk hpa b lock_type r.leaf_size
  pure (record r {
    code = api_error_with_operand_id tdx_page_metadata_incorrect operand_id;
    is_locked = false;
  }))

-- The walk has found the block.
unfoldable pub free_range_in_block : BlockResult → ℕ → ℕ → LockType → LockedHpa → M LockedHpa
free_range_in_block (found b) hpa operand_id lock_type r =
    pamt_is_2mb_range_free hpa b >>= free_range_answer b hpa operand_id lock_type r
free_range_in_block not_found hpa operand_id lock_type r = λ m. halted 0
free_range_in_block check_failed hpa operand_id lock_type r = λ m. halted 0

unfoldable pub free_range_checked : Global → ℕ → ℕ → LockType → PageSize → LockedHpa → M LockedHpa
free_range_checked g hpa operand_id lock_type range_size r =
    if is_tdx_success r.code && is_size range_size pt_2mb
    then free_range_in_block (pamt_get_block g.tdmr_table g.hkid_mask hpa) hpa operand_id lock_type
        r
    else pure r

unfoldable pub check_and_lock_free_range_hpa : Global → ℕ → ℕ → LockType → PageSize → M LockedHpa
check_and_lock_free_range_hpa g hpa operand_id lock_type range_size =
    check_and_lock_explicit_private_hpa g hpa operand_id
      (if is_size range_size pt_2mb then 0x200000 else 4096) lock_type pt_nda range_size true
    >>= free_range_checked g hpa operand_id lock_type range_size
