-- ===== src/Sept/State.antt =====
-- src/common/memory_handlers/sept_manager.h, src/common/memory_handlers/sept_manager.c: the states
-- of an L1 entry. A setter is the value that it stores in one 64-bit write.
pub mod Moves
pub mod Leaf
use tdx_module.Base.{ℕ, ◌*◌, ◌/◌, ◌%◌, ◌^◌, Bool, true, false, ◌||◌, ◌&&◌, ◌==◌, if◌then◌else◌}
use tdx_module.Sept.Entry.{
  Septe, SeptState, encoding, encoding_of, enc_bit, free, removed, nl_mapped, nl_blocked, mapped,
  blocked, blockedw, exported_blockedw, exported_dirty, pending, pending_blocked,
  pending_exported_dirty,
}
use tdx_module.Sept.Flags.{sept_state_is_any_pending_and_guest_acceptable}

abbrev is_state : Septe → SeptState → Bool
is_state e s = encoding_of e == encoding s

-- Comparisons under the masks without D and without TDP.
abbrev is_state_but_d : Septe → SeptState → Bool
is_state_but_d e s = encoding_of (record e { d = false }) == encoding s

abbrev is_state_but_tdp : Septe → SeptState → Bool
is_state_but_tdp e s = encoding_of (record e { tdp = false }) == encoding s

abbrev pub is_sept_free : Septe → Bool
is_sept_free e = is_state e free

abbrev pub is_sept_mapped : Septe → Bool
is_sept_mapped e = is_state_but_d e mapped

abbrev pub is_sept_pending : Septe → Bool
is_sept_pending e = is_state e pending

abbrev pub is_sept_blocked : Septe → Bool
is_sept_blocked e = is_state_but_tdp e blocked

abbrev pub is_sept_exp_dirty : Septe → Bool
is_sept_exp_dirty e = is_state e exported_dirty

abbrev pub is_sept_pending_exp_dirty : Septe → Bool
is_sept_pending_exp_dirty e = is_state e pending_exported_dirty

abbrev pub is_sept_blockedw : Septe → Bool
is_sept_blockedw e = is_state_but_tdp e blockedw

abbrev pub is_sept_exported_blocked : Septe → Bool
is_sept_exported_blocked e = is_state_but_tdp e exported_blockedw

abbrev pub is_sept_removed : Septe → Bool
is_sept_removed e = is_state e removed

abbrev pub is_sept_nl_mapped : Septe → Bool
is_sept_nl_mapped e = is_state e nl_mapped

-- The bits under SEPT_STATE_ENCODING_MASK are replaced.
abbrev pub with_state : Septe → SeptState → Septe
with_state e s = record e {
  d = enc_bit 0 (encoding s);
  tdex = enc_bit 1 (encoding s);
  tdbw = enc_bit 2 (encoding s);
  tdb = enc_bit 3 (encoding s);
  tdp = enc_bit 4 (encoding s);
  ipat = enc_bit 5 (encoding s);
  leaf = enc_bit 6 (encoding s);
}

unfoldable pub sept_update_state : Septe → SeptState → Septe
sept_update_state e s = record (with_state e s) { supp_ve = true }

abbrev pub with_rwx : Septe → Septe
with_rwx e = record e { r = true; w = true; x = true }

-- MT_WB is 6.
abbrev pub mt_wb : Septe → Septe
mt_wb e = record e { mt0 = false; mt1 = true; mt2 = true }

abbrev pub mt_0 : Septe → Septe
mt_0 e = record e { mt0 = false; mt1 = false; mt2 = false }

unfoldable pub sept_unblock : Septe → Septe
unfolding sept_update_state
sept_unblock e =
    if is_state e nl_blocked
    then mt_0 (with_rwx (sept_update_state e nl_mapped))
    else (if is_state e blocked
        then mt_wb (with_rwx (sept_update_state e mapped))
        else (if is_state e pending_blocked then sept_update_state e pending else e))

abbrev pub is_secure_ept_leaf_entry : Septe → Bool
is_secure_ept_leaf_entry e = e.leaf

-- LVL_PD is 1; `accept_counter` is bits 12 to 20, the low bits of `base`.
abbrev pub lvl_pd : ℕ
lvl_pd = 1

unfoldable pub sept_cleanup_if_pending : Septe → ℕ → Septe
sept_cleanup_if_pending e level =
    if sept_state_is_any_pending_and_guest_acceptable e && (level == lvl_pd)
    then record e { base = e.base / 2 ^ 9 * 2 ^ 9 }
    else e

-- The attributes that may be given: SEPT_MIGRATABLE_ATTRIBUTES_MASK.
pub record Attributes : Type 0 where
  pub r : Bool
  pub w : Bool
  pub x : Bool
  pub xu : Bool
  pub vpw : Bool
  pub pw : Bool
  pub sss : Bool

-- `pa.page_4k_num`.
abbrev pub page_4k_num : ℕ → ℕ
page_4k_num pa = pa / 2 ^ 12 % 2 ^ 40

-- The word 0.
abbrev pub zero_entry : Septe
zero_entry = record {
  r = false;
  w = false;
  x = false;
  mt0 = false;
  mt1 = false;
  mt2 = false;
  ipat = false;
  leaf = false;
  a = false;
  d = false;
  xu = false;
  tdel = false;
  base = 0;
  hp = false;
  tdex = false;
  tdbw = false;
  tdb = false;
  tdp = false;
  vpw = false;
  pw = false;
  tdwr = false;
  sss = false;
  tdup = false;
  reserved_62 = false;
  supp_ve = false;
}

unfoldable pub sept_set_leaf_no_lock_internal : Attributes → ℕ → SeptState → Bool → Septe
sept_set_leaf_no_lock_internal attributes page_pa s set_lock =
    record (mt_wb (with_state zero_entry s)) {
      r = attributes.r;
      w = attributes.w;
      x = attributes.x;
      xu = attributes.xu;
      vpw = attributes.vpw;
      pw = attributes.pw;
      sss = attributes.sss;
      ipat = true;
      base = page_4k_num page_pa;
      supp_ve = true;
      tdel = set_lock;
    }

-- What a setter with a sanity check does.
pub data Stored : Type 0 where
  stored : Septe → Stored
  halted : ℕ → Stored

unfoldable pub sept_set_leaf_and_release_locks : Septe → Attributes → ℕ → SeptState → Septe
unfolding sept_set_leaf_no_lock_internal
sept_set_leaf_and_release_locks e attributes page_pa s =
    sept_set_leaf_no_lock_internal attributes page_pa s false

unfoldable pub sept_set_leaf_and_keep_lock : Septe → Attributes → ℕ → SeptState → Stored
unfolding sept_set_leaf_no_lock_internal
sept_set_leaf_and_keep_lock e attributes page_pa s =
    if e.tdel then stored (sept_set_leaf_no_lock_internal attributes page_pa s true) else halted 3

unfoldable pub sept_set_leaf_unlocked_entry : Septe → Attributes → ℕ → SeptState → Stored
unfolding sept_set_leaf_no_lock_internal
sept_set_leaf_unlocked_entry e attributes page_pa s =
    if e.tdel then halted 4 else stored (sept_set_leaf_no_lock_internal attributes page_pa s false)

unfoldable pub sept_set_mapped_non_leaf : ℕ → Bool → Septe
sept_set_mapped_non_leaf page_pa lock = record (with_rwx (with_state zero_entry nl_mapped)) {
  base = page_4k_num page_pa;
  supp_ve = true;
  tdel = lock;
}

-- The alias bits of the L2 VMs 1, 2 and 3; another index shifts its bit out of the field.
abbrev pub set_alias : Septe → ℕ → Bool → Septe
set_alias e vm_idx b =
    if vm_idx == 1
    then record e { pw = b }
    else (if vm_idx == 2
        then record e { tdwr = b }
        else (if vm_idx == 3 then record e { sss = b } else e))

unfoldable pub sept_clear_aliased : Septe → ℕ → Septe
sept_clear_aliased e vm_idx = set_alias e vm_idx false

unfoldable pub sept_set_aliased : Septe → ℕ → Septe
sept_set_aliased e vm_idx = set_alias e vm_idx true

unfoldable pub sept_state_is_aliased : Septe → ℕ → Bool
sept_state_is_aliased e vm_idx =
    if vm_idx == 1 then e.pw else (if vm_idx == 2 then e.tdwr else (vm_idx == 3) && e.sss)

unfoldable pub sept_state_is_any_aliased : Septe → Bool
sept_state_is_any_aliased e = e.pw || (e.tdwr || e.sss)
