-- ===== src/Sept/Examples.antt =====
-- The theorems on secure EPT entries at concrete entries.
use tdx_module.Base.{◌≡◌, refl, true, false, some}
use tdx_module.Sept.Entry.{Septe, InState, pending, pending_blocked, exported_dirty}
use tdx_module.Sept.Flags.Bits.{Agrees, flags-Agrees}
use tdx_module.Sept.State as State
use tdx_module.Sept.State.{
  Attributes, zero_entry, with_state, sept_unblock, sept_cleanup_if_pending, lvl_pd,
}
use tdx_module.Sept.State.Moves.{Unblocked, sept_unblock-Unblocked}
use tdx_module.Sept.State.Leaf.{LeafStored, set_leaf-checks}
use tdx_module.Sept.L2 as L2
use tdx_module.Sept.L2.{GpaAttr}
use tdx_module.Sept.L2.Attributes.{unblock-set_leaf, block-set_leaf, get_gpa_attr-update_gpa_attr}
use tdx_module.Sept.Block.{block_sept_entry}
use tdx_module.Sept.Block.Restored.{waiting, block-unblock}
use tdx_module.Sept.ArchL2.{set_arch_l2_septe_details_in_vmm_regs}
use tdx_module.Sept.ArchL2.Rights.{Shows, reported_rcx, rights_reported, state_reported}
use tdx_module.Sept.Arch.{set_arch_septe_details_in_vmm_regs}
use tdx_module.Sept.Arch.Counter.{counter_reported}

-- A locked pending leaf of 2MB, of which five chunks are accepted.
abbrev waits : Septe
waits = record (with_state zero_entry pending) { base = 0x805; tdel = true; supp_ve = true }

waits-InState : InState waits pending
waits-InState = record {
  d = refl;
  tdex = refl;
  tdbw = refl;
  tdb = refl;
  tdp = refl;
  ipat = refl;
  leaf = refl;
}

flags-Agrees_example : Agrees waits
flags-Agrees_example = flags-Agrees waits pending waits-InState refl

abbrev stopped : Septe
stopped = with_state waits pending_blocked

stopped-InState : InState stopped pending_blocked
stopped-InState = record {
  d = refl;
  tdex = refl;
  tdbw = refl;
  tdb = refl;
  tdp = refl;
  ipat = refl;
  leaf = refl;
}

sept_unblock-Unblocked_example : Unblocked stopped pending_blocked (sept_unblock stopped)
sept_unblock-Unblocked_example = sept_unblock-Unblocked stopped pending_blocked stopped-InState

block-unblock_example :
    (after : Septe) × (block_sept_entry waits 1 ≡ some after)
    × InState after pending_blocked
    × InState (sept_unblock after) pending
    × ((sept_unblock after).tdel ≡ true)
    × ((sept_unblock after).hp ≡ false)
block-unblock_example = block-unblock waits waiting 1 waits-InState

counter_reported_example :
    ((set_arch_septe_details_in_vmm_regs waits lvl_pd).rcx.base ≡ 0x805)
    × ((sept_cleanup_if_pending waits lvl_pd).base ≡ 0x800)
counter_reported_example = counter_reported waits waits-InState

abbrev all_rights : Attributes
all_rights = record {
  r = true;
  w = true;
  x = true;
  xu = false;
  vpw = false;
  pw = false;
  sss = false;
}

set_leaf-checks_example :
    (kept : Septe) × (free_leaf : Septe) × LeafStored kept all_rights 0x805000 exported_dirty true
    × LeafStored free_leaf all_rights 0x805000 exported_dirty false
    × (State.sept_set_leaf_and_keep_lock waits all_rights 0x805000 exported_dirty
        ≡ State.stored kept)
    × (State.sept_set_leaf_unlocked_entry waits all_rights 0x805000 exported_dirty ≡ State.halted 4)
set_leaf-checks_example = set_leaf-checks waits all_rights 0x805000 exported_dirty refl

abbrev read_only : GpaAttr
read_only = record {
  r = true;
  w = false;
  xs = false;
  xu = true;
  vgp = false;
  pwa = false;
  sss = false;
  sve = true;
  valid = true;
}

abbrev writable : GpaAttr
writable = record read_only { w = true }

unblock-set_leaf_example :
    L2.sept_l2_unblock (L2.sept_l2_set_leaf zero_entry read_only 0x805000 true)
    ≡ L2.sept_l2_set_leaf zero_entry read_only 0x805000 false
unblock-set_leaf_example = unblock-set_leaf zero_entry read_only 0x805000

block-set_leaf_example :
    L2.block_l2_sept_entry (L2.sept_l2_set_leaf zero_entry read_only 0x805000 false) false
    ≡ L2.sept_l2_set_leaf zero_entry read_only 0x805000 true
block-set_leaf_example = block-set_leaf zero_entry read_only 0x805000

get_gpa_attr-update_gpa_attr_example :
    L2.l2_sept_get_gpa_attr
      (L2.l2_sept_update_gpa_attr (L2.sept_l2_set_leaf zero_entry read_only 0x805000 true) writable)
      true
    ≡ record writable { r = false; xs = false; xu = false }
get_gpa_attr-update_gpa_attr_example =
    get_gpa_attr-update_gpa_attr zero_entry read_only writable 0x805000 true true

rights_reported_example :
    Shows true true true true false false false
      (reported_rcx zero_entry read_only 0x805000 1 0 false)
    × (reported_rcx zero_entry read_only 0x805000 1 0 false
        ≡ reported_rcx zero_entry writable 0x805000 1 0 false)
    × Shows false false false false false false false
        (reported_rcx zero_entry read_only 0x805000 1 0 true)
    × ((reported_rcx zero_entry read_only 0x805000 1 0 true).mt0 ≡ true)
    × ((reported_rcx zero_entry read_only 0x805000 1 0 true).mt1 ≡ false)
    × ((reported_rcx zero_entry read_only 0x805000 1 0 true).mt2 ≡ true)
rights_reported_example = rights_reported zero_entry read_only 0x805000 1 0 writable refl

state_reported_example :
    (set_arch_l2_septe_details_in_vmm_regs
      (L2.sept_l2_set_leaf zero_entry read_only 0x805000 false)
      1
      false
      0).rdx.state
    ≡ 0
state_reported_example = state_reported zero_entry read_only 0x805000 1 0 false
