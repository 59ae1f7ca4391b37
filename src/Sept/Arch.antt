-- ===== src/Sept/Arch.antt =====
-- src/common/memory_handlers/sept_manager.c: what the host is told of an entry in RCX and RDX.
pub mod Counter
use tdx_module.Base.{ℕ, ◌%◌, true, false, ◌==◌, if◌then◌else◌}
use tdx_module.Sept.Entry.{Septe}
use tdx_module.Sept.Flags.{sept_get_arch_state}
use tdx_module.Sept.State.{
  is_sept_free, is_secure_ept_leaf_entry, sept_cleanup_if_pending, zero_entry,
}

pub record ArchInfo : Type 0 where
  pub level : ℕ
  pub state : ℕ

pub record VmmRegs : Type 0 where
  pub rcx : Septe
  pub rdx : ArchInfo

-- SEPT_ARCH_ENTRY_LEAF_MASK and SEPT_ARCH_ENTRY_NON_LEAF_MASK.
abbrev leaf_mask : Septe → Septe
leaf_mask e = record zero_entry {
  r = e.r;
  w = e.w;
  x = e.x;
  mt0 = e.mt0;
  mt1 = e.mt1;
  mt2 = e.mt2;
  base = e.base;
  ipat = e.ipat;
  leaf = e.leaf;
  supp_ve = e.supp_ve;
}

abbrev non_leaf_mask : Septe → Septe
non_leaf_mask e = record zero_entry { r = e.r; w = e.w; x = e.x; leaf = e.leaf }

-- The level has three bits, the state eight. The copy is taken before the cleanup.
unfoldable pub set_arch_septe_details_in_vmm_regs : Septe → ℕ → VmmRegs
set_arch_septe_details_in_vmm_regs sept_entry level =
    let cleaned : Septe =
      if is_sept_free sept_entry then sept_entry else sept_cleanup_if_pending sept_entry level in
    let detailed : Septe =
      if is_sept_free sept_entry
      then record zero_entry { supp_ve = true }
      else (if is_secure_ept_leaf_entry sept_entry
          then leaf_mask sept_entry
          else non_leaf_mask sept_entry) in
    record {
      rcx = detailed;
      rdx = record { level = level % 8; state = sept_get_arch_state cleaned % 256 };
    }
