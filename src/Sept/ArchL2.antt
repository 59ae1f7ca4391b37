-- ===== src/Sept/ArchL2.antt =====
-- src/common/memory_handlers/sept_manager.c, include/auto_gen/sept_state_lookup.c: what the host is
-- told of an L2 entry.
pub mod Rights
use tdx_module.Base.{ℕ, ◌%◌, Bool, true, false, ◌==◌, if◌then◌else◌}
use tdx_module.Sept.Entry.{Septe}
use tdx_module.Sept.State.{is_secure_ept_leaf_entry, zero_entry}
use tdx_module.Sept.L2.{l2_encoding_of, is_l2_sept_free, is_l2_sept_mapped}

pub record L2ArchInfo : Type 0 where
  pub level : ℕ
  pub state : ℕ
  pub vm : ℕ

pub record L2VmmRegs : Type 0 where
  pub rcx : Septe
  pub rdx : L2ArchInfo

-- L2_SEPT_ARCH_ENTRY_LEAF_MASK.
abbrev l2_leaf_mask : Septe → Septe
l2_leaf_mask e = record zero_entry {
  mt0 = e.mt0;
  mt1 = e.mt1;
  mt2 = e.mt2;
  base = e.base;
  ipat = e.ipat;
  leaf = e.leaf;
  supp_ve = e.supp_ve;
}

-- L2_SEPT_ARCH_ENTRY_LEAF_DEBUG_MASK.
abbrev l2_leaf_debug_mask : Septe → Septe
l2_leaf_debug_mask e = record (l2_leaf_mask e) {
  r = e.r;
  w = e.w;
  x = e.x;
  xu = e.xu;
  vpw = e.vpw;
  pw = e.pw;
  sss = e.sss;
}

-- L2_SEPT_ARCH_ENTRY_NON_LEAF_MASK.
abbrev l2_non_leaf_mask : Septe → Septe
l2_non_leaf_mask e = record zero_entry { r = e.r; w = e.w; x = e.x; xu = e.xu; leaf = e.leaf }

-- L2_SEPT_PERMISSIONS_MASK.
abbrev all_permissions : Septe → Septe
all_permissions e = record e { r = true; w = true; x = true; xu = true }

-- The public states of l2_sept_special_flags_lookup; the entries that it does not list are 0.
abbrev pub l2_sept_get_arch_state : Septe → ℕ
l2_sept_get_arch_state e =
    let enc = l2_encoding_of e in
    if enc == 0
    then 64
    else (if enc == 8
        then 196
        else (if enc == 1 then 193 else (if enc == 6 then 68 else (if enc == 7 then 65 else 0))))

unfoldable pub set_arch_l2_septe_details_in_vmm_regs : Septe → ℕ → Bool → ℕ → L2VmmRegs
set_arch_l2_septe_details_in_vmm_regs e vm_id is_debug level =
    let detailed : Septe =
      if is_l2_sept_free e
      then record zero_entry { supp_ve = true }
      else (if is_secure_ept_leaf_entry e
          then (if is_debug
              then l2_leaf_debug_mask e
              else (if is_l2_sept_mapped e
                  then all_permissions (l2_leaf_mask e)
                  else l2_leaf_mask e))
          else l2_non_leaf_mask e) in
    record {
      rcx = detailed;
      rdx = record { level = level % 8; state = l2_sept_get_arch_state e % 256; vm = vm_id % 4 };
    }
