-- ===== src/Sept/ArchL2/Rights.antt =====
-- What the host learns of the rights of an L2 VM that is not under debug.
use tdx_module.Base.{ℕ, ◌≡◌, refl, Bool, true, false, inl, inr, Bool-cases, if◌then◌else◌}
use tdx_module.Sept.Entry.{Septe}
use tdx_module.Sept.L2
use tdx_module.Sept.L2.{GpaAttr}
use tdx_module.Sept.ArchL2

-- The rights that an L2 entry shows.
pub record Shows (r w x xu vpw pw sss : Bool) (e : Septe) : Type 0 where
  pub reads : e.r ≡ r
  pub writes : e.w ≡ w
  pub runs : e.x ≡ x
  pub runs_as_user : e.xu ≡ xu
  pub verifies_paging_writes : e.vpw ≡ vpw
  pub paging_writes : e.pw ≡ pw
  pub shadow_stack : e.sss ≡ sss

module _ (e : Septe) (g : GpaAttr) (pa vm_id level : ℕ) where
  -- RCX of the leaf of an L2 VM that is not under debug.
  abbrev pub reported_rcx : Bool → Septe
  reported_rcx is_l2_blocked =
      (ArchL2.set_arch_l2_septe_details_in_vmm_regs (L2.sept_l2_set_leaf e g pa is_l2_blocked) vm_id
        false level).rcx

mapped-Shows :
    (e : Septe) (g : GpaAttr) (pa vm_id level : ℕ) (r : Bool)
    → Shows true true true true false false false
        (reported_rcx e (record g { r = r }) pa vm_id level false)
unfolding ArchL2.set_arch_l2_septe_details_in_vmm_regs L2.sept_l2_set_leaf
mapped-Shows e g pa vm_id level true = record {
  reads = refl;
  writes = refl;
  runs = refl;
  runs_as_user = refl;
  verifies_paging_writes = refl;
  paging_writes = refl;
  shadow_stack = refl;
}
mapped-Shows e g pa vm_id level false = record {
  reads = refl;
  writes = refl;
  runs = refl;
  runs_as_user = refl;
  verifies_paging_writes = refl;
  paging_writes = refl;
  shadow_stack = refl;
}

-- Of a mapped leaf of an L2 VM that is not under debug the host sees R, W, Xs and Xu set, and VPW, PW
-- and SSS clear, whatever the leaf's rights are: RCX is the same for two leaves that differ in their
-- rights alone. Of a blocked leaf it sees all seven clear, but the MT bits that it is told are the
-- saved R, Xs and Xu.
pub rights_reported :
    (e : Septe) (g : GpaAttr) (pa vm_id level : ℕ) (f : GpaAttr)
    → f.sve ≡ g.sve
    → Shows true true true true false false false (reported_rcx e g pa vm_id level false)
      × (reported_rcx e g pa vm_id level false ≡ reported_rcx e f pa vm_id level false)
      × Shows false false false false false false false (reported_rcx e g pa vm_id level true)
      × ((reported_rcx e g pa vm_id level true).mt0 ≡ g.r)
      × ((reported_rcx e g pa vm_id level true).mt1 ≡ g.xs)
      × ((reported_rcx e g pa vm_id level true).mt2 ≡ g.xu)
unfolding ArchL2.set_arch_l2_septe_details_in_vmm_regs L2.sept_l2_set_leaf
rights_reported e g pa vm_id level f same = (
  mapped-Shows e g pa vm_id level g.r,
  elim (Bool-cases g.r) [
    | inl h ↦ elim (Bool-cases f.r) [ inl k ↦ rw (h, k, same) refl | inr k ↦ rw (h, k, same) refl ]
    | inr h ↦ elim (Bool-cases f.r) [ inl k ↦ rw (h, k, same) refl | inr k ↦ rw (h, k, same) refl ]
  ],
  record {
    reads = refl;
    writes = refl;
    runs = refl;
    runs_as_user = refl;
    verifies_paging_writes = refl;
    paging_writes = refl;
    shadow_stack = refl;
  },
  refl,
  refl,
  refl,
)

-- The state that is reported of a mapped L2 leaf is the one of L2_MAPPED, 68, only if the leaf
-- cannot be read; if it can, R is part of the index, which the table does not list, and it is 0.
pub state_reported :
    (e : Septe) (g : GpaAttr) (pa vm_id level : ℕ) (is_debug : Bool)
    → (ArchL2.set_arch_l2_septe_details_in_vmm_regs
        (L2.sept_l2_set_leaf e g pa false)
        vm_id
        is_debug
        level).rdx.state
      ≡ (if g.r then 0 else 68)
unfolding ArchL2.set_arch_l2_septe_details_in_vmm_regs L2.sept_l2_set_leaf
state_reported e g pa vm_id level is_debug = elim (Bool-cases g.r) [
  | inl h ↦ rw h refl
  | inr h ↦ rw h refl
]
