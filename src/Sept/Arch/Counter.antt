-- ===== src/Sept/Arch/Counter.antt =====
-- The count of accepted chunks of a pending page, in what the host is told.
use tdx_module.Base.{true, ap, ◌≡◌, ◌/◌, ◌*◌, ◌^◌, refl}
use tdx_module.Sept.Entry.{Septe, InState, pending}
use tdx_module.Sept.Flags.{
  at_index, sept_special_flags_lookup, sept_state_is_any_pending_and_guest_acceptable,
}
use tdx_module.Sept.State.{sept_cleanup_if_pending, lvl_pd}
use tdx_module.Sept.State.Moves.{encoding_of-InState}
use tdx_module.Sept.Arch

-- For a pending 2MB leaf the page number that is reported still carries the accept counter in its
-- low bits: it is that of the entry itself, for which the cleanup gives another value whenever the
-- counter is not zero.
pub counter_reported :
    (e : Septe)
    → InState e pending
    → ((Arch.set_arch_septe_details_in_vmm_regs e lvl_pd).rcx.base ≡ e.base)
      × ((sept_cleanup_if_pending e lvl_pd).base ≡ e.base / 2 ^ 9 * 2 ^ 9)
unfolding Arch.set_arch_septe_details_in_vmm_regs sept_cleanup_if_pending
counter_reported e i =
    let acceptable : sept_state_is_any_pending_and_guest_acceptable e ≡ true =
      ap (λ n. (at_index sept_special_flags_lookup n).any_pending_and_guest_acceptable)
        (encoding_of-InState e pending i) in
    (rw (encoding_of-InState e pending i, i.leaf) refl, rw acceptable refl)
