-- ===== src/Tlb/Entry.antt =====
-- An attempt to enter a VCPU: how it moves the counts, whether it succeeds or not.
use tdx_module.Base.{ℕ, ◌+◌, ◌≤◌, ◌<◌, ◌≡◌, inl, inr, arith, true, false, Bool-cases, ◌==◌}
use tdx_module.Base.Family.{tally-lt}
use tdx_module.ErrorCodes.{tdx_success}
use tdx_module.Tlb
use tdx_module.Tlb.{
  vcpu_ready, vcpu_active, vcpu_disabled, vcpu_no_lp, EpochTracking, Tdvps, Result, Associated,
  Adjusted, Answer,
}
use tdx_module.Tlb.System.{Cpu, System}
use tdx_module.Tlb.Operations.{
  AssociatedOk, check_and_associate-ok, check_and_associate-ready, AdjustedOk, adjust-ok,
}
use tdx_module.Tlb.Counts.{
  at_parity, is_associated, Placed, Counted, Replaces, at_parity_small, few_associated,
}

-- An attempt to enter, up to the adjusted epoch.
pub record Tried (num_l2_vms : ℕ) (s : System) (i : ℕ) (a : Associated) (r : Adjusted)
    : Type 0 where
  pub ready : (s.cpu i).vps.state ≡ vcpu_ready
  pub assoc : AssociatedOk (s.cpu i).vps s.num_assoc_vcpus a
  pub done : AdjustedOk num_l2_vms s.tracking a.vcpu a.new_association r
  pub place : Placed s.tracking.td_epoch (s.cpu i)
  pub room : (p : ℕ) → p < 2 → s.tracking.refcount p + 1 < 65536

pub try :
    (n i lp_id seamdb_index num_l2_vms : ℕ) (s : System) (a : Associated) (r : Adjusted)
    → i < n
    → n < 65536
    → lp_id < vcpu_no_lp
    → Counted n s
    → Tlb.check_and_associate_vcpu lp_id seamdb_index (s.cpu i).vps s.num_assoc_vcpus false ≡ a
    → a.code ≡ tdx_success
    → Tlb.adjust_tlb_tracking_state num_l2_vms s.tracking a.vcpu a.new_association ≡ Tlb.ok r
    → Tried num_l2_vms s i a r
try n i lp_id seamdb_index num_l2_vms s a r lt small lp k ha code hr =
    let ready : (s.cpu i).vps.state ≡ vcpu_ready =
      check_and_associate-ready lp_id seamdb_index s.num_assoc_vcpus (s.cpu i).vps (rw ha code) in
    record {
      ready = ready;
      assoc = rw⁻¹ ha (
          check_and_associate-ok lp_id seamdb_index s.num_assoc_vcpus (s.cpu i).vps false lp
            (few_associated n s small k));
      done = adjust-ok num_l2_vms s.tracking a.vcpu a.new_association r hr;
      place = k.placed i lt;
      room = λ p two. omega (
        arith,
        k.counters p two,
        tally-lt (at_parity p) (at_parity_small p) n i s.cpu lt (ground (arith, ready)),
      );
    }

module _ (num_l2_vms : ℕ) (s : System) (i : ℕ) (a : Associated) (r : Adjusted)
    (t : Tried num_l2_vms s i a r) where
  -- The VCPU with the epoch, in the given state.
  abbrev tried_cpu : ℕ → Cpu
  tried_cpu state = record { vps = record r.vcpu { state = state } }

  tried-associated :
      (state : ℕ)
      → a.num_assoc_vcpus + is_associated (s.cpu i)
        ≡ s.num_assoc_vcpus + is_associated (tried_cpu state)
  tried-associated state = ground (arith, t.assoc.count, t.done.lpid)

  tried-sampled : r.vcpu.vcpu_epoch ≤ s.tracking.td_epoch
  tried-sampled = elim (Bool-cases r.acquired) [
    | inl got ↦ omega (arith, t.done.sampled got)
    | inr busy ↦ omega (arith, (t.done.uncounted busy).0, t.assoc.epoch, t.place.sampled)
  ]

  tried-Placed :
      (state : ℕ)
      → ((state == vcpu_active) ≡ true → s.tracking.td_epoch ≤ r.vcpu.vcpu_epoch + 1)
      → Placed s.tracking.td_epoch (tried_cpu state)
  tried-Placed state recent = record { sampled = tried-sampled; recent = recent }

  not_active : (r.vcpu.state == vcpu_active) ≡ false
  not_active = ground (arith, t.done.state, t.assoc.state, t.ready)

  pub entered-Replaces :
      r.acquired ≡ true → Replaces s i (tried_cpu vcpu_active) r.tracking a.num_assoc_vcpus
  entered-Replaces got = record {
    epoch = t.done.epoch;
    counters =
        λ p two. ground (arith, t.ready, t.room p two, t.done.counted got p, t.done.sampled got);
    associated = tried-associated vcpu_active;
    placed = tried-Placed vcpu_active (λ active. omega (arith, t.done.sampled got));
  }

  pub busy-Replaces :
      r.acquired ≡ false → Replaces s i (tried_cpu r.vcpu.state) r.tracking a.num_assoc_vcpus
  busy-Replaces busy = record {
    epoch = t.done.epoch;
    counters = λ p two. ground (arith, t.ready, not_active, (t.done.uncounted busy).1 p);
    associated = tried-associated r.vcpu.state;
    placed = tried-Placed r.vcpu.state (λ active. cc (active, not_active));
  }

  pub turned-Replaces :
      r.acquired ≡ true
      → Replaces s i
          (tried_cpu r.vcpu.state)
          (Tlb.revert_tlb_tracking_state r.tracking r.vcpu)
          a.num_assoc_vcpus
  unfolding Tlb.revert_tlb_tracking_state
  turned-Replaces got = record {
    epoch = t.done.epoch;
    counters = λ p two.
        ground (arith, t.ready, not_active, t.room p two, t.done.counted got p, t.done.sampled got);
    associated = tried-associated r.vcpu.state;
    placed = tried-Placed r.vcpu.state (λ active. cc (active, not_active));
  }
