-- ===== src/Tlb.antt =====
-- The association of a TD's VCPUs with processors and the tracking of its TLB epochs: the VCPU
-- functions of src/common/helpers/helpers.c and helpers.h, and the sections of tdh_mem_track,
-- tdh_export_pause, tdh_vp_flush, tdh_vp_enter and td_exit that work on the same state.
pub mod System
pub mod Operations
pub mod Counts
pub mod Entry
pub mod Counted
pub mod Cached
pub mod Flushes
pub mod Steps
pub mod Tracked
pub mod Stuck
pub mod Examples
use tdx_module.Base.{
  ℕ, zero, suc, ◌+◌, ◌-◌, ◌%◌, ◌/◌, ◌^◌, Bool, true, false, not, ◌&&◌, ◌||◌, List, [], ◌∷◌, ◌++◌,
  Option, none, some, leb, ltb, ◌==◌, ◌!=◌, if◌then◌else◌,
}
use tdx_module.Base.Family.{assign}
use tdx_module.ErrorCodes.{
  ApiErrorCode, ApiErrorType, tdx_success, tdx_operand_busy, tdx_vcpu_associated,
  tdx_vcpu_not_associated, tdx_vcpu_state_incorrect, tdx_previous_tlb_epoch_busy, plain,
  api_error_with_operand_id,
}
use tdx_module.Locks.Types.{LockReturn, fail, success, fail_host_priority}
use tdx_module.Locks.Atomic as Atomic
use tdx_module.Locks.Sharex.{
  acquire_sharex_lock_sh, release_sharex_lock_sh, acquire_sharex_lock_ex, release_sharex_lock_ex,
}
use tdx_module.Tdmr.{add64, sub64}

abbrev pub vcpu_ready : ℕ
vcpu_ready = 2

abbrev pub vcpu_active : ℕ
vcpu_active = 4

abbrev pub vcpu_disabled : ℕ
vcpu_disabled = 8

abbrev pub vcpu_no_lp : ℕ
vcpu_no_lp = 0xFFFFFFFF

abbrev pub null_pa : ℕ
null_pa = 0xFFFFFFFFFFFFFFFF

abbrev pub active_vmcs_none : ℕ
active_vmcs_none = 0xFFFF

abbrev pub operand_id_td_epoch : ℕ
operand_id_td_epoch = 169

-- The TD's fields: the epoch, the two counters of running VCPUs, and the lock of the three.
pub record EpochTracking : Type 0 where
  pub td_epoch : ℕ
  pub refcount : ℕ → ℕ
  pub epoch_lock : ℕ

-- The fields of a VCPU that the functions use. The arrays are indexed by the VM.
pub record Tdvps : Type 0 where
  pub state : ℕ
  pub assoc_lpid : ℕ
  pub vcpu_epoch : ℕ
  pub last_seamdb_index : ℕ
  pub vm_launched : ℕ → Bool
  pub lp_dependent_hpa_updated : ℕ → Bool
  pub module_dependent_hpa_updated : ℕ → Bool
  pub l2_enter_guest_state_hpa : ℕ → ℕ
  pub l2_vapic_hpa : ℕ → ℕ

-- `halted id` is a failed sanity check, and `fatal` a FATAL_ERROR.
pub data Result (A : Type 0) : Type 0 where
  ok : A → Result A
  halted : ℕ → Result A
  fatal : Result A

-- `active_vmcs` is what the processor's note of its active VMCS becomes, if it is written.
pub record Associated : Type 0 where
  pub code : ApiErrorCode
  pub vcpu : Tdvps
  pub num_assoc_vcpus : ℕ
  pub new_association : Bool
  pub active_vmcs : Option ℕ

abbrev pub clear_lp_host_state_flags : Tdvps → Tdvps
clear_lp_host_state_flags v = record v { lp_dependent_hpa_updated = λ vm_id. false }

abbrev pub clear_module_host_state_flags : Tdvps → Tdvps
clear_module_host_state_flags v = record v { module_dependent_hpa_updated = λ vm_id. false }

-- The VCPU once it is on this processor, under the module's present index.
abbrev pub under_seamdb : ℕ → Tdvps → Tdvps
under_seamdb seamdb_index v =
    if v.last_seamdb_index != seamdb_index
    then record (clear_lp_host_state_flags (clear_module_host_state_flags v)) {
      last_seamdb_index = seamdb_index;
    }
    else v

-- The compare-and-exchange of the associated processor is the branch on what it found.
unfoldable pub associate_vcpu : ℕ → ℕ → Tdvps → ℕ → Associated
associate_vcpu lp_id seamdb_index v num_assoc_vcpus =
    let exchanged = if v.assoc_lpid == vcpu_no_lp then record v { assoc_lpid = lp_id } else v in
    if v.assoc_lpid != vcpu_no_lp && v.assoc_lpid != lp_id
    then record {
      code = tdx_vcpu_associated;
      vcpu = exchanged;
      num_assoc_vcpus = num_assoc_vcpus;
      new_association = false;
      active_vmcs = none;
    }
    else if v.assoc_lpid == vcpu_no_lp
    then record {
      code = tdx_success;
      vcpu = clear_lp_host_state_flags (under_seamdb seamdb_index exchanged);
      num_assoc_vcpus = (num_assoc_vcpus + 1) % 2 ^ 32;
      new_association = true;
      active_vmcs = some active_vmcs_none;
    }
    else record {
      code = tdx_success;
      vcpu = under_seamdb seamdb_index exchanged;
      num_assoc_vcpus = num_assoc_vcpus;
      new_association = false;
      active_vmcs = some active_vmcs_none;
    }

unfoldable pub check_and_associate_vcpu : ℕ → ℕ → Tdvps → ℕ → Bool → Associated
check_and_associate_vcpu lp_id seamdb_index v num_assoc_vcpus allow_disabled =
    if not (v.state == vcpu_ready || v.state == vcpu_disabled && allow_disabled)
    then record {
      code = tdx_vcpu_state_incorrect;
      vcpu = v;
      num_assoc_vcpus = num_assoc_vcpus;
      new_association = false;
      active_vmcs = none;
    }
    else associate_vcpu lp_id seamdb_index v num_assoc_vcpus

-- The loops over the VMs run from 0 to the number of L2 VMs.
abbrev pub vms : ℕ → List ℕ
vms zero = 0 ∷ []
vms (suc n) = vms n ++ suc n ∷ []

-- The VMs whose secure EPT is invalidated, in this order.
abbrev pub flush_all_td_asids : ℕ → List ℕ
flush_all_td_asids num_l2_vms = vms num_l2_vms

abbrev pub invalidate_gpa_translations : ℕ → Tdvps → Tdvps
invalidate_gpa_translations vm_id v = record v {
  l2_enter_guest_state_hpa = assign vm_id null_pa v.l2_enter_guest_state_hpa;
  l2_vapic_hpa = assign vm_id null_pa v.l2_vapic_hpa;
}

abbrev pub invalidate_each : List ℕ → Tdvps → Tdvps
invalidate_each [] v = v
invalidate_each (vm_id ∷ ids) v = invalidate_each ids (invalidate_gpa_translations vm_id v)

unfoldable pub invalidate_all_gpa_translations : ℕ → Tdvps → Tdvps
invalidate_all_gpa_translations num_l2_vms v = invalidate_each (vms num_l2_vms) v

-- A 16-bit atomic add to one of the counters.
abbrev pub add_refcount : ℕ → ℕ → EpochTracking → EpochTracking
add_refcount i quantum e = record e {
  refcount = assign i ((e.refcount i + quantum) % 65536) e.refcount;
}

pub record Adjusted : Type 0 where
  pub acquired : Bool
  pub tracking : EpochTracking
  pub vcpu : Tdvps
  pub flushed : List ℕ

-- After the critical section, with the epoch that was sampled in it.
unfoldable pub adjusted : ℕ → EpochTracking → ℕ → Tdvps → Bool → Adjusted
adjusted num_l2_vms e vcpu_epoch v new_association =
    if vcpu_epoch != v.vcpu_epoch
    then (if not new_association
        then record {
          acquired = true;
          tracking = e;
          vcpu = record (invalidate_all_gpa_translations num_l2_vms v) { vcpu_epoch = vcpu_epoch };
          flushed = flush_all_td_asids num_l2_vms;
        }
        else record {
          acquired = true;
          tracking = e;
          vcpu = record v { vcpu_epoch = vcpu_epoch };
          flushed = [];
        })
    else record { acquired = true; tracking = e; vcpu = v; flushed = [] }

abbrev pub counted : EpochTracking → EpochTracking
counted e = add_refcount (e.td_epoch % 2) 1 e

abbrev pub when_released_sh :
    EpochTracking → (EpochTracking → Adjusted) → Atomic.Outcome (Unit {0}) × ℕ → Result Adjusted
when_released_sh e k (Atomic.done u, w) = ok (k (record e { epoch_lock = w }))
when_released_sh e k (Atomic.halted id, w) = halted id

abbrev pub not_adjusted : EpochTracking → Tdvps → ℕ → Adjusted
not_adjusted e v w = record {
  acquired = false;
  tracking = record e { epoch_lock = w };
  vcpu = v;
  flushed = [];
}

abbrev pub when_acquired_sh :
    ℕ → EpochTracking → Tdvps → Bool → Atomic.Outcome LockReturn × ℕ → Result Adjusted
when_acquired_sh num_l2_vms e v new_association (Atomic.done success, w) =
    when_released_sh (counted e) (λ e'. adjusted num_l2_vms e' e.td_epoch v new_association)
      (Atomic.run release_sharex_lock_sh w)
when_acquired_sh num_l2_vms e v new_association (Atomic.done fail, w) = ok (not_adjusted e v w)
when_acquired_sh num_l2_vms e v new_association (Atomic.done fail_host_priority, w) =
    ok (not_adjusted e v w)
when_acquired_sh num_l2_vms e v new_association (Atomic.halted id, w) = halted id

unfoldable pub adjust_tlb_tracking_state : ℕ → EpochTracking → Tdvps → Bool → Result Adjusted
adjust_tlb_tracking_state num_l2_vms e v new_association =
    when_acquired_sh num_l2_vms e v new_association (Atomic.run acquire_sharex_lock_sh e.epoch_lock)

-- `(uint16_t)-1` is 0xFFFF. The exit of a TD does the same.
unfoldable pub revert_tlb_tracking_state : EpochTracking → Tdvps → EpochTracking
revert_tlb_tracking_state e v = add_refcount (v.vcpu_epoch % 2) 0xFFFF e

-- The epoch, or the migration epoch that bit 63 marks, of an entry of the physical page table.
unfoldable pub is_tlb_tracked : EpochTracking → ℕ → Bool
is_tlb_tracked e bepoch =
    if bepoch / 2 ^ 63 % 2 == 1
    then false
    else if bepoch == sub64 e.td_epoch 1 && e.refcount (bepoch % 2) == 0
    then true
    else ltb bepoch (sub64 e.td_epoch 1)

pub record Answer : Type 0 where
  pub code : ApiErrorType
  pub tracking : EpochTracking

abbrev pub answer_busy : EpochTracking → ℕ → Answer
answer_busy e w = record {
  code = api_error_with_operand_id tdx_operand_busy operand_id_td_epoch;
  tracking = record e { epoch_lock = w };
}

abbrev pub when_released_ex :
    EpochTracking → ApiErrorType → Atomic.Outcome (Unit {0}) × ℕ → Result Answer
when_released_ex e code (Atomic.done u, w) =
    ok (record { code = code; tracking = record e { epoch_lock = w } })
when_released_ex e code (Atomic.halted id, w) = halted id

-- With the epoch locked, `w` in the lock.
unfoldable pub track_locked : EpochTracking → ℕ → Result Answer
track_locked e w =
    if e.refcount (1 - e.td_epoch % 2) != 0
    then when_released_ex e (plain tdx_previous_tlb_epoch_busy)
        (Atomic.run release_sharex_lock_ex w)
    else if leb (2 ^ 63 - 1) e.td_epoch
    then fatal
    else when_released_ex e (plain tdx_success) (Atomic.run release_sharex_lock_ex w)

abbrev pub when_acquired_ex : EpochTracking → Atomic.Outcome LockReturn × ℕ → Result Answer
when_acquired_ex e (Atomic.done success, w) = track_locked e w
when_acquired_ex e (Atomic.done fail, w) = ok (answer_busy e w)
when_acquired_ex e (Atomic.done fail_host_priority, w) = ok (answer_busy e w)
when_acquired_ex e (Atomic.halted id, w) = halted id

-- The section of `tdh_mem_track` behind the checks of the TD's page and state.
unfoldable pub tdh_mem_track : EpochTracking → Result Answer
tdh_mem_track e = when_acquired_ex e (Atomic.run acquire_sharex_lock_ex e.epoch_lock)

-- The section of `tdh_export_pause` behind the checks of the TD's page and state.
unfoldable pub tdh_export_pause : EpochTracking → Result EpochTracking
tdh_export_pause e =
    if e.refcount 0 != 0 || e.refcount 1 != 0
    then fatal
    else ok (record e { td_epoch = add64 e.td_epoch 1 })

-- VMCLEAR of the VM's VMCS itself is the processor's part.
abbrev pub vmclear_vmcs : ℕ → Tdvps → Tdvps
vmclear_vmcs vm_id v = record v { vm_launched = assign vm_id false v.vm_launched }

abbrev pub vmclear_each : List ℕ → Tdvps → Tdvps
vmclear_each [] v = v
vmclear_each (vm_id ∷ ids) v = vmclear_each ids (vmclear_vmcs vm_id v)

pub record Flushed : Type 0 where
  pub code : ApiErrorType
  pub last_tdvpr_pa : ℕ
  pub vcpu : Tdvps
  pub num_assoc_vcpus : ℕ
  pub flushed : List ℕ

-- The section of `tdh_vp_flush` from the check of the associated processor on, with the processor's note of
-- the VCPU that it ran last.
unfoldable pub tdh_vp_flush : ℕ → ℕ → ℕ → Tdvps → ℕ → Flushed
tdh_vp_flush num_l2_vms lp_id last_tdvpr_pa v num_assoc_vcpus =
    if v.assoc_lpid != lp_id
    then record {
      code = plain tdx_vcpu_not_associated;
      last_tdvpr_pa = last_tdvpr_pa;
      vcpu = v;
      num_assoc_vcpus = num_assoc_vcpus;
      flushed = [];
    }
    else record {
      code = plain tdx_success;
      last_tdvpr_pa = null_pa;
      vcpu = record (vmclear_each (vms num_l2_vms) (invalidate_all_gpa_translations num_l2_vms v)) {
        assoc_lpid = vcpu_no_lp;
      };
      num_assoc_vcpus = (num_assoc_vcpus + 0xFFFFFFFF) % 2 ^ 32;
      flushed = flush_all_td_asids num_l2_vms;
    }

pub record Switched : Type 0 where
  pub last_tdvpr_pa : ℕ
  pub flushed : List ℕ

-- The section of `tdh_vp_enter` on the VCPU that the processor ran last. The barrier on the prediction
-- of indirect branches is the processor's part.
unfoldable pub switch_vcpu : ℕ → ℕ → ℕ → Switched
switch_vcpu num_l2_vms tdvpr_pa last_tdvpr_pa =
    if tdvpr_pa != last_tdvpr_pa
    then record { last_tdvpr_pa = tdvpr_pa; flushed = flush_all_td_asids num_l2_vms }
    else record { last_tdvpr_pa = last_tdvpr_pa; flushed = [] }
