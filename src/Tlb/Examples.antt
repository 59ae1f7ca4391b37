-- ===== src/Tlb/Examples.antt =====
-- Two VCPUs: one enters and leaves, an export is paused and given up, and the other enters.
use tdx_module.Base.{ℕ, none, ◌+◌, ◌<◌, ◌≤◌, ◌≡◌, refl, arith, true, false, ◌==◌, if◌then◌else◌}
use tdx_module.Base.Family.{assign, tally}
use tdx_module.Locks.Sharex.{
  acquire_sharex_lock_sh, release_sharex_lock_sh, acquire_sharex_lock_ex, release_sharex_lock_ex,
}
use tdx_module.ErrorCodes.{tdx_success, plain}
use tdx_module.Tlb
use tdx_module.Tlb.{
  vcpu_ready, vcpu_active, vcpu_no_lp, null_pa, EpochTracking, Tdvps, Associated, Adjusted, Answer,
}
use tdx_module.Tlb.System.{
  System, running, flush_each, switch_to, cache, caches, adjusted_in, Step, Initial, Run, enters,
  leaves, tracks, pauses, stay, step, quiet, quiet_step,
}
use tdx_module.Tlb.Counts.{at_parity, is_associated}
use tdx_module.Tlb.Tracked.{reachable-Counted}
use tdx_module.Tlb.Stuck.{blocked_page-untracked}

abbrev built : System
built = record {
  tracking = record { td_epoch = 1; refcount = λ p. 0; epoch_lock = 0 };
  num_assoc_vcpus = 0;
  cpu = λ i. record {
    vps = record {
      state = vcpu_ready;
      assoc_lpid = vcpu_no_lp;
      vcpu_epoch = 0;
      last_seamdb_index = 0;
      vm_launched = λ vm. false;
      lp_dependent_hpa_updated = λ vm. false;
      module_dependent_hpa_updated = λ vm. false;
      l2_enter_guest_state_hpa = λ vm. null_pa;
      l2_vapic_hpa = λ vm. null_pa;
    };
  };
  lps = λ lp. record { tlb = λ vm. none; last_tdvpr_pa = null_pa };
}

built-Initial : Initial 2 built
built-Initial = record {
  epoch = refl;
  none_counted = λ p. refl;
  none_associated = refl;
  ready = λ i. refl;
  apart = λ i. refl;
  unused = λ i. refl;
  uncached = λ lp vm. refl;
  fresh = λ lp. refl;
}

-- VCPU `i` enters on processor 3 + `i`.
abbrev association : System → ℕ → Associated
association s i = Tlb.check_and_associate_vcpu (3 + i) 7 (s.cpu i).vps s.num_assoc_vcpus false

abbrev adjustment : System → ℕ → Adjusted
adjustment s i =
    Tlb.adjusted 0 (record (Tlb.counted s.tracking) { epoch_lock = 0 }) s.tracking.td_epoch
      (association s i).vcpu (association s i).new_association

abbrev entered : System → ℕ → System
entered s i =
    adjusted_in s i (3 + i) (association s i) (adjustment s i) (adjustment s i).tracking vcpu_active
      (switch_to 0 i (flush_each (adjustment s i).flushed (s.lps (3 + i))))

abbrev first_inside : System
first_inside = entered built 0

abbrev first_out : System
first_out = record first_inside {
  tracking = Tlb.revert_tlb_tracking_state first_inside.tracking (first_inside.cpu 0).vps;
  cpu = λ i.
      if 0 == i
      then record (first_inside.cpu 0) {
        vps = record (first_inside.cpu 0).vps { state = vcpu_ready };
      }
      else first_inside.cpu i;
}

abbrev paused : System
paused = record first_out { tracking = record first_out.tracking { td_epoch = 2 } }

abbrev second_inside : System
second_inside = entered paused 1

first_enters : Step 2 0 7 built false first_inside
unfolding Tlb.check_and_associate_vcpu Tlb.associate_vcpu Tlb.adjust_tlb_tracking_state Tlb.adjusted
    acquire_sharex_lock_sh release_sharex_lock_sh
first_enters =
    enters 0 3 (association built 0) (adjustment built 0) (omega arith) (omega arith) refl refl refl
      refl

first_leaves : Step 2 0 7 first_inside false first_out
unfolding Tlb.check_and_associate_vcpu Tlb.associate_vcpu Tlb.adjusted Tlb.revert_tlb_tracking_state
first_leaves = leaves 0 vcpu_ready (omega arith) refl (omega arith)

export_pauses : Step 2 0 7 first_out true paused
unfolding Tlb.check_and_associate_vcpu Tlb.associate_vcpu Tlb.adjusted Tlb.revert_tlb_tracking_state
    Tlb.tdh_export_pause
export_pauses = pauses paused.tracking refl

second_enters : Step 2 0 7 paused false second_inside
unfolding Tlb.check_and_associate_vcpu Tlb.associate_vcpu Tlb.adjust_tlb_tracking_state Tlb.adjusted
    Tlb.revert_tlb_tracking_state acquire_sharex_lock_sh release_sharex_lock_sh
second_enters =
    enters 1 4 (association paused 1) (adjustment paused 1) (omega arith) (omega arith) refl refl
      refl refl

whole-Run : Run 2 0 7 built 4 second_inside
whole-Run = step (step (step (step stay first_enters) first_leaves) export_pauses) second_enters

reachable-Counted_example :
    ((p : ℕ) → p < 2 → second_inside.tracking.refcount p ≡ tally (at_parity p) 2 second_inside.cpu)
    × (second_inside.num_assoc_vcpus ≡ tally is_associated 2 second_inside.cpu)
    × ((i : ℕ)
        → i < 2
        → running (second_inside.cpu i) ≡ true
        → ((second_inside.cpu i).vps.vcpu_epoch ≤ second_inside.tracking.td_epoch)
          × (second_inside.tracking.td_epoch ≤ (second_inside.cpu i).vps.vcpu_epoch + 1))
reachable-Counted_example =
    reachable-Counted 2 0 7 4 built second_inside (omega arith) built-Initial (omega arith)
      whole-Run

-- The second VCPU's processor caches a translation.
abbrev second_cached : System
second_cached = record second_inside {
  lps = assign 4 (cache 0 2 (second_inside.lps 4)) second_inside.lps;
}

second_caches : Step 2 0 7 second_inside false second_cached
unfolding Tlb.check_and_associate_vcpu Tlb.associate_vcpu Tlb.adjusted Tlb.revert_tlb_tracking_state
    Tlb.switch_vcpu
second_caches = caches 1 0 (omega arith) refl

-- The host tracks while the second VCPU runs.
abbrev answer : Answer
answer = record {
  code = plain tdx_success;
  tracking = record second_inside.tracking { epoch_lock = 0 };
}

host_tracks : Step 2 0 7 second_inside false second_inside
unfolding Tlb.check_and_associate_vcpu Tlb.associate_vcpu Tlb.adjusted Tlb.revert_tlb_tracking_state
    Tlb.tdh_mem_track Tlb.track_locked acquire_sharex_lock_ex release_sharex_lock_ex
host_tracks = tracks answer refl

blocked_page-untracked_example :
    Tlb.is_tlb_tracked second_inside.tracking second_inside.tracking.td_epoch ≡ false
blocked_page-untracked_example =
    blocked_page-untracked 2 0 7 4 built second_inside second_inside (omega arith) built-Initial
      (omega arith) whole-Run (quiet_step quiet host_tracks)
