-- ===== src/Tlb/Operations.antt =====
-- What each of the sections does to the counters and to the VCPU, on every branch.
use tdx_module.Base.{
  ℕ, ◌+◌, ◌-◌, ◌%◌, ◌^◌, ◌<◌, ◌≡◌, refl, subst, ◌⊎◌, inl, inr, arith, Bool, true, false, ◌||◌, List,
  [], ◌∷◌, leb, Bool-cases, ◌==◌, ◌!=◌, if◌then◌else◌,
}
use tdx_module.ErrorCodes.{ApiErrorType, tdx_success}
use tdx_module.Locks.Types.{LockReturn, fail, success, fail_host_priority}
use tdx_module.Locks.Atomic as Atomic
use tdx_module.Locks.Sharex.{
  acquire_sharex_lock_sh, release_sharex_lock_sh, acquire_sharex_lock_ex, release_sharex_lock_ex,
}
use tdx_module.Tlb
use tdx_module.Tlb.{
  vcpu_ready, vcpu_active, vcpu_disabled, vcpu_no_lp, EpochTracking, Tdvps, Result, Associated,
  Adjusted, Answer,
}

-- What an association does to the VCPU.
pub record AssociatedOk (v : Tdvps) (num : ℕ) (a : Associated) : Type 0 where
  pub state : a.vcpu.state ≡ v.state
  pub epoch : a.vcpu.vcpu_epoch ≡ v.vcpu_epoch
  pub count :
      a.num_assoc_vcpus + (if v.assoc_lpid == vcpu_no_lp then 0 else 1)
      ≡ num + (if a.vcpu.assoc_lpid == vcpu_no_lp then 0 else 1)

pub check_and_associate-ok :
    (lp_id seamdb_index num : ℕ) (v : Tdvps) (allow_disabled : Bool)
    → lp_id < vcpu_no_lp
    → num < 65536
    → AssociatedOk v num (Tlb.check_and_associate_vcpu lp_id seamdb_index v num allow_disabled)
unfolding Tlb.check_and_associate_vcpu Tlb.associate_vcpu
check_and_associate-ok lp_id seamdb_index num v allow_disabled lt small = record {
  state = ground arith;
  epoch = ground arith;
  count = ground arith;
}

-- Where an association places the VCPU.
pub record AssociatedAt (lp_id : ℕ) (v : Tdvps) (a : Associated) : Type 0 where
  pub state : a.vcpu.state ≡ v.state
  pub epoch : a.vcpu.vcpu_epoch ≡ v.vcpu_epoch
  pub moved :
      (a.vcpu.assoc_lpid ≡ v.assoc_lpid) ⊎ (v.assoc_lpid ≡ vcpu_no_lp) × (a.vcpu.assoc_lpid ≡ lp_id)
  pub on : a.code ≡ tdx_success → a.vcpu.assoc_lpid ≡ lp_id
  pub new : a.new_association ≡ true → v.assoc_lpid ≡ vcpu_no_lp

pub check_and_associate-at :
    (lp_id seamdb_index num : ℕ) (v : Tdvps) (allow_disabled : Bool)
    → AssociatedAt lp_id v (Tlb.check_and_associate_vcpu lp_id seamdb_index v num allow_disabled)
unfolding Tlb.check_and_associate_vcpu Tlb.associate_vcpu
check_and_associate-at lp_id seamdb_index num v allow_disabled = record {
  state = ground arith;
  epoch = ground arith;
  moved = ground arith;
  on = λ h. ground (arith, h);
  new = λ h. ground (arith, h);
}

pub check_and_associate-ready :
    (lp_id seamdb_index num : ℕ) (v : Tdvps)
    → (Tlb.check_and_associate_vcpu lp_id seamdb_index v num false).code ≡ tdx_success
    → v.state ≡ vcpu_ready
unfolding Tlb.check_and_associate_vcpu Tlb.associate_vcpu
check_and_associate-ready lp_id seamdb_index num v h = ground (arith, h)

pub invalidate_each-keeps :
    (ids : List ℕ) (v : Tdvps)
    → ((Tlb.invalidate_each ids v).state ≡ v.state)
      × ((Tlb.invalidate_each ids v).assoc_lpid ≡ v.assoc_lpid)
      × ((Tlb.invalidate_each ids v).vcpu_epoch ≡ v.vcpu_epoch)
invalidate_each-keeps [] v = (refl, refl, refl)
invalidate_each-keeps (vm ∷ ids) v =
    invalidate_each-keeps ids (Tlb.invalidate_gpa_translations vm v)

pub vmclear_each-keeps :
    (ids : List ℕ) (v : Tdvps)
    → ((Tlb.vmclear_each ids v).state ≡ v.state)
      × ((Tlb.vmclear_each ids v).vcpu_epoch ≡ v.vcpu_epoch)
vmclear_each-keeps [] v = (refl, refl)
vmclear_each-keeps (vm ∷ ids) v = vmclear_each-keeps ids (Tlb.vmclear_vmcs vm v)

-- What adjusting the epoch does to the counters and to the VCPU.
pub record AdjustedOk (num_l2_vms : ℕ) (e : EpochTracking) (v : Tdvps) (new_association : Bool)
    (r : Adjusted) : Type 0 where
  pub epoch : r.tracking.td_epoch ≡ e.td_epoch
  pub state : r.vcpu.state ≡ v.state
  pub lpid : r.vcpu.assoc_lpid ≡ v.assoc_lpid
  pub counted :
      r.acquired ≡ true
      → (p : ℕ)
      → r.tracking.refcount p
        ≡ (if e.td_epoch % 2 == p then (e.refcount p + 1) % 65536 else e.refcount p)
  pub sampled : r.acquired ≡ true → r.vcpu.vcpu_epoch ≡ e.td_epoch
  pub flushed :
      (r.flushed ≡ Tlb.vms num_l2_vms)
      ⊎ (r.flushed ≡ []) × ((r.vcpu.vcpu_epoch ≡ v.vcpu_epoch) ⊎ (new_association ≡ true))
  pub uncounted :
      r.acquired ≡ false
      → (r.vcpu.vcpu_epoch ≡ v.vcpu_epoch) × ((p : ℕ) → r.tracking.refcount p ≡ e.refcount p)

adjusted_flushes :
    (num_l2_vms w : ℕ) (e : EpochTracking) (v : Tdvps) (new_association : Bool)
    → let r : Adjusted =
        Tlb.adjusted num_l2_vms
          (record (Tlb.counted e) { epoch_lock = w })
          e.td_epoch
          v
          new_association in
      (r.flushed ≡ Tlb.vms num_l2_vms)
      ⊎ (r.flushed ≡ []) × ((r.vcpu.vcpu_epoch ≡ v.vcpu_epoch) ⊎ (new_association ≡ true))
unfolding Tlb.adjusted
adjusted_flushes num_l2_vms w e v new_association = elim (Bool-cases (e.td_epoch != v.vcpu_epoch)) [
  | inl moved ↦ elim (Bool-cases new_association) [
    | inl new ↦ rw (moved, new) (inr (refl, inr refl))
    | inr old ↦ rw (moved, old) (inl refl)
  ]
  | inr same ↦ rw same (inr (refl, inl refl))
]

adjusted-ok :
    (num_l2_vms w : ℕ) (e : EpochTracking) (v : Tdvps) (new_association : Bool)
    → AdjustedOk num_l2_vms e v new_association (
        Tlb.adjusted num_l2_vms
          (record (Tlb.counted e) { epoch_lock = w })
          e.td_epoch
          v
          new_association)
unfolding Tlb.adjusted Tlb.invalidate_all_gpa_translations
adjusted-ok num_l2_vms w e v new_association =
    let kept = invalidate_each-keeps (Tlb.vms num_l2_vms) v in
    record {
      epoch = ground arith;
      state = ground (arith, kept.0);
      lpid = ground (arith, kept.1);
      counted = λ a p. ground arith;
      sampled = λ a. ground (arith);
      flushed = adjusted_flushes num_l2_vms w e v new_association;
      uncounted = λ a. ground arith;
    }

not_adjusted-ok :
    (num_l2_vms : ℕ) (e : EpochTracking) (v : Tdvps) (new_association : Bool) (w : ℕ)
    → AdjustedOk num_l2_vms e v new_association (Tlb.not_adjusted e v w)
not_adjusted-ok num_l2_vms e v new_association w = record {
  epoch = refl;
  state = refl;
  lpid = refl;
  counted = λ a p. cc (a);
  sampled = λ a. cc (a);
  flushed = inr (refl, inl refl);
  uncounted = λ a. (refl, λ p. refl);
}

ok-injective : {A : Type 0} {x y : A} → Tlb.ok x ≡ Tlb.ok y → x ≡ y
ok-injective h = cc (h)

answered-ok :
    (num_l2_vms : ℕ) (e : EpochTracking) (v : Tdvps) (new_association : Bool)
    (x : Atomic.Outcome LockReturn × ℕ) (r : Adjusted)
    → Tlb.when_acquired_sh num_l2_vms e v new_association x ≡ Tlb.ok r
    → AdjustedOk num_l2_vms e v new_association r
answered-ok num_l2_vms e v new_association (Atomic.done success, w) r h =
    released (Atomic.run release_sharex_lock_sh w) h
  where
    released :
        (y : Atomic.Outcome (Unit {0}) × ℕ)
        → Tlb.when_released_sh
            (Tlb.counted e)
            (λ e'. Tlb.adjusted num_l2_vms e' e.td_epoch v new_association)
            y
          ≡ Tlb.ok r
        → AdjustedOk num_l2_vms e v new_association r
    released (Atomic.done u, w') h =
        subst (AdjustedOk num_l2_vms e v new_association) (ok-injective h)
          (adjusted-ok num_l2_vms w' e v new_association)
    released (Atomic.halted id, w') h = cc (h)
answered-ok num_l2_vms e v new_association (Atomic.done fail, w) r h =
    subst (AdjustedOk num_l2_vms e v new_association) (ok-injective h)
      (not_adjusted-ok num_l2_vms e v new_association w)
answered-ok num_l2_vms e v new_association (Atomic.done fail_host_priority, w) r h =
    subst (AdjustedOk num_l2_vms e v new_association) (ok-injective h)
      (not_adjusted-ok num_l2_vms e v new_association w)
answered-ok num_l2_vms e v new_association (Atomic.halted id, w) r h = cc (h)

pub adjust-ok :
    (num_l2_vms : ℕ) (e : EpochTracking) (v : Tdvps) (new_association : Bool) (r : Adjusted)
    → Tlb.adjust_tlb_tracking_state num_l2_vms e v new_association ≡ Tlb.ok r
    → AdjustedOk num_l2_vms e v new_association r
unfolding Tlb.adjust_tlb_tracking_state
adjust-ok num_l2_vms e v new_association r h =
    answered-ok num_l2_vms e v new_association (Atomic.run acquire_sharex_lock_sh e.epoch_lock) r h

-- Tracking changes no more than the lock.
pub record Kept (e e' : EpochTracking) : Type 0 where
  pub epoch : e'.td_epoch ≡ e.td_epoch
  pub counters : (p : ℕ) → e'.refcount p ≡ e.refcount p

released_ex-Kept :
    (e : EpochTracking) (code : ApiErrorType) (x : Atomic.Outcome (Unit {0}) × ℕ) (a : Answer)
    → Tlb.when_released_ex e code x ≡ Tlb.ok a
    → Kept e a.tracking
released_ex-Kept e code (Atomic.done u, w) a h =
    rw⁻¹ (ok-injective h) (record { epoch = refl; counters = λ p. refl })
released_ex-Kept e code (Atomic.halted id, w) a h = cc (h)

track_locked-Kept :
    (e : EpochTracking) (w : ℕ) (a : Answer) → Tlb.track_locked e w ≡ Tlb.ok a → Kept e a.tracking
unfolding Tlb.track_locked
track_locked-Kept e w a h = elim (Bool-cases (e.refcount (1 - e.td_epoch % 2) != 0)) [
  | inl busy ↦ released_ex-Kept e _ (Atomic.run release_sharex_lock_ex w) a (rw busy at h)
  | inr free ↦ elim (Bool-cases (leb (2 ^ 63 - 1) e.td_epoch)) [
    | inl over ↦ cc (rw (free, over) at h)
    | inr below ↦
        released_ex-Kept e _ (Atomic.run release_sharex_lock_ex w) a (rw (free, below) at h)
  ]
]

answer-Kept :
    (e : EpochTracking) (x : Atomic.Outcome LockReturn × ℕ) (a : Answer)
    → Tlb.when_acquired_ex e x ≡ Tlb.ok a
    → Kept e a.tracking
answer-Kept e (Atomic.done success, w) a h = track_locked-Kept e w a h
answer-Kept e (Atomic.done fail, w) a h =
    rw⁻¹ (ok-injective h) (record { epoch = refl; counters = λ p. refl })
answer-Kept e (Atomic.done fail_host_priority, w) a h =
    rw⁻¹ (ok-injective h) (record { epoch = refl; counters = λ p. refl })
answer-Kept e (Atomic.halted id, w) a h = cc (h)

pub track-Kept :
    (e : EpochTracking) (a : Answer) → Tlb.tdh_mem_track e ≡ Tlb.ok a → Kept e a.tracking
unfolding Tlb.tdh_mem_track
track-Kept e a h = answer-Kept e (Atomic.run acquire_sharex_lock_ex e.epoch_lock) a h

pub record Paused (e e' : EpochTracking) : Type 0 where
  pub none_running : (e.refcount 0 ≡ 0) × (e.refcount 1 ≡ 0)
  pub epoch : e'.td_epoch ≡ (e.td_epoch + 1) % 2 ^ 64
  pub counters : (p : ℕ) → e'.refcount p ≡ e.refcount p

pub pause-Paused : (e e' : EpochTracking) → Tlb.tdh_export_pause e ≡ Tlb.ok e' → Paused e e'
unfolding Tlb.tdh_export_pause
pause-Paused e e' h = elim (Bool-cases (e.refcount 0 != 0 || e.refcount 1 != 0)) [
  | inl some_running ↦ cc (rw some_running at h)
  | inr free ↦
      rw⁻¹ (ok-injective (rw free at h))
        (record { none_running = ground (arith, free); epoch = refl; counters = λ p. refl })
]
