-- ===== src/Tlb/System.antt =====
-- The VCPUs of a TD on their processors; each step is one of the modelled sections.
use tdx_module.Base.{
  ℕ, suc, ◌<◌, ◌≤◌, ◌≡◌, ◌≢◌, Bool, true, false, ◌||◌, Option, none, some, List, [], ◌∷◌, ◌==◌,
  if◌then◌else◌,
}
use tdx_module.Base.Family.{assign}
use tdx_module.ErrorCodes.{tdx_success}
use tdx_module.Tlb.{
  vcpu_ready, vcpu_active, vcpu_no_lp, EpochTracking, Tdvps, ok, Associated, Adjusted, Answer,
  Flushed, null_pa, switch_vcpu, check_and_associate_vcpu, adjust_tlb_tracking_state,
  revert_tlb_tracking_state, tdh_mem_track, tdh_export_pause, tdh_vp_flush,
}

pub record Cpu : Type 0 where
  pub vps : Tdvps

-- A processor: for each VM of the TD the epoch of the earliest translation that it has cached, if it has
-- cached one, and the code's note of the VCPU that it ran last.
pub record Lp : Type 0 where
  pub tlb : ℕ → Option ℕ
  pub last_tdvpr_pa : ℕ

-- The number of a VCPU below `n` stands for the address of its root page.
pub record System : Type 0 where
  pub tracking : EpochTracking
  pub num_assoc_vcpus : ℕ
  pub cpu : ℕ → Cpu
  pub lps : ℕ → Lp

abbrev pub running : Cpu → Bool
running c = c.vps.state == vcpu_active

abbrev pub listed : ℕ → List ℕ → Bool
listed vm [] = false
listed vm (id ∷ ids) = (id == vm) || listed vm ids

-- The processor drops what it has cached for each VM of the list.
abbrev pub flush_each : List ℕ → Lp → Lp
flush_each ids l = record l { tlb = λ vm. if listed vm ids then none else l.tlb vm }

-- A translation is cached; an earlier one stays the earliest.
abbrev pub with_cached : ℕ → Option ℕ → Option ℕ
with_cached td_epoch none = some td_epoch
with_cached td_epoch (some e) = some e

abbrev pub cache : ℕ → ℕ → Lp → Lp
cache vm td_epoch l = record l { tlb = assign vm (with_cached td_epoch (l.tlb vm)) l.tlb }

-- The processor that VCPU `i` switches to.
abbrev pub switch_to : ℕ → ℕ → Lp → Lp
switch_to num_l2_vms i l =
    flush_each (switch_vcpu num_l2_vms i l.last_tdvpr_pa).flushed
      (record l { last_tdvpr_pa = (switch_vcpu num_l2_vms i l.last_tdvpr_pa).last_tdvpr_pa })

abbrev pub associated_in : System → ℕ → Associated → System
associated_in s i a = record s {
  num_assoc_vcpus = a.num_assoc_vcpus;
  cpu = assign i (record (s.cpu i) { vps = a.vcpu }) s.cpu;
}

-- The VCPU after its epoch is adjusted, and the processor; `state` is the VCPU's state then.
abbrev pub adjusted_in : System → ℕ → ℕ → Associated → Adjusted → EpochTracking → ℕ → Lp → System
adjusted_in s i lp_id a r tracking state l = record {
  tracking = tracking;
  num_assoc_vcpus = a.num_assoc_vcpus;
  cpu = assign i (record { vps = record r.vcpu { state = state } }) s.cpu;
  lps = assign lp_id l s.lps;
}

-- One of `n` VCPUs enters, leaves or is associated or flushed, or the host tracks; or a processor caches a
-- translation for the VCPU that runs on it, or runs a VCPU of another TD. A step of the
-- kind `true` is the pause of an export, the only one that moves the epoch.
pub data Step (n num_l2_vms seamdb_index : ℕ) (s : System) : Bool → System → Type 0 where
  associates :
      (i lp_id : ℕ) (allow_disabled : Bool)
      → i < n
      → lp_id < vcpu_no_lp
      → Step n num_l2_vms seamdb_index s false (
          associated_in s i (
            check_and_associate_vcpu lp_id seamdb_index
              (s.cpu i).vps
              s.num_assoc_vcpus
              allow_disabled))
  enters :
      (i lp_id : ℕ) (a : Associated) (r : Adjusted)
      → i < n
      → lp_id < vcpu_no_lp
      → check_and_associate_vcpu lp_id seamdb_index (s.cpu i).vps s.num_assoc_vcpus false ≡ a
      → a.code ≡ tdx_success
      → adjust_tlb_tracking_state num_l2_vms s.tracking a.vcpu a.new_association ≡ ok r
      → r.acquired ≡ true
      → Step n num_l2_vms seamdb_index s false (
          adjusted_in s i lp_id a r r.tracking vcpu_active
            (switch_to num_l2_vms i (flush_each r.flushed (s.lps lp_id))))
  finds_busy :
      (i lp_id : ℕ) (a : Associated) (r : Adjusted)
      → i < n
      → lp_id < vcpu_no_lp
      → check_and_associate_vcpu lp_id seamdb_index (s.cpu i).vps s.num_assoc_vcpus false ≡ a
      → a.code ≡ tdx_success
      → adjust_tlb_tracking_state num_l2_vms s.tracking a.vcpu a.new_association ≡ ok r
      → r.acquired ≡ false
      → Step n num_l2_vms seamdb_index s false
          (adjusted_in s i lp_id a r r.tracking r.vcpu.state (flush_each r.flushed (s.lps lp_id)))
  turns_back :
      (i lp_id : ℕ) (a : Associated) (r : Adjusted)
      → i < n
      → lp_id < vcpu_no_lp
      → check_and_associate_vcpu lp_id seamdb_index (s.cpu i).vps s.num_assoc_vcpus false ≡ a
      → a.code ≡ tdx_success
      → adjust_tlb_tracking_state num_l2_vms s.tracking a.vcpu a.new_association ≡ ok r
      → r.acquired ≡ true
      → Step n num_l2_vms seamdb_index s false (
          adjusted_in s i lp_id a r
            (revert_tlb_tracking_state r.tracking r.vcpu)
            r.vcpu.state
            (flush_each r.flushed (s.lps lp_id)))
  leaves :
      (i state : ℕ)
      → i < n
      → running (s.cpu i) ≡ true
      → state ≢ vcpu_active
      → Step n num_l2_vms seamdb_index s false (record s {
        tracking = revert_tlb_tracking_state s.tracking (s.cpu i).vps;
        cpu = assign i (record (s.cpu i) { vps = record (s.cpu i).vps { state = state } }) s.cpu;
      })
  flushes :
      (i lp_id : ℕ) (f : Flushed)
      → i < n
      → lp_id < vcpu_no_lp
      → running (s.cpu i) ≡ false
      → tdh_vp_flush num_l2_vms lp_id (s.lps lp_id).last_tdvpr_pa (s.cpu i).vps s.num_assoc_vcpus
        ≡ f
      → Step n num_l2_vms seamdb_index s false (record s {
        num_assoc_vcpus = f.num_assoc_vcpus;
        cpu = assign i (record { vps = f.vcpu }) s.cpu;
        lps =
            assign lp_id
              (flush_each f.flushed (record (s.lps lp_id) { last_tdvpr_pa = f.last_tdvpr_pa }))
              s.lps;
      })
  caches :
      (i vm : ℕ)
      → i < n
      → running (s.cpu i) ≡ true
      → Step n num_l2_vms seamdb_index s false (record s {
        lps =
            assign
              (s.cpu i).vps.assoc_lpid
              (cache vm s.tracking.td_epoch (s.lps (s.cpu i).vps.assoc_lpid))
              s.lps;
      })
  runs_another :
      (lp_id tdvpr_pa : ℕ)
      → n ≤ tdvpr_pa
      → Step n num_l2_vms seamdb_index s false (record s {
        lps = assign lp_id (record (s.lps lp_id) { last_tdvpr_pa = tdvpr_pa }) s.lps;
      })
  tracks :
      (a : Answer)
      → tdh_mem_track s.tracking ≡ ok a
      → Step n num_l2_vms seamdb_index s false (record s { tracking = a.tracking })
  pauses :
      (e : EpochTracking)
      → tdh_export_pause s.tracking ≡ ok e
      → Step n num_l2_vms seamdb_index s true (record s { tracking = e })

-- A TD as it is built: epoch 1, no VCPU running or associated.
pub record Initial (n : ℕ) (s : System) : Type 0 where
  pub epoch : s.tracking.td_epoch ≡ 1
  pub none_counted : (p : ℕ) → s.tracking.refcount p ≡ 0
  pub none_associated : s.num_assoc_vcpus ≡ 0
  pub ready : (i : ℕ) → (s.cpu i).vps.state ≡ vcpu_ready
  pub apart : (i : ℕ) → (s.cpu i).vps.assoc_lpid ≡ vcpu_no_lp
  pub unused : (i : ℕ) → (s.cpu i).vps.vcpu_epoch ≡ 0
  pub uncached : (lp vm : ℕ) → (s.lps lp).tlb vm ≡ none
  pub fresh : (lp : ℕ) → (s.lps lp).last_tdvpr_pa ≡ null_pa

-- Runs of `k` steps; those of `quiet` have no pause in them.
pub data Run (n num_l2_vms seamdb_index : ℕ) (s : System) : ℕ → System → Type 0 where
  stay : Run n num_l2_vms seamdb_index s 0 s
  step :
      {k : ℕ} {t u : System} {moves : Bool}
      → Run n num_l2_vms seamdb_index s k t
      → Step n num_l2_vms seamdb_index t moves u
      → Run n num_l2_vms seamdb_index s (suc k) u

pub data QuietRun (n num_l2_vms seamdb_index : ℕ) (s : System) : System → Type 0 where
  quiet : QuietRun n num_l2_vms seamdb_index s s
  quiet_step :
      {t u : System}
      → QuietRun n num_l2_vms seamdb_index s t
      → Step n num_l2_vms seamdb_index t false u
      → QuietRun n num_l2_vms seamdb_index s u

abbrev pub Idle : ℕ → System → ℕ → Type 0
Idle n s lp_id = (j : ℕ) → j < n → running (s.cpu j) ≡ true → (s.cpu j).vps.assoc_lpid ≢ lp_id

-- A processor enters, flushes or runs a VCPU of another TD only when no VCPU of the TD runs on it.
abbrev pub OnIdle :
    (n num_l2_vms seamdb_index : ℕ) (s u : System) (moves : Bool)
    → Step n num_l2_vms seamdb_index s moves u
    → Type 0
OnIdle n num_l2_vms seamdb_index s _ _ (associates i lp_id allow lt lp) = Idle n s lp_id
OnIdle n num_l2_vms seamdb_index s _ _ (enters i lp_id a r lt lp ha code hr got) = Idle n s lp_id
OnIdle n num_l2_vms seamdb_index s _ _ (finds_busy i lp_id a r lt lp ha code hr busy) =
    Idle n s lp_id
OnIdle n num_l2_vms seamdb_index s _ _ (turns_back i lp_id a r lt lp ha code hr got) =
    Idle n s lp_id
OnIdle n num_l2_vms seamdb_index s _ _ (leaves i state lt active out) = Unit
OnIdle n num_l2_vms seamdb_index s _ _ (flushes i lp_id f lt lp out hf) = Idle n s lp_id
OnIdle n num_l2_vms seamdb_index s _ _ (caches i vm lt active) = Unit
OnIdle n num_l2_vms seamdb_index s _ _ (runs_another lp_id tdvpr_pa other) = Idle n s lp_id
OnIdle n num_l2_vms seamdb_index s _ _ (tracks a h) = Unit
OnIdle n num_l2_vms seamdb_index s _ _ (pauses e h) = Unit

-- A run in which each processor does one thing at a time.
pub data IdleRun (n num_l2_vms seamdb_index : ℕ) (s : System) : ℕ → System → Type 0 where
  idle_stay : IdleRun n num_l2_vms seamdb_index s 0 s
  idle_step :
      {k : ℕ} {t u : System} {moves : Bool}
      → IdleRun n num_l2_vms seamdb_index s k t
      → (last : Step n num_l2_vms seamdb_index t moves u)
      → OnIdle n num_l2_vms seamdb_index t u moves last
      → IdleRun n num_l2_vms seamdb_index s (suc k) u
