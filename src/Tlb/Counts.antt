-- ===== src/Tlb/Counts.antt =====
-- What is counted of the VCPUs, and how the change of one of them moves the counts.
use tdx_module.Base.{ℕ, ◌+◌, ◌%◌, ◌≤◌, ◌<◌, ◌≡◌, arith, true, ◌&&◌, ◌==◌, if◌then◌else◌}
use tdx_module.Base.Family.{assign, tally, tally-assign, tally-le}
use tdx_module.Tlb.{vcpu_no_lp, EpochTracking}
use tdx_module.Tlb.System.{Cpu, Lp, System, running}

-- A running VCPU counts at the parity of its epoch.
abbrev pub at_parity : ℕ → Cpu → ℕ
at_parity p c = if running c && (c.vps.vcpu_epoch % 2 == p) then 1 else 0

abbrev pub is_associated : Cpu → ℕ
is_associated c = if c.vps.assoc_lpid == vcpu_no_lp then 0 else 1

pub record Placed (td_epoch : ℕ) (c : Cpu) : Type 0 where
  pub sampled : c.vps.vcpu_epoch ≤ td_epoch
  pub recent : running c ≡ true → td_epoch ≤ c.vps.vcpu_epoch + 1

pub record Counted (n : ℕ) (s : System) : Type 0 where
  pub epoch : 1 ≤ s.tracking.td_epoch
  pub counters : (p : ℕ) → p < 2 → s.tracking.refcount p ≡ tally (at_parity p) n s.cpu
  pub associated : s.num_assoc_vcpus ≡ tally is_associated n s.cpu
  pub placed : (i : ℕ) → i < n → Placed s.tracking.td_epoch (s.cpu i)

-- One VCPU changes, and the two counts with it.
pub record Replaces (s : System) (i : ℕ) (c : Cpu) (e : EpochTracking) (num : ℕ) : Type 0 where
  pub epoch : e.td_epoch ≡ s.tracking.td_epoch
  pub counters :
      (p : ℕ) → p < 2 → e.refcount p + at_parity p (s.cpu i) ≡ s.tracking.refcount p + at_parity p c
  pub associated : num + is_associated (s.cpu i) ≡ s.num_assoc_vcpus + is_associated c
  pub placed : Placed s.tracking.td_epoch c

pub replace-Counted :
    (n i : ℕ) (s : System) (c : Cpu) (e : EpochTracking) (num : ℕ) (lps : ℕ → Lp)
    → i < n
    → Counted n s
    → Replaces s i c e num
    → Counted n (record { tracking = e; num_assoc_vcpus = num; cpu = assign i c s.cpu; lps = lps })
replace-Counted n i s c e num lps lt k r = record {
  epoch = rw r.epoch k.epoch;
  counters = λ p small.
      omega
        (arith, k.counters p small, r.counters p small, tally-assign (at_parity p) n i c s.cpu lt);
  associated = omega (arith, k.associated, r.associated, tally-assign is_associated n i c s.cpu lt);
  placed = λ j small. ground (arith, k.placed j small, r.placed, r.epoch);
}

pub at_parity_small : (p : ℕ) (c : Cpu) → at_parity p c ≤ 1
at_parity_small p c = ground arith

pub is_associated_small : (c : Cpu) → is_associated c ≤ 1
is_associated_small c = ground arith

pub few_associated : (n : ℕ) (s : System) → n < 65536 → Counted n s → s.num_assoc_vcpus < 65536
few_associated n s small k =
    omega (arith, k.associated, tally-le is_associated is_associated_small n s.cpu)
