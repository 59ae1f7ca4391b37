-- ===== src/Tlb/Stuck.antt =====
-- The tracking test of a blocked page in runs without a pause.
use tdx_module.Base.{ℕ, ◌+◌, ◌^◌, ◌≤◌, ◌<◌, ◌≡◌, refl, ◌∙◌, arith, false}
use tdx_module.Tlb
use tdx_module.Tlb.System.{System, Initial, Run, QuietRun, quiet, quiet_step}
use tdx_module.Tlb.Counts.{Counted}
use tdx_module.Tlb.Counted.{Step-Counted}
use tdx_module.Tlb.Tracked.{Run-Counted}

QuietRun-epoch :
    (n num_l2_vms seamdb_index : ℕ) (s u : System)
    → n < 65536
    → s.tracking.td_epoch + 1 < 2 ^ 64
    → Counted n s
    → QuietRun n num_l2_vms seamdb_index s u
    → Counted n u × (u.tracking.td_epoch ≡ s.tracking.td_epoch)
QuietRun-epoch n vms index s _ small below k quiet = (k, refl)
QuietRun-epoch n vms index s u small below k (quiet_step {t = t} run last) =
    let (counted, same) = QuietRun-epoch n vms index s t small below k run in
    let next = Step-Counted n vms index t u false small (omega (arith, below, same)) counted last in
    (next.counted, next.epoch refl ∙ same)

untracked_now :
    (e : Tlb.EpochTracking) (bepoch : ℕ)
    → 1 ≤ bepoch
    → bepoch < 2 ^ 64
    → e.td_epoch ≡ bepoch
    → Tlb.is_tlb_tracked e bepoch ≡ false
unfolding Tlb.is_tlb_tracked
untracked_now e bepoch pos below same = ground (arith, same)

-- In every system of fewer than 65536 VCPUs that fewer than 2^63 steps reach from a TD as it is built, a
-- page that is blocked takes the TD's epoch. However the VCPUs enter and leave from there, and however
-- often the host tracks, and with whatever answer, as long as no export pauses the TD the tracking test
-- never accepts the page: tracking does not move the epoch.
pub blocked_page-untracked :
    (n num_l2_vms seamdb_index k : ℕ) (s t u : System)
    → n < 65536
    → Initial n s
    → k < 2 ^ 63
    → Run n num_l2_vms seamdb_index s k t
    → QuietRun n num_l2_vms seamdb_index t u
    → Tlb.is_tlb_tracked u.tracking t.tracking.td_epoch ≡ false
blocked_page-untracked n vms index k s t u small init few run after =
    let (counted, early) = Run-Counted n vms index s k t small init few run in
    let (_, same) =
      QuietRun-epoch n vms index t u small (omega (arith, early, few)) counted after in
    untracked_now u.tracking t.tracking.td_epoch counted.epoch (omega (arith, early, few)) same
