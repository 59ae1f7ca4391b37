-- ===== src/Tlb/Tracked.antt =====
-- The tracking test and the VCPUs that run.
use tdx_module.Base.{ℕ, suc, ◌+◌, ◌^◌, ◌≤◌, ◌<◌, ◌≡◌, sym, ◌∙◌, arith, true}
use tdx_module.Base.Family.{tally, tally_none}
use tdx_module.Tlb
use tdx_module.Tlb.System.{System, running, Initial, Run, stay, step}
use tdx_module.Tlb.Cached.{Cached}
use tdx_module.Tlb.Counts.{at_parity, is_associated, Counted}
use tdx_module.Tlb.Counted.{Step-Counted}

initial-Counted : (n : ℕ) (s : System) → Initial n s → Counted n s
initial-Counted n s h = record {
  epoch = omega (arith, h.epoch);
  counters = λ p two.
      h.none_counted p ∙ sym (tally_none (at_parity p) n s.cpu (λ i. ground (arith, h.ready i)));
  associated =
      h.none_associated ∙ sym (tally_none is_associated n s.cpu (λ i. ground (arith, h.apart i)));
  placed = λ i lt. record {
    sampled = omega (arith, h.unused i);
    recent = λ now. ground (arith, h.ready i, now);
  };
}

pub Run-Counted :
    (n num_l2_vms seamdb_index : ℕ) (s : System) (k : ℕ) (u : System)
    → n < 65536
    → Initial n s
    → k < 2 ^ 63
    → Run n num_l2_vms seamdb_index s k u
    → Counted n u × (u.tracking.td_epoch ≤ 1 + k)
Run-Counted n vms index s _ _ small init few stay =
    (initial-Counted n s init, omega (arith, init.epoch))
Run-Counted n vms index s (suc k) u small init few (step {t = t} {moves = moves} run last) =
    let (counted, early) = Run-Counted n vms index s k t small init (omega (arith, few)) run in
    let next = Step-Counted n vms index t u moves small (omega (arith, early, few)) counted last in
    (next.counted, omega (arith, next.later, early))

-- In every system of fewer than 65536 VCPUs that fewer than 2^63 steps reach from a TD as it is built,
-- whatever the processors do and the locks hold: each of the two counters is the number of running VCPUs
-- whose epoch has that parity, the number of associated VCPUs is the number that have a processor, and
-- the epoch of a running VCPU is that of the TD or the one before.
pub reachable-Counted :
    (n num_l2_vms seamdb_index k : ℕ) (s u : System)
    → n < 65536
    → Initial n s
    → k < 2 ^ 63
    → Run n num_l2_vms seamdb_index s k u
    → ((p : ℕ) → p < 2 → u.tracking.refcount p ≡ tally (at_parity p) n u.cpu)
      × (u.num_assoc_vcpus ≡ tally is_associated n u.cpu)
      × ((i : ℕ)
          → i < n
          → running (u.cpu i) ≡ true
          → ((u.cpu i).vps.vcpu_epoch ≤ u.tracking.td_epoch)
            × (u.tracking.td_epoch ≤ (u.cpu i).vps.vcpu_epoch + 1))
reachable-Counted n vms index k s u small init few run =
    let counted = (Run-Counted n vms index s k u small init few run).0 in
    (
      counted.counters,
      counted.associated,
      λ i lt now. ((counted.placed i lt).sampled, (counted.placed i lt).recent now),
    )
