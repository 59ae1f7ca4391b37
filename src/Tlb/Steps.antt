-- ===== src/Tlb/Steps.antt =====
-- What the processors have cached under each step.
use tdx_module.Base.{ℕ, ◌≤◌, ◌<◌, ◌≡◌, refl, ◌⊎◌, inl, arith, Bool, true, false, ◌==◌}
use tdx_module.Base.Family.{assign}
use tdx_module.Tlb
use tdx_module.Tlb.{
  vcpu_ready, vcpu_active, vcpu_disabled, vcpu_no_lp, EpochTracking, Tdvps, Result, Associated,
  Adjusted, Answer, Flushed,
}
use tdx_module.Tlb.System.{
  Cpu, System, running, cache, Idle, OnIdle, Step, associates, enters, finds_busy, turns_back,
  leaves, flushes, caches, runs_another, tracks, pauses,
}
use tdx_module.Tlb.Operations.{AssociatedAt, check_and_associate-at}
use tdx_module.Tlb.Counts.{Counted}
use tdx_module.Tlb.Entry.{Tried, try}
use tdx_module.Tlb.Cached.{Cached, move-Cached}
use tdx_module.Tlb.Flushes.{attempted-Moves, entered-Moves, flushed-Moves}

-- Only the VCPU changes, and not its epoch.
replace-Cached :
    (n num_l2_vms : ℕ) (s : System) (i : ℕ) (c : Cpu) (e : EpochTracking) (num : ℕ)
    → c.vps.vcpu_epoch ≡ (s.cpu i).vps.vcpu_epoch
    → (c.vps.assoc_lpid ≡ (s.cpu i).vps.assoc_lpid) ⊎ ((s.cpu i).vps.assoc_lpid ≡ vcpu_no_lp)
    → (running c ≡ true → running (s.cpu i) ≡ true)
    → i < n
    → Cached n num_l2_vms s
    → Cached n num_l2_vms
        (record { tracking = e; num_assoc_vcpus = num; cpu = assign i c s.cpu; lps = s.lps })
replace-Cached n num_l2_vms s i c e num epoch place active small k = record {
  own = λ j p lt on last. ground (arith, k.own j p lt on last, place, on);
  since = λ j p vm f lt on last le h. ground (arith, k.since j p vm f lt on last le h, epoch);
  at_work = λ j lt now. ground (arith, k.at_work j lt, active, place, now);
  alone = λ p vm on le apart.
      k.alone p vm on le (λ j lt at. ground (arith, apart j lt, apart i small, place, at, on));
}

cache-Cached :
    (n num_l2_vms : ℕ) (s : System) (i vm : ℕ)
    → i < n
    → running (s.cpu i) ≡ true
    → (s.cpu i).vps.vcpu_epoch ≤ s.tracking.td_epoch
    → Cached n num_l2_vms s
    → Cached n num_l2_vms (record s {
      lps =
          assign
            (s.cpu i).vps.assoc_lpid
            (cache vm s.tracking.td_epoch (s.lps (s.cpu i).vps.assoc_lpid))
            s.lps;
    })
cache-Cached n num_l2_vms s i vm small active early k =
    let work = k.at_work i small active in
    record {
      own = λ j p lt on last. ground (arith, k.own j p lt on, last);
      since = λ j p vm' e lt on last le h.
          ground (arith, k.since j p vm' e lt on, last, le, h, early, work);
      at_work = λ j lt now. ground (arith, k.at_work j lt now);
      alone = λ p vm' on le apart. ground (arith, k.alone p vm' on le apart, apart i small);
    }

another-Cached :
    (n num_l2_vms : ℕ) (s : System) (lp_id tdvpr_pa : ℕ)
    → n ≤ tdvpr_pa
    → Idle n s lp_id
    → Cached n num_l2_vms s
    → Cached n num_l2_vms
        (record s { lps = assign lp_id (record (s.lps lp_id) { last_tdvpr_pa = tdvpr_pa }) s.lps })
another-Cached n num_l2_vms s lp_id tdvpr_pa other idle k = record {
  own = λ j p lt on last. ground (arith, k.own j p lt on, last, other);
  since = λ j p vm e lt on last le h. ground (arith, k.since j p vm e lt on, last, le, h, other);
  at_work = λ j lt now. ground (arith, k.at_work j lt now, idle j lt now);
  alone = λ p vm on le apart. ground (arith, k.alone p vm on le apart);
}

same_tlbs :
    (n num_l2_vms : ℕ) (s : System) (e : EpochTracking)
    → Cached n num_l2_vms s
    → Cached n num_l2_vms (record s { tracking = e })
same_tlbs n num_l2_vms s e k = record {
  own = k.own;
  since = k.since;
  at_work = k.at_work;
  alone = k.alone;
}

-- The association itself.
associated-at :
    (lp_id seamdb_index : ℕ) (s : System) (i : ℕ) (a : Associated)
    → Tlb.check_and_associate_vcpu lp_id seamdb_index (s.cpu i).vps s.num_assoc_vcpus false ≡ a
    → AssociatedAt lp_id (s.cpu i).vps a
associated-at lp_id seamdb_index s i a ha =
    rw⁻¹ ha (check_and_associate-at lp_id seamdb_index s.num_assoc_vcpus (s.cpu i).vps false)

not_active :
    {num_l2_vms : ℕ} {s : System} {i : ℕ} {a : Associated} {r : Adjusted}
    → Tried num_l2_vms s i a r
    → (r.vcpu.state == vcpu_active) ≡ false
not_active t = ground (arith, t.done.state, t.assoc.state, t.ready)

pub Step-Cached :
    (n num_l2_vms seamdb_index : ℕ) (s u : System) (moves : Bool)
    → n < 65536
    → Counted n s
    → Cached n num_l2_vms s
    → (last : Step n num_l2_vms seamdb_index s moves u)
    → OnIdle n num_l2_vms seamdb_index s u moves last
    → Cached n num_l2_vms u
Step-Cached n vms index s _ _ small c k (associates i lp_id allow lt lp) idle =
    let assoc = check_and_associate-at lp_id index s.num_assoc_vcpus (s.cpu i).vps allow in
    replace-Cached n vms s i _ _ _ assoc.epoch (ground (arith, assoc.moved))
      (λ now. ground (arith, assoc.state, now)) lt k
Step-Cached n vms index s _ _ small c k (enters i lp_id a r lt lp ha code hr got) idle =
    let t = try n i lp_id index vms s a r lt small lp c ha code hr in
    move-Cached n vms s i lp_id _ _ lp lt idle k
      (entered-Moves n vms s i lp_id a r t (associated-at lp_id index s i a ha) code lt lp k) _ _
Step-Cached n vms index s _ _ small c k (finds_busy i lp_id a r lt lp ha code hr busy) idle =
    let t = try n i lp_id index vms s a r lt small lp c ha code hr in
    move-Cached n vms s i lp_id _ _ lp lt idle k
      (attempted-Moves n vms s i lp_id a r t (associated-at lp_id index s i a ha) code lt lp k
        r.vcpu.state (not_active t))
      _ _
Step-Cached n vms index s _ _ small c k (turns_back i lp_id a r lt lp ha code hr got) idle =
    let t = try n i lp_id index vms s a r lt small lp c ha code hr in
    move-Cached n vms s i lp_id _ _ lp lt idle k
      (attempted-Moves n vms s i lp_id a r t (associated-at lp_id index s i a ha) code lt lp k
        r.vcpu.state (not_active t))
      _ _
Step-Cached n vms index s _ _ small c k (leaves i state lt active out) idle =
    replace-Cached n vms s i _ _ _ refl (inl refl) (λ now. active) lt k
Step-Cached n vms index s _ _ small c k (flushes i lp_id f lt lp out hf) idle =
    move-Cached n vms s i lp_id _ _ lp lt idle k
      (flushed-Moves n vms s i lp_id f small lt out k lp hf) _ _
Step-Cached n vms index s _ _ small c k (caches i vm lt active) idle =
    cache-Cached n vms s i vm lt active (c.placed i lt).sampled k
Step-Cached n vms index s _ _ small c k (runs_another lp_id tdvpr_pa other) idle =
    another-Cached n vms s lp_id tdvpr_pa other idle k
Step-Cached n vms index s _ _ small c k (tracks a h) idle = same_tlbs n vms s _ k
Step-Cached n vms index s _ _ small c k (pauses e h) idle = same_tlbs n vms s _ k
