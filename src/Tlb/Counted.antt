-- ===== src/Tlb/Counted.antt =====
-- The counters of running and of associated VCPUs under each step.
use tdx_module.Base.{ℕ, ◌+◌, ◌%◌, ◌^◌, ◌≤◌, ◌<◌, ◌≡◌, ◌≢◌, refl, ◌∙◌, arith, Bool, true, false}
use tdx_module.Base.Family.{assign, tally-le, weight-le-tally}
use tdx_module.Tlb
use tdx_module.Tlb.{
  vcpu_ready, vcpu_active, vcpu_disabled, vcpu_no_lp, EpochTracking, Tdvps, Result, Associated,
  Adjusted, Answer,
}
use tdx_module.Tlb.System.{
  Cpu, Lp, System, running, Step, caches, runs_another, associates, enters, finds_busy, turns_back,
  leaves, flushes, tracks, pauses,
}
use tdx_module.Tlb.Operations.{
  check_and_associate-ok, track-Kept, Paused, pause-Paused, invalidate_each-keeps,
  vmclear_each-keeps,
}
use tdx_module.Tlb.Counts.{
  at_parity, is_associated, Placed, Counted, Replaces, replace-Counted, at_parity_small,
  few_associated,
}
use tdx_module.Tlb.Entry.{try, entered-Replaces, busy-Replaces, turned-Replaces}

left-Replaces :
    (n i state : ℕ) (s : System)
    → i < n
    → n < 65536
    → running (s.cpu i) ≡ true
    → state ≢ vcpu_active
    → Counted n s
    → Replaces s i
        (record (s.cpu i) { vps = record (s.cpu i).vps { state = state } })
        (Tlb.revert_tlb_tracking_state s.tracking (s.cpu i).vps)
        s.num_assoc_vcpus
unfolding Tlb.revert_tlb_tracking_state
left-Replaces n i state s lt small active out k =
    let place = k.placed i lt in
    record {
      epoch = refl;
      counters = λ p two. ground (
        arith,
        k.counters p two,
        active,
        small,
        weight-le-tally (at_parity p) n i s.cpu lt,
        tally-le (at_parity p) (at_parity_small p) n s.cpu,
      );
      associated = refl;
      placed = record { sampled = place.sampled; recent = λ now. ground (arith, out, now) };
    }

flushed-Replaces :
    (n i lp_id num_l2_vms last : ℕ) (s : System)
    → i < n
    → n < 65536
    → lp_id < vcpu_no_lp
    → running (s.cpu i) ≡ false
    → Counted n s
    → Replaces s i
        (record (s.cpu i) {
          vps = (Tlb.tdh_vp_flush num_l2_vms lp_id last (s.cpu i).vps s.num_assoc_vcpus).vcpu;
        })
        s.tracking
        (Tlb.tdh_vp_flush num_l2_vms lp_id last (s.cpu i).vps s.num_assoc_vcpus).num_assoc_vcpus
unfolding Tlb.tdh_vp_flush Tlb.invalidate_all_gpa_translations
flushed-Replaces n i lp_id num_l2_vms last s lt small lp out k =
    let place = k.placed i lt in
    let kept = invalidate_each-keeps (Tlb.vms num_l2_vms) (s.cpu i).vps in
    let cleared =
      vmclear_each-keeps (Tlb.vms num_l2_vms)
        (Tlb.invalidate_each (Tlb.vms num_l2_vms) (s.cpu i).vps) in
    let counts = weight-le-tally is_associated n i s.cpu lt in
    let few = few_associated n s small k in
    record {
      epoch = refl;
      counters = λ p two. ground (arith, out, kept, cleared);
      associated = ground (arith, counts, k.associated, few, lp);
      placed = record {
        sampled = ground (arith, kept.2, cleared.1, place.sampled);
        recent = λ now. ground (arith, kept.0, cleared.0, out, now);
      };
    }

associated-Replaces :
    (n i lp_id seamdb_index : ℕ) (s : System) (allow_disabled : Bool)
    → i < n
    → n < 65536
    → lp_id < vcpu_no_lp
    → Counted n s
    → Replaces s i
        (record (s.cpu i) {
          vps =
              (Tlb.check_and_associate_vcpu lp_id seamdb_index
                (s.cpu i).vps
                s.num_assoc_vcpus
                allow_disabled).vcpu;
        })
        s.tracking
        (Tlb.check_and_associate_vcpu lp_id seamdb_index
          (s.cpu i).vps
          s.num_assoc_vcpus
          allow_disabled).num_assoc_vcpus
associated-Replaces n i lp_id seamdb_index s allow_disabled lt small lp k =
    let place = k.placed i lt in
    let assoc =
      check_and_associate-ok lp_id seamdb_index s.num_assoc_vcpus (s.cpu i).vps allow_disabled lp
        (few_associated n s small k) in
    record {
      epoch = refl;
      counters = λ p two. ground (arith, assoc.state, assoc.epoch);
      associated = assoc.count;
      placed = record {
        sampled = omega (arith, assoc.epoch, place.sampled);
        recent = λ now. ground (arith, assoc.epoch, assoc.state, place.recent, now);
      };
    }

Paused-Placed :
    (n i : ℕ) (s : System) (e : EpochTracking)
    → i < n
    → s.tracking.td_epoch + 1 < 2 ^ 64
    → Counted n s
    → Paused s.tracking e
    → Placed e.td_epoch (s.cpu i)
Paused-Placed n i s e lt below k paused =
    let place = k.placed i lt in
    let parity = (s.cpu i).vps.vcpu_epoch % 2 in
    let two : parity < 2 = omega arith in
    let idle : at_parity parity (s.cpu i) ≡ 0 = ground (
      arith,
      k.counters parity two,
      weight-le-tally (at_parity parity) n i s.cpu lt,
      paused.none_running,
    ) in
    record {
      sampled = omega (arith, place.sampled, paused.epoch, below);
      recent = λ now. ground (arith, idle, now);
    }

pub record Stepped (n : ℕ) (s : System) (moves : Bool) (u : System) : Type 0 where
  pub counted : Counted n u
  pub epoch : moves ≡ false → u.tracking.td_epoch ≡ s.tracking.td_epoch
  pub later : u.tracking.td_epoch ≤ s.tracking.td_epoch + 1

replaced :
    (n i : ℕ) (s : System) (c : Cpu) (e : EpochTracking) (num : ℕ) (moves : Bool) (lps : ℕ → Lp)
    → i < n
    → Counted n s
    → Replaces s i c e num
    → Stepped n s moves
        (record { tracking = e; num_assoc_vcpus = num; cpu = assign i c s.cpu; lps = lps })
replaced n i s c e num moves lps lt k r = record {
  counted = replace-Counted n i s c e num lps lt k r;
  epoch = λ quiet. r.epoch;
  later = omega (arith, r.epoch);
}

-- The counts do not depend on what the processors have cached.
same_counts : (n : ℕ) (s : System) (lps : ℕ → Lp) → Counted n s → Counted n (record s { lps = lps })
same_counts n s lps k = record {
  epoch = k.epoch;
  counters = k.counters;
  associated = k.associated;
  placed = k.placed;
}

pub Step-Counted :
    (n num_l2_vms seamdb_index : ℕ) (s u : System) (moves : Bool)
    → n < 65536
    → s.tracking.td_epoch + 1 < 2 ^ 64
    → Counted n s
    → Step n num_l2_vms seamdb_index s moves u
    → Stepped n s moves u
Step-Counted n vms index s _ _ small below k (associates i lp_id allow lt lp) =
    replaced n i s _ _ _ _ _ lt k (associated-Replaces n i lp_id index s allow lt small lp k)
Step-Counted n vms index s _ _ small below k (enters i lp_id a r lt lp ha code hr got) =
    replaced n i s _ _ _ _ _ lt k
      (entered-Replaces vms s i a r (try n i lp_id index vms s a r lt small lp k ha code hr) got)
Step-Counted n vms index s _ _ small below k (finds_busy i lp_id a r lt lp ha code hr busy) =
    replaced n i s _ _ _ _ _ lt k
      (busy-Replaces vms s i a r (try n i lp_id index vms s a r lt small lp k ha code hr) busy)
Step-Counted n vms index s _ _ small below k (turns_back i lp_id a r lt lp ha code hr got) =
    replaced n i s _ _ _ _ _ lt k
      (turned-Replaces vms s i a r (try n i lp_id index vms s a r lt small lp k ha code hr) got)
Step-Counted n vms index s _ _ small below k (leaves i state lt active out) =
    replaced n i s _ _ _ _ _ lt k (left-Replaces n i state s lt small active out k)
Step-Counted n vms index s _ _ small below k (flushes i lp_id f lt lp out hf) =
    replaced n i s _ _ _ _ _ lt k
      (rw⁻¹ hf (flushed-Replaces n i lp_id vms (s.lps lp_id).last_tdvpr_pa s lt small lp out k))
Step-Counted n vms index s _ _ small below k (caches i vm lt active) = record {
  counted = same_counts n s _ k;
  epoch = λ quiet. refl;
  later = omega arith;
}
Step-Counted n vms index s _ _ small below k (runs_another lp_id tdvpr_pa other) = record {
  counted = same_counts n s _ k;
  epoch = λ quiet. refl;
  later = omega arith;
}
Step-Counted n vms index s _ _ small below k (tracks a h) =
    let kept = track-Kept s.tracking a h in
    record {
      epoch = λ quiet. kept.epoch;
      later = omega (arith, kept.epoch);
      counted = record {
        epoch = rw kept.epoch k.epoch;
        counters = λ p two. kept.counters p ∙ k.counters p two;
        associated = k.associated;
        placed = λ i lt. rw kept.epoch (k.placed i lt);
      };
    }
Step-Counted n vms index s _ _ small below k (pauses e h) =
    let paused = pause-Paused s.tracking e h in
    let place = k.placed in
    record {
      epoch = λ quiet. cc (quiet);
      later = omega (arith, paused.epoch);
      counted = record {
        epoch = omega (arith, paused.epoch, below);
        counters = λ p two. paused.counters p ∙ k.counters p two;
        associated = k.associated;
        placed = λ i lt. Paused-Placed n i s e lt below k paused;
      };
    }
