-- ===== src/Tlb/Flushes.antt =====
-- What the processors have cached under an attempt to enter a VCPU and under the flush of one.
use tdx_module.Base.{
  ℕ, ◌≤◌, ◌<◌, ◌≡◌, refl, ◌∙◌, ◌⊎◌, inl, inr, arith, false, none, some, Bool-cases, ◌==◌, ◌!=◌,
}
use tdx_module.ErrorCodes.{tdx_success}
use tdx_module.Tlb
use tdx_module.Tlb.{
  vcpu_ready, vcpu_no_lp, vcpu_active, null_pa, EpochTracking, Tdvps, Associated, Adjusted, Flushed,
}
use tdx_module.Tlb.System.{Cpu, Lp, System, running, flush_each, switch_to}
use tdx_module.Tlb.Operations.{AssociatedAt, invalidate_each-keeps, vmclear_each-keeps}
use tdx_module.Tlb.Entry.{Tried}
use tdx_module.Tlb.Cached.{Cached, Moves, listed-vms}

all_dropped :
    (num_l2_vms vm : ℕ) (l : Lp)
    → vm ≤ num_l2_vms
    → (flush_each (Tlb.vms num_l2_vms) l).tlb vm ≡ none
all_dropped num_l2_vms vm l le = rw (listed-vms vm num_l2_vms le) refl

module _ (n num_l2_vms : ℕ) (s : System) (i lp_id : ℕ) (a : Associated) (r : Adjusted)
    (t : Tried num_l2_vms s i a r) (at : AssociatedAt lp_id (s.cpu i).vps a)
    (code : a.code ≡ tdx_success) (small : i < n) (on : lp_id < vcpu_no_lp)
    (k : Cached n num_l2_vms s) where
  abbrev attempted : ℕ → Cpu
  attempted state = record { vps = record r.vcpu { state = state } }

  abbrev adjusted_lp : Lp
  adjusted_lp = flush_each r.flushed (s.lps lp_id)

  placed_on : r.vcpu.assoc_lpid ≡ lp_id
  placed_on = t.done.lpid ∙ at.on code

  not_apart : ((s.cpu i).vps.assoc_lpid ≡ lp_id) ⊎ ((s.cpu i).vps.assoc_lpid ≡ vcpu_no_lp)
  not_apart = ground (arith, at.moved, at.on code)

  -- Where the VCPU was the last one, what the flush leaves is from no epoch before the sampled one.
  adjusted-since :
      (vm e : ℕ)
      → (s.lps lp_id).last_tdvpr_pa ≡ i
      → vm ≤ num_l2_vms
      → adjusted_lp.tlb vm ≡ some e
      → r.vcpu.vcpu_epoch ≤ e
  adjusted-since vm e last le h = elim t.done.flushed [
    | inl all ↦
        let left : (flush_each (Tlb.vms num_l2_vms) (s.lps lp_id)).tlb vm ≡ some e = rw all at h in
        cc (left, all_dropped num_l2_vms vm (s.lps lp_id) le)
    | inr (nothing, inl same) ↦
        let left : (s.lps lp_id).tlb vm ≡ some e = rw nothing at h in
        omega (arith, same, t.assoc.epoch, k.since i lp_id vm e small on last le left)
    | inr (nothing, inr new) ↦ absurd (omega (arith, at.new new, k.own i lp_id small on last, on))
  ]

  pub attempted-Moves :
      (state : ℕ)
      → (state == vcpu_active) ≡ false
      → Moves n num_l2_vms s i lp_id (attempted state) adjusted_lp
  attempted-Moves state out = record {
    place = ground (arith, placed_on, not_apart);
    elsewhere = ground (arith, not_apart);
    last = inr (inl refl);
    own = λ h. placed_on;
    since = λ vm e last. adjusted-since vm e last;
    cached = λ vm le. ground arith;
    at_work = λ now. cc (now, out);
  }

  pub entered-Moves :
      Moves n num_l2_vms s i lp_id (attempted vcpu_active) (switch_to num_l2_vms i adjusted_lp)
  unfolding Tlb.switch_vcpu
  entered-Moves = elim (Bool-cases (i != (s.lps lp_id).last_tdvpr_pa)) [
    | inl other ↦ rw other (record {
      place = ground (arith, placed_on, not_apart);
      elsewhere = ground (arith, not_apart);
      last = inl refl;
      own = λ h. placed_on;
      since = λ vm e last le h. cc (h, all_dropped num_l2_vms vm adjusted_lp le);
      cached = λ vm le. inl (all_dropped num_l2_vms vm adjusted_lp le);
      at_work = λ now. (refl, placed_on);
    })
    | inr same ↦ rw same (record {
      place = ground (arith, placed_on, not_apart);
      elsewhere = ground (arith, not_apart);
      last = inr (inl refl);
      own = λ h. placed_on;
      since = λ vm e last. adjusted-since vm e last;
      cached = λ vm le. ground arith;
      at_work = λ now. (ground (arith, same), placed_on);
    })
  ]

pub flushed-Moves :
    (n num_l2_vms : ℕ) (s : System) (i lp_id : ℕ) (f : Flushed)
    → n < 65536
    → i < n
    → running (s.cpu i) ≡ false
    → Cached n num_l2_vms s
    → lp_id < vcpu_no_lp
    → Tlb.tdh_vp_flush num_l2_vms lp_id (s.lps lp_id).last_tdvpr_pa (s.cpu i).vps s.num_assoc_vcpus
      ≡ f
    → Moves n num_l2_vms s i lp_id
        (record { vps = f.vcpu })
        (flush_each f.flushed (record (s.lps lp_id) { last_tdvpr_pa = f.last_tdvpr_pa }))
unfolding Tlb.tdh_vp_flush Tlb.invalidate_all_gpa_translations
flushed-Moves n num_l2_vms s i lp_id f small lt out k on hf =
    elim (Bool-cases ((s.cpu i).vps.assoc_lpid != lp_id)) [
      | inl other ↦ rw⁻¹ hf (
          rw other (record {
            place = inl refl;
            elsewhere = inr (inr (refl, refl));
            last = inr (inl refl);
            own = λ h. k.own i lp_id lt on h;
            since = λ vm e last le h. k.since i lp_id vm e lt on last le h;
            cached = λ vm le. inr refl;
            at_work = λ now. cc (now, out);
          }))
      | inr here ↦
          let kept = invalidate_each-keeps (Tlb.vms num_l2_vms) (s.cpu i).vps in
          let cleared =
            vmclear_each-keeps (Tlb.vms num_l2_vms)
              (Tlb.invalidate_each (Tlb.vms num_l2_vms) (s.cpu i).vps) in
          let dropped : (vm : ℕ)
              → vm ≤ num_l2_vms
              → (flush_each (Tlb.vms num_l2_vms) (s.lps lp_id)).tlb vm ≡ none =
            λ vm le. all_dropped num_l2_vms vm (s.lps lp_id) le in
          rw⁻¹ hf (
            rw here (record {
              place = inr (inr (ground (arith, here), dropped));
              elsewhere = inl (ground (arith, here));
              last = inr (inr (omega (arith, small)));
              own = λ h. absurd (omega (arith, h, lt, small));
              since = λ vm e last le h. cc (h, dropped vm le);
              cached = λ vm le. inl (dropped vm le);
              at_work = λ now. absurd (ground (arith, now, kept.0, cleared.0, out));
            }))
    ]
