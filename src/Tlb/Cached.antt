-- ===== src/Tlb/Cached.antt =====
-- What the processors have cached, and how the change of a VCPU and its processor moves it.
use tdx_module.Base.{
  ℕ, zero, suc, ◌≤◌, ◌<◌, ◌≡◌, ◌≢◌, refl, ◌⊎◌, inl, inr, arith, true, ◌||◌, List, [], ◌∷◌, ◌++◌,
  none, some, Bool-cases, ◌==◌,
}
use tdx_module.Base.Family.{assign}
use tdx_module.Tlb
use tdx_module.Tlb.{vcpu_no_lp, vcpu_active, EpochTracking}
use tdx_module.Tlb.System.{Cpu, Lp, System, running, listed, Idle}

-- The VCPU that a processor ran last is associated with it, and what the processor has cached is from
-- no epoch before the VCPU's; a VCPU that runs is the last one of its processor; and a processor without
-- a VCPU of the TD has cached nothing.
pub record Cached (n num_l2_vms : ℕ) (s : System) : Type 0 where
  pub own :
      (i lp : ℕ)
      → i < n
      → lp < vcpu_no_lp
      → (s.lps lp).last_tdvpr_pa ≡ i
      → (s.cpu i).vps.assoc_lpid ≡ lp
  pub since :
      (i lp vm e : ℕ)
      → i < n
      → lp < vcpu_no_lp
      → (s.lps lp).last_tdvpr_pa ≡ i
      → vm ≤ num_l2_vms
      → (s.lps lp).tlb vm ≡ some e
      → (s.cpu i).vps.vcpu_epoch ≤ e
  pub at_work :
      (i : ℕ)
      → i < n
      → running (s.cpu i) ≡ true
      → ((s.lps (s.cpu i).vps.assoc_lpid).last_tdvpr_pa ≡ i)
        × ((s.cpu i).vps.assoc_lpid < vcpu_no_lp)
  pub alone :
      (lp vm : ℕ)
      → lp < vcpu_no_lp
      → vm ≤ num_l2_vms
      → ((j : ℕ) → j < n → (s.cpu j).vps.assoc_lpid ≢ lp)
      → (s.lps lp).tlb vm ≡ none

listed-append : (vm : ℕ) (xs ys : List ℕ) → listed vm (xs ++ ys) ≡ (listed vm xs || listed vm ys)
listed-append vm [] ys = refl
listed-append vm (x ∷ xs) ys = elim (Bool-cases (x == vm)) [
  | inl e ↦ rw e refl
  | inr e ↦ rw e (listed-append vm xs ys)
]

-- The loop over the VMs reaches each of them.
pub listed-vms : (vm n : ℕ) → vm ≤ n → listed vm (Tlb.vms n) ≡ true
listed-vms vm zero h = ground (arith, h)
listed-vms vm (suc n) h = elim (Bool-cases (suc n == vm)) [
  | inl e ↦ rw (listed-append vm (Tlb.vms n) (suc n ∷ [])) (ground (arith, e))
  | inr e ↦
      rw (listed-append vm (Tlb.vms n) (suc n ∷ []), listed-vms vm n (ground (arith, h, e))) refl
]

-- VCPU `i` becomes `c`, and the processor `lp` becomes `l`.
pub record Moves (n num_l2_vms : ℕ) (s : System) (i lp : ℕ) (c : Cpu) (l : Lp) : Type 0 where
  pub place :
      (c.vps.assoc_lpid ≡ (s.cpu i).vps.assoc_lpid)
      ⊎ ((s.cpu i).vps.assoc_lpid ≡ vcpu_no_lp)
      ⊎ ((s.cpu i).vps.assoc_lpid ≡ lp) × ((vm : ℕ) → vm ≤ num_l2_vms → l.tlb vm ≡ none)
  pub elsewhere :
      ((s.cpu i).vps.assoc_lpid ≡ lp)
      ⊎ ((s.cpu i).vps.assoc_lpid ≡ vcpu_no_lp)
      ⊎ (c.vps.assoc_lpid ≡ (s.cpu i).vps.assoc_lpid)
        × (c.vps.vcpu_epoch ≡ (s.cpu i).vps.vcpu_epoch)
  pub last :
      (l.last_tdvpr_pa ≡ i) ⊎ (l.last_tdvpr_pa ≡ (s.lps lp).last_tdvpr_pa) ⊎ (n ≤ l.last_tdvpr_pa)
  pub own : l.last_tdvpr_pa ≡ i → c.vps.assoc_lpid ≡ lp
  pub since :
      (vm e : ℕ) → l.last_tdvpr_pa ≡ i → vm ≤ num_l2_vms → l.tlb vm ≡ some e → c.vps.vcpu_epoch ≤ e
  pub cached : (vm : ℕ) → vm ≤ num_l2_vms → (l.tlb vm ≡ none) ⊎ (l.tlb vm ≡ (s.lps lp).tlb vm)
  pub at_work : running c ≡ true → (l.last_tdvpr_pa ≡ i) × (c.vps.assoc_lpid ≡ lp)

module _ (n num_l2_vms : ℕ) (s : System) (i lp : ℕ) (c : Cpu) (l : Lp) (on : lp < vcpu_no_lp)
    (small : i < n) (idle : Idle n s lp) (k : Cached n num_l2_vms s)
    (m : Moves n num_l2_vms s i lp c l) where
  moved-own :
      (j p : ℕ)
      → j < n
      → p < vcpu_no_lp
      → (assign lp l s.lps p).last_tdvpr_pa ≡ j
      → (assign i c s.cpu j).vps.assoc_lpid ≡ p
  moved-own j p lt below h =
      ground (arith, k.own j p lt below, m.elsewhere, m.last, m.own, h, small)

  moved-since :
      (j p vm e : ℕ)
      → j < n
      → p < vcpu_no_lp
      → (assign lp l s.lps p).last_tdvpr_pa ≡ j
      → vm ≤ num_l2_vms
      → (assign lp l s.lps p).tlb vm ≡ some e
      → (assign i c s.cpu j).vps.vcpu_epoch ≤ e
  moved-since j p vm e lt below h le at = ground (
    arith,
    k.own j p lt below,
    k.since j p vm e lt below,
    m.elsewhere,
    m.last,
    m.since vm e,
    m.cached vm le,
    h,
    at,
  )

  moved-at_work :
      (j : ℕ)
      → j < n
      → running (assign i c s.cpu j) ≡ true
      → ((assign lp l s.lps (assign i c s.cpu j).vps.assoc_lpid).last_tdvpr_pa ≡ j)
        × ((assign i c s.cpu j).vps.assoc_lpid < vcpu_no_lp)
  moved-at_work j lt now = ground (arith, k.at_work j lt, idle j lt, m.at_work, now, on)

  -- Where the change leaves a processor alone, it was so before or its translations are dropped.
  alone_before :
      (p : ℕ)
      → p < vcpu_no_lp
      → ((j : ℕ) → j < n → (assign i c s.cpu j).vps.assoc_lpid ≢ p)
      → ((s.cpu i).vps.assoc_lpid ≢ p)
      → (j : ℕ) → j < n
      → (s.cpu j).vps.assoc_lpid ≢ p
  alone_before p below apart old j lt at = ground (arith, apart j lt, old, at)

  moved-alone :
      (p vm : ℕ)
      → p < vcpu_no_lp
      → vm ≤ num_l2_vms
      → ((j : ℕ) → j < n → (assign i c s.cpu j).vps.assoc_lpid ≢ p)
      → (assign lp l s.lps p).tlb vm ≡ none
  moved-alone p vm below le apart = elim (Bool-cases ((s.cpu i).vps.assoc_lpid == p)) [
    | inl at ↦ elim m.place [
      | inl same ↦ absurd (ground (arith, at, apart i small, same))
      | inr (inl free) ↦ absurd (ground (arith, at, below, free))
      | inr (inr (here, dropped)) ↦ ground (arith, at, here, dropped vm le)
    ]
    | inr off ↦ ground (
      arith,
      k.alone p vm below le (alone_before p below apart (ground (arith, off))),
      m.cached vm le,
    )
  ]

  pub move-Cached :
      (e : EpochTracking) (num : ℕ)
      → Cached n num_l2_vms (record {
        tracking = e;
        num_assoc_vcpus = num;
        cpu = assign i c s.cpu;
        lps = assign lp l s.lps;
      })
  move-Cached e num = record {
    own = moved-own;
    since = moved-since;
    at_work = moved-at_work;
    alone = moved-alone;
  }
