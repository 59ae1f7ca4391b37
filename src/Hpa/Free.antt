-- ===== src/Hpa/Free.antt =====
-- Checking a range that is to be taken whole, with other processors at the table.
use tdx_module.Base.{
  ℕ, ◌%◌, ◌≡◌, refl, subst, Bool, true, false, inl, inr, Bool-cases, if◌then◌else◌,
}
use tdx_module.Base.Aligned.{pow2}
use tdx_module.ErrorCodes.{is_tdx_success}
use tdx_module.Locks.Types.{LockType, no_lock, exclusive, writing}
use tdx_module.Pamt.State.{pt_nda, PageSize, pt_4kb, pt_2mb, pt_1gb, PamtBlock, Mem, elem}
use tdx_module.Pamt.Block.{BlockResult, found, pamt_get_block, idx_4k}
use tdx_module.Pamt.Resize.{is_type}
use tdx_module.Pamt.Walk.{is_size}
use tdx_module.Pamt.Walk.Holds.{Others, Holding, Done, pure-Done, bind-Done}
use tdx_module.Pamt.Walk.Returns.{nothing_held}
use tdx_module.Pamt.Walk.Unwalks.{pamt_unwalk-releases}
use tdx_module.Pamt.Walk.Stable.{SameTypes}
use tdx_module.Pamt.Implicit.RangeFree.{AllFree, pamt_is_2mb_range_free-AllFree}
use tdx_module.Hpa.{Global}
use tdx_module.Hpa.Lock
use tdx_module.Hpa.Lock.{LockedHpa}
use tdx_module.Hpa.Locked.{PageHeld, Covered, LockedPage, check_and_lock-LockedPage}

abbrev pub first_4kb : PamtBlock → ℕ → ℕ
first_4kb b hpa = elem b.pamt_4kb_p (idx_4k hpa)

-- The 512 entries of a range of 2MB stand in pages of their own.
abbrev pub InPages : BlockResult → ℕ → Type 0
InPages lookup hpa = (b : PamtBlock) → lookup ≡ found b → first_4kb b hpa % 4096 ≡ 0

module _ (m : Mem) (hpa : ℕ) (size : PageSize) where
  -- What the caller has: the lock of a range that is free, just when it is told so.
  pub record FreeRange (lookup : BlockResult) (r : LockedHpa) (held : ℕ → LockType) : Type 0 where
    pub success :
        r.is_locked ≡ true
        → (is_tdx_success r.code ≡ true)
          × (b : PamtBlock) × (lookup ≡ found b)
          × PageHeld m hpa exclusive pt_nda size true b r.leaf_size r.pamt_entry held
          × (is_size size pt_2mb ≡ true → AllFree (first_4kb b hpa) 0 512 m)
    pub failure :
        r.is_locked ≡ false → (is_tdx_success r.code ≡ false) × ((q : ℕ) → held q ≡ no_lock)

  module _ (o : Others) (operand_id : ℕ) where
    AllFree-before :
        (m' : Mem) (first : ℕ) → SameTypes m m' → AllFree first 0 512 m' → AllFree first 0 512 m
    AllFree-before m' first same all k lo hi =
        subst (λ t. is_type t pt_nda ≡ true) (same (elem first k)) (all k lo hi)

    module _ (b : PamtBlock) (r : LockedHpa) {m' : Mem} {hold : ℕ → LockType} where
      answer-Done :
          (free : Bool)
          → Covered (found b) hpa
          → Holding o m' hold
          → (is_tdx_success r.code ≡ true)
          → PageHeld m hpa exclusive pt_nda size true b r.leaf_size r.pamt_entry hold
          → r.is_locked ≡ true
          → (free ≡ true → AllFree (first_4kb b hpa) 0 512 m)
          → Done o m'
              (Lock.free_range_answer b hpa operand_id exclusive r free)
              (FreeRange (found b))
      unfolding Lock.free_range_answer
      answer-Done true c h good page locked free = pure-Done hold _ h (record {
        success = λ _. (good, b, refl, page, λ _. free refl);
        failure = λ e. absurd (cc);
      })
      answer-Done false c h good page locked free =
          let d =
            pamt_unwalk-releases o b hpa (c.apart b refl) writing r.leaf_size m' hold h page.path in
          bind-Done _ d (
            pure-Done d.held _ d.holding
              (record { success = λ e. absurd (cc); failure = λ _. (refl, d.holds) }))

      block-Done :
          Covered (found b) hpa
          → InPages (found b) hpa
          → Holding o m' hold
          → SameTypes m m'
          → (is_tdx_success r.code ≡ true)
          → PageHeld m hpa exclusive pt_nda size true b r.leaf_size r.pamt_entry hold
          → r.is_locked ≡ true
          → Done o m'
              (Lock.free_range_in_block (found b) hpa operand_id exclusive r)
              (FreeRange (found b))
      unfolding Lock.free_range_in_block
      block-Done c pages h same good page locked =
          let (free, returns, exactly) = pamt_is_2mb_range_free-AllFree hpa b m' (pages b refl) in
          bind-Done {mid = λ _ _. Unit {0}} (Lock.free_range_answer b hpa operand_id exclusive r)
            (record {
              result = free;
              mem = m';
              held = hold;
              returns = returns;
              holding = h;
              holds = tt;
            })
            (answer-Done free c h good page locked
              (λ e. AllFree-before m' (first_4kb b hpa) same (exactly.0 e)))

    checked-Done :
        (g : Global) (alignment : ℕ) (r : LockedHpa) {m' : Mem} {hold : ℕ → LockType}
        → Covered (pamt_get_block g.tdmr_table g.hkid_mask hpa) hpa
        → InPages (pamt_get_block g.tdmr_table g.hkid_mask hpa) hpa
        → Holding o m' hold
        → SameTypes m m'
        → LockedPage m hpa writing pt_nda size true g alignment r hold
        → Done o m'
            (Lock.free_range_checked g hpa operand_id exclusive size r)
            (FreeRange (pamt_get_block g.tdmr_table g.hkid_mask hpa))
    unfolding Lock.free_range_checked
    checked-Done g alignment r {m'} {hold} c pages h same l = elim (Bool-cases r.is_locked) [
      | inl locked ↦
          let (good, aligned, b, at, page) = l.success locked in
          elim (Bool-cases (is_size size pt_2mb)) [
            | inl big ↦
                rw (good, big, at)
                  (block-Done b r (rw⁻¹ at c) (rw⁻¹ at pages) h same good page locked)
            | inr small ↦
                rw (good, small)
                  (pure-Done hold _ h (record {
                    success = λ _. (good, b, at, page, λ big. absurd (cc));
                    failure = λ e. absurd (cc);
                  }))
          ]
      | inr unlocked ↦ rw (l.failure unlocked).0 (
          pure-Done hold _ h
            (record { success = λ e. absurd (cc); failure = λ _. l.failure unlocked }))
    ]

power :
    (size : PageSize)
    → (if is_size size pt_2mb then 0x200000 else 4096)
      ≡ pow2 (if is_size size pt_2mb then 21 else 12)
power pt_4kb = refl
power pt_2mb = refl
power pt_1gb = refl

-- A host checks and locks a range of 4KB or 2MB that is to be given out, whatever the other processors
-- hold, if looking for its block passes its check, the block's entries of the page stand at different
-- addresses, and the 512 entries of a range of 2MB stand in pages of their own. The check returns, and the
-- caller is told that it has the lock just when it has it: then the status is success, the entry of the
-- range is a free one of the size asked for and is locked exclusively, and for 2MB none of the 512
-- entries of the range is assigned. Otherwise the status is an error and no lock is held.
pub free_range-FreeRange :
    (o : Others) (m : Mem) (g : Global) (hpa operand_id : ℕ) (size : PageSize)
    → Covered (pamt_get_block g.tdmr_table g.hkid_mask hpa) hpa
    → InPages (pamt_get_block g.tdmr_table g.hkid_mask hpa) hpa
    → Holding o m nothing_held
    → Done o m
        (Lock.check_and_lock_free_range_hpa g hpa operand_id exclusive size)
        (FreeRange m hpa size (pamt_get_block g.tdmr_table g.hkid_mask hpa))
unfolding Lock.check_and_lock_free_range_hpa
free_range-FreeRange o m g hpa operand_id size c pages h =
    let alignment : ℕ = if is_size size pt_2mb then 0x200000 else 4096 in
    let (d, same) =
      check_and_lock-LockedPage o m g hpa operand_id alignment
        (if is_size size pt_2mb then 21 else 12) (power size) writing pt_nda size true c h in
    bind-Done (Lock.free_range_checked g hpa operand_id exclusive size) d
      (checked-Done m hpa size o operand_id g alignment d.result c pages d.holding same d.holds)
