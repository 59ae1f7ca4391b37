-- ===== src/Hpa/Locked.antt =====
-- Checking a page that a caller gives, with other processors at the table.
use tdx_module.Base.{
  ℕ, ◌≡◌, ◌≢◌, ◌⊎◌, sym, ◌∙◌, arith, if◌then◌else◌, refl, ap, subst, Bool, true, false, not, ◌&&◌,
  Option, some, inl, inr, Bool-cases,
}
use tdx_module.ErrorCodes.{tdx_page_metadata_incorrect, ApiErrorCode, is_success, is_tdx_success}
use tdx_module.Locks.Types.{LockType, no_lock, Mode, type_of}
use tdx_module.Pamt.State.{PageType, PageSize, pt_4kb, PamtBlock, Mem, M}
use tdx_module.Pamt.Block.{BlockResult, found, not_found, check_failed, pamt_get_block}
use tdx_module.Pamt.Resize.{is_type}
use tdx_module.Pamt.Same.{same_size, same_type}
use tdx_module.Base.Aligned.{pow2}
use tdx_module.Pamt.Walk.{WalkResult, entries_of, is_size, pamt_walk}
use tdx_module.Pamt.Walk.Holds.{Others, Holding, Done, pure-Done, bind-Done, read-Done}
use tdx_module.Pamt.Walk.Returns.{
  Apart, Walked, entry_at, nothing_held, path_held, pamt_walk-Walked,
}
use tdx_module.Pamt.Walk.Unwalks.{pamt_unwalk-releases}
use tdx_module.Pamt.Walk.Stable.{SameTypes, pamt_walk-Stable, returned-SameTypes}
use tdx_module.Hpa.{Global, hpa_check_with_pwr_2_alignment}
use tdx_module.Hpa.Addressed.{Addressed, hpa_check-Addressed}
use tdx_module.Hpa.Stable.{page-Stable}
use tdx_module.Hpa.Lock
use tdx_module.Hpa.Lock.{Checked, LockedHpa}

-- A page whose entry, in the table `m`, is of the expected type and level, and whose path is held.
pub record PageHeld (m : Mem) (hpa : ℕ) (leaf : LockType) (expected_pt : PageType)
    (requested : PageSize) (to_leaf : Bool) (b : PamtBlock) (leaf_size : PageSize)
    (pamt_entry : Option ℕ) (held : ℕ → LockType) : Type 0 where
  pub entry : pamt_entry ≡ some (entry_at (entries_of b hpa) leaf_size)
  pub of_type : (m (entry_at (entries_of b hpa) leaf_size)).pt ≡ expected_pt
  pub of_level : (to_leaf ≡ false) ⊎ (requested ≡ leaf_size)
  pub path : (q : ℕ) → held q ≡ path_held (entries_of b hpa) leaf leaf_size q

level_of :
    (to_leaf : Bool) (requested size : PageSize)
    → (to_leaf && not (is_size requested size)) ≡ false
    → (to_leaf ≡ false) ⊎ (requested ≡ size)
level_of false requested size h = inl refl
level_of true requested size h = inr (same_size requested size (ground (arith, h)))

-- The block of a page, where there is one, has its three entries at different addresses, and looking
-- for it fails no check.
pub record Covered (lookup : BlockResult) (hpa : ℕ) : Type 0 where
  pub passes : lookup ≢ check_failed
  pub apart : (b : PamtBlock) → lookup ≡ found b → Apart (entries_of b hpa)

module _ (m : Mem) (hpa : ℕ) (leaf : Mode) (expected_pt : PageType) (requested : PageSize)
    (to_leaf : Bool) where
  abbrev Held : PamtBlock → PageSize → Option ℕ → (ℕ → LockType) → Type 0
  Held = PageHeld m hpa (type_of leaf) expected_pt requested to_leaf

  record CheckedPage (lookup : BlockResult) (c : Checked) (held : ℕ → LockType) : Type 0 where
    success :
        is_success c.code ≡ true
        → (b : PamtBlock) × (lookup ≡ found b) × Held b c.leaf_size c.pamt_entry held
    failure : is_success c.code ≡ false → (q : ℕ) → held q ≡ no_lock

  -- What the caller has: a lock, just when it is told so.
  pub record LockedPage (g : Global) (alignment : ℕ) (r : LockedHpa) (held : ℕ → LockType)
      : Type 0 where
    pub success :
        r.is_locked ≡ true
        → (is_tdx_success r.code ≡ true)
          × Addressed g hpa alignment
          × (b : PamtBlock) × (pamt_get_block g.tdmr_table g.hkid_mask hpa ≡ found b)
          × Held b r.leaf_size r.pamt_entry held
    pub failure :
        r.is_locked ≡ false → (is_tdx_success r.code ≡ false) × ((q : ℕ) → held q ≡ no_lock)

  module _ (o : Others) where
    refuse-Done :
        {lookup : BlockResult} {m' : Mem} {hold : ℕ → LockType} (code : ApiErrorCode)
        (size : PageSize)
        → Holding o m' hold
        → is_success code ≡ false
        → ((q : ℕ) → hold q ≡ no_lock)
        → Done o m' (Lock.refuse code size) (CheckedPage lookup)
    refuse-Done {lookup} {m'} {hold} code size h bad e =
        pure-Done hold _ h (record { success = λ g. absurd (cc); failure = λ _. e })

    unwalked-Done :
        (b : PamtBlock) {m' : Mem} {hold : ℕ → LockType} (size : PageSize)
        → Apart (entries_of b hpa)
        → Holding o m' hold
        → ((q : ℕ) → hold q ≡ path_held (entries_of b hpa) (type_of leaf) size q)
        → Done o m' (Lock.unwalk_and_refuse hpa b (type_of leaf) size) (CheckedPage (found b))
    unfolding Lock.unwalk_and_refuse
    unwalked-Done b {m'} {hold} size apart h e =
        let d = pamt_unwalk-releases o b hpa apart leaf size m' hold h e in
        bind-Done _ d (refuse-Done tdx_page_metadata_incorrect size d.holding refl d.holds)

    entry-Done :
        (b : PamtBlock) {m' : Mem} {hold : ℕ → LockType} (r : WalkResult) (p : ℕ)
        → Apart (entries_of b hpa)
        → Holding o m' hold
        → SameTypes m m'
        → p ≡ entry_at (entries_of b hpa) r.leaf_size
        → ((q : ℕ) → hold q ≡ path_held (entries_of b hpa) (type_of leaf) r.leaf_size q)
        → Done o m'
            (Lock.checked_entry hpa b (type_of leaf) expected_pt requested to_leaf r p (m' p))
            (CheckedPage (found b))
    unfolding Lock.checked_entry
    entry-Done b {m'} {hold} r p apart h same at e =
        elim (Bool-cases (to_leaf && not (is_size requested r.leaf_size))) [
          | inl other ↦ rw other (unwalked-Done b r.leaf_size apart h e)
          | inr level ↦ rw level (elim (Bool-cases (is_type (m' p).pt expected_pt)) [
            | inl good ↦ rw good (
                pure-Done hold _ h (record {
                  success = λ _. (
                    b,
                    refl,
                    record {
                      entry = ap some at;
                      of_type =
                          subst (λ x. (m x).pt ≡ expected_pt) at
                            (sym (same p) ∙ same_type (m' p).pt expected_pt good);
                      of_level = level_of to_leaf requested r.leaf_size level;
                      path = e;
                    },
                  );
                  failure = λ bad. absurd (cc);
                }))
            | inr bad ↦ rw bad (unwalked-Done b r.leaf_size apart h e)
          ])
        ]

    walked-Done :
        (b : PamtBlock) (target : PageSize) {m' : Mem} {hold : ℕ → LockType} (r : WalkResult)
        → Apart (entries_of b hpa)
        → Holding o m' hold
        → SameTypes m m'
        → Walked m (entries_of b hpa) target (type_of leaf) r hold
        → Done o m'
            (Lock.checked_walk hpa b (type_of leaf) expected_pt requested to_leaf r)
            (CheckedPage (found b))
    unfolding Lock.checked_walk Lock.checked_at Lock.checked_entry
    walked-Done b target {m'} {hold} r apart h same w = elim (Bool-cases (is_success r.code)) [
      | inl good ↦
          let p = entry_at (entries_of b hpa) r.leaf_size in
          rw (good, (w.success good).0)
            (read-Done (Lock.checked_entry hpa b (type_of leaf) expected_pt requested to_leaf r p)
              (entry-Done b r p apart h same refl (w.success good).1))
      | inr bad ↦ rw bad (refuse-Done r.code r.leaf_size h bad (w.failure bad).1)
    ]

    block-Done :
        (lookup : BlockResult)
        → Covered lookup hpa
        → Holding o m nothing_held
        → Done o m
            (Lock.non_shared_in_block lookup hpa (type_of leaf) expected_pt requested to_leaf false)
            (CheckedPage lookup)
    unfolding Lock.non_shared_in_block
    block-Done not_found c h = refuse-Done _ requested h refl (λ q. refl)
    block-Done check_failed c h = absurd (c.passes refl)
    block-Done (found b) c h =
        let x : M WalkResult = pamt_walk hpa b (type_of leaf) requested to_leaf false in
        let d = pamt_walk-Walked o b hpa (c.apart b refl) leaf requested to_leaf m h in
        bind-Done (Lock.checked_walk hpa b (type_of leaf) expected_pt requested to_leaf) d (
          walked-Done b (if to_leaf then requested else pt_4kb) d.result (c.apart b refl) d.holding
            (returned-SameTypes x m (pamt_walk-Stable hpa b (type_of leaf) requested to_leaf false)
              d.returns)
            d.holds)

    locked_of-LockedPage :
        (g : Global) (operand_id alignment : ℕ) (c : Checked) (held : ℕ → LockType)
        → Addressed g hpa alignment
        → CheckedPage (pamt_get_block g.tdmr_table g.hkid_mask hpa) c held
        → LockedPage g alignment (Lock.locked_of operand_id c) held
    locked_of-LockedPage g operand_id alignment c held good p = record {
      success = λ e. let (b, at, page) = p.success e in (rw e refl, good, b, at, page);
      failure = λ e. (rw (e, e) refl, p.failure e);
    }

    page-Done :
        (g : Global) (operand_id alignment k : ℕ)
        → alignment ≡ pow2 k
        → Covered (pamt_get_block g.tdmr_table g.hkid_mask hpa) hpa
        → Holding o m nothing_held
        → Done o m
            (Lock.check_and_lock_explicit_private_hpa g hpa operand_id alignment
              (type_of leaf)
              expected_pt
              requested
              to_leaf)
            (LockedPage g alignment)
    unfolding Lock.check_and_lock_explicit_private_hpa Lock.non_shared_hpa_metadata_check_and_lock
    page-Done g operand_id alignment k power c h =
        elim (Bool-cases (is_success (hpa_check_with_pwr_2_alignment g hpa alignment))) [
          | inl good ↦
              let d = block-Done (pamt_get_block g.tdmr_table g.hkid_mask hpa) c h in
              rw good (
                bind-Done _ d (
                  pure-Done d.held _ d.holding (
                    locked_of-LockedPage g operand_id alignment d.result d.held
                      (hpa_check-Addressed g hpa alignment k power good) d.holds)))
          | inr bad ↦ rw bad (
              pure-Done nothing_held _ h
                (record { success = λ e. absurd (cc); failure = λ _. (refl, λ q. refl) }))
        ]

-- A host checks and locks a page that a caller gives, whatever the other processors hold, if the
-- alignment asked for is a power of two, the look-up of the page's block passes its check and the block's
-- entries of the page stand at different addresses. The check returns, no page's type changes, and the
-- caller is told that it has the lock just when it has it: then the status is success, the address is a
-- multiple of the alignment below 2^52 and the bits of its key identifier are 0, the entry that the caller
-- has is of the expected type, and of the level asked for where that is asked, and it is locked as asked
-- with the entries above it shared. Otherwise the status is an error and no lock is held.
pub check_and_lock-LockedPage :
    (o : Others) (m : Mem) (g : Global) (hpa operand_id alignment k : ℕ)
    → alignment ≡ pow2 k
    → (leaf : Mode) (expected_pt : PageType) (requested : PageSize) (to_leaf : Bool)
    → Covered (pamt_get_block g.tdmr_table g.hkid_mask hpa) hpa
    → Holding o m nothing_held
    → (d : Done o m
        (Lock.check_and_lock_explicit_private_hpa g hpa operand_id alignment
          (type_of leaf)
          expected_pt
          requested
          to_leaf)
        (LockedPage m hpa leaf expected_pt requested to_leaf g alignment))
      × SameTypes m d.mem
check_and_lock-LockedPage o m g hpa operand_id alignment k power leaf expected_pt requested to_leaf
      c h =
    let d =
      page-Done m hpa leaf expected_pt requested to_leaf o g operand_id alignment k power c h in
    (
      d,
      returned-SameTypes
          (Lock.check_and_lock_explicit_private_hpa g hpa operand_id alignment (type_of leaf)
            expected_pt requested to_leaf)
          m (page-Stable g hpa operand_id alignment (type_of leaf) expected_pt requested to_leaf)
          d.returns,
    )
