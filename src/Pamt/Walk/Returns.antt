-- ===== src/Pamt/Walk/Returns.antt =====
-- What a walk of a host leaves: the locks on the way to the leaf, or none.
use tdx_module.Base.{
  ℕ, ◌≡◌, ◌≢◌, ◌∙◌, refl, arith, Bool, true, false, ◌||◌, none, some, inl, inr, Bool-cases,
  if◌then◌else◌,
}
use tdx_module.Base.Family.{assign}
use tdx_module.ErrorCodes.{ApiErrorCode, is_success}
use tdx_module.Locks.Types.{LockType, no_lock, shared, Mode, reading, type_of}
use tdx_module.Locks.SharexHp as SharexHp
use tdx_module.Locks.SharexHp.Holds.{acquire-Keeps, release-Keeps, body-Keeps}
use tdx_module.Locks.SharexHp.Protocol.{after, acquire, promote}
use tdx_module.Pamt.State.{PageSize, PamtEntry, pt_4kb, pt_2mb, pt_1gb, PamtBlock, M, Mem}
use tdx_module.Pamt.Walk
use tdx_module.Pamt.Walk.{Path3, WalkResult, entries_of, is_exclusive, is_reg, is_size}
use tdx_module.Pamt.Walk.Leaf.{Stops, IsLeaf, is_reg-Stops, goes_on, locked_type}
use tdx_module.Pamt.Walk.Stable.{SameTypes}
use tdx_module.Pamt.Walk.Holds.{
  Others, Holding, Locked, at_lock-Keeps, Done, pure-Done, then-Done, read-Done,
}

abbrev pub entry_at : Path3 → PageSize → ℕ
entry_at w pt_4kb = w.p_4kb
entry_at w pt_2mb = w.p_2mb
entry_at w pt_1gb = w.p_1gb

abbrev pub nothing_held : ℕ → LockType
nothing_held q = no_lock

-- The entries above the leaf are shared, and the leaf is held as asked.
abbrev pub path_held : Path3 → LockType → PageSize → ℕ → LockType
path_held w leaf pt_4kb =
    assign w.p_4kb leaf (assign w.p_2mb shared (assign w.p_1gb shared nothing_held))
path_held w leaf pt_2mb = assign w.p_2mb leaf (assign w.p_1gb shared nothing_held)
path_held w leaf pt_1gb = assign w.p_1gb leaf nothing_held

pub record Apart (w : Path3) : Type 0 where
  pub gb_mb : w.p_1gb ≢ w.p_2mb
  pub gb_kb : w.p_1gb ≢ w.p_4kb
  pub mb_kb : w.p_2mb ≢ w.p_4kb

-- On success the caller has the leaf's entry and the locks of the path; otherwise it has nothing.
pub record Walked (m : Mem) (w : Path3) (target : PageSize) (leaf : LockType) (r : WalkResult)
    (held : ℕ → LockType) : Type 0 where
  pub success :
      is_success r.code ≡ true
      → (r.pamt_entry ≡ some (entry_at w r.leaf_size))
        × ((q : ℕ) → held q ≡ path_held w leaf r.leaf_size q)
        × IsLeaf m w target r.leaf_size
  pub failure : is_success r.code ≡ false → (r.pamt_entry ≡ none) × ((q : ℕ) → held q ≡ no_lock)

module _ (o : Others) (w : Path3) (apart : Apart w) where
  -- Released, an entry that is held shared is no longer held.
  release :
      {m : Mem} {hold : ℕ → LockType} (p : ℕ)
      → Holding o m hold
      → hold p ≡ shared
      → Locked o m hold p SharexHp.release_sharex_lock_hp_sh (λ _ h. h ≡ no_lock)
  unfolding SharexHp.release_sharex_lock_hp
  release {m} {hold} p h e = at_lock-Keeps o m hold p _ _ h (rw e (release-Keeps reading))

  module _ (m0 : Mem) (leaf : Mode) (target size : PageSize) where
    abbrev Returns : Mem → M WalkResult → Type 0
    Returns m x = Done o m x (Walked m0 w target (type_of leaf))

    gave_up :
        {m : Mem} {hold : ℕ → LockType} (code : ApiErrorCode)
        → Holding o m hold
        → is_success code ≡ false
        → ((q : ℕ) → hold q ≡ no_lock)
        → Returns m (Walk.failed w (type_of leaf) target size false code)
    gave_up {hold} code h e unheld =
        pure-Done hold _ h (record { success = λ s. absurd (cc); failure = λ _. (refl, unheld) })

    arrived :
        {m : Mem} {hold : ℕ → LockType} (s : PageSize)
        → Holding o m hold
        → ((q : ℕ) → hold q ≡ path_held w (type_of leaf) s q)
        → IsLeaf m0 w target s
        → Returns m (Walk.arrived w (type_of leaf) target size false s (entry_at w s))
    arrived {hold} s h held at_leaf =
        pure-Done hold _ h
          (record { success = λ _. (refl, held, at_leaf); failure = λ e. absurd (cc) })

    release_root-Returns :
        {m : Mem} {hold : ℕ → LockType} (code : ApiErrorCode)
        → Holding o m hold
        → is_success code ≡ false
        → ((q : ℕ) → hold q ≡ path_held w shared pt_1gb q)
        → Returns m (Walk.release_root w (type_of leaf) target size false code)
    unfolding Walk.release_root
    release_root-Returns {hold} code h e held =
        let l = release w.p_1gb h (ground (arith, held w.p_1gb)) in
        then-Done _ l (gave_up code l.holding e (λ q. ground (arith, held q, l.holds)))

    release_all-Returns :
        {m : Mem} {hold : ℕ → LockType} (code : ApiErrorCode)
        → Holding o m hold
        → is_success code ≡ false
        → ((q : ℕ) → hold q ≡ path_held w shared pt_2mb q)
        → Returns m (Walk.release_all w (type_of leaf) target size false code)
    unfolding Walk.release_all
    release_all-Returns {hold} code h e held =
        let l = release w.p_2mb h (ground (arith, held w.p_2mb)) in
        then-Done _ l (
          release_root-Returns code l.holding e (λ q. ground (arith, held q, l.holds, apart.gb_mb)))

    leaf_at-Returns :
        {m : Mem} {hold : ℕ → LockType} (s : PageSize) (give_up : ApiErrorCode → M WalkResult)
        → Holding o m hold
        → hold (entry_at w s) ≡ shared
        → ((q : ℕ) → assign (entry_at w s) (type_of leaf) hold q ≡ path_held w (type_of leaf) s q)
        → ((m' : Mem) (hold' : ℕ → LockType) (code : ApiErrorCode)
            → Holding o m' hold'
            → is_success code ≡ false
            → ((q : ℕ) → hold' q ≡ hold q)
            → Returns m' (give_up code))
        → IsLeaf m0 w target s
        → Returns m (Walk.leaf_at w (type_of leaf) target size false s (entry_at w s) give_up)
    unfolding Walk.leaf_at
    leaf_at-Returns {m} {hold} s give_up h e held give_up-Returns at_leaf =
        let p = entry_at w s in
        elim (Bool-cases (is_exclusive (type_of leaf))) [
          | inl x ↦ rw x (
              let l =
                at_lock-Keeps o m hold p SharexHp.promote_sharex_lock_hp
                  (λ r h. h ≡ after promote r) h (rw e (body-Keeps promote)) in
              then-Done _ l (elim (Bool-cases (is_success l.result)) [
                | inl good ↦
                    rw good (arrived s l.holding (λ q. ground (arith, held q, l.holds)) at_leaf)
                | inr bad ↦
                    rw bad (
                      give_up-Returns l.mem _ l.result l.holding bad (λ q. ground (arith, l.holds)))
              ]))
          | inr x ↦ rw x (arrived s h (λ q. ground (arith, held q)) at_leaf)
        ]

    walk_4kb-Returns :
        {m : Mem} {hold : ℕ → LockType}
        → Holding o m hold
        → ((q : ℕ) → hold q ≡ path_held w shared pt_2mb q)
        → IsLeaf m0 w target pt_4kb
        → Returns m (Walk.walk_4kb w (type_of leaf) target size false)
    unfolding Walk.walk_4kb
    walk_4kb-Returns {m} {hold} h held at_leaf =
        let free : hold w.p_4kb ≡ no_lock =
          ground (arith, held w.p_4kb, apart.gb_kb, apart.mb_kb) in
        let l =
          at_lock-Keeps o m hold w.p_4kb (SharexHp.acquire_sharex_lock_hp (type_of leaf) false)
            (λ r h. h ≡ after (acquire leaf) r) h (rw free (acquire-Keeps leaf)) in
        then-Done _ l (elim (Bool-cases (is_success l.result)) [
          | inl e ↦ rw e (arrived pt_4kb l.holding (λ q. ground (arith, held q, l.holds)) at_leaf)
          | inr e ↦ rw e (
              release_all-Returns l.result l.holding e
                (λ q. ground (arith, held q, held w.p_4kb, l.holds, apart.gb_kb, apart.mb_kb)))
        ])

    down_from_2mb-Returns :
        {m : Mem} {hold : ℕ → LockType} (retval : ApiErrorCode) (entry : PamtEntry)
        → Holding o m hold
        → ((q : ℕ)
            → hold q
              ≡ assign w.p_2mb (after (acquire reading) retval) (path_held w shared pt_1gb) q)
        → entry.pt ≡ (m0 w.p_2mb).pt
        → ¬ Stops (m0 w.p_1gb).pt target pt_1gb
        → Returns m (Walk.down_from_2mb w (type_of leaf) target size false retval entry)
    unfolding Walk.down_from_2mb
    down_from_2mb-Returns {m} {hold} retval entry h held same on =
        elim (Bool-cases (is_success retval)) [
          | inl e ↦ rw e (elim (Bool-cases (is_reg entry.pt || is_size target pt_2mb)) [
            | inl s ↦ rw s (
                leaf_at-Returns pt_2mb (Walk.release_all w (type_of leaf) target size false) h
                  (ground (arith, held w.p_2mb)) (λ q. ground (arith, held q))
                  (λ m' hold' code h' bad as_before.
                    release_all-Returns code h' bad (λ q. ground (arith, as_before q, held q)))
                  (on, rw same at (is_reg-Stops entry.pt target pt_2mb s)))
            | inr s ↦ rw s (
                walk_4kb-Returns h (λ q. ground (arith, held q))
                  (on, rw same at (goes_on entry.pt target pt_2mb s)))
          ])
          | inr e ↦ rw e (
              release_root-Returns retval h e
                (λ q. ground (arith, held q, held w.p_2mb, apart.gb_mb)))
        ]

    walk_2mb-Returns :
        {m : Mem} {hold : ℕ → LockType}
        → Holding o m hold
        → ((q : ℕ) → hold q ≡ path_held w shared pt_1gb q)
        → SameTypes m0 m
        → ¬ Stops (m0 w.p_1gb).pt target pt_1gb
        → Returns m (Walk.walk_2mb w (type_of leaf) target size false)
    unfolding Walk.walk_2mb
    walk_2mb-Returns {m} {hold} h held same on =
        let free : hold w.p_2mb ≡ no_lock = ground (arith, held w.p_2mb, apart.gb_mb) in
        let l =
          at_lock-Keeps o m hold w.p_2mb (SharexHp.acquire_sharex_lock_hp shared false)
            (λ r h. h ≡ after (acquire reading) r) h (rw free (acquire-Keeps reading)) in
        then-Done _ l (
          read-Done (Walk.down_from_2mb w (type_of leaf) target size false l.result) (
            down_from_2mb-Returns l.result (l.mem w.p_2mb) l.holding
              (λ q. ground (arith, held q, l.holds))
              (locked_type m w.p_2mb w.p_2mb shared l.returns ∙ same w.p_2mb) on))

    down_from_1gb-Returns :
        {m : Mem} {hold : ℕ → LockType} (retval : ApiErrorCode) (entry : PamtEntry)
        → Holding o m hold
        → ((q : ℕ) → hold q ≡ assign w.p_1gb (after (acquire reading) retval) nothing_held q)
        → SameTypes m0 m
        → entry.pt ≡ (m0 w.p_1gb).pt
        → Returns m (Walk.down_from_1gb w (type_of leaf) target size false retval entry)
    unfolding Walk.down_from_1gb
    down_from_1gb-Returns {m} {hold} retval entry h held types same =
        elim (Bool-cases (is_success retval)) [
          | inl e ↦ rw e (elim (Bool-cases (is_reg entry.pt || is_size target pt_1gb)) [
            | inl s ↦ rw s (
                leaf_at-Returns pt_1gb (Walk.release_root w (type_of leaf) target size false) h
                  (ground (arith, held w.p_1gb)) (λ q. ground (arith, held q))
                  (λ m' hold' code h' bad as_before.
                    release_root-Returns code h' bad (λ q. ground (arith, as_before q, held q)))
                  (rw same at (is_reg-Stops entry.pt target pt_1gb s)))
            | inr s ↦ rw s (
                walk_2mb-Returns h (λ q. ground (arith, held q)) types
                  (rw same at (goes_on entry.pt target pt_1gb s)))
          ])
          | inr e ↦ rw e (gave_up retval h e (λ q. ground (arith, held q)))
        ]

    walk_1gb-Returns :
        {m : Mem}
        → Holding o m nothing_held
        → SameTypes m0 m
        → Returns m (Walk.walk_1gb w (type_of leaf) target size false)
    unfolding Walk.walk_1gb
    walk_1gb-Returns {m} h same =
        let l =
          at_lock-Keeps o m nothing_held w.p_1gb (SharexHp.acquire_sharex_lock_hp shared false)
            (λ r h. h ≡ after (acquire reading) r) h (acquire-Keeps reading) in
        then-Done _ l (
          read-Done (Walk.down_from_1gb w (type_of leaf) target size false l.result) (
            down_from_1gb-Returns l.result (l.mem w.p_1gb) l.holding (λ q. ground (arith, l.holds))
              (λ q. locked_type m w.p_1gb q shared l.returns ∙ same q)
              (locked_type m w.p_1gb w.p_1gb shared l.returns ∙ same w.p_1gb)))

-- A host walk returns, whatever the table and whatever the other processors hold, if the entries of the
-- three levels stand at different addresses. On success it has the entry of the level that it reports,
-- held as asked, and the entries above it held shared: that entry is of a regular page or of the level
-- that was asked for, or of 4KB, and those above are neither. Otherwise it has no entry and no lock. The
-- level asked for is `size` if the walk is to end there, and else 4KB.
pub pamt_walk-Walked :
    (o : Others) (b : PamtBlock) (pa : ℕ)
    → Apart (entries_of b pa)
    → (leaf : Mode) (size : PageSize) (walk_to_leaf_size : Bool) (m : Mem)
    → Holding o m nothing_held
    → Done o m
        (Walk.pamt_walk pa b (type_of leaf) size walk_to_leaf_size false)
        (Walked m (entries_of b pa) (if walk_to_leaf_size then size else pt_4kb) (type_of leaf))
unfolding Walk.pamt_walk
pamt_walk-Walked o b pa apart leaf size walk_to_leaf_size m h =
    walk_1gb-Returns o (entries_of b pa) apart m leaf (if walk_to_leaf_size then size else pt_4kb)
      size h (λ q. refl)
