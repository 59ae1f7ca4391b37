-- ===== src/Pamt/Walk/Unwalks.antt =====
-- Undoing a walk of a host gives back every lock that the walk took.
use tdx_module.Base.{ℕ, ◌≡◌, arith}
use tdx_module.Locks.Types.{LockType, no_lock, Mode, reading, type_of}
use tdx_module.Locks.SharexHp as SharexHp
use tdx_module.Locks.SharexHp.Holds.{release-Keeps}
use tdx_module.Pamt.State.{PageSize, pt_4kb, pt_2mb, pt_1gb, PamtBlock, Mem}
use tdx_module.Pamt.Walk
use tdx_module.Pamt.Walk.{Path3, entries_of}
use tdx_module.Pamt.Walk.Holds.{Others, Holding, Locked, at_lock-Keeps, Done, then-Done, last-Done}
use tdx_module.Pamt.Walk.Returns.{Apart, path_held}

abbrev pub NoneHeld : Unit {0} → (ℕ → LockType) → Type 0
NoneHeld _ held = (q : ℕ) → held q ≡ no_lock

release :
    (o : Others) {m : Mem} {hold : ℕ → LockType} (p : ℕ) (mode : Mode)
    → Holding o m hold
    → hold p ≡ type_of mode
    → Locked o m hold p (SharexHp.release_sharex_lock_hp (type_of mode)) (λ _ h. h ≡ no_lock)
release o {m} {hold} p mode h e = at_lock-Keeps o m hold p _ _ h (rw e (release-Keeps mode))

-- From the holds of a walk, whatever the leaf's level and lock, the unwalk passes every check of
-- the lock functions and leaves nothing held.
pub pamt_unwalk-releases :
    (o : Others) (b : PamtBlock) (pa : ℕ)
    → Apart (entries_of b pa)
    → (leaf : Mode) (leaf_size : PageSize) (m : Mem) (hold : ℕ → LockType) → Holding o m hold
    → ((q : ℕ) → hold q ≡ path_held (entries_of b pa) (type_of leaf) leaf_size q)
    → Done o m (Walk.pamt_unwalk pa b (type_of leaf) leaf_size) NoneHeld
unfolding Walk.pamt_unwalk SharexHp.release_sharex_lock_hp
pamt_unwalk-releases o b pa apart leaf pt_4kb m hold h held =
    let w : Path3 = entries_of b pa in
    let k = release o w.p_4kb leaf h (ground (arith, held w.p_4kb)) in
    let j = release o w.p_2mb reading k.holding (ground (arith, held w.p_2mb, apart.mb_kb)) in
    let i =
      release o w.p_1gb reading j.holding
        (ground (arith, held w.p_1gb, apart.gb_mb, apart.gb_kb)) in
    then-Done _ k
      (then-Done _ j (last-Done i (λ q. ground (arith, held q, i.holds, j.holds, k.holds))))
pamt_unwalk-releases o b pa apart leaf pt_2mb m hold h held =
    let w : Path3 = entries_of b pa in
    let j = release o w.p_2mb leaf h (ground (arith, held w.p_2mb)) in
    let i = release o w.p_1gb reading j.holding (ground (arith, held w.p_1gb, apart.gb_mb)) in
    then-Done _ j (last-Done i (λ q. ground (arith, held q, i.holds, j.holds)))
pamt_unwalk-releases o b pa apart leaf pt_1gb m hold h held =
    let w : Path3 = entries_of b pa in
    let i = release o w.p_1gb leaf h (ground (arith, held w.p_1gb)) in
    last-Done i (λ q. ground (arith, held q, i.holds))
