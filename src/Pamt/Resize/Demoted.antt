-- ===== src/Pamt/Resize/Demoted.antt =====
-- Splitting a leaf entry: its children become leaves of the same owner.
use tdx_module.Base.{
  ℕ, ◌%◌, ◌≡◌, ◌⊎◌, inl, inr, ap, refl, fun_ext, ◌∙◌, arith, false, ◌==◌, if◌then◌else◌,
}
use tdx_module.ErrorCodes.{tdx_success}
use tdx_module.Locks.Atomic.{run, done}
use tdx_module.Locks.SharexHp as SharexHp
use tdx_module.Pamt.State.{PamtEntry, pt_reg, pt_nda, Mem, ok, at_lock, ◌>>◌, pure, write}
use tdx_module.Pamt.Resize
use tdx_module.Pamt.Resize.Filled.{filled, in_array, for_children-filled}

-- The lock of an entry is free; the flag of a host that waits may stand.
abbrev pub IsFree : ℕ → Type 0
IsFree w = w ≡ 0 ⊎ w ≡ 2

pub acquired :
    (w : ℕ) → IsFree w → run (SharexHp.acquire_sharex_lock_hp_ex false) w ≡ (done tdx_success, 1)
unfolding SharexHp.acquire_sharex_lock_hp_ex
acquired w (inl e) = rw e refl
acquired w (inr e) = rw e refl

pub released : run SharexHp.release_sharex_lock_hp_ex 1 ≡ (done tt, 0)
unfolding SharexHp.release_sharex_lock_hp_ex
released = refl

abbrev inherit : ℕ → PamtEntry → PamtEntry
inherit owner e = record e { pt = pt_reg; owner = owner; bepoch = 0 }

-- The table after the split.
abbrev pub split : ℕ → ℕ → Mem → Mem
split demoted children m p =
    if demoted == p
    then record (m demoted) { pt = pt_nda; entry_lock = 0 }
    else filled children 512 (inherit (m demoted).owner) m p

pub release_last :
    (p : ℕ) (m : Mem)
    → (m p).entry_lock ≡ 1
    → (at_lock p SharexHp.release_sharex_lock_hp_ex >> pure tdx_success) m
      ≡ ok tdx_success (write p (record (m p) { entry_lock = 0 }) m)
release_last p m held = rw (held, released) refl

abbrev pub taken : ℕ → Mem → Mem
taken p m = write p (record (m p) { entry_lock = 1 }) m

-- The loop over the children, with the lock of the parent taken.
children_inherit :
    (demoted children : ℕ) (m : Mem)
    → (m demoted).pt ≡ pt_reg
    → in_array children 512 demoted ≡ false
    → Resize.for_children children (Resize.demote_child demoted) (taken demoted m)
      ≡ ok tt (filled children 512 (inherit (m demoted).owner) (taken demoted m))
unfolding Resize.demote_child
children_inherit demoted children m leaf apart =
    (for_children-filled (inherit (m demoted).owner) (Resize.demote_child demoted) children
      (λ _ m'. ((m' demoted).pt ≡ pt_reg) × ((m' demoted).owner ≡ (m demoted).owner))
      (taken demoted m) (λ m' i j p place inside same. (rw (same.0, same.1) refl, ground arith))
      (ground arith)).0

-- A leaf entry whose lock is free, beside 512 children on an aligned page, is split: the entry is no
-- longer a leaf and its lock is free, every child is a regular leaf of the same owner with no epoch
-- and its own lock, and no other entry changes.
pub demote_entry-split :
    (demoted children : ℕ) (m : Mem)
    → (m demoted).pt ≡ pt_reg
    → IsFree (m demoted).entry_lock
    → children % 4096 ≡ 0
    → in_array children 512 demoted ≡ false
    → Resize.demote_entry demoted children m ≡ ok tdx_success (split demoted children m)
unfolding Resize.demote_entry
demote_entry-split demoted children m leaf free aligned apart =
    let after : Mem = filled children 512 (inherit (m demoted).owner) (taken demoted m) in
    rw
      (
        leaf,
        acquired (m demoted).entry_lock free,
        aligned,
        children_inherit demoted children m leaf apart,
      )
      (release_last demoted (write demoted (record (after demoted) { pt = pt_nda }) after)
          (ground arith)
        ∙ ap (ok tdx_success) (fun_ext (λ p. ground arith)))
