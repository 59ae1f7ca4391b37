-- ===== src/Sept/State/Leaf.antt =====
-- The leaves that the setters of an L1 entry store.
use tdx_module.Base.{ℕ, ◌≡◌, refl, Bool, true, false, if◌then◌else◌}
use tdx_module.Sept.Entry.{
  Septe, SeptState, InState, encoding, enc_bit, free, removed, nl_mapped, nl_blocked,
}
use tdx_module.Sept.State

-- The leaf states.
abbrev pub is_leaf_state : SeptState → Bool
is_leaf_state s = enc_bit 6 (encoding s)

-- A leaf that a setter stores.
pub record LeafStored (after : Septe) (attributes : State.Attributes) (page_pa : ℕ) (s : SeptState)
    (locked : Bool) : Type 0 where
  pub state : InState after s
  pub page : after.base ≡ State.page_4k_num page_pa
  pub lock : after.tdel ≡ locked
  pub host_priority : after.hp ≡ false
  pub rights : (after.r ≡ attributes.r) × (after.w ≡ attributes.w) × (after.x ≡ attributes.x)
  pub suppressed : after.supp_ve ≡ true

leaf_ipat : (s : SeptState) → is_leaf_state s ≡ true → true ≡ enc_bit 5 (encoding s)
leaf_ipat free l = cc
leaf_ipat removed l = cc
leaf_ipat nl_mapped l = cc
leaf_ipat nl_blocked l = cc
leaf_ipat s l = refl

set_leaf-LeafStored :
    (attributes : State.Attributes) (page_pa : ℕ) (s : SeptState) (locked : Bool)
    → is_leaf_state s ≡ true
    → LeafStored
        (State.sept_set_leaf_no_lock_internal attributes page_pa s locked)
        attributes
        page_pa
        s
        locked
unfolding State.sept_set_leaf_no_lock_internal
set_leaf-LeafStored attributes page_pa s locked l = record {
  state = record {
    d = refl;
    tdex = refl;
    tdbw = refl;
    tdb = refl;
    tdp = refl;
    ipat = leaf_ipat s l;
    leaf = refl;
  };
  page = refl;
  lock = refl;
  host_priority = refl;
  rights = (refl, refl, refl);
  suppressed = refl;
}

-- The setter that keeps the lock stores, over a locked entry, a locked leaf in the state that is
-- asked for, with the page and rights given and no host priority; over an unlocked entry it fails
-- its sanity check. The setter for unlocked entries does the opposite, and leaves the leaf unlocked.
pub set_leaf-checks :
    (e : Septe) (attributes : State.Attributes) (page_pa : ℕ) (s : SeptState)
    → is_leaf_state s ≡ true
    → (kept : Septe) × (free_leaf : Septe) × LeafStored kept attributes page_pa s true
      × LeafStored free_leaf attributes page_pa s false
      × (State.sept_set_leaf_and_keep_lock e attributes page_pa s
          ≡ (if e.tdel then State.stored kept else State.halted 3))
      × (State.sept_set_leaf_unlocked_entry e attributes page_pa s
          ≡ (if e.tdel then State.halted 4 else State.stored free_leaf))
unfolding State.sept_set_leaf_and_keep_lock State.sept_set_leaf_unlocked_entry
set_leaf-checks e attributes page_pa s l = (
  State.sept_set_leaf_no_lock_internal attributes page_pa s true,
  State.sept_set_leaf_no_lock_internal attributes page_pa s false,
  set_leaf-LeafStored attributes page_pa s true l,
  set_leaf-LeafStored attributes page_pa s false l,
  refl,
  refl,
)
