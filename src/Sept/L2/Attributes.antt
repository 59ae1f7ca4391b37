-- ===== src/Sept/L2/Attributes.antt =====
-- The attributes of an L2 entry survive blocking and unblocking.
use tdx_module.Base.{ℕ, ◌≡◌, refl, Bool, true, false, inl, inr, Bool-cases, ◌&&◌, if◌then◌else◌}
use tdx_module.Sept.Entry.{Septe}
use tdx_module.Sept.L2
use tdx_module.Sept.L2.{GpaAttr, is_l2_sept_blocked, is_l2_sept_mapped}

-- Unblocking an L2 leaf that was set blocked gives the leaf that the same attributes set mapped.
pub unblock-set_leaf :
    (e : Septe) (g : GpaAttr) (pa : ℕ)
    → L2.sept_l2_unblock (L2.sept_l2_set_leaf e g pa true) ≡ L2.sept_l2_set_leaf e g pa false
unfolding L2.sept_l2_unblock L2.sept_l2_set_leaf
unblock-set_leaf e g pa = refl

-- The attributes read from a leaf, blocked or not, are those that it was set with, marked valid, as
-- long as its L1 entry is not blocked for writing.
pub get_gpa_attr-set_leaf :
    (e : Septe) (g : GpaAttr) (pa : ℕ) (is_l2_blocked : Bool)
    → L2.l2_sept_get_gpa_attr (L2.sept_l2_set_leaf e g pa is_l2_blocked) false
      ≡ record g { valid = true }
unfolding L2.l2_sept_get_gpa_attr L2.sept_l2_set_leaf
get_gpa_attr-set_leaf e g pa true = refl
get_gpa_attr-set_leaf e g pa false = elim (Bool-cases g.r) [ inl h ↦ rw h refl | inr h ↦ rw h refl ]

-- Blocking a mapped L2 leaf, where its L1 entry is not blocked for writing, gives the leaf that the
-- same attributes set blocked.
pub block-set_leaf :
    (e : Septe) (g : GpaAttr) (pa : ℕ)
    → L2.block_l2_sept_entry (L2.sept_l2_set_leaf e g pa false) false
      ≡ L2.sept_l2_set_leaf e g pa true
unfolding L2.block_l2_sept_entry L2.sept_l2_set_leaf
block-set_leaf e g pa = refl

-- Attributes that replace those of a leaf, mapped or blocked, are read back as they were given, except
-- that R, Xs and Xu of a blocked leaf read as 0 where its L1 entry is blocked for writing.
pub get_gpa_attr-update_gpa_attr :
    (e : Septe) (f g : GpaAttr) (pa : ℕ) (is_l2_blocked is_blockedw : Bool)
    → L2.l2_sept_get_gpa_attr
        (L2.l2_sept_update_gpa_attr (L2.sept_l2_set_leaf e f pa is_l2_blocked) g)
        is_blockedw
      ≡ (if is_l2_blocked && is_blockedw
          then record g { r = false; xs = false; xu = false; valid = true }
          else record g { valid = true })
unfolding L2.l2_sept_get_gpa_attr L2.sept_l2_set_leaf L2.l2_sept_update_gpa_attr
get_gpa_attr-update_gpa_attr e f g pa true true = refl
get_gpa_attr-update_gpa_attr e f g pa true false = refl
get_gpa_attr-update_gpa_attr e f g pa false is_blockedw = elim (Bool-cases g.r) [
  | inl h ↦ rw h refl
  | inr h ↦ rw h refl
]
