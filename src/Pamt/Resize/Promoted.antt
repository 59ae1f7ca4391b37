-- ===== src/Pamt/Resize/Promoted.antt =====
-- Merging 512 leaves of one owner: the entry above them becomes the leaf.
use tdx_module.Base.{
  ℕ, ◌+◌, ◌*◌, ◌%◌, ◌≤◌, ◌≡◌, ap, refl, inl, fun_ext, ◌∙◌, arith, Bool, true, false, ◌==◌, ◌&&◌,
  if◌then◌else◌,
}
use tdx_module.ErrorCodes.{tdx_success}
use tdx_module.Pamt.State.{
  PamtEntry, pt_nda, pt_reg, Mem, ok, bind_outcome, pure, write, write_entry, elem,
}
use tdx_module.Pamt.Resize
use tdx_module.Pamt.Resize.{is_type}
use tdx_module.Pamt.Resize.Filled.{filled, in_array, for_children-filled, for_children-start}
use tdx_module.Pamt.Resize.Demoted.{
  split, demote_entry-split, IsFree, acquired, release_last, taken,
}

abbrev give_up : PamtEntry → PamtEntry
give_up e = record e { pt = pt_nda }

-- Every child from `p` on has the type and the owner of the first.
abbrev AllLike : ℕ → ℕ → Mem → PamtEntry → Type 0
AllLike children p m e =
    (q : ℕ) → p ≤ q → in_array children 512 q ≡ true → ((m q).pt ≡ e.pt) × ((m q).owner ≡ e.owner)

-- The table when the first child is copied to the parent.
abbrev copied : ℕ → PamtEntry → Mem → Mem
copied promoted e m =
    write promoted (record (m promoted) { pt = e.pt; owner = e.owner; entry_lock = 1 }) m

module _ (promoted children : ℕ) (m : Mem) (e : PamtEntry) where
  -- The parent is like the first child, and so are the children that are still to come.
  abbrev Going : ℕ → Mem → Type 0
  Going p m' = ((m' promoted).pt ≡ e.pt) × ((m' promoted).owner ≡ e.owner) × AllLike children p m' e

  merged :
      (m' : Mem) (p : ℕ)
      → in_array children 512 p ≡ true
      → Going p m'
      → Resize.merge_child promoted p m' ≡ ok tt (write p (give_up (m' p)) m')
  unfolding Resize.merge_child
  merged m' p inside (pt, owner, all) =
      let (child_pt, child_owner) = all p (omega arith) inside in
      rw (pt, child_pt, owner, child_owner)
        (let same_pt : is_type e.pt e.pt ≡ true = ground arith in
          let same_owner : (e.owner == e.owner) ≡ true = ground arith in
          rw (same_pt, same_owner) refl)

  -- Copying the first child changes nothing in a parent that is like it.
  copy_again :
      (m' : Mem) (p : ℕ) (b : Bool)
      → in_array children 512 p ≡ true
      → Going p m'
      → (if b
            then write_entry promoted
                (record (m' promoted) { pt = (m' p).pt; owner = (m' p).owner })
            else pure tt)
          m'
        ≡ ok tt m'
  copy_again m' p true inside (pt, owner, all) =
      let (child_pt, child_owner) = all p (omega arith) inside in
      ap (ok tt) (fun_ext (λ q. ground (arith, pt, owner, child_pt, child_owner)))
  copy_again m' p false inside going = refl

  one_child :
      in_array children 512 promoted ≡ false
      → (m' : Mem) (i j p : ℕ) → p ≡ elem children (256 * i + j)
      → in_array children 512 p ≡ true
      → Going p m'
      → (Resize.promote_child promoted children i j p m' ≡ ok tt (write p (give_up (m' p)) m'))
        × Going (elem p 1) (write p (give_up (m' p)) m')
  unfolding Resize.promote_child
  one_child apart m' i j p place inside going = (
    ap (λ r. bind_outcome r (λ _. Resize.merge_child promoted p))
          (copy_again m' p ((i == 0) && (j == 0)) inside going)
        ∙ merged m' p inside going,
    (
      ground (arith, going.0),
      ground (arith, going.1),
      λ q above q_inside. ground (arith, going.2 q (omega arith) q_inside),
    ),
  )

-- The table after the merge.
abbrev pub joined : ℕ → ℕ → Mem → Mem
joined promoted children m p =
    if promoted == p
    then record (m promoted) { pt = (m children).pt; owner = (m children).owner; entry_lock = 0 }
    else filled children 512 give_up m p

-- Whether the first child is copied before the loop or in it makes no difference.
first_alike :
    (promoted children : ℕ) (m : Mem)
    → in_array children 512 promoted ≡ false
    → (p : ℕ) → p ≡ children
    → Resize.promote_child promoted children 0 0 p (taken promoted m)
      ≡ Resize.promote_child promoted children 0 0 p (copied promoted (m children) m)
unfolding Resize.promote_child
first_alike promoted children m apart p e =
    ap (Resize.merge_child promoted p) (fun_ext (λ q. rw e (ground arith)))

children_merge :
    (promoted children : ℕ) (m : Mem)
    → in_array children 512 promoted ≡ false
    → AllLike children children m (m children)
    → Resize.for_children children (Resize.promote_child promoted children) (taken promoted m)
      ≡ ok tt (filled children 512 give_up (copied promoted (m children) m))
children_merge promoted children m apart all =
    for_children-start children (Resize.promote_child promoted children) (taken promoted m)
      (copied promoted (m children) m) (first_alike promoted children m apart)
    ∙ (for_children-filled give_up (Resize.promote_child promoted children) children
        (Going promoted children m (m children)) (copied promoted (m children) m)
        (one_child promoted children m (m children) apart)
        (ground arith, ground arith, λ q above inside. ground (arith, all q above inside))).0

-- If the 512 children have one type and one owner, and the entry above them is no leaf and its lock
-- is free, the merge succeeds: that entry is a leaf of that type and owner with a free lock, no
-- child is a leaf any more, and no other entry changes.
pub promote_entry-joined :
    (promoted children : ℕ) (m : Mem)
    → (m promoted).pt ≡ pt_nda
    → IsFree (m promoted).entry_lock
    → children % 4096 ≡ 0
    → in_array children 512 promoted ≡ false
    → AllLike children children m (m children)
    → Resize.promote_entry promoted children m ≡ ok tdx_success (joined promoted children m)
unfolding Resize.promote_entry
promote_entry-joined promoted children m nda free aligned apart all =
    let after : Mem = filled children 512 give_up (copied promoted (m children) m) in
    rw
      (
        nda,
        acquired (m promoted).entry_lock free,
        aligned,
        children_merge promoted children m apart all,
      )
      (release_last promoted after (ground arith)
        ∙ ap (ok tdx_success) (fun_ext (λ p. ground arith)))

split_alike :
    (demoted children : ℕ) (m : Mem)
    → in_array children 512 demoted ≡ false
    → AllLike children children (split demoted children m) (split demoted children m children)
split_alike demoted children m apart q above inside = (ground arith, ground arith)

-- A leaf that is split, and whose children are left alone, can be merged again: the merge succeeds
-- and gives back the entry of the leaf with its lock free.
pub demote-promote :
    (demoted children : ℕ) (m : Mem)
    → (m demoted).pt ≡ pt_reg
    → IsFree (m demoted).entry_lock
    → children % 4096 ≡ 0
    → in_array children 512 demoted ≡ false
    → (between after : Mem) × (Resize.demote_entry demoted children m ≡ ok tdx_success between)
      × (Resize.promote_entry demoted children between ≡ ok tdx_success after)
      × (after demoted ≡ record (m demoted) { entry_lock = 0 })
demote-promote demoted children m leaf free aligned apart =
    let between : Mem = split demoted children m in
    (
      between,
      joined demoted children between,
      demote_entry-split demoted children m leaf free aligned apart,
      promote_entry-joined demoted children between (ground arith) (inl (ground arith)) aligned
          apart (split_alike demoted children m apart),
      ground (arith, leaf),
    )
