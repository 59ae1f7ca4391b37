-- ===== src/Pamt/Examples.antt =====
-- The theorems on the physical address metadata table at a concrete table.
use tdx_module.Base.{
  ℕ, ◌+◌, ◌*◌, ◌-◌, ◌/◌, ◌^◌, ◌≡◌, ◌↔◌, refl, inl, inr, true, false, Bool, List, [], ◌∷◌, arith,
  ◌==◌, if◌then◌else◌,
}
use tdx_module.ErrorCodes.{tdx_success}
use tdx_module.Locks.Types.{exclusive, writing}
use tdx_module.Pamt.State.{
  pt_reg, pt_nda, pt_rsvd, RsvdArea, pt_4kb, pt_2mb, PamtBlock, TdmrEntry, Mem, ok,
}
use tdx_module.Pamt.Reserved.{page_types, is_page_reserved}
use tdx_module.Pamt.Reserved.Ascending.{types_of, page_types-types_of}
use tdx_module.Pamt.Block.{pamt_get_block, block_of, get_addr_from_pa, found}
use tdx_module.Pamt.Block.Finds.{pamt_get_block-found}
use tdx_module.Pamt.Walk.{entries_of, pamt_walk, pamt_unwalk}
use tdx_module.Pamt.Walk.Holds.{Others, Holding, Done}
use tdx_module.Pamt.Walk.Returns.{Apart, Walked, nothing_held, path_held, pamt_walk-Walked}
use tdx_module.Pamt.Walk.Unwalks.{NoneHeld, pamt_unwalk-releases}
use tdx_module.Pamt.Resize.{demote_entry, promote_entry}
use tdx_module.Pamt.Resize.Filled.{in_array}
use tdx_module.Pamt.Resize.Promoted.{joined, promote_entry-joined, demote-promote}
use tdx_module.Pamt.Resize.Demoted.{split, demote_entry-split}
use tdx_module.Pamt.Implicit.{pamt_is_2mb_range_free}
use tdx_module.Pamt.Implicit.RangeFree.{AllFree, pamt_is_2mb_range_free-AllFree}

-- One region of two gigabytes, at 4GB.
abbrev tdmr : TdmrEntry
tdmr = record {
  base = 4 * 2 ^ 30;
  size = 2 * 2 ^ 30;
  last_initialized = 6 * 2 ^ 30;
  pamt_1g_base = 0x1000;
  pamt_2m_base = 0x10000;
  pamt_4k_base = 0x100000;
  num_of_pamt_blocks = 2;
  rsvd_areas = [];
  lock = 0;
}

-- A page in the second gigabyte.
abbrev page : ℕ
page = 5 * 2 ^ 30 + 0x203000

abbrev block : PamtBlock
block = block_of tdmr 1

page_addr : get_addr_from_pa 0 page ≡ page
unfolding get_addr_from_pa
page_addr = refl

pamt_get_block-found_example :
    pamt_get_block (tdmr ∷ []) 0 page
    ≡ found (block_of tdmr ((get_addr_from_pa 0 page - 4 * 2 ^ 30) / 2 ^ 30))
unfolding get_addr_from_pa
pamt_get_block-found_example =
    pamt_get_block-found (tdmr ∷ []) 0 page tdmr (omega arith, tt) (inl refl) (omega arith)
      (omega arith) (omega arith) (omega arith) (omega arith)

-- Nobody holds a lock.
abbrev nobody : Others
nobody = record { readers = λ p. 0; writers = λ p. 0; few = λ p. omega arith }

abbrev all_free : Mem
all_free p = record { entry_lock = 0; pt = pt_nda; owner = 0; bepoch = 0 }

all_free-Holding : Holding nobody all_free nothing_held
all_free-Holding = λ p. ground arith

page-Apart : Apart (entries_of block page)
page-Apart = record { gb_mb = omega arith; gb_kb = omega arith; mb_kb = omega arith }

pamt_walk-Walked_example :
    Done nobody all_free
      (pamt_walk page block exclusive pt_4kb false false)
      (Walked all_free (entries_of block page) pt_4kb exclusive)
pamt_walk-Walked_example =
    pamt_walk-Walked nobody block page page-Apart writing pt_4kb false all_free all_free-Holding

-- The locks of the path to a 2MB leaf are held.
abbrev path_locked : Mem
path_locked p = record (all_free p) {
  entry_lock =
      if p == (entries_of block page).p_2mb
      then 1
      else (if p == (entries_of block page).p_1gb then 4 else 0);
}

path_locked-Holding :
    Holding nobody path_locked (path_held (entries_of block page) exclusive pt_2mb)
path_locked-Holding = λ p. ground arith

pamt_unwalk-releases_example :
    Done nobody path_locked (pamt_unwalk page block exclusive pt_2mb) NoneHeld
pamt_unwalk-releases_example =
    pamt_unwalk-releases nobody block page page-Apart writing pt_2mb path_locked
      (path_held (entries_of block page) exclusive pt_2mb) path_locked-Holding (λ q. refl)

-- The 2MB entry is a leaf, with the flag of a host that waits.
abbrev one_leaf : Mem
one_leaf p =
    if p == 0x10000
    then record { entry_lock = 2; pt = pt_reg; owner = 7; bepoch = 3 }
    else all_free p

demote_entry-split_example :
    demote_entry 0x10000 0x100000 one_leaf ≡ ok tdx_success (split 0x10000 0x100000 one_leaf)
demote_entry-split_example = demote_entry-split 0x10000 0x100000 one_leaf refl (inr refl) refl refl

pamt_is_2mb_range_free-AllFree_example :
    (free : Bool) × (pamt_is_2mb_range_free 0x200000 block all_free ≡ ok free all_free)
    × ((free ≡ true) ↔ AllFree 0x502000 0 512 all_free)
pamt_is_2mb_range_free-AllFree_example = pamt_is_2mb_range_free-AllFree 0x200000 block all_free refl

demote-promote_example :
    (between after : Mem) × (demote_entry 0x10000 0x100000 one_leaf ≡ ok tdx_success between)
    × (promote_entry 0x10000 0x100000 between ≡ ok tdx_success after)
    × (after 0x10000 ≡ record { entry_lock = 0; pt = pt_reg; owner = 7; bepoch = 3 })
demote-promote_example = demote-promote 0x10000 0x100000 one_leaf refl (inr refl) refl refl

-- The 512 entries under the entry at 0x10000 are leaves of one owner.
abbrev all_leaves : Mem
all_leaves p =
    if in_array 0x100000 512 p
    then record { entry_lock = 0; pt = pt_reg; owner = 7; bepoch = 0 }
    else all_free p

promote_entry-joined_example :
    promote_entry 0x10000 0x100000 all_leaves ≡ ok tdx_success (joined 0x10000 0x100000 all_leaves)
promote_entry-joined_example =
    promote_entry-joined 0x10000 0x100000 all_leaves refl (inl refl) refl refl
      (λ q above inside. rw inside (refl, refl))

-- Page 1, and pages 4 and 5.
abbrev two_areas : List RsvdArea
two_areas =
    record { offset = 0x1000; size = 0x1000 } ∷ record { offset = 0x4000; size = 0x2000 } ∷ []

page_types-types_of_example : page_types two_areas 0 8 0 ≡ types_of two_areas 0 8
page_types-types_of_example =
    page_types-types_of two_areas 0 8 (omega arith, omega arith, (omega arith, omega arith, tt))

pages_marked :
    page_types two_areas 0 6 0 ≡ pt_nda ∷ pt_rsvd ∷ pt_nda ∷ pt_nda ∷ pt_rsvd ∷ pt_rsvd ∷ []
unfolding page_types is_page_reserved
pages_marked = refl
