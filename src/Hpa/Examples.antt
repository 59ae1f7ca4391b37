-- ===== src/Hpa/Examples.antt =====
-- The theorems on checking a page at a concrete table.
use tdx_module.Base.{
  ℕ, ◌+◌, ◌*◌, ◌^◌, ◌≡◌, ◌<◌, refl, sym, ap, ◌∙◌, subst, true, [], ◌∷◌, arith, ◌==◌, ◌/◌, ◌%◌,
  if◌then◌else◌,
}
use tdx_module.Locks.Types.{shared, exclusive, reading}
use tdx_module.Locks.SharexHp.Holds.{limit}
use tdx_module.Pamt.State.{pt_nda, pt_4kb, pt_2mb, PamtBlock, TdmrEntry, Mem}
use tdx_module.Pamt.Block.{
  BlockResult, found, not_found, check_failed, pamt_get_block, covering_tdmr, block_in, block_of,
  get_addr_from_pa,
}
use tdx_module.Pamt.Walk.{entries_of}
use tdx_module.Pamt.Walk.Holds.{Others, Holding, Done}
use tdx_module.Pamt.Walk.Returns.{Apart, nothing_held}
use tdx_module.Pamt.Walk.Stable.{SameTypes}
use tdx_module.Hpa.{Global}
use tdx_module.Hpa.Lock.{check_and_lock_explicit_private_hpa, check_and_lock_free_range_hpa}
use tdx_module.Hpa.Locked.{Covered, LockedPage, check_and_lock-LockedPage}
use tdx_module.Hpa.Free.{InPages, FreeRange, free_range-FreeRange}

-- One region of one gigabyte, at 4GB.
abbrev tdmr : TdmrEntry
tdmr = record {
  base = 4 * 2 ^ 30;
  size = 2 ^ 30;
  last_initialized = 5 * 2 ^ 30;
  pamt_1g_base = 0x1000;
  pamt_2m_base = 0x10000;
  pamt_4k_base = 0x100000;
  num_of_pamt_blocks = 1;
  rsvd_areas = [];
  lock = 0;
}

abbrev pub global : Global
global = record {
  hkid = 33;
  hkid_mask = 0xFC00000000000;
  hkid_start_bit = 46;
  private_hkid_min = 32;
  private_hkid_max = 63;
  seamrr_base = 0;
  seamrr_size = 0;
  tdmr_table = tdmr ∷ [];
}

-- Aligned on 2MB.
abbrev pub page : ℕ
page = 4 * 2 ^ 30 + 0x600000

abbrev block : PamtBlock
block = block_of tdmr 0

abbrev pub lookup : BlockResult
lookup = pamt_get_block global.tdmr_table global.hkid_mask page

lookup_finds : lookup ≡ found block
unfolding pamt_get_block covering_tdmr block_in get_addr_from_pa
lookup_finds = refl

abbrev block_or : PamtBlock → BlockResult → PamtBlock
block_or b (found c) = c
block_or b not_found = b
block_or b check_failed = b

same_block : (b : PamtBlock) → lookup ≡ found b → block ≡ b
same_block b e = ap (block_or block) (sym lookup_finds ∙ e)

block-Apart : Apart (entries_of block page)
block-Apart = record { gb_mb = omega arith; gb_kb = omega arith; mb_kb = omega arith }

pub page-Covered : Covered lookup page
page-Covered = record {
  passes = λ e. let clash : found block ≡ check_failed = sym lookup_finds ∙ e in cc;
  apart = λ b e. subst (λ c. Apart (entries_of c page)) (same_block b e) block-Apart;
}

page-InPages : InPages lookup page
page-InPages = λ b e. subst (λ c. first_aligned c) (same_block b e) refl
  where
    first_aligned : PamtBlock → Type 0
    first_aligned c = (c.pamt_4kb_p + (page / 2 ^ 12 % 2 ^ 18) * 16) % 4096 ≡ 0

abbrev pub readers : ℕ → ℕ
readers p = if p == 0x1000 then 1 else 0

pub readers_few : (p : ℕ) → readers p < limit
readers_few p = ground arith

-- Another processor reads the entry of the gigabyte.
abbrev pub one_reader : Others
one_reader = record { readers = readers; writers = λ p. 0; few = readers_few }

abbrev all_free : Mem
all_free p = record {
  entry_lock = if p == 0x1000 then 4 else 0;
  pt = pt_nda;
  owner = 0;
  bepoch = 0;
}

all_free-Holding : Holding one_reader all_free nothing_held
all_free-Holding = λ p. ground arith

check_and_lock-LockedPage_example :
    (d : Done one_reader all_free
      (check_and_lock_explicit_private_hpa global page 1 4096 shared pt_nda pt_4kb true)
      (LockedPage all_free page reading pt_nda pt_4kb true global 4096))
    × SameTypes all_free d.mem
check_and_lock-LockedPage_example =
    check_and_lock-LockedPage one_reader all_free global page 1 4096 12 refl reading pt_nda pt_4kb
      true page-Covered all_free-Holding

free_range-FreeRange_example :
    Done one_reader all_free
      (check_and_lock_free_range_hpa global page 1 exclusive pt_2mb)
      (FreeRange all_free page pt_2mb lookup)
free_range-FreeRange_example =
    free_range-FreeRange one_reader all_free global page 1 pt_2mb page-Covered page-InPages
      all_free-Holding
