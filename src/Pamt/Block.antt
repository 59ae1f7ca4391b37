-- ===== src/Pamt/Block.antt =====
-- src/common/memory_handlers/pamt_manager.c: the PAMT block of a physical address.
pub mod Finds
use tdx_module.Base.{
  ℕ, ◌+◌, ◌-◌, ◌*◌, ◌/◌, ◌%◌, ◌^◌, bit_and, List, [], ◌∷◌, Option, none, some, ltb, leb,
  if◌then◌else◌,
}
use tdx_module.Pamt.State.{TdmrEntry, PamtBlock}

-- `pa.full_pa & ~hkid_mask`.
unfoldable pub get_addr_from_pa : ℕ → ℕ → ℕ
get_addr_from_pa hkid_mask pa = bit_and (pa % 2 ^ 52) (2 ^ 64 - 1 - hkid_mask)

-- `pa.pamt_2m.idx` and `pa.pamt_4k.idx`.
abbrev pub idx_2m : ℕ → ℕ
idx_2m pa = pa / 2 ^ 21 % 2 ^ 9

abbrev pub idx_4k : ℕ → ℕ
idx_4k pa = pa / 2 ^ 12 % 2 ^ 18

-- The loop over the table: the last region that starts at or below the address, up to the first
-- that starts above it.
unfoldable pub covering_tdmr : List TdmrEntry → ℕ → Option TdmrEntry → Option TdmrEntry
covering_tdmr [] pa_addr covering = covering
covering_tdmr (t ∷ ts) pa_addr covering =
    let rest = covering_tdmr ts pa_addr (some t) in if leb t.base pa_addr then rest else covering

-- What `pamt_get_block` may do: fill the block and return true, return false, or fail its check.
pub data BlockResult : Type 0 where
  found : PamtBlock → BlockResult
  not_found : BlockResult
  check_failed : BlockResult

abbrev pub block_of : TdmrEntry → ℕ → PamtBlock
block_of t n = record {
  pamt_1gb_p = t.pamt_1g_base + n * 16;
  pamt_2mb_p = t.pamt_2m_base + n * 16 * 512;
  pamt_4kb_p = t.pamt_4k_base + n * 16 * (512 * 512);
}

unfoldable pub block_in : TdmrEntry → ℕ → BlockResult
block_in t pa_addr =
    let pamt_block_num = (pa_addr - t.base) / 2 ^ 30 % 2 ^ 22 in
    if leb (t.base + t.size) pa_addr
    then not_found
    else (if ltb pamt_block_num t.num_of_pamt_blocks
        then (if leb (t.last_initialized - t.last_initialized % 2 ^ 30) pa_addr
            then not_found
            else found (block_of t pamt_block_num))
        else check_failed)

abbrev pub block_of_covering : Option TdmrEntry → ℕ → BlockResult
block_of_covering none pa_addr = not_found
block_of_covering (some t) pa_addr = block_in t pa_addr

unfoldable pub pamt_get_block : List TdmrEntry → ℕ → ℕ → BlockResult
unfolding get_addr_from_pa covering_tdmr block_in
pamt_get_block tdmr_table hkid_mask pa =
    let pa_addr = get_addr_from_pa hkid_mask pa in
    block_of_covering (covering_tdmr tdmr_table pa_addr none) pa_addr
