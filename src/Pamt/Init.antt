-- ===== src/Pamt/Init.antt =====
-- src/common/memory_handlers/pamt_manager.c: writing the first contents of the table.
pub mod Written
use tdx_module.Base.{
  ℕ, zero, suc, ◌+◌, ◌*◌, ◌-◌, ◌/◌, ◌%◌, Bool, List, [], ◌∷◌, ◌==◌, if◌then◌else◌,
}
use tdx_module.Pamt.State.{
  PageType, pt_nda, PamtEntry, PamtBlock, TdmrEntry, Mem, M, ok, ◌>>=◌, ◌>>◌, sanity_check, write,
  pamt_entry_size,
}
use tdx_module.Pamt.Reserved.{page_types}

abbrev pub fresh : PageType → PamtEntry
fresh pt = record { entry_lock = 0; pt = pt; owner = 0; bepoch = 0 }

-- The four entries of a cache line, zeroed; PT_NDA is 0.
abbrev pub zero_cacheline : ℕ → Mem → Mem
zero_cacheline p m = write p (fresh pt_nda) (
    write (p + 16) (fresh pt_nda) (write (p + 32) (fresh pt_nda) (write (p + 48) (fresh pt_nda) m)))

-- Entries of the given types, written one after the other; the code writes four at a time.
unfoldable pub write_types : ℕ → List PageType → Mem → Mem
write_types p [] m = m
write_types p (pt ∷ types) m = write_types (p + 16) types (write p (fresh pt) m)

unfoldable pub pamt_4kb_init : PamtBlock → ℕ → TdmrEntry → M (Unit {0})
unfolding write_types
pamt_4kb_init b num_4k_entries t = do
  sanity_check (b.pamt_4kb_p % 4096 == 0) 11
  λ m. ok tt (
      write_types b.pamt_4kb_p
        (page_types t.rsvd_areas ((b.pamt_4kb_p - t.pamt_4k_base) / 16) (num_4k_entries / 256 * 256)
          0)
        m)

unfoldable pub init_node : ℕ → Mem → Mem
init_node p m =
    let zeroed = if p % 64 == 0 then zero_cacheline p m else m in
    write p (record (zeroed p) { pt = pt_nda }) zeroed

-- The loop over `n` entries from the one at `p` on.
unfoldable pub init_nodes : ℕ → ℕ → Mem → Mem
init_nodes p zero m = m
init_nodes p (suc n) m = init_nodes (p + 16) n (init_node p m)

unfoldable pub pamt_nodes_init : ℕ → ℕ → ℕ → ℕ → TdmrEntry → Mem → Mem
unfolding init_nodes
pamt_nodes_init start_pamt_4k_p end_pamt_4k_p nodes_array entries_in_node t m =
    init_nodes nodes_array
      ((end_pamt_4k_p - t.pamt_4k_base) / (entries_in_node * 16)
        - (start_pamt_4k_p - t.pamt_4k_base) / (entries_in_node * 16))
      m

unfoldable pub pamt_init : PamtBlock → ℕ → TdmrEntry → M (Unit {0})
unfolding pamt_4kb_init pamt_nodes_init
pamt_init b num_4k_entries t = do
  pamt_4kb_init b num_4k_entries t
  λ m. ok tt (
      pamt_nodes_init b.pamt_4kb_p (b.pamt_4kb_p + num_4k_entries * 16) b.pamt_1gb_p 262144 t
        (pamt_nodes_init b.pamt_4kb_p (b.pamt_4kb_p + num_4k_entries * 16) b.pamt_2mb_p 512 t m))
