-- ===== src/Tdmr/Init/Complete.antt =====
-- One call on a region that is not initialized to its end.
use tdx_module.Base.{
  ℕ, suc, ◌+◌, ◌-◌, ◌*◌, ◌/◌, ◌%◌, ◌^◌, ◌≤◌, ◌<◌, ◌≡◌, refl, arith, true, false, leb, ◌==◌,
}
use tdx_module.ErrorCodes.{tdx_success, plain}
use tdx_module.Locks.Mutex.{acquire_mutex_lock, release_mutex_lock}
use tdx_module.Pamt.State.{TdmrEntry, Mem, ok}
use tdx_module.Pamt.Reserved.Ascending.{page_types-types_of}
use tdx_module.Pamt.Init as PamtInit
use tdx_module.Tdmr.{add64}
use tdx_module.Tdmr.Init
use tdx_module.Tdmr.Init.{InitResult, TableResult, next_block, chunk_done}
use tdx_module.Tdmr.Init.Progress.{Laid, with_huge}

-- The region after `c` calls.
abbrev pub at_chunk : TdmrEntry → ℕ → TdmrEntry
at_chunk t c = record t { last_initialized = t.base + c * 0x400000; lock = 0 }

module _ (t : TdmrEntry) (chunks c : ℕ) (l : Laid t chunks) (lt : c < chunks) (m : Mem) where
  abbrev locked : TdmrEntry
  locked = record t { last_initialized = t.base + c * 0x400000; lock = 1 }

  pamt_init-ok : PamtInit.pamt_init (next_block locked) 1024 locked m ≡ ok tt (with_huge t c m)
  unfolding PamtInit.pamt_init PamtInit.pamt_4kb_init PamtInit.pamt_nodes_init
  pamt_init-ok =
      let block_4k : t.pamt_4k_base + (t.base + c * 0x400000 - t.base) / 2 ^ 12 * 16
          ≡ t.pamt_4k_base + c * 16384 =
        omega arith in
      let block_2m : t.pamt_2m_base + (t.base + c * 0x400000 - t.base) / 2 ^ 21 * 16
          ≡ t.pamt_2m_base + c * 2 * 16 =
        omega arith in
      let block_1g : t.pamt_1g_base + (t.base + c * 0x400000 - t.base) / 2 ^ 30 * 16
          ≡ t.pamt_1g_base + c / 256 * 16 =
        omega arith in
      let aligned : ((t.pamt_4k_base + c * 16384) % 4096 == 0) ≡ true =
        ground (arith, l.aligned_4k) in
      let first : (t.pamt_4k_base + c * 16384 - t.pamt_4k_base) / 16 ≡ c * 1024 = omega arith in
      let larges : (t.pamt_4k_base + c * 16384 + 1024 * 16 - t.pamt_4k_base) / (512 * 16)
            - (t.pamt_4k_base + c * 16384 - t.pamt_4k_base) / (512 * 16)
          ≡ 2 =
        omega arith in
      let huges : (t.pamt_4k_base + c * 16384 + 1024 * 16 - t.pamt_4k_base) / (262144 * 16)
            - (t.pamt_4k_base + c * 16384 - t.pamt_4k_base) / (262144 * 16)
          ≡ suc c / 256 - c / 256 =
        omega arith in
      rw
        (
          block_4k,
          block_2m,
          block_1g,
          aligned,
          first,
          larges,
          huges,
          page_types-types_of t.rsvd_areas (c * 1024) 1024 l.areas,
        )
        refl

  -- Between the first and the last call RDX is what the last one returned.
  abbrev pub call_done : InitResult
  call_done = record {
    code = plain tdx_success;
    rdx = t.base + suc c * 0x400000 - (t.base + suc c * 0x400000) % 2 ^ 30;
    region = at_chunk t (suc c);
  }

  pub call_succeeds : Init.init_region (at_chunk t c) m ≡ ok call_done (with_huge t c m)
  unfolding Init.init_region Init.init_locked Init.release_region acquire_mutex_lock
      release_mutex_lock
  call_succeeds =
      let fits : t.base + t.size ≤ 2 ^ 52 = l.fits in
      let open_end : leb (add64 t.base t.size) (t.base + c * 0x400000) ≡ false =
        ground (arith, l.whole) in
      let next : add64 (t.base + c * 0x400000) (1024 * 4096) ≡ t.base + suc c * 0x400000 =
        ground (arith, l.whole) in
      rw (open_end, pamt_init-ok, next) refl
