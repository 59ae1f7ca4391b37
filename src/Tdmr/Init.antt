-- ===== src/Tdmr/Init.antt =====
-- src/vmm_dispatcher/api_calls/tdh_sys_tdmr_init.c: initializing the metadata of a region, 4MB at a call.
pub mod Progress
pub mod Complete
pub mod Loop
pub mod Examples
use tdx_module.Base.{
  ℕ, ◌+◌, ◌-◌, ◌*◌, ◌/◌, ◌%◌, ◌^◌, not, ◌||◌, List, [], ◌∷◌, leb, ◌==◌, ◌!=◌, if◌then◌else◌,
}
use tdx_module.ErrorCodes.{
  ApiErrorType, tdx_success, tdx_operand_busy, tdx_operand_invalid, tdx_tdmr_already_initialized,
  plain, api_error_with_operand_id,
}
use tdx_module.Locks.Types.{LockReturn, fail, success, fail_host_priority}
use tdx_module.Locks.Atomic as Atomic
use tdx_module.Locks.Mutex.{acquire_mutex_lock, release_mutex_lock}
use tdx_module.Hpa.{Global, is_addr_aligned_pwr_of_2, get_hkid_from_pa, is_pa_smaller_than_max_pa}
use tdx_module.Pamt.State.{TdmrEntry, PamtBlock, M, ◌>>=◌, ◌>>◌, pure, halted}
use tdx_module.Pamt.Init.{pamt_init}
use tdx_module.Tdmr.{add64}
use tdx_module.Tdmr.Config.{operand_id_rcx}

abbrev pub init_count : ℕ
init_count = 1024

-- The status, RDX, and the region's entry as it is left.
pub record InitResult : Type 0 where
  pub code : ApiErrorType
  pub rdx : ℕ
  pub region : TdmrEntry

abbrev pub next_block : TdmrEntry → PamtBlock
next_block t = record {
  pamt_1gb_p = t.pamt_1g_base + (t.last_initialized - t.base) / 2 ^ 30 * 16;
  pamt_2mb_p = t.pamt_2m_base + (t.last_initialized - t.base) / 2 ^ 21 * 16;
  pamt_4kb_p = t.pamt_4k_base + (t.last_initialized - t.base) / 2 ^ 12 * 16;
}

-- After the chunk is written. RDX is rounded down to a gigabyte.
abbrev pub chunk_done : TdmrEntry → InitResult
chunk_done t =
    let last_initialized = add64 t.last_initialized (init_count * 4096) in
    record {
      code = plain tdx_success;
      rdx = last_initialized - last_initialized % 2 ^ 30;
      region = record t { last_initialized = last_initialized };
    }

-- With the region's mutex held.
unfoldable pub init_locked : TdmrEntry → M InitResult
init_locked t =
    if leb (add64 t.base t.size) t.last_initialized
    then pure (record { code = plain tdx_tdmr_already_initialized; rdx = 0; region = t })
    else (do pamt_init (next_block t) init_count t; pure (chunk_done t))

abbrev pub released : InitResult → Atomic.Outcome (Unit {0}) × ℕ → M InitResult
released r (Atomic.done u, w) = pure (record r { region = record r.region { lock = w } })
released r (Atomic.halted id, w) = λ m. halted id

unfoldable pub release_region : InitResult → M InitResult
release_region r = released r (Atomic.run release_mutex_lock r.region.lock)

abbrev pub acquired : TdmrEntry → Atomic.Outcome LockReturn × ℕ → M InitResult
acquired t (Atomic.done success, w) = init_locked (record t { lock = w }) >>= release_region
acquired t (Atomic.done fail, w) = pure (record {
  code = api_error_with_operand_id tdx_operand_busy operand_id_rcx;
  rdx = 0;
  region = record t { lock = w };
})
acquired t (Atomic.done fail_host_priority, w) = pure (record {
  code = api_error_with_operand_id tdx_operand_busy operand_id_rcx;
  rdx = 0;
  region = record t { lock = w };
})
acquired t (Atomic.halted id, w) = λ m. halted id

unfoldable pub init_region : TdmrEntry → M InitResult
init_region t = acquired t (Atomic.run acquire_mutex_lock t.lock)

pub record TableResult : Type 0 where
  pub code : ApiErrorType
  pub rdx : ℕ
  pub table : List TdmrEntry

abbrev pub here : List TdmrEntry → InitResult → M TableResult
here ts r = pure (record { code = r.code; rdx = r.rdx; table = r.region ∷ ts })

abbrev pub behind : TdmrEntry → TableResult → M TableResult
behind t r = pure (record r { table = t ∷ r.table })

abbrev pub invalid_pa : List TdmrEntry → M TableResult
invalid_pa table = pure (record {
  code = api_error_with_operand_id tdx_operand_invalid operand_id_rcx;
  rdx = 0;
  table = table;
})

-- The first region that starts at the address.
unfoldable pub init_first : List TdmrEntry → ℕ → M TableResult
init_first [] tdmr_pa = invalid_pa []
init_first (t ∷ ts) tdmr_pa =
    let rest = init_first ts tdmr_pa >>= behind t in
    if tdmr_pa == t.base then init_region t >>= here ts else rest

unfoldable pub tdh_sys_tdmr_init : Global → List TdmrEntry → ℕ → M TableResult
tdh_sys_tdmr_init g table tdmr_pa =
    if not (is_addr_aligned_pwr_of_2 tdmr_pa (2 ^ 30))
      || not (is_pa_smaller_than_max_pa tdmr_pa)
      || get_hkid_from_pa g tdmr_pa != 0
    then invalid_pa table
    else init_first table tdmr_pa
