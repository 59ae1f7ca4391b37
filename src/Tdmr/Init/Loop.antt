-- ===== src/Tdmr/Init/Loop.antt =====
-- The host's loop of calls on a region.
use tdx_module.Base.{
  ℕ, zero, suc, ◌+◌, ◌*◌, ◌^◌, ◌≤◌, ◌<◌, ◌≡◌, ◌≢◌, refl, arith, true, false, List, [], ◌∷◌, ◌++◌,
  leb, ◌==◌,
}
use tdx_module.ErrorCodes.{tdx_success, tdx_tdmr_already_initialized, plain}
use tdx_module.Locks.Mutex.{acquire_mutex_lock, release_mutex_lock}
use tdx_module.Hpa.{Global, is_addr_aligned_pwr_of_2, get_hkid_from_pa, is_pa_smaller_than_max_pa}
use tdx_module.Pamt.State.{TdmrEntry, Mem, ok}
use tdx_module.Tdmr.{add64}
use tdx_module.Tdmr.Init
use tdx_module.Tdmr.Init.{InitResult, TableResult}
use tdx_module.Tdmr.Init.Progress.{Laid, Progress, with_huge, chunk-Progress}
use tdx_module.Tdmr.Init.Complete.{at_chunk, call_done, call_succeeds}

-- The address is one that the host may name.
pub record IsRegionAddress (g : Global) (pa : ℕ) : Type 0 where
  pub aligned : is_addr_aligned_pwr_of_2 pa (2 ^ 30) ≡ true
  pub below : is_pa_smaller_than_max_pa pa ≡ true
  pub keyless : get_hkid_from_pa g pa ≡ 0

-- None of the regions starts at the address.
abbrev pub NoneAt : ℕ → List TdmrEntry → Type 0
NoneAt pa [] = Unit {0}
NoneAt pa (t ∷ ts) = (t.base ≢ pa) × NoneAt pa ts

-- `n` calls, one after the other, each of which returned success.
pub data Calls (g : Global) (pa : ℕ) (ts : List TdmrEntry) (m : Mem)
    : ℕ → List TdmrEntry → Mem → Type 0 where
  no_calls : Calls g pa ts m 0 ts m
  call :
      {n : ℕ} {ts' : List TdmrEntry} {m' m'' : Mem} {r : TableResult}
      → Calls g pa ts m n ts' m'
      → Init.tdh_sys_tdmr_init g ts' pa m' ≡ ok r m''
      → r.code ≡ plain tdx_success
      → Calls g pa ts m (suc n) r.table m''

init_first-here :
    (before after : List TdmrEntry) (t : TdmrEntry) (pa : ℕ) (r : InitResult) (m m' : Mem)
    → NoneAt pa before
    → t.base ≡ pa
    → Init.init_region t m ≡ ok r m'
    → Init.init_first (before ++ t ∷ after) pa m
      ≡ ok (record { code = r.code; rdx = r.rdx; table = before ++ r.region ∷ after }) m'
unfolding Init.init_first
init_first-here [] after t pa r m m' none_at at h =
    let test : (pa == t.base) ≡ true = ground (arith, at) in rw (test, h) refl
init_first-here (u ∷ before) after t pa r m m' none_at at h =
    let test : (pa == u.base) ≡ false = ground (arith, none_at.0) in
    rw (test, init_first-here before after t pa r m m' none_at.1 at h) refl

handler-here :
    (g : Global) (table : List TdmrEntry) (pa : ℕ)
    → IsRegionAddress g pa
    → Init.tdh_sys_tdmr_init g table pa ≡ Init.init_first table pa
unfolding Init.tdh_sys_tdmr_init
handler-here g table pa a = rw (a.aligned, a.below, a.keyless) refl

module _ (g : Global) (before after : List TdmrEntry) (t : TdmrEntry) (chunks : ℕ)
    (l : Laid t chunks) (a : IsRegionAddress g t.base) (others : NoneAt t.base before) where
  abbrev table_at : ℕ → List TdmrEntry
  table_at c = before ++ at_chunk t c ∷ after

  some-Calls :
      (c : ℕ) (m : Mem)
      → c ≤ chunks
      → (m' : Mem) × Calls g t.base (table_at 0) m c (table_at c) m' × Progress t c m'
  some-Calls zero m le = (
    m,
    no_calls,
    record {
      pages = λ k h. absurd (omega arith);
      large = λ k h. absurd (omega arith);
      huge = λ k h. absurd (omega arith);
    },
  )
  some-Calls (suc c) m le =
      let lt : c < chunks = omega arith in
      let (m', calls, p) = some-Calls c m (omega arith) in
      let done : InitResult = call_done t chunks c l lt m' in
      let returned : Init.tdh_sys_tdmr_init g (table_at c) t.base m'
          ≡ ok (record { code = plain tdx_success; rdx = done.rdx; table = table_at (suc c) })
              (with_huge t c m') =
        rw (handler-here g (table_at c) t.base a) (
          init_first-here before after (at_chunk t c) t.base done m' (with_huge t c m') others refl
            (call_succeeds t chunks c l lt m')) in
      (with_huge t c m', call calls returned refl, chunk-Progress t chunks c l lt m' p)

  finished_region :
      (m : Mem)
      → Init.init_region (at_chunk t chunks) m
        ≡ ok
            (record {
              code = plain tdx_tdmr_already_initialized;
              rdx = 0;
              region = at_chunk t chunks;
            })
            m
  unfolding Init.init_region Init.init_locked Init.release_region acquire_mutex_lock
      release_mutex_lock
  finished_region m =
      let fits : t.base + t.size ≤ 2 ^ 52 = l.fits in
      let closed : leb (add64 t.base t.size) (t.base + chunks * 0x400000) ≡ true =
        ground (arith, l.whole) in
      rw closed refl

  finished_call :
      (m : Mem)
      → Init.tdh_sys_tdmr_init g (table_at chunks) t.base m
        ≡ ok
            (record { code = plain tdx_tdmr_already_initialized; rdx = 0; table = table_at chunks })
            m
  finished_call m = rw (handler-here g (table_at chunks) t.base a) (
      init_first-here before after (at_chunk t chunks) t.base _ m m others refl (finished_region m))

  -- Calling on an untouched region at the address that it starts at, of which no earlier entry of the
  -- table starts there, whose size is `chunks` times 4MB and whose three tables are aligned and apart:
  -- the next `chunks` calls all succeed, whatever the memory held. Every 4KB entry of the region is then
  -- unlocked, without an owner, and reserved just where its page is in a reserved area; every 2MB and
  -- 1GB entry of it is zeroed; the region is initialized to its end with its mutex free, and the other
  -- regions are as they were. A further call says so and changes nothing.
  pub region_initialized :
      (m : Mem)
      → (m' : Mem) × Calls g t.base
          (before ++ at_chunk t 0 ∷ after)
          m
          chunks
          (before ++ at_chunk t chunks ∷ after)
          m'
        × Progress t chunks m'
        × (Init.tdh_sys_tdmr_init g (before ++ at_chunk t chunks ∷ after) t.base m'
            ≡ ok
                (record {
                  code = plain tdx_tdmr_already_initialized;
                  rdx = 0;
                  table = before ++ at_chunk t chunks ∷ after;
                })
                m')
  region_initialized m =
      let (m', calls, p) = some-Calls chunks m (omega arith) in (m', calls, p, finished_call m')
