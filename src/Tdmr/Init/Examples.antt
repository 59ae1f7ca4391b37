-- ===== src/Tdmr/Init/Examples.antt =====
-- The host's loop on a region of one gigabyte, the second of the table.
use tdx_module.Base.{ℕ, ◌+◌, ◌*◌, ◌^◌, ◌≡◌, inr, refl, arith, List, [], ◌∷◌}
use tdx_module.ErrorCodes.{tdx_tdmr_already_initialized, plain}
use tdx_module.Hpa.{Global, is_addr_aligned_pwr_of_2, get_hkid_from_pa}
use tdx_module.Pamt.State.{RsvdArea, TdmrEntry, Mem, ok, pt_rsvd}
use tdx_module.Pamt.Init.{fresh}
use tdx_module.Tdmr.Init.{tdh_sys_tdmr_init}
use tdx_module.Tdmr.Init.Progress.{Laid, Progress}
use tdx_module.Tdmr.Init.Complete.{at_chunk}
use tdx_module.Tdmr.Init.Loop.{IsRegionAddress, Calls, region_initialized}

abbrev global : Global
global = record {
  hkid = 33;
  hkid_mask = 0xFC00000000000;
  hkid_start_bit = 46;
  private_hkid_min = 32;
  private_hkid_max = 63;
  seamrr_base = 0;
  seamrr_size = 0;
  tdmr_table = [];
}

abbrev areas : List RsvdArea
areas = record { offset = 0; size = 0x800000 } ∷ record { offset = 0x1000000; size = 0x400000 } ∷ []

abbrev region : ℕ → TdmrEntry
region base = record {
  base = base;
  size = 2 ^ 30;
  last_initialized = base;
  lock = 0;
  pamt_1g_base = base + 0x402000;
  pamt_2m_base = base + 0x400000;
  pamt_4k_base = base;
  num_of_pamt_blocks = 1;
  rsvd_areas = areas;
}

abbrev first : TdmrEntry
first = region (4 * 2 ^ 30)

abbrev second : TdmrEntry
second = region (5 * 2 ^ 30)

abbrev memory : Mem
memory q = fresh pt_rsvd

second-Laid : Laid second 256
second-Laid = record {
  whole = refl;
  fits = omega arith;
  areas = omega arith;
  aligned_4k = refl;
  aligned_2m = refl;
  aligned_1g = refl;
  apart_4k_2m = inr (omega arith);
  apart_4k_1g = inr (omega arith);
  apart_2m_1g = inr (omega arith);
}

second_address : IsRegionAddress global (5 * 2 ^ 30)
unfolding is_addr_aligned_pwr_of_2 get_hkid_from_pa
second_address = record { aligned = refl; below = refl; keyless = refl }

region_initialized_example :
    (m' : Mem) × Calls global
      (5 * 2 ^ 30)
      (first ∷ at_chunk second 0 ∷ [])
      memory
      256
      (first ∷ at_chunk second 256 ∷ [])
      m'
    × Progress second 256 m'
    × (tdh_sys_tdmr_init global (first ∷ at_chunk second 256 ∷ []) (5 * 2 ^ 30) m'
        ≡ ok
            (record {
              code = plain tdx_tdmr_already_initialized;
              rdx = 0;
              table = first ∷ at_chunk second 256 ∷ [];
            })
            m')
region_initialized_example =
    region_initialized global (first ∷ []) [] second 256 second-Laid second_address
      ((λ e. omega (arith, e)), tt) memory
