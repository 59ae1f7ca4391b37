-- ===== src/Tdmr/Examples.antt =====
-- The theorems on the configured regions at two regions with their tables in reserved areas.
use tdx_module.Base.{
  ℕ, ◌+◌, ◌-◌, ◌*◌, ◌/◌, ◌^◌, ◌≡◌, ◌≤◌, ◌<◌, inl, inr, refl, arith, List, [], ◌∷◌, map, none, ◌==◌,
  if◌then◌else◌,
}
use tdx_module.Hpa.{
  Global, is_addr_aligned_pwr_of_2, get_hkid_from_pa, is_overlap, shared_hpa_check,
  shared_hpa_check_with_pwr_2_alignment,
}
use tdx_module.Pamt.State.{RsvdArea, pt_4kb, pt_2mb}
use tdx_module.Pamt.Block.{pamt_get_block, found, block_of, get_addr_from_pa}
use tdx_module.Pamt.Block.Finds.{Ascending, IsIn}
use tdx_module.Pamt.Reserved.Ascending.{Apart}
use tdx_module.Tdmr.{
  TdmrInfo, CmrInfo, passed, check_tdmr_area_addresses_and_size, check_reserved_area,
  check_areas_from, check_tdmr_reserved_areas,
}
use tdx_module.Tdmr.Areas.{
  area_in_cmrs, is_area_in_cmr, after_areas, available_from, check_tdmr_available_areas,
  is_pamt_overlaps_available_area,
}
use tdx_module.Tdmr.Pamts.{
  check_pamt_addresses_and_size, check_pamt_addresses, check_pamt_overlap, pamt_overlaps_from,
  check_all_pamt_overlap, tables_in_available, available_overlaps_from,
  check_pamt_overlaps_available_areas, check_pamt_in_cmr, check_tdmr_pamt_areas,
}
use tdx_module.Tdmr.Config.{
  set_areas, set_tdmr_info_in_global_data, check_tdmr, check_entry_pa, config_tdmrs,
}
use tdx_module.Tdmr.Placed.{Words}
use tdx_module.Tdmr.Sorted.{AllWords, initialized, config_tdmrs-sorted, configured_page-found}
use tdx_module.Tdmr.Convertible.{IsConvertible, configured-IsConvertible}
use tdx_module.Tdmr.Disjoint.{table_base, table_size, TablesDisjoint, configured-TablesDisjoint}
use tdx_module.Tdmr.Clear.{configured-Clear}

abbrev global : Global
global = record {
  hkid = 33;
  hkid_mask = 0xFC00000000000;
  hkid_start_bit = 46;
  private_hkid_min = 32;
  private_hkid_max = 63;
  seamrr_base = 0;
  seamrr_size = 0;
  tdmr_table = [];
}

-- 8MB at the start of the region are reserved, and 4MB behind its first 16MB.
abbrev areas : List RsvdArea
areas =
    record { offset = 0; size = 0x800000 }
    ∷ record { offset = 0x1000000; size = 0x400000 }
    ∷ record { offset = 0; size = 0 }
    ∷ record { offset = 0; size = 0 }
    ∷ []

abbrev region : ℕ → TdmrInfo
region base = record {
  tdmr_base = base;
  tdmr_size = 2 ^ 30;
  pamt_1g_base = base + 0x402000;
  pamt_1g_size = 0x1000;
  pamt_2m_base = base + 0x400000;
  pamt_2m_size = 0x2000;
  pamt_4k_base = base;
  pamt_4k_size = 0x400000;
  rsvd_areas = areas;
}

abbrev first : TdmrInfo
first = region (4 * 2 ^ 30)

abbrev second : TdmrInfo
second = region (5 * 2 ^ 30)

-- Where the host has put their descriptions.
abbrev host : ℕ → TdmrInfo
host pa = if pa == 0x1000 then first else second

abbrev pas : List ℕ
pas = 0x1000 ∷ 0x1200 ∷ []

abbrev infos : List TdmrInfo
infos = map host pas

-- Two ranges that are adjacent inside the second region.
abbrev cmrs : List CmrInfo
cmrs =
    record { cmr_base = 4 * 2 ^ 30; cmr_size = 2 ^ 30 + 0x10000000 }
    ∷ record { cmr_base = 5 * 2 ^ 30 + 0x10000000; cmr_size = 2 ^ 30 }
    ∷ []

config_passes : (config_tdmrs global cmrs host 0 none [] pas).0 ≡ passed
unfolding is_addr_aligned_pwr_of_2 get_hkid_from_pa is_overlap check_tdmr_area_addresses_and_size
    check_reserved_area check_areas_from check_tdmr_reserved_areas area_in_cmrs is_area_in_cmr
    after_areas available_from check_tdmr_available_areas is_pamt_overlaps_available_area
    check_pamt_addresses_and_size check_pamt_addresses check_pamt_overlap pamt_overlaps_from
    check_all_pamt_overlap tables_in_available available_overlaps_from
    check_pamt_overlaps_available_areas check_pamt_in_cmr check_tdmr_pamt_areas set_areas
    set_tdmr_info_in_global_data check_tdmr check_entry_pa config_tdmrs shared_hpa_check
    shared_hpa_check_with_pwr_2_alignment get_addr_from_pa
config_passes = refl

first-Words : Words first
first-Words = record {
  base = omega arith;
  size = omega arith;
  pamt_1g = (omega arith, omega arith);
  pamt_2m = (omega arith, omega arith);
  pamt_4k = (omega arith, omega arith);
  areas = omega arith;
}

second-Words : Words second
second-Words = record {
  base = omega arith;
  size = omega arith;
  pamt_1g = (omega arith, omega arith);
  pamt_2m = (omega arith, omega arith);
  pamt_4k = (omega arith, omega arith);
  areas = omega arith;
}

all_words : AllWords infos
all_words = (first-Words, (second-Words, tt))

config_tdmrs-sorted_example :
    ((config_tdmrs global cmrs host 0 none [] pas).1 ≡ map set_tdmr_info_in_global_data infos)
    × Ascending 0 (config_tdmrs global cmrs host 0 none [] pas).1
    × ((info : TdmrInfo) → IsIn info infos → Apart 0 (set_tdmr_info_in_global_data info).rsvd_areas)
config_tdmrs-sorted_example = config_tdmrs-sorted global cmrs host pas all_words config_passes

-- A page of the second region, under HKID 40.
abbrev page : ℕ
page = 40 * 2 ^ 46 + 5 * 2 ^ 30 + 0x20003000

page_addr : get_addr_from_pa 0xFC00000000000 page ≡ 5 * 2 ^ 30 + 0x20003000
unfolding get_addr_from_pa
page_addr = refl

configured_page-found_example :
    pamt_get_block
      (map initialized (config_tdmrs global cmrs host 0 none [] pas).1)
      0xFC00000000000
      page
    ≡ found (
        block_of
          (set_tdmr_info_in_global_data second)
          ((get_addr_from_pa 0xFC00000000000 page - 5 * 2 ^ 30) / 2 ^ 30))
configured_page-found_example =
    configured_page-found global cmrs host pas all_words config_passes second (inr (inl refl)) page
      (omega (arith, page_addr)) (omega (arith, page_addr))

configured-IsConvertible_example : IsConvertible cmrs (5 * 2 ^ 30 + 0x10000000)
configured-IsConvertible_example =
    configured-IsConvertible global cmrs host pas (omega arith, (omega arith, tt)) all_words
      config_passes second (inr (inl refl)) tt (5 * 2 ^ 30 + 0x10000000) (omega arith) (omega arith)
      (omega arith)

configured-TablesDisjoint_example : TablesDisjoint first pt_4kb second pt_2mb
configured-TablesDisjoint_example =
    configured-TablesDisjoint global cmrs host pas all_words config_passes first second (inl refl)
      (inr (inl refl)) pt_4kb pt_2mb (inl (omega arith))

configured-Clear_example : ¬ (
    (table_base second pt_4kb ≤ 4 * 2 ^ 30 + 0x800000)
    × (4 * 2 ^ 30 + 0x800000 < table_base second pt_4kb + table_size second pt_4kb))
configured-Clear_example =
    configured-Clear global cmrs host pas all_words (tt, (tt, tt)) config_passes second first
      (inr (inl refl)) (inl refl) pt_4kb (4 * 2 ^ 30 + 0x800000)
      (record { above = omega arith; below = omega arith; outside = omega arith })
