-- ===== src/Tdmr/Sorted.antt =====
-- A configuration that passes: the table that it leaves, and the look-up in it.
use tdx_module.Base.{
  ℕ, suc, ◌+◌, ◌-◌, ◌/◌, ◌^◌, ◌≤◌, ◌<◌, ◌≡◌, inl, inr, refl, ap, ◌∙◌, arith, false, List, [], ◌∷◌,
  ◌++◌, map, Option, none, some,
}
use tdx_module.Hpa.{Global}
use tdx_module.Pamt.State.{TdmrEntry}
use tdx_module.Pamt.Block.{pamt_get_block, found, block_of, get_addr_from_pa}
use tdx_module.Pamt.Block.Finds.{Ascending, IsIn, pamt_get_block-found}
use tdx_module.Pamt.Reserved.Ascending.{Apart}
use tdx_module.Tdmr.{TdmrInfo, CmrInfo, Check, passed, failed, fatal, ◌>>◌}
use tdx_module.Tdmr.Areas.{check_tdmr_available_areas}
use tdx_module.Tdmr.Pamts.{check_tdmr_pamt_areas}
use tdx_module.Tdmr.Config
use tdx_module.Tdmr.Config.{set_tdmr_info_in_global_data, when_passed, Configured}
use tdx_module.Tdmr.Passed.{parts, not_refused}
use tdx_module.Tdmr.Placed.{
  Words, Placed, Inside, check_tdmr_area-Placed, check_reserved-Inside, set_areas-Apart,
}

abbrev pub end_of : Option TdmrInfo → ℕ
end_of none = 0
end_of (some prev) = prev.tdmr_base + prev.tdmr_size

-- What passing the checks of a region tells of it.
pub record Accepted (g : Global) (cmrs : List CmrInfo) (i : ℕ) (prev : Option TdmrInfo)
    (earlier : List TdmrInfo) (info : TdmrInfo) : Type 0 where
  pub after : end_of prev ≤ info.tdmr_base
  pub placed : Placed info
  pub inside : Inside info.tdmr_size 0 info.rsvd_areas
  pub pamts : check_tdmr_pamt_areas g cmrs info i earlier ≡ passed
  pub available : check_tdmr_available_areas cmrs info i ≡ passed

starts_after :
    (prev : Option TdmrInfo) (info : TdmrInfo)
    → end_of prev < 2 ^ 64
    → Config.region_starts_before_end prev info ≡ false
    → end_of prev ≤ info.tdmr_base
starts_after none info small e = omega arith
starts_after (some prev) info small e = ground arith

pub check_tdmr-Accepted :
    (g : Global) (cmrs : List CmrInfo) (i : ℕ) (prev : Option TdmrInfo) (earlier : List TdmrInfo)
    (info : TdmrInfo)
    → end_of prev < 2 ^ 64
    → Words info
    → Config.check_tdmr g cmrs i prev earlier info ≡ passed
    → Accepted g cmrs i prev earlier info
unfolding Config.check_tdmr
check_tdmr-Accepted g cmrs i prev earlier info small words e =
    let (e1_6, available) = parts _ _ e in
    let (e1_5, pamts) = parts _ _ e1_6 in
    let (e1_4, reserved) = parts _ _ e1_5 in
    let (e1_3, area) = parts _ _ e1_4 in
    let (e1_2, e3) = parts _ _ e1_3 in
    let (e1, e2) = parts _ _ e1_2 in
    let placed = check_tdmr_area-Placed g info i words (not_refused _ _ e1) area in
    record {
      after = starts_after prev info small (not_refused _ _ e3);
      placed = placed;
      inside = check_reserved-Inside info i placed.fits words.areas reserved;
      pamts = pamts;
      available = available;
    }

when_passed-parts :
    (c : Check) (entry : TdmrEntry) (r : Configured)
    → (when_passed c entry r).0 ≡ passed
    → (c ≡ passed) × (r.0 ≡ passed) × ((when_passed c entry r).1 ≡ entry ∷ r.1)
when_passed-parts passed entry r e = (refl, e, refl)
when_passed-parts (failed x) entry r e = absurd (cc)
when_passed-parts fatal entry r e = absurd (cc)

abbrev pub AllWords : List TdmrInfo → Type 0
AllWords [] = Unit {0}
AllWords (info ∷ infos) = Words info × AllWords infos

-- Every region has passed its checks, with those before it as they were then.
abbrev pub AllAccepted :
    Global → List CmrInfo → ℕ → Option TdmrInfo → List TdmrInfo → List TdmrInfo → Type 0
AllAccepted g cmrs i prev earlier [] = Unit {0}
AllAccepted g cmrs i prev earlier (info ∷ infos) =
    Accepted g cmrs i prev earlier info
    × AllAccepted g cmrs (suc i) (some info) (earlier ++ info ∷ []) infos

module _ (g : Global) (cmrs : List CmrInfo) where
  pub config-AllAccepted :
      (host : ℕ → TdmrInfo) (i : ℕ) (prev : Option TdmrInfo) (earlier : List TdmrInfo)
      (pas : List ℕ)
      → end_of prev < 2 ^ 64
      → AllWords (map host pas)
      → (Config.config_tdmrs g cmrs host i prev earlier pas).0 ≡ passed
      → AllAccepted g cmrs i prev earlier (map host pas)
        × ((Config.config_tdmrs g cmrs host i prev earlier pas).1
            ≡ map set_tdmr_info_in_global_data (map host pas))
  unfolding Config.config_tdmrs
  config-AllAccepted host i prev earlier [] small words e = (tt, refl)
  config-AllAccepted host i prev earlier (pa ∷ pas) small (word, words) e =
      let (now, later, table) =
        when_passed-parts
          (Config.check_entry_pa g pa >> Config.check_tdmr g cmrs i prev earlier (host pa)) _ _ e in
      let accepted =
        check_tdmr-Accepted g cmrs i prev earlier (host pa) small word (parts _ _ now).1 in
      let (rest, rest_table) =
        config-AllAccepted host (suc i) (some (host pa)) (earlier ++ host pa ∷ []) pas
          (omega (arith, accepted.placed.fits)) words later in
      ((accepted, rest), table ∙ ap (λ t. set_tdmr_info_in_global_data (host pa) ∷ t) rest_table)

  AllAccepted-Ascending :
      (i : ℕ) (prev : Option TdmrInfo) (earlier infos : List TdmrInfo)
      → AllAccepted g cmrs i prev earlier infos
      → Ascending (end_of prev) (map set_tdmr_info_in_global_data infos)
  unfolding set_tdmr_info_in_global_data
  AllAccepted-Ascending i prev earlier [] all = tt
  AllAccepted-Ascending i prev earlier (info ∷ infos) (accepted, all) =
      (accepted.after, AllAccepted-Ascending (suc i) (some info) (earlier ++ info ∷ []) infos all)

  AllAccepted-IsIn :
      (i : ℕ) (prev : Option TdmrInfo) (earlier infos : List TdmrInfo) (info : TdmrInfo)
      → AllAccepted g cmrs i prev earlier infos
      → IsIn info infos
      → Placed info × Inside info.tdmr_size 0 info.rsvd_areas
  AllAccepted-IsIn i prev earlier [] info all place = absurd place
  AllAccepted-IsIn i prev earlier (x ∷ infos) info (accepted, all) (inl e) =
      rw e (accepted.placed, accepted.inside)
  AllAccepted-IsIn i prev earlier (x ∷ infos) info (accepted, all) (inr place) =
      AllAccepted-IsIn (suc i) (some x) (earlier ++ x ∷ []) infos info all place

IsIn-map : {A B : Type 0} (f : A → B) (a : A) (l : List A) → IsIn a l → IsIn (f a) (map f l)
IsIn-map f a [] place = absurd place
IsIn-map f a (x ∷ l) (inl e) = inl (ap f e)
IsIn-map f a (x ∷ l) (inr place) = inr (IsIn-map f a l place)

-- A region of which the table has been initialized to the end.
abbrev pub initialized : TdmrEntry → TdmrEntry
initialized t = record t { last_initialized = t.base + t.size }

initialized-Ascending :
    (lo : ℕ) (table : List TdmrEntry) → Ascending lo table → Ascending lo (map initialized table)
initialized-Ascending lo [] h = tt
initialized-Ascending lo (t ∷ table) (after, h) =
    (after, initialized-Ascending (t.base + t.size) table h)

-- Where all regions that the host gives pass their checks, the table that is written lists them in
-- order, each region at or after the end of the one before, and the reserved areas that it keeps of each
-- region are sorted, apart and below 2 ^ 64.
pub config_tdmrs-sorted :
    (g : Global) (cmrs : List CmrInfo) (host : ℕ → TdmrInfo) (pas : List ℕ)
    → AllWords (map host pas)
    → (Config.config_tdmrs g cmrs host 0 none [] pas).0 ≡ passed
    → ((Config.config_tdmrs g cmrs host 0 none [] pas).1
        ≡ map set_tdmr_info_in_global_data (map host pas))
      × Ascending 0 (Config.config_tdmrs g cmrs host 0 none [] pas).1
      × ((info : TdmrInfo)
          → IsIn info (map host pas)
          → Apart 0 (set_tdmr_info_in_global_data info).rsvd_areas)
unfolding set_tdmr_info_in_global_data
config_tdmrs-sorted g cmrs host pas words e =
    let (all, table) = config-AllAccepted g cmrs host 0 none [] pas (omega arith) words e in
    (
      table,
      rw table (AllAccepted-Ascending g cmrs 0 none [] (map host pas) all),
      λ info place.
          let (placed, inside) = AllAccepted-IsIn g cmrs 0 none [] (map host pas) info all place in
          set_areas-Apart info.tdmr_size 0 info.rsvd_areas (omega (arith, placed.fits)) inside,
    )

-- Once the table of every region is initialized to the end, every address of a configured region
-- leads to the block of its gigabyte.
pub configured_page-found :
    (g : Global) (cmrs : List CmrInfo) (host : ℕ → TdmrInfo) (pas : List ℕ)
    → AllWords (map host pas)
    → (Config.config_tdmrs g cmrs host 0 none [] pas).0 ≡ passed
    → (info : TdmrInfo) → IsIn info (map host pas)
    → (pa : ℕ) → info.tdmr_base ≤ get_addr_from_pa g.hkid_mask pa
    → get_addr_from_pa g.hkid_mask pa < info.tdmr_base + info.tdmr_size
    → pamt_get_block
        (map initialized (Config.config_tdmrs g cmrs host 0 none [] pas).1)
        g.hkid_mask
        pa
      ≡ found (
          block_of
            (set_tdmr_info_in_global_data info)
            ((get_addr_from_pa g.hkid_mask pa - info.tdmr_base) / 2 ^ 30))
unfolding set_tdmr_info_in_global_data
configured_page-found g cmrs host pas words e info place pa above below =
    let (all, table) = config-AllAccepted g cmrs host 0 none [] pas (omega arith) words e in
    let (placed, inside) = AllAccepted-IsIn g cmrs 0 none [] (map host pas) info all place in
    rw table (
      pamt_get_block-found (map initialized (map set_tdmr_info_in_global_data (map host pas)))
        g.hkid_mask pa (initialized (set_tdmr_info_in_global_data info))
        (initialized-Ascending 0 _ (AllAccepted-Ascending g cmrs 0 none [] (map host pas) all))
        (IsIn-map initialized _ _ (IsIn-map set_tdmr_info_in_global_data info (map host pas) place))
        above below (omega (arith, placed.base_aligned, placed.size_aligned))
        (omega (arith, placed.base_aligned, placed.size_aligned, placed.fits))
        (omega (arith, placed.fits)))
