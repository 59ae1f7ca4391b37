-- ===== src/Tdmr/Areas.antt =====
-- src/vmm_dispatcher/api_calls/tdh_sys_config.c: the parts of a region that are not reserved. The two
-- functions that go over them have the same loop, which is written once.
use tdx_module.Base.{
  ℕ, Bool, true, false, not, ◌&&◌, List, [], ◌∷◌, Option, none, some, ltb, leb, ◌==◌, ◌!=◌,
  if◌then◌else◌,
}
use tdx_module.ErrorCodes.{ApiErrorType, tdx_tdmr_outside_cmrs, api_error_with_multiple_info}
use tdx_module.Hpa.{is_overlap}
use tdx_module.Pamt.State.{RsvdArea}
use tdx_module.Tdmr.{
  TdmrInfo, CmrInfo, Check, passed, fatal, ◌>>◌, refuse_if, add64, sub64, is_null,
}

-- The loop of `is_area_in_cmr`, with the last range that it saw, adjacent ones joined.
unfoldable pub area_in_cmrs : List CmrInfo → ℕ → ℕ → ℕ → ℕ → Bool
area_in_cmrs [] last_start last_end area_start area_end = false
area_in_cmrs (c ∷ cmrs) last_start last_end area_start area_end =
    let cmr_end = add64 c.cmr_base c.cmr_size in
    let cmr_start = if c.cmr_base == last_end then last_start else c.cmr_base in
    let rest =
      area_in_cmrs cmrs (if c.cmr_size != 0 then cmr_start else last_start)
        (if c.cmr_size != 0 then cmr_end else last_end) area_start area_end in
    if c.cmr_size != 0 && leb cmr_start area_start && leb area_end cmr_end then true else rest

unfoldable pub is_area_in_cmr : List CmrInfo → ℕ → ℕ → Bool
unfolding area_in_cmrs
is_area_in_cmr cmrs area_start area_end = area_in_cmrs cmrs 0 0 area_start area_end

module _ (visit last : ℕ → ℕ → Check) (base size : ℕ) where
  -- After the loop: what is left behind the last area that is set.
  unfoldable pub after_areas : ℕ → Bool → Check
  after_areas available_start valid_rsvd_area =
      if valid_rsvd_area then last available_start (add64 base size) else passed

  -- The loop over the reserved areas, with the flag of the area before.
  unfoldable pub available_from : ℕ → Bool → List RsvdArea → Check
  unfolding after_areas
  available_from available_start valid_rsvd_area [] = after_areas available_start valid_rsvd_area
  available_from available_start valid_rsvd_area (a ∷ areas) =
      let reserved_start = add64 base a.offset in
      let rest = available_from (add64 reserved_start a.size) (not (is_null a)) areas in
      if available_start == add64 base size
      then after_areas available_start (not (is_null a))
      else (if not (is_null a) && available_start == reserved_start
          then rest
          else (if is_null a
              then visit available_start (add64 base size) >> after_areas available_start false
              else visit available_start reserved_start >> rest))

-- An available area inside the loop, and the one behind the last reserved area.
abbrev pub visit_cmr : List CmrInfo → ApiErrorType → ℕ → ℕ → Check
visit_cmr cmrs e available_start available_end =
    refuse_if (not (is_area_in_cmr cmrs available_start available_end)) e

abbrev pub last_cmr : List CmrInfo → ApiErrorType → ℕ → ℕ → Check
last_cmr cmrs e available_start available_end =
    refuse_if
      (ltb available_start available_end && not (is_area_in_cmr cmrs available_start available_end))
      e

abbrev pub outside_cmrs : ℕ → ApiErrorType
outside_cmrs i = api_error_with_multiple_info tdx_tdmr_outside_cmrs i 0 0 0

unfoldable pub check_tdmr_available_areas : List CmrInfo → TdmrInfo → ℕ → Check
unfolding available_from is_area_in_cmr
check_tdmr_available_areas cmrs info i =
    available_from (visit_cmr cmrs (outside_cmrs i)) (last_cmr cmrs (outside_cmrs i)) info.tdmr_base
      info.tdmr_size info.tdmr_base false info.rsvd_areas

abbrev pub refuse_overlap : Option Bool → ApiErrorType → Check
refuse_overlap none e = fatal
refuse_overlap (some overlaps) e = refuse_if overlaps e

abbrev pub visit_pamt : ℕ → ℕ → ApiErrorType → ℕ → ℕ → Check
visit_pamt pamt_base pamt_size e available_start available_end =
    refuse_overlap
      (is_overlap pamt_base pamt_size available_start (sub64 available_end available_start)) e

abbrev pub last_pamt : ℕ → ℕ → ApiErrorType → ℕ → ℕ → Check
last_pamt pamt_base pamt_size e available_start available_end =
    if sub64 available_end available_start == 0
    then passed
    else visit_pamt pamt_base pamt_size e available_start available_end

-- An overlap is refused with the caller's status.
unfoldable pub is_pamt_overlaps_available_area : TdmrInfo → ℕ → ℕ → ApiErrorType → Check
unfolding available_from is_overlap
is_pamt_overlaps_available_area info pamt_base pamt_size e =
    available_from (visit_pamt pamt_base pamt_size e) (last_pamt pamt_base pamt_size e)
      info.tdmr_base info.tdmr_size info.tdmr_base false info.rsvd_areas
