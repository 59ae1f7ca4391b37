-- ===== src/Tdmr/Clear.antt =====
-- Metadata tables and the memory that configured regions make available.
use tdx_module.Base.{
  ℕ, suc, ◌+◌, ◌^◌, ◌≤◌, ◌<◌, ◌≡◌, inl, inr, subst, arith, false, List, [], map, ◌∷◌, ◌++◌, Option,
  none, some, ◌==◌,
}
use tdx_module.ErrorCodes.{ApiErrorType}
use tdx_module.Hpa.{Global}
use tdx_module.Pamt.State.{PageSize, pt_4kb, pt_2mb, pt_1gb}
use tdx_module.Pamt.Block.Finds.{IsIn}
use tdx_module.Tdmr.{TdmrInfo, CmrInfo, passed, sub64}
use tdx_module.Tdmr.Areas
use tdx_module.Tdmr.Pamts
use tdx_module.Tdmr.Config
use tdx_module.Tdmr.Passed.{parts, refuse_overlap-Disjoint}
use tdx_module.Tdmr.Placed.{Placed, Inside}
use tdx_module.Tdmr.Sorted.{AllWords, Accepted, AllAccepted, config-AllAccepted}
use tdx_module.Tdmr.Available.{Outside, HasAreas, available-from}
use tdx_module.Tdmr.Disjoint.{
  table_base, table_size, pamt_areas-parts, IsIn-append_left, IsIn-append_last,
}

-- The address is available: it is in the region, and in none of its reserved areas.
pub record IsAvailable (info : TdmrInfo) (a : ℕ) : Type 0 where
  pub above : info.tdmr_base ≤ a
  pub below : a < info.tdmr_base + info.tdmr_size
  pub outside : Outside info.tdmr_base a info.rsvd_areas

-- The address is not in a table at the place.
abbrev Misses : ℕ → ℕ → ℕ → Type 0
Misses base size a = base ≤ a → a < base + size → ⊥

record Sound (info : TdmrInfo) : Type 0 where
  placed : Placed info
  inside : Inside info.tdmr_size 0 info.rsvd_areas
  areas : HasAreas info.rsvd_areas

visit-Misses :
    (base size : ℕ) (err : ApiErrorType) (s e top a : ℕ)
    → top < 2 ^ 64
    → Areas.visit_pamt base size err s e ≡ passed
    → s ≤ a
    → a < e
    → e ≤ top
    → Misses base size a
visit-Misses base size err s e top a fits h lo hi end l u =
    ground (arith, refuse_overlap-Disjoint base size s (sub64 e s) err h)

last-Misses :
    (base size : ℕ) (err : ApiErrorType) (s e top a : ℕ)
    → top < 2 ^ 64
    → Areas.last_pamt base size err s e ≡ passed
    → s ≤ a
    → a < e
    → e ≤ top
    → Misses base size a
last-Misses base size err s e top a fits h lo hi end =
    let some_left : (sub64 e s == 0) ≡ false = ground arith in
    visit-Misses base size err s e top a fits (rw some_left at h) lo hi end

table-Misses :
    (info : TdmrInfo) (base size : ℕ) (err : ApiErrorType) (a : ℕ)
    → Sound info
    → Areas.is_pamt_overlaps_available_area info base size err ≡ passed
    → IsAvailable info a
    → Misses base size a
unfolding Areas.is_pamt_overlaps_available_area
table-Misses info base size err a sound h av =
    let fits : info.tdmr_base + info.tdmr_size < 2 ^ 64 = omega (arith, sound.placed.fits) in
    available-from (Areas.visit_pamt base size err) (Areas.last_pamt base size err) info.tdmr_base
      info.tdmr_size (Misses base size) a
      (λ s e h' lo hi end. visit-Misses base size err s e _ a fits h' lo hi end)
      (λ s e h' lo hi end. last-Misses base size err s e _ a fits h' lo hi end) fits info.tdmr_base
      false info.rsvd_areas 0 (omega arith) sound.inside (inr sound.areas) h av.above av.below
      av.outside

abbrev pub Clear : PageSize → ℕ → TdmrInfo → TdmrInfo → Type 0
Clear s a x y = IsAvailable y a → Misses (table_base x s) (table_size x s) a

tables-Clear :
    (s : PageSize) (a : ℕ) (x : TdmrInfo) (i : ℕ) (y : TdmrInfo) (j : ℕ)
    → Sound y
    → Pamts.tables_in_available x i y j ≡ passed
    → Clear s a x y
unfolding Pamts.tables_in_available
tables-Clear pt_4kb a x i y j sound h = table-Misses y _ _ _ a sound (parts _ _ (parts _ _ h).0).0
tables-Clear pt_2mb a x i y j sound h = table-Misses y _ _ _ a sound (parts _ _ (parts _ _ h).0).1
tables-Clear pt_1gb a x i y j sound h = table-Misses y _ _ _ a sound (parts _ _ h).1

module _ (s : PageSize) (a : ℕ) (x : TdmrInfo) (i : ℕ) where
  own-Clear :
      (j : ℕ) (earlier : List TdmrInfo)
      → Sound x
      → Pamts.available_overlaps_from x i j earlier ≡ passed
      → Clear s a x x
  unfolding Pamts.available_overlaps_from
  own-Clear j [] sound h = tables-Clear s a x i x i sound h
  own-Clear j (z ∷ earlier) sound h = own-Clear (suc j) earlier sound (parts _ _ h).1

  earlier-Clear :
      (j : ℕ) (earlier : List TdmrInfo) (y : TdmrInfo)
      → Sound x
      → Sound y
      → Pamts.available_overlaps_from x i j earlier ≡ passed
      → IsIn y earlier
      → Clear s a x y × Clear s a y x
  unfolding Pamts.available_overlaps_from
  earlier-Clear j [] y sx sy h place = absurd place
  earlier-Clear j (z ∷ earlier) y sx sy h (inr place) =
      earlier-Clear (suc j) earlier y sx sy (parts _ _ h).1 place
  earlier-Clear j (z ∷ earlier) y sx sy h (inl e) =
      let both = parts _ _ (parts _ _ h).0 in
      (
        rw e (tables-Clear s a x i z j (subst Sound e sy) both.0),
        rw e (tables-Clear s a z j x i sx both.1),
      )

first-Clear :
    (s : PageSize) (a : ℕ) (x : TdmrInfo) (i : ℕ) (earlier : List TdmrInfo) (y : TdmrInfo)
    → Sound x
    → Sound y
    → Pamts.check_pamt_overlaps_available_areas x i earlier ≡ passed
    → IsIn y earlier
    → Clear s a x y × Clear s a y x
unfolding Pamts.check_pamt_overlaps_available_areas
first-Clear s a x i earlier y sx sy h place = earlier-Clear s a x i 0 earlier y sx sy h place

same-Clear :
    (s : PageSize) (a : ℕ) (x : TdmrInfo) (i : ℕ) (earlier : List TdmrInfo)
    → Sound x
    → Pamts.check_pamt_overlaps_available_areas x i earlier ≡ passed
    → Clear s a x x
unfolding Pamts.check_pamt_overlaps_available_areas
same-Clear s a x i earlier sound h = own-Clear s a x i 0 earlier sound h

abbrev pub AllHaveAreas : List TdmrInfo → Type 0
AllHaveAreas [] = Unit {0}
AllHaveAreas (info ∷ infos) = HasAreas info.rsvd_areas × AllHaveAreas infos

module _ (g : Global) (cmrs : List CmrInfo) (s : PageSize) (a : ℕ) where
  Accepted-Sound :
      (i : ℕ) (prev : Option TdmrInfo) (earlier : List TdmrInfo) (x : TdmrInfo)
      → Accepted g cmrs i prev earlier x
      → HasAreas x.rsvd_areas
      → Sound x
  Accepted-Sound i prev earlier x acc areas = record {
    placed = acc.placed;
    inside = acc.inside;
    areas = areas;
  }

  all-Sound :
      (i : ℕ) (prev : Option TdmrInfo) (earlier infos : List TdmrInfo) (x : TdmrInfo)
      → AllAccepted g cmrs i prev earlier infos
      → AllHaveAreas infos
      → IsIn x infos
      → Sound x
  all-Sound i prev earlier [] x all areas place = absurd place
  all-Sound i prev earlier (z ∷ infos) x (acc, all) (area, areas) (inl e) =
      rw e (Accepted-Sound i prev earlier z acc area)
  all-Sound i prev earlier (z ∷ infos) x (acc, all) (area, areas) (inr place) =
      all-Sound (suc i) (some z) (earlier ++ z ∷ []) infos x all areas place

  later-Clear :
      (i : ℕ) (prev : Option TdmrInfo) (earlier infos : List TdmrInfo) (x y : TdmrInfo)
      → AllAccepted g cmrs i prev earlier infos
      → AllHaveAreas infos
      → IsIn x infos
      → Sound y
      → IsIn y earlier
      → Clear s a x y × Clear s a y x
  later-Clear i prev earlier [] x y all areas px sy py = absurd px
  later-Clear i prev earlier (z ∷ infos) x y (acc, all) (area, areas) (inl e) sy py =
      let overlap = (pamt_areas-parts g cmrs z i earlier acc.pamts).1 in
      rw e (first-Clear s a z i earlier y (Accepted-Sound i prev earlier z acc area) sy overlap py)
  later-Clear i prev earlier (z ∷ infos) x y (acc, all) (area, areas) (inr px) sy py =
      later-Clear (suc i) (some z) (earlier ++ z ∷ []) infos x y all areas px sy
        (IsIn-append_left y earlier (z ∷ []) py)

  pair-Clear :
      (i : ℕ) (prev : Option TdmrInfo) (earlier infos : List TdmrInfo) (x y : TdmrInfo)
      → AllAccepted g cmrs i prev earlier infos
      → AllHaveAreas infos
      → IsIn x infos
      → IsIn y infos
      → Clear s a x y
  pair-Clear i prev earlier [] x y all areas px py = absurd px
  pair-Clear i prev earlier (z ∷ infos) x y (acc, all) (area, areas) (inr px) (inr py) =
      pair-Clear (suc i) (some z) (earlier ++ z ∷ []) infos x y all areas px py
  pair-Clear i prev earlier (z ∷ infos) x y (acc, all) (area, areas) (inr px) (inl ey) =
      (later-Clear (suc i) (some z) (earlier ++ z ∷ []) infos x y all areas px
        (rw ey (Accepted-Sound i prev earlier z acc area)) (rw ey (IsIn-append_last z earlier))).0
  pair-Clear i prev earlier (z ∷ infos) x y (acc, all) (area, areas) (inl ex) (inr py) =
      (later-Clear (suc i) (some z) (earlier ++ z ∷ []) infos y x all areas py
        (rw ex (Accepted-Sound i prev earlier z acc area)) (rw ex (IsIn-append_last z earlier))).1
  pair-Clear i prev earlier (z ∷ infos) x y (acc, all) (area, areas) (inl ex) (inl ey) =
      let overlap = (pamt_areas-parts g cmrs z i earlier acc.pamts).1 in
      rw (ex, ey) (same-Clear s a z i earlier (Accepted-Sound i prev earlier z acc area) overlap)

-- Where all regions that the host gives pass their checks, no address of a metadata table is an available
-- address of any of the regions.
pub configured-Clear :
    (g : Global) (cmrs : List CmrInfo) (host : ℕ → TdmrInfo) (pas : List ℕ)
    → AllWords (map host pas)
    → AllHaveAreas (map host pas)
    → (Config.config_tdmrs g cmrs host 0 none [] pas).0 ≡ passed
    → (x y : TdmrInfo) → IsIn x (map host pas)
    → IsIn y (map host pas)
    → (s : PageSize) (a : ℕ) → IsAvailable y a
    → ¬ ((table_base x s ≤ a) × (a < table_base x s + table_size x s))
configured-Clear g cmrs host pas words areas e x y px py s a available (above, below) =
    let (all, table) = config-AllAccepted g cmrs host 0 none [] pas (omega arith) words e in
    pair-Clear g cmrs s a 0 none [] (map host pas) x y all areas px py available above below
