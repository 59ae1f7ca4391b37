-- ===== src/Tdmr/Disjoint.antt =====
-- The metadata tables of configured regions, one beside the other.
use tdx_module.Base.{
  ℕ, suc, ◌≡◌, ◌≢◌, ◌⊎◌, inl, inr, refl, sym, ap, ◌∙◌, arith, List, [], map, ◌∷◌, ◌++◌, Option,
  none, some,
}
use tdx_module.ErrorCodes.{ApiErrorType}
use tdx_module.Hpa.{Global}
use tdx_module.Pamt.State.{PageSize, pt_4kb, pt_2mb, pt_1gb}
use tdx_module.Pamt.Block.Finds.{IsIn}
use tdx_module.Tdmr.{TdmrInfo, CmrInfo, passed}
use tdx_module.Tdmr.Pamts
use tdx_module.Tdmr.Config
use tdx_module.Tdmr.Passed.{parts, Disjoint, refuse_overlap-Disjoint}
use tdx_module.Tdmr.Sorted.{AllWords, AllAccepted, config-AllAccepted}

abbrev pub table_base : TdmrInfo → PageSize → ℕ
table_base info pt_4kb = info.pamt_4k_base
table_base info pt_2mb = info.pamt_2m_base
table_base info pt_1gb = info.pamt_1g_base

abbrev pub table_size : TdmrInfo → PageSize → ℕ
table_size info pt_4kb = info.pamt_4k_size
table_size info pt_2mb = info.pamt_2m_size
table_size info pt_1gb = info.pamt_1g_size

abbrev pub TablesDisjoint : TdmrInfo → PageSize → TdmrInfo → PageSize → Type 0
TablesDisjoint x s y t =
    Disjoint (table_base x s) (table_size x s) (table_base y t) (table_size y t)

swap : (x y : TdmrInfo) (s t : PageSize) → TablesDisjoint x s y t → TablesDisjoint y t x s
swap x y s t (inl h) = inr h
swap x y s t (inr h) = inl h

overlap-TablesDisjoint :
    (base size : ℕ) (y : TdmrInfo) (t : PageSize) (e : ApiErrorType)
    → Pamts.check_pamt_overlap base size y e ≡ passed
    → Disjoint base size (table_base y t) (table_size y t)
unfolding Pamts.check_pamt_overlap
overlap-TablesDisjoint base size y pt_4kb e h =
    refuse_overlap-Disjoint _ _ _ _ e (parts _ _ (parts _ _ h).0).0
overlap-TablesDisjoint base size y pt_2mb e h =
    refuse_overlap-Disjoint _ _ _ _ e (parts _ _ (parts _ _ h).0).1
overlap-TablesDisjoint base size y pt_1gb e h = refuse_overlap-Disjoint _ _ _ _ e (parts _ _ h).1

earlier-TablesDisjoint :
    (x : TdmrInfo) (i j : ℕ) (earlier : List TdmrInfo) (y : TdmrInfo) (s t : PageSize)
    → Pamts.pamt_overlaps_from x i j earlier ≡ passed
    → IsIn y earlier
    → TablesDisjoint x s y t
unfolding Pamts.pamt_overlaps_from
earlier-TablesDisjoint x i j [] y s t h place = absurd place
earlier-TablesDisjoint x i j (z ∷ earlier) y s t h (inr place) =
    earlier-TablesDisjoint x i (suc j) earlier y s t (parts _ _ h).1 place
earlier-TablesDisjoint x i j (z ∷ earlier) y pt_4kb t h (inl e) =
    rw e (overlap-TablesDisjoint _ _ z t _ (parts _ _ (parts _ _ (parts _ _ h).0).0).0)
earlier-TablesDisjoint x i j (z ∷ earlier) y pt_2mb t h (inl e) =
    rw e (overlap-TablesDisjoint _ _ z t _ (parts _ _ (parts _ _ (parts _ _ h).0).0).1)
earlier-TablesDisjoint x i j (z ∷ earlier) y pt_1gb t h (inl e) =
    rw e (overlap-TablesDisjoint _ _ z t _ (parts _ _ (parts _ _ h).0).1)

all_overlap-parts :
    (x : TdmrInfo) (i : ℕ) (earlier : List TdmrInfo)
    → Pamts.check_all_pamt_overlap x i earlier ≡ passed
    → (Pamts.pamt_overlaps_from x i 0 earlier ≡ passed)
      × TablesDisjoint x pt_4kb x pt_2mb
      × TablesDisjoint x pt_4kb x pt_1gb
      × TablesDisjoint x pt_2mb x pt_1gb
unfolding Pamts.check_all_pamt_overlap
all_overlap-parts x i earlier h =
    let (h3, d3) = parts _ _ h in
    let (h2, d2) = parts _ _ h3 in
    let (h1, d1) = parts _ _ h2 in
    (
      h1,
      refuse_overlap-Disjoint _ _ _ _ _ d1,
      refuse_overlap-Disjoint _ _ _ _ _ d2,
      refuse_overlap-Disjoint _ _ _ _ _ d3,
    )

own-TablesDisjoint :
    (x : TdmrInfo) (s t : PageSize)
    → s ≢ t
    → TablesDisjoint x pt_4kb x pt_2mb
    → TablesDisjoint x pt_4kb x pt_1gb
    → TablesDisjoint x pt_2mb x pt_1gb
    → TablesDisjoint x s x t
own-TablesDisjoint x pt_4kb pt_4kb ne d e f = absurd (ne refl)
own-TablesDisjoint x pt_4kb pt_2mb ne d e f = d
own-TablesDisjoint x pt_4kb pt_1gb ne d e f = e
own-TablesDisjoint x pt_2mb pt_4kb ne d e f = swap x x pt_4kb pt_2mb d
own-TablesDisjoint x pt_2mb pt_2mb ne d e f = absurd (ne refl)
own-TablesDisjoint x pt_2mb pt_1gb ne d e f = f
own-TablesDisjoint x pt_1gb pt_4kb ne d e f = swap x x pt_4kb pt_1gb e
own-TablesDisjoint x pt_1gb pt_2mb ne d e f = swap x x pt_2mb pt_1gb f
own-TablesDisjoint x pt_1gb pt_1gb ne d e f = absurd (ne refl)

pub pamt_areas-parts :
    (g : Global) (cmrs : List CmrInfo) (x : TdmrInfo) (i : ℕ) (earlier : List TdmrInfo)
    → Pamts.check_tdmr_pamt_areas g cmrs x i earlier ≡ passed
    → (Pamts.check_all_pamt_overlap x i earlier ≡ passed)
      × (Pamts.check_pamt_overlaps_available_areas x i earlier ≡ passed)
unfolding Pamts.check_tdmr_pamt_areas
pamt_areas-parts g cmrs x i earlier h =
    let h12 = parts _ _ (parts _ _ h).0 in ((parts _ _ h12.0).1, h12.1)

pub IsIn-append_left : (y : TdmrInfo) (l r : List TdmrInfo) → IsIn y l → IsIn y (l ++ r)
IsIn-append_left y [] r place = absurd place
IsIn-append_left y (x ∷ l) r (inl e) = inl e
IsIn-append_left y (x ∷ l) r (inr place) = inr (IsIn-append_left y l r place)

pub IsIn-append_last : (y : TdmrInfo) (l : List TdmrInfo) → IsIn y (l ++ y ∷ [])
IsIn-append_last y [] = inl refl
IsIn-append_last y (x ∷ l) = inr (IsIn-append_last y l)

module _ (g : Global) (cmrs : List CmrInfo) (s t : PageSize) where
  -- A region that is still to come against one of those before.
  later-TablesDisjoint :
      (i : ℕ) (prev : Option TdmrInfo) (earlier infos : List TdmrInfo) (x y : TdmrInfo)
      → AllAccepted g cmrs i prev earlier infos
      → IsIn x infos
      → IsIn y earlier
      → TablesDisjoint x s y t
  later-TablesDisjoint i prev earlier [] x y all px py = absurd px
  later-TablesDisjoint i prev earlier (z ∷ infos) x y (acc, all) (inl e) py =
      let overlap = (pamt_areas-parts g cmrs z i earlier acc.pamts).0 in
      rw e (earlier-TablesDisjoint z i 0 earlier y s t (all_overlap-parts z i earlier overlap).0 py)
  later-TablesDisjoint i prev earlier (z ∷ infos) x y (acc, all) (inr px) py =
      later-TablesDisjoint (suc i) (some z) (earlier ++ z ∷ []) infos x y all px
        (IsIn-append_left y earlier (z ∷ []) py)

-- Two tables: of regions that start at different addresses, or of one region at different levels.
abbrev pub Different : TdmrInfo → PageSize → TdmrInfo → PageSize → Type 0
Different x s y t = (x.tdmr_base ≢ y.tdmr_base) ⊎ ((x ≡ y) × (s ≢ t))

pair-TablesDisjoint :
    (g : Global) (cmrs : List CmrInfo) (i : ℕ) (prev : Option TdmrInfo)
    (earlier infos : List TdmrInfo) (x y : TdmrInfo) (s t : PageSize)
    → AllAccepted g cmrs i prev earlier infos
    → IsIn x infos
    → IsIn y infos
    → Different x s y t
    → TablesDisjoint x s y t
pair-TablesDisjoint g cmrs i prev earlier [] x y s t all px py ne = absurd px
pair-TablesDisjoint g cmrs i prev earlier (z ∷ infos) x y s t (acc, all) (inr px) (inr py) ne =
    pair-TablesDisjoint g cmrs (suc i) (some z) (earlier ++ z ∷ []) infos x y s t all px py ne
pair-TablesDisjoint g cmrs i prev earlier (z ∷ infos) x y s t (acc, all) (inr px) (inl ey) ne =
    later-TablesDisjoint g cmrs s t (suc i) (some z) (earlier ++ z ∷ []) infos x y all px
      (rw ey (IsIn-append_last z earlier))
pair-TablesDisjoint g cmrs i prev earlier (z ∷ infos) x y s t (acc, all) (inl ex) (inr py) ne =
    swap y x t s (
      later-TablesDisjoint g cmrs t s (suc i) (some z) (earlier ++ z ∷ []) infos y x all py
        (rw ex (IsIn-append_last z earlier)))
pair-TablesDisjoint g cmrs i prev earlier (z ∷ infos) x y s t (acc, all) (inl ex) (inl ey)
      (inl ne) =
    absurd (ne (ap (λ r. r.tdmr_base) (ex ∙ sym ey)))
pair-TablesDisjoint g cmrs i prev earlier (z ∷ infos) x y s t (acc, all) (inl ex) (inl ey)
      (inr (same, ne)) =
    let overlap = (pamt_areas-parts g cmrs z i earlier acc.pamts).0 in
    let (before, d, e, f) = all_overlap-parts z i earlier overlap in
    rw (ex, ey) (own-TablesDisjoint z s t ne d e f)

-- Where all regions that the host gives pass their checks, no two of their metadata tables overlap,
-- whether of one region or of two.
pub configured-TablesDisjoint :
    (g : Global) (cmrs : List CmrInfo) (host : ℕ → TdmrInfo) (pas : List ℕ)
    → AllWords (map host pas)
    → (Config.config_tdmrs g cmrs host 0 none [] pas).0 ≡ passed
    → (x y : TdmrInfo) → IsIn x (map host pas)
    → IsIn y (map host pas)
    → (s t : PageSize) → Different x s y t
    → TablesDisjoint x s y t
configured-TablesDisjoint g cmrs host pas words e x y px py s t ne =
    let (all, table) = config-AllAccepted g cmrs host 0 none [] pas (omega arith) words e in
    pair-TablesDisjoint g cmrs 0 none [] (map host pas) x y s t all px py ne
