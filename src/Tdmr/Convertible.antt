-- ===== src/Tdmr/Convertible.antt =====
-- Configured regions and the ranges of convertible memory.
use tdx_module.Base.{
  ℕ, suc, ◌+◌, ◌^◌, ◌≤◌, ◌<◌, ◌≡◌, ◌⊎◌, inl, inr, sym, subst, arith, true, false, ◌&&◌, List, [],
  map, ◌∷◌, ◌++◌, Option, none, some, Bool-cases, leb, ◌==◌, ◌!=◌, if◌then◌else◌,
}
use tdx_module.Hpa.{Global}
use tdx_module.Pamt.Block.Finds.{IsIn}
use tdx_module.Tdmr.{TdmrInfo, CmrInfo, passed, add64}
use tdx_module.Tdmr.Areas
use tdx_module.Tdmr.Config
use tdx_module.Tdmr.Sorted.{AllWords, Accepted, AllAccepted, config-AllAccepted}
use tdx_module.Tdmr.Available.{Outside, HasAreas, available-from}

-- The address lies in one of the ranges.
abbrev pub IsConvertible : List CmrInfo → ℕ → Type 0
IsConvertible [] a = ⊥
IsConvertible (c ∷ cmrs) a =
    ((c.cmr_base ≤ a) × (a < c.cmr_base + c.cmr_size)) ⊎ IsConvertible cmrs a

abbrev pub NoWrap : List CmrInfo → Type 0
NoWrap [] = Unit {0}
NoWrap (c ∷ cmrs) = (c.cmr_base + c.cmr_size < 2 ^ 64) × NoWrap cmrs

module _ (Q : ℕ → Type 0) (area_start area_end a : ℕ) (above : area_start ≤ a)
    (below : a < area_end) where
  area_in_cmrs-sound :
      (cmrs : List CmrInfo) (last_start last_end : ℕ)
      → NoWrap cmrs
      → ((x : ℕ) → last_start ≤ x → x < last_end → Q x)
      → ((x : ℕ) → IsConvertible cmrs x → Q x)
      → Areas.area_in_cmrs cmrs last_start last_end area_start area_end ≡ true
      → Q a
  unfolding Areas.area_in_cmrs
  area_in_cmrs-sound [] ls le wraps seen all e = absurd (cc)
  area_in_cmrs-sound (c ∷ cmrs) ls le (small, wraps) seen all e =
      let cmr_end : add64 c.cmr_base c.cmr_size ≡ c.cmr_base + c.cmr_size = omega (arith, small) in
      elim (Bool-cases (c.cmr_size != 0)) [
        | inr empty ↦
            area_in_cmrs-sound cmrs ls le wraps seen (λ x h. all x (inr h)) (rw empty at e)
        | inl real ↦
            let start : ℕ = if c.cmr_base == le then ls else c.cmr_base in
            let joined : (x : ℕ) → start ≤ x → x < c.cmr_base + c.cmr_size → Q x = λ x h k.
              elim (Bool-cases (leb c.cmr_base x)) [
                | inl high ↦ all x (inl (ground (arith, high), k))
                | inr low ↦ seen x (ground (arith, low, h)) (ground (arith, low, h))
              ] in
            elim (Bool-cases (leb start area_start && leb area_end (c.cmr_base + c.cmr_size))) [
              | inl here ↦ joined a (ground (arith, here)) (ground (arith, here))
              | inr further ↦
                  area_in_cmrs-sound cmrs start (c.cmr_base + c.cmr_size) wraps joined
                    (λ x h. all x (inr h)) (rw (real, cmr_end, further) at e)
            ]
      ]

pub is_area_in_cmr_sound :
    (cmrs : List CmrInfo) (area_start area_end a : ℕ)
    → NoWrap cmrs
    → Areas.is_area_in_cmr cmrs area_start area_end ≡ true
    → area_start ≤ a
    → a < area_end
    → IsConvertible cmrs a
unfolding Areas.is_area_in_cmr
is_area_in_cmr_sound cmrs area_start area_end a wraps e above below =
    area_in_cmrs-sound (IsConvertible cmrs) area_start area_end a above below cmrs 0 0 wraps
      (λ x h k. absurd (omega arith)) (λ x h. h) e

module _ (g : Global) (cmrs : List CmrInfo) (wraps : NoWrap cmrs) where
  available-IsConvertible :
      (i : ℕ) (prev : Option TdmrInfo) (earlier : List TdmrInfo) (info : TdmrInfo) (a : ℕ)
      → Accepted g cmrs i prev earlier info
      → HasAreas info.rsvd_areas
      → info.tdmr_base ≤ a
      → a < info.tdmr_base + info.tdmr_size
      → Outside info.tdmr_base a info.rsvd_areas
      → IsConvertible cmrs a
  unfolding Areas.check_tdmr_available_areas
  available-IsConvertible i prev earlier info a acc areas above below outside =
      available-from (Areas.visit_cmr cmrs (Areas.outside_cmrs i))
        (Areas.last_cmr cmrs (Areas.outside_cmrs i)) info.tdmr_base info.tdmr_size
        (IsConvertible cmrs) a
        (λ s e h lo hi top. is_area_in_cmr_sound cmrs s e a wraps (ground (arith, h)) lo hi)
        (λ s e h lo hi top. is_area_in_cmr_sound cmrs s e a wraps (ground (arith, h)) lo hi)
        (omega (arith, acc.placed.fits)) info.tdmr_base false info.rsvd_areas 0 (omega arith)
        acc.inside (inr areas) acc.available above below outside

  all-IsConvertible :
      (i : ℕ) (prev : Option TdmrInfo) (earlier infos : List TdmrInfo) (info : TdmrInfo) (a : ℕ)
      → AllAccepted g cmrs i prev earlier infos
      → IsIn info infos
      → HasAreas info.rsvd_areas
      → info.tdmr_base ≤ a
      → a < info.tdmr_base + info.tdmr_size
      → Outside info.tdmr_base a info.rsvd_areas
      → IsConvertible cmrs a
  all-IsConvertible i prev earlier [] info a all place areas above below outside = absurd place
  all-IsConvertible i prev earlier (x ∷ infos) info a (acc, all) (inl e) areas above below outside =
      available-IsConvertible i prev earlier info a
        (subst (Accepted g cmrs i prev earlier) (sym e) acc) areas above below outside
  all-IsConvertible i prev earlier (x ∷ infos) info a (acc, all) (inr place) areas above below
        outside =
      all-IsConvertible (suc i) (some x) (earlier ++ x ∷ []) infos info a all place areas above
        below outside

-- Where all regions that the host gives pass their checks and no convertible range wraps, every address
-- of a region that is in none of its reserved areas lies in a convertible range.
pub configured-IsConvertible :
    (g : Global) (cmrs : List CmrInfo) (host : ℕ → TdmrInfo) (pas : List ℕ)
    → NoWrap cmrs
    → AllWords (map host pas)
    → (Config.config_tdmrs g cmrs host 0 none [] pas).0 ≡ passed
    → (info : TdmrInfo) → IsIn info (map host pas)
    → HasAreas info.rsvd_areas
    → (a : ℕ) → info.tdmr_base ≤ a
    → a < info.tdmr_base + info.tdmr_size
    → Outside info.tdmr_base a info.rsvd_areas
    → IsConvertible cmrs a
configured-IsConvertible g cmrs host pas wraps words e info place areas a above below outside =
    let (all, table) = config-AllAccepted g cmrs host 0 none [] pas (omega arith) words e in
    all-IsConvertible g cmrs wraps 0 none [] (map host pas) info a all place areas above below
      outside
