-- ===== src/Tdmr/Placed.antt =====
-- A region that passes the checks of its own fields: where it lies, and its reserved areas in it.
use tdx_module.Base.{
  ℕ, suc, ◌+◌, ◌%◌, ◌^◌, ◌≤◌, ◌<◌, ◌≡◌, ◌⊎◌, inl, inr, refl, arith, Bool, true, false, not, ◌||◌,
  List, [], ◌∷◌, Option, none, some, Bool-cases, ==→eq, if◌then◌else◌,
}
use tdx_module.Base.Aligned.{and_ones_zero}
use tdx_module.Hpa.{Global, is_addr_aligned_pwr_of_2, is_valid_integer_range}
use tdx_module.Pamt.State.{RsvdArea}
use tdx_module.Pamt.Reserved.Ascending.{Apart}
use tdx_module.Tdmr
use tdx_module.Tdmr.{TdmrInfo, Check, passed, ◌>>◌, refuse_if, add64, is_null}
use tdx_module.Tdmr.Config.{set_areas}
use tdx_module.Tdmr.Passed.{parts, not_refused}

abbrev pub Word : ℕ → Type 0
Word n = n < 2 ^ 64

abbrev pub AreaWords : List RsvdArea → Type 0
AreaWords [] = Unit {0}
AreaWords (a ∷ areas) = Word a.offset × Word a.size × AreaWords areas

-- The fields have 64 bits.
pub record Words (info : TdmrInfo) : Type 0 where
  pub base : Word info.tdmr_base
  pub size : Word info.tdmr_size
  pub pamt_1g : Word info.pamt_1g_base × Word info.pamt_1g_size
  pub pamt_2m : Word info.pamt_2m_base × Word info.pamt_2m_size
  pub pamt_4k : Word info.pamt_4k_base × Word info.pamt_4k_size
  pub areas : AreaWords info.rsvd_areas

-- A region of whole gigabytes below the largest physical address.
pub record Placed (info : TdmrInfo) : Type 0 where
  pub base_aligned : info.tdmr_base % 2 ^ 30 ≡ 0
  pub size_aligned : info.tdmr_size % 2 ^ 30 ≡ 0
  pub not_empty : 0 < info.tdmr_size
  pub fits : info.tdmr_base + info.tdmr_size ≤ 2 ^ 52

or_false : (a b : Bool) → (a || b) ≡ false → (a ≡ false) × (b ≡ false)
or_false true b e = absurd (cc)
or_false false b e = (refl, e)

not-false : (b : Bool) → not b ≡ false → b ≡ true
not-false true e = refl
not-false false e = absurd (cc)

aligned_1gb : (a : ℕ) → not (is_addr_aligned_pwr_of_2 a (2 ^ 30)) ≡ false → a % 2 ^ 30 ≡ 0
unfolding is_addr_aligned_pwr_of_2
aligned_1gb a e = let (q, eq) = and_ones_zero 30 a (==→eq _ _ (not-false _ e)) in omega (arith, eq)

pub check_tdmr_area-Placed :
    (g : Global) (info : TdmrInfo) (i : ℕ)
    → Words info
    → not (is_valid_integer_range info.tdmr_base info.tdmr_size) ≡ false
    → Tdmr.check_tdmr_area_addresses_and_size g info i ≡ passed
    → Placed info
unfolding Tdmr.check_tdmr_area_addresses_and_size
check_tdmr_area-Placed g info i words valid e = record {
  base_aligned = aligned_1gb _ (ground arith);
  size_aligned = aligned_1gb _ (ground arith);
  not_empty = ground arith;
  fits = ground (arith, words.size);
}

-- Reserved areas in ascending order, apart and inside a region of the size; behind the first null
-- one there are only null ones.
abbrev pub AllNull : List RsvdArea → Type 0
AllNull [] = Unit {0}
AllNull (a ∷ areas) = (is_null a ≡ true) × AllNull areas

abbrev pub Inside : ℕ → ℕ → List RsvdArea → Type 0
Inside size lo [] = Unit {0}
Inside size lo (a ∷ areas) =
    ((is_null a ≡ true) × AllNull areas)
    ⊎ ((is_null a ≡ false)
        × (lo ≤ a.offset)
        × (a.offset + a.size ≤ size)
        × Inside size (a.offset + a.size) areas)

abbrev pub end_of : Option RsvdArea → ℕ
end_of none = 0
end_of (some prev) = prev.offset + prev.size

area-Inside :
    (info : TdmrInfo) (i j : ℕ) (prev : Option RsvdArea) (a : RsvdArea)
    → info.tdmr_base + info.tdmr_size ≤ 2 ^ 52
    → end_of prev < 2 ^ 64
    → Word a.offset
    → Word a.size
    → Tdmr.check_reserved_area info i j prev a ≡ passed
    → (end_of prev ≤ a.offset) × (a.offset + a.size ≤ info.tdmr_size)
unfolding Tdmr.check_reserved_area
area-Inside info i j none a fits small word word' e = (omega arith, ground arith)
area-Inside info i j (some prev) a fits small word word' e = (ground arith, ground arith)

nulls_follow :
    (info : TdmrInfo) (i j : ℕ) (prev : Option RsvdArea) (areas : List RsvdArea)
    → Tdmr.next_is_set areas ≡ false
    → Tdmr.check_areas_from info i j prev areas ≡ passed
    → AllNull areas
unfolding Tdmr.check_areas_from
nulls_follow info i j prev [] h e = tt
nulls_follow info i j prev (a ∷ areas) h e =
    let (e1, e2) = parts (if is_null a then _ else _) _ e in
    (ground arith, nulls_follow info i (suc j) (some a) areas (ground arith) e2)

areas-Inside :
    (info : TdmrInfo) (i j : ℕ) (prev : Option RsvdArea) (areas : List RsvdArea)
    → info.tdmr_base + info.tdmr_size ≤ 2 ^ 52
    → end_of prev < 2 ^ 64
    → AreaWords areas
    → Tdmr.check_areas_from info i j prev areas ≡ passed
    → Inside info.tdmr_size (end_of prev) areas
unfolding Tdmr.check_areas_from
areas-Inside info i j prev [] fits small words e = tt
areas-Inside info i j prev (a ∷ areas) fits small (word, word', words) e =
    elim (Bool-cases (is_null a)) [
      | inl null ↦
          let (e1, e2) = parts _ _ (rw null at e) in
          inl (null, nulls_follow info i (suc j) (some a) areas (not_refused _ _ e1) e2)
      | inr set ↦
          let (e1, e2) = parts _ _ (rw set at e) in
          let (after, inside) = area-Inside info i j prev a fits small word word' e1 in
          inr (
            set,
            after,
            inside,
            areas-Inside info i (suc j) (some a) areas fits (omega arith) words e2,
          )
    ]

pub check_reserved-Inside :
    (info : TdmrInfo) (i : ℕ)
    → info.tdmr_base + info.tdmr_size ≤ 2 ^ 52
    → AreaWords info.rsvd_areas
    → Tdmr.check_tdmr_reserved_areas info i ≡ passed
    → Inside info.tdmr_size 0 info.rsvd_areas
unfolding Tdmr.check_tdmr_reserved_areas
check_reserved-Inside info i fits words e =
    areas-Inside info i 0 none info.rsvd_areas fits (omega arith) words e

-- The areas that are kept are sorted, apart, and end below 2 ^ 64.
pub set_areas-Apart :
    (size lo : ℕ) (areas : List RsvdArea)
    → size ≤ 2 ^ 52
    → Inside size lo areas
    → Apart lo (set_areas areas)
unfolding set_areas
set_areas-Apart size lo [] fits h = tt
set_areas-Apart size lo (a ∷ areas) fits (inl (null, rest)) = rw null tt
set_areas-Apart size lo (a ∷ areas) fits (inr (set, after, inside, rest)) =
    rw set (after, omega arith, set_areas-Apart size (a.offset + a.size) areas fits rest)
