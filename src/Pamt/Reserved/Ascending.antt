-- ===== src/Pamt/Reserved/Ascending.antt =====
-- In a region whose reserved areas are sorted and apart, starting the search late misses nothing.
use tdx_module.Base.{
  ℕ, zero, suc, ◌+◌, ◌*◌, ◌^◌, ◌≤◌, ◌<◌, ◌≡◌, ap, subst, refl, ◌∙◌, arith, Bool, true, false, ◌||◌,
  List, [], ◌∷◌, inl, inr, Bool-cases, if◌then◌else◌,
}
use tdx_module.Pamt.State.{PageType, pt_rsvd, pt_nda, RsvdArea}
use tdx_module.Pamt.Reserved
use tdx_module.Pamt.Reserved.{in_area, drop}

abbrev pub Apart : ℕ → List RsvdArea → Type 0
Apart lo [] = Unit {0}
Apart lo (a ∷ areas) =
    (lo ≤ a.offset) × (a.offset + a.size < 2 ^ 64) × Apart (a.offset + a.size) areas

abbrev pub in_any : List RsvdArea → ℕ → Bool
in_any [] page_offset = false
in_any (a ∷ areas) page_offset = in_area a page_offset || in_any areas page_offset

-- The first `n` areas end at or before the offset.
abbrev Passed : ℕ → List RsvdArea → ℕ → Type 0
Passed zero areas page_offset = Unit {0}
Passed (suc n) [] page_offset = Unit {0}
Passed (suc n) (a ∷ areas) page_offset =
    (a.offset + a.size ≤ page_offset) × Passed n areas page_offset

find_area-in_any :
    (areas : List RsvdArea) (i page_offset : ℕ)
    → (Reserved.find_area areas i page_offset).0 ≡ in_any areas page_offset
unfolding Reserved.find_area
find_area-in_any [] i page_offset = refl
find_area-in_any (a ∷ areas) i page_offset = elim (Bool-cases (in_area a page_offset)) [
  | inl h ↦ rw h refl
  | inr h ↦ rw h (find_area-in_any areas (suc i) page_offset)
]

-- Areas that end before the offset do not hold it.
in_any-drop :
    (n : ℕ) (areas : List RsvdArea) (lo page_offset : ℕ)
    → Apart lo areas
    → Passed n areas page_offset
    → in_any (drop n areas) page_offset ≡ in_any areas page_offset
in_any-drop zero areas lo page_offset apart passed = refl
in_any-drop (suc n) [] lo page_offset apart passed = refl
in_any-drop (suc n) (a ∷ areas) lo page_offset (above, fits, apart) (done, passed) =
    let gone : in_area a page_offset ≡ false = ground arith in
    rw gone (in_any-drop n areas (a.offset + a.size) page_offset apart passed)

later_above :
    (areas : List RsvdArea) (lo page_offset : ℕ)
    → Apart lo areas
    → in_any areas page_offset ≡ true
    → lo ≤ page_offset
later_above [] lo page_offset apart h = absurd (cc)
later_above (a ∷ areas) lo page_offset (above, fits, apart) h =
    elim (Bool-cases (in_area a page_offset)) [
      | inl here ↦ ground arith
      | inr later ↦
          let after =
            later_above areas (a.offset + a.size) page_offset apart (ground (arith, later)) in
          omega arith
    ]

-- The index that is stored when an area is found passes over areas that end before the page.
found-Passed :
    (areas : List RsvdArea) (i lo page_offset : ℕ)
    → Apart lo areas
    → in_any areas page_offset ≡ true
    → (k : ℕ) × ((Reserved.find_area areas i page_offset).1 ≡ i + k) × Passed k areas page_offset
unfolding Reserved.find_area
found-Passed [] i lo page_offset apart h = absurd (cc)
found-Passed (a ∷ areas) i lo page_offset (above, fits, apart) h =
    elim (Bool-cases (in_area a page_offset)) [
      | inl here ↦ (0, rw here (omega arith), tt)
      | inr later ↦
          let rest_in : in_any areas page_offset ≡ true = ground (arith, later) in
          let (k, index, passed) =
            found-Passed areas (suc i) (a.offset + a.size) page_offset apart rest_in in
          (
            suc k,
            rw later (index ∙ omega arith),
            (later_above areas (a.offset + a.size) page_offset apart rest_in, passed),
          )
    ]

drop-Passed :
    (n k m : ℕ) (areas : List RsvdArea) (page_offset : ℕ)
    → Passed n areas page_offset
    → Passed k (drop n areas) page_offset
    → m ≡ n + k
    → Passed m areas page_offset
drop-Passed zero k m areas page_offset p q e =
    subst (λ j. Passed j areas page_offset) (omega arith) q
drop-Passed (suc n) k zero areas page_offset p q e = tt
drop-Passed (suc n) k (suc m) [] page_offset p q e = tt
drop-Passed (suc n) k (suc m) (a ∷ areas) page_offset (done, p) q e =
    (done, drop-Passed n k m areas page_offset p q (omega arith))

Passed-later :
    (n : ℕ) (areas : List RsvdArea) (page_offset next : ℕ)
    → page_offset ≤ next
    → Passed n areas page_offset
    → Passed n areas next
Passed-later zero areas page_offset next le p = tt
Passed-later (suc n) [] page_offset next le p = tt
Passed-later (suc n) (a ∷ areas) page_offset next le (done, p) =
    (omega arith, Passed-later n areas page_offset next le p)

drop-Apart :
    (n : ℕ) (areas : List RsvdArea) (lo : ℕ) → Apart lo areas → (lo' : ℕ) × Apart lo' (drop n areas)
drop-Apart zero areas lo apart = (lo, apart)
drop-Apart (suc n) [] lo apart = (lo, tt)
drop-Apart (suc n) (a ∷ areas) lo (above, fits, apart) =
    drop-Apart n areas (a.offset + a.size) apart

-- What a page is by itself.
abbrev pub types_of : List RsvdArea → ℕ → ℕ → List PageType
types_of areas idx zero = []
types_of areas idx (suc n) =
    (if in_any areas (idx * 4096) then pt_rsvd else pt_nda) ∷ types_of areas (suc idx) n

-- After an answer of yes the search may start at the area that was found.
next-Passed :
    (areas : List RsvdArea) (last page_offset next : ℕ)
    → Apart 0 areas
    → Passed last areas page_offset
    → in_any areas page_offset ≡ true
    → page_offset ≤ next
    → Passed (Reserved.find_area (drop last areas) last page_offset).1 areas next
next-Passed areas last page_offset next apart passed h le =
    let (lo, apart') = drop-Apart last areas 0 apart in
    let (k, index, p) =
      found-Passed (drop last areas) last lo page_offset apart'
        (in_any-drop last areas 0 page_offset apart passed ∙ h) in
    Passed-later _ areas page_offset next le (drop-Passed last k _ areas page_offset passed p index)

from_index :
    (areas : List RsvdArea) (idx n last : ℕ)
    → Apart 0 areas
    → Passed last areas (idx * 4096)
    → Reserved.page_types areas idx n last ≡ types_of areas idx n
unfolding Reserved.page_types Reserved.is_page_reserved
from_index areas idx zero last apart passed = refl
from_index areas idx (suc n) last apart passed =
    let same : (Reserved.find_area (drop last areas) last (idx * 4096)).0
        ≡ in_any areas (idx * 4096) =
      find_area-in_any (drop last areas) last (idx * 4096)
      ∙ in_any-drop last areas 0 (idx * 4096) apart passed in
    elim (Bool-cases (in_any areas (idx * 4096))) [
      | inl h ↦
          rw (same ∙ h, h)
            (ap (λ rest. pt_rsvd ∷ rest)
              (from_index areas (suc idx) n _ apart (
                next-Passed areas last (idx * 4096) (suc idx * 4096) apart passed h (omega arith))))
      | inr h ↦
          rw (same ∙ h, h) (ap (λ rest. pt_nda ∷ rest) (from_index areas (suc idx) n 0 apart tt))
    ]

-- Where the reserved areas are sorted, apart and end below 2 ^ 64, the search that starts at the area
-- of the page before gives every page the type that a search of all areas gives it.
pub page_types-types_of :
    (areas : List RsvdArea) (idx n : ℕ)
    → Apart 0 areas
    → Reserved.page_types areas idx n 0 ≡ types_of areas idx n
page_types-types_of areas idx n apart = from_index areas idx n 0 apart tt
