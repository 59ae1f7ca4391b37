-- ===== src/Pamt/Reserved.antt =====
-- src/common/memory_handlers/pamt_manager.c: which pages of a region are reserved. The search starts
-- at the area in which the last page was found.
pub mod Ascending
use tdx_module.Base.{
  ℕ, zero, suc, ◌+◌, ◌*◌, ◌%◌, ◌^◌, Bool, true, false, ◌&&◌, List, [], ◌∷◌, ltb, leb, if◌then◌else◌,
}
use tdx_module.Pamt.State.{PageType, pt_rsvd, pt_nda, RsvdArea}

abbrev pub in_area : RsvdArea → ℕ → Bool
in_area a page_offset = leb a.offset page_offset && ltb page_offset ((a.offset + a.size) % 2 ^ 64)

-- The loop from index `i`, where the areas from there on are given: the return value and the index
-- that is stored in `*last_rsdv_idx`.
unfoldable pub find_area : List RsvdArea → ℕ → ℕ → Bool × ℕ
find_area [] i page_offset = (false, i)
find_area (a ∷ areas) i page_offset =
    let rest = find_area areas (suc i) page_offset in
    if in_area a page_offset then (true, i) else rest

abbrev pub drop : ℕ → List RsvdArea → List RsvdArea
drop zero areas = areas
drop (suc n) [] = []
drop (suc n) (a ∷ areas) = drop n areas

unfoldable pub is_page_reserved : ℕ → List RsvdArea → ℕ → Bool × ℕ
unfolding find_area
is_page_reserved page_offset rsvd_areas last_rsdv_idx =
    find_area (drop last_rsdv_idx rsvd_areas) last_rsdv_idx page_offset

-- The types that the loops of `pamt_4kb_init` give to `n` pages from page `idx` on.
unfoldable pub page_types : List RsvdArea → ℕ → ℕ → ℕ → List PageType
page_types rsvd_areas idx zero last_rsdv_idx = []
page_types rsvd_areas idx (suc n) last_rsdv_idx =
    let (reserved, last) = is_page_reserved (idx * 4096) rsvd_areas last_rsdv_idx in
    (if reserved then pt_rsvd else pt_nda)
    ∷ page_types rsvd_areas (suc idx) n (if reserved then last else 0)
