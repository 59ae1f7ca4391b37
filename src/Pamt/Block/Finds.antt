-- ===== src/Pamt/Block/Finds.antt =====
-- The block that a physical address leads to, in a table whose regions are sorted and apart.
use tdx_module.Base.{
  ℕ, ◌+◌, ◌-◌, ◌/◌, ◌%◌, ◌^◌, ◌≤◌, ◌<◌, ◌≡◌, ◌⊎◌, inl, inr, refl, arith, List, [], ◌∷◌, Option,
  some,
}
use tdx_module.Pamt.State.{TdmrEntry}
use tdx_module.Pamt.Block
use tdx_module.Pamt.Block.{found, block_of, get_addr_from_pa}

-- Each region starts at or after the end of the one before it.
abbrev pub Ascending : ℕ → List TdmrEntry → Type 0
Ascending lo [] = Unit {0}
Ascending lo (t ∷ ts) = (lo ≤ t.base) × Ascending (t.base + t.size) ts

abbrev pub IsIn : {A : Type 0} → A → List A → Type 0
IsIn t [] = ⊥
IsIn t (x ∷ xs) = (t ≡ x) ⊎ IsIn t xs

starts_later :
    (lo : ℕ) (t : TdmrEntry) (ts : List TdmrEntry) → Ascending lo ts → IsIn t ts → lo ≤ t.base
starts_later lo t [] sorted place = absurd place
starts_later lo t (x ∷ xs) sorted (inl e) = rw e sorted.0
starts_later lo t (x ∷ xs) sorted (inr place) =
    omega (arith, sorted.0, starts_later (x.base + x.size) t xs sorted.1 place)

-- The loop stops at the first region that starts above the address.
stays :
    (t : TdmrEntry) (ts : List TdmrEntry) (a lo : ℕ)
    → Ascending lo ts
    → a < lo
    → Block.covering_tdmr ts a (some t) ≡ some t
unfolding Block.covering_tdmr
stays t [] a lo sorted below = refl
stays t (x ∷ xs) a lo sorted below = ground (arith, sorted.0)

covers :
    (t : TdmrEntry) (ts : List TdmrEntry) (a lo : ℕ) (c : Option TdmrEntry)
    → Ascending lo ts
    → IsIn t ts
    → t.base ≤ a
    → a < t.base + t.size
    → Block.covering_tdmr ts a c ≡ some t
unfolding Block.covering_tdmr
covers t [] a lo c sorted place above below = absurd place
covers t (x ∷ xs) a lo c sorted (inl e) above below =
    ground (arith, stays x xs a (x.base + x.size) sorted.1)
covers t (x ∷ xs) a lo c sorted (inr place) above below = ground (
  arith,
  starts_later (x.base + x.size) t xs sorted.1 place,
  covers t xs a (x.base + x.size) (some x) sorted.1 place above below,
)

block_in-found :
    (t : TdmrEntry) (a : ℕ)
    → t.base ≤ a
    → a < t.base + t.size
    → a < t.last_initialized - t.last_initialized % 2 ^ 30
    → (a - t.base) / 2 ^ 30 < t.num_of_pamt_blocks
    → t.num_of_pamt_blocks ≤ 2 ^ 22
    → Block.block_in t a ≡ found (block_of t ((a - t.base) / 2 ^ 30))
unfolding Block.block_in
block_in-found t a above below ready inside few =
    let num : (a - t.base) / 2 ^ 30 % 2 ^ 22 ≡ (a - t.base) / 2 ^ 30 = omega arith in
    rw num (ground arith)

-- In a sorted table, an address inside a region, below the part of the region that is initialized
-- so far and inside the region's blocks, leads to the block of its gigabyte.
pub pamt_get_block-found :
    (tdmr_table : List TdmrEntry) (hkid_mask pa : ℕ) (t : TdmrEntry)
    → Ascending 0 tdmr_table
    → IsIn t tdmr_table
    → t.base ≤ get_addr_from_pa hkid_mask pa
    → get_addr_from_pa hkid_mask pa < t.base + t.size
    → get_addr_from_pa hkid_mask pa < t.last_initialized - t.last_initialized % 2 ^ 30
    → (get_addr_from_pa hkid_mask pa - t.base) / 2 ^ 30 < t.num_of_pamt_blocks
    → t.num_of_pamt_blocks ≤ 2 ^ 22
    → Block.pamt_get_block tdmr_table hkid_mask pa
      ≡ found (block_of t ((get_addr_from_pa hkid_mask pa - t.base) / 2 ^ 30))
unfolding Block.pamt_get_block
pamt_get_block-found tdmr_table hkid_mask pa t sorted place above below ready inside few =
    rw (covers t tdmr_table (get_addr_from_pa hkid_mask pa) 0 _ sorted place above below)
      (block_in-found t (get_addr_from_pa hkid_mask pa) above below ready inside few)
