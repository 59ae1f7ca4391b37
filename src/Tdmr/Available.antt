-- ===== src/Tdmr/Available.antt =====
-- Which addresses the loop over the available areas of a region visits.
use tdx_module.Base.{
  ℕ, ◌+◌, ◌^◌, ◌≤◌, ◌<◌, ◌≡◌, ◌⊎◌, inl, inr, refl, arith, Bool, true, false, List, [], ◌∷◌,
  Bool-cases, ◌==◌,
}
use tdx_module.Pamt.State.{RsvdArea}
use tdx_module.Tdmr.{Check, passed, add64}
use tdx_module.Tdmr.Areas
use tdx_module.Tdmr.Passed.{parts}
use tdx_module.Tdmr.Placed.{Inside}

-- The address lies in none of the areas of the region at `base`.
abbrev pub Outside : ℕ → ℕ → List RsvdArea → Type 0
Outside base a [] = Unit {0}
Outside base a (x ∷ areas) =
    ((a < base + x.offset) ⊎ (base + x.offset + x.size ≤ a)) × Outside base a areas

-- There is an area; the array has 16.
abbrev pub HasAreas : List RsvdArea → Type 0
HasAreas [] = ⊥
HasAreas (a ∷ areas) = Unit {0}

module _ (visit last : ℕ → ℕ → Check) (base size : ℕ) (P : ℕ → Type 0) (a : ℕ)
    (visited : (s e : ℕ) → visit s e ≡ passed → s ≤ a → a < e → e ≤ base + size → P a)
    (last_visited : (s e : ℕ) → last s e ≡ passed → s ≤ a → a < e → e ≤ base + size → P a)
    (fits : base + size < 2 ^ 64) where
  reached_end : (start : ℕ) → a < base + size → start ≤ a → (start == add64 base size) ≡ false
  reached_end start inside after = ground (arith, fits)

  pub available-from :
      (start : ℕ) (valid : Bool) (areas : List RsvdArea) (lo : ℕ)
      → start ≡ base + lo
      → Inside size lo areas
      → (valid ≡ true) ⊎ HasAreas areas
      → Areas.available_from visit last base size start valid areas ≡ passed
      → start ≤ a
      → a < base + size
      → Outside base a areas
      → P a
  unfolding Areas.available_from Areas.after_areas
  available-from start valid [] lo at inside (inr none) e after below outside = absurd none
  available-from start valid [] lo at inside (inl set) e after below outside =
      last_visited start (add64 base size) (rw set at e) after (omega (arith, fits))
        (omega (arith, fits))
  available-from start valid (x ∷ areas) lo at (inl (null, nulls)) some_area e after below outside =
      let going = reached_end start below after in
      let (e1, e2) = parts _ _ (rw (going, null) at e) in
      visited start (add64 base size) e1 after (omega (arith, fits)) (omega (arith, fits))
  available-from start valid (x ∷ areas) lo at (inr (set, above, inside, rest)) some_area e after
        below (out, outside) =
      let going = reached_end start below after in
      let area_start : add64 base x.offset ≡ base + x.offset = omega (arith, fits) in
      let area_end : add64 (base + x.offset) x.size ≡ base + (x.offset + x.size) =
        omega (arith, fits) in
      elim (Bool-cases (start == base + x.offset)) [
        | inl adjacent ↦
            available-from (base + (x.offset + x.size)) true areas (x.offset + x.size) refl rest
              (inl refl) (rw (going, set, area_start, area_end, adjacent) at e)
              (beyond out (ground (arith, adjacent))) below outside
        | inr gap ↦
            let (e1, e2) = parts _ _ (rw (going, set, area_start, area_end, gap) at e) in
            elim out [
              | inl before ↦ visited start (base + x.offset) e1 after before (omega arith)
              | inr behind ↦
                  available-from (base + (x.offset + x.size)) true areas (x.offset + x.size) refl
                    rest (inl refl) e2 (omega arith) below outside
            ]
      ]
    where
      beyond :
          (a < base + x.offset) ⊎ (base + x.offset + x.size ≤ a)
          → base + x.offset ≤ a
          → base + (x.offset + x.size) ≤ a
      beyond (inl h) k = absurd (omega arith)
      beyond (inr h) k = omega arith
