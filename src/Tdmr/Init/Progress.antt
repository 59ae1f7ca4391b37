-- ===== src/Tdmr/Init/Progress.antt =====
-- The metadata of a region that the calls so far have written.
use tdx_module.Base.{
  ℕ, suc, ◌+◌, ◌-◌, ◌*◌, ◌/◌, ◌%◌, ◌^◌, ◌≤◌, ◌<◌, ◌≡◌, inl, inr, ap, ◌∙◌, arith, Bool-cases, ltb,
}
use tdx_module.Pamt.State.{TdmrEntry, Mem}
use tdx_module.Pamt.Reserved.Ascending.{Apart, types_of}
use tdx_module.Pamt.Init
use tdx_module.Pamt.Init.{fresh}
use tdx_module.Pamt.Init.Written.{
  Beside, type_at, types-Beside, types-at, up4, Zeroed, nodes-Zeroed, nodes-Beside,
}
use tdx_module.Tdmr.Passed.{Disjoint}

-- A region of `chunks` times 4MB, whose three tables are aligned and apart.
pub record Laid (t : TdmrEntry) (chunks : ℕ) : Type 0 where
  pub whole : t.size ≡ chunks * 0x400000
  pub fits : t.base + t.size ≤ 2 ^ 52
  pub areas : Apart 0 t.rsvd_areas
  pub aligned_4k : t.pamt_4k_base % 4096 ≡ 0
  pub aligned_2m : t.pamt_2m_base % 64 ≡ 0
  pub aligned_1g : t.pamt_1g_base % 64 ≡ 0
  pub apart_4k_2m : Disjoint t.pamt_4k_base (chunks * 16384) t.pamt_2m_base (up4 (chunks * 2) * 16)
  pub apart_4k_1g :
      Disjoint t.pamt_4k_base (chunks * 16384) t.pamt_1g_base (up4 (chunks / 256) * 16)
  pub apart_2m_1g :
      Disjoint t.pamt_2m_base (up4 (chunks * 2) * 16) t.pamt_1g_base (up4 (chunks / 256) * 16)

-- What the first `c` calls have written.
pub record Progress (t : TdmrEntry) (c : ℕ) (m : Mem) : Type 0 where
  pub pages : (k : ℕ) → k < c * 1024 → m (t.pamt_4k_base + k * 16) ≡ fresh (type_at t.rsvd_areas k)
  pub large : Zeroed t.pamt_2m_base (c * 2) m
  pub huge : Zeroed t.pamt_1g_base (c / 256) m

other_place :
    (b s b' s' size q : ℕ) → Disjoint b s b' s' → b ≤ q → q < b + s → size ≤ s' → Beside b' size q
other_place b s b' s' size q (inl h) lo hi le = inr (omega arith)
other_place b s b' s' size q (inr h) lo hi le = inl (omega arith)

swap : (b s b' s' : ℕ) → Disjoint b s b' s' → Disjoint b' s' b s
swap b s b' s' (inl h) = inr h
swap b s b' s' (inr h) = inl h

module _ (t : TdmrEntry) (c : ℕ) (m : Mem) where
  abbrev with_pages : Mem
  with_pages =
      Init.write_types (t.pamt_4k_base + c * 16384) (types_of t.rsvd_areas (c * 1024) 1024) m

  abbrev with_large : Mem
  with_large = Init.init_nodes (t.pamt_2m_base + c * 2 * 16) 2 with_pages

  abbrev pub with_huge : Mem
  with_huge = Init.init_nodes (t.pamt_1g_base + c / 256 * 16) (suc c / 256 - c / 256) with_large

module _ (t : TdmrEntry) (chunks c : ℕ) (l : Laid t chunks) (lt : c < chunks) (m : Mem)
    (p : Progress t c m) where
  -- Outside the table of the pages, outside the part that this call writes.
  page_range :
      (q : ℕ)
      → Beside t.pamt_4k_base (chunks * 16384) q
      → Beside (t.pamt_4k_base + c * 16384) (1024 * 16) q
  page_range q (inl b) = inl (omega arith)
  page_range q (inr b) = inr (omega (arith, lt))

  page_kept :
      (k : ℕ)
      → k < suc c * 1024
      → (with_huge t c m) (t.pamt_4k_base + k * 16) ≡ (with_pages t c m) (t.pamt_4k_base + k * 16)
  page_kept k h =
      let q = t.pamt_4k_base + k * 16 in
      nodes-Beside t.pamt_1g_base (c / 256) (suc c / 256 - c / 256) (with_large t c m) q
        l.aligned_1g
        (other_place _ _ _ _ _ q l.apart_4k_1g (omega arith) (omega (arith, lt))
          (omega (arith, lt)))
      ∙ nodes-Beside t.pamt_2m_base (c * 2) 2 (with_pages t c m) q l.aligned_2m (
          other_place _ _ _ _ _ q l.apart_4k_2m (omega arith) (omega (arith, lt))
            (omega (arith, lt)))

  page-written :
      (k : ℕ)
      → k < suc c * 1024
      → (with_pages t c m) (t.pamt_4k_base + k * 16) ≡ fresh (type_at t.rsvd_areas k)
  page-written k h = elim (Bool-cases (ltb k (c * 1024))) [
    | inl old ↦
        types-Beside t.rsvd_areas (t.pamt_4k_base + c * 16384) (c * 1024) 1024 m
          (t.pamt_4k_base + k * 16) (inl (ground (arith, old)))
        ∙ p.pages k (ground (arith, old))
    | inr new ↦
        let place : t.pamt_4k_base + k * 16 ≡ t.pamt_4k_base + c * 16384 + (k - c * 1024) * 16 =
          ground (arith, new) in
        let index : c * 1024 + (k - c * 1024) ≡ k = ground (arith, new) in
        rw place (
          types-at t.rsvd_areas (t.pamt_4k_base + c * 16384) (c * 1024) 1024 (k - c * 1024) m
            (ground (arith, new, h)))
        ∙ ap (λ x. fresh (type_at t.rsvd_areas x)) index
  ]

  large-written : Zeroed t.pamt_2m_base (suc c * 2) (with_huge t c m)
  large-written k h =
      let q = t.pamt_2m_base + k * 16 in
      let count : c * 2 + 2 ≡ suc c * 2 = omega arith in
      let before : Zeroed t.pamt_2m_base (c * 2) (with_pages t c m) = λ j small.
        types-Beside t.rsvd_areas (t.pamt_4k_base + c * 16384) (c * 1024) 1024 m
          (t.pamt_2m_base + j * 16)
          (page_range (t.pamt_2m_base + j * 16) (
            other_place _ _ _ _ _ (t.pamt_2m_base + j * 16) (swap _ _ _ _ l.apart_4k_2m)
              (omega arith) (omega (arith, lt)) (omega arith)))
        ∙ p.large j small in
      nodes-Beside t.pamt_1g_base (c / 256) (suc c / 256 - c / 256) (with_large t c m) q
        l.aligned_1g
        (other_place _ _ _ _ _ q l.apart_2m_1g (omega arith) (omega (arith, lt))
          (omega (arith, lt)))
      ∙ nodes-Zeroed t.pamt_2m_base (c * 2) 2 (with_pages t c m) l.aligned_2m before k (rw count h)

  huge-written : Zeroed t.pamt_1g_base (suc c / 256) (with_huge t c m)
  huge-written k h =
      let count : c / 256 + (suc c / 256 - c / 256) ≡ suc c / 256 = omega arith in
      let before : Zeroed t.pamt_1g_base (c / 256) (with_large t c m) = λ j small.
        let q = t.pamt_1g_base + j * 16 in
        nodes-Beside t.pamt_2m_base (c * 2) 2 (with_pages t c m) q l.aligned_2m (
          other_place _ _ _ _ _ q (swap _ _ _ _ l.apart_2m_1g) (omega arith) (omega (arith, lt))
            (omega (arith, lt)))
        ∙ types-Beside t.rsvd_areas (t.pamt_4k_base + c * 16384) (c * 1024) 1024 m q (
            page_range q (
              other_place _ _ _ _ _ q (swap _ _ _ _ l.apart_4k_1g) (omega arith) (omega (arith, lt))
                (omega arith)))
        ∙ p.huge j small in
      nodes-Zeroed t.pamt_1g_base (c / 256) (suc c / 256 - c / 256) (with_large t c m) l.aligned_1g
        before k (rw count h)

  pub chunk-Progress : Progress t (suc c) (with_huge t c m)
  chunk-Progress = record {
    pages = λ k h. page_kept k h ∙ page-written k h;
    large = large-written;
    huge = huge-written;
  }
