-- ===== src/Pamt/Implicit/RangeFree.antt =====
-- The test that a range of 2MB is free looks at each of its 512 entries.
use tdx_module.Base.{
  ℕ, zero, suc, ◌+◌, ◌*◌, ◌%◌, ◌/◌, ◌≤◌, ◌<◌, ◌≡◌, ◌↔◌, ◌⊎◌, subst, inl, inr, Bool-cases, refl,
  arith, Bool, true, false, ◌==◌, if◌then◌else◌,
}
use tdx_module.Pamt.State.{Mem, PamtBlock, pt_nda, ok, elem}
use tdx_module.Pamt.Block.{idx_4k}
use tdx_module.Pamt.Resize.{is_type}
use tdx_module.Pamt.Implicit

-- The entries from `j` on, `n` of them, are not assigned.
abbrev pub AllFree : ℕ → ℕ → ℕ → Mem → Type 0
AllFree children j n m =
    (k : ℕ) → j ≤ k → k < j + n → is_type (m (elem children k)).pt pt_nda ≡ true

-- The first of a range, or one of the rest.
first_or_rest : (j k n : ℕ) → j ≤ k → k < j + suc n → (j ≡ k) ⊎ ((suc j ≤ k) × (k < suc j + n))
first_or_rest j k n lo hi = elim (Bool-cases (j == k)) [
  | inl q ↦ inl (ground arith)
  | inr q ↦ inr (ground arith)
]

pub page-AllFree :
    (page j n : ℕ) (m : Mem) → (Implicit.page_is_free page j n m ≡ true) ↔ AllFree page j n m
unfolding Implicit.page_is_free
page-AllFree page j zero m = (λ _ k lo hi. absurd (omega arith), λ _. refl)
page-AllFree page j (suc n) m =
    let (to, from) = page-AllFree page (suc j) n m in
    (
      λ e k lo hi. elim (first_or_rest j k n lo hi) [
        | inl q ↦ subst (λ k'. is_type (m (elem page k')).pt pt_nda ≡ true) q (ground arith)
        | inr (l, h) ↦ to (ground arith) k l h
      ],
      λ all. ground (
        arith,
        from (λ k lo hi. all k (omega arith) (omega arith)),
        all j (omega arith) (omega arith),
      ),
    )

both : (a b : Bool) → (if a then b else false) ≡ true → (a ≡ true) × (b ≡ true)
both true b e = (refl, e)
both false b e = absurd (cc)

pages-AllFree :
    (children i n : ℕ) (m : Mem)
    → (Implicit.pages_are_free children i n m ≡ true)
      ↔ ((i' : ℕ) → i ≤ i' → i' < i + n → AllFree (elem children (256 * i')) 0 256 m)
unfolding Implicit.pages_are_free
pages-AllFree children i zero m = (λ _ i' lo hi. absurd (omega arith), λ _. refl)
pages-AllFree children i (suc n) m =
    let (to, from) = pages-AllFree children (suc i) n m in
    let (page_to, page_from) = page-AllFree (elem children (256 * i)) 0 256 m in
    (
      λ e i' lo hi. elim (first_or_rest i i' n lo hi) [
        | inl q ↦
            subst (λ i''. AllFree (elem children (256 * i'')) 0 256 m) q (page_to (both _ _ e).0)
        | inr (l, h) ↦ to (both _ _ e).1 i' l h
      ],
      λ all.
          rw (page_from (all i (omega arith) (omega arith)))
            (from (λ i' lo hi. all i' (omega arith) (omega arith))),
    )

-- On an aligned range the test returns, changes nothing, and returns true just when none of the 512
-- entries of the range is assigned.
pub pamt_is_2mb_range_free-AllFree :
    (hpa : ℕ) (b : PamtBlock) (m : Mem)
    → elem b.pamt_4kb_p (idx_4k hpa) % 4096 ≡ 0
    → (free : Bool) × (Implicit.pamt_is_2mb_range_free hpa b m ≡ ok free m)
      × ((free ≡ true) ↔ AllFree (elem b.pamt_4kb_p (idx_4k hpa)) 0 512 m)
unfolding Implicit.pamt_is_2mb_range_free
pamt_is_2mb_range_free-AllFree hpa b m aligned =
    let first = elem b.pamt_4kb_p (idx_4k hpa) in
    let (to, from) = pages-AllFree first 0 2 m in
    (
      Implicit.pages_are_free first 0 2 m,
      rw aligned refl,
      (
        λ e k lo hi.
            subst (λ p. is_type (m p).pt pt_nda ≡ true) (omega arith)
              (to e (k / 256) (omega arith) (omega arith) (k % 256) (omega arith) (omega arith)),
        λ all. from (λ i lo hi k lo' hi'.
            subst (λ p. is_type (m p).pt pt_nda ≡ true) (omega arith)
              (all (256 * i + k) (omega arith) (omega arith))),
      ),
    )
