-- ===== src/Pamt/Resize/Filled.antt =====
-- A loop over an array of entries that changes each of them.
use tdx_module.Base.{
  ℕ, true, zero, suc, ◌+◌, ◌*◌, ◌<◌, ◌≤◌, ◌≡◌, ap, sym, subst, subst₂, refl, fun_ext, ◌∙◌, arith,
  Bool, ◌&&◌, ltb, leb, ◌-◌, ◌%◌, ◌==◌, if◌then◌else◌,
}
use tdx_module.Pamt.State.{◌>>◌, pure, PamtEntry, Mem, M, ok, bind_outcome, write, elem}
use tdx_module.Pamt.Resize

-- `p` is one of `n` entries that stand one after the other from `first`.
abbrev pub in_array : ℕ → ℕ → ℕ → Bool
in_array first n p = leb first p && (ltb p (elem first n) && ((p - first) % 16 == 0))

-- The memory in which every entry of the array is changed.
abbrev pub filled : ℕ → ℕ → (PamtEntry → PamtEntry) → Mem → Mem
filled first n change m p = if in_array first n p then change (m p) else m p

written_first :
    (change : PamtEntry → PamtEntry) (first n : ℕ) (m : Mem)
    → filled (elem first 1) n change (write first (change (m first)) m)
      ≡ filled first (suc n) change m
written_first change first n m = fun_ext (λ p. ground arith)

-- `same p m` holds before the entry at `p` is changed.
pub for_up-filled :
    (change : PamtEntry → PamtEntry) (body : ℕ → M (Unit {0})) (first start n : ℕ) (m : Mem)
    (same : ℕ → Mem → Type 0)
    → ((m' : Mem) (j : ℕ)
        → start ≤ j
        → j < start + n
        → same (elem first j) m'
        → (body j m' ≡ ok tt (write (elem first j) (change (m' (elem first j))) m'))
          × same (elem first (suc j)) (write (elem first j) (change (m' (elem first j))) m'))
    → same (elem first start) m
    → (Resize.for_up start n body m ≡ ok tt (filled (elem first start) n change m))
      × same (elem first (start + n)) (filled (elem first start) n change m)
unfolding Resize.for_up
for_up-filled change body first start zero m same step s =
    let none_changed : m ≡ filled (elem first start) 0 change m = fun_ext (λ p. ground arith) in
    (ap (ok tt) none_changed, subst₂ same (omega arith) none_changed s)
for_up-filled change body first start (suc n) m same step s =
    let p = elem first start in
    let (ran, s') = step m start (omega arith) (omega arith) s in
    let (rest, s'') =
      for_up-filled change body first (suc start) n (write p (change (m p)) m) same
        (λ m' j lo hi. step m' j (omega arith) (omega arith)) s' in
    let joined : filled (elem first (suc start)) n change (write p (change (m p)) m)
        ≡ filled p (suc n) change m =
      ap (λ q. filled q n change (write p (change (m p)) m)) (omega arith)
      ∙ written_first change p n m in
    (
      ap (λ r. bind_outcome r (λ _. Resize.for_up (suc start) n body)) ran
          ∙ rest
          ∙ ap (ok tt) joined,
      subst₂ same (omega arith) joined s'',
    )

two_rounds : (body : ℕ → M (Unit {0})) → Resize.for_up 0 2 body ≡ (body 0 >> (body 1 >> pure tt))
unfolding Resize.for_up
two_rounds body = refl

one_round :
    (body : ℕ → M (Unit {0})) (start n : ℕ) (m : Mem)
    → Resize.for_up start (suc n) body m
      ≡ bind_outcome (body start m) (λ _. Resize.for_up (suc start) n body)
unfolding Resize.for_up
one_round body start n m = refl

-- Where the first child goes the same way from two memories, so do all.
pub for_children-start :
    (first : ℕ) (body : ℕ → ℕ → ℕ → M (Unit {0})) (m n : Mem)
    → ((p : ℕ) → p ≡ first → body 0 0 p m ≡ body 0 0 p n)
    → Resize.for_children first body m ≡ Resize.for_children first body n
unfolding Resize.for_children
for_children-start first body m n same =
    let round : ℕ → M (Unit {0}) =
      λ i. Resize.for_up 0 256 (λ j. body i j (elem (elem first (256 * i)) j)) in
    let child : ℕ → M (Unit {0}) = λ j. body 0 j (elem (elem first (256 * 0)) j) in
    let first_page : round 0 m ≡ round 0 n =
      one_round child 0 255 m
      ∙ ap (λ r. bind_outcome r (λ _. Resize.for_up 1 255 child))
          (same (elem (elem first (256 * 0)) 0) (omega arith))
      ∙ sym (one_round child 0 255 n) in
    ap (λ f. f m) (two_rounds round)
    ∙ ap (λ r. bind_outcome r (λ _. round 1 >> pure tt)) first_page
    ∙ sym (ap (λ f. f n) (two_rounds round))

two_pages :
    (change : PamtEntry → PamtEntry) (first : ℕ) (m : Mem)
    → filled (elem first 256) 256 change (filled (elem first 0) 256 change m)
      ≡ filled first 512 change m
two_pages change first m = fun_ext (λ p. ground arith)

module _ (change : PamtEntry → PamtEntry) (body : ℕ → ℕ → ℕ → M (Unit {0})) (first : ℕ)
    (same : ℕ → Mem → Type 0) where
  -- What the body does to one child, and what it leaves alone.
  abbrev pub ChangesOne : Type 0
  ChangesOne =
      (m : Mem) (i j p : ℕ)
      → p ≡ elem first (256 * i + j)
      → in_array first 512 p ≡ true
      → same p m
      → (body i j p m ≡ ok tt (write p (change (m p)) m))
        × same (elem p 1) (write p (change (m p)) m)

  page :
      (i : ℕ) (m : Mem)
      → i < 2
      → ChangesOne
      → same (elem first (256 * i)) m
      → (Resize.for_up 0 256 (λ j. body i j (elem (elem first (256 * i)) j)) m
          ≡ ok tt (filled (elem first (256 * i)) 256 change m))
        × same (elem (elem first (256 * i)) 256) (filled (elem first (256 * i)) 256 change m)
  page i m small step s =
      subst
        (λ q.
          (Resize.for_up 0 256 (λ j. body i j (elem (elem first (256 * i)) j)) m
            ≡ ok tt (filled q 256 change m))
          × same (elem (elem first (256 * i)) 256) (filled q 256 change m))
        {x = elem (elem first (256 * i)) 0} (omega arith)
        (for_up-filled change (λ j. body i j (elem (elem first (256 * i)) j)) (elem first (256 * i))
          0 256 m same
          (λ m' j lo hi s'.
            let (ran, s'') =
              step m' i j (elem (elem first (256 * i)) j) (omega arith) (ground arith) s' in
            (ran, subst₂ same (omega arith) refl s''))
          (subst₂ same (omega arith) refl s))

  -- The loop over the pages of the children is the loop over the children.
  pub for_children-filled :
      (m : Mem)
      → ChangesOne
      → same first m
      → (Resize.for_children first body m ≡ ok tt (filled first 512 change m))
        × same (elem first 512) (filled first 512 change m)
  unfolding Resize.for_children
  for_children-filled m step s =
      let round : ℕ → M (Unit {0}) =
        λ i. Resize.for_up 0 256 (λ j. body i j (elem (elem first (256 * i)) j)) in
      let (one, s1) = page 0 m (omega arith) step (subst₂ same (omega arith) refl s) in
      let (two, s2) =
        page 1 (filled (elem first 0) 256 change m) (omega arith) step
          (subst₂ same (omega arith) refl s1) in
      (
        ap (λ f. f m) (two_rounds round)
            ∙ ap (λ r. bind_outcome r (λ _. round 1 >> pure tt)) one
            ∙ ap (λ r. bind_outcome r (λ _. pure tt)) two
            ∙ ap (ok tt) (two_pages change first m),
        subst₂ same (omega arith) (two_pages change first m) s2,
      )
