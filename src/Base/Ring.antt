-- ===== src/Base/Ring.antt =====
-- A list of distinct indices read as a doubly linked list: what follows and what precedes each
-- element, between a start `p` and an end mark `u`.
use Prim.Native.Nat.{ℕ, zero, suc, ◌≤◌, ◌<◌}
use mathlib.Core.Path.{◌≡◌, refl}
use mathlib.Core.Logic.{◌≢◌, inl, inr}
use mathlib.Core.Bool.{Bool, true, false, ◌||◌}
use mathlib.Core.List.{List, [], ◌∷◌, ◌++◌}
use native.Mathlib.Omega.{arith}
use tdx_module.Base.Tests.{◌==◌, Bool-cases, if◌then◌else◌}

abbrev pub mem : List ℕ → ℕ → Bool
mem [] i = false
mem (x ∷ xs) i = i == x || mem xs i

abbrev pub IsDistinct : List ℕ → Type 0
IsDistinct [] = Unit
IsDistinct (x ∷ xs) = (mem xs x ≡ false) × IsDistinct xs

abbrev pub without : ℕ → List ℕ → List ℕ
without a [] = []
without a (x ∷ xs) = let rest = without a xs in if x == a then rest else x ∷ rest

pub mem-without : (a : ℕ) (xs : List ℕ) (i : ℕ) → i ≢ a → mem (without a xs) i ≡ mem xs i
mem-without a [] i ne = refl
mem-without a (x ∷ xs) i ne = ground (arith, mem-without a xs i)

pub without_absent : (a : ℕ) (xs : List ℕ) → mem xs a ≡ false → without a xs ≡ xs
without_absent a [] h = refl
without_absent a (x ∷ xs) h = ground (arith, without_absent a xs)

module _ (u : ℕ) where
  abbrev pub next_of : ℕ → List ℕ → ℕ → ℕ
  next_of p [] i = u
  next_of p (x ∷ xs) i = let rest = next_of x xs i in if i == p then x else rest

  abbrev pub prev_of : ℕ → List ℕ → ℕ → ℕ
  prev_of p [] i = p
  prev_of p (x ∷ xs) i = let rest = prev_of x xs i in if i == x then p else rest

  -- The start mark matters only at itself.
  pub next_of_start : (p q : ℕ) (xs : List ℕ) → next_of p xs p ≡ next_of q xs q
  next_of_start p q [] = refl
  next_of_start p q (x ∷ xs) = ground arith

  pub next_of_rest :
      (p q : ℕ) (xs : List ℕ) (i : ℕ) → i ≢ p → i ≢ q → next_of p xs i ≡ next_of q xs i
  next_of_rest p q [] i np nq = refl
  next_of_rest p q (x ∷ xs) i np nq = ground arith

  -- What follows is an element or the end.
  pub next_of-ne : (p : ℕ) (xs : List ℕ) (i a : ℕ) → mem xs a ≡ false → u ≢ a → next_of p xs i ≢ a
  next_of-ne p [] i a h ne = ne
  next_of-ne p (x ∷ xs) i a h ne = ground (arith, next_of-ne x xs i a)

  pub prev_of-ne : (p : ℕ) (xs : List ℕ) (i a : ℕ) → mem xs a ≡ false → p ≢ a → prev_of p xs i ≢ a
  prev_of-ne p [] i a h ne = ne
  prev_of-ne p (x ∷ xs) i a h ne = ground (arith, prev_of-ne x xs i a)

  -- What follows the elements once `a` is taken out.
  pub next_of-without :
      (p a : ℕ) (xs : List ℕ) (i : ℕ)
      → IsDistinct (p ∷ xs)
      → u ≢ a
      → p ≢ a
      → i ≢ a
      → next_of p (without a xs) i
        ≡ (if next_of p xs i == a then next_of p xs a else next_of p xs i)
  next_of-without p a [] i d nu np ni = ground arith
  next_of-without p a (x ∷ xs) i d nu np ni = elim (Bool-cases (x == a)) [
    | inl e ↦ ground (
      arith,
      without_absent a xs,
      next_of_start p x xs,
      next_of_rest p x xs i,
      next_of-ne x xs i a,
    )
    | inr e ↦ ground (arith, next_of-without x a xs i)
  ]

  prev_of_shift :
      (p x : ℕ) (xs : List ℕ) (i : ℕ)
      → mem xs x ≡ false
      → prev_of p xs i ≡ (if prev_of x xs i == x then p else prev_of x xs i)
  prev_of_shift p x [] i h = ground arith
  prev_of_shift p x (y ∷ ys) i h = ground (arith, prev_of-ne y ys i x)

  -- What precedes them.
  pub prev_of-without :
      (p a : ℕ) (xs : List ℕ) (i : ℕ)
      → IsDistinct (p ∷ xs)
      → u ≢ a
      → p ≢ a
      → i ≢ a
      → prev_of p (without a xs) i
        ≡ (if prev_of p xs i == a then prev_of p xs a else prev_of p xs i)
  prev_of-without p a [] i d nu np ni = ground arith
  prev_of-without p a (x ∷ xs) i d nu np ni = elim (Bool-cases (x == a)) [
    | inl e ↦ ground (arith, without_absent a xs, prev_of_shift p a xs i)
    | inr e ↦ ground (arith, prev_of-without x a xs i)
  ]

  -- Between distinct elements the two readings are inverse.
  pub next_of-prev_of :
      (p : ℕ) (xs : List ℕ) (i : ℕ)
      → IsDistinct (p ∷ xs)
      → mem xs i ≡ true
      → next_of p xs (prev_of p xs i) ≡ i
  next_of-prev_of p [] i d m = cc
  next_of-prev_of p (x ∷ xs) i d m = ground (arith, next_of-prev_of x xs i, prev_of-ne x xs i p)

  pub prev_of-next_of :
      (p : ℕ) (xs : List ℕ) (i : ℕ)
      → IsDistinct (p ∷ xs)
      → mem xs u ≡ false
      → mem (p ∷ xs) i ≡ true
      → prev_of p xs (next_of p xs i) ≡ i
  prev_of-next_of p [] i d n m = ground arith
  prev_of-next_of p (x ∷ xs) i d n m = ground (arith, prev_of-next_of x xs i, next_of-ne x xs i x)

  -- The readings once `a` is put at the end, behind what was last.
  pub next_of-snoc :
      (p a : ℕ) (xs : List ℕ) (i : ℕ)
      → IsDistinct (p ∷ xs)
      → mem xs u ≡ false
      → i ≢ a
      → next_of p (xs ++ a ∷ []) i ≡ (if i == prev_of p xs u then a else next_of p xs i)
  next_of-snoc p a [] i d n ne = ground arith
  next_of-snoc p a (x ∷ xs) i d n ne = ground (arith, next_of-snoc x a xs i, prev_of-ne x xs u p)

  pub next_of-snoc_self :
      (p a : ℕ) (xs : List ℕ) → mem (p ∷ xs) a ≡ false → next_of p (xs ++ a ∷ []) a ≡ u
  next_of-snoc_self p a [] h = ground arith
  next_of-snoc_self p a (x ∷ xs) h = ground (arith, next_of-snoc_self x a xs)

  pub prev_of-snoc :
      (p a : ℕ) (xs : List ℕ) (i : ℕ)
      → mem xs i ≡ true
      → prev_of p (xs ++ a ∷ []) i ≡ prev_of p xs i
  prev_of-snoc p a [] i m = cc
  prev_of-snoc p a (x ∷ xs) i m = ground (arith, prev_of-snoc x a xs i)

  pub prev_of-snoc_self :
      (p a : ℕ) (xs : List ℕ)
      → mem xs a ≡ false
      → mem xs u ≡ false
      → prev_of p (xs ++ a ∷ []) a ≡ prev_of p xs u
  prev_of-snoc_self p a [] h n = ground arith
  prev_of-snoc_self p a (x ∷ xs) h n = ground (arith, prev_of-snoc_self x a xs)

  pub prev_of-snoc_end :
      (p a : ℕ) (xs : List ℕ) → mem xs u ≡ false → u ≢ a → prev_of p (xs ++ a ∷ []) u ≡ a
  prev_of-snoc_end p a [] n ne = ground arith
  prev_of-snoc_end p a (x ∷ xs) n ne = ground (arith, prev_of-snoc_end x a xs)

pub mem-snoc : (a : ℕ) (xs : List ℕ) (i : ℕ) → mem (xs ++ a ∷ []) i ≡ (mem xs i || i == a)
mem-snoc a [] i = ground arith
mem-snoc a (x ∷ xs) i = ground (arith, mem-snoc a xs i)

pub IsDistinct-snoc :
    (a : ℕ) (xs : List ℕ) → IsDistinct xs → mem xs a ≡ false → IsDistinct (xs ++ a ∷ [])
IsDistinct-snoc a [] d h = ground arith
IsDistinct-snoc a (x ∷ xs) d h = ground (arith, IsDistinct-snoc a xs, mem-snoc a xs x)

pub not-mem-without : (a : ℕ) (xs : List ℕ) → mem (without a xs) a ≡ false
not-mem-without a [] = refl
not-mem-without a (x ∷ xs) = ground (arith, not-mem-without a xs)

pub mem-without-le : (a : ℕ) (xs : List ℕ) (i : ℕ) → mem xs i ≡ false → mem (without a xs) i ≡ false
mem-without-le a [] i h = refl
mem-without-le a (x ∷ xs) i h = ground (arith, mem-without-le a xs i)

pub IsDistinct-without : (a : ℕ) (xs : List ℕ) → IsDistinct xs → IsDistinct (without a xs)
IsDistinct-without a [] d = d
IsDistinct-without a (x ∷ xs) d = ground (arith, IsDistinct-without a xs, mem-without-le a xs x)

abbrev pub length {ℓ} : {A : Type ℓ} → List A → ℕ
length [] = 0
length (x ∷ xs) = suc (length xs)

length-without : (a : ℕ) (xs : List ℕ) → IsDistinct xs → length xs ≤ suc (length (without a xs))
length-without a [] d = omega arith
length-without a (x ∷ xs) d = ground (arith, length-without a xs, without_absent a xs)

-- Distinct indices below `n` are at most `n`.
pub length-le :
    (n : ℕ) (xs : List ℕ) → IsDistinct xs → ((i : ℕ) → mem xs i ≡ true → i < n) → length xs ≤ n
length-le zero [] d h = omega arith
length-le zero (x ∷ xs) d h = absurd (omega (arith, h x (ground arith)))
length-le (suc n) xs d h =
    omega
      (arith, length-without n xs d, length-le n (without n xs) (IsDistinct-without n xs d) smaller)
  where
    smaller : (i : ℕ) → mem (without n xs) i ≡ true → i < n
    smaller i m = ground (arith, mem-without n xs i, not-mem-without n xs, h i)
