-- ===== src/Base/Family.antt =====
-- Families indexed by a processor: change at one index, and weights summed over the first `n`.
use Prim.Native.Nat.{ℕ, zero, suc, ◌+◌, ◌≤◌, ◌<◌}
use mathlib.Core.Path.{◌≡◌}
use mathlib.Core.Logic.{◌≢◌}
use native.Mathlib.Omega.{arith}
use tdx_module.Base.Tests.{◌==◌, if◌then◌else◌}

abbrev pub assign {ℓ} : {A : Type ℓ} → ℕ → A → (ℕ → A) → ℕ → A
assign i a f j = if i == j then a else f j

module _ {ℓ} {A : Type ℓ} (weight : A → ℕ) where
  pub tally : ℕ → (ℕ → A) → ℕ
  tally zero f = 0
  tally (suc n) f = weight (f n) + tally n f

  tally-assign_outside : (n i : ℕ) (a : A) (f : ℕ → A) → n ≤ i → tally n (assign i a f) ≡ tally n f
  unfolding tally
  tally-assign_outside zero i a f h = omega arith
  tally-assign_outside (suc n) i a f h = ground (arith, tally-assign_outside n i a f)

  -- Taking out what stood at `i`, the rest of the sum is the same.
  pub tally-assign :
      (n i : ℕ) (a : A) (f : ℕ → A)
      → i < n
      → tally n (assign i a f) + weight (f i) ≡ weight a + tally n f
  unfolding tally
  tally-assign zero i a f h = absurd (omega arith)
  tally-assign (suc n) i a f h = ground (arith, tally-assign n i a f, tally-assign_outside n i a f)

  pub weight-le-tally : (n i : ℕ) (f : ℕ → A) → i < n → weight (f i) ≤ tally n f
  unfolding tally
  weight-le-tally zero i f h = absurd (omega arith)
  weight-le-tally (suc n) i f h = ground (arith, weight-le-tally n i f)

  -- Two places count separately.
  pub pair-le-tally :
      (n i j : ℕ) (f : ℕ → A) → i < n → j < n → i ≢ j → weight (f i) + weight (f j) ≤ tally n f
  unfolding tally
  pair-le-tally zero i j f hi hj ne = absurd (omega arith)
  pair-le-tally (suc n) i j f hi hj ne =
      ground (arith, pair-le-tally n i j f, weight-le-tally n i f, weight-le-tally n j f)

  pub tally-le : ((a : A) → weight a ≤ 1) → (n : ℕ) (f : ℕ → A) → tally n f ≤ n
  unfolding tally
  tally-le small zero f = omega arith
  tally-le small (suc n) f = omega (arith, small (f n), tally-le small n f)

  pub tally_zero : (a : A) → weight a ≡ 0 → (n : ℕ) → tally n (λ _. a) ≡ 0
  unfolding tally
  tally_zero a h zero = omega arith
  tally_zero a h (suc n) = omega (arith, tally_zero a h n)

  -- A place that does not count leaves room for another.
  pub tally-lt :
      ((a : A) → weight a ≤ 1) → (n i : ℕ) (f : ℕ → A) → i < n → weight (f i) ≡ 0 → tally n f < n
  unfolding tally
  tally-lt small zero i f h none = absurd (omega arith)
  tally-lt small (suc n) i f h none =
      ground (arith, small (f n), tally-le small n f, tally-lt small n i f)

  pub tally_none : (n : ℕ) (f : ℕ → A) → ((i : ℕ) → weight (f i) ≡ 0) → tally n f ≡ 0
  unfolding tally
  tally_none zero f h = omega arith
  tally_none (suc n) f h = omega (arith, h n, tally_none n f h)
