-- ===== src/Keyhole/Hash/Chained.antt =====
-- A bucket of the hash table is a list of keyholes linked by `hash_list_next`, and what the
-- search, the removal and the insertion do to it.
use tdx_module.Base.{
  ℕ, zero, suc, ◌<◌, ◌≡◌, inl, inr, refl, true, false, Bool-cases, List, [], ◌∷◌, some, arith,
}
use tdx_module.Base.Ring.{mem, IsDistinct, next_of, prev_of, length, length-le}
use tdx_module.Keyhole.State.{KeyholeState, undefined_idx, max_keyhole_per_lp, entry}
use tdx_module.Keyhole.Hash
use tdx_module.Keyhole.Hash.{Key, Found, matches}

abbrev pub u : ℕ
u = undefined_idx

-- The bucket `h` of `s` spells the list `xs`.
pub record Chained (s : KeyholeState) (h : ℕ) (xs : List ℕ) : Type 0 where
  pub distinct : IsDistinct (undefined_idx ∷ xs)
  pub in_range : (j : ℕ) → mem xs j ≡ true → j < max_keyhole_per_lp
  pub bucket : s.hash_table h ≡ next_of undefined_idx undefined_idx xs undefined_idx
  pub links :
      (j : ℕ)
      → mem xs j ≡ true
      → (entry s j).hash_list_next ≡ next_of undefined_idx undefined_idx xs j

-- What a search may answer: an entry that matches, with the one before it, or that none does.
pub data Answers (s : KeyholeState) (k : Key) (p : ℕ) (xs : List ℕ) (f : Found) : Type 0 where
  hit :
      mem xs f.ret_idx ≡ true
      → matches (entry s f.ret_idx) k ≡ true
      → f.prev_idx ≡ prev_of undefined_idx p xs f.ret_idx
      → Answers s k p xs f
  miss :
      f.ret_idx ≡ undefined_idx
      → ((j : ℕ) → mem xs j ≡ true → matches (entry s j) k ≡ false)
      → Answers s k p xs f

module _ (s : KeyholeState) (k : Key) where
  -- A first entry that does not match changes no answer.
  widen :
      (p x : ℕ) (xs : List ℕ) (f : Found)
      → IsDistinct (p ∷ x ∷ xs)
      → matches (entry s x) k ≡ false
      → Answers s k x xs f
      → Answers s k p (x ∷ xs) f
  widen p x xs f d e (hit m ok before) = hit (ground arith) ok (ground arith)
  widen p x xs f d e (miss none_found all) = miss none_found (λ j m. ground (arith, all j))

  -- The loop from the middle of a chain, where `p` came last.
  search :
      (fuel p : ℕ) (xs : List ℕ)
      → IsDistinct (p ∷ xs)
      → mem xs u ≡ false
      → length xs < fuel
      → ((j : ℕ) → mem xs j ≡ true → (entry s j).hash_list_next ≡ next_of u p xs j)
      → (f : Found) × (Hash.find_from fuel s k (next_of u p xs p) p ≡ some f) × Answers s k p xs f
  unfolding Hash.find_from
  search zero p xs d n short links = absurd (omega arith)
  search (suc fuel) p [] d n short links =
      (record { ret_idx = u; prev_idx = p }, refl, miss refl (λ j m. cc))
  search (suc fuel) p (x ∷ xs) d n short links = elim (Bool-cases (matches (entry s x) k)) [
    | inl e ↦
        (record { ret_idx = x; prev_idx = p }, ground arith, hit (ground arith) e (ground arith))
    | inr e ↦
        let (f, found, answers) =
          search fuel x xs d.1 (ground arith) (omega arith) (λ j m. ground (arith, links j)) in
        (f, ground (arith, found, links x, n), widen p x xs f d e answers)
  ]

-- On a well-formed bucket the search ends, within one round for each keyhole and one more. It
-- answers with an entry of the bucket that matches, and its predecessor, or that none matches.
pub find_entry-Answers :
    (s : KeyholeState) (k : Key) (xs : List ℕ)
    → Chained s (Hash.hash_pa k.page) xs
    → (f : Found) × (Hash.hash_table_find_entry s k ≡ some f) × Answers s k undefined_idx xs f
unfolding Hash.hash_table_find_entry
find_entry-Answers s k xs c = rw c.bucket (
    search s k (suc max_keyhole_per_lp) u xs c.distinct c.distinct.0
      (omega (arith, length-le max_keyhole_per_lp xs c.distinct.1 c.in_range)) c.links)
