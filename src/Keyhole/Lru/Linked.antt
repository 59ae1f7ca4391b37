-- ===== src/Keyhole/Lru/Linked.antt =====
-- The reuse list of a keyhole state is a doubly linked list, and what the two operations do to it.
use tdx_module.Base.{ℕ, ◌≡◌, ◌≢◌, true, List, ◌∷◌, arith, ◌==◌, if◌then◌else◌}
use tdx_module.Base.Ring.{
  mem, IsDistinct, without, next_of, prev_of, next_of-without, prev_of-without, mem-without,
  IsDistinct-without, mem-without-le, not-mem-without, next_of-prev_of, prev_of-next_of,
}
use tdx_module.Keyhole.State.{KeyholeState, undefined_idx, entry}
use tdx_module.Keyhole.Lru

abbrev pub after : List ℕ → ℕ → ℕ
after xs i = next_of undefined_idx undefined_idx xs i

abbrev pub earlier : List ℕ → ℕ → ℕ
earlier xs i = prev_of undefined_idx undefined_idx xs i

-- The links, the tail and the head of `s` spell the list `xs`, from the tail to the head.
pub record Linked (s : KeyholeState) (xs : List ℕ) : Type 0 where
  pub distinct : IsDistinct (undefined_idx ∷ xs)
  pub tail : s.lru_tail ≡ after xs undefined_idx
  pub head : s.lru_head ≡ earlier xs undefined_idx
  pub nexts : (j : ℕ) → mem xs j ≡ true → (entry s j).lru_next ≡ after xs j
  pub prevs : (j : ℕ) → mem xs j ≡ true → (entry s j).lru_prev ≡ earlier xs j

module _ (s : KeyholeState) (i : ℕ) where
  abbrev prev : ℕ
  prev = (entry s i).lru_prev

  abbrev next : ℕ
  next = (entry s i).lru_next

  abbrev removed : KeyholeState
  removed = Lru.lru_cache_remove_entry s i

  -- What the removal writes, field by field.
  head_removed : removed.lru_head ≡ (if s.lru_head == i then prev else s.lru_head)
  unfolding Lru.lru_cache_remove_entry
  head_removed = ground arith

  tail_removed : removed.lru_tail ≡ (if s.lru_tail == i then next else s.lru_tail)
  unfolding Lru.lru_cache_remove_entry
  tail_removed = ground arith

  links_on :
      (j : ℕ)
      → j ≢ undefined_idx
      → (entry removed j).lru_next ≡ (if j == prev then next else (entry s j).lru_next)
  unfolding Lru.lru_cache_remove_entry
  links_on j ne = ground arith

  links_back :
      (j : ℕ)
      → j ≢ undefined_idx
      → (entry removed j).lru_prev ≡ (if j == next then prev else (entry s j).lru_prev)
  unfolding Lru.lru_cache_remove_entry
  links_back j ne = ground arith

-- Removing an entry of the list leaves the list without it.
pub remove-Linked :
    (s : KeyholeState) (xs : List ℕ) (i : ℕ)
    → Linked s xs
    → mem xs i ≡ true
    → Linked (Lru.lru_cache_remove_entry s i) (without i xs)
remove-Linked s xs i l m = record {
  distinct = ground (arith, IsDistinct-without i xs, mem-without-le i xs u);
  tail = ground (arith, tail_removed s i, l.tail, l.nexts i, next_of-without u u i xs u);
  head = ground (arith, head_removed s i, l.head, l.prevs i, prev_of-without u u i xs u);
  nexts = λ j k. ground (
    arith,
    kept j k,
    links_on s i j,
    l.nexts j,
    l.nexts i,
    l.prevs i,
    next_of-without u u i xs j,
    next_of-prev_of u u xs i,
    prev_of-next_of u u xs j,
  );
  prevs = λ j k. ground (
    arith,
    kept j k,
    links_back s i j,
    l.prevs j,
    l.prevs i,
    l.nexts i,
    prev_of-without u u i xs j,
    next_of-prev_of u u xs j,
    prev_of-next_of u u xs i,
  );
}
  where
    u : ℕ
    u = undefined_idx

    d : IsDistinct (u ∷ xs)
    d = l.distinct

    apart : u ≢ i
    apart = ground arith

    kept : (j : ℕ) → mem (without i xs) j ≡ true → (j ≢ i) × (mem xs j ≡ true) × (j ≢ u)
    kept j k = ground (arith, mem-without i xs j, not-mem-without i xs)
