-- ===== src/Keyhole/Lru/Added.antt =====
-- Putting an entry at the head of the reuse list.
use tdx_module.Base.{
  ℕ, ◌≡◌, ◌≢◌, false, List, [], ◌∷◌, ◌++◌, arith, ◌==◌, ◌&&◌, ◌!=◌, if◌then◌else◌,
}
use tdx_module.Base.Ring.{
  mem, prev_of, IsDistinct-snoc, mem-snoc, prev_of-ne, next_of-snoc, next_of-snoc_self,
  prev_of-snoc, prev_of-snoc_self, prev_of-snoc_end,
}
use tdx_module.Keyhole.State.{KeyholeState, undefined_idx, entry}
use tdx_module.Keyhole.Lru
use tdx_module.Keyhole.Lru.Linked.{Linked}

module _ (s : KeyholeState) (i : ℕ) where
  abbrev added : KeyholeState
  added = Lru.lru_cache_add_head_entry s i

  -- What the insertion writes, field by field: the tail is left alone.
  pub added_head : added.lru_head ≡ i
  unfolding Lru.lru_cache_add_head_entry
  added_head = ground arith

  pub added_tail : added.lru_tail ≡ s.lru_tail
  unfolding Lru.lru_cache_add_head_entry
  added_tail = ground arith

  added_next :
      (j : ℕ)
      → (entry added j).lru_next ≡ (
          if j == i
          then undefined_idx
          else (if (j == s.lru_head) && (j != undefined_idx) then i else (entry s j).lru_next))
  unfolding Lru.lru_cache_add_head_entry
  added_next j = ground arith

  added_prev :
      (j : ℕ) → (entry added j).lru_prev ≡ (if j == i then s.lru_head else (entry s j).lru_prev)
  unfolding Lru.lru_cache_add_head_entry
  added_prev j = ground arith

-- An entry that is not in the list goes to the end of it, if the list is not empty.
pub add_head-Linked :
    (s : KeyholeState) (x : ℕ) (xs : List ℕ) (i : ℕ)
    → Linked s (x ∷ xs)
    → mem (x ∷ xs) i ≡ false
    → i ≢ undefined_idx
    → Linked (Lru.lru_cache_add_head_entry s i) ((x ∷ xs) ++ i ∷ [])
add_head-Linked s x xs i l out ne = record {
  distinct = ground (arith, l.distinct, mem-snoc i ys u, IsDistinct-snoc i ys);
  tail = ground (arith, added_tail s i, l.tail, next_of-snoc u u i ys u, last);
  head = ground (arith, added_head s i, prev_of-snoc_end u u i ys);
  nexts = λ j k. ground (
    arith,
    added_next s i j,
    mem-snoc i ys j,
    l.head,
    l.nexts j,
    next_of-snoc u u i ys j,
    next_of-snoc_self u u i ys,
  );
  prevs = λ j k. ground (
    arith,
    added_prev s i j,
    mem-snoc i ys j,
    l.head,
    l.prevs j,
    prev_of-snoc u u i ys j,
    prev_of-snoc_self u u i ys,
  );
}
  where
    u : ℕ
    u = undefined_idx

    ys : List ℕ
    ys = x ∷ xs

    last : prev_of u u ys u ≢ u
    last = ground (arith, l.distinct, prev_of-ne u x xs u u)

-- If the list is empty the tail stays undefined, so afterwards the links spell no list at all.
pub add_head_to_empty :
    (s : KeyholeState) (i : ℕ) (ys : List ℕ)
    → Linked s []
    → i ≢ undefined_idx
    → ¬ Linked (Lru.lru_cache_add_head_entry s i) ys
add_head_to_empty s i [] l ne k = ground (arith, added_head s i, k.head)
add_head_to_empty s i (y ∷ ys) l ne k = ground (arith, added_tail s i, l.tail, k.tail, k.distinct)
