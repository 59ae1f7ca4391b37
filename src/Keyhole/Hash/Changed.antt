-- ===== src/Keyhole/Hash/Changed.antt =====
-- The insertion into a bucket of the hash table and the removal from it.
use tdx_module.Base.{
  ℕ, ◌<◌, ◌≡◌, ◌≢◌, refl, true, false, List, ◌∷◌, some, arith, ◌==◌, if◌then◌else◌,
}
use tdx_module.Base.Ring.{
  mem, without, prev_of, next_of_start, next_of_rest, next_of-without, mem-without,
  IsDistinct-without, mem-without-le, not-mem-without, next_of-prev_of, prev_of-next_of, IsDistinct,
  prev_of-ne,
}
use tdx_module.Keyhole.State.{
  KeyholeState, undefined_idx, max_keyhole_per_lp, entry, set_bucket, set_hash_next,
}
use tdx_module.Keyhole.Hash
use tdx_module.Keyhole.Hash.{Key, Found, matches}
use tdx_module.Keyhole.Hash.Chained.{Chained, u, find_entry-Answers, hit, miss}

module _ (s : KeyholeState) (page i : ℕ) where
  abbrev inserted : KeyholeState
  inserted = Hash.hash_table_insert_entry s page i

  -- What the insertion writes, field by field.
  inserted_bucket :
      (h : ℕ) → inserted.hash_table h ≡ (if Hash.hash_pa page == h then i else s.hash_table h)
  unfolding Hash.hash_table_insert_entry
  inserted_bucket h = refl

  inserted_link :
      (j : ℕ)
      → (entry inserted j).hash_list_next
        ≡ (if i == j then s.hash_table (Hash.hash_pa page) else (entry s j).hash_list_next)
  unfolding Hash.hash_table_insert_entry
  inserted_link j = ground arith

-- A keyhole that is in no bucket goes to the front of the bucket of its page, and every other
-- bucket stays as it is.
pub insert-Chained :
    (s : KeyholeState) (page i h : ℕ) (xs ys : List ℕ)
    → Chained s (Hash.hash_pa page) xs
    → mem xs i ≡ false
    → i < max_keyhole_per_lp
    → Chained s h ys
    → mem ys i ≡ false
    → h ≢ Hash.hash_pa page
    → Chained (Hash.hash_table_insert_entry s page i) (Hash.hash_pa page) (i ∷ xs)
      × Chained (Hash.hash_table_insert_entry s page i) h ys
insert-Chained s page i h xs ys c out small d out' other = (
  record {
    distinct = ground (arith, c.distinct);
    in_range = λ j m. ground (arith, c.in_range j);
    bucket = ground (arith, inserted_bucket s page i (Hash.hash_pa page));
    links = λ j m. ground (
      arith,
      inserted_link s page i j,
      c.bucket,
      c.distinct,
      c.links j,
      next_of_start u u i xs,
      next_of_rest u u i xs j,
    );
  },
  record {
    distinct = d.distinct;
    in_range = d.in_range;
    bucket = ground (arith, inserted_bucket s page i h, d.bucket);
    links = λ j m. ground (arith, inserted_link s page i j, d.links j, m);
  },
)

-- The removal of the entry that a search has found.
abbrev unlinked : KeyholeState → ℕ → Found → KeyholeState
unlinked s h f =
    let next = (entry s f.ret_idx).hash_list_next in
    let s1 : KeyholeState =
      if f.prev_idx == undefined_idx
      then set_bucket s h next
      else set_hash_next s f.prev_idx next in
    set_hash_next s1 f.ret_idx undefined_idx

module _ (s : KeyholeState) (h : ℕ) (f : Found) where
  unlinked_bucket :
      (h' : ℕ)
      → (unlinked s h f).hash_table h' ≡ (
          if f.prev_idx == u
          then (if h == h' then (entry s f.ret_idx).hash_list_next else s.hash_table h')
          else s.hash_table h')
  unlinked_bucket h' = ground arith

  unlinked_link :
      (j : ℕ)
      → j ≢ f.ret_idx
      → j ≢ u
      → (entry (unlinked s h f) j).hash_list_next ≡ (
          if f.prev_idx == j
          then (entry s f.ret_idx).hash_list_next
          else (entry s j).hash_list_next)
  unlinked_link j ne inside = ground arith

  -- The bucket loses the entry.
  unlinked-Chained :
      (xs : List ℕ)
      → Chained s h xs
      → mem xs f.ret_idx ≡ true
      → f.prev_idx ≡ prev_of u u xs f.ret_idx
      → Chained (unlinked s h f) h (without f.ret_idx xs)
  unlinked-Chained xs c m before = record {
    distinct = ground (arith, c.distinct, IsDistinct-without r xs, mem-without-le r xs u);
    in_range = λ j k. ground (arith, kept j k, c.in_range j);
    bucket = ground (
      arith,
      before,
      unlinked_bucket h,
      c.bucket,
      c.links r,
      next_of-without u u r xs u,
      next_of-prev_of u u xs r,
      prev_of-next_of u u xs u,
    );
    links = λ j k. ground (
      arith,
      kept j k,
      before,
      unlinked_link j,
      c.links j,
      c.links r,
      next_of-without u u r xs j,
      next_of-prev_of u u xs r,
      prev_of-next_of u u xs j,
    );
  }
    where
      r : ℕ
      r = f.ret_idx

      d : IsDistinct (u ∷ xs)
      d = c.distinct

      apart : u ≢ r
      apart = ground arith

      kept : (j : ℕ) → mem (without r xs) j ≡ true → (j ≢ r) × (mem xs j ≡ true) × (j ≢ u)
      kept j k = ground (arith, mem-without r xs j, not-mem-without r xs)

  -- A bucket that shares no entry with it is left alone.
  unlinked-other :
      (xs : List ℕ) (h' : ℕ) (ys : List ℕ)
      → h ≢ h'
      → mem xs f.ret_idx ≡ true
      → f.prev_idx ≡ prev_of u u xs f.ret_idx
      → ((j : ℕ) → mem ys j ≡ true → mem xs j ≡ false)
      → Chained s h' ys
      → Chained (unlinked s h f) h' ys
  unlinked-other xs h' ys other m before apart d = record {
    distinct = d.distinct;
    in_range = d.in_range;
    bucket = ground (arith, unlinked_bucket h', d.bucket);
    links = λ j k.
        ground
          (arith, apart j k, unlinked_link j, d.links j, d.distinct, prev_of-ne u u xs f.ret_idx j);
  }

-- Removing a mapping that stands in its bucket succeeds: an entry that matches it leaves the bucket,
-- whose other entries stay in order, and a bucket that shares no entry with it stays as it is.
pub remove-Chained :
    (s : KeyholeState) (k : Key) (xs : List ℕ) (h : ℕ) (ys : List ℕ) (i : ℕ)
    → Chained s (Hash.hash_pa k.page) xs
    → mem xs i ≡ true
    → matches (entry s i) k ≡ true
    → Chained s h ys
    → Hash.hash_pa k.page ≢ h
    → ((j : ℕ) → mem ys j ≡ true → mem xs j ≡ false)
    → (s' : KeyholeState) × (r : ℕ) × (Hash.hash_table_remove_entry s k ≡ some s')
      × (matches (entry s r) k ≡ true)
      × (mem xs r ≡ true)
      × Chained s' (Hash.hash_pa k.page) (without r xs)
      × Chained s' h ys
unfolding Hash.hash_table_remove_entry
remove-Chained s k xs h ys i c m same d other apart =
    let (f, found, answers) = find_entry-Answers s k xs c in
    elim answers [
      | hit inside ok before ↦ (
        unlinked s (Hash.hash_pa k.page) f,
        f.ret_idx,
        rw (found, Hash.hash_table_remove_entry) refl,
        ok,
        inside,
        unlinked-Chained s (Hash.hash_pa k.page) f xs c inside before,
        unlinked-other s (Hash.hash_pa k.page) f xs h ys other inside before apart d,
      )
      | miss none_found all ↦ absurd (cc (all i m, same))
    ]
