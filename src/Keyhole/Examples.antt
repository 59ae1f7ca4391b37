-- ===== src/Keyhole/Examples.antt =====
-- The theorems on keyholes at concrete states.
use tdx_module.Base.{ℕ, ◌≡◌, ◌≢◌, refl, true, false, [], ◌∷◌, some, arith, ◌==◌, if◌then◌else◌}
use tdx_module.Keyhole.State.{
  KeyholeState, KeyholeEntry, Lp, undefined_idx, mapped, can_be_removed, entry,
}
use tdx_module.Keyhole.Lru.{lru_cache_remove_entry, lru_cache_add_head_entry}
use tdx_module.Keyhole.Lru.Linked.{Linked, remove-Linked}
use tdx_module.Keyhole.Lru.Added.{add_head-Linked, add_head_to_empty}
use tdx_module.Keyhole.Hash.{
  Key, Found, hash_table_find_entry, hash_pa, hash_table_insert_entry, hash_table_remove_entry,
  matches,
}
use tdx_module.Keyhole.Hash.Changed.{insert-Chained, remove-Chained}
use tdx_module.Base.Ring.{mem, without}
use tdx_module.Keyhole.Hash.Chained.{Chained, Answers, find_entry-Answers}
use tdx_module.Keyhole.Manager as Manager
use tdx_module.Keyhole.Manager.{la_from_keyhole_idx, keyhole_idx_from_la}
use tdx_module.Keyhole.Address.{RegionFits}
use tdx_module.Keyhole.Exhausted.{free_then_map_halts}

-- Entry 3 leads to entry 5, in the reuse list and in every bucket.
abbrev two_entries : ℕ → KeyholeEntry
two_entries j = record {
  mapped_pa = if j == 3 then 0x1000 else 0x2000;
  lru_next = if j == 3 then 5 else undefined_idx;
  lru_prev = if j == 5 then 3 else undefined_idx;
  hash_list_next = if j == 3 then 5 else undefined_idx;
  state = mapped;
  is_writable = true;
  is_wb_memtype = true;
  ref_count = 1;
}

abbrev two : KeyholeState
two = record {
  keyhole_array = two_entries;
  hash_table = λ h. 3;
  lru_head = 5;
  lru_tail = 3;
  total_ref_count = 2;
}

two-Linked : Linked two (3 ∷ 5 ∷ [])
two-Linked = record {
  distinct = ground arith;
  tail = refl;
  head = refl;
  nexts = λ j k. ground arith;
  prevs = λ j k. ground arith;
}

remove-Linked_example : Linked (lru_cache_remove_entry two 3) (5 ∷ [])
remove-Linked_example = remove-Linked two (3 ∷ 5 ∷ []) 3 two-Linked refl

add_head-Linked_example : Linked (lru_cache_add_head_entry two 7) (3 ∷ 5 ∷ 7 ∷ [])
add_head-Linked_example = add_head-Linked two 3 (5 ∷ []) 7 two-Linked refl (omega arith)

abbrev none_left : KeyholeState
none_left = record two { lru_head = undefined_idx; lru_tail = undefined_idx }

none_left-Linked : Linked none_left []
none_left-Linked = record {
  distinct = ground arith;
  tail = refl;
  head = refl;
  nexts = λ j k. ground arith;
  prevs = λ j k. ground arith;
}

add_head_to_empty_example : ¬ Linked (lru_cache_add_head_entry none_left 7) (7 ∷ [])
add_head_to_empty_example = add_head_to_empty none_left 7 (7 ∷ []) none_left-Linked (omega arith)

abbrev second_page : Key
second_page = record { page = 0x2000; writable = true; wb = true }

two-Chained : Chained two (hash_pa 0x2000) (3 ∷ 5 ∷ [])
two-Chained = record {
  distinct = ground arith;
  in_range = λ j k. ground arith;
  bucket = refl;
  links = λ j k. ground arith;
}

find_entry-Answers_example :
    (f : Found) × (hash_table_find_entry two second_page ≡ some f)
    × Answers two second_page undefined_idx (3 ∷ 5 ∷ []) f
find_entry-Answers_example = find_entry-Answers two second_page (3 ∷ 5 ∷ []) two-Chained

second_page_found :
    hash_table_find_entry two second_page ≡ some (record { ret_idx = 5; prev_idx = 3 })
unfolding hash_table_find_entry
second_page_found = refl

abbrev lp : Lp
lp = record {
  keyhole_rgn_base = 0x100000;
  lp_id = 1;
  keyholes = none_left;
  ptes = λ i. record {
    addr = 0;
    p = false;
    a = false;
    xd = false;
    rw = false;
    d = false;
    pat = false;
    pwt = false;
    pcd = false;
  };
  invalidated = [];
}

lp-RegionFits : RegionFits lp
lp-RegionFits = record { aligned = refl; below = omega arith; lps = omega arith }

abbrev la : ℕ
la = 0x185010

la_idx : keyhole_idx_from_la lp la ≡ 5
unfolding keyhole_idx_from_la
la_idx = refl

free_then_map_halts_example :
    (l' : Lp) × (Manager.free_la lp la ≡ Manager.ok l')
    × ((entry l'.keyholes (keyhole_idx_from_la lp la)).state ≡ can_be_removed)
    × (Manager.map_miss l' 0x9000 true true ≡ Manager.halted 2)
free_then_map_halts_example =
    free_then_map_halts lp la 0x9000 true true none_left-Linked (rw la_idx (omega arith)) refl refl
      (omega arith)

-- Both entries stand in bucket 0, and the other buckets are empty.
abbrev one_bucket : KeyholeState
one_bucket = record two { hash_table = λ h. if h == 0 then 3 else undefined_idx }

bucket_0 : hash_pa 0x2000 ≡ 0
unfolding hash_pa
bucket_0 = refl

bucket_3 : hash_pa 0x30000 ≡ 3
unfolding hash_pa
bucket_3 = refl

full-Chained : (h : ℕ) → h ≡ 0 → Chained one_bucket h (3 ∷ 5 ∷ [])
full-Chained h e = record {
  distinct = ground arith;
  in_range = λ j k. ground arith;
  bucket = ground arith;
  links = λ j k. ground arith;
}

empty-Chained : (h : ℕ) → h ≢ 0 → Chained one_bucket h []
empty-Chained h e = record {
  distinct = ground arith;
  in_range = λ j k. ground arith;
  bucket = ground arith;
  links = λ j k. ground arith;
}

insert-Chained_example :
    Chained (hash_table_insert_entry one_bucket 0x30000 7) (hash_pa 0x30000) (7 ∷ [])
    × Chained (hash_table_insert_entry one_bucket 0x30000 7) 0 (3 ∷ 5 ∷ [])
insert-Chained_example =
    insert-Chained one_bucket 0x30000 7 0 [] (3 ∷ 5 ∷ [])
      (empty-Chained (hash_pa 0x30000) (omega (arith, bucket_3))) refl (omega arith)
      (full-Chained 0 refl) refl (omega (arith, bucket_3))

remove-Chained_example :
    (s' : KeyholeState) × (r : ℕ) × (hash_table_remove_entry one_bucket second_page ≡ some s')
    × (matches (entry one_bucket r) second_page ≡ true)
    × (mem (3 ∷ 5 ∷ []) r ≡ true)
    × Chained s' (hash_pa 0x2000) (without r (3 ∷ 5 ∷ []))
    × Chained s' 3 []
remove-Chained_example =
    remove-Chained one_bucket second_page (3 ∷ 5 ∷ []) 3 [] 5
      (full-Chained (hash_pa 0x2000) bucket_0) refl refl (empty-Chained 3 (omega arith))
      (omega (arith, bucket_0)) (λ j k. ground arith)
