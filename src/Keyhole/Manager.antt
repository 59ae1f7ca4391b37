-- ===== src/Keyhole/Manager.antt =====
-- src/common/memory_handlers/keyhole_manager.c: mapping and freeing pages of a logical processor.
use tdx_module.Base.{
  ℕ, zero, suc, ◌+◌, ◌-◌, ◌*◌, ◌/◌, ◌%◌, ◌^◌, bit_or, Bool, true, false, not, ◌&&◌, ◌||◌, ◌==◌,
  ◌!=◌, ltb, leb, if◌then◌else◌, Option, none, some, List, [], ◌∷◌,
}
use tdx_module.Keyhole.State.{
  KeyholeState, KeyholeEntry, EntryState, free, mapped, can_be_removed, Lp, undefined_idx,
  max_keyhole_per_lp, max_cacheable_keyholes, entry, put, set_entry,
}
use tdx_module.Keyhole.Lru.{lru_cache_remove_entry, lru_cache_add_head_entry}
use tdx_module.Keyhole.Hash.{
  pg_start, pg_offset, hash_table_find_entry, hash_table_remove_entry, hash_table_insert_entry,
  same_bool,
}

-- `halted id` is a failed sanity check, and `stuck` a search that does not end.
pub data Outcome {ℓ} (A : Type ℓ) : Type ℓ where
  ok : A → Outcome A
  halted : ℕ → Outcome A
  stuck : Outcome A

infixl 5 ◌>>=◌ ◌>>◌
abbrev pub ◌>>=◌ {ℓ κ} : {A : Type ℓ} {B : Type κ} → Outcome A → (A → Outcome B) → Outcome B
ok a >>= f = f a
halted id >>= f = halted id
stuck >>= f = stuck

abbrev pub ◌>>◌ {ℓ} : {B : Type ℓ} → Outcome (Unit {0}) → Outcome B → Outcome B
m >> k = m >>= λ _. k

abbrev pub sanity_check : Bool → ℕ → Outcome (Unit {0})
sanity_check true id = ok tt
sanity_check false id = halted id

abbrev pub ended {ℓ} : {A : Type ℓ} → Option A → Outcome A
ended (some a) = ok a
ended none = stuck

unfoldable pub la_from_keyhole_idx : Lp → ℕ → ℕ
la_from_keyhole_idx l i =
    (l.keyhole_rgn_base + (l.lp_id * max_keyhole_per_lp + i) * 0x1000) % 2 ^ 64

-- Both subtractions are of 64 bits, and the cast keeps 16.
unfoldable pub keyhole_idx_from_la : Lp → ℕ → ℕ
keyhole_idx_from_la l la =
    ((la + 2 ^ 64 - l.keyhole_rgn_base) % 2 ^ 64 / 0x1000
      + 2 ^ 64
      - l.lp_id * max_keyhole_per_lp % 2 ^ 32)
    % 2 ^ 64
    % 2 ^ 16

unfoldable pub fill_keyhole_pte : Lp → ℕ → ℕ → Bool → Bool → Lp
fill_keyhole_pte l i pa is_writable is_wb_memtype = record l {
  ptes =
      put i
        (record {
          addr = pa / 2 ^ 12 % 2 ^ 40;
          p = true;
          a = true;
          xd = true;
          rw = is_writable;
          d = is_writable;
          pat = not is_wb_memtype;
          pwt = not is_wb_memtype;
          pcd = not is_wb_memtype;
        })
        l.ptes;
}

abbrev pub with_keyholes : Lp → KeyholeState → Lp
with_keyholes l s = record l { keyholes = s }

-- TDX_RANGE_RO and TDX_RANGE_RW.
pub data MappingType : Type 0 where
  range_ro range_rw : MappingType

abbrev pub is_rw : MappingType → Bool
is_rw range_rw = true
is_rw range_ro = false

abbrev pub is_removable : EntryState → Bool
is_removable can_be_removed = true
is_removable _ = false

abbrev pub is_mapped : EntryState → Bool
is_mapped mapped = true
is_mapped _ = false

abbrev pub u64 : ℕ → ℕ
u64 n = n % 2 ^ 64

-- The page is mapped or cached at `i`: take one more reference.
unfoldable pub map_hit : Lp → ℕ → ℕ → Outcome (ℕ × Lp)
unfolding lru_cache_remove_entry
map_hit l pa i = do
  let s = l.keyholes
  let s1 : KeyholeState =
      if is_removable (entry s i).state
      then (let t = lru_cache_remove_entry s i in
          set_entry t i (record (entry t i) { state = mapped }))
      else s
  let count = u64 ((entry s1 i).ref_count + 1)
  sanity_check (count != 0) 1
  ok (
    bit_or (la_from_keyhole_idx l i) (pg_offset pa),
    with_keyholes l (set_entry s1 i (record (entry s1 i) { ref_count = count })),
  )

-- The page is mapped nowhere: reuse the entry at the tail of the list.
unfoldable pub map_miss : Lp → ℕ → Bool → Bool → Outcome (ℕ × Lp)
unfolding lru_cache_remove_entry hash_table_remove_entry hash_table_insert_entry fill_keyhole_pte
map_miss l pa is_writable is_wb_memtype = do
  let s = l.keyholes
  let i = s.lru_tail
  sanity_check (i != undefined_idx) 2
  let la = bit_or (la_from_keyhole_idx l i) (pg_offset pa)
  let s1 = lru_cache_remove_entry s i
  let target = entry s1 i
  let flush = is_removable target.state
  s2 ←
      if flush
      then ended (
          hash_table_remove_entry s1 (record {
            page = pg_start target.mapped_pa;
            writable = target.is_writable;
            wb = target.is_wb_memtype;
          }))
      else ok s1
  let s3 = set_entry s2 i (record (entry s2 i) {
    state = mapped;
    mapped_pa = pg_start pa;
    is_writable = is_writable;
    is_wb_memtype = is_wb_memtype;
    ref_count = 1;
  })
  let s4 = hash_table_insert_entry s3 (pg_start pa) i
  let l' = fill_keyhole_pte (with_keyholes l s4) i pa is_writable is_wb_memtype
  ok (la, if flush then record l' { invalidated = la ∷ l'.invalidated } else l')

unfoldable pub map_pa_with_memtype : Lp → ℕ → MappingType → Bool → Outcome (ℕ × Lp)
unfolding hash_table_find_entry map_hit map_miss
map_pa_with_memtype l pa mapping_type is_wb_memtype = do
  let is_writable = is_rw mapping_type
  found ← ended (
      hash_table_find_entry l.keyholes
        (record { page = pg_start pa; writable = is_writable; wb = is_wb_memtype }))
  let total = u64 (l.keyholes.total_ref_count + 1)
  let l1 = with_keyholes l (record (l.keyholes) { total_ref_count = total })
  sanity_check (total != 0) 0
  if found.ret_idx != undefined_idx
      then map_hit l1 pa found.ret_idx
      else map_miss l1 pa is_writable is_wb_memtype

unfoldable pub map_pa : Lp → ℕ → MappingType → Outcome (ℕ × Lp)
unfolding map_pa_with_memtype
map_pa l pa mapping_type = map_pa_with_memtype l pa mapping_type true

unfoldable pub map_pa_non_wb : Lp → ℕ → MappingType → Outcome (ℕ × Lp)
unfolding map_pa_with_memtype
map_pa_non_wb l pa mapping_type = map_pa_with_memtype l pa mapping_type false

-- After the checks: give one reference back, and let an unused entry be reused last.
unfoldable pub drop_reference : KeyholeState → ℕ → KeyholeState
unfolding lru_cache_add_head_entry
drop_reference s i =
    let s1 = record s { total_ref_count = s.total_ref_count - 1 } in
    let s2 = set_entry s1 i (record (entry s1 i) { ref_count = (entry s1 i).ref_count - 1 }) in
    if (entry s2 i).ref_count == 0
    then lru_cache_add_head_entry (set_entry s2 i (record (entry s2 i) { state = can_be_removed }))
        i
    else s2

unfoldable pub free_la : Lp → ℕ → Outcome Lp
unfolding keyhole_idx_from_la drop_reference
free_la l la = do
  let s = l.keyholes
  let i = keyhole_idx_from_la l la
  sanity_check (is_mapped (entry s i).state) 3
  if leb max_cacheable_keyholes i then ok l else (do
    sanity_check (ltb 0 s.total_ref_count && ltb 0 (entry s i).ref_count) 4
    ok (with_keyholes l (drop_reference s i)))

-- One round of the loop of `map_continuous_pages`, at a static keyhole.
unfoldable pub map_static : Lp → ℕ → ℕ → Bool → Lp
unfolding fill_keyhole_pte la_from_keyhole_idx
map_static l pa i is_writable =
    let e = entry l.keyholes i in
    let flush =
      is_mapped e.state && ((e.mapped_pa != pa) || not (same_bool e.is_writable is_writable)) in
    let l1 : Lp =
      if flush || not (is_mapped e.state)
      then fill_keyhole_pte
          (with_keyholes l (
            set_entry l.keyholes i (record e {
              state = mapped;
              mapped_pa = pa;
              is_writable = is_writable;
              is_wb_memtype = true;
            })))
          i pa is_writable true
      else l in
    if flush then record l1 { invalidated = la_from_keyhole_idx l1 i ∷ l1.invalidated } else l1

unfoldable pub map_pages_from : Lp → List ℕ → ℕ → Bool → Lp
unfolding map_static
map_pages_from l [] i is_writable = l
map_pages_from l (pa ∷ pas) i is_writable =
    map_pages_from (map_static l (pg_start pa) i is_writable) pas (i + 1) is_writable

unfoldable pub map_continuous_pages : Lp → List ℕ → MappingType → ℕ → ℕ × Lp
unfolding map_pages_from la_from_keyhole_idx
map_continuous_pages l pa_array mapping_type starting_static_keyhole =
    let first = max_cacheable_keyholes + starting_static_keyhole in
    let l' = map_pages_from l pa_array first (is_rw mapping_type) in
    (la_from_keyhole_idx l' first, l')

-- The entry that the loop of `init_keyhole_state` writes at `i`; what it leaves alone is kept.
abbrev pub initial_entry : KeyholeEntry → ℕ → KeyholeEntry
initial_entry e i = record e {
  state = free;
  lru_prev = (i + 2 ^ 16 - 1) % 2 ^ 16;
  lru_next = i + 1;
  hash_list_next = undefined_idx;
  mapped_pa = 0;
  is_writable = false;
  ref_count = 0;
}

abbrev pub init_loop : ℕ → KeyholeState → KeyholeState
init_loop zero s = s
init_loop (suc i) s =
    let t = init_loop i s in
    record t {
      keyhole_array = put i (initial_entry (t.keyhole_array i) i) t.keyhole_array;
      hash_table = put i undefined_idx t.hash_table;
    }

unfoldable pub init_keyhole_state : KeyholeState → KeyholeState
init_keyhole_state s =
    let s1 = init_loop max_keyhole_per_lp s in
    let s2 = set_entry s1 0 (record (entry s1 0) { lru_prev = undefined_idx }) in
    let last = max_cacheable_keyholes - 1 in
    let s3 = set_entry s2 last (record (entry s2 last) { lru_next = undefined_idx }) in
    record s3 { lru_head = last; lru_tail = 0; total_ref_count = 0 }
