-- ===== src/Keyhole/Hash.antt =====
-- src/common/memory_handlers/keyhole_manager.c: the hash table of mapped and cached pages.
pub mod Chained
pub mod Changed
use tdx_module.Base.{
  ℕ, zero, suc, ◌-◌, ◌/◌, ◌%◌, ◌^◌, bit_xor, Bool, true, false, ◌&&◌, ◌==◌, if◌then◌else◌, Option,
  none, some,
}
use tdx_module.Keyhole.State.{
  KeyholeState, KeyholeEntry, undefined_idx, max_keyhole_per_lp, entry, set_hash_next, set_bucket,
}

-- PG_START and PG_OFFSET.
abbrev pub pg_start : ℕ → ℕ
pg_start a = a - a % 4096

abbrev pub pg_offset : ℕ → ℕ
pg_offset a = a % 4096

abbrev chunk : ℕ → ℕ → ℕ
chunk bits k = bits / 2 ^ k % 2 ^ 16

unfoldable pub hash_pa : ℕ → ℕ
hash_pa bits =
    bit_xor (bit_xor (bit_xor (chunk bits 0) (chunk bits 16)) (chunk bits 32)) (chunk bits 48)
    % max_keyhole_per_lp

abbrev pub same_bool : Bool → Bool → Bool
same_bool true b = b
same_bool false true = false
same_bool false false = true

-- What identifies a mapping: the page, the access and the memory type.
pub record Key : Type 0 where
  pub page : ℕ
  pub writable : Bool
  pub wb : Bool

abbrev pub matches : KeyholeEntry → Key → Bool
matches e k =
    (e.mapped_pa == k.page) && same_bool e.is_writable k.writable && same_bool e.is_wb_memtype k.wb

-- What a search returns: the entry found or UNDEFINED_IDX, and the entry before it.
pub record Found : Type 0 where
  pub ret_idx : ℕ
  pub prev_idx : ℕ

-- The `while` loop. A chain without a cycle has at most one link for each keyhole; `none` is a
-- loop that has not ended by then.
unfoldable pub find_from : ℕ → KeyholeState → Key → ℕ → ℕ → Option Found
find_from zero s k idx prev = none
find_from (suc fuel) s k idx prev =
    let rest = find_from fuel s k (entry s idx).hash_list_next idx in
    if idx == undefined_idx
    then some (record { ret_idx = undefined_idx; prev_idx = prev })
    else (if matches (entry s idx) k
        then some (record { ret_idx = idx; prev_idx = prev })
        else rest)

unfoldable pub hash_table_find_entry : KeyholeState → Key → Option Found
unfolding hash_pa find_from
hash_table_find_entry s k =
    find_from (suc max_keyhole_per_lp) s k (s.hash_table (hash_pa k.page)) undefined_idx

unfoldable pub hash_table_remove_entry : KeyholeState → Key → Option KeyholeState
unfolding hash_table_find_entry
hash_table_remove_entry s k = elim (hash_table_find_entry s k) [
  | none ↦ none
  | some f ↦
      let next = (entry s f.ret_idx).hash_list_next in
      let s1 : KeyholeState =
        if f.prev_idx == undefined_idx
        then set_bucket s (hash_pa k.page) next
        else set_hash_next s f.prev_idx next in
      some (set_hash_next s1 f.ret_idx undefined_idx)
]

unfoldable pub hash_table_insert_entry : KeyholeState → ℕ → ℕ → KeyholeState
unfolding hash_pa
hash_table_insert_entry s page i =
    let h = hash_pa page in set_bucket (set_hash_next s i (s.hash_table h)) h i
