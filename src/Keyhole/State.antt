-- ===== src/Keyhole/State.antt =====
-- src/common/data_structures/tdx_local_data.h, src/common/memory_handlers/keyhole_manager.h: the
-- keyhole state of a logical processor, its page table entries and its TLB invalidations.
use tdx_module.Base.{ℕ, ◌-◌, Bool, ◌==◌, if◌then◌else◌, List}

abbrev pub undefined_idx : ℕ
undefined_idx = 0xFFFF

abbrev pub max_keyhole_per_lp : ℕ
max_keyhole_per_lp = 128

abbrev pub max_static_keyholes : ℕ
max_static_keyholes = 34

abbrev pub max_cacheable_keyholes : ℕ
max_cacheable_keyholes = max_keyhole_per_lp - max_static_keyholes

-- KH_ENTRY_FREE, KH_ENTRY_MAPPED, KH_ENTRY_CAN_BE_REMOVED.
pub data EntryState : Type 0 where
  free mapped can_be_removed : EntryState

pub record KeyholeEntry : Type 0 where
  pub mapped_pa : ℕ
  pub lru_next : ℕ
  pub lru_prev : ℕ
  pub hash_list_next : ℕ
  pub state : EntryState
  pub is_writable : Bool
  pub is_wb_memtype : Bool
  pub ref_count : ℕ

-- The arrays are functions; the code asserts that every index is in range.
pub record KeyholeState : Type 0 where
  pub keyhole_array : ℕ → KeyholeEntry
  pub hash_table : ℕ → ℕ
  pub lru_head : ℕ
  pub lru_tail : ℕ
  pub total_ref_count : ℕ

-- The fields of `ia32e_pxe_t` that a keyhole's page table entry sets.
pub record Pte : Type 0 where
  pub addr : ℕ
  pub p : Bool
  pub a : Bool
  pub xd : Bool
  pub rw : Bool
  pub d : Bool
  pub pat : Bool
  pub pwt : Bool
  pub pcd : Bool

-- A logical processor: what the loader and the platform fixed, the keyhole state, the page table
-- entries of its keyholes, and the linear addresses invalidated in its TLB, the last one first.
pub record Lp : Type 0 where
  pub keyhole_rgn_base : ℕ
  pub lp_id : ℕ
  pub keyholes : KeyholeState
  pub ptes : ℕ → Pte
  pub invalidated : List ℕ

abbrev pub entry : KeyholeState → ℕ → KeyholeEntry
entry s i = s.keyhole_array i

abbrev pub put {ℓ} : {A : Type ℓ} → ℕ → A → (ℕ → A) → ℕ → A
put i a f j = if i == j then a else f j

abbrev pub set_entry : KeyholeState → ℕ → KeyholeEntry → KeyholeState
set_entry s i e = record s { keyhole_array = put i e s.keyhole_array }

abbrev pub set_prev : KeyholeState → ℕ → ℕ → KeyholeState
set_prev s i v = set_entry s i (record (entry s i) { lru_prev = v })

abbrev pub set_next : KeyholeState → ℕ → ℕ → KeyholeState
set_next s i v = set_entry s i (record (entry s i) { lru_next = v })

abbrev pub set_hash_next : KeyholeState → ℕ → ℕ → KeyholeState
set_hash_next s i v = set_entry s i (record (entry s i) { hash_list_next = v })

abbrev pub set_bucket : KeyholeState → ℕ → ℕ → KeyholeState
set_bucket s h v = record s { hash_table = put h v s.hash_table }
