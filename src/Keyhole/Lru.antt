-- ===== src/Keyhole/Lru.antt =====
-- src/common/memory_handlers/keyhole_manager.c: the list of keyholes that may be reused.
pub mod Linked
pub mod Added
use tdx_module.Base.{ℕ, Bool, ◌==◌, ◌!=◌, if◌then◌else◌}
use tdx_module.Keyhole.State.{KeyholeState, undefined_idx, entry, set_prev, set_next}

abbrev pub when {ℓ} : {A : Type ℓ} → Bool → (A → A) → A → A
when b f x = if b then f x else x

unfoldable pub lru_cache_remove_entry : KeyholeState → ℕ → KeyholeState
lru_cache_remove_entry s i =
    let prev = (entry s i).lru_prev in
    let next = (entry s i).lru_next in
    let s1 = when (s.lru_head == i) (λ t. record t { lru_head = prev }) s in
    let s2 = when (s1.lru_tail == i) (λ t. record t { lru_tail = next }) s1 in
    let s3 = when (prev != undefined_idx) (λ t. set_next t prev next) s2 in
    when (next != undefined_idx) (λ t. set_prev t next prev) s3

unfoldable pub lru_cache_add_head_entry : KeyholeState → ℕ → KeyholeState
lru_cache_add_head_entry s i =
    let prev = s.lru_head in
    let s1 : KeyholeState =
      if prev == undefined_idx then record s { lru_head = i } else set_next s prev i in
    let s2 = set_next (set_prev s1 i prev) i undefined_idx in record s2 { lru_head = i }
