-- ===== src/Keyhole/Exhausted.antt =====
-- A page freed while every cacheable keyhole is in use.
use tdx_module.Base.{ℕ, ◌<◌, ◌≡◌, Bool, [], arith}
use tdx_module.Keyhole.State.{Lp, mapped, can_be_removed, entry}
use tdx_module.Keyhole.Lru
use tdx_module.Keyhole.Lru.Linked.{Linked}
use tdx_module.Keyhole.Manager
use tdx_module.Keyhole.Manager.{ok, halted}

-- Suppose that the reuse list is empty, since every cacheable keyhole is mapped, and that the last
-- reference to one of them is freed. The free succeeds and marks the keyhole as reusable; yet
-- mapping any page that is not mapped then fails the check that a keyhole is left.
pub free_then_map_halts :
    (l : Lp) (la pa : ℕ) (w wb : Bool)
    → Linked l.keyholes []
    → Manager.keyhole_idx_from_la l la < 94
    → (entry l.keyholes (Manager.keyhole_idx_from_la l la)).state ≡ mapped
    → (entry l.keyholes (Manager.keyhole_idx_from_la l la)).ref_count ≡ 1
    → 0 < l.keyholes.total_ref_count
    → (l' : Lp) × (Manager.free_la l la ≡ ok l')
      × ((entry l'.keyholes (Manager.keyhole_idx_from_la l la)).state ≡ can_be_removed)
      × (Manager.map_miss l' pa w wb ≡ halted 2)
unfolding Manager.free_la Manager.map_miss Lru.lru_cache_add_head_entry
free_then_map_halts l la pa w wb empty small used once some_left = (
  Manager.with_keyholes l (Manager.drop_reference l.keyholes (Manager.keyhole_idx_from_la l la)),
  ground arith,
  ground (arith, empty.head),
  ground (arith, empty.tail, empty.head),
)
