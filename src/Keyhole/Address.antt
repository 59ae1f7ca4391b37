-- ===== src/Keyhole/Address.antt =====
-- Linear addresses of keyholes.
use tdx_module.Base.{ℕ, ◌+◌, ◌*◌, ◌%◌, ◌^◌, ◌≤◌, ◌<◌, ◌≡◌, bit_or, arith}
use tdx_module.Base.Bits.{or_page}
use tdx_module.Keyhole.State.{Lp}
use tdx_module.Keyhole.Hash.{pg_offset}
use tdx_module.Keyhole.Manager.{la_from_keyhole_idx, keyhole_idx_from_la}

-- The keyhole region is aligned to pages, and its end does not wrap.
pub record RegionFits (l : Lp) : Type 0 where
  pub aligned : l.keyhole_rgn_base % 4096 ≡ 0
  pub below : l.keyhole_rgn_base + (l.lp_id * 128 + 128) * 4096 ≤ 2 ^ 64
  pub lps : l.lp_id * 128 + 128 < 2 ^ 32

-- The keyhole of an address inside a mapped page is the one that the page was mapped through.
pub idx_from-la_from :
    (l : Lp) (i pa : ℕ)
    → RegionFits l
    → i < 128
    → keyhole_idx_from_la l (bit_or (la_from_keyhole_idx l i) (pg_offset pa)) ≡ i
unfolding la_from_keyhole_idx keyhole_idx_from_la
idx_from-la_from l i pa f h =
    omega (arith, or_page (la_from_keyhole_idx l i) (pg_offset pa) (omega arith) (omega arith))
