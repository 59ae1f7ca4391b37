-- ===== src/Pamt/State.antt =====
-- src/common/memory_handlers/pamt_manager.h, src/common/data_structures/tdx_global_data.h: the
-- physical address metadata table. Entries stand in memory by their physical address; that the
-- code maps an address before it uses it is left to the keyhole manager.
use tdx_module.Base.{ℕ, ◌+◌, ◌*◌, Bool, true, false, List, ◌==◌, if◌then◌else◌}
use tdx_module.Locks.Atomic as Atomic
use tdx_module.Locks.Atomic.{Prog}

pub data PageType : Type 0 where
  pt_nda pt_rsvd pt_reg pt_tdr pt_tdcx pt_tdvpr pt_ept : PageType

pub data PageSize : Type 0 where
  pt_4kb pt_2mb pt_1gb : PageSize

-- `owner` is the number of the owner's page, as the field holds it.
pub record PamtEntry : Type 0 where
  pub entry_lock : ℕ
  pub pt : PageType
  pub owner : ℕ
  pub bepoch : ℕ

abbrev pub pamt_entry_size : ℕ
pamt_entry_size = 16

-- The physical addresses of the entries of one gigabyte.
pub record PamtBlock : Type 0 where
  pub pamt_1gb_p : ℕ
  pub pamt_2mb_p : ℕ
  pub pamt_4kb_p : ℕ

pub record RsvdArea : Type 0 where
  pub offset : ℕ
  pub size : ℕ

pub record TdmrEntry : Type 0 where
  pub base : ℕ
  pub size : ℕ
  pub last_initialized : ℕ
  pub pamt_1g_base : ℕ
  pub pamt_2m_base : ℕ
  pub pamt_4k_base : ℕ
  pub num_of_pamt_blocks : ℕ
  pub rsvd_areas : List RsvdArea
  pub lock : ℕ

abbrev pub Mem : Type 0
Mem = ℕ → PamtEntry

-- `halted id` is a failed sanity check, and `fatal` a FATAL_ERROR.
pub data Outcome {ℓ} (A : Type ℓ) : Type ℓ where
  ok : A → Mem → Outcome A
  halted : ℕ → Outcome A
  fatal : Outcome A

abbrev pub M : Type 0 → Type 0
M A = Mem → Outcome A

abbrev pub bind_outcome : {A B : Type 0} → Outcome A → (A → M B) → Outcome B
bind_outcome (ok a m) f = f a m
bind_outcome (halted id) f = halted id
bind_outcome fatal f = fatal

infixl 5 ◌>>=◌ ◌>>◌
abbrev pub ◌>>=◌ : {A B : Type 0} → M A → (A → M B) → M B
◌>>=◌ x f m = bind_outcome (x m) f

abbrev pub ◌>>◌ : {B : Type 0} → M (Unit {0}) → M B → M B
x >> k = x >>= λ _. k

abbrev pub pure : {A : Type 0} → A → M A
pure a m = ok a m

abbrev pub sanity_check : Bool → ℕ → M (Unit {0})
sanity_check true id m = ok tt m
sanity_check false id m = halted id

abbrev pub write : ℕ → PamtEntry → Mem → Mem
write p e m q = if p == q then e else m q

abbrev pub read_entry : ℕ → M PamtEntry
read_entry p m = ok (m p) m

abbrev pub write_entry : ℕ → PamtEntry → M (Unit {0})
write_entry p e m = ok tt (write p e m)

-- A lock function at the lock of the entry at `p`, with no other processor there.
abbrev pub lock_outcome : {A : Type 0} → ℕ → Mem → Atomic.Outcome A × ℕ → Outcome A
lock_outcome p m (Atomic.done a, w) = ok a (write p (record (m p) { entry_lock = w }) m)
lock_outcome p m (Atomic.halted id, w) = halted id

abbrev pub at_lock : {A : Type 0} → ℕ → Prog A → M A
at_lock p prog m = lock_outcome p m (Atomic.run prog (m p).entry_lock)

-- Indexing an array of entries.
abbrev pub elem : ℕ → ℕ → ℕ
elem p i = p + i * pamt_entry_size
