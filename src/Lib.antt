-- ===== src/Lib.antt =====
-- The Intel TDX module (C): locks, keyholes, physical page metadata, the configuration of its regions, TLB
-- tracking and secure EPT entries.
--
-- The module runs in SEAM mode on every logical processor. The host (SEAMCALL leaves under
-- src/vmm_dispatcher) and the guests (TDCALL leaves under src/td_dispatcher) enter it concurrently.
-- What the processors share is guarded by the try-locks of src/common/helpers/tdx_locks.h; each
-- processor maps the pages that it needs through its own keyholes
-- (src/common/memory_handlers/keyhole_manager.c); and the state of every physical page stands in
-- the physical address metadata table (src/common/memory_handlers/pamt_manager.c), whose entries
-- carry host-priority locks.
--
-- Base: the names that the other modules share; bits of words, aligned addresses, families indexed by a
-- processor, and lists read as rings. ErrorCodes: the status that a leaf returns (tdx_api_defs.h,
-- tdx_error_codes_defs.h), as a record of its class and details.
--
-- The sources carry several variants under preprocessor switches. Where they differ, the one under SOURCE,
-- the module itself, is modelled.
--
-- Locks: src/common/helpers/tdx_locks.h.
--   Atomic: a lock function is a tree of atomic instructions (src/common/accessors/ia32_accessors.h)
--     with its branches and sanity checks; Types: lock_type_t and lock_return_t.
--   Mutex, Sharex, SharexHp, Sept: the acquire, release, promote and demote functions, one
--     definition for each function of the source. A word of 16 bits wraps.
--   System: the processors that share one word; a step is one atomic instruction of one of them.
--   Sharing: a proof rule for one program among others; Safety: what the rule gives for a system;
--   Alone: what it gives for a run without interference.
--   The children of Sharex, SharexHp and Sept: the calls that their users make, the proof that
--   each keeps the rule, and the theorems.
--   The bounds on the number of processors are those at which the readers' counters overflow.
--
-- Keyhole: src/common/memory_handlers/keyhole_manager.c, with the state of
-- src/common/data_structures/tdx_local_data.h.
--   State, Lru, Hash, Manager: the state and every function of the file. The arrays are functions of
--     the index, and a page table entry is a record of the fields that are set.
--   The search of a bucket runs on fuel, one round for each keyhole and one more, which is enough for
--     every bucket without a cycle.
--
-- Pamt: src/common/memory_handlers/pamt_manager.c.
--   State, Block, Walk, Resize, Implicit, Reserved, Init: the table is a function from addresses to entries; a
--     failed sanity check and a fatal error are results. An entry is used at its physical address:
--     mapping it is the keyhole manager's part and is left out. The lock functions are run at the
--     lock word of an entry; Walk.Holds sets them beside what other processors hold, and Walk.Stable and
--     Same are about the types of pages, and Walk.Leaf is about the entry that a walk stops at.
--
-- Hpa: the checks of a physical address that a leaf is given, src/common/helpers/helpers.c and helpers.h.
--   Hpa: the tests of an address and its HKID; Lock: the walk to the page's entry, the test of its type, and
--     the unlock where it is refused; Addressed: what the check of
--     an address gives; Locked, Free: the theorems, beside what other processors hold.
--
-- Tdmr: src/vmm_dispatcher/api_calls/tdh_sys_config.c and tdh_sys_tdmr_init.c.
--   Tdmr, Areas, Pamts, Config: the checks of a region's description, of its reserved areas, its three metadata
--     tables and its available areas, and the loop over the regions; arithmetic wraps at 64 bits. What the
--     host has put at an address is a function of the address.
--   Passed, Placed, Sorted, Available, Convertible, Disjoint, Clear: what a configuration that passes gives.
--   Init: one call initializes 4MB of a region's metadata; its children follow the host's loop of calls, whose
--     length is the region's size by 4MB.
--
-- Tlb: the association of VCPUs and the TLB epochs, src/common/helpers/helpers.c and helpers.h, and the sections
-- of src/vmm_dispatcher/api_calls/tdh_mem_track.c, tdh_vp_flush.c,
-- src/vmm_dispatcher/migration_api_calls/tdh_export_pause.c, src/td_transitions/tdh_vp_enter.c and td_exit.c on
-- the same state.
--   System: a TD's VCPUs on their processors; a step is one of the sections, run as a whole: the epoch lock
--     excludes the others that it could meet. Each processor has a TLB, the earliest epoch of a translation
--     that it has cached for each VM, and the code's note of the VCPU that it ran last. A flush empties the TLB
--     for the VMs that the code lists and for no others; a running VCPU's processor caches translations at
--     any time. A VCPU's number stands for the address of its root page.
--   Operations, Counts, Entry, Counted: what each section does to the counts; Cached, Flushes, Steps: what each
--     leaves in the TLBs, when a processor does one thing at a time; Tracked, Stuck: the theorems. The
--     number of VCPUs is bounded at what the 16-bit counters hold, and the number of steps at 2^63, below
--     which the epoch cannot wrap.
--
-- Td: the check of a TD's state at the head of a leaf, src/common/helpers/helpers.c and helpers.h, with the table
-- of include/auto_gen/op_state_lookup.c, and the whole of src/vmm_dispatcher/api_calls/tdh_mem_track.c.
--   Td: the check as a program over the operation state lock; OpState: the table; Checked: what the caller has
--     when it returns; Track: the leaf, made of the check of its root page (Hpa), this check and the section on
--     the epoch (Tlb); Released: the locks when it returns.
--
-- Sept: src/common/memory_handlers/sept_manager.h and sept_manager.c, with the functions that block an
-- entry from src/vmm_dispatcher/api_calls/tdh_mem_range_block.c and the generated table of
-- include/auto_gen/sept_state_lookup.c.
--   Entry: the 64-bit entry as the record of its bits; a mask is the set of fields that it covers.
--   Flags, State, Block, Arch: an L1 entry's queries, setters, block, and what the host is told;
--   L2, ArchL2: the entries of an L2 VM, and what the host is told of them.
--
-- Locks.Sharing and Locks.Safety show interleavings for one word; the table's theorems run one
-- processor's functions with the holds of the others fixed.
--
-- Not modelled: the guards of tdh_sys_config around its loop over the regions, the walks of the
-- secure EPT (src/common/memory_handlers/sept_manager.c), the other API leaves, migration, metadata fields and the rest of the transitions into and out of guests; and
-- cryptography, tracing, the assembly entry points and the other generated tables.
pub mod Base
pub mod ErrorCodes
pub mod Hpa
pub mod Tdmr
pub mod Tlb
pub mod Td
pub mod Locks
pub mod Keyhole
pub mod Pamt
pub mod Sept
