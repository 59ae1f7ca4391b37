-- ===== src/Td/Examples.antt =====
-- A TD that runs, and a host that tracks it while another processor reads.
use tdx_module.Base.{ℕ, ◌≡◌, refl, arith, false, ◌==◌, if◌then◌else◌}
use tdx_module.Locks.Types.{no_lock}
use tdx_module.Locks.SharexHp.Holds.{Fits}
use tdx_module.Hpa.Examples.{global, page, page-Covered, one_reader}
use tdx_module.Pamt.State.{Mem, pt_tdr}
use tdx_module.Pamt.Walk.Holds.{Holding, Done}
use tdx_module.Pamt.Walk.Returns.{nothing_held}
use tdx_module.Td.Track.{Td, tdh_mem_track}
use tdx_module.Td.Released.{LeftAlone, tdh_mem_track-releases}

-- In the state RUNNABLE, with one reader at its operation state lock.
abbrev td : Td
td = record {
  tdr = record { fatal = false; num_tdcx = 6; lifecycle_state = 1 };
  op_state = 2;
  op_state_lock = 4;
  tracking = record { td_epoch = 5; refcount = λ p. 0; epoch_lock = 0 };
}

abbrev roots : Mem
roots p = record { entry_lock = if p == 0x1000 then 4 else 0; pt = pt_tdr; owner = 0; bepoch = 0 }

roots-Holding : Holding one_reader roots nothing_held
roots-Holding = λ p. ground arith

one_reader-Fits : Fits 4 1 0
one_reader-Fits = ground arith

tdh_mem_track-releases_example :
    Done one_reader roots
      (tdh_mem_track global td page)
      (λ r held. LeftAlone td 1 0 r × ((q : ℕ) → held q ≡ no_lock))
tdh_mem_track-releases_example =
    tdh_mem_track-releases one_reader roots global td page 1 0 (omega arith) refl page-Covered
      roots-Holding one_reader-Fits
