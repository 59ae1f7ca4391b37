-- ===== src/Td/Released.antt =====
-- The locks when TDH.MEM.TRACK returns.
use tdx_module.Base.{
  ℕ, ◌+◌, ◌-◌, ◌%◌, ◌^◌, ◌<◌, ◌≡◌, refl, sym, ◌⊎◌, ap, ◌∙◌, arith, true, false, leb, inl, inr,
  Bool-cases, ◌==◌, ◌!=◌,
}
use tdx_module.ErrorCodes.{
  ApiErrorCode, tdx_success, tdx_previous_tlb_epoch_busy, is_tdx_success, plain,
}
use tdx_module.Locks.Types.{LockType, no_lock, shared, reading}
use tdx_module.Locks.Sharing.{reads, writes}
use tdx_module.Locks.Alone.{run-Keeps}
use tdx_module.Locks.Sharex.{acquire_sharex_lock_ex, release_sharex_lock_ex}
use tdx_module.Locks.SharexHp as SharexHp
use tdx_module.Locks.SharexHp.Holds.{Fits, limit, release-Keeps}
use tdx_module.Hpa.{Global}
use tdx_module.Hpa.Lock as Lock
use tdx_module.Hpa.Lock.{LockedHpa}
use tdx_module.Hpa.Locked.{Covered, LockedPage, check_and_lock-LockedPage}
use tdx_module.Pamt.State.{Mem, PageSize, pt_tdr, pt_4kb}
use tdx_module.Pamt.Block.{pamt_get_block}
use tdx_module.Pamt.Walk.Holds.{Others, Holding, Done, pure-Done, bind-Done}
use tdx_module.Pamt.Walk.Returns.{nothing_held, path_held}
use tdx_module.Pamt.Walk.{entries_of}
use tdx_module.Pamt.Walk.Unwalks.{pamt_unwalk-releases}
use tdx_module.Tdmr.Config.{operand_id_rcx}
use tdx_module.Tlb as Tlb
use tdx_module.Td.{op_state_is_seamcall_allowed}
use tdx_module.Td.Checked.{IsBuilt, check_state-Admitted}
use tdx_module.Td.Track
use tdx_module.Td.Track.{Td, TrackResult, tdh_mem_track_leaf}

-- With the lock as it was, and a result wherever the epoch is below its last value.
record TrackedOk (e : Tlb.EpochTracking) : Type 0 where
  answer : Tlb.Answer
  returns : Tlb.tdh_mem_track e ≡ Tlb.ok answer
  lock : answer.tracking.epoch_lock ≡ e.epoch_lock
  epoch : answer.tracking.td_epoch ≡ e.td_epoch
  idle : is_tdx_success answer.code ≡ true → (e.refcount (1 - e.td_epoch % 2) == 0) ≡ true

abbrev released_with : ApiErrorCode → Tlb.EpochTracking → Tlb.Answer
released_with code e = record { code = plain code; tracking = record e { epoch_lock = 0 } }

track-TrackedOk : (e : Tlb.EpochTracking) → leb (2 ^ 63 - 1) e.td_epoch ≡ false → TrackedOk e
unfolding Tlb.tdh_mem_track Tlb.track_locked acquire_sharex_lock_ex release_sharex_lock_ex
track-TrackedOk e below = elim (Bool-cases (e.epoch_lock == 0)) [
  | inl free ↦ elim (Bool-cases (e.refcount (1 - e.td_epoch % 2) != 0)) [
    | inl busy ↦ record {
      answer = released_with tdx_previous_tlb_epoch_busy e;
      returns = rw (free, busy) refl;
      lock = ground (arith, free);
      epoch = refl;
      idle = λ x. cc (x);
    }
    | inr idle ↦ record {
      answer = released_with tdx_success e;
      returns = rw (free, idle, below) refl;
      lock = ground (arith, free);
      epoch = refl;
      idle = λ _. ground (arith, idle);
    }
  ]
  | inr held ↦ record {
    answer = Tlb.answer_busy e e.epoch_lock;
    returns = rw held refl;
    lock = refl;
    epoch = refl;
    idle = λ x. cc (x);
  }
]

-- What a call leaves: the operation state lock with the others only, the epoch and its lock as they were, and
-- success only for a TD that the leaf is allowed on and that has no VCPU from the epoch before.
pub record LeftAlone (t : Td) (readers writers : ℕ) (r : TrackResult) : Type 0 where
  pub op_state : Fits r.td.op_state_lock readers writers
  pub lock : r.td.tracking.epoch_lock ≡ t.tracking.epoch_lock
  pub epoch : r.td.tracking.td_epoch ≡ t.tracking.td_epoch
  pub success :
      is_tdx_success r.code ≡ true
      → IsBuilt t.tdr
        × (op_state_is_seamcall_allowed tdh_mem_track_leaf t.op_state false ≡ true)
        × ((t.tracking.refcount (1 - t.tracking.td_epoch % 2) == 0) ≡ true)

level_4kb : (size : PageSize) → (true ≡ false) ⊎ (pt_4kb ≡ size) → size ≡ pt_4kb
level_4kb size (inl e) = cc (e)
level_4kb size (inr e) = sym e

held_none :
    (word r x : ℕ) (h : LockType)
    → h ≡ no_lock
    → Fits word (r + reads h) (x + writes h)
    → Fits word r x
held_none word r x h e f =
    let readers : r + 0 ≡ r = omega arith in
    let writers : x + 0 ≡ x = omega arith in rw (e, readers, writers) at f

module _ (o : Others) (t : Td) (readers writers : ℕ) (few : readers < limit)
    (below : leb (2 ^ 63 - 1) t.tracking.td_epoch ≡ false) where
  -- The holds on the table are those from before.
  abbrev Keeping : (ℕ → LockType) → TrackResult → (ℕ → LockType) → Type 0
  Keeping hold r held = LeftAlone t readers writers r × ((q : ℕ) → held q ≡ hold q)

  abbrev NoLocks : TrackResult → (ℕ → LockType) → Type 0
  NoLocks r held = LeftAlone t readers writers r × ((q : ℕ) → held q ≡ no_lock)

  module _ (m : Mem) (hold : ℕ → LockType) (h : Holding o m hold) where
    released-Done :
        (w : ℕ)
        → Fits w (readers + 1) (writers + 0)
        → IsBuilt t.tdr
        → op_state_is_seamcall_allowed tdh_mem_track_leaf t.op_state false ≡ true
        → Done o m
            (Track.epoch_tracked (record t { op_state_lock = w }) (Tlb.tdh_mem_track t.tracking))
            (Keeping hold)
    unfolding Track.release_op_state SharexHp.release_sharex_lock_hp
    released-Done w fits built allowed =
        let ok = track-TrackedOk t.tracking below in
        let ran =
          run-Keeps limit Fits (SharexHp.release_sharex_lock_hp shared) (λ _ h. h ≡ no_lock) shared
            w readers writers (release-Keeps reading) few fits in
        rw (ok.returns, ran.ran)
          (pure-Done hold _ h (
            record {
              op_state = held_none ran.word readers writers ran.hold ran.holds ran.fits;
              lock = ok.lock;
              epoch = ok.epoch;
              success = λ good. (built, allowed, ok.idle good);
            },
            λ q. refl,
          ))

    tracked-Done : Fits t.op_state_lock readers writers → Done o m (Track.track_td t) (Keeping hold)
    unfolding Track.track_td Track.state_checked
    tracked-Done fits =
        let ran =
          check_state-Admitted t.tdr reading tdh_mem_track_leaf t.op_state t.op_state_lock readers
            writers few fits in
        elim (Bool-cases (is_tdx_success ran.result)) [
          | inl good ↦
              let (built, allowed, held) = ran.holds.success good in
              rw (ran.ran, good) (released-Done ran.word (rw held at ran.fits) built allowed)
          | inr bad ↦
              rw (ran.ran, bad)
                (pure-Done hold _ h (
                  record {
                    op_state =
                        held_none ran.word readers writers ran.hold (ran.holds.failure bad)
                          ran.fits;
                    lock = refl;
                    epoch = refl;
                    success = λ x. cc (x, bad);
                  },
                  λ q. refl,
                ))
        ]

  -- The root page is locked, and its level is that of a 4KB page.
  checked-Done :
      (m m' : Mem) (g : Global) (tdr_pa : ℕ) (r : LockedHpa) (hold : ℕ → LockType)
      → Covered (pamt_get_block g.tdmr_table g.hkid_mask tdr_pa) tdr_pa
      → Fits t.op_state_lock readers writers
      → Holding o m' hold
      → LockedPage m tdr_pa reading pt_tdr pt_4kb true g 4096 r hold
      → Done o m' (Track.tdr_checked g t tdr_pa r) NoLocks
  unfolding Track.tdr_checked Track.release_tdr
  checked-Done m m' g tdr_pa r hold c fits h l = elim (Bool-cases r.is_locked) [
    | inl locked ↦
        let (good, aligned, b, at, page) = l.success locked in
        let d = tracked-Done m' hold h fits in
        let level = level_4kb r.leaf_size page.of_level in
        let e =
          pamt_unwalk-releases o b tdr_pa (c.apart b at) reading pt_4kb d.mem d.held d.holding (λ q.
            d.holds.1 q
            ∙ page.path q
            ∙ ap (λ size. path_held (entries_of b tdr_pa) shared size q) level) in
        rw (good, at)
          (bind-Done _ d (bind-Done _ e (pure-Done e.held _ e.holding (d.holds.0, e.holds))))
    | inr unlocked ↦
        rw ((l.failure unlocked).0, unlocked)
          (pure-Done hold _ h (
            record {
              op_state = fits;
              lock = refl;
              epoch = refl;
              success = λ x. cc (x, (l.failure unlocked).0);
            },
            (l.failure unlocked).1,
          ))
  ]

-- A host calls TDH.MEM.TRACK, whatever the other processors hold on the table and at the operation state
-- lock, and whatever the epoch lock holds, if looking for the block of the root page passes its check, the
-- block's entries of the page stand at different addresses, and the epoch is below its last value. The call
-- returns, and whether it succeeds or where it is refused, this processor holds nothing on the table or at
-- the operation state lock then, the epoch lock is as it was, and so is the epoch. It succeeds only where
-- the TD is not in a fatal state, has its keys and its control structure, allows the leaf, and counts no
-- running VCPU at the epoch before.
pub tdh_mem_track-releases :
    (o : Others) (m : Mem) (g : Global) (t : Td) (tdr_pa readers writers : ℕ)
    → readers < limit
    → leb (2 ^ 63 - 1) t.tracking.td_epoch ≡ false
    → Covered (pamt_get_block g.tdmr_table g.hkid_mask tdr_pa) tdr_pa
    → Holding o m nothing_held
    → Fits t.op_state_lock readers writers
    → Done o m
        (Track.tdh_mem_track g t tdr_pa)
        (λ r held. LeftAlone t readers writers r × ((q : ℕ) → held q ≡ no_lock))
unfolding Track.tdh_mem_track Lock.check_and_lock_explicit_4k_private_hpa
tdh_mem_track-releases o m g t tdr_pa readers writers few below c h fits =
    let (d, same) =
      check_and_lock-LockedPage o m g tdr_pa operand_id_rcx 4096 12 refl reading pt_tdr pt_4kb true
        c h in
    bind-Done (Track.tdr_checked g t tdr_pa) d (
      checked-Done o t readers writers few below m d.mem g tdr_pa d.result d.held c fits d.holding
        d.holds)
