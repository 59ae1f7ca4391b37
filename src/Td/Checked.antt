-- ===== src/Td/Checked.antt =====
-- What the caller has when the check of a TD's state returns, with other processors at the lock all along.
use tdx_module.Base.{
  ℕ, ◌+◌, ◌<◌, ◌≡◌, refl, ◌∙◌, arith, Bool, true, false, Bool-cases, inl, inr, some, ltb,
}
use tdx_module.ErrorCodes.{ApiErrorCode, ApiErrorType, is_success, is_tdx_success}
use tdx_module.Locks.Types.{LockType, no_lock, Mode, reading, writing, type_of}
use tdx_module.Locks.Sharing.{Keeps, bind-Keeps}
use tdx_module.Locks.Alone.{Ran, run-Keeps}
use tdx_module.Locks.SharexHp as SharexHp
use tdx_module.Locks.SharexHp.Protocol.{after, acquire}
use tdx_module.Locks.SharexHp.Holds.{Fits, limit, acquire-Keeps, release-Keeps}
use tdx_module.Td
use tdx_module.Td.{Tdr, td_keys_configured, min_num_tdcs_pages}

-- The TD has its keys and its control structure.
pub record IsBuilt (t : Tdr) : Type 0 where
  pub alive : t.fatal ≡ false
  pub keys : t.lifecycle_state ≡ td_keys_configured
  pub pages : ltb t.num_tdcx min_num_tdcs_pages ≡ false

-- The answer of the check, and what the caller holds at the operation state lock then.
pub record Admitted (t : Tdr) (m : Mode) (leaf op_state : ℕ) (r : ApiErrorType) (hold : LockType)
    : Type 0 where
  pub success :
      is_tdx_success r ≡ true
      → IsBuilt t
        × (Td.op_state_is_seamcall_allowed leaf op_state false ≡ true)
        × (hold ≡ type_of m)
  pub failure : is_tdx_success r ≡ false → hold ≡ no_lock

build_state-IsBuilt :
    (t : Tdr) → is_tdx_success (Td.check_td_in_correct_build_state t) ≡ true → IsBuilt t
unfolding Td.check_td_in_correct_build_state
build_state-IsBuilt t h = record {
  alive = ground (arith, h);
  keys = ground (arith, h);
  pages = ground (arith, h);
}

locks : (m : Mode) → Td.is_no_lock (type_of m) ≡ false
locks reading = refl
locks writing = refl

after_success :
    (m : Mode) (code : ApiErrorCode) → is_success code ≡ true → after (acquire m) code ≡ type_of m
after_success m code h = ground (arith, h)

after_failure :
    (m : Mode) (code : ApiErrorCode) → is_success code ≡ false → after (acquire m) code ≡ no_lock
after_failure m code h = ground (arith, h)

module _ (t : Tdr) (m : Mode) (leaf op_state : ℕ) where
  abbrev allowed : Bool
  allowed = Td.op_state_is_seamcall_allowed leaf op_state false

  abbrev Post : ApiErrorType → LockType → Type 0
  Post = Admitted t m leaf op_state

  allowed-Keeps :
      IsBuilt t → Keeps limit Fits (Td.when_allowed (type_of m) (some allowed)) Post (type_of m)
  unfolding Td.when_allowed
  allowed-Keeps built = elim (Bool-cases allowed) [
    | inl listed ↦
        rw listed (record { success = λ _. (built, listed, refl); failure = λ x. cc (x) })
    | inr closed ↦
        rw (closed, locks m)
          (bind-Keeps limit Fits (SharexHp.release_sharex_lock_hp (type_of m)) _
            (λ _ h. h ≡ no_lock) Post (type_of m) (release-Keeps m)
            (λ _ h free. record { success = λ x. cc (x); failure = λ _. free }))
  ]

  acquired-Keeps :
      (code : ApiErrorCode) (hold : LockType)
      → IsBuilt t
      → hold ≡ after (acquire m) code
      → Keeps limit Fits (Td.when_acquired (type_of m) (some allowed) code) Post hold
  unfolding Td.when_acquired
  acquired-Keeps code hold built e = elim (Bool-cases (is_success code)) [
    | inl good ↦ rw (good, e, after_success m code good) (allowed-Keeps built)
    | inr bad ↦
        rw bad (record { success = λ x. cc (x, bad); failure = λ _. e ∙ after_failure m code bad })
  ]

  check-Keeps :
      Keeps limit Fits (Td.check_state_map_tdcs_and_lock t (type_of m) leaf op_state) Post no_lock
  unfolding Td.check_state_map_tdcs_and_lock Td.check_any_td_state_map_tdcs_and_lock Td.is_allowed
  check-Keeps = elim (Bool-cases (is_tdx_success (Td.check_td_in_correct_build_state t))) [
    | inl good ↦
        rw (good, locks m)
          (bind-Keeps limit Fits (SharexHp.acquire_sharex_lock_hp (type_of m) false)
            (Td.when_acquired (type_of m) (some allowed)) (λ r h. h ≡ after (acquire m) r) Post
            no_lock (acquire-Keeps m)
            (λ code hold e. acquired-Keeps code hold (build_state-IsBuilt t good) e))
    | inr bad ↦ rw bad (record { success = λ x. cc (x, bad); failure = λ _. refl })
  ]

-- A host leaf checks the state of a TD with fewer other readers at the operation state lock than its
-- counter holds. Run without interruption, it returns without a failed check; with success just where it
-- has the lock as asked, and then the TD is not in a fatal state, its keys are configured, its control
-- structure has the least number of pages, and the table allows the leaf in the operation state;
-- otherwise it holds nothing there.
pub check_state-Admitted :
    (t : Tdr) (m : Mode) (leaf op_state w r x : ℕ)
    → r < limit
    → Fits w r x
    → Ran limit Fits
        (Td.check_state_map_tdcs_and_lock t (type_of m) leaf op_state)
        (Admitted t m leaf op_state)
        w
        r
        x
check_state-Admitted t m leaf op_state w r x lt f =
    let readers : r + 0 ≡ r = omega arith in
    let writers : x + 0 ≡ x = omega arith in
    run-Keeps limit Fits (Td.check_state_map_tdcs_and_lock t (type_of m) leaf op_state)
      (Admitted t m leaf op_state) no_lock w r x (check-Keeps t m leaf op_state) lt
      (rw (readers, writers) f)
