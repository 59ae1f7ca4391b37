-- ===== src/Locks/System.antt =====
-- Any number of processors that call lock functions on one word, interleaved at every atomic
-- instruction, in any order.
use tdx_module.Base.{ℕ, Bool, true, false, ◌<◌, ◌≡◌}
use tdx_module.Base.Family.{assign}
use tdx_module.Locks.Types.{LockType, no_lock}
use tdx_module.Locks.Atomic.{Atomic, Prog, ret, atomic, branch, check, halt, perform}

-- What callers do with a lock: each call is made from the hold `before`, and its result says what
-- the caller holds `after`.
pub record Protocol : Type 1 where
  pub Call : Type 0
  pub Result : Type 0
  pub body : Call → Prog Result
  pub before : Call → LockType
  pub after : Call → Result → LockType

module _ (p : Protocol) where
  open p use {Call, Result, body, before, after}

  -- `idle h`: between calls, in the belief that it holds `h`.
  pub data Processor : Type 0 where
    idle : LockType → Processor
    busy : Call → Prog Result → Processor

  -- One step of one processor. Tests are local, so they take a step of their own.
  pub data Advance (w : ℕ) : Processor → ℕ → Processor → Type 0 where
    enter : {h : LockType} (c : Call) → h ≡ before c → Advance w (idle h) w (busy c (body c))
    instruction :
        {c : Call} {i : Atomic} {k : ℕ → Prog Result}
        → Advance w (busy c (atomic i k)) (perform i w) (busy c (k w))
    then_case :
        {c : Call} {b : Bool} {m k : Prog Result}
        → b ≡ true
        → Advance w (busy c (branch b m k)) w (busy c m)
    else_case :
        {c : Call} {b : Bool} {m k : Prog Result}
        → b ≡ false
        → Advance w (busy c (branch b m k)) w (busy c k)
    pass :
        {c : Call} {b : Bool} {id : ℕ} {m : Prog Result}
        → b ≡ true
        → Advance w (busy c (check b id m)) w (busy c m)
    panic :
        {c : Call} {b : Bool} {id : ℕ} {m : Prog Result}
        → b ≡ false
        → Advance w (busy c (check b id m)) w (busy c (halt id))
    leave : {c : Call} {r : Result} → Advance w (busy c (ret r)) w (idle (after c r))

  pub record System : Type 0 where
    pub word : ℕ
    pub cpu : ℕ → Processor

  pub data Step (n : ℕ) (s : System) : System → Type 0 where
    turn :
        (i : ℕ) {w : ℕ} {q : Processor}
        → i < n
        → Advance s.word (s.cpu i) w q
        → Step n s (record { word = w; cpu = assign i q s.cpu })

  -- The lock starts free, and nobody holds it.
  abbrev pub initial : System
  initial = record { word = 0; cpu = λ _. idle no_lock }

  pub data Reach (n : ℕ) : System → Type 0 where
    start : Reach n initial
    later : {s t : System} → Reach n s → Step n s t → Reach n t

  -- Any number of steps, from any state.
  pub data Steps (n : ℕ) (s : System) : System → Type 0 where
    here : Steps n s s
    more : {t u : System} → Steps n s t → Step n t u → Steps n s u
