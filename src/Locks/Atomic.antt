-- ===== src/Locks/Atomic.antt =====
-- Code over one memory word as a tree of atomic instructions (common/accessors/ia32_accessors.h),
-- so that the same definition runs alone and is interleaved with other processors.
use tdx_module.Base.{
  ℕ, ◌+◌, ◌-◌, ◌/◌, ◌%◌, ◌^◌, bit_or, bit_and, Bool, true, false, ◌==◌, if◌then◌else◌,
}

-- The locked instructions that the lock functions issue, with their operands.
pub data Atomic : Type 0 where
  load : Atomic
  cmpxchg : (cmp_val set_val : ℕ) → Atomic
  xchg : (quantum : ℕ) → Atomic
  xadd_16b : (quantum : ℕ) → Atomic
  or_16b : (quantum : ℕ) → Atomic
  and_16b : (quantum : ℕ) → Atomic
  bts_64b : (bit : ℕ) → Atomic
  btr_64b : (bit : ℕ) → Atomic

-- Bit `k` of a word.
abbrev pub bit_of : ℕ → ℕ → ℕ
bit_of k w = w / 2 ^ k % 2

-- The word in memory after the instruction. A 16-bit add wraps.
abbrev pub perform : Atomic → ℕ → ℕ
perform load w = w
perform (cmpxchg c v) w = if w == c then v else w
perform (xchg v) w = v
perform (xadd_16b v) w = (w + v) % 65536
perform (or_16b m) w = bit_or w m
perform (and_16b m) w = bit_and w m
perform (bts_64b k) w = if bit_of k w == 0 then w + 2 ^ k else w
perform (btr_64b k) w = if bit_of k w == 1 then w - 2 ^ k else w

-- A program over the word. `check b id p` goes on with `p` if the sanity check `b` passes; if it
-- fails the module reports `id` and shuts down, as `halt id` does.
pub data Prog (A : Type 0) : Type 0 where
  ret : A → Prog A
  atomic : Atomic → (ℕ → Prog A) → Prog A
  branch : Bool → Prog A → Prog A → Prog A
  check : Bool → ℕ → Prog A → Prog A
  halt : ℕ → Prog A

infixl 5 ◌>>=◌ ◌>>◌
abbrev pub ◌>>=◌ : {A B : Type 0} → Prog A → (A → Prog B) → Prog B
ret a >>= f = f a
atomic i k >>= f = atomic i (λ w. k w >>= f)
branch b p q >>= f = branch b (p >>= f) (q >>= f)
check b id p >>= f = check b id (p >>= f)
halt id >>= f = halt id

abbrev pub ◌>>◌ : {A B : Type 0} → Prog A → Prog B → Prog B
m >> k = m >>= λ _. k

-- An instruction as a program: it returns the word that it found.
abbrev pub issue : Atomic → Prog ℕ
issue i = atomic i ret

abbrev pub sanity_check : Bool → ℕ → Prog (Unit {0})
sanity_check b id = check b id (ret tt)

pub data Outcome (A : Type 0) : Type 0 where
  done : A → Outcome A
  halted : ℕ → Outcome A

-- A run with no other processor at the word.
abbrev pub run : {A : Type 0} → Prog A → ℕ → Outcome A × ℕ
run (ret a) w = (done a, w)
run (atomic i k) w = run (k w) (perform i w)
run (branch b p q) w = elim b [ true ↦ run p w | false ↦ run q w ]
run (check b id p) w = elim b [ true ↦ run p w | false ↦ (halted id, w) ]
run (halt id) w = (halted id, w)
