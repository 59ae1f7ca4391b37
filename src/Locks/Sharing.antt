-- ===== src/Locks/Sharing.antt =====
-- What a lock program may do while other processors run: a proof rule for one program that holds
-- the shared word at every instruction, in the style of rely and guarantee.
use tdx_module.Base.{ℕ, ◌+◌, ◌<◌, ◌≡◌, true, false}
use tdx_module.Locks.Types.{LockType, no_lock, shared, exclusive}
use tdx_module.Locks.Atomic.{Prog, ret, atomic, branch, check, halt, perform, ◌>>=◌}

abbrev pub reads : LockType → ℕ
reads shared = 1
reads no_lock = 0
reads exclusive = 0

abbrev pub writes : LockType → ℕ
writes exclusive = 1
writes no_lock = 0
writes shared = 0

-- `Fits w r x`: the word `w` may stand there while `r` processors read and `x` write.
-- `Keeps p post h`: from a hold `h`, and with fewer than `limit` other readers and any other
-- writers that `Fits` allows, every instruction of `p` leaves a word that fits some new hold; no
-- sanity check fails; and the result and the last hold satisfy `post`.
module _ (limit : ℕ) (Fits : ℕ → ℕ → ℕ → Type 0) where
  abbrev pub Keeps : {A : Type 0} → Prog A → (A → LockType → Type 0) → LockType → Type 0
  Keeps (ret a) post h = post a h
  Keeps (halt id) post h = ⊥
  Keeps (check b id p) post h = (b ≡ true) × Keeps p post h
  Keeps (branch b p q) post h = (b ≡ true → Keeps p post h) × (b ≡ false → Keeps q post h)
  Keeps (atomic i k) post h =
      (w r x : ℕ)
      → r < limit
      → Fits w (r + reads h) (x + writes h)
      → (h' : LockType) × Fits (perform i w) (r + reads h') (x + writes h') × Keeps (k w) post h'

  pub bind-Keeps :
      {A B : Type 0} (p : Prog A) (k : A → Prog B) (mid : A → LockType → Type 0)
      (post : B → LockType → Type 0) (h : LockType)
      → Keeps p mid h
      → ((a : A) (h' : LockType) → mid a h' → Keeps (k a) post h')
      → Keeps (p >>= k) post h
  bind-Keeps (ret a) k mid post h x f = f a h x
  bind-Keeps (atomic i n) k mid post h x f = λ w r y lt fits.
      let (h', fits', rest) = x w r y lt fits in (h', fits', bind-Keeps (n w) k mid post h' rest f)
  bind-Keeps (branch b p q) k mid post h x f =
      ((λ e. bind-Keeps p k mid post h (x.0 e) f), (λ e. bind-Keeps q k mid post h (x.1 e) f))
  bind-Keeps (check b id p) k mid post h x f = (x.0, bind-Keeps p k mid post h x.1 f)
  bind-Keeps (halt id) k mid post h x f = absurd x
