-- ===== src/Locks/Alone.antt =====
-- A program that keeps the proof rule, run with no other processor at the word.
use tdx_module.Base.{ℕ, ◌+◌, ◌<◌, ◌≡◌, refl, ◌∙◌, true, false}
use tdx_module.Locks.Types.{LockType}
use tdx_module.Locks.Atomic.{Prog, ret, atomic, branch, check, halt, run, done}
use tdx_module.Locks.Sharing.{reads, writes, Keeps}

module _ (limit : ℕ) (Fits : ℕ → ℕ → ℕ → Type 0) where
  -- The run passes every sanity check, and ends in a word that fits what `post` says.
  pub record Ran {A : Type 0} (p : Prog A) (post : A → LockType → Type 0) (w r x : ℕ) : Type 0 where
    pub result : A
    pub word : ℕ
    pub hold : LockType
    pub ran : run p w ≡ (done result, word)
    pub fits : Fits word (r + reads hold) (x + writes hold)
    pub holds : post result hold

  -- A first step of the run changes the program and the word.
  stepped :
      {A : Type 0} {p q : Prog A} {post : A → LockType → Type 0} {w v r x : ℕ}
      → run p w ≡ run q v
      → Ran q post v r x
      → Ran p post w r x
  stepped e rest = record {
    result = rest.result;
    word = rest.word;
    hold = rest.hold;
    ran = e ∙ rest.ran;
    fits = rest.fits;
    holds = rest.holds;
  }

  pub run-Keeps :
      {A : Type 0} (p : Prog A) (post : A → LockType → Type 0) (h : LockType) (w r x : ℕ)
      → Keeps limit Fits p post h
      → r < limit
      → Fits w (r + reads h) (x + writes h)
      → Ran p post w r x
  run-Keeps (ret a) post h w r x k lt f = record {
    result = a;
    word = w;
    hold = h;
    ran = refl;
    fits = f;
    holds = k;
  }
  run-Keeps (atomic i next) post h w r x k lt f =
      let (h', f', k') = k w r x lt f in stepped refl (run-Keeps (next w) post h' _ r x k' lt f')
  run-Keeps (branch true p q) post h w r x k lt f =
      stepped refl (run-Keeps p post h w r x (k.0 refl) lt f)
  run-Keeps (branch false p q) post h w r x k lt f =
      stepped refl (run-Keeps q post h w r x (k.1 refl) lt f)
  run-Keeps (check true id p) post h w r x k lt f = stepped refl (run-Keeps p post h w r x k.1 lt f)
  run-Keeps (check false id p) post h w r x k lt f = cc (k.0)
  run-Keeps (halt id) post h w r x k lt f = absurd k
