-- ===== src/Pamt/Walk/Holds.antt =====
-- The locks that this processor holds on the entries of the table, beside those of the others.
use tdx_module.Base.{ℕ, ◌+◌, ◌<◌, ◌≡◌, refl, ◌∙◌, ap, subst, arith, inl, inr, Bool-cases, ◌==◌}
use tdx_module.Base.Family.{assign}
use tdx_module.Locks.Types.{LockType}
use tdx_module.Locks.Atomic.{Prog}
use tdx_module.Locks.Sharing.{reads, writes, Keeps}
use tdx_module.Locks.Alone.{run-Keeps}
use tdx_module.Locks.SharexHp.Holds.{Fits, limit}
use tdx_module.Pamt.State.{
  Mem, PamtEntry, read_entry, ok, M, pure, ◌>>=◌, bind_outcome, at_lock, write, lock_outcome,
}

-- What the other processors hold on the entry at each address.
pub record Others : Type 0 where
  pub readers : ℕ → ℕ
  pub writers : ℕ → ℕ
  pub few : (p : ℕ) → readers p < limit

-- Every lock word fits the holds of the others and of this processor.
abbrev pub Holding : Others → Mem → (ℕ → LockType) → Type 0
Holding o m hold =
    (p : ℕ) → Fits (m p).entry_lock (o.readers p + reads (hold p)) (o.writers p + writes (hold p))

-- A lock function at one entry: it returns, and only that entry's lock and hold change.
pub record Locked {A : Type 0} (o : Others) (m : Mem) (hold : ℕ → LockType) (p : ℕ) (prog : Prog A)
    (post : A → LockType → Type 0) : Type 0 where
  pub result : A
  pub mem : Mem
  pub held : LockType
  pub returns : at_lock p prog m ≡ ok result mem
  pub holding : Holding o mem (assign p held hold)
  pub holds : post result held

pub at_lock-Keeps :
    {A : Type 0} (o : Others) (m : Mem) (hold : ℕ → LockType) (p : ℕ) (prog : Prog A)
    (post : A → LockType → Type 0)
    → Holding o m hold
    → Keeps limit Fits prog post (hold p)
    → Locked o m hold p prog post
at_lock-Keeps o m hold p prog post holding keeps =
    let r =
      run-Keeps limit Fits prog post (hold p) (m p).entry_lock (o.readers p) (o.writers p) keeps
        (o.few p) (holding p) in
    record {
      result = r.result;
      mem = write p (record (m p) { entry_lock = r.word }) m;
      held = r.hold;
      returns = ap (lock_outcome p m) r.ran;
      holding = λ q. elim (Bool-cases (p == q)) [
        | inl e ↦ rw e (
            subst (λ q'. Fits r.word (o.readers q' + reads r.hold) (o.writers q' + writes r.hold))
              (ground arith) r.fits)
        | inr e ↦ rw e (holding q)
      ];
      holds = r.holds;
    }

-- A program on the table that returns, what it returns, and the holds it leaves.
pub record Done {A : Type 0} (o : Others) (m : Mem) (x : M A) (post : A → (ℕ → LockType) → Type 0)
    : Type 0 where
  pub result : A
  pub mem : Mem
  pub held : ℕ → LockType
  pub returns : x m ≡ ok result mem
  pub holding : Holding o mem held
  pub holds : post result held

pub pure-Done :
    {A : Type 0} {o : Others} {m : Mem} {post : A → (ℕ → LockType) → Type 0} (hold : ℕ → LockType)
    (a : A)
    → Holding o m hold
    → post a hold
    → Done o m (pure a) post
pure-Done {m} hold a h p = record {
  result = a;
  mem = m;
  held = hold;
  returns = refl;
  holding = h;
  holds = p;
}

-- A lock function first, and the rest from what it leaves.
pub then-Done :
    {A B : Type 0} {o : Others} {m : Mem} {hold : ℕ → LockType} {p : ℕ} {prog : Prog A}
    {mid : A → LockType → Type 0} {post : B → (ℕ → LockType) → Type 0} (k : A → M B)
    (l : Locked o m hold p prog mid)
    → Done o l.mem (k l.result) post
    → Done o m (at_lock p prog >>= k) post
then-Done k l d = record {
  result = d.result;
  mem = d.mem;
  held = d.held;
  returns = ap (λ x. bind_outcome x k) l.returns ∙ d.returns;
  holding = d.holding;
  holds = d.holds;
}

pub read-Done :
    {B : Type 0} {o : Others} {m : Mem} {post : B → (ℕ → LockType) → Type 0} {p : ℕ}
    (k : PamtEntry → M B)
    → Done o m (k (m p)) post
    → Done o m (read_entry p >>= k) post
read-Done k d = record {
  result = d.result;
  mem = d.mem;
  held = d.held;
  returns = d.returns;
  holding = d.holding;
  holds = d.holds;
}

pub last-Done :
    {A : Type 0} {o : Others} {m : Mem} {hold : ℕ → LockType} {p : ℕ} {prog : Prog A}
    {mid : A → LockType → Type 0} {post : A → (ℕ → LockType) → Type 0}
    (l : Locked o m hold p prog mid)
    → post l.result (assign p l.held hold)
    → Done o m (at_lock p prog) post
last-Done {hold} {p} l h = record {
  result = l.result;
  mem = l.mem;
  held = assign p l.held hold;
  returns = l.returns;
  holding = l.holding;
  holds = h;
}

-- A program that returns, and the rest from what it leaves.
pub bind-Done :
    {A B : Type 0} {o : Others} {m : Mem} {x : M A} {mid : A → (ℕ → LockType) → Type 0}
    {post : B → (ℕ → LockType) → Type 0} (k : A → M B) (d : Done o m x mid)
    → Done o d.mem (k d.result) post
    → Done o m (x >>= k) post
bind-Done k d e = record {
  result = e.result;
  mem = e.mem;
  held = e.held;
  returns = ap (λ r. bind_outcome r k) d.returns ∙ e.returns;
  holding = e.holding;
  holds = e.holds;
}
