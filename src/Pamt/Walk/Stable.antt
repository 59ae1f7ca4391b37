-- ===== src/Pamt/Walk/Stable.antt =====
-- The types of pages under walking and unwalking.
use tdx_module.Base.{ℕ, ◌≡◌, refl, subst, ◌∙◌, arith, Bool, true, false, if◌then◌else◌}
use tdx_module.ErrorCodes.{ApiErrorCode}
use tdx_module.Locks.Types.{LockType}
use tdx_module.Locks.Atomic as Atomic
use tdx_module.Locks.Atomic.{Prog}
use tdx_module.Pamt.State.{
  PageSize, pt_4kb, pt_2mb, pt_1gb, PamtBlock, PamtEntry, Mem, Outcome, ok, halted, fatal, M,
  bind_outcome, ◌>>=◌, pure, read_entry, at_lock, lock_outcome,
}
use tdx_module.Pamt.Walk
use tdx_module.Pamt.Walk.{Path3, WalkResult}

-- The table that a program leaves, or the one it began with where it does not return.
abbrev pub mem_of : {A : Type 0} → Outcome A → Mem → Mem
mem_of (ok a m') m = m'
mem_of (halted id) m = m
mem_of fatal m = m

abbrev pub SameTypes : Mem → Mem → Type 0
SameTypes m m' = (q : ℕ) → (m' q).pt ≡ (m q).pt

abbrev pub Stable : {A : Type 0} → M A → Type 0
Stable x = (m : Mem) → SameTypes m (mem_of (x m) m)

pub pure-Stable : {A : Type 0} (a : A) → Stable (pure a)
pure-Stable a m q = refl

pub read-Stable : (p : ℕ) → Stable (read_entry p)
read-Stable p m q = refl

lock_outcome-SameTypes :
    {A : Type 0} (p : ℕ) (m : Mem) (r : Atomic.Outcome A × ℕ)
    → SameTypes m (mem_of (lock_outcome p m r) m)
lock_outcome-SameTypes p m (Atomic.done a, w) q = ground arith
lock_outcome-SameTypes p m (Atomic.halted id, w) q = refl

pub at_lock-Stable : {A : Type 0} (p : ℕ) (prog : Prog A) → Stable (at_lock p prog)
at_lock-Stable p prog m = lock_outcome-SameTypes p m (Atomic.run prog (m p).entry_lock)

bind_outcome-SameTypes :
    {A B : Type 0} (m : Mem) (r : Outcome A) (k : A → M B)
    → SameTypes m (mem_of r m)
    → ((a : A) → Stable (k a))
    → SameTypes m (mem_of (bind_outcome r k) m)
bind_outcome-SameTypes m (ok a m') k h s q = after (k a m') (s a m' q)
  where
    after :
        {B : Type 0} (r : Outcome B) → (mem_of r m' q).pt ≡ (m' q).pt → (mem_of r m q).pt ≡ (m q).pt
    after (ok b m'') e = e ∙ h q
    after (halted id) e = refl
    after fatal e = refl
bind_outcome-SameTypes m (halted id) k h s q = refl
bind_outcome-SameTypes m fatal k h s q = refl

pub bind-Stable :
    {A B : Type 0} (x : M A) (k : A → M B) → Stable x → ((a : A) → Stable (k a)) → Stable (x >>= k)
bind-Stable x k h s m = bind_outcome-SameTypes m (x m) k (h m) s

pub if-Stable :
    {A : Type 0} (b : Bool) (x y : M A) → Stable x → Stable y → Stable (if b then x else y)
if-Stable true x y hx hy = hx
if-Stable false x y hx hy = hy

pub ruleset stable = (pure-Stable, read-Stable, at_lock-Stable, bind-Stable, if-Stable)

module _ (w : Path3) (t : LockType) (target size : PageSize) (is_guest : Bool) where
  root-Stable : (code : ApiErrorCode) → Stable (Walk.release_root w t target size is_guest code)
  unfolding Walk.release_root
  root-Stable code = search stable

  all-Stable : (code : ApiErrorCode) → Stable (Walk.release_all w t target size is_guest code)
  unfolding Walk.release_all
  all-Stable code = search (stable, root-Stable)

  leaf-Stable :
      (s : PageSize) (p : ℕ) (give_up : ApiErrorCode → M WalkResult)
      → ((code : ApiErrorCode) → Stable (give_up code))
      → Stable (Walk.leaf_at w t target size is_guest s p give_up)
  unfolding Walk.leaf_at
  leaf-Stable s p give_up h = search (stable, h)

  walk_4kb-Stable : Stable (Walk.walk_4kb w t target size is_guest)
  unfolding Walk.walk_4kb
  walk_4kb-Stable = search (stable, all-Stable)

  down_from_2mb-Stable :
      (code : ApiErrorCode) (entry : PamtEntry)
      → Stable (Walk.down_from_2mb w t target size is_guest code entry)
  unfolding Walk.down_from_2mb
  down_from_2mb-Stable code entry =
      search (stable, leaf-Stable, walk_4kb-Stable, all-Stable, root-Stable)

  walk_2mb-Stable : Stable (Walk.walk_2mb w t target size is_guest)
  unfolding Walk.walk_2mb
  walk_2mb-Stable = search (stable, down_from_2mb-Stable)

  down_from_1gb-Stable :
      (code : ApiErrorCode) (entry : PamtEntry)
      → Stable (Walk.down_from_1gb w t target size is_guest code entry)
  unfolding Walk.down_from_1gb
  down_from_1gb-Stable code entry = search (stable, leaf-Stable, walk_2mb-Stable, root-Stable)

  walk_1gb-Stable : Stable (Walk.walk_1gb w t target size is_guest)
  unfolding Walk.walk_1gb
  walk_1gb-Stable = search (stable, down_from_1gb-Stable)

pub pamt_walk-Stable :
    (pa : ℕ) (b : PamtBlock) (t : LockType) (size : PageSize) (to_leaf is_guest : Bool)
    → Stable (Walk.pamt_walk pa b t size to_leaf is_guest)
unfolding Walk.pamt_walk
pamt_walk-Stable pa b t size to_leaf is_guest = walk_1gb-Stable _ _ _ _ _

unwalk_from-Stable :
    (w : Path3) (t : LockType) (size : PageSize) → Stable (Walk.unwalk_from w t size)
unfolding Walk.unwalk_from
unwalk_from-Stable w t pt_4kb = search stable
unwalk_from-Stable w t pt_2mb = search stable
unwalk_from-Stable w t pt_1gb = search stable

pub pamt_unwalk-Stable :
    (pa : ℕ) (b : PamtBlock) (t : LockType) (size : PageSize)
    → Stable (Walk.pamt_unwalk pa b t size)
unfolding Walk.pamt_unwalk
pamt_unwalk-Stable pa b t size = unwalk_from-Stable _ t size

-- So where such a program returns, each page has the type that it had.
pub returned-SameTypes :
    {A : Type 0} (x : M A) (m : Mem) {m' : Mem} {a : A} → Stable x → x m ≡ ok a m' → SameTypes m m'
returned-SameTypes x m h e q = subst (λ r. (mem_of r m q).pt ≡ (m q).pt) e (h m q)
