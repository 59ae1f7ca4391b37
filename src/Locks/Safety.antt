-- ===== src/Locks/Safety.antt =====
-- A protocol whose calls all obey the proof rule is safe in every interleaving.
use tdx_module.Base.{
  ℕ, ◌+◌, ◌≤◌, ◌<◌, ◌≡◌, ◌≢◌, refl, sym, ap, subst, subst₂, Bool-cases, inl, inr, ◌∙◌, arith, ◌==◌,
}
use tdx_module.Base.Family.{
  assign, tally, tally-assign, tally-le, tally_zero, pair-le-tally, weight-le-tally,
}
use tdx_module.Locks.Types.{LockType, no_lock, shared, exclusive}
use tdx_module.Locks.Atomic.{halt}
use tdx_module.Locks.Sharing.{reads, writes, Keeps}
use tdx_module.Locks.System.{
  Protocol, Processor, idle, busy, Advance, enter, instruction, then_case, else_case, pass, panic,
  leave, System, Step, turn, Reach, start, later,
}

-- What the proof of safety needs of the words of a lock.
pub record IsLock (limit : ℕ) (Fits : ℕ → ℕ → ℕ → Type 0) : Type 0 where
  pub fits_free : Fits 0 0 0
  pub one_writer : {w r x : ℕ} → Fits w r x → x ≤ 1
  pub no_reader : {w r x : ℕ} → Fits w r x → x ≡ 1 → r ≡ 0

reads-le : (h : LockType) → reads h ≤ 1
reads-le h = ground arith

NoneHeld : (h : LockType) → reads h ≡ 0 → writes h ≡ 0 → h ≡ no_lock
NoneHeld h r w = ground arith

module _ (p : Protocol) (limit : ℕ) (Fits : ℕ → ℕ → ℕ → Type 0) (lock : IsLock limit Fits)
    (obeys : (c : p.Call) → Keeps limit Fits (p.body c) (λ r h. h ≡ p.after c r) (p.before c)) where
  -- A processor and what it really holds.
  abbrev Agrees : Processor p → LockType → Type 0
  Agrees (idle h) g = h ≡ g
  Agrees (busy c m) g = Keeps limit Fits m (λ r h. h ≡ p.after c r) g

  record Inv (n : ℕ) (s : System p) : Type 0 where
    hold : ℕ → LockType
    fits : Fits s.word (tally reads n hold) (tally writes n hold)
    agrees : (i : ℕ) → Agrees (s.cpu i) (hold i)

  -- A step of one processor: a new hold that fits beside what all others hold.
  advance :
      {w w' : ℕ} {q q' : Processor p}
      → Advance p w q w' q'
      → (g : LockType) (r x : ℕ) → r < limit
      → Fits w (r + reads g) (x + writes g)
      → Agrees q g
      → (g' : LockType) × Fits w' (r + reads g') (x + writes g') × Agrees q' g'
  advance (enter c e) g r x lt f a =
      (g, f, subst (Agrees (busy c (p.body c))) (sym e ∙ a) (obeys c))
  advance instruction g r x lt f a = a _ r x lt f
  advance (then_case e) g r x lt f a = (g, f, a.0 e)
  advance (else_case e) g r x lt f a = (g, f, a.1 e)
  advance (pass e) g r x lt f a = (g, f, a.1)
  advance (panic e) g r x lt f a = cc (a.0)
  advance leave g r x lt f a = (g, f, sym a)

  Step-Inv : {n : ℕ} {s t : System p} → n ≤ limit → Step p n s t → Inv n s → Inv n t
  Step-Inv {n} {s} few (turn i {w} {q} lt move) inv = record {
    hold = assign i now.0 inv.hold;
    fits = subst₂ (Fits w) (counts reads refl now.0) (counts writes refl now.0) now.1;
    agrees = λ j. elim (Bool-cases (i == j)) [
      | inl here ↦ rw here now.2
      | inr there ↦ rw there (inv.agrees j)
    ];
  }
    where
      rest : (LockType → ℕ) → ℕ
      rest weight = tally weight n (assign i no_lock inv.hold)

      counts :
          (weight : LockType → ℕ)
          → weight no_lock ≡ 0
          → (g : LockType) → rest weight + weight g ≡ tally weight n (assign i g inv.hold)
      counts weight none g = omega (
        arith,
        tally-assign weight n i g inv.hold lt,
        tally-assign weight n i no_lock inv.hold lt,
      )

      all :
          (weight : LockType → ℕ)
          → weight no_lock ≡ 0
          → tally weight n inv.hold ≡ rest weight + weight (inv.hold i)
      all weight none = omega (arith, tally-assign weight n i no_lock inv.hold lt)

      room : rest reads < limit
      room =
          omega
            (arith, counts reads refl shared, tally-le reads reads-le n (assign i shared inv.hold))

      now : (g' : LockType) × Fits w (rest reads + reads g') (rest writes + writes g') × Agrees q g'
      now =
          advance move (inv.hold i) (rest reads) (rest writes) room
            (subst₂ (Fits s.word) (all reads refl) (all writes refl) inv.fits) (inv.agrees i)

  Reach-Inv : {n : ℕ} {s : System p} → n ≤ limit → Reach p n s → Inv n s
  Reach-Inv {n} few start = record {
    hold = λ _. no_lock;
    fits = rw (tally_zero reads no_lock refl n, tally_zero writes no_lock refl n) lock.fits_free;
    agrees = λ _. refl;
  }
  Reach-Inv few (later r st) = Step-Inv few st (Reach-Inv few r)

  -- While one processor holds the lock exclusively, no other holds it in any mode.
  pub mutual_exclusion :
      {n : ℕ} {s : System p}
      → n ≤ limit
      → Reach p n s
      → (i j : ℕ) → i < n
      → j < n
      → i ≢ j
      → s.cpu i ≡ idle exclusive
      → (h : LockType) → s.cpu j ≡ idle h
      → h ≡ no_lock
  mutual_exclusion {n} {s} few r i j hi hj ne e h e' =
      NoneHeld h (omega (arith, read, silent)) (omega (arith, wrote, single))
    where
      inv : Inv n s
      inv = Reach-Inv few r

      at_i : exclusive ≡ inv.hold i
      at_i = subst (λ q. Agrees q (inv.hold i)) e (inv.agrees i)

      at_j : h ≡ inv.hold j
      at_j = subst (λ q. Agrees q (inv.hold j)) e' (inv.agrees j)

      single : tally writes n inv.hold ≤ 1
      single = lock.one_writer inv.fits

      wrote : 1 + writes h ≤ tally writes n inv.hold
      wrote = rw (at_j, ap writes at_i) (pair-le-tally writes n i j inv.hold hi hj ne)

      read : reads h ≤ tally reads n inv.hold
      read = rw at_j (weight-le-tally reads n j inv.hold hj)

      silent : tally reads n inv.hold ≡ 0
      silent = lock.no_reader inv.fits (omega (arith, wrote, single))

  -- No sanity check of a lock function fails.
  pub no_panic :
      {n : ℕ} {s : System p}
      → n ≤ limit
      → Reach p n s
      → (i : ℕ) (c : p.Call) (id : ℕ) → s.cpu i ≢ busy c (halt id)
  no_panic {n} {s} few r i c id e = subst (λ q. Agrees q (inv.hold i)) e (inv.agrees i)
    where
      inv : Inv n s
      inv = Reach-Inv few r
