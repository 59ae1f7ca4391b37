-- ===== src/Sept/Block/Restored.antt =====
-- An L1 entry that is blocked and then unblocked.
use tdx_module.Base.{ℕ, ◌≡◌, refl, ◌∙◌, ◌&&◌, ◌==◌, some, inl, inr, Bool-cases}
use tdx_module.Sept.Entry.{
  Septe, SeptState, InState, nl_mapped, mapped, pending, nl_blocked, blocked, pending_blocked,
}
use tdx_module.Sept.Flags.{sept_state_is_any_pending_and_guest_acceptable}
use tdx_module.Sept.State.{lvl_pd, sept_cleanup_if_pending, sept_unblock, sept_update_state}
use tdx_module.Sept.State.Moves.{encoding_of-InState, sept_unblock-Unblocked, unblocked}
use tdx_module.Sept.Block

-- The states that can be blocked and come back.
pub data Plain : Type 0 where
  non_leaf leaf waiting : Plain

abbrev pub state_of : Plain → SeptState
state_of non_leaf = nl_mapped
state_of leaf = mapped
state_of waiting = pending

abbrev pub blocked_of : Plain → SeptState
blocked_of non_leaf = nl_blocked
blocked_of leaf = blocked
blocked_of waiting = pending_blocked

-- What blocking leaves, and what unblocking makes of it.
pub record Blocked (e : Septe) (p : Plain) (after : Septe) : Type 0 where
  pub state : InState after (blocked_of p)
  pub same_lock : after.tdel ≡ e.tdel
  pub same_priority : after.hp ≡ e.hp
  pub same_page : after.base ≡ e.base

abbrev value : Septe → Plain → Septe
value e non_leaf = Block.without_rwx (sept_update_state e nl_blocked)
value e leaf = sept_update_state (Block.without_rwx e) blocked
value e waiting = sept_update_state e pending_blocked

block_state-value :
    (e : Septe) (p : Plain) → InState e (state_of p) → Block.block_state e ≡ some (value e p)
unfolding Block.block_state
block_state-value e non_leaf i = rw (encoding_of-InState e nl_mapped i) refl
block_state-value e leaf i = rw (encoding_of-InState e mapped i) refl
block_state-value e waiting i = rw (encoding_of-InState e pending i) refl

update-InState : (e : Septe) (s : SeptState) → InState (sept_update_state e s) s
unfolding sept_update_state
update-InState e s = record {
  d = refl;
  tdex = refl;
  tdbw = refl;
  tdb = refl;
  tdp = refl;
  ipat = refl;
  leaf = refl;
}

value-Blocked : (e : Septe) (p : Plain) → Blocked e p (value e p)
unfolding sept_update_state
value-Blocked e p = record {
  state = at_state p;
  same_lock = lock p;
  same_priority = priority p;
  same_page = page p;
}
  where
    at_state : (q : Plain) → InState (value e q) (blocked_of q)
    at_state non_leaf = record {
      d = refl;
      tdex = refl;
      tdbw = refl;
      tdb = refl;
      tdp = refl;
      ipat = refl;
      leaf = refl;
    }
    at_state leaf = update-InState (Block.without_rwx e) blocked
    at_state waiting = update-InState e pending_blocked

    lock : (q : Plain) → (value e q).tdel ≡ e.tdel
    lock non_leaf = refl
    lock leaf = refl
    lock waiting = refl

    priority : (q : Plain) → (value e q).hp ≡ e.hp
    priority non_leaf = refl
    priority leaf = refl
    priority waiting = refl

    page : (q : Plain) → (value e q).base ≡ e.base
    page non_leaf = refl
    page leaf = refl
    page waiting = refl

-- The cleanup touches the page number of a pending entry only.
record Cleaned (e : Septe) (s : SeptState) (after : Septe) : Type 0 where
  state : InState after s
  same_lock : after.tdel ≡ e.tdel
  same_priority : after.hp ≡ e.hp

cleanup-Cleaned :
    (e : Septe) (s : SeptState) (level : ℕ)
    → InState e s
    → Cleaned e s (sept_cleanup_if_pending e level)
unfolding sept_cleanup_if_pending
cleanup-Cleaned e s level i =
    elim (Bool-cases (sept_state_is_any_pending_and_guest_acceptable e && (level == lvl_pd))) [
      | inl h ↦ rw h (record {
        state = record {
          d = i.d;
          tdex = i.tdex;
          tdbw = i.tdbw;
          tdb = i.tdb;
          tdp = i.tdp;
          ipat = i.ipat;
          leaf = i.leaf;
        };
        same_lock = refl;
        same_priority = refl;
      })
      | inr h ↦ rw h (record { state = i; same_lock = refl; same_priority = refl })
    ]

-- An entry that is mapped (a leaf or not) or pending can be blocked: it goes to the blocked state of
-- its kind, and unblocking it puts it back in the state that it had, with the entry's lock and
-- host-priority flag as they were.
pub block-unblock :
    (e : Septe) (p : Plain) (level : ℕ)
    → InState e (state_of p)
    → (after : Septe) × (Block.block_sept_entry e level ≡ some after)
      × InState after (blocked_of p)
      × InState (sept_unblock after) (state_of p)
      × ((sept_unblock after).tdel ≡ e.tdel)
      × ((sept_unblock after).hp ≡ e.hp)
unfolding Block.block_sept_entry
block-unblock e p level i =
    let c = cleanup-Cleaned e (state_of p) level i in
    let cleaned = sept_cleanup_if_pending e level in
    let after = value cleaned p in
    let b = value-Blocked cleaned p in
    let u = sept_unblock-Unblocked after (blocked_of p) b.state in
    (
      after,
      block_state-value cleaned p c.state,
      b.state,
      restored p after u.state,
      u.same_lock ∙ b.same_lock ∙ c.same_lock,
      u.same_priority ∙ b.same_priority ∙ c.same_priority,
    )
  where
    restored :
        (q : Plain) (after : Septe)
        → InState (sept_unblock after) (unblocked (blocked_of q))
        → InState (sept_unblock after) (state_of q)
    restored non_leaf after k = k
    restored leaf after k = k
    restored waiting after k = k
