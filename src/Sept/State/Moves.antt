-- ===== src/Sept/State/Moves.antt =====
-- What the setters of an L1 entry do to its state.
use tdx_module.Base.{◌≡◌, refl, Bool, true, false, ◌||◌, ◌==◌, if◌then◌else◌}
use tdx_module.Sept.Entry.{
  Septe, SeptState, InState, encoding, enc_bit, encoding_of, bits_encoding, free, nl_mapped,
  nl_blocked, mapped, blocked, pending, pending_blocked,
}
use tdx_module.Sept.State

pub encoding_of-InState : (e : Septe) (s : SeptState) → InState e s → encoding_of e ≡ encoding s
encoding_of-InState e s i = rw (i.d, i.tdex, i.tdbw, i.tdb, i.tdp, i.ipat, i.leaf) (whole s)
  where
    whole :
        (t : SeptState)
        → bits_encoding
            (enc_bit 0 (encoding t))
            (enc_bit 1 (encoding t))
            (enc_bit 2 (encoding t))
            (enc_bit 3 (encoding t))
            (enc_bit 4 (encoding t))
            (enc_bit 5 (encoding t))
            (enc_bit 6 (encoding t))
          ≡ encoding t
    whole free = refl
    whole t = refl

-- The state that unblocking leads to.
abbrev pub unblocked : SeptState → SeptState
unblocked nl_blocked = nl_mapped
unblocked blocked = mapped
unblocked pending_blocked = pending
unblocked s = s

abbrev gains_rights : SeptState → Bool
gains_rights nl_blocked = true
gains_rights blocked = true
gains_rights s = false

abbrev was_blocked : SeptState → Bool
was_blocked nl_blocked = true
was_blocked blocked = true
was_blocked pending_blocked = true
was_blocked s = false

-- What unblocking leaves: the state, the rights, and the rest of the entry.
pub record Unblocked (e : Septe) (s : SeptState) (after : Septe) : Type 0 where
  pub state : InState after (unblocked s)
  pub same_page : after.base ≡ e.base
  pub same_lock : after.tdel ≡ e.tdel
  pub same_priority : after.hp ≡ e.hp
  pub readable : after.r ≡ (gains_rights s || e.r)
  pub writable : after.w ≡ (gains_rights s || e.w)
  pub executable : after.x ≡ (gains_rights s || e.x)
  pub suppressed : was_blocked s ≡ true → after.supp_ve ≡ true
  pub others : was_blocked s ≡ false → after ≡ e

abbrev value : Septe → SeptState → Septe
value e nl_blocked = State.mt_0 (State.with_rwx (State.sept_update_state e nl_mapped))
value e blocked = State.mt_wb (State.with_rwx (State.sept_update_state e mapped))
value e pending_blocked = State.sept_update_state e pending
value e s = e

sept_unblock-value : (e : Septe) (s : SeptState) → InState e s → State.sept_unblock e ≡ value e s
unfolding State.sept_unblock
sept_unblock-value e s i = rw (encoding_of-InState e s i) (cases s)
  where
    cases :
        (t : SeptState)
        → (if encoding t == encoding nl_blocked
            then State.mt_0 (State.with_rwx (State.sept_update_state e nl_mapped))
            else (if encoding t == encoding blocked
                then State.mt_wb (State.with_rwx (State.sept_update_state e mapped))
                else (if encoding t == encoding pending_blocked
                    then State.sept_update_state e pending
                    else e)))
          ≡ value e t
    cases nl_blocked = refl
    cases blocked = refl
    cases pending_blocked = refl
    cases t = refl

value-Unblocked : (e : Septe) (s : SeptState) → InState e s → Unblocked e s (value e s)
unfolding State.sept_update_state
value-Unblocked e nl_blocked i = record {
  state = record {
    d = refl;
    tdex = refl;
    tdbw = refl;
    tdb = refl;
    tdp = refl;
    ipat = refl;
    leaf = refl;
  };
  same_page = refl;
  same_lock = refl;
  same_priority = refl;
  readable = refl;
  writable = refl;
  executable = refl;
  suppressed = λ b. refl;
  others = λ b. absurd (cc);
}
value-Unblocked e blocked i = record {
  state = record {
    d = refl;
    tdex = refl;
    tdbw = refl;
    tdb = refl;
    tdp = refl;
    ipat = refl;
    leaf = refl;
  };
  same_page = refl;
  same_lock = refl;
  same_priority = refl;
  readable = refl;
  writable = refl;
  executable = refl;
  suppressed = λ b. refl;
  others = λ b. absurd (cc);
}
value-Unblocked e pending_blocked i = record {
  state = record {
    d = refl;
    tdex = refl;
    tdbw = refl;
    tdb = refl;
    tdp = refl;
    ipat = refl;
    leaf = refl;
  };
  same_page = refl;
  same_lock = refl;
  same_priority = refl;
  readable = refl;
  writable = refl;
  executable = refl;
  suppressed = λ b. refl;
  others = λ b. absurd (cc);
}
value-Unblocked e s i = record {
  state = i;
  same_page = refl;
  same_lock = refl;
  same_priority = refl;
  readable = refl;
  writable = refl;
  executable = refl;
  suppressed = λ b. absurd (cc);
  others = λ b. refl;
}

-- Unblocking a blocked entry puts it in the state before the block (a non-leaf mapped, a leaf mapped
-- or pending), sets its SVE bit, and gives back the rights unless it is pending; an entry in any
-- other state is left as it is; and the page, the entry's lock and its host-priority flag are kept.
pub sept_unblock-Unblocked :
    (e : Septe) (s : SeptState) → InState e s → Unblocked e s (State.sept_unblock e)
sept_unblock-Unblocked e s i = rw (sept_unblock-value e s i) (value-Unblocked e s i)
