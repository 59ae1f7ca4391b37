-- ===== src/Sept/Flags/Bits.antt =====
-- The table of flags agrees with the bits of the entry.
use tdx_module.Base.{◌≡◌, refl, sym, ◌∙◌, Bool, true, not, ◌&&◌, ◌||◌}
use tdx_module.Sept.Entry.{
  Septe, SeptState, encoding, bits_encoding, enc_bit, InState, free, removed, nl_mapped, nl_blocked,
  mapped, blocked, blockedw, exported_blockedw, exported_dirty, exported_dirty_blockedw, pending,
  pending_blocked, pending_blockedw, pending_exported_blockedw, pending_exported_dirty,
  pending_exported_dirty_blockedw,
}
use tdx_module.Sept.Flags.{SpecialFlags, flags_of, at_index, sept_special_flags_lookup}

-- What the flags of a leaf say, by its bits.
abbrev AgreesAt : SpecialFlags → (d tdex tdbw tdb tdp : Bool) → Type 0
AgreesAt f d tdex tdbw tdb tdp =
    (f.any_exported ≡ tdex)
    × (f.any_exported_and_dirty ≡ (tdex && d))
    × (f.any_exported_and_non_dirty ≡ (tdex && not d))
    × (f.any_pending ≡ tdp)
    × (f.any_blocked ≡ tdb)
    × (f.any_blockedw ≡ tdbw)
    × (f.mapped_or_pending ≡ not (tdex || (tdbw || tdb)))
    × (f.any_pending_and_guest_acceptable ≡ (tdp && not (tdb || tdbw)))
    × (f.guest_accessible_leaf ≡ not (tdp || tdb))
    × (f.tlb_tracking_required ≡ not (tdex && not d))

abbrev pub Agrees : Septe → Type 0
Agrees e = AgreesAt (flags_of e) e.d e.tdex e.tdbw e.tdb e.tdp

abbrev row : SeptState → SpecialFlags
row s = at_index sept_special_flags_lookup (
    bits_encoding (enc_bit 0 (encoding s)) (enc_bit 1 (encoding s)) (enc_bit 2 (encoding s))
      (enc_bit 3 (encoding s)) (enc_bit 4 (encoding s)) (enc_bit 5 (encoding s))
      (enc_bit 6 (encoding s)))

row-Agrees :
    (s : SeptState)
    → enc_bit 6 (encoding s) ≡ true
    → AgreesAt
        (row s)
        (enc_bit 0 (encoding s))
        (enc_bit 1 (encoding s))
        (enc_bit 2 (encoding s))
        (enc_bit 3 (encoding s))
        (enc_bit 4 (encoding s))
row-Agrees mapped l = (refl, refl, refl, refl, refl, refl, refl, refl, refl, refl)
row-Agrees blocked l = (refl, refl, refl, refl, refl, refl, refl, refl, refl, refl)
row-Agrees blockedw l = (refl, refl, refl, refl, refl, refl, refl, refl, refl, refl)
row-Agrees exported_blockedw l = (refl, refl, refl, refl, refl, refl, refl, refl, refl, refl)
row-Agrees exported_dirty l = (refl, refl, refl, refl, refl, refl, refl, refl, refl, refl)
row-Agrees exported_dirty_blockedw l = (refl, refl, refl, refl, refl, refl, refl, refl, refl, refl)
row-Agrees pending l = (refl, refl, refl, refl, refl, refl, refl, refl, refl, refl)
row-Agrees pending_blocked l = (refl, refl, refl, refl, refl, refl, refl, refl, refl, refl)
row-Agrees pending_blockedw l = (refl, refl, refl, refl, refl, refl, refl, refl, refl, refl)
row-Agrees pending_exported_blockedw l =
    (refl, refl, refl, refl, refl, refl, refl, refl, refl, refl)
row-Agrees pending_exported_dirty l = (refl, refl, refl, refl, refl, refl, refl, refl, refl, refl)
row-Agrees pending_exported_dirty_blockedw l =
    (refl, refl, refl, refl, refl, refl, refl, refl, refl, refl)
row-Agrees free l = absurd (cc)
row-Agrees removed l = absurd (cc)
row-Agrees nl_mapped l = absurd (cc)
row-Agrees nl_blocked l = absurd (cc)

-- In every leaf state the flags of the generated table are those that the bits of the entry say:
-- exported, dirty, pending, blocked and blocked for writing each have their bit, a guest may use
-- the page if it is neither pending nor blocked and may accept it if it is pending and not
-- blocked in either way, and TLB tracking is required unless the page is exported and clean.
pub flags-Agrees : (e : Septe) (s : SeptState) → InState e s → e.leaf ≡ true → Agrees e
flags-Agrees e s i l =
    rw (i.d, i.tdex, i.tdbw, i.tdb, i.tdp, i.ipat, i.leaf) (row-Agrees s (sym i.leaf ∙ l))
