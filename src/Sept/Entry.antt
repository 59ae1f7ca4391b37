-- ===== src/Sept/Entry.antt =====
-- src/common/x86_defs/x86_defs.h, src/common/memory_handlers/sept_manager.h: an entry of the secure
-- EPT. The word is the record of its bits, so an assignment to a bit field is a record update, and
-- a comparison under SEPT_STATE_ENCODING_MASK is one of the encodings.
use tdx_module.Base.{ℕ, ◌≡◌, ◌+◌, ◌*◌, ◌/◌, ◌%◌, ◌^◌, Bool, ◌==◌, if◌then◌else◌}

-- Bits 0 to 63; `base` is the page number of bits 12 to 51. Bits 58 to 60 are PW, TDWR and SSS, and
-- `tdal` in the view of aliases. An L2 entry keeps its saved R, Xs and Xu in the MT bits.
pub record Septe : Type 0 where
  pub r : Bool
  pub w : Bool
  pub x : Bool
  pub mt0 : Bool
  pub mt1 : Bool
  pub mt2 : Bool
  pub ipat : Bool
  pub leaf : Bool
  pub a : Bool
  pub d : Bool
  pub xu : Bool
  pub tdel : Bool
  pub base : ℕ
  pub hp : Bool
  pub tdex : Bool
  pub tdbw : Bool
  pub tdb : Bool
  pub tdp : Bool
  pub vpw : Bool
  pub pw : Bool
  pub tdwr : Bool
  pub sss : Bool
  pub tdup : Bool
  pub reserved_62 : Bool
  pub supp_ve : Bool

-- The states, by the encodings of include/auto_gen/sept_state_lookup.h.
pub data SeptState : Type 0 where
  free removed nl_mapped nl_blocked mapped blocked blockedw exported_blockedw exported_dirty
        exported_dirty_blockedw pending pending_blocked pending_blockedw pending_exported_blockedw
        pending_exported_dirty pending_exported_dirty_blockedw :
      SeptState

abbrev pub encoding : SeptState → ℕ
encoding free = 0xe
encoding removed = 0xc
encoding nl_mapped = 0x0
encoding nl_blocked = 0x8
encoding mapped = 0x60
encoding blocked = 0x68
encoding blockedw = 0x64
encoding exported_blockedw = 0x66
encoding exported_dirty = 0x63
encoding exported_dirty_blockedw = 0x67
encoding pending = 0x70
encoding pending_blocked = 0x78
encoding pending_blockedw = 0x74
encoding pending_exported_blockedw = 0x76
encoding pending_exported_dirty = 0x73
encoding pending_exported_dirty_blockedw = 0x77

abbrev pub bit : Bool → ℕ
bit b = if b then 1 else 0

abbrev pub bits_encoding : (d tdex tdbw tdb tdp ipat leaf : Bool) → ℕ
bits_encoding d tdex tdbw tdb tdp ipat leaf =
    bit d + bit tdex * 2 + bit tdbw * 4 + bit tdb * 8 + bit tdp * 16 + bit ipat * 32 + bit leaf * 64

-- SEPT_CONVERT_TO_ENCODING.
abbrev pub encoding_of : Septe → ℕ
encoding_of e = bits_encoding e.d e.tdex e.tdbw e.tdb e.tdp e.ipat e.leaf

-- Bit `k` of an encoding, as SEPT_STATE_ENC_TO_MASK places it.
abbrev pub enc_bit : ℕ → ℕ → Bool
enc_bit k enc = enc / 2 ^ k % 2 == 1

-- The state of an entry, bit by bit.
pub record InState (e : Septe) (s : SeptState) : Type 0 where
  pub d : e.d ≡ enc_bit 0 (encoding s)
  pub tdex : e.tdex ≡ enc_bit 1 (encoding s)
  pub tdbw : e.tdbw ≡ enc_bit 2 (encoding s)
  pub tdb : e.tdb ≡ enc_bit 3 (encoding s)
  pub tdp : e.tdp ≡ enc_bit 4 (encoding s)
  pub ipat : e.ipat ≡ enc_bit 5 (encoding s)
  pub leaf : e.leaf ≡ enc_bit 6 (encoding s)
