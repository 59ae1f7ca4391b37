-- ===== src/Sept/Flags.antt =====
-- include/auto_gen/sept_state_lookup.c, src/common/memory_handlers/sept_manager.h: what the module
-- allows in each state of a secure EPT entry, and the queries that read it.
pub mod Bits
use tdx_module.Base.{ℕ, Bool, true, false, List, [], ◌∷◌, ◌==◌, if◌then◌else◌}
use tdx_module.Sept.Entry.{Septe, encoding_of}

pub record SpecialFlags : Type 0 where
  pub public_state : ℕ
  pub live_export_allowed : Bool
  pub paused_export_allowed : Bool
  pub first_time_export_allowed : Bool
  pub re_export_allowed : Bool
  pub export_cancel_allowed : Bool
  pub first_time_import_allowed : Bool
  pub re_import_allowed : Bool
  pub import_cancel_allowed : Bool
  pub mapped_or_pending : Bool
  pub any_exported : Bool
  pub any_exported_and_dirty : Bool
  pub any_exported_and_non_dirty : Bool
  pub any_pending : Bool
  pub any_pending_and_guest_acceptable : Bool
  pub any_blocked : Bool
  pub any_blockedw : Bool
  pub guest_fully_accessible_leaf : Bool
  pub tlb_tracking_required : Bool
  pub guest_accessible_leaf : Bool
  pub index : ℕ

-- A row, its fields in the order of the record.
abbrev row :
    ℕ
    → (live_export_allowed paused_export_allowed first_time_export_allowed re_export_allowed
        export_cancel_allowed first_time_import_allowed re_import_allowed import_cancel_allowed
        mapped_or_pending any_exported any_exported_and_dirty any_exported_and_non_dirty any_pending
        any_pending_and_guest_acceptable any_blocked any_blockedw guest_fully_accessible_leaf
        tlb_tracking_required guest_accessible_leaf : Bool)
    → ℕ
    → SpecialFlags
row public_state live_export_allowed paused_export_allowed first_time_export_allowed
      re_export_allowed export_cancel_allowed first_time_import_allowed re_import_allowed
      import_cancel_allowed mapped_or_pending any_exported any_exported_and_dirty
      any_exported_and_non_dirty any_pending any_pending_and_guest_acceptable any_blocked
      any_blockedw guest_fully_accessible_leaf tlb_tracking_required guest_accessible_leaf index =
    record {
      public_state = public_state;
      live_export_allowed = live_export_allowed;
      paused_export_allowed = paused_export_allowed;
      first_time_export_allowed = first_time_export_allowed;
      re_export_allowed = re_export_allowed;
      export_cancel_allowed = export_cancel_allowed;
      first_time_import_allowed = first_time_import_allowed;
      re_import_allowed = re_import_allowed;
      import_cancel_allowed = import_cancel_allowed;
      mapped_or_pending = mapped_or_pending;
      any_exported = any_exported;
      any_exported_and_dirty = any_exported_and_dirty;
      any_exported_and_non_dirty = any_exported_and_non_dirty;
      any_pending = any_pending;
      any_pending_and_guest_acceptable = any_pending_and_guest_acceptable;
      any_blocked = any_blocked;
      any_blockedw = any_blockedw;
      guest_fully_accessible_leaf = guest_fully_accessible_leaf;
      tlb_tracking_required = tlb_tracking_required;
      guest_accessible_leaf = guest_accessible_leaf;
      index = index;
    }

-- An entry of the array that the table does not list.
abbrev unlisted : SpecialFlags
unlisted =
    row 0 false false false false false false false false false false false false false false false
      false false false false 0

abbrev pub sept_special_flags_lookup : List (ℕ × SpecialFlags)
sept_special_flags_lookup =
    (
      14,
      row 0 false false false false false true false false false false false false false false false
          false false false false 0,
    )
    ∷ (
      12,
      row 5 false false false false false true false false false false false false false false false
          false false false false 1,
    )
    ∷ (
      0,
      row 132 false false false false false false false false false false false false false false
          false false false true false 2,
    )
    ∷ (
      8,
      row 129 false false false false false false false false false false false false false false
          true false false true false 3,
    )
    ∷ (
      96,
      row 4 false true true false false false true true true false false false false false false
          false true true true 4,
    )
    ∷ (
      104,
      row 1 false false false false false false false false false false false false false false true
          false false true false 5,
    )
    ∷ (
      100,
      row 8 true true true false false false false false false false false false false false false
          true false true true 6,
    )
    ∷ (
      102,
      row 9 true true false false true false false false false true false true false false false
          true false false true 7,
    )
    ∷ (
      99,
      row 11 false true false true true false false false false true true false false false false
          false true true true 8,
    )
    ∷ (
      103,
      row 12 true true false true true false false false false true true false false false false
          true false true true 9,
    )
    ∷ (
      112,
      row 2 false true true false false false true true true false false false true true false false
          false true false 10,
    )
    ∷ (
      120,
      row 3 false false false false false false false false false false false false true false true
          false false true false 11,
    )
    ∷ (
      116,
      row 16 true true true false false false false false false false false false true false false
          true false true false 12,
    )
    ∷ (
      118,
      row 17 true true false false true false false false false true false true true false false
          true false false false 13,
    )
    ∷ (
      115,
      row 19 false true false true true false false false false true true false true true false
          false false true false 14,
    )
    ∷ (
      119,
      row 20 true true false true true false false false false true true false true false false true
          false true false 15,
    )
    ∷ []

abbrev pub at_index : List (ℕ × SpecialFlags) → ℕ → SpecialFlags
at_index [] i = unlisted
at_index ((j, f) ∷ rest) i = let later = at_index rest i in if j == i then f else later

-- The row of an entry's state.
abbrev pub flags_of : Septe → SpecialFlags
flags_of e = at_index sept_special_flags_lookup (encoding_of e)

abbrev pub sept_state_is_live_export_allowed : Septe → Bool
sept_state_is_live_export_allowed e = (flags_of e).live_export_allowed

abbrev pub sept_state_is_paused_export_allowed : Septe → Bool
sept_state_is_paused_export_allowed e = (flags_of e).paused_export_allowed

abbrev pub sept_state_is_re_export_allowed : Septe → Bool
sept_state_is_re_export_allowed e = (flags_of e).re_export_allowed

abbrev pub sept_state_is_re_import_allowed : Septe → Bool
sept_state_is_re_import_allowed e = (flags_of e).re_import_allowed

abbrev pub sept_state_is_export_cancel_allowed : Septe → Bool
sept_state_is_export_cancel_allowed e = (flags_of e).export_cancel_allowed

abbrev pub sept_state_is_import_cancel_allowed : Septe → Bool
sept_state_is_import_cancel_allowed e = (flags_of e).import_cancel_allowed

abbrev pub sept_state_is_first_time_export_allowed : Septe → Bool
sept_state_is_first_time_export_allowed e = (flags_of e).first_time_export_allowed

abbrev pub sept_state_is_first_time_import_allowed : Septe → Bool
sept_state_is_first_time_import_allowed e = (flags_of e).first_time_import_allowed

abbrev pub sept_state_is_any_exported : Septe → Bool
sept_state_is_any_exported e = (flags_of e).any_exported

abbrev pub sept_state_is_any_exported_and_dirty : Septe → Bool
sept_state_is_any_exported_and_dirty e = (flags_of e).any_exported_and_dirty

abbrev pub sept_state_is_any_exported_and_non_dirty : Septe → Bool
sept_state_is_any_exported_and_non_dirty e = (flags_of e).any_exported_and_non_dirty

abbrev pub sept_state_is_any_blockedw : Septe → Bool
sept_state_is_any_blockedw e = (flags_of e).any_blockedw

abbrev pub sept_state_is_mapped_or_pending : Septe → Bool
sept_state_is_mapped_or_pending e = (flags_of e).mapped_or_pending

abbrev pub sept_state_is_any_pending : Septe → Bool
sept_state_is_any_pending e = (flags_of e).any_pending

abbrev pub sept_state_is_any_pending_and_guest_acceptable : Septe → Bool
sept_state_is_any_pending_and_guest_acceptable e = (flags_of e).any_pending_and_guest_acceptable

abbrev pub sept_state_is_any_blocked : Septe → Bool
sept_state_is_any_blocked e = (flags_of e).any_blocked

abbrev pub sept_state_is_tlb_tracking_required : Septe → Bool
sept_state_is_tlb_tracking_required e = (flags_of e).tlb_tracking_required

abbrev pub sept_state_is_guest_accessible_leaf : Septe → Bool
sept_state_is_guest_accessible_leaf e = (flags_of e).guest_accessible_leaf

abbrev pub sept_get_arch_state : Septe → ℕ
sept_get_arch_state e = (flags_of e).public_state
