-- ===== src/Sept/L2.antt =====
-- src/common/memory_handlers/sept_manager.h, src/common/memory_handlers/sept_manager.c,
-- src/vmm_dispatcher/api_calls/tdh_mem_range_block.c: the entries of the secure EPT of an L2 VM.
pub mod Attributes
use tdx_module.Base.{ℕ, ◌+◌, ◌*◌, ◌/◌, ◌%◌, ◌^◌, Bool, true, false, not, ◌==◌, if◌then◌else◌}
use tdx_module.Sept.Entry.{Septe, bit, enc_bit}
use tdx_module.Sept.State.{mt_wb, mt_0, page_4k_num, zero_entry, is_secure_ept_leaf_entry}

pub data L2State : Type 0 where
  l2_free l2_nl_mapped l2_nl_blocked l2_mapped l2_blocked : L2State

abbrev pub l2_encoding : L2State → ℕ
l2_encoding l2_free = 0x0
l2_encoding l2_nl_mapped = 0x8
l2_encoding l2_nl_blocked = 0x1
l2_encoding l2_mapped = 0x6
l2_encoding l2_blocked = 0x7

-- L2_SEPT_CONVERT_TO_ENCODING.
abbrev pub l2_encoding_of : Septe → ℕ
l2_encoding_of e = bit e.tdb + bit e.ipat * 2 + bit e.leaf * 4 + bit e.r * 8

abbrev without_r : Septe → Septe
without_r e = record e { r = false }

abbrev pub is_l2_sept_nl_blocked : Septe → Bool
is_l2_sept_nl_blocked e = l2_encoding_of e == l2_encoding l2_nl_blocked

abbrev pub is_l2_sept_blocked : Septe → Bool
is_l2_sept_blocked e = l2_encoding_of (without_r e) == l2_encoding l2_blocked

abbrev pub is_l2_sept_mapped : Septe → Bool
is_l2_sept_mapped e = l2_encoding_of (without_r e) == l2_encoding l2_mapped

abbrev pub is_l2_sept_free : Septe → Bool
is_l2_sept_free e = l2_encoding_of e == l2_encoding l2_free

-- L2_SEPT_STATE_ENC_TO_MASK has no place for bit 3 of an encoding, the R bit.
abbrev with_l2_state : Septe → L2State → Septe
with_l2_state e s = record e {
  tdb = enc_bit 0 (l2_encoding s);
  ipat = enc_bit 1 (l2_encoding s);
  leaf = enc_bit 2 (l2_encoding s);
}

-- A mask without R is used for the leaf states; else R is cleared.
abbrev pub sept_l2_update_state : Septe → L2State → Septe
sept_l2_update_state e l2_mapped = with_l2_state e l2_mapped
sept_l2_update_state e l2_blocked = with_l2_state e l2_blocked
sept_l2_update_state e l2_free = without_r (with_l2_state e l2_free)
sept_l2_update_state e l2_nl_mapped = without_r (with_l2_state e l2_nl_mapped)
sept_l2_update_state e l2_nl_blocked = without_r (with_l2_state e l2_nl_blocked)

pub record GpaAttr : Type 0 where
  pub r : Bool
  pub w : Bool
  pub xs : Bool
  pub xu : Bool
  pub vgp : Bool
  pub pwa : Bool
  pub sss : Bool
  pub sve : Bool
  pub valid : Bool

abbrev with_attributes : Septe → GpaAttr → Septe
with_attributes e g = record e {
  r = g.r;
  w = g.w;
  x = g.xs;
  xu = g.xu;
  vpw = g.vgp;
  pw = g.pwa;
  sss = g.sss;
  supp_ve = g.sve;
}

-- The rights are saved in TDRD, TDWR, TDXS and TDXU, and cleared.
abbrev save_rights : Septe → Septe
save_rights e = record e {
  mt0 = e.r;
  r = false;
  tdwr = e.w;
  w = false;
  mt1 = e.x;
  x = false;
  mt2 = e.xu;
  xu = false;
}

unfoldable pub sept_l2_set_leaf : Septe → GpaAttr → ℕ → Bool → Septe
sept_l2_set_leaf e g pa is_l2_blocked =
    let tmp : Septe = record (mt_wb (record (with_attributes e g) { base = page_4k_num pa })) {
      tdwr = false;
      ipat = true;
    } in
    if is_l2_blocked
    then sept_l2_update_state (save_rights tmp) l2_blocked
    else sept_l2_update_state tmp l2_mapped

abbrev with_rw_xs_xu : Septe → Septe
with_rw_xs_xu e = record e { r = true; w = true; x = true; xu = true }

unfoldable pub sept_l2_set_mapped_non_leaf : ℕ → Septe
sept_l2_set_mapped_non_leaf page_pa =
    record (with_rw_xs_xu (with_l2_state zero_entry l2_nl_mapped)) { base = page_4k_num page_pa }

unfoldable pub l2_sept_update_gpa_attr : Septe → GpaAttr → Septe
l2_sept_update_gpa_attr e g =
    let e1 = with_attributes e g in if is_l2_sept_blocked e1 then save_rights e1 else e1

abbrev no_attributes : GpaAttr
no_attributes = record {
  r = false;
  w = false;
  xs = false;
  xu = false;
  vgp = false;
  pwa = false;
  sss = false;
  sve = false;
  valid = false;
}

abbrev leaf_attributes : Septe → GpaAttr
leaf_attributes e = record {
  r = e.r;
  w = e.w;
  xs = e.x;
  xu = e.xu;
  vgp = e.vpw;
  pwa = e.pw;
  sss = e.sss;
  sve = e.supp_ve;
  valid = true;
}

abbrev saved_rights : Septe → GpaAttr → GpaAttr
saved_rights e g = record g { r = e.mt0; xs = e.mt1; xu = e.mt2 }

unfoldable pub l2_sept_get_gpa_attr : Septe → Bool → GpaAttr
l2_sept_get_gpa_attr e is_blockedw =
    if is_l2_sept_free e
    then record no_attributes { sve = e.supp_ve }
    else (if e.leaf
        then (if is_l2_sept_blocked e
            then (if is_blockedw
                then record (leaf_attributes e) { w = e.tdwr }
                else saved_rights e (record (leaf_attributes e) { w = e.tdwr }))
            else leaf_attributes e)
        else record no_attributes { r = true; w = true; xs = true; xu = true; valid = true })

unfoldable pub sept_l2_unblock : Septe → Septe
sept_l2_unblock e =
    if is_l2_sept_nl_blocked e
    then record (mt_0 (with_rw_xs_xu (sept_l2_update_state e l2_nl_mapped))) { tdwr = false }
    else (if is_l2_sept_blocked e
        then record (mt_wb (record (sept_l2_update_state e l2_mapped) {
          r = e.mt0;
          w = e.tdwr;
          x = e.mt1;
          xu = e.mt2;
        })) { tdwr = false }
        else e)

abbrev no_rights : Septe → Septe
no_rights e = record e { r = false; w = false; x = false; xu = false }

unfoldable pub block_l2_sept_entry : Septe → Bool → Septe
block_l2_sept_entry e is_l1_blockedw =
    let tmp : Septe = if is_l1_blockedw then e else record e { tdwr = e.w } in
    if is_secure_ept_leaf_entry e
    then no_rights
        (sept_l2_update_state (record tmp { mt0 = e.r; mt1 = e.x; mt2 = e.xu }) l2_blocked)
    else no_rights (sept_l2_update_state e l2_nl_blocked)
