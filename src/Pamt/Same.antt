-- ===== src/Pamt/Same.antt =====
-- src/common/memory_handlers/pamt_manager.c: types and sizes of pages that the tests take for the same are.
use tdx_module.Base.{ℕ, ◌≡◌, refl, sym, ap, ◌∙◌, arith, true, ◌==◌, if◌then◌else◌}
use tdx_module.Pamt.State.{
  PageType, pt_nda, pt_rsvd, pt_reg, pt_tdr, pt_tdcx, pt_tdvpr, pt_ept, PageSize, pt_4kb, pt_2mb,
  pt_1gb,
}
use tdx_module.Pamt.Walk.{is_reg, is_size}
use tdx_module.Pamt.Resize.{code_of, is_type}

pub reg_type : (t : PageType) → is_reg t ≡ true → t ≡ pt_reg
reg_type pt_nda h = cc (h)
reg_type pt_rsvd h = cc (h)
reg_type pt_reg h = refl
reg_type pt_tdr h = cc (h)
reg_type pt_tdcx h = cc (h)
reg_type pt_tdvpr h = cc (h)
reg_type pt_ept h = cc (h)

pub same_size : (s t : PageSize) → is_size s t ≡ true → s ≡ t
same_size pt_4kb pt_4kb h = refl
same_size pt_4kb pt_2mb h = cc (h)
same_size pt_4kb pt_1gb h = cc (h)
same_size pt_2mb pt_4kb h = cc (h)
same_size pt_2mb pt_2mb h = refl
same_size pt_2mb pt_1gb h = cc (h)
same_size pt_1gb pt_4kb h = cc (h)
same_size pt_1gb pt_2mb h = cc (h)
same_size pt_1gb pt_1gb h = refl

pub is_size-same : (s : PageSize) → is_size s s ≡ true
is_size-same pt_4kb = refl
is_size-same pt_2mb = refl
is_size-same pt_1gb = refl

abbrev type_of_code : ℕ → PageType
type_of_code n =
    if n == 0
    then pt_nda
    else (if n == 1
        then pt_rsvd
        else (if n == 3
            then pt_reg
            else (if n == 4
                then pt_tdr
                else (if n == 5 then pt_tdcx else (if n == 6 then pt_tdvpr else pt_ept)))))

type_of_code-code_of : (t : PageType) → type_of_code (code_of t) ≡ t
type_of_code-code_of pt_nda = refl
type_of_code-code_of pt_rsvd = refl
type_of_code-code_of pt_reg = refl
type_of_code-code_of pt_tdr = refl
type_of_code-code_of pt_tdcx = refl
type_of_code-code_of pt_tdvpr = refl
type_of_code-code_of pt_ept = refl

pub same_type : (s t : PageType) → is_type s t ≡ true → s ≡ t
same_type s t h =
    let codes : code_of s ≡ code_of t = ground (arith, h) in
    sym (type_of_code-code_of s) ∙ ap type_of_code codes ∙ type_of_code-code_of t
