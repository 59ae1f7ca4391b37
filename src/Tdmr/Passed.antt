-- ===== src/Tdmr/Passed.antt =====
-- What it tells that a sequence of checks has passed.
use tdx_module.Base.{ℕ, ◌+◌, ◌≤◌, ◌≡◌, ◌⊎◌, refl, arith, Bool, true, false, Option, none, some}
use tdx_module.ErrorCodes.{ApiErrorType}
use tdx_module.Hpa.{is_overlap}
use tdx_module.Tdmr.{Check, passed, failed, fatal, ◌>>◌, refuse_if}
use tdx_module.Tdmr.Areas.{refuse_overlap}

pub parts : (c d : Check) → (c >> d) ≡ passed → (c ≡ passed) × (d ≡ passed)
parts passed d e = (refl, e)
parts (failed x) d e = absurd (cc)
parts fatal d e = absurd (cc)

pub not_refused : (b : Bool) (e : ApiErrorType) → refuse_if b e ≡ passed → b ≡ false
not_refused true e h = absurd (cc)
not_refused false e h = refl

not_overlapping :
    (o : Option Bool) (e : ApiErrorType) → refuse_overlap o e ≡ passed → o ≡ some false
not_overlapping none e h = absurd (cc)
not_overlapping (some true) e h = absurd (cc)
not_overlapping (some false) e h = refl

abbrev pub Disjoint : ℕ → ℕ → ℕ → ℕ → Type 0
Disjoint base size base2 size2 = (base2 + size2 ≤ base) ⊎ (base + size ≤ base2)

pub is_overlap-Disjoint :
    (base size base2 size2 : ℕ)
    → is_overlap base size base2 size2 ≡ some false
    → Disjoint base size base2 size2
unfolding is_overlap
is_overlap-Disjoint base size base2 size2 e = ground arith

pub refuse_overlap-Disjoint :
    (base size base2 size2 : ℕ) (e : ApiErrorType)
    → refuse_overlap (is_overlap base size base2 size2) e ≡ passed
    → Disjoint base size base2 size2
refuse_overlap-Disjoint base size base2 size2 e h =
    is_overlap-Disjoint base size base2 size2 (not_overlapping _ e h)
