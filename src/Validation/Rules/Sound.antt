-- ===== src/Validation/Rules/Sound.antt =====
-- core/validation/validateRows.js: what a row without errors satisfies.
use universal_data_onboarder.Base.{◌≡◌, true, false, List, [], ◌∷◌, ◌++◌, All, arith}
use universal_data_onboarder.Value.{Value, Fields, Host, field, is_blank}
use universal_data_onboarder.Registry.{FieldSpec, Descriptor}
use universal_data_onboarder.Store.{StagedRow}
use universal_data_onboarder.Validation.Rules.{
  Answers, in_enum, is_filled, is_valid, mapped_of, identity_of, required_errors, enum_errors,
  identity_errors, reference_errors, row_errors,
}
use universal_data_onboarder.Validation.Rules.Laws.{is_valid-append}

-- A required field is filled, and a filled field of a listed kind has a listed value.
abbrev pub FieldFits : Fields → FieldSpec → Type 0
FieldFits mf f =
    (f.required ≡ true → is_blank (field mf f.key) ≡ false)
    × (is_filled f.enum ≡ true
        → is_blank (field mf f.key) ≡ false
        → in_enum f.enum (field mf f.key) ≡ true)

fits-first :
    (all : List FieldSpec) (mf : Fields) (f : FieldSpec) (fs : List FieldSpec)
    → is_valid (required_errors all mf (f ∷ fs)) ≡ true
    → is_valid (enum_errors mf (f ∷ fs)) ≡ true
    → FieldFits mf f
      × (is_valid (required_errors all mf fs) ≡ true)
      × (is_valid (enum_errors mf fs) ≡ true)
unfolding required_errors enum_errors
fits-first all mf f fs p q = ((λ r. ground arith, λ e b. ground arith), ground arith, ground arith)

fits_each :
    (all : List FieldSpec) (mf : Fields) (fs : List FieldSpec)
    → is_valid (required_errors all mf fs) ≡ true
    → is_valid (enum_errors mf fs) ≡ true
    → All (FieldFits mf) fs
fits_each all mf [] p q = tt
fits_each all mf (f ∷ fs) p q =
    let (here, p', q') = fits-first all mf f fs p q in (here, fits_each all mf fs p' q')

-- A row without errors has a value in each required field, and only listed values in the fields
-- that have a list of values.
pub row_errors_sound :
    (h : Host) (d : Descriptor) (a : Answers) (seen : List Value) (r : StagedRow)
    → is_valid (row_errors h d a seen r) ≡ true
    → All (FieldFits (mapped_of r)) d.fields
unfolding row_errors
row_errors_sound h d a seen r v =
    let mf = mapped_of r in
    let own = identity_errors h a seen d.identity_field (identity_of d r) in
    let found = reference_errors d.fields a.reference_lookups mf d.reference_fields in
    let listed = enum_errors mf d.fields in
    let first = required_errors d.fields mf d.fields in
    let middle = is_valid-append listed (own ++ found) in
    let whole = is_valid-append first (listed ++ own ++ found) in
    fits_each d.fields mf d.fields (ground arith) (ground arith)
