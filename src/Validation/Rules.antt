-- ===== src/Validation/Rules.antt =====
-- core/validation/validateRows.js: the per-row checks of `validateImportJob`.
--
-- The three batched queries (the groups of equal identities, the target's existing identities and
-- its resolved references) are the database's and the target's: their answers are an argument.
pub mod Laws
pub mod Sound
use universal_data_onboarder.Base.{
  ℕ, suc, ◌%◌, ◌^◌, Bool, true, false, not, ◌&&◌, ◌||◌, List, [], ◌∷◌, ◌++◌, Option, none, some,
  any, filter, ◌==◌, Text, ◌===◌, includes, if◌then◌else◌,
}
use universal_data_onboarder.Base.Dict.{Dict, get}
use universal_data_onboarder.Value.{
  Value, null, bool, num, str, date, Fields, Host, is_nan, to_text, field, is_null, is_blank,
}
use universal_data_onboarder.Registry.{FieldSpec, Descriptor}
use universal_data_onboarder.Store.{
  ValidationStatus, valid, invalid, RowError, is_required, not_in_enum, duplicate_in_file,
  already_exists, not_found, StagedRow,
}

pub record Answers : Type 0 where
  pub duplicate_identity_values : List Value
  pub existing_identities : List Text
  -- The values that are found, for each reference field; `none` where the target has none.
  pub reference_lookups : Option (Dict (List Value))

-- `find`, for a label: `fields.find((f) => f.key === key)?.label ?? key`
label_of : List FieldSpec → Text → Text
unfolding ◌===◌
label_of [] key = key
label_of (f ∷ fs) key = let later = label_of fs key in if f.key === key then f.label else later

unfoldable pub required_errors : List FieldSpec → Fields → List FieldSpec → List RowError
unfolding is_blank label_of
required_errors all mf [] = []
required_errors all mf (f ∷ fs) =
    let rest = required_errors all mf fs in
    if f.required && is_blank (field mf f.key)
    then is_required (label_of all f.key) ∷ rest
    else rest

-- `field.enum.includes(value)`: the entries are texts.
pub in_enum : List Text → Value → Bool
unfolding ◌===◌
in_enum enum (str s) = includes enum s
in_enum enum _ = false

abbrev pub is_filled : List Text → Bool
is_filled [] = false
is_filled (t ∷ ts) = true

unfoldable pub enum_errors : Fields → List FieldSpec → List RowError
unfolding is_blank in_enum
enum_errors mf [] = []
enum_errors mf (f ∷ fs) =
    let rest = enum_errors mf fs in
    if is_filled f.enum && not (is_blank (field mf f.key)) && not (in_enum f.enum (field mf f.key))
    then not_in_enum f.label (field mf f.key) f.enum ∷ rest
    else rest

-- The equality of a `Set` or a `Map`: two dates are two objects, and never the same; the two zeros
-- are, and so are all that is not a number.
same_bits : ℕ → ℕ → Bool
unfolding is_nan
same_bits a b = a == b || (a % 2 ^ 63 == 0 && b % 2 ^ 63 == 0) || (is_nan a && is_nan b)

unfoldable pub same_value : Value → Value → Bool
unfolding same_bits ◌===◌
same_value null null = true
same_value (bool true) (bool true) = true
same_value (bool false) (bool false) = true
same_value (num a) (num b) = same_bits a b
same_value (str s) (str t) = s === t
same_value _ _ = false

abbrev pub has_value : List Value → Value → Bool
has_value vs v = any (λ w. same_value w v) vs

-- The second row of a duplicate group, and each later one, is told so; the first is not.
repeated_errors : List Value → List Value → Text → Value → List RowError
repeated_errors duplicates seen identity_field v =
    if has_value duplicates v && has_value seen v then duplicate_in_file identity_field ∷ [] else []

existing_errors : Host → List Text → Text → Value → List RowError
unfolding to_text ◌===◌
existing_errors h existing identity_field v =
    if includes existing (to_text h v) then already_exists identity_field ∷ [] else []

unfoldable pub identity_errors : Host → Answers → List Value → Text → Value → List RowError
unfolding repeated_errors existing_errors
identity_errors h a seen identity_field v =
    if is_null v
    then []
    else repeated_errors a.duplicate_identity_values seen identity_field v
      ++ existing_errors h a.existing_identities identity_field v

-- `seenIdentityValues` after the row.
unfoldable pub now_seen : Answers → List Value → Value → List Value
now_seen a seen v =
    if not (is_null v) && has_value a.duplicate_identity_values v then v ∷ seen else seen

found_in : Option (List Value) → Value → Bool
unfolding same_value
found_in none v = false
found_in (some vs) v = has_value vs v

lookup_errors : List FieldSpec → Dict (List Value) → Fields → List Text → List RowError
unfolding found_in label_of
lookup_errors all lookups mf [] = []
lookup_errors all lookups mf (key ∷ keys) =
    let rest = lookup_errors all lookups mf keys in
    if not (is_null (field mf key)) && not (found_in (get lookups key) (field mf key))
    then not_found (label_of all key) (field mf key) ∷ rest
    else rest

unfoldable pub reference_errors :
    List FieldSpec → Option (Dict (List Value)) → Fields → List Text → List RowError
unfolding lookup_errors
reference_errors all none mf keys = []
reference_errors all (some lookups) mf keys = lookup_errors all lookups mf keys

abbrev pub mapped_of : StagedRow → Fields
mapped_of r = elim r.mapped_fields [ none ↦ [] | some mf ↦ mf ]

abbrev pub identity_of : Descriptor → StagedRow → Value
identity_of d r = field (mapped_of r) d.identity_field

unfoldable pub row_errors : Host → Descriptor → Answers → List Value → StagedRow → List RowError
unfolding required_errors enum_errors identity_errors reference_errors field
row_errors h d a seen r =
    required_errors d.fields (mapped_of r) d.fields
    ++ enum_errors (mapped_of r) d.fields
    ++ identity_errors h a seen d.identity_field (identity_of d r)
    ++ reference_errors d.fields a.reference_lookups (mapped_of r) d.reference_fields

-- The loop over the cursor's rows: the errors of each.
unfoldable pub check_rows :
    Host → Descriptor → Answers → List Value → List StagedRow → List (StagedRow × List RowError)
unfolding row_errors now_seen
check_rows h d a seen [] = []
check_rows h d a seen (r ∷ rs) =
    (r, row_errors h d a seen r) ∷ check_rows h d a (now_seen a seen (identity_of d r)) rs

abbrev pub is_valid : List RowError → Bool
is_valid [] = true
is_valid (e ∷ es) = false

abbrev pub status_of : List RowError → ValidationStatus
status_of [] = valid
status_of (e ∷ es) = invalid
