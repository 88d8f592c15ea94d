-- ===== src/Registry/Coerce.antt =====
-- registry/importTargetRegistry.service.js: `coerceFieldValue`.
use universal_data_onboarder.Base.{
  ℕ, ◌≡◌, Bool, true, false, List, [], ◌∷◌, map, lower, Text, codes, ◌===◌, includes, trim,
  if◌then◌else◌, inl, inr, Bool-cases,
}
use universal_data_onboarder.Base.Result.{Result, ok, err}
use universal_data_onboarder.Value.{
  Value, null, bool, num, str, date as date_value, Host, is_finite, is_nan, to_text,
}
use universal_data_onboarder.Registry.{FieldType, string, number, date, boolean}

-- Both are thrown with status code 400.
pub data CoerceError : Type 0 where
  not_a_number not_a_date : Text → CoerceError

-- The double 1.
abbrev one_bits : ℕ
one_bits = 0x3ff0_0000_0000_0000

-- `Number(v)`. The number of a date is its time value.
number_of : Host → Value → ℕ
number_of h null = 0
number_of h (bool true) = one_bits
number_of h (bool false) = 0
number_of h (num n) = n
number_of h (str s) = h.number_of_text s
number_of h (date_value d) = d

-- `new Date(v).getTime()`
time_of : Host → Value → ℕ
time_of h null = h.date_of_number 0
time_of h (bool true) = h.date_of_number one_bits
time_of h (bool false) = h.date_of_number 0
time_of h (num n) = h.date_of_number n
time_of h (str s) = h.date_of_text s
time_of h (date_value d) = d

-- `/^(true|1|yes|y)$/i`
abbrev affirmative : List Text
affirmative = map codes ("true" ∷ "1" ∷ "yes" ∷ "y" ∷ [])

as_boolean : Host → Value → Bool
unfolding lower to_text ◌===◌
as_boolean h (bool b) = b
as_boolean h v = includes affirmative (map lower (to_text h v))

abbrev is_absent : Value → Bool
is_absent null = true
is_absent (str []) = true
is_absent _ = false

coerce_present : Host → FieldType → Value → Text → Result CoerceError Value
unfolding number_of time_of as_boolean trim to_text is_finite is_nan
coerce_present h number v label =
    if is_finite (number_of h v) then ok (num (number_of h v)) else err (not_a_number label)
coerce_present h date v label =
    if is_nan (time_of h v) then err (not_a_date label) else ok (date_value (time_of h v))
coerce_present h boolean v label = ok (bool (as_boolean h v))
coerce_present h string v label = ok (str (trim (to_text h v)))

unfoldable pub coerce_field_value : Host → FieldType → Value → Text → Result CoerceError Value
unfolding coerce_present
coerce_field_value h type v label = if is_absent v then ok null else coerce_present h type v label

-- The values of a type of field, null among them.
pub data HasType : FieldType → Value → Type 0 where
  absent : {t : FieldType} → HasType t null
  finite : {n : ℕ} → is_finite n ≡ true → HasType number (num n)
  valid : {d : ℕ} → is_nan d ≡ false → HasType date (date_value d)
  truth : {b : Bool} → HasType boolean (bool b)
  text : {s : Text} → HasType string (str s)

pub data Coerced (t : FieldType) : Result CoerceError Value → Type 0 where
  well : {v : Value} → HasType t v → Coerced t (ok v)
  refused : {e : CoerceError} → Coerced t (err e)

coerce_present-Coerced :
    (h : Host) (t : FieldType) (v : Value) (label : Text) → Coerced t (coerce_present h t v label)
unfolding coerce_present
coerce_present-Coerced h number v label = elim (Bool-cases (is_finite (number_of h v))) [
  | inl e ↦ rw e (well (finite e))
  | inr e ↦ rw e refused
]
coerce_present-Coerced h date v label = elim (Bool-cases (is_nan (time_of h v))) [
  | inl e ↦ rw e refused
  | inr e ↦ rw e (well (valid e))
]
coerce_present-Coerced h boolean v label = well truth
coerce_present-Coerced h string v label = well text

-- A coercion fails, or gives a value of the field's type: a finite number, a valid date, a
-- Boolean or a text, or null.
pub coerce_field_value-Coerced :
    (h : Host) (t : FieldType) (v : Value) (label : Text)
    → Coerced t (coerce_field_value h t v label)
unfolding coerce_field_value
coerce_field_value-Coerced h t v label = elim (Bool-cases (is_absent v)) [
  | inl e ↦ rw e (well absent)
  | inr e ↦ rw e (coerce_present-Coerced h t v label)
]
