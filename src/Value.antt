-- ===== src/Value.antt =====
-- The JavaScript values of an imported row, and the conversions of the language that the code
-- calls on them.
--
-- A number is the bit pattern of its IEEE double and a date the bit pattern of its time value.
-- The conversions between numbers, dates and text are arguments (a `Host`).
pub mod Sample
use universal_data_onboarder.Base.{
  ℕ, ◌^◌, ◌/◌, ◌%◌, Bool, true, false, none, some, ◌==◌, not, Text, codes, if◌then◌else◌, [],
}
use universal_data_onboarder.Base.Dict.{Dict, get}

pub data Value : Type 0 where
  null : Value
  bool : Bool → Value
  num : ℕ → Value
  str : Text → Value
  date : ℕ → Value

-- An object: the fields of a row.
abbrev pub Fields : Type 0
Fields = Dict Value

-- `Number(s)`, `new Date(s).getTime()`, `new Date(n).getTime()`, `String(n)` and `String(d)`.
pub record Host : Type 0 where
  pub number_of_text : Text → ℕ
  pub date_of_text : Text → ℕ
  pub date_of_number : ℕ → ℕ
  pub text_of_number : ℕ → Text
  pub text_of_date : ℕ → Text

-- `Number.isFinite` of a double: its exponent bits are not all ones.
unfoldable pub is_finite : ℕ → Bool
is_finite n = not ((n / 2 ^ 52) % 2 ^ 11 == 2047)

-- `Number.isNaN` of a double: all ones in the exponent, and a fraction that is not 0.
unfoldable pub is_nan : ℕ → Bool
is_nan n = if (n / 2 ^ 52) % 2 ^ 11 == 2047 then not (n % 2 ^ 52 == 0) else false

-- `String(v)`
unfoldable pub to_text : Host → Value → Text
to_text h null = codes "null"
to_text h (bool true) = codes "true"
to_text h (bool false) = codes "false"
to_text h (num n) = h.text_of_number n
to_text h (str s) = s
to_text h (date d) = h.text_of_date d

-- `o[k]`, where a missing key and `null` both satisfy `== null`.
unfoldable pub field : Fields → Text → Value
field o k = elim (get o k) [ none ↦ null | some v ↦ v ]

-- `v == null`
abbrev pub is_null : Value → Bool
is_null null = true
is_null _ = false

-- `v == null || v === ""`
unfoldable pub is_blank : Value → Bool
is_blank null = true
is_blank (str []) = true
is_blank _ = false
