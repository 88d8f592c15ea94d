-- ===== src/Mapping/Reshape/Row.antt =====
-- core/mapping/applyMapping.js: what the loop of `applyMapping` makes of one row.
use universal_data_onboarder.Base.{
  ◌≡◌, ◌∙◌, refl, false, List, [], ◌∷◌, map, Option, none, some, Text, ◌===◌, ===_iff, includes,
  arith, Bool-cases, inl, inr, if◌then◌else◌,
}
use universal_data_onboarder.Base.Dict.{Dict, get, put, remove, get-put, get-remove}
use universal_data_onboarder.Base.Result.{Result, ok, err}
use universal_data_onboarder.Value.{Value, null, bool, num, str, date, Fields, Host}
use universal_data_onboarder.Registry.{FieldSpec}
use universal_data_onboarder.Registry.Coerce.{CoerceError, coerce_field_value}

-- `new Map(fields.map((f) => [f.key, f]))`
fields_from : Dict FieldSpec → List FieldSpec → Dict FieldSpec
fields_from d [] = d
fields_from d (f ∷ fs) = fields_from (put d f.key f) fs

unfoldable pub fields_by_key : List FieldSpec → Dict FieldSpec
unfolding fields_from put
fields_by_key fields = fields_from [] fields

-- `if (coerced != null) mappedFields[targetKey] = coerced`; a coercion that throws is skipped.
store_coerced : Fields → Text → Result CoerceError Value → Fields
store_coerced done target (err e) = done
store_coerced done target (ok null) = done
store_coerced done target (ok (bool b)) = put done target (bool b)
store_coerced done target (ok (num n)) = put done target (num n)
store_coerced done target (ok (str s)) = put done target (str s)
store_coerced done target (ok (date d)) = put done target (date d)

coerce_with : Host → Fields → Text → Value → Option FieldSpec → Fields
unfolding store_coerced
coerce_with h done target v none = done
coerce_with h done target v (some f) =
    store_coerced done target (coerce_field_value h f.type v f.label)

module _ (h : Host) (fields : Dict FieldSpec) where
  -- One entry of the field map, on a column that is still there, or is not.
  map_column : Fields × Fields → Text → Text → Option Value → Fields × Fields
  unfolding coerce_with
  map_column (done, left) source target none = (done, left)
  map_column (done, left) source target (some v) =
      (coerce_with h done target v (get fields target), remove left source)

  map_entries : Dict Text → Fields × Fields → Fields × Fields
  unfolding map_column
  map_entries [] st = st
  map_entries ((source, target) ∷ es) st =
      map_entries es (map_column st source target (get st.1 source))

  -- The mapped fields and the custom fields of a row.
  unfoldable pub reshape_row : Dict Text → Fields → Fields × Fields
  unfolding map_entries
  reshape_row entries raw_row = map_entries entries ([], raw_row)

  -- Only the target is written.
  get-store_coerced :
      (done : Fields) (target k : Text) (r : Result CoerceError Value)
      → (target === k) ≡ false
      → get (store_coerced done target r) k ≡ get done k
  unfolding store_coerced
  get-store_coerced done target k (err e) h = refl
  get-store_coerced done target k (ok null) h = refl
  get-store_coerced done target k (ok (bool b)) h = rw get-put (rw h)
  get-store_coerced done target k (ok (num n)) h = rw get-put (rw h)
  get-store_coerced done target k (ok (str s)) h = rw get-put (rw h)
  get-store_coerced done target k (ok (date d)) h = rw get-put (rw h)

  get-coerce_with :
      (done : Fields) (target k : Text) (v : Value) (o : Option FieldSpec)
      → (target === k) ≡ false
      → get (coerce_with h done target v o) k ≡ get done k
  unfolding coerce_with
  get-coerce_with done target k v none e = refl
  get-coerce_with done target k v (some f) e = get-store_coerced done target k _ e

  get-map_column :
      (done left : Fields) (source target k : Text) (o : Option Value)
      → (target === k) ≡ false
      → get (map_column (done, left) source target o).0 k ≡ get done k
  unfolding map_column
  get-map_column done left source target k none e = refl
  get-map_column done left source target k (some v) e =
      get-coerce_with done target k v (get fields target) e

  map_entries-mapped :
      (es : Dict Text) (done left : Fields) (k : Text)
      → includes (map (λ e. e.1) es) k ≡ false
      → get (map_entries es (done, left)).0 k ≡ get done k
  unfolding map_entries
  map_entries-mapped [] done left k e = refl
  map_entries-mapped ((source, target) ∷ es) done left k e = elim (Bool-cases (target === k)) [
    | inl t ↦ ground arith
    | inr t ↦
        map_entries-mapped es (map_column (done, left) source target (get left source)).0
          (map_column (done, left) source target (get left source)).1 k (ground arith)
        ∙ get-map_column done left source target k (get left source) t
  ]

  left-map_column :
      (done left : Fields) (source target k : Text) (o : Option Value)
      → get left source ≡ o
      → get (map_column (done, left) source target o).1 k
        ≡ (if source === k then none else get left k)
  unfolding map_column
  left-map_column done left source target k none e = ground (arith, ===_iff source k)
  left-map_column done left source target k (some v) e = get-remove left source k

  map_entries-left :
      (es : Dict Text) (done left : Fields) (k : Text)
      → get (map_entries es (done, left)).1 k
        ≡ (if includes (map (λ e. e.0) es) k then none else get left k)
  unfolding map_entries
  map_entries-left [] done left k = refl
  map_entries-left ((source, target) ∷ es) done left k =
      map_entries-left es (map_column (done, left) source target (get left source)).0
        (map_column (done, left) source target (get left source)).1 k
      ∙ rw (left-map_column done left source target k (get left source) refl) (ground arith)

  -- In a reshaped row only a target of the field map has a mapped value, and the custom fields are
  -- the columns of the raw row, with their values, that no entry of the field map names.
  pub reshape_row_partition :
      (entries : Dict Text) (raw_row : Fields) (k : Text)
      → (includes (map (λ e. e.1) entries) k ≡ false → get (reshape_row entries raw_row).0 k ≡ none)
        × (get (reshape_row entries raw_row).1 k
            ≡ (if includes (map (λ e. e.0) entries) k then none else get raw_row k))
  unfolding reshape_row get
  reshape_row_partition entries raw_row k =
      (map_entries-mapped entries [] raw_row k, map_entries-left entries [] raw_row k)
