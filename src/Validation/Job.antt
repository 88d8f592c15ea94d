-- ===== src/Validation/Job.antt =====
-- core/validation/validateRows.js: `validateImportJob`, `patchStagedRecordFields`.
--
-- `record.save()` of a row is the store's `saveRow`.
pub mod Rows
pub mod Excluded
pub mod Laws
use universal_data_onboarder.Base.{
  ℕ, suc, Bool, true, false, not, ◌&&◌, List, [], ◌∷◌, ◌++◌, map, Option, none, some, filter, count,
  Text, codes, if◌then◌else◌,
}
use universal_data_onboarder.Base.Dict.{Dict, get, put, has, keys}
use universal_data_onboarder.Base.Result.{Result, ok, err, ◌>>=◌}
use universal_data_onboarder.Value.{Value, Fields, Host, field, is_blank}
use universal_data_onboarder.Registry.{
  Registry, RegistryError, FieldSpec, Descriptor, get_target_descriptor,
}
use universal_data_onboarder.Registry.Coerce.{CoerceError, coerce_field_value}
use universal_data_onboarder.Store.{
  Store, Job, JobStatus, mapped, validated, ValidationStatus, valid, invalid, RowError, is_required,
  excluded, StagedRow,
}
use universal_data_onboarder.Store.Rows.{
  Condition, id_is, tenant_is, job_is, BulkOp, cursor_staged, find_one_staged, save_row,
}
use universal_data_onboarder.Store.Jobs.{StoreError, get_job, update_job}
use universal_data_onboarder.Mapping.Reshape.Row.{fields_by_key}
use universal_data_onboarder.Mapping.Reshape.Chunks.{write_in_chunks}
use universal_data_onboarder.Validation.Rules.{
  Answers, check_rows, enum_errors, is_valid, status_of, mapped_of,
}

pub data ValidationError : Type 0 where
  no_job : StoreError → ValidationError
  -- Thrown with status code 409.
  wrong_status : JobStatus → ValidationError
  no_target : RegistryError → ValidationError
  -- Thrown with status code 404, and 400.
  no_row : ValidationError
  unknown_keys : List Text → ValidationError
  bad_value : CoerceError → ValidationError
  -- A `TypeError`: the row has no mapped fields yet.
  unmapped : ValidationError

abbrev can_validate : JobStatus → Bool
can_validate mapped = true
can_validate validated = true
can_validate _ = false

lift_job : {A : Type 0} → Result StoreError A → Result ValidationError A
lift_job (ok a) = ok a
lift_job (err e) = err (no_job e)

lift_target : Result RegistryError Descriptor → Result ValidationError Descriptor
lift_target (ok d) = ok d
lift_target (err e) = err (no_target e)

-- A missing entity key prints as "null" in the key of the registry.
abbrev entity_of : Option Text → Text
entity_of none = codes "null"
entity_of (some e) = e

target_of : Registry → Job → Result ValidationError Descriptor
unfolding lift_target get_target_descriptor
target_of registry job =
    lift_target (get_target_descriptor registry job.module_name (entity_of job.entity_key))

unfoldable pub result_op : StagedRow × List RowError → BulkOp
result_op (r, es) = record {
  filter_by = id_is r.id ∷ [];
  set = λ q. record q { validation_status = some (status_of es); validation_errors = es };
}

-- `updateJob` gives null for a job that is not there any more.
pub record Validated : Type 0 where
  pub job : Option Job
  pub valid_count : ℕ
  pub invalid_count : ℕ

-- The counters of the loop, of the valid and of the invalid rows.
count_one : Bool → ℕ × ℕ → ℕ × ℕ
count_one true (valid_count, invalid_count) = (suc valid_count, invalid_count)
count_one false (valid_count, invalid_count) = (valid_count, suc invalid_count)

unfoldable pub count_results : ℕ × ℕ → List (StagedRow × List RowError) → ℕ × ℕ
unfolding count_one
count_results counts [] = counts
count_results counts ((r, es) ∷ results) = count_results (count_one (is_valid es) counts) results

abbrev pub job_rows : Text → Job → List Condition
job_rows tenant_id job = tenant_is tenant_id ∷ job_is job.id ∷ []

-- The job with the counts of its rows.
abbrev pub counted_job : ℕ → ℕ → Job → Job
counted_job valid_count invalid_count j = record j {
  status = validated;
  valid_rows = some valid_count;
  invalid_rows = invalid_count;
}

write_results :
    Text → Job → Store → List (StagedRow × List RowError) → Store × Result ValidationError Validated
unfolding update_job result_op write_in_chunks count_results
write_results tenant_id job s results =
    let (valid_count, invalid_count) = count_results (0, 0) results in
    let (s', updated) =
      update_job (write_in_chunks s [] (map result_op results)) tenant_id job.id
        (counted_job valid_count invalid_count) in
    (s', ok (record { job = updated; valid_count = valid_count; invalid_count = invalid_count }))

module _ (h : Host) (registry : Registry) (answers : Store → Job → Descriptor → Answers) where
  with_target :
      Text
      → Job
      → Store
      → Result ValidationError Descriptor
      → Store × Result ValidationError Validated
  unfolding write_results check_rows cursor_staged
  with_target tenant_id job s (err e) = (s, err e)
  with_target tenant_id job s (ok d) =
      write_results tenant_id job s
        (check_rows h d (answers s job d) [] (cursor_staged s (job_rows tenant_id job) false none))

  with_job : Text → Store → Result StoreError Job → Store × Result ValidationError Validated
  unfolding with_target target_of
  with_job tenant_id s (err e) = (s, err (no_job e))
  with_job tenant_id s (ok job) =
      if can_validate job.status
      then with_target tenant_id job s (target_of registry job)
      else (s, err (wrong_status job.status))

  -- `validateImportJob`
  unfoldable pub validate_import_job :
      Text → Text → Store → Store × Result ValidationError Validated
  unfolding with_job get_job
  validate_import_job tenant_id job_id s = with_job tenant_id s (get_job s tenant_id job_id)

-- What a request changes in a row.
pub record Patch : Type 0 where
  pub overrides : Option Fields
  pub exclude : Bool

row_or_error : Option StagedRow → Result ValidationError StagedRow
row_or_error none = err no_row
row_or_error (some r) = ok r

store_value :
    Option Fields → Text → Result CoerceError Value → Result ValidationError (Option Fields)
unfolding put
store_value mf key (err e) = err (bad_value e)
store_value none key (ok v) = err unmapped
store_value (some mf) key (ok v) = ok (some (put mf key v))

coerce_known : Host → Option FieldSpec → Value → Result CoerceError Value
unfolding coerce_field_value
coerce_known h none v = ok v
coerce_known h (some f) v = coerce_field_value h f.type v f.label

override_each :
    Host → Dict FieldSpec → Option Fields → Fields → Result ValidationError (Option Fields)
unfolding store_value coerce_known get
override_each h fields mf [] = ok mf
override_each h fields mf ((key, raw) ∷ os) = do
  next ← store_value mf key (coerce_known h (get fields key) raw)
  override_each h fields next os

check_keys : List Text → Result ValidationError (Unit {0})
check_keys [] = ok tt
check_keys (k ∷ ks) = err (unknown_keys (k ∷ ks))

override :
    Host → Dict FieldSpec → Option Fields → Option Fields → Result ValidationError (Option Fields)
unfolding override_each check_keys get
override h fields mf none = ok mf
override h fields mf (some os) = do
  _ ← check_keys (filter (λ k. not (has fields k)) (keys os))
  override_each h fields mf os

own_required_errors : Fields → List FieldSpec → List RowError
unfolding field is_blank
own_required_errors mf [] = []
own_required_errors mf (f ∷ fs) =
    let rest = own_required_errors mf fs in
    if f.required && is_blank (field mf f.key) then is_required f.label ∷ rest else rest

abbrev is_read : FieldSpec → Bool
is_read f = elim f.enum [ [] ↦ f.required | e ∷ es ↦ true ]

abbrev none_is_read : List FieldSpec → Bool
none_is_read [] = true
none_is_read (f ∷ fs) = not (is_read f) && none_is_read fs

recheck : List FieldSpec → Option Fields → Result ValidationError (List RowError)
unfolding own_required_errors enum_errors
recheck fields none = if none_is_read fields then ok [] else err unmapped
recheck fields (some mf) = ok (own_required_errors mf fields ++ enum_errors mf fields)

judge : List FieldSpec → Bool → StagedRow → Result ValidationError StagedRow
unfolding recheck
judge fields true r =
    ok (record r { validation_status = some invalid; validation_errors = excluded ∷ [] })
judge fields false r = do
  errors ← recheck fields r.mapped_fields
  ok (record r { validation_status = some (status_of errors); validation_errors = errors })

-- The patched row, or what is thrown before it is saved.
unfoldable pub patched :
    Host → Registry → Store → Text → Text → ℕ → Patch → Result ValidationError StagedRow
unfolding lift_job target_of row_or_error override judge fields_by_key find_one_staged get_job
patched h registry s tenant_id job_id row_id p = do
  job ← lift_job (get_job s tenant_id job_id)
  d ← target_of registry job
  r ← row_or_error (find_one_staged s (id_is row_id ∷ tenant_is tenant_id ∷ job_is job.id ∷ []))
  mf ← override h (fields_by_key d.fields) r.mapped_fields p.overrides
  judge d.fields p.exclude (record r { mapped_fields = mf })

save_patched : Store → Result ValidationError StagedRow → Store × Result ValidationError StagedRow
unfolding save_row
save_patched s (err e) = (s, err e)
save_patched s (ok r) = (save_row s r, ok r)

-- `patchStagedRecordFields`
unfoldable pub patch_staged_record_fields :
    Host → Registry → Store → Text → Text → ℕ → Patch → Store × Result ValidationError StagedRow
unfolding save_patched patched
patch_staged_record_fields h registry s tenant_id job_id row_id p =
    save_patched s (patched h registry s tenant_id job_id row_id p)
