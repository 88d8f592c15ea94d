-- ===== src/Mapping/Reshape.antt =====
-- core/mapping/applyMapping.js: `applyMapping`, over the in-memory job store.
pub mod Row
pub mod Chunks
pub mod Laws
use universal_data_onboarder.Base.{
  ℕ, suc, Bool, true, false, not, ◌||◌, List, [], ◌∷◌, ◌++◌, map, Option, none, some, length, leb,
  filter, any, Text, codes, ◌===◌, includes, trim, if◌then◌else◌,
}
use universal_data_onboarder.Base.Dict.{Dict, get, has, put}
use universal_data_onboarder.Base.Result.{Result, ok, err, ◌>>=◌}
use universal_data_onboarder.Value.{Host, Fields}
use universal_data_onboarder.Registry.{
  Registry, RegistryError, FieldSpec, Descriptor, get_target_descriptor,
}
use universal_data_onboarder.Store.{
  Store, Job, JobStatus, pending_upload, uploaded, guardrail_rejected, staged, mapped, validated,
  committing, completed, completed_with_errors, StagedRow, Profile,
}
use universal_data_onboarder.Store.Rows.{
  Condition, id_is, tenant_is, job_is, BulkOp, bulk_write_staged, cursor_staged,
}
use universal_data_onboarder.Store.Jobs.{StoreError, get_job, save_job, upsert_mapping_profile}
use universal_data_onboarder.Mapping.Reshape.Row.{reshape_row, fields_by_key}
use universal_data_onboarder.Mapping.Reshape.Chunks.{write_in_chunks}

pub data MappingError : Type 0 where
  no_job : StoreError → MappingError
  -- Thrown with status code 409.
  wrong_status : JobStatus → MappingError
  no_target : RegistryError → MappingError
  -- Thrown with status code 400.
  unknown_targets duplicate_targets : List Text → MappingError
  label_required : MappingError

-- The options of `applyMapping`; a missing `fieldMap` is the empty one.
pub record Options : Type 0 where
  pub entity_key : Text
  pub field_map : Dict Text
  pub save_as_profile : Bool
  pub profile_label : Option Text
  pub created_by : Option Text

abbrev is_mappable : JobStatus → Bool
is_mappable staged = true
is_mappable mapped = true
is_mappable _ = false

abbrev targets : Dict Text → List Text
targets entries = map (λ e. e.1) entries

-- The targets that the schema does not have.
invalid_targets : Dict FieldSpec → Dict Text → List Text
invalid_targets fields entries = filter (λ t. not (has fields t)) (targets entries)

-- `ts.filter((t, i) => ts.indexOf(t) !== i)`; `before` is what stands before `t`.
repeated : List Text → List Text → List Text
unfolding ◌===◌
repeated before [] = []
repeated before (t ∷ ts) =
    let rest = repeated (before ++ t ∷ []) ts in if includes before t then t ∷ rest else rest

lift_job : Result StoreError Job → Result MappingError Job
lift_job (ok j) = ok j
lift_job (err e) = err (no_job e)

lift_target : Result RegistryError Descriptor → Result MappingError Descriptor
lift_target (ok d) = ok d
lift_target (err e) = err (no_target e)

check_status : Job → Result MappingError Job
check_status j = if is_mappable j.status then ok j else err (wrong_status j.status)

check_known : List Text → Result MappingError (Unit {0})
check_known [] = ok tt
check_known (t ∷ ts) = err (unknown_targets (t ∷ ts))

check_repeated : List Text → Result MappingError (Unit {0})
check_repeated [] = ok tt
check_repeated (t ∷ ts) = err (duplicate_targets (t ∷ ts))

-- What is thrown before the first write: the job, and the target's fields.
unfoldable pub plan :
    Registry → Store → Text → Text → Options → Result MappingError (Job × Dict FieldSpec)
unfolding lift_job check_status lift_target check_known check_repeated invalid_targets repeated
plan registry s tenant_id job_id o = do
  found ← lift_job (get_job s tenant_id job_id)
  job ← check_status found
  d ← lift_target (get_target_descriptor registry job.module_name o.entity_key)
  _ ← check_known (invalid_targets (fields_by_key d.fields) o.field_map)
  _ ← check_repeated (repeated [] (targets o.field_map))
  ok (job, fields_by_key d.fields)

-- The `updateOne` of a row.
unfoldable pub row_op : Host → Dict FieldSpec → Dict Text → StagedRow → BulkOp
row_op h fields entries r =
    let (done, left) = reshape_row h fields entries r.raw_row in
    record {
      filter_by = id_is r.id ∷ [];
      set = λ q. record q { mapped_fields = some done; custom_fields = left };
    }

abbrev is_blank_text : Text → Bool
is_blank_text [] = true
is_blank_text (c ∷ s) = false

blank_label : Option Text → Bool
unfolding trim
blank_label none = true
blank_label (some s) = is_blank_text (trim s)

finish_job : Store → Job → Options → Option Text → Store × Result MappingError Job
finish_job s job o profile_id =
    let job' : Job = record job {
      entity_key = some o.entity_key;
      field_map = some o.field_map;
      mapping_profile_id = profile_id;
      status = mapped;
    } in
    (save_job s job', ok job')

-- What follows the rows: the profile, then the job.
save_profile : Store → Text → Job → Options → Store × Result MappingError Job
unfolding finish_job blank_label
save_profile s tenant_id job o =
    if o.save_as_profile
    then (if blank_label o.profile_label
        then (s, err label_required)
        else (let (s', p) =
              upsert_mapping_profile s tenant_id job.module_name o.entity_key o.field_map
                o.profile_label o.created_by in
            finish_job s' job o (some p.id)))
    else finish_job s job o job.mapping_profile_id

-- The cursor over the job's rows, and their writes.
unfoldable pub write_rows : Host → Store → Text → Job → Dict FieldSpec → Dict Text → Store
write_rows h s tenant_id job fields entries = write_in_chunks s [] (
    map (row_op h fields entries)
      (cursor_staged s (tenant_is tenant_id ∷ job_is job.id ∷ []) false none))

carry_out :
    Host
    → Store
    → Text
    → Options
    → Result MappingError (Job × Dict FieldSpec)
    → Store × Result MappingError Job
unfolding save_profile write_rows
carry_out h s tenant_id o (err e) = (s, err e)
carry_out h s tenant_id o (ok (job, fields)) =
    save_profile (write_rows h s tenant_id job fields o.field_map) tenant_id job o

unfoldable pub apply_mapping :
    Host → Registry → Store → Text → Text → Options → Store × Result MappingError Job
unfolding carry_out
apply_mapping h registry s tenant_id job_id o =
    carry_out h s tenant_id o (plan registry s tenant_id job_id o)
