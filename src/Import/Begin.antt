-- ===== src/Import/Begin.antt =====
-- orchestration/migrationImport.service.js: `createImportJobDedicated`, `getImportJob`.
--
-- The connection resolver, the id that is minted, the storage adapter's answer and the collection
-- of jobs are arguments. The creator and the file's name go into the job as they are.
use universal_data_onboarder.Base.{
  Bool, ◌||◌, ◌&&◌, leb, ◌==◌, [], ◌∷◌, Option, none, some, Text, codes, lower, map, reverse, ◌===◌,
  if◌then◌else◌, ℕ,
}
use universal_data_onboarder.Base.Result.{Result, ok, err, ◌>>=◌}
use universal_data_onboarder.Parsing.Formats.{Format, csv, json, excel, sql}
use universal_data_onboarder.Guardrail.Tier.{Env, resolve}
use universal_data_onboarder.Guardrail.Reason.{Locale, Rejection}
use universal_data_onboarder.Guardrail.Check.{check_import_file_size}
use universal_data_onboarder.Store.{Job, JobStatus, pending_upload}

pub data BeginError : Type 0 where
  -- Thrown with status code 400, 413, 400 (twice) and 404; a failure of the adapter has none.
  no_own_database : Text → BeginError
  too_large : Option Rejection → BeginError
  no_extension unknown_extension : Text → BeginError
  job_not_found : BeginError
  no_upload_url : Text → BeginError

-- `[a-z0-9]`, in any case
unfoldable pub is_alphanumeric : ℕ → Bool
unfolding lower
is_alphanumeric c = let k = lower c in (leb b'a' k && leb k b'z') || (leb b'0' k && leb k b'9')

abbrev if_filled : Text → Option Text
if_filled [] = none
if_filled (c ∷ s) = some (c ∷ s)

-- The characters before the last full stop of a reversed name.
extension_from : Text → Text → Option Text
unfolding is_alphanumeric
extension_from ext [] = none
extension_from ext (c ∷ s) =
    let longer = extension_from (c ∷ ext) s in
    if c == b'.' then if_filled ext else if is_alphanumeric c then longer else none

-- `fileName.match(/\.([a-z0-9]+)$/i)`, in lower case
unfoldable pub extension_of : Text → Option Text
unfolding extension_from lower
extension_of name = elim (extension_from [] (reverse name)) [
  | none ↦ none
  | some e ↦ some (map lower e)
]

format_for : Text → Option Text → Result BeginError Format
unfolding ◌===◌
format_for name none = err (no_extension name)
format_for name (some ext) =
    if ext === codes "csv"
    then ok csv
    else if ext === codes "json"
    then ok json
    else if ext === codes "xlsx" || ext === codes "xls"
    then ok excel
    else if ext === codes "sql"
    then ok sql
    else err (unknown_extension ext)

unfoldable pub detect_name_format : Text → Result BeginError Format
unfolding extension_of format_for
detect_name_format name = format_for name (extension_of name)

-- What `generateUploadUrl` answers.
pub record UploadUrl : Type 0 where
  pub upload_url : Text
  pub object_path : Text
  pub bucket_name : Text

-- The job that is created, as far as this part of the upload knows it.
pub record PendingJob : Type 0 where
  pub id : Text
  pub tenant_id : Text
  pub module_name : Text
  pub source_format : Format
  pub sql_table : Option Text
  pub status : JobStatus
  pub original_name : Text
  pub object_path : Text
  pub bucket_name : Text

module _ (env : Env) (l : Locale) (has_own_database : Text → Bool)
    (generate_upload_url : Text → Text → Text → Result Text UploadUrl) where
  check_mode : Text → Result BeginError (Unit {0})
  check_mode mode = if has_own_database mode then ok tt else err (no_own_database mode)

  check_size : Text → Option ℕ → Result BeginError (Unit {0})
  unfolding check_import_file_size
  check_size tenant_id none = ok tt
  check_size tenant_id (some size) =
      let v = check_import_file_size env l tenant_id (some size) in
      if v.allowed then ok tt else err (too_large v.details)

  lift_url : Result Text UploadUrl → Result BeginError UploadUrl
  lift_url (err message) = err (no_upload_url message)
  lift_url (ok url) = ok url

  -- `createImportJobDedicated`: the job that is written, once, and the place of the upload.
  unfoldable pub create_import_job_dedicated :
      Text
      → Text
      → Text
      → Text
      → Option ℕ
      → Option Text
      → Result BeginError (PendingJob × UploadUrl)
  unfolding check_mode check_size detect_name_format lift_url resolve
  create_import_job_dedicated new_id tenant_id module_name file_name size sql_table = do
    _ ← check_mode (resolve env tenant_id).storage_mode
    _ ← check_size tenant_id size
    f ← detect_name_format file_name
    url ← lift_url (generate_upload_url tenant_id new_id file_name)
    ok (
      record {
        id = new_id;
        tenant_id = tenant_id;
        module_name = module_name;
        source_format = f;
        sql_table = sql_table;
        status = pending_upload;
        original_name = file_name;
        object_path = url.object_path;
        bucket_name = url.bucket_name;
      },
      url,
    )

found_job : Option Job → Result BeginError Job
found_job none = err job_not_found
found_job (some job) = ok job

-- `getImportJob`, where `find_job` is `ImportJob.findOne({ _id, tenantId })`.
unfoldable pub get_import_job : (Text → Text → Option Job) → Text → Text → Result BeginError Job
unfolding found_job
get_import_job find_job tenant_id job_id = found_job (find_job tenant_id job_id)
