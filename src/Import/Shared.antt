-- ===== src/Import/Shared.antt =====
-- orchestration/migrationImport.service.js: `createImportJob`, `stageRows`.
--
-- What the storage adapter and the database answer is an argument: the place of the archived file,
-- the id of the new job, and, for an insertion that fails, its message and what it left. The
-- creator and the times are left out. The writes of the job itself do not fail.
pub mod Laws
use universal_data_onboarder.Base.{
  ℕ, zero, suc, Bool, true, false, List, [], ◌∷◌, ◌++◌, Option, none, some, length, Text,
  if◌then◌else◌,
}
use universal_data_onboarder.Base.Result.{Result, ok, err, ◌>>=◌}
use universal_data_onboarder.Value.{Fields, Host}
use universal_data_onboarder.Parsing.Formats.{Format, Upload, detect_upload_format}
use universal_data_onboarder.Parsing.Dispatch.{Source, ParseError}
use universal_data_onboarder.Guardrail.Tier.{Env}
use universal_data_onboarder.Guardrail.Reason.{Locale, Rejection}
use universal_data_onboarder.Guardrail.Check.{Verdict, check_guardrail_streaming}
use universal_data_onboarder.Store.{JobStatus, uploaded, guardrail_rejected, staged, failed}

pub data ImportError : Type 0 where
  -- Both are thrown with status code 400.
  unsupported : Text → ImportError
  not_parsed : Format → ParseError → ImportError
  not_archived : Text → ImportError

pub record ImportJob : Type 0 where
  pub id : Text
  pub tenant_id : Text
  pub module_name : Text
  pub source_format : Format
  pub sql_table : Option Text
  pub status : JobStatus
  pub original_name : Text
  pub public_id : Text
  pub size_bytes : ℕ
  pub total_rows : ℕ
  pub staged_rows : ℕ
  pub passed : Bool
  pub limit : ℕ
  pub rejection : Option Rejection
  pub error : Option Text

-- A document that `stageRows` inserts.
pub record Draft : Type 0 where
  pub import_job_id : Text
  pub row_index : ℕ
  pub raw_row : Fields
  pub custom_fields : Fields

pub record Database : Type 0 where
  pub import_jobs : List ImportJob
  pub drafts : List Draft

pub record Answers : Type 0 where
  pub archived : Result Text Text
  pub new_id : Text
  -- `insertMany` is unordered: one that fails may have inserted some of the rows.
  pub insert_error : Option (Text × List Draft)

drafts_from : Text → ℕ → List Fields → List Draft
drafts_from id index [] = []
drafts_from id index (r ∷ rs) =
    record { import_job_id = id; row_index = index; raw_row = r; custom_fields = r }
    ∷ drafts_from id (suc index) rs

lift_format : Result Text Format → Result ImportError Format
lift_format (ok f) = ok f
lift_format (err mimetype) = err (unsupported mimetype)

lift_verdict : Format → Result ParseError Verdict → Result ImportError Verdict
lift_verdict f (ok v) = ok v
lift_verdict f (err e) = err (not_parsed f e)

lift_place : Result Text Text → Result ImportError Text
lift_place (ok place) = ok place
lift_place (err message) = err (not_archived message)

-- The job as it is created.
created : Text → Text → Text → Upload → ℕ → Format → Verdict → Text → ImportJob
created id tenant_id module_name file size f v place = record {
  id = id;
  tenant_id = tenant_id;
  module_name = module_name;
  source_format = f;
  sql_table = v.table_name;
  status = if v.allowed then uploaded else guardrail_rejected;
  original_name = file.original_name;
  public_id = place;
  size_bytes = size;
  total_rows = length v.records;
  staged_rows = 0;
  passed = v.allowed;
  limit = v.limit;
  rejection = v.details;
  error = none;
}

-- The `try` around `stageRows`, which sets the job's last status.
stage : Database → ImportJob → List Fields → Option (Text × List Draft) → Database × ImportJob
unfolding drafts_from
stage db job records none =
    let job' = record job { status = staged; staged_rows = length records } in
    (
      record {
        import_jobs = job' ∷ db.import_jobs;
        drafts = db.drafts ++ drafts_from job.id 0 records;
      },
      job',
    )
stage db job records (some (message, partial)) =
    let job' = record job { status = failed; error = some message } in
    (record { import_jobs = job' ∷ db.import_jobs; drafts = db.drafts ++ partial }, job')

-- What follows the creation of the job.
unfoldable pub record_verdict :
    Database → Verdict → ImportJob → Option (Text × List Draft) → Database × ImportJob
unfolding stage
record_verdict db v job insert_error =
    if v.allowed
    then stage db job v.records insert_error
    else (record db { import_jobs = job ∷ db.import_jobs }, job)

module _ (env : Env) (l : Locale) (h : Host) where
  -- What is known before the job is written.
  unfoldable pub examine :
      Text → Upload → Source → Option Text → Answers → Result ImportError (Format × Verdict × Text)
  unfolding lift_format lift_verdict lift_place detect_upload_format check_guardrail_streaming
  examine tenant_id file source sql_table a = do
    f ← lift_format (detect_upload_format file)
    v ← lift_verdict f (check_guardrail_streaming env l h tenant_id source f sql_table)
    place ← lift_place a.archived
    ok (f, v, place)

  import_as :
      Database
      → Text
      → Text
      → Upload
      → ℕ
      → Answers
      → Result ImportError (Format × Verdict × Text)
      → Database × Result ImportError ImportJob
  unfolding created record_verdict
  import_as db tenant_id module_name file size a (err e) = (db, err e)
  import_as db tenant_id module_name file size a (ok (f, v, place)) =
      let job = created a.new_id tenant_id module_name file size f v place in
      let (db', job') = record_verdict db v job a.insert_error in (db', ok job')

  -- `createImportJob`
  unfoldable pub create_import_job :
      Database
      → Text
      → Text
      → Upload
      → ℕ
      → Source
      → Option Text
      → Answers
      → Database × Result ImportError ImportJob
  unfolding examine import_as
  create_import_job db tenant_id module_name file size source sql_table a =
      import_as db tenant_id module_name file size a (examine tenant_id file source sql_table a)
