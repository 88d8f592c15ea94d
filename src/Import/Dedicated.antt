-- ===== src/Import/Dedicated.antt =====
-- orchestration/migrationImport.service.js: `completeImportUpload`, the dedicated tier's upload.
--
-- The bucket's answer and the trigger of the processing job are the storage adapter's, and
-- arguments. The second write of the job, with the name of the execution, follows the trigger.
use universal_data_onboarder.Base.{
  ◌⊎◌, ℕ, ◌≡◌, ◌≤◌, Bool, true, false, ◌||◌, [], ◌∷◌, Option, none, some, Text, if◌then◌else◌,
}
use universal_data_onboarder.Base.Result.{Result, ok, err}
use universal_data_onboarder.Guardrail.Tier.{Env, resolve}
use universal_data_onboarder.Guardrail.Reason.{Locale, Rejection}
use universal_data_onboarder.Guardrail.Check.{Verdict, check_import_file_size}
use universal_data_onboarder.Store.{JobStatus, pending_upload, uploaded, guardrail_rejected}

pub data CompleteError : Type 0 where
  -- Thrown with status code 409, 400 (twice) and 413; a failure of the adapter has none.
  wrong_status : JobStatus → CompleteError
  no_object_path no_file : CompleteError
  too_large : Option Rejection → CompleteError
  adapter_failed : Text → CompleteError

-- The parts of the job that the upload reads or writes. The empty text is no path.
pub record UploadJob : Type 0 where
  pub tenant_id : Text
  pub status : JobStatus
  pub object_path : Text
  pub bucket_name : Text
  pub execution_name : Option Text
  pub size_bytes : ℕ
  pub passed : Option Bool
  pub rejection : Option Rejection

abbrev is_pending : JobStatus → Bool
is_pending pending_upload = true
is_pending _ = false

abbrev is_missing : Text → Bool
is_missing [] = true
is_missing (c ∷ s) = false

module _ (env : Env) (l : Locale) (verify_upload : Text → Text → Result Text (Option ℕ))
    (trigger : UploadJob → Result Text Text) where
  -- After the job was written as `uploaded`.
  triggered : UploadJob → Result Text Text → UploadJob × Result CompleteError UploadJob
  triggered job (err message) = (job, err (adapter_failed message))
  triggered job (ok name) =
      (record job { execution_name = some name }, ok (record job { execution_name = some name }))

  sized : UploadJob → ℕ → Verdict → UploadJob × Result CompleteError UploadJob
  unfolding triggered
  sized job size v =
      let refused = record job {
        status = guardrail_rejected;
        size_bytes = size;
        passed = some false;
        rejection = v.details;
      } in
      let accepted = record job { status = uploaded; size_bytes = size } in
      if v.allowed
      then triggered accepted (trigger accepted)
      else (refused, err (too_large v.details))

  verified : UploadJob → Result Text (Option ℕ) → UploadJob × Result CompleteError UploadJob
  unfolding sized check_import_file_size
  verified job (err message) = (job, err (adapter_failed message))
  verified job (ok none) = (job, err no_file)
  verified job (ok (some size)) =
      sized job size (check_import_file_size env l job.tenant_id (some size))

  -- `completeImportUpload` on the job that was found: the job as it is stored, and the result.
  unfoldable pub complete_import_upload : UploadJob → UploadJob × Result CompleteError UploadJob
  unfolding verified
  complete_import_upload job =
      if is_pending job.status
      then (if is_missing job.object_path || is_missing job.bucket_name
          then (job, err no_object_path)
          else verified job (verify_upload job.bucket_name job.object_path))
      else (job, err (wrong_status job.status))

  -- What an upload leaves of the job.
  abbrev pub Completed : UploadJob → UploadJob × Result CompleteError UploadJob → Type 0
  Completed job (job', ok done) =
      (done ≡ job')
      × (job'.status ≡ uploaded)
      × (job'.size_bytes ≤ (resolve env job.tenant_id).limit_bytes)
  Completed job (job', err (too_large d)) = job'.status ≡ guardrail_rejected
  Completed job (job', err (adapter_failed m)) = (job' ≡ job) ⊎ (job'.status ≡ uploaded)
  Completed job (job', err (wrong_status s)) = job' ≡ job
  Completed job (job', err no_object_path) = job' ≡ job
  Completed job (job', err no_file) = job' ≡ job
