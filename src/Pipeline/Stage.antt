-- ===== src/Pipeline/Stage.antt =====
-- worker/importPipeline.js: `clearStagedRows`, `stageRows`, `stepParseAndStage`.
--
-- The collections of jobs and staged rows are Mongoose's: their calls are the record `Documents`,
-- on the store that the other components work on. The download and the removal of the file are the
-- bucket's and the file system's. Times are left out.
pub mod Laws
use universal_data_onboarder.Base.{
  ℕ, zero, suc, ◌+◌, ◌≡◌, Bool, true, false, List, [], ◌∷◌, Option, none, some, Text, length, take,
  drop, if◌then◌else◌,
}
use universal_data_onboarder.Base.Result.{Result, ok, err, ◌>>=◌}
use universal_data_onboarder.Value.{Fields, Host}
use universal_data_onboarder.Parsing.Formats.{Format, detect_path_format}
use universal_data_onboarder.Parsing.Dispatch.{Source, ParseError}
use universal_data_onboarder.Guardrail.Tier.{Env}
use universal_data_onboarder.Guardrail.Reason.{Locale, Rejection}
use universal_data_onboarder.Guardrail.Check.{Verdict, check_guardrail_streaming}
use universal_data_onboarder.Registry.{RegistryError}
use universal_data_onboarder.Store.{Store, Job, JobStatus, uploaded, guardrail_rejected, staged}
use universal_data_onboarder.Store.Jobs.{StoreError}
use universal_data_onboarder.Mapping.Reshape.{MappingError}

-- A document that `stageRows` inserts.
pub record RowDraft : Type 0 where
  pub tenant_id : Text
  pub import_job_id : Text
  pub row_index : ℕ
  pub raw_row : Fields
  pub custom_fields : Fields

-- One key of a `$set` on a job. The reason and the upgrade of a rejection are in `rejection`.
pub data Update : Type 0 where
  source_format : Format → Update
  status : JobStatus → Update
  total_rows staged_rows limit : ℕ → Update
  passed : Bool → Update
  rejection : Option Rejection → Update

pub record Documents : Type 0 where
  -- `ImportJob.findByIdAndUpdate(id, { $set }, { new: true })`
  pub update_by_id : Store → Text → List Update → Store × Option Job
  -- `ImportStagedRecord.deleteMany({ importJobId })`
  pub delete_many : Store → Text → Store × ℕ
  -- `ImportStagedRecord.insertMany(docs, { ordered: false })`
  pub insert_many : Store → List RowDraft → Store × Result Text (Unit {0})

pub data StepError : Type 0 where
  not_downloaded : Text → StepError
  unsupported : Text → StepError
  not_parsed : ParseError → StepError
  not_inserted : Text → StepError
  -- A `TypeError` of the next step: the job to update was not there.
  no_document : StepError
  store_error : StoreError → StepError
  mapping_error : MappingError → StepError
  target_error : RegistryError → StepError
  out_of_fuel : StepError

-- `chunk.map((row, indexInChunk) => …)`, where the first row has the index `offset`.
unfoldable pub drafts_at : Text → Text → ℕ → List Fields → List RowDraft
drafts_at tenant_id job_id offset [] = []
drafts_at tenant_id job_id offset (r ∷ rs) =
    record {
      tenant_id = tenant_id;
      import_job_id = job_id;
      row_index = offset;
      raw_row = r;
      custom_fields = r;
    }
    ∷ drafts_at tenant_id job_id (suc offset) rs

abbrev pub stage_chunk_size : ℕ
stage_chunk_size = 1000

abbrev pub has_status : JobStatus → Bool
has_status uploaded = true
has_status guardrail_rejected = true
has_status _ = false

module _ (docs : Documents) where
  -- `clearStagedRows`
  unfoldable pub clear_staged_rows : Store → Text → Store × ℕ
  clear_staged_rows s job_id = docs.delete_many s job_id

  -- What follows an insertion, if it does not throw.
  abbrev pub after_insert :
      (Store → Store × Result StepError ℕ)
      → Store × Result Text (Unit {0})
      → Store × Result StepError ℕ
  after_insert later (s, err message) = (s, err (not_inserted message))
  after_insert later (s, ok done) = later s

  -- The loop of `stageRows` from `offset` on, on fuel, in chunks of `size`.
  unfoldable pub stage_from :
      ℕ → Text → Text → ℕ → Store → ℕ → ℕ → List Fields → Store × Result StepError ℕ
  unfolding drafts_at
  stage_from size tenant_id job_id fuel s offset inserted [] = (s, ok inserted)
  stage_from size tenant_id job_id zero s offset inserted (r ∷ rs) = (s, err out_of_fuel)
  stage_from size tenant_id job_id (suc fuel) s offset inserted (r ∷ rs) =
      let chunk = drafts_at tenant_id job_id offset (take size (r ∷ rs)) in
      after_insert
        (λ s'.
          stage_from size tenant_id job_id fuel s' (offset + size) (inserted + length chunk)
            (drop size (r ∷ rs)))
        (docs.insert_many s chunk)

  -- `stageRows`
  unfoldable pub stage_rows : Store → Text → Text → List Fields → Store × Result StepError ℕ
  unfolding stage_from
  stage_rows s tenant_id job_id records =
      stage_from stage_chunk_size tenant_id job_id (length records) s 0 0 records

  updated_job : Store × Option Job → Store × Result StepError Job
  updated_job (s, none) = (s, err no_document)
  updated_job (s, some job) = (s, ok job)

  -- `updateJobStatus`
  unfoldable pub update_job_status : Store → Text → List Update → Store × Result StepError Job
  unfolding updated_job
  update_job_status s job_id updates = updated_job (docs.update_by_id s job_id updates)

  mark_staged : Text → Store × Result StepError ℕ → Store × Result StepError Job
  unfolding update_job_status
  mark_staged job_id (s, err e) = (s, err e)
  mark_staged job_id (s, ok n) = update_job_status s job_id (status staged ∷ staged_rows n ∷ [])

  -- What the verdict on the file does. The result of the first update is not read.
  act_on : Job → Store → Format → Verdict → Store × Result StepError Job
  unfolding update_job_status mark_staged stage_rows clear_staged_rows
  act_on job s f v =
      let accepted = docs.update_by_id s job.id (
        source_format f
        ∷ status uploaded
        ∷ total_rows (length v.records)
        ∷ passed true
        ∷ limit v.limit
        ∷ []) in
      let cleared = clear_staged_rows accepted.0 job.id in
      if v.allowed
      then mark_staged job.id (stage_rows cleared.0 job.tenant_id job.id v.records)
      else update_job_status s job.id (
          source_format f
          ∷ status guardrail_rejected
          ∷ passed false
          ∷ rejection v.details
          ∷ limit v.limit
          ∷ [])

  module _ (env : Env) (l : Locale) (h : Host)
      (download : Text → Text → Result Text (Text × Source)) where
    lift_download : Result Text (Text × Source) → Result StepError (Text × Source)
    lift_download (err message) = err (not_downloaded message)
    lift_download (ok file) = ok file

    lift_format : Result Text Format → Result StepError Format
    lift_format (err path) = err (unsupported path)
    lift_format (ok f) = ok f

    lift_verdict : Result ParseError Verdict → Result StepError Verdict
    lift_verdict (err e) = err (not_parsed e)
    lift_verdict (ok v) = ok v

    -- The file's format and the guardrail's verdict on it.
    unfoldable pub examine_object :
        Job → Option Text → Text → Text → Result StepError (Format × Verdict)
    unfolding lift_download lift_format lift_verdict detect_path_format check_guardrail_streaming
    examine_object job sql_table bucket object = do
      (path, source) ← lift_download (download bucket object)
      f ← lift_format (detect_path_format path)
      v ← lift_verdict (check_guardrail_streaming env l h job.tenant_id source f sql_table)
      ok (f, v)

    act_if : Job → Store → Result StepError (Format × Verdict) → Store × Result StepError Job
    unfolding act_on
    act_if job s (err e) = (s, err e)
    act_if job s (ok (f, v)) = act_on job s f v

    -- `stepParseAndStage`; `sql_table` is the job's `sqlTable`.
    unfoldable pub step_parse_and_stage :
        Store → Job → Option Text → Text → Text → Store × Result StepError Job
    unfolding act_if examine_object
    step_parse_and_stage s job sql_table bucket object =
        if has_status job.status
        then act_if job s (examine_object job sql_table bucket object)
        else (s, ok job)
