-- ===== src/Commit/Job.antt =====
-- core/commit/commitBatch.js: `commitImportJob`.
--
-- The event and the times are left out; the message to the queue is the outcome `enqueued`. The
-- counts that the code sets by dotted paths are the job's counts.
use universal_data_onboarder.Base.{
  ℕ, ◌-◌, Bool, true, false, ◌||◌, Option, none, some, ltb, Text, codes, if◌then◌else◌,
}
use universal_data_onboarder.Base.Result.{Result, ok, err}
use universal_data_onboarder.Value.{Fields}
use universal_data_onboarder.Registry.{Registry, RegistryError, Descriptor, get_target_descriptor}
use universal_data_onboarder.Store.{
  Store, Job, JobStatus, validated, committing, completed, completed_with_errors,
}
use universal_data_onboarder.Store.Jobs.{StoreError, get_job, update_job_model}
use universal_data_onboarder.Commit.Batch.{Failure, Connection, Tally, commit_batch}

pub data CommitError : Type 0 where
  no_job : StoreError → CommitError
  -- Thrown with status code 409.
  not_validated : JobStatus → CommitError
  no_target : RegistryError → CommitError

pub data Outcome : Type 0 where
  -- Mode "async": the batches are the worker's.
  enqueued : Outcome
  -- Mode "sync", with the job's last status.
  finished : JobStatus → Tally → Outcome

abbrev is_validated : JobStatus → Bool
is_validated validated = true
is_validated _ = false

abbrev or_zero : Option ℕ → ℕ
or_zero none = 0
or_zero (some n) = n

-- `Math.max(validCount - committed - failed, 0)`
unfoldable pub skipped_rows : ℕ → Tally → ℕ
skipped_rows valid_count t = valid_count - t.committed_rows - t.failed_rows

unfoldable pub final_status : ℕ → Tally → JobStatus
unfolding skipped_rows
final_status valid_count t =
    if ltb 0 t.failed_rows || ltb 0 (skipped_rows valid_count t)
    then completed_with_errors
    else completed

module _ {W : Type 0} (commit_row : W → Text → Option Fields → Result Failure (Text × Text) × W)
    (aborted : W → W → W) (threshold : ℕ) where
  finish :
      Text → Job → ℕ → Store × W × Result StoreError Tally → Store × W × Result CommitError Outcome
  unfolding final_status skipped_rows update_job_model
  finish tenant_id job valid_count (s, w, err e) = (s, w, err (no_job e))
  finish tenant_id job valid_count (s, w, ok t) =
      let status = final_status valid_count t in
      (
        update_job_model s job.id tenant_id (λ j. record j {
          status = status;
          committed_rows = t.committed_rows;
          commit_failed_rows = t.failed_rows;
          skipped_rows = skipped_rows valid_count t;
        }),
        w,
        ok (finished status t),
      )

  run_job :
      Text → Job → Connection → Store → W → Descriptor → Store × W × Result CommitError Outcome
  unfolding finish update_job_model commit_batch
  run_job tenant_id job conn s w d =
      let valid_count = or_zero job.valid_rows in
      let started = update_job_model s job.id tenant_id (λ j. record j { status = committing }) in
      if ltb threshold valid_count
      then (started, w, ok enqueued)
      else finish tenant_id job valid_count (
          commit_batch commit_row aborted tenant_id job.id d.commit_in_transaction conn none started
            w)

  with_target :
      Text
      → Job
      → Connection
      → Store
      → W
      → Result RegistryError Descriptor
      → Store × W × Result CommitError Outcome
  unfolding run_job
  with_target tenant_id job conn s w (err e) = (s, w, err (no_target e))
  with_target tenant_id job conn s w (ok d) = run_job tenant_id job conn s w d

  abbrev entity_of : Option Text → Text
  entity_of none = codes "null"
  entity_of (some e) = e

  with_job :
      Registry
      → Text
      → Connection
      → Store
      → W
      → Result StoreError Job
      → Store × W × Result CommitError Outcome
  unfolding with_target get_target_descriptor
  with_job registry tenant_id conn s w (err e) = (s, w, err (no_job e))
  with_job registry tenant_id conn s w (ok job) =
      if is_validated job.status
      then with_target tenant_id job conn s w
          (get_target_descriptor registry job.module_name (entity_of job.entity_key))
      else (s, w, err (not_validated job.status))

  -- `commitImportJob`
  unfoldable pub commit_import_job :
      Registry → Text → Text → Connection → Store → W → Store × W × Result CommitError Outcome
  unfolding with_job get_job
  commit_import_job registry tenant_id job_id conn s w =
      with_job registry tenant_id conn s w (get_job s tenant_id job_id)
