-- ===== src/Pipeline/Steps/Close.antt =====
-- worker/importPipeline.js: what `stepCommit` leaves of a job.
use universal_data_onboarder.Base.{◌≡◌, true, false, Option, none, Text, ◌⊎◌}
use universal_data_onboarder.Base.Result.{Result, ok, err}
use universal_data_onboarder.Value.{Fields}
use universal_data_onboarder.Registry.{Registry, Descriptor, get_target_descriptor}
use universal_data_onboarder.Store.{Store, Job, committing, failed}
use universal_data_onboarder.Store.Jobs.{get_job, update_job}
use universal_data_onboarder.Commit.Batch.{Failure, Connection, Tally, commit_batch}
use universal_data_onboarder.Commit.Job.{final_status, skipped_rows}
use universal_data_onboarder.Pipeline.Stage.{StepError}
use universal_data_onboarder.Pipeline.Steps.{is_validated, is_missing, present, or_zero}

module _ {W : Type 0} (commit_row : W → Text → Option Fields → Result Failure (Text × Text) × W)
    (aborted : W → W → W) (conn : Connection) (registry : Registry) (job : Job) (s : Store)
    (w : W) where
  -- Only a validated job is taken up.
  pub record IsPassed (s' : Store) (w' : W) (j : Job) : Type 0 where
    pub gate : is_validated job.status ≡ false
    pub same_store : s' ≡ s
    pub same_world : w' ≡ w
    pub same_job : j ≡ job

  -- Without a module or an entity the job fails, and nothing is committed.
  pub record IsRefused (s' : Store) (w' : W) (j : Job) : Type 0 where
    pub lacking : (present job.entity_key ≡ none) ⊎ (is_missing job.module_name ≡ true)
    pub status : j.status ≡ failed
    pub stored : get_job s' job.tenant_id job.id ≡ ok j
    pub same_rows : s'.staged_records ≡ s.staged_records
    pub same_world : w' ≡ w

  -- The store in which the commit begins.
  abbrev pub started : Store
  started = (update_job s job.tenant_id job.id (λ q. record q { status = committing })).0

  -- A batch without a limit ran on the store in which the job is `committing`, and left the target
  -- and the rows; the stored job has the status and the counts of its tally.
  pub record IsClosed (s' : Store) (w' : W) (j : Job) : Type 0 where
    pub entity : Text
    pub target : Descriptor
    pub registered : get_target_descriptor registry job.module_name entity ≡ ok target
    pub batch : Store
    pub tally : Tally
    pub ran :
        commit_batch commit_row aborted job.tenant_id job.id target.commit_in_transaction conn none
          started w
        ≡ (batch, w', ok tally)
    pub rows : s'.staged_records ≡ batch.staged_records
    pub status : j.status ≡ final_status (or_zero job.valid_rows) tally
    pub committed : j.committed_rows ≡ tally.committed_rows
    pub failed_rows : j.commit_failed_rows ≡ tally.failed_rows
    pub skipped : j.skipped_rows ≡ skipped_rows (or_zero job.valid_rows) tally
    pub stored : get_job s' job.tenant_id job.id ≡ ok j

  abbrev pub IsStepped : Store → W → Job → Type 0
  IsStepped s' w' j = IsPassed s' w' j ⊎ (IsRefused s' w' j ⊎ IsClosed s' w' j)

  -- A step that throws is not asked for more.
  abbrev Holds : (Store → W → Job → Type 0) → Store × W × Result StepError Job → Type 0
  Holds P (s', w', err e) = Unit
  Holds P (s', w', ok j) = P s' w' j
