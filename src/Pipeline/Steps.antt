-- ===== src/Pipeline/Steps.antt =====
-- worker/importPipeline.js: `stepAutoMap`, `stepValidate`, `stepCommit`, `runJobPipeline`.
--
-- The adapter bag is empty, so all steps use the default job store. The parts of a job that `Job` does not have
-- (`sqlTable`, `gcs`, `error`, the times) are arguments, or left out where they are only written.
pub mod Laws
pub mod Close
pub mod Tests
use universal_data_onboarder.Base.{
  ℕ, Bool, true, false, ◌||◌, List, [], ◌∷◌, Option, none, some, Text, if◌then◌else◌,
}
use universal_data_onboarder.Base.Dict.{Dict}
use universal_data_onboarder.Base.Result.{Result, ok, err}
use universal_data_onboarder.Value.{Fields, Host}
use universal_data_onboarder.Parsing.Dispatch.{Source}
use universal_data_onboarder.Guardrail.Tier.{Env}
use universal_data_onboarder.Guardrail.Reason.{Locale}
use universal_data_onboarder.Registry.{
  Registry, RegistryError, Descriptor, Entity, get_target_descriptor, list_target_entities,
}
use universal_data_onboarder.Store.{
  Store, Job, JobStatus, staged, mapped, validated, committing, failed,
}
use universal_data_onboarder.Store.Jobs.{StoreError, get_job, update_job}
use universal_data_onboarder.Mapping.Reshape.{MappingError, Options, apply_mapping}
use universal_data_onboarder.Mapping.Suggest.Job.{Suggested, SuggestError, suggest_mapping_for_job}
use universal_data_onboarder.Validation.Rules.{Answers}
use universal_data_onboarder.Validation.Job.{ValidationError, Validated, validate_import_job}
use universal_data_onboarder.Commit.Batch.{Failure, Connection, Tally, commit_batch}
use universal_data_onboarder.Commit.Job.{final_status, skipped_rows}
use universal_data_onboarder.Pipeline.Stage.{
  Documents, StepError, store_error, mapping_error, target_error, step_parse_and_stage,
}

abbrev pub is_staged : JobStatus → Bool
is_staged staged = true
is_staged _ = false

abbrev pub is_mapped : JobStatus → Bool
is_mapped mapped = true
is_mapped _ = false

abbrev pub is_validated : JobStatus → Bool
is_validated validated = true
is_validated _ = false

abbrev pub is_missing : Text → Bool
is_missing [] = true
is_missing (c ∷ s) = false

-- An entity key, if it is not the empty text.
abbrev pub present : Option Text → Option Text
present none = none
present (some []) = none
present (some (c ∷ s)) = some (c ∷ s)

-- The options of the two calls of `applyMapping`.
abbrev pub plain_options : Text → Dict Text → Options
plain_options entity_key field_map = record {
  entity_key = entity_key;
  field_map = field_map;
  save_as_profile = false;
  profile_label = none;
  created_by = none;
}

-- `suggestion.suggestedFieldMap`, a key that the result of `suggestMappingForJob` does not have.
unfoldable pub suggested_field_map : Suggested → Option (Dict Text)
suggested_field_map suggestion = none

lift_mapping : Store × Result MappingError Job → Store × Result StepError Job
lift_mapping (s, err e) = (s, err (mapping_error e))
lift_mapping (s, ok job) = (s, ok job)

-- The `catch` of the loop: the job as it was.
or_job : Job → Store × Result MappingError Job → Store × Result StepError Job
or_job job (s, err e) = (s, ok job)
or_job job (s, ok job') = (s, ok job')

abbrev pub or_zero : Option ℕ → ℕ
or_zero none = 0
or_zero (some n) = n

module _ (h : Host) (registry : Registry) where
  -- What one entity of the loop comes to, where `later` is the rest of the loop.
  try_entity :
      Store
      → Job
      → Text
      → Store × Result StepError Job
      → Result SuggestError Suggested
      → Store × Result StepError Job
  unfolding or_job apply_mapping suggested_field_map
  try_entity s job entity_key later (err e) = (s, ok job)
  try_entity s job entity_key later (ok suggestion) = elim (suggested_field_map suggestion) [
    | none ↦ later
    | some [] ↦ later
    | some (e ∷ es) ↦
        or_job job
          (apply_mapping h registry s job.tenant_id job.id (plain_options entity_key (e ∷ es)))
  ]

  try_entities : Store → Job → List Entity → Store × Result StepError Job
  unfolding try_entity suggest_mapping_for_job
  try_entities s job [] = (s, ok job)
  try_entities s job (e ∷ es) =
      let later = try_entities s job es in
      try_entity s job e.entity_key later
        (suggest_mapping_for_job registry s job.tenant_id job.id job.module_name e.entity_key)

  auto_map : Store → Job → Option (Dict Text) → Option Text → Store × Result StepError Job
  unfolding lift_mapping apply_mapping try_entities list_target_entities
  auto_map s job (some fields) (some entity) =
      lift_mapping (apply_mapping h registry s job.tenant_id job.id (plain_options entity fields))
  auto_map s job _ _ =
      if is_missing job.module_name
      then (s, ok job)
      else try_entities s job (list_target_entities registry job.module_name)

  unfoldable pub step_auto_map : Store → Job → Store × Result StepError Job
  unfolding auto_map
  step_auto_map s job =
      if is_staged job.status
      then auto_map s job job.field_map (present job.entity_key)
      else (s, ok job)

  -- `(await jobStore.getJob(…).catch(() => null)) ?? job`
  refreshed : Job → Result StoreError Job → Job
  refreshed job (err e) = job
  refreshed job (ok job') = job'

  refresh : Store → Job → Store × Result StepError Job
  unfolding refreshed get_job
  refresh s job = (s, ok (refreshed job (get_job s job.tenant_id job.id)))

  after_validation : Job → Store × Result ValidationError Validated → Store × Result StepError Job
  unfolding refresh update_job
  after_validation job (s, ok v) = refresh s job
  after_validation job (s, err e) =
      refresh (update_job s job.tenant_id job.id (λ j. record j { status = failed })).0 job

  unfoldable pub step_validate :
      (Store → Job → Descriptor → Answers) → Store → Job → Store × Result StepError Job
  unfolding after_validation validate_import_job
  step_validate answers s job =
      if is_mapped job.status
      then after_validation job (validate_import_job h registry answers job.tenant_id job.id s)
      else (s, ok job)

module _ {W : Type 0} (commit_row : W → Text → Option Fields → Result Failure (Text × Text) × W)
    (aborted : W → W → W) where
  fetched : Store → W → Result StoreError Job → Store × W × Result StepError Job
  fetched s w (err e) = (s, w, err (store_error e))
  fetched s w (ok job) = (s, w, ok job)

  -- `updateJob`, and then `getJob`.
  update_and_fetch : Job → (Job → Job) → Store → W → Store × W × Result StepError Job
  unfolding fetched get_job update_job
  update_and_fetch job change s w =
      let s' = (update_job s job.tenant_id job.id change).0 in
      fetched s' w (get_job s' job.tenant_id job.id)

  -- The job with the status and the counts of the batch.
  abbrev pub closing : Job → Tally → Job → Job
  closing job t j = record j {
    status = final_status (or_zero job.valid_rows) t;
    committed_rows = t.committed_rows;
    commit_failed_rows = t.failed_rows;
    skipped_rows = skipped_rows (or_zero job.valid_rows) t;
  }

  close_job : Job → Store × W × Result StoreError Tally → Store × W × Result StepError Job
  unfolding update_and_fetch
  close_job job (s, w, err e) = (s, w, err (store_error e))
  close_job job (s, w, ok t) = update_and_fetch job (closing job t) s w

  commit_to :
      Connection
      → Job
      → Store
      → W
      → Result RegistryError Descriptor
      → Store × W × Result StepError Job
  unfolding close_job update_job commit_batch
  commit_to conn job s w (err e) = (s, w, err (target_error e))
  commit_to conn job s w (ok d) =
      let started = (update_job s job.tenant_id job.id (λ j. record j { status = committing })).0 in
      close_job job (
        commit_batch commit_row aborted job.tenant_id job.id d.commit_in_transaction conn none
          started w)

  commit_entity :
      Registry → Connection → Store → W → Job → Option Text → Store × W × Result StepError Job
  unfolding commit_to update_and_fetch get_target_descriptor
  commit_entity registry conn s w job none =
      update_and_fetch job (λ j. record j { status = failed }) s w
  commit_entity registry conn s w job (some entity) =
      if is_missing job.module_name
      then update_and_fetch job (λ j. record j { status = failed }) s w
      else commit_to conn job s w (get_target_descriptor registry job.module_name entity)

  unfoldable pub step_commit :
      Registry → Connection → Store → W → Job → Store × W × Result StepError Job
  unfolding commit_entity
  step_commit registry conn s w job =
      if is_validated job.status
      then commit_entity registry conn s w job (present job.entity_key)
      else (s, w, ok job)

-- `a || b` of two texts.
abbrev pub or_text : Text → Text → Text
or_text [] b = b
or_text (c ∷ a) b = c ∷ a

abbrev pub and_then :
    Store × Result StepError Job
    → (Store → Job → Store × Result StepError Job)
    → Store × Result StepError Job
and_then (s, err e) later = (s, err e)
and_then (s, ok job) later = later s job

-- The parts of the environment that a run is given.
pub record Setting (W : Type 0) : Type 0 where
  pub env : Env
  pub locale : Locale
  pub host : Host
  pub registry : Registry
  pub documents : Documents
  pub download : Text → Text → Result Text (Text × Source)
  pub answers : Store → Job → Descriptor → Answers
  pub commit_row : W → Text → Option Fields → Result Failure (Text × Text) × W
  pub aborted : W → W → W
  pub connection : Connection

-- What the job names: its table, and its place in the bucket; the empty text is none.
pub record Place : Type 0 where
  pub sql_table : Option Text
  pub bucket_name : Text
  pub object_path : Text

module _ {W : Type 0} (e : Setting W) where
  unfoldable pub first_step : Store → Job → Place → Text → Text → Store × Result StepError Job
  unfolding step_parse_and_stage
  first_step s job place bucket object =
      let b = or_text bucket place.bucket_name in
      let o = or_text object place.object_path in
      if is_missing b || is_missing o
      then (s, ok job)
      else step_parse_and_stage e.documents e.env e.locale e.host e.download s job place.sql_table b
          o

  last_step : W → Store × Result StepError Job → Store × W × Result StepError Job
  unfolding step_commit
  last_step w (s, err x) = (s, w, err x)
  last_step w (s, ok job) = step_commit e.commit_row e.aborted e.registry e.connection s w job

  -- `runJobPipeline`
  unfoldable pub run_job_pipeline :
      Store → W → Job → Place → Text → Text → Store × W × Result StepError Job
  unfolding last_step first_step step_auto_map step_validate
  run_job_pipeline s w job place bucket object = last_step w (
      and_then
        (and_then (first_step s job place bucket object)
          (λ s' j. step_auto_map e.host e.registry s' j))
        (λ s' j. step_validate e.host e.registry e.answers s' j))
