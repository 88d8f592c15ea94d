-- ===== src/Store.antt =====
-- orchestration/adapters/inMemoryJobStore.js: the jobs, staged rows and mapping profiles in
-- process memory, the implementation of orchestration/jobStore.js that this repository holds
-- whole. Its methods return the changed store.
--
-- `clone` hands out copies, so a value of this model stands for one. The filters are those that
-- the engine uses, a condition for each key; `toString` is left out of their comparison.
pub mod Rows
pub mod Jobs
pub mod Laws
use universal_data_onboarder.Base.{
  ℕ, Bool, true, false, List, [], Option, none, some, Text, codes, ◌===◌, ◌++◌, ◌∷◌,
}
use universal_data_onboarder.Base.Dict.{Dict}
use universal_data_onboarder.Value.{Value, Fields}

-- The statuses of orchestration/adapters/mongoose/schemas/ImportJob.model.js.
pub data JobStatus : Type 0 where
  pending_upload uploaded guardrail_rejected staged mapped validated committing completed
        completed_with_errors commit_failed failed :
      JobStatus

pub data ValidationStatus : Type 0 where
  unvalidated valid invalid : ValidationStatus

pub data CommitStatus : Type 0 where
  pending committing committed failed : CommitStatus

-- What a row is told by validation.
pub data RowError : Type 0 where
  is_required : Text → RowError
  not_in_enum : Text → Value → List Text → RowError
  duplicate_in_file already_exists : Text → RowError
  not_found : Text → Value → RowError
  excluded : RowError

-- `mem-n` is the id of the n-th row that was staged.
pub record StagedRow : Type 0 where
  pub id : ℕ
  pub tenant_id : Text
  pub import_job_id : Text
  pub row_index : ℕ
  pub raw_row : Fields
  pub custom_fields : Fields
  pub mapped_fields : Option Fields
  pub validation_status : Option ValidationStatus
  pub validation_errors : List RowError
  pub commit_status : CommitStatus
  -- The id and the model of the entity that the row became.
  pub committed_entity : Option (Text × Text)
  pub commit_error : Option Text

pub record Job : Type 0 where
  pub id : Text
  pub tenant_id : Text
  pub module_name : Text
  pub entity_key : Option Text
  pub field_map : Option (Dict Text)
  pub mapping_profile_id : Option Text
  pub session_id : Option Text
  pub status : JobStatus
  pub valid_rows : Option ℕ
  pub invalid_rows : ℕ
  pub committed_rows : ℕ
  pub commit_failed_rows : ℕ
  pub skipped_rows : ℕ

pub record Profile : Type 0 where
  pub id : Text
  pub tenant_id : Text
  pub module_name : Text
  pub entity_key : Text
  pub field_map : Dict Text
  pub label : Text
  pub created_by : Option Text

pub record Store : Type 0 where
  pub jobs : Dict Job
  pub staged_records : Dict (List StagedRow)
  pub mapping_profiles : Dict Profile
  pub sequence : ℕ

-- `${tenantId}:${importJobId}`
unfoldable pub store_key : Text → Text → Text
store_key tenant_id import_job_id = tenant_id ++ b':' ∷ import_job_id

-- `createInMemoryJobStore`, and what `_reset` leaves.
unfoldable pub create_in_memory_job_store : Store
create_in_memory_job_store = record {
  jobs = [];
  staged_records = [];
  mapping_profiles = [];
  sequence = 0;
}
