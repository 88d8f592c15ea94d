-- ===== src/Pipeline/Steps/Tests.antt =====
-- The steps on the commit engine's sample job, with insertions that append to one list.
use universal_data_onboarder.Base.{ℕ, ◌≡◌, refl, List, [], ◌∷◌, none, codes}
use universal_data_onboarder.Base.Dict.{get, put}
use universal_data_onboarder.Base.Result.{Result, ok, err}
use universal_data_onboarder.Value.{Fields, str}
use universal_data_onboarder.Value.Sample.{sample_host}
use universal_data_onboarder.Registry.Tests.{one}
use universal_data_onboarder.Import.Tests.{env, locale, source}
use universal_data_onboarder.Store.{Store, Job, StagedRow, staged, pending, completed_with_errors}
use universal_data_onboarder.Commit.Tests.{commit_row, aborted, job, store, conn}
use universal_data_onboarder.Commit.Batch.{commit_batch}
use universal_data_onboarder.Validation.Rules.{Answers}
use universal_data_onboarder.Pipeline.Stage.{RowDraft, Documents, StepError}
use universal_data_onboarder.Pipeline.Steps.{Setting, Place, run_job_pipeline, step_commit}
use universal_data_onboarder.Pipeline.Steps.Laws.{run_job_pipeline_rests}
use universal_data_onboarder.Commit.Job.{final_status}

abbrev row_of : RowDraft → StagedRow
row_of d = record {
  id = d.row_index;
  tenant_id = d.tenant_id;
  import_job_id = d.import_job_id;
  row_index = d.row_index;
  raw_row = d.raw_row;
  custom_fields = d.custom_fields;
  mapped_fields = none;
  validation_status = none;
  validation_errors = [];
  commit_status = pending;
  committed_entity = none;
  commit_error = none;
}

-- Each document is put before the others.
abbrev added : Store → RowDraft → Store
added s d = record s { staged_records = (codes "row", row_of d ∷ []) ∷ s.staged_records }

abbrev with_rows : Store → List RowDraft → Store
with_rows s [] = s
with_rows s (d ∷ ds) = with_rows (added s d) ds

abbrev documents : Documents
documents = record {
  update_by_id = λ s id updates. (s, none);
  delete_many = λ s id. (s, 0);
  insert_many = λ s ds. (with_rows s ds, ok tt);
}

abbrev rows : List Fields
rows = ((codes "a", str (codes "1")) ∷ []) ∷ ((codes "a", str (codes "2")) ∷ []) ∷ []

abbrev answers : Answers
answers = record {
  duplicate_identity_values = [];
  existing_identities = [];
  reference_lookups = none;
}

abbrev pub setting : Setting ℕ
setting = record {
  env = env;
  locale = locale;
  host = sample_host;
  registry = one;
  documents = documents;
  download = λ bucket object. ok (codes "a.csv", source);
  answers = λ s j d. answers;
  commit_row = commit_row;
  aborted = aborted;
  connection = conn;
}

abbrev pub place : Place
place = record { sql_table = none; bucket_name = codes "b"; object_path = codes "o" }

-- A staged job without a mapping.
abbrev unmapped : Job
unmapped = record job { status = staged; field_map = none }

run_job_pipeline_rests_example :
    run_job_pipeline setting store 0 unmapped place [] [] ≡ (store, 0, ok unmapped)
run_job_pipeline_rests_example = run_job_pipeline_rests setting store 0 unmapped place [] [] refl

abbrev ran : Store × ℕ × Result StepError Job
ran = step_commit commit_row aborted one conn store 0 job

abbrev job_after : Result StepError Job → Job
job_after (err e) = job
job_after (ok j) = j

closes_with_errors : (job_after ran.2).status ≡ completed_with_errors
unfolding step_commit commit_batch get put final_status
closes_with_errors = refl
