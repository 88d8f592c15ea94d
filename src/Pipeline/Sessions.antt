-- ===== src/Pipeline/Sessions.antt =====
-- worker/importPipeline.js: `runSessionPipeline` with the `runJobPipeline` and the
-- `populateSessionExternalIds` that it calls.
--
-- The sessions are one part of the state, the job store and the target are the others. `place_of`
-- gives what the document of a job says of its file.
pub mod Laws
mod Tests
use universal_data_onboarder.Base.{Text}
use universal_data_onboarder.Base.Result.{Result, ok, err}
use universal_data_onboarder.Store.{Store, Job, JobStatus}
use universal_data_onboarder.Pipeline.Stage.{StepError}
use universal_data_onboarder.Pipeline.Steps.{Setting, Place, run_job_pipeline, or_text}
use universal_data_onboarder.Session.Db.{SessionDb}
use universal_data_onboarder.Session.ExternalIds.{ExternalDb, populate_session_external_ids}
use universal_data_onboarder.Session.Run.{Runner}

module _ {X W : Type 0} (db : SessionDb (X × Store × W)) (rows : ExternalDb (X × Store × W))
    (e : Setting W) (place_of : Job → Place) (bucket object : Text) (message : StepError → Text)
    (refusal : JobStatus → Text) where
  told : Result StepError Job → Result Text JobStatus
  told (err x) = err (message x)
  told (ok job) = ok job.status

  -- The `runJobPipeline` of a session, which passes the bucket of the environment on, and its
  -- path for a job without one.
  unfoldable pub run_session_job : X × Store × W → Job → (X × Store × W) × Result Text JobStatus
  unfolding told run_job_pipeline
  run_session_job (x, s, w) job =
      let place = place_of job in
      let (s', w', r) =
        run_job_pipeline e s w job place bucket (or_text place.object_path object) in
      ((x, s', w'), told r)

  -- What `runSessionPipeline` calls for each job.
  unfoldable pub session_runner : Runner (X × Store × W)
  unfolding run_session_job populate_session_external_ids
  session_runner = record {
    run_job = run_session_job;
    populate = λ s tenant_id session_id.
        (populate_session_external_ids db rows e.host e.registry s session_id).0;
    refusal = refusal;
  }
