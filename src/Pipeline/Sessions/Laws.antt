-- ===== src/Pipeline/Sessions/Laws.antt =====
-- worker/importPipeline.js: a run of the jobs of a session by the pipeline settles the session.
use universal_data_onboarder.Base.{◌≡◌, ◌+◌, true, List, [], ◌∷◌, some, Text, count, length}
use universal_data_onboarder.Base.Distinct.{IsDistinct}
use universal_data_onboarder.Store.{Store, Job, JobStatus}
use universal_data_onboarder.Pipeline.Stage.{StepError}
use universal_data_onboarder.Pipeline.Steps.{Setting, Place}
use universal_data_onboarder.Pipeline.Sessions.{session_runner, run_session_job}
use universal_data_onboarder.Session.Db.{Session, SessionDb, IsSessionDb}
use universal_data_onboarder.Session.ExternalIds.{ExternalOp, ExternalDb}
use universal_data_onboarder.Session.ExternalIds.Laws.{populate-Keeps}
use universal_data_onboarder.Session.Run.{is_done, is_lost, run_jobs}
use universal_data_onboarder.Session.Run.Laws.{ids_of, all_settled, settled_status}
use universal_data_onboarder.Session.Run.Settles.{IsSilent, run_jobs_settles}

-- The collection of sessions is apart from those of the jobs and rows, and from the target.
pub record IsApart {X W : Type 0} (db : SessionDb (X × Store × W))
    (rows : ExternalDb (X × Store × W)) : Type 0 where
  pub own :
      (x : X) (s s' : Store) (w w' : W) (id : Text)
      → db.find_session (x, s', w') id ≡ db.find_session (x, s, w) id
  pub bulk_keeps :
      (s : X × Store × W) (ops : List ExternalOp) (id : Text)
      → db.find_session (rows.bulk_write s ops).0 id ≡ db.find_session s id

module _ {X W : Type 0} (db : SessionDb (X × Store × W)) (rows : ExternalDb (X × Store × W))
    (e : Setting W) (place_of : Job → Place) (bucket object : Text) (message : StepError → Text)
    (refusal : JobStatus → Text) where
  session_runner-IsSilent :
      IsApart db rows
      → IsSilent db (session_runner db rows e place_of bucket object message refusal)
  unfolding session_runner run_session_job
  session_runner-IsSilent is_apart = record {
    run_job_keeps = λ s j id. is_apart.own s.0 s.1 _ s.2 _ id;
    populate_keeps = λ s t sid id.
        populate-Keeps db rows e.host e.registry id (λ s' ops. is_apart.bulk_keeps s' ops id) s sid;
  }

  -- A run of the jobs of a session by the pipeline, in any order of its entries, ends with every
  -- entry settled, whatever the jobs come to, and with the session completed, or completed with
  -- errors if an entry is failed or skipped. The session then counts as completed the entries that
  -- are completed or completed with errors, as failed those that are failed or skipped, and these
  -- counts add up to the number of its entries. The sessions are asked to be a collection of their
  -- own, with each job once.
  pub session_jobs_settle :
      IsSessionDb db
      → IsApart db rows
      → (s : X × Store × W) (tenant_id session_id : Text) (x : Session)
      → db.find_session s session_id ≡ some x
      → (id : Text) (ids : List Text) → ids_of x.job_statuses ≡ id ∷ ids
      → IsDistinct (id ∷ ids)
      → (y : Session) × (db.find_session
            (run_jobs db
              (session_runner db rows e place_of bucket object message refusal)
              tenant_id
              session_id
              s
              []
              (id ∷ ids)).0
            session_id
          ≡ some y)
        × (ids_of y.job_statuses ≡ id ∷ ids)
        × (all_settled y.job_statuses ≡ true)
        × (y.status ≡ settled_status y.job_statuses)
        × (y.counts.completed ≡ count (λ z. is_done z.status) y.job_statuses)
        × (y.counts.failed ≡ count (λ z. is_lost z.status) y.job_statuses)
        × (y.counts.completed + y.counts.failed ≡ length y.job_statuses)
  session_jobs_settle laws is_apart s tenant_id session_id x found id ids order d =
      run_jobs_settles db laws (session_runner db rows e place_of bucket object message refusal)
        (session_runner-IsSilent is_apart) s tenant_id session_id x found id ids order d
