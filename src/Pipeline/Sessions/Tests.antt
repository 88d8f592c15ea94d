-- ===== src/Pipeline/Sessions/Tests.antt =====
-- A session of two jobs, run by the pipeline on the commit engine's sample store.
use universal_data_onboarder.Base.{◌≡◌, refl, ℕ, ◌+◌, true, [], ◌∷◌, some, codes, count, length}
use universal_data_onboarder.Base.Result.{ok}
use universal_data_onboarder.Store.{Store}
use universal_data_onboarder.Commit.Tests.{store}
use universal_data_onboarder.Pipeline.Steps.Tests.{setting, place}
use universal_data_onboarder.Pipeline.Sessions.{session_runner}
use universal_data_onboarder.Pipeline.Sessions.Laws.{IsApart, session_jobs_settle}
use universal_data_onboarder.Session.Db.{Session, SessionDb, IsSessionDb}
use universal_data_onboarder.Session.ExternalIds.{ExternalDb}
use universal_data_onboarder.Session.Run.{Runner, is_done, is_lost, run_jobs}
use universal_data_onboarder.Session.Run.Laws.{ids_of, all_settled, settled_status}
use universal_data_onboarder.Session.Run.Tests.{
  Documents, listed, listed-IsSessionDb, planned, planned_session, plans, apart,
}

abbrev State : Type 0
State = Documents × Store × ℕ

abbrev db : SessionDb State
db = record {
  find_session = λ s id. listed.find_session s.0 id;
  find_tenant_session = λ s t id. listed.find_tenant_session s.0 t id;
  find_sessions = λ s t status. listed.find_sessions s.0 t status;
  save_session = λ s x. (listed.save_session s.0 x, s.1, s.2);
  find_job = λ s id. listed.find_job s.0 id;
  find_tenant_job = λ s t id. listed.find_tenant_job s.0 t id;
  link_job = λ s t job_id session_id. (listed.link_job s.0 t job_id session_id, s.1, s.2);
}

db-IsSessionDb : IsSessionDb db
db-IsSessionDb = record {
  find_saved = λ s x id. listed-IsSessionDb.find_saved s.0 x id;
  find_linked = λ s t j i id. listed-IsSessionDb.find_linked s.0 t j i id;
  find_of_tenant = λ s t id. listed-IsSessionDb.find_of_tenant s.0 t id;
  found_id = λ s id x found. listed-IsSessionDb.found_id s.0 id x found;
}

abbrev rows : ExternalDb State
rows = record { candidates = λ s job_id identity. []; bulk_write = λ s ops. (s, ok 0) }

db-IsApart : IsApart db rows
db-IsApart = record { own = λ x s s' w w' id. refl; bulk_keeps = λ s ops id. refl }

abbrev runner : Runner State
runner = session_runner db rows setting (λ j. place) (codes "b") [] (λ e. []) (λ status. [])

abbrev ran : State
ran =
    (run_jobs db runner (codes "t") (codes "s") (planned, store, 0) []
      (codes "a" ∷ codes "b" ∷ [])).0

session_jobs_settle_example :
    (y : Session) × (db.find_session ran (codes "s") ≡ some y)
    × (ids_of y.job_statuses ≡ codes "a" ∷ codes "b" ∷ [])
    × (all_settled y.job_statuses ≡ true)
    × (y.status ≡ settled_status y.job_statuses)
    × (y.counts.completed ≡ count (λ z. is_done z.status) y.job_statuses)
    × (y.counts.failed ≡ count (λ z. is_lost z.status) y.job_statuses)
    × (y.counts.completed + y.counts.failed ≡ length y.job_statuses)
session_jobs_settle_example =
    session_jobs_settle db rows setting (λ j. place) (codes "b") [] (λ e. []) (λ status. [])
      db-IsSessionDb db-IsApart (planned, store, 0) (codes "t") (codes "s") planned_session plans
      (codes "a") (codes "b" ∷ []) refl apart
