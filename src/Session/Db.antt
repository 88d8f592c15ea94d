-- ===== src/Session/Db.antt =====
-- orchestration/adapters/mongoose/schemas/MigrationSession.model.js, and what
-- orchestration/sessionManager.js and worker/importPipeline.js ask of the collections of sessions
-- and jobs.
--
-- The collections are Mongoose's: their calls are the record `SessionDb`, and `IsSessionDb` is what
-- MongoDB documents of them. A document that was read is a copy until it is saved.
use universal_data_onboarder.Base.{◌≡◌, ℕ, List, Option, none, some, Text, ◌===◌, if◌then◌else◌}
use universal_data_onboarder.Base.Dict.{Dict}
use universal_data_onboarder.Store.{Job}

pub data SessionStatus : Type 0 where
  pending processing completed completed_with_errors failed : SessionStatus

-- `jobStatuses.status`
pub data EntryStatus : Type 0 where
  pending processing completed completed_with_errors failed skipped : EntryStatus

pub record SessionMember : Type 0 where
  pub import_job_id : Text
  pub module_name : Text
  pub entity_key : Text

-- The schema has no `entityKey` here, and Mongoose drops the one that `computeSessionOrder` sets.
pub record JobEntry : Type 0 where
  pub import_job_id : Text
  pub status : EntryStatus
  pub error : Option Text

pub record Counts : Type 0 where
  pub total : ℕ
  pub completed : ℕ
  pub failed : ℕ
  pub skipped : ℕ

pub record Session : Type 0 where
  pub id : Text
  pub tenant_id : Text
  pub label : Option Text
  pub status : SessionStatus
  pub jobs : List SessionMember
  pub execution_order : List Text
  pub dependency_graph : Dict (List Text)
  pub job_statuses : List JobEntry
  pub counts : Counts
  pub created_by : Option Text

pub record SessionDb (S : Type 0) : Type 0 where
  -- `MigrationSession.findById`, `MigrationSession.findOne({ _id, tenantId })`
  pub find_session : S → Text → Option Session
  pub find_tenant_session : S → Text → Text → Option Session
  -- `MigrationSession.find(filter).sort({ createdAt: -1 })`, with the status of the filter
  pub find_sessions : S → Text → Option SessionStatus → List Session
  -- `session.save()`, `MigrationSession.create`
  pub save_session : S → Session → S
  -- `ImportJob.findById`, `ImportJob.findOne({ _id, tenantId })`
  pub find_job : S → Text → Option Job
  pub find_tenant_job : S → Text → Text → Option Job
  -- `ImportJob.findOneAndUpdate({ _id, tenantId }, { $set: { sessionId } })`
  pub link_job : S → Text → Text → Text → S

abbrev pub of_tenant : Text → Option Session → Option Session
of_tenant tenant_id none = none
of_tenant tenant_id (some x) = if x.tenant_id === tenant_id then some x else none

pub record IsSessionDb {S : Type 0} (db : SessionDb S) : Type 0 where
  pub find_saved :
      (s : S) (x : Session) (id : Text)
      → db.find_session (db.save_session s x) id
        ≡ (if x.id === id then some x else db.find_session s id)
  pub find_linked :
      (s : S) (tenant_id job_id session_id id : Text)
      → db.find_session (db.link_job s tenant_id job_id session_id) id ≡ db.find_session s id
  pub find_of_tenant :
      (s : S) (tenant_id id : Text)
      → db.find_tenant_session s tenant_id id ≡ of_tenant tenant_id (db.find_session s id)
  pub found_id : (s : S) (id : Text) (x : Session) → db.find_session s id ≡ some x → x.id ≡ id
