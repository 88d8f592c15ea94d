-- ===== src/Session/Manager.antt =====
-- orchestration/sessionManager.js: `createSession`, `addJobToSession`, `getSession`,
-- `listSessions`, `computeSessionOrder`.
pub mod Laws
pub mod Order
use universal_data_onboarder.Base.{
  ◌≡◌, ℕ, zero, suc, ◌-◌, ◌*◌, min, max, Bool, true, false, List, [], ◌∷◌, ◌++◌, Option, none, some,
  Text, codes, length, map, any, take, drop, ◌===◌, if◌then◌else◌, ℤ, pos, negsuc,
}
use universal_data_onboarder.Base.Dict.{Dict, put}
use universal_data_onboarder.Base.Result.{Result, ok, err}
use universal_data_onboarder.Registry.{Registry, RegistryError, Descriptor, get_target_descriptor}
use universal_data_onboarder.Store.{Job}
use universal_data_onboarder.Session.Graph.{SortError}
use universal_data_onboarder.Paging.{Page, page_of}
use universal_data_onboarder.Session.Order.{
  SessionJob, entities_from, Execution, compute_session_execution_order,
}
use universal_data_onboarder.Session.Db.{
  SessionStatus, EntryStatus, pending, SessionMember, JobEntry, Session, SessionDb,
}

pub data SessionError : Type 0 where
  -- Thrown with status code 404.
  job_not_found : SessionError
  session_not_found : SessionError
  -- Thrown with status code 409.
  not_pending : SessionStatus → SessionError
  -- Thrown with status code 400.
  no_jobs : SessionError
  no_order : SortError → SessionError

-- `createSession`, where the database allots `id`.
unfoldable pub new_session : Text → Text → Option Text → Option Text → Session
new_session id tenant_id label created_by = record {
  id = id;
  tenant_id = tenant_id;
  label = label;
  status = pending;
  jobs = [];
  execution_order = [];
  dependency_graph = [];
  job_statuses = [];
  counts = record { total = 0; completed = 0; failed = 0; skipped = 0 };
  created_by = created_by;
}

abbrev pub is_pending : SessionStatus → Bool
is_pending pending = true
is_pending _ = false

abbrev pub is_empty : List SessionMember → Bool
is_empty [] = true
is_empty (j ∷ js) = false

abbrev pub holds_job : List SessionMember → Text → Bool
holds_job jobs job_id = any (λ j. j.import_job_id === job_id) jobs

-- `session.jobs.push(…)`, `session.counts.total = session.jobs.length`
unfoldable pub push_job : Session → SessionMember → Session
push_job x j =
    let jobs = x.jobs ++ j ∷ [] in
    record x { jobs = jobs; counts = record x.counts { total = length jobs } }

-- `descriptor.dependencies` of the first module that has the entity.
unfoldable pub declared_in : Registry → Text → List Text → List Text
unfolding get_target_descriptor
declared_in registry entity [] = []
declared_in registry entity (m ∷ ms) = elim (get_target_descriptor registry m entity) [
  | ok d ↦ d.dependencies
  | err e ↦ declared_in registry entity ms
]

abbrev pub known_modules : List Text
known_modules = codes "hr" ∷ codes "businessops" ∷ []

-- `collectDependencies`, with the table so far.
unfoldable pub collect_dependencies : Registry → Dict (List Text) → List Text → Dict (List Text)
unfolding declared_in put
collect_dependencies registry acc [] = acc
collect_dependencies registry acc (e ∷ es) =
    collect_dependencies registry (put acc e (declared_in registry e known_modules)) es

abbrev pub to_job : SessionMember → SessionJob
to_job j = record { import_job_id = j.import_job_id; entity_key = j.entity_key }

-- `orderedIds.map((id, index) => …)`
unfoldable pub pending_entries : List Text → List JobEntry
pending_entries ids = map (λ id. record { import_job_id = id; status = pending; error = none }) ids

unfoldable pub ordered_session : Session → Dict (List Text) → Execution → Session
unfolding pending_entries
ordered_session x deps e = record x {
  execution_order = e.ordered_ids;
  dependency_graph = deps;
  job_statuses = pending_entries e.ordered_ids;
}

abbrev pub session_jobs : Session → List SessionJob
session_jobs x = map to_job x.jobs

unfoldable pub session_table : Registry → Session → Dict (List Text)
unfolding collect_dependencies entities_from
session_table registry x = collect_dependencies registry [] (entities_from [] (session_jobs x))

module _ {S : Type 0} (db : SessionDb S) where
  unfoldable pub create_session : S → Text → Text → Option Text → Option Text → S × Session
  unfolding new_session
  create_session s id tenant_id label created_by =
      let x = new_session id tenant_id label created_by in (db.save_session s x, x)

  add_to : S → Text → SessionMember → Session → S × Result SessionError Session
  unfolding push_job
  add_to s tenant_id j x =
      if is_pending x.status
      then if holds_job x.jobs j.import_job_id then (s, ok x) else (
        db.link_job (db.save_session s (push_job x j)) tenant_id j.import_job_id x.id,
        ok (push_job x j),
      )
      else (s, err (not_pending x.status))

  add_found :
      S → Text → SessionMember → Option Job → Option Session → S × Result SessionError Session
  unfolding add_to
  add_found s tenant_id j none found = (s, err job_not_found)
  add_found s tenant_id j (some job) none = (s, err session_not_found)
  add_found s tenant_id j (some job) (some x) = add_to s tenant_id j x

  unfoldable pub add_job_to_session :
      S → Text → Text → SessionMember → S × Result SessionError Session
  unfolding add_found
  add_job_to_session s tenant_id session_id j =
      add_found s tenant_id j (db.find_tenant_job s tenant_id j.import_job_id)
        (db.find_tenant_session s tenant_id session_id)

  session_or_error : Option Session → Result SessionError Session
  session_or_error none = err session_not_found
  session_or_error (some x) = ok x

  unfoldable pub get_session : S → Text → Text → Result SessionError Session
  unfolding session_or_error
  get_session s tenant_id session_id =
      session_or_error (db.find_tenant_session s tenant_id session_id)

  unfoldable pub list_sessions :
      S → Text → Option SessionStatus → Option ℤ → Option ℤ → Page Session
  unfolding page_of
  list_sessions s tenant_id status page limit =
      page_of 100 (db.find_sessions s tenant_id status) page limit

  save_order :
      S → Session → Dict (List Text) → Result SortError Execution → S × Result SessionError Session
  unfolding ordered_session
  save_order s x deps (err e) = (s, err (no_order e))
  save_order s x deps (ok e) =
      (db.save_session s (ordered_session x deps e), ok (ordered_session x deps e))

  order_jobs : Registry → S → Session → S × Result SessionError Session
  unfolding save_order session_table compute_session_execution_order
  order_jobs registry s x =
      if is_empty x.jobs
      then (s, err no_jobs)
      else save_order s x (session_table registry x)
          (compute_session_execution_order (session_jobs x) (session_table registry x))

  order_found : Registry → S → Option Session → S × Result SessionError Session
  unfolding order_jobs
  order_found registry s none = (s, err session_not_found)
  order_found registry s (some x) =
      if is_pending x.status then order_jobs registry s x else (s, err (not_pending x.status))

  unfoldable pub compute_session_order :
      Registry → S → Text → Text → S × Result SessionError Session
  unfolding order_found
  compute_session_order registry s tenant_id session_id =
      order_found registry s (db.find_tenant_session s tenant_id session_id)
