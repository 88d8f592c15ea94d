-- ===== src/Session/Run/Tests.antt =====
-- Sessions in a list, the newest version first, and a session that is filled and run on it.
use universal_data_onboarder.Base.{
  ◌≡◌, refl, true, List, [], ◌∷◌, Option, none, some, Text, codes, ◌===◌, ===_iff, if◌then◌else◌,
  arith,
}
use universal_data_onboarder.Base.Distinct.{IsDistinct}
use universal_data_onboarder.Base.Result.{ok, err}
use universal_data_onboarder.Registry.{Registry}
use universal_data_onboarder.Store.{Job, JobStatus, uploaded}
use universal_data_onboarder.Session.Db.{
  SessionStatus, pending, processing, completed_with_errors, failed, SessionMember, Session,
  SessionDb, IsSessionDb, of_tenant, JobEntry,
}
use universal_data_onboarder.Session.Manager.{
  not_pending, is_pending, new_session, push_job, add_job_to_session, compute_session_order,
}
use universal_data_onboarder.Session.Manager.Laws.{IsAdded, add_job_to_session-IsAdded}
use universal_data_onboarder.Session.Manager.Order.{IsOutcome, compute_session_order-IsOutcome}
use universal_data_onboarder.Session.Run.{
  order_error, Runner, run_jobs, run_session_pipeline, JobOutcome,
}
use universal_data_onboarder.Session.Run.Settles.{IsSilent}
use universal_data_onboarder.Session.Run.Stuck.{run_session_pipeline_stuck}

abbrev pub Documents : Type 0
Documents = List Session × List Job

abbrev pub find_in : List Session → Text → Option Session
find_in [] id = none
find_in (x ∷ xs) id = if x.id === id then some x else find_in xs id

abbrev find_job_in : List Job → Text → Option Job
find_job_in [] id = none
find_job_in (j ∷ js) id = if j.id === id then some j else find_job_in js id

abbrev link : Text → Text → List Job → List Job
link job_id session_id [] = []
link job_id session_id (j ∷ js) =
    (if j.id === job_id then record j { session_id = some session_id } else j)
    ∷ link job_id session_id js

abbrev pub listed : SessionDb Documents
listed = record {
  find_session = λ s id. find_in s.0 id;
  find_tenant_session = λ s t id. of_tenant t (find_in s.0 id);
  find_sessions = λ s t status. s.0;
  save_session = λ s x. (x ∷ s.0, s.1);
  find_job = λ s id. find_job_in s.1 id;
  find_tenant_job = λ s t id. find_job_in s.1 id;
  link_job = λ s t job_id session_id. (s.0, link job_id session_id s.1);
}

find_in-id : (xs : List Session) (id : Text) (x : Session) → find_in xs id ≡ some x → x.id ≡ id
find_in-id [] id x found = absurd (cc found)
find_in-id (y ∷ xs) id x found = ground (arith, find_in-id xs id x, ===_iff y.id id)

pub listed-IsSessionDb : IsSessionDb listed
listed-IsSessionDb = record {
  find_saved = λ s x id. refl;
  find_linked = λ s t j i id. refl;
  find_of_tenant = λ s t id. refl;
  found_id = λ s id x found. find_in-id s.0 id x found;
}

abbrev job : Text → Job
job id = record {
  id = id;
  tenant_id = codes "t";
  module_name = codes "hr";
  entity_key = some (codes "role");
  field_map = none;
  mapping_profile_id = none;
  session_id = none;
  status = uploaded;
  valid_rows = none;
  invalid_rows = 0;
  committed_rows = 0;
  commit_failed_rows = 0;
  skipped_rows = 0;
}

abbrev empty_session : Session
empty_session = new_session (codes "s") (codes "t") none none

abbrev member : Text → SessionMember
member id = record { import_job_id = id; module_name = codes "hr"; entity_key = codes "role" }

abbrev documents : Documents
documents = (empty_session ∷ [], job (codes "a") ∷ job (codes "b") ∷ [])

abbrev one_added : Documents
one_added = (add_job_to_session listed documents (codes "t") (codes "s") (member (codes "a"))).0

abbrev pub both_added : Documents
both_added = (add_job_to_session listed one_added (codes "t") (codes "s") (member (codes "b"))).0

abbrev no_targets : Registry
no_targets = []

abbrev pub planned : Documents
planned = (compute_session_order listed no_targets both_added (codes "t") (codes "s")).0

-- The first job completes, and all others throw.
abbrev runner : Runner Documents
runner = record {
  run_job =
      λ s j. (s, if j.id === codes "a" then ok JobStatus.completed else err (codes "no file"));
  populate = λ s t sid. s;
  refusal = λ status. [];
}

runner-IsSilent : IsSilent listed runner
runner-IsSilent = record { run_job_keeps = λ s j id. refl; populate_keeps = λ s t sid id. refl }

abbrev pub pair : Session
pair = push_job (push_job empty_session (member (codes "a"))) (member (codes "b"))

adds_both : find_in both_added.0 (codes "s") ≡ some pair
unfolding add_job_to_session ◌===◌ new_session push_job
adds_both = refl

add_job_to_session-IsAdded_example :
    IsAdded listed listed-IsSessionDb one_added
      (codes "s")
      (codes "b")
      (add_job_to_session listed one_added (codes "t") (codes "s") (member (codes "b")))
add_job_to_session-IsAdded_example =
    add_job_to_session-IsAdded listed listed-IsSessionDb one_added (codes "t") (codes "s")
      (member (codes "b"))

compute_session_order-IsOutcome_example :
    IsOutcome listed listed-IsSessionDb no_targets both_added
      (codes "s")
      (compute_session_order listed no_targets both_added (codes "t") (codes "s"))
compute_session_order-IsOutcome_example =
    compute_session_order-IsOutcome listed listed-IsSessionDb no_targets both_added (codes "s")
      (codes "t")

abbrev waiting : Text → JobEntry
waiting id = record { import_job_id = id; status = pending; error = none }

abbrev pub planned_session : Session
planned_session = record pair {
  execution_order = codes "a" ∷ codes "b" ∷ [];
  dependency_graph = (codes "role", []) ∷ [];
  job_statuses = waiting (codes "a") ∷ waiting (codes "b") ∷ [];
}

pub plans : find_in planned.0 (codes "s") ≡ some planned_session
unfolding compute_session_order add_job_to_session ◌===◌ new_session push_job
plans = refl

abbrev ran : Documents × List JobOutcome
ran = run_jobs listed runner (codes "t") (codes "s") planned [] (codes "a" ∷ codes "b" ∷ [])

abbrev status_of : Option Session → SessionStatus
status_of none = failed
status_of (some x) = x.status

ran_with_errors : status_of (find_in ran.0.0 (codes "s")) ≡ completed_with_errors
unfolding run_jobs compute_session_order add_job_to_session ◌===◌ new_session push_job
ran_with_errors = refl

pub apart : IsDistinct (codes "a" ∷ codes "b" ∷ [])
unfolding ◌===◌
apart = (refl, (refl, tt))

pair_own : (pair.tenant_id === codes "t") ≡ true
unfolding ◌===◌ new_session push_job
pair_own = refl

pair_idle : is_pending pair.status ≡ true
unfolding new_session push_job
pair_idle = refl

run_session_pipeline_stuck_example :
    run_session_pipeline listed runner (codes "t") (codes "s") no_targets both_added ≡ (
      (record pair { status = processing } ∷ both_added.0, both_added.1),
      err (order_error (not_pending processing)),
    )
run_session_pipeline_stuck_example =
    run_session_pipeline_stuck listed listed-IsSessionDb both_added (codes "t") (codes "s") pair
      adds_both pair_own runner no_targets pair_idle
