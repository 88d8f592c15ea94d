-- ===== src/Session/Run.antt =====
-- worker/importPipeline.js: `advanceSessionJobStatus`, `runSessionPipeline`.
--
-- The run of one job (`runJobPipeline`) and `populateSessionExternalIds` work on the jobs and the
-- staged rows; they are arguments here, which Pipeline.Sessions gives. A job's final status that the
-- schema of `jobStatuses` does not list is refused by `save`, as Mongoose validates an `enum`.
pub mod Laws
pub mod Marks
pub mod Settles
pub mod Stuck
pub mod Tests
use universal_data_onboarder.Base.{
  ℕ, ◌+◌, ◌==◌, ltb, Bool, true, false, List, [], ◌∷◌, ◌++◌, Option, none, some, Text, codes,
  length, count, ◌===◌, if◌then◌else◌, map,
}
use universal_data_onboarder.Base.Result.{Result, ok, err}
use universal_data_onboarder.Registry.{Registry}
use universal_data_onboarder.Store.{Job, JobStatus}
use universal_data_onboarder.Session.Db.{
  SessionStatus, EntryStatus, processing, completed, completed_with_errors, failed, skipped,
  JobEntry, Session, SessionDb,
}
use universal_data_onboarder.Session.Manager.{SessionError, is_pending, compute_session_order}

abbrev pub is_done : EntryStatus → Bool
is_done completed = true
is_done completed_with_errors = true
is_done _ = false

abbrev pub is_lost : EntryStatus → Bool
is_lost failed = true
is_lost skipped = true
is_lost _ = false

-- `if (error) entry.error = error`
abbrev or_before : Option Text → Option Text → Option Text
or_before none before = before
or_before (some []) before = before
or_before (some (c ∷ e)) before = some (c ∷ e)

-- The first entry of the job is changed, if there is one.
unfoldable pub mark_entry : Text → EntryStatus → Option Text → List JobEntry → List JobEntry
unfolding ◌===◌
mark_entry id status error [] = []
mark_entry id status error (e ∷ es) =
    let rest = mark_entry id status error es in
    if e.import_job_id === id
    then record e { status = status; error = or_before error e.error } ∷ es
    else e ∷ rest

abbrev pub is_failed : EntryStatus → Bool
is_failed failed = true
is_failed _ = false

unfoldable pub next_status : EntryStatus → ℕ → ℕ → ℕ → SessionStatus
next_status status done lost total =
    if done + lost == total
    then if ltb 0 lost then completed_with_errors else completed
    else if is_failed status
    then completed_with_errors
    else processing

unfoldable pub advanced : Session → Text → EntryStatus → Option Text → Session
unfolding mark_entry next_status
advanced x id status error =
    let es = mark_entry id status error x.job_statuses in
    let done = count (λ e. is_done e.status) es in
    let lost = count (λ e. is_lost e.status) es in
    record x {
      job_statuses = es;
      counts = record x.counts { completed = done; failed = lost };
      status = next_status status done lost (length es);
    }

-- The status of a job, where the schema lists it for an entry.
unfoldable pub entry_status : JobStatus → Option EntryStatus
entry_status JobStatus.completed = some completed
entry_status JobStatus.completed_with_errors = some completed_with_errors
entry_status JobStatus.failed = some failed
entry_status _ = none

pub data RunError : Type 0 where
  no_session : RunError
  order_error : SessionError → RunError

-- What one job of a session came to, as the caller is told.
pub record JobOutcome : Type 0 where
  pub import_job_id : Text
  pub status : EntryStatus

abbrev pub entry_outcome : JobEntry → JobOutcome
entry_outcome e = record { import_job_id = e.import_job_id; status = e.status }

pub record RunResult : Type 0 where
  pub status : SessionStatus
  pub statuses : List JobOutcome

-- What a run is given: the pipeline of one job, with what it throws, and the copy of the identity
-- values, whose errors are logged.
pub record Runner (S : Type 0) : Type 0 where
  pub run_job : S → Job → S × Result Text JobStatus
  pub populate : S → Text → Text → S
  -- Mongoose's message for a status that the schema does not list.
  pub refusal : JobStatus → Text

module _ {S : Type 0} (db : SessionDb S) where
  save_advanced : S → Text → EntryStatus → Option Text → Option Session → S
  unfolding advanced
  save_advanced s id status error none = s
  save_advanced s id status error (some x) = db.save_session s (advanced x id status error)

  unfoldable pub advance_session_job_status : S → Text → Text → EntryStatus → Option Text → S
  unfolding save_advanced
  advance_session_job_status s session_id id status error =
      save_advanced s id status error (db.find_session s session_id)

  module _ (runner : Runner S) (tenant_id session_id : Text) where
    abbrev outcome : Text → EntryStatus → JobOutcome
    outcome id status = record { import_job_id = id; status = status }

    -- The `catch` of the loop.
    fail_job : S → Text → Text → S × JobOutcome
    unfolding advance_session_job_status
    fail_job s id message =
        (advance_session_job_status s session_id id failed (some message), outcome id failed)

    finish_job : S → Text → EntryStatus → S × JobOutcome
    unfolding advance_session_job_status
    finish_job s id status =
        let s' = advance_session_job_status s session_id id status none in
        (if is_done status then runner.populate s' tenant_id session_id else s', outcome id status)

    settle_known : S → Text → JobStatus → Option EntryStatus → S × JobOutcome
    unfolding fail_job finish_job
    settle_known s id status none = fail_job s id (runner.refusal status)
    settle_known s id status (some e) = finish_job s id e

    settle_job : Text → S × Result Text JobStatus → S × JobOutcome
    unfolding settle_known entry_status
    settle_job id (s, err message) = fail_job s id message
    settle_job id (s, ok status) = settle_known s id status (entry_status status)

    run_found : S → Text → Option Job → S × JobOutcome
    unfolding settle_job advance_session_job_status
    run_found s id none = (
      advance_session_job_status s session_id id skipped (some (codes "ImportJob not found")),
      outcome id skipped,
    )
    run_found s id (some job) =
        settle_job id
          (runner.run_job (advance_session_job_status s session_id id processing none) job)

    -- One round of the loop.
    unfoldable pub run_one : S → Text → S × JobOutcome
    unfolding run_found
    run_one s id = run_found s id (db.find_job s id)

    unfoldable pub run_jobs : S → List JobOutcome → List Text → S × List JobOutcome
    unfolding run_one
    run_jobs s statuses [] = (s, statuses)
    run_jobs s statuses (id ∷ ids) =
        let (s', o) = run_one s id in run_jobs s' (statuses ++ o ∷ []) ids

    status_or_failed : Option Session → SessionStatus
    status_or_failed none = failed
    status_or_failed (some x) = x.status

    finished : S × List JobOutcome → S × Result RunError RunResult
    unfolding status_or_failed
    finished (s, statuses) = (
      s,
      ok (record { status = status_or_failed (db.find_session s session_id); statuses = statuses }),
    )

    run_ordered : S → Option Session → S × Result RunError RunResult
    unfolding finished run_jobs
    run_ordered s none = (s, err no_session)
    run_ordered s (some x) = finished (run_jobs s [] x.execution_order)

    after_order : S × Result SessionError Session → S × Result RunError RunResult
    unfolding run_ordered
    after_order (s, err e) = (s, err (order_error e))
    after_order (s, ok x) = run_ordered s (db.find_session s session_id)

    run_from : Registry → S → Option Session → S × Result RunError RunResult
    unfolding after_order compute_session_order
    run_from registry s none = (s, err no_session)
    run_from registry s (some x) =
        if is_pending x.status
        then after_order (
            compute_session_order db registry (db.save_session s (record x { status = processing }))
              tenant_id session_id)
        else (s, ok (record { status = x.status; statuses = map entry_outcome x.job_statuses }))

    unfoldable pub run_session_pipeline : Registry → S → S × Result RunError RunResult
    unfolding run_from
    run_session_pipeline registry s = run_from registry s (db.find_session s session_id)
