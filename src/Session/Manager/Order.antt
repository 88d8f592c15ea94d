-- ===== src/Session/Manager/Order.antt =====
-- orchestration/sessionManager.js: what `computeSessionOrder` stores.
use universal_data_onboarder.Base.{
  ◌≡◌, refl, ap, List, [], ◌∷◌, some, Text, map, inl, inr, Bool-cases, Option-cases, All, false,
}
use universal_data_onboarder.Base.Result.{Result, ok, err, ok-injective}
use universal_data_onboarder.Registry.{Registry}
use universal_data_onboarder.Session.Graph.{circular}
use universal_data_onboarder.Session.Order.{Execution, compute_session_execution_order}
use universal_data_onboarder.Session.Order.Schedule.{
  IsSchedule, compute_session_execution_order_schedules,
}
use universal_data_onboarder.Session.Db.{pending, JobEntry, Session, SessionDb, IsSessionDb}
use universal_data_onboarder.Session.Manager.{
  SessionError, is_pending, ordered_session, pending_entries, session_jobs, session_table,
  order_found, order_jobs, save_order, compute_session_order, session_not_found, not_pending,
  no_order, no_jobs, is_empty,
}
use universal_data_onboarder.Session.Manager.Laws.{tenant-found, saved-found}

abbrev pub entry_ids : Session → List Text
entry_ids x = map (λ e. e.import_job_id) x.job_statuses

pending_entries-ids : (ids : List Text) → map (λ e. e.import_job_id) (pending_entries ids) ≡ ids
unfolding pending_entries
pending_entries-ids [] = refl
pending_entries-ids (id ∷ ids) = ap (λ rest. id ∷ rest) (pending_entries-ids ids)

abbrev IsWaiting : JobEntry → Type 0
IsWaiting e = e.status ≡ pending

pending_entries-All : (ids : List Text) → All IsWaiting (pending_entries ids)
unfolding pending_entries
pending_entries-All [] = tt
pending_entries-All (id ∷ ids) = (refl, pending_entries-All ids)

module _ {S : Type 0} (db : SessionDb S) (laws : IsSessionDb db) (registry : Registry) (s : S)
    (session_id : Text) where
  -- The stored session `y` is the pending session `x` with a schedule of its jobs.
  pub record IsPlanned (r : S) (y : Session) : Type 0 where
    pub before : Session
    pub found : db.find_session s session_id ≡ some before
    pub execution : Execution
    pub schedule : IsSchedule (session_table registry before) (session_jobs before) execution
    pub order : y.execution_order ≡ execution.ordered_ids
    pub entries : entry_ids y ≡ execution.ordered_ids
    pub waiting : All IsWaiting y.job_statuses
    pub same_jobs : y.jobs ≡ before.jobs
    pub stored : db.find_session r session_id ≡ some y

  -- What `computeSessionOrder` leaves and returns.
  pub record IsOutcome (r : S × Result SessionError Session) : Type 0 where
    pub refused : (e : SessionError) → r.1 ≡ err e → r.0 ≡ s
    pub planned : (y : Session) → r.1 ≡ ok y → IsPlanned r.0 y

  refusal-IsOutcome : (e : SessionError) → IsOutcome (s, err e)
  refusal-IsOutcome e = record { refused = λ _ _. refl; planned = λ y h. absurd (cc h) }

  ordered-IsPlanned :
      (x : Session) (e : Execution)
      → db.find_session s session_id ≡ some x
      → IsSchedule (session_table registry x) (session_jobs x) e
      → let y = ordered_session x (session_table registry x) e in IsPlanned (db.save_session s y) y
  unfolding ordered_session
  ordered-IsPlanned x e found schedule = record {
    before = x;
    found = found;
    execution = e;
    schedule = schedule;
    order = refl;
    entries = pending_entries-ids e.ordered_ids;
    waiting = pending_entries-All e.ordered_ids;
    same_jobs = refl;
    stored =
        saved-found db laws s (ordered_session x (session_table registry x) e) session_id
          (laws.found_id s session_id x found);
  }

  save_order-IsOutcome :
      (x : Session)
      → db.find_session s session_id ≡ some x
      → IsOutcome (
          save_order db s x
            (session_table registry x)
            (compute_session_execution_order (session_jobs x) (session_table registry x)))
  unfolding save_order
  save_order-IsOutcome x found =
      elim (compute_session_execution_order_schedules (session_table registry x) (session_jobs x)) [
        | inl (e, orders, schedule) ↦ rw orders (record {
          refused = λ _ h. absurd (cc h);
          planned = λ y h. rw (← ok-injective h) (ordered-IsPlanned x e found schedule);
        })
        | inr (vs, refuses, cyclic) ↦ rw refuses (refusal-IsOutcome (no_order (circular vs)))
      ]

  order_jobs-IsOutcome :
      (x : Session) → db.find_session s session_id ≡ some x → IsOutcome (order_jobs db registry s x)
  unfolding order_jobs
  order_jobs-IsOutcome x found = elim (Bool-cases (is_empty x.jobs)) [
    | inl empty ↦ rw empty (refusal-IsOutcome no_jobs)
    | inr some_jobs ↦ rw some_jobs (save_order-IsOutcome x found)
  ]

  -- Where `computeSessionOrder` throws, the database is as before. Else the stored session keeps its
  -- jobs and has a schedule of them as its execution order, and one waiting entry for each job in
  -- this order.
  pub compute_session_order-IsOutcome :
      (t : Text) → IsOutcome (compute_session_order db registry s t session_id)
  unfolding compute_session_order order_found
  compute_session_order-IsOutcome t = elim (Option-cases (db.find_tenant_session s t session_id)) [
    | inl missing ↦ rw missing (refusal-IsOutcome session_not_found)
    | inr (x, found) ↦ elim (Bool-cases (is_pending x.status)) [
      | inr busy ↦ rw (found, busy) (refusal-IsOutcome (not_pending x.status))
      | inl idle ↦
          rw (found, idle) (order_jobs-IsOutcome x (tenant-found db laws s t session_id x found))
    ]
  ]

-- A session that is not pending is refused.
pub compute_session_order_busy :
    {S : Type 0} (db : SessionDb S) (registry : Registry) (s : S) (t session_id : Text)
    (x : Session)
    → db.find_tenant_session s t session_id ≡ some x
    → is_pending x.status ≡ false
    → compute_session_order db registry s t session_id ≡ (s, err (not_pending x.status))
unfolding compute_session_order order_found
compute_session_order_busy db registry s t session_id x found busy = rw (found, busy) refl
