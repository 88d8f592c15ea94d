-- ===== src/Session/Run/Settles.antt =====
-- worker/importPipeline.js: a run of all jobs of a session settles the session.
use universal_data_onboarder.Base.{
  ◌≡◌, refl, sym, ap, ◌∙◌, true, List, [], ◌∷◌, ◌++◌, Option, none, some, Text, codes, all,
  includes, ◌===◌, ===_iff, arith, inl, inr, Bool-cases, Option-cases, append-nil, append_assoc,
  ◌+◌, count, length,
}
use universal_data_onboarder.Base.Distinct.{IsDistinct, includes-append}
use universal_data_onboarder.Base.Result.{Result, ok, err}
use universal_data_onboarder.Store.{Job, JobStatus}
use universal_data_onboarder.Session.Db.{
  EntryStatus, processing, failed, skipped, JobEntry, Session, SessionDb, IsSessionDb,
}
use universal_data_onboarder.Session.Run.{
  is_done, mark_entry, entry_status, JobOutcome, Runner, advance_session_job_status, run_one,
  run_found, settle_job, finish_job, fail_job, run_jobs, settle_known, is_lost,
}
use universal_data_onboarder.Session.Run.Laws.{
  ids_of, settled_at, all_settled, all_settled_at, settled_status, IsAt, advance_IsAt,
  settled_counts,
}
use universal_data_onboarder.Session.Run.Marks.{
  IsStep, mark-IsStep, marked-IsStep, entry_status-settled,
}

-- The run of a job and the copy of identity values leave the sessions alone.
pub record IsSilent {S : Type 0} (db : SessionDb S) (runner : Runner S) : Type 0 where
  pub run_job_keeps :
      (s : S) (j : Job) (id : Text)
      → db.find_session (runner.run_job s j).0 id ≡ db.find_session s id
  pub populate_keeps :
      (s : S) (t sid id : Text)
      → db.find_session (runner.populate s t sid) id ≡ db.find_session s id

module _ {S : Type 0} (db : SessionDb S) (laws : IsSessionDb db) (runner : Runner S)
    (silent : IsSilent db runner) (tenant_id session_id : Text) where
  abbrev At : S → List JobEntry → Type 0
  At s es = IsAt db session_id s es

  -- The same without the status.
  record IsStored (s : S) (es : List JobEntry) : Type 0 where
    pub session : Session
    pub found : db.find_session s session_id ≡ some session
    pub entries : session.job_statuses ≡ es

  stored : (s : S) (es : List JobEntry) → At s es → IsStored s es
  stored s es at = record { session = at.session; found = at.found; entries = at.entries }

  moved :
      (s s' : S) (es : List JobEntry)
      → db.find_session s' session_id ≡ db.find_session s session_id
      → At s es
      → At s' es
  moved s s' es same at = record {
    session = at.session;
    found = same ∙ at.found;
    entries = at.entries;
    closes = at.closes;
    done = at.done;
    lost = at.lost;
  }

  advanced-At :
      (s : S) (es : List JobEntry) (id : Text) (status : EntryStatus) (error : Option Text)
      → IsStored s es
      → At
          (advance_session_job_status db s session_id id status error)
          (mark_entry id status error es)
  advanced-At s es id status error at =
      rw at.entries at (advance_IsAt db laws session_id s at.session id status error at.found)

  fail-At :
      (s : S) (es : List JobEntry) (id message : Text)
      → At s es
      → At
          (fail_job db runner tenant_id session_id s id message).0
          (mark_entry id failed (some message) es)
  unfolding fail_job
  fail-At s es id message at = advanced-At s es id failed (some message) (stored s es at)

  finish-At :
      (s : S) (es : List JobEntry) (id : Text) (status : EntryStatus)
      → At s es
      → At (finish_job db runner tenant_id session_id s id status).0 (mark_entry id status none es)
  unfolding finish_job
  finish-At s es id status at =
      let s' = advance_session_job_status db s session_id id status none in
      let there = advanced-At s es id status none (stored s es at) in
      elim (Bool-cases (is_done status)) [
        | inl done ↦ rw done (
            moved s' (runner.populate s' tenant_id session_id) (mark_entry id status none es)
              (silent.populate_keeps s' tenant_id session_id session_id) there)
        | inr other ↦ rw other there
      ]

  -- What one job leaves of the session.
  abbrev Settled : Text → List JobEntry → S × JobOutcome → Type 0
  Settled id es r = (es' : List JobEntry) × At r.0 es' × IsStep id es es'

  settle-At :
      (s : S) (es : List JobEntry) (id : Text) (r : Result Text JobStatus)
      → IsDistinct (ids_of es)
      → At s (mark_entry id processing none es)
      → Settled id es (settle_job db runner tenant_id session_id id (s, r))
  unfolding settle_job settle_known
  settle-At s es id (err message) d at = (
    mark_entry id failed (some message) (mark_entry id processing none es),
    fail-At s (mark_entry id processing none es) id message at,
    marked-IsStep id failed (some message) es d refl,
  )
  settle-At s es id (ok status) d at = elim (Option-cases (entry_status status)) [
    | inl refused ↦ rw refused (
      mark_entry id failed (some (runner.refusal status)) (mark_entry id processing none es),
      fail-At s (mark_entry id processing none es) id (runner.refusal status) at,
      marked-IsStep id failed (some (runner.refusal status)) es d refl,
    )
    | inr (e, known) ↦ rw known (
      mark_entry id e none (mark_entry id processing none es),
      finish-At s (mark_entry id processing none es) id e at,
      marked-IsStep id e none es d (entry_status-settled status e known),
    )
  ]

  run_found-At :
      (s : S) (es : List JobEntry) (id : Text) (job : Option Job)
      → IsDistinct (ids_of es)
      → IsStored s es
      → Settled id es (run_found db runner tenant_id session_id s id job)
  unfolding run_found
  run_found-At s es id none d at = (
    mark_entry id skipped (some (codes "ImportJob not found")) es,
    advanced-At s es id skipped (some (codes "ImportJob not found")) at,
    mark-IsStep id skipped (some (codes "ImportJob not found")) es d refl,
  )
  run_found-At s es id (some job) d at =
      let s1 = advance_session_job_status db s session_id id processing none in
      let es1 = mark_entry id processing none es in
      settle-At (runner.run_job s1 job).0 es id (runner.run_job s1 job).1 d (
        moved s1 (runner.run_job s1 job).0 es1 (silent.run_job_keeps s1 job session_id)
          (advanced-At s es id processing none at))

  run_jobs-At :
      (s : S) (es : List JobEntry) (statuses : List JobOutcome) (before ids : List Text)
      → IsDistinct (ids_of es)
      → ((v : Text) → includes before v ≡ true → settled_at es v ≡ true)
      → At s es
      → (es' : List JobEntry) × At (run_jobs db runner tenant_id session_id s statuses ids).0 es'
        × (ids_of es' ≡ ids_of es)
        × ((v : Text) → includes (before ++ ids) v ≡ true → settled_at es' v ≡ true)
  unfolding run_jobs run_one
  run_jobs-At s es statuses before [] d settled at = (es, at, refl, rw (append-nil before) settled)
  run_jobs-At s es statuses before (id ∷ ids) d settled at =
      let (es1, at1, step) = run_found-At s es id (db.find_job s id) d (stored s es at) in
      let (s1, o) = run_found db runner tenant_id session_id s id (db.find_job s id) in
      let (es2, at2, same, all) =
        run_jobs-At s1 es1 (statuses ++ o ∷ []) (before ++ id ∷ []) ids (rw step.same_ids d)
          (λ v there. elim (Bool-cases (id === v)) [
            | inl same ↦ ap (settled_at es1) (sym ((===_iff id v).0 same)) ∙ step.settles
            | inr apart ↦
                step.others v apart ∙ settled v (ground (arith, includes-append before (id ∷ []) v))
          ])
          at1 in
      (es2, at2, same ∙ step.same_ids, rw (append_assoc before (id ∷ []) ids) at all)

-- A run of the jobs of a session, in any order of its entries, ends with every entry settled,
-- whatever the jobs come to, and with the session completed, or completed with errors if an entry
-- is failed or skipped. The session then counts as completed the entries that are completed or
-- completed with errors, as failed those that are failed or skipped, and these counts add up to
-- the number of its entries.
pub run_jobs_settles :
    {S : Type 0} (db : SessionDb S)
    → IsSessionDb db
    → (runner : Runner S) → IsSilent db runner
    → (s : S) (tenant_id session_id : Text) (x : Session) → db.find_session s session_id ≡ some x
    → (id : Text) (ids : List Text) → ids_of x.job_statuses ≡ id ∷ ids
    → IsDistinct (id ∷ ids)
    → (y : Session) × (db.find_session
          (run_jobs db runner tenant_id session_id s [] (id ∷ ids)).0
          session_id
        ≡ some y)
      × (ids_of y.job_statuses ≡ id ∷ ids)
      × (all_settled y.job_statuses ≡ true)
      × (y.status ≡ settled_status y.job_statuses)
      × (y.counts.completed ≡ count (λ e. is_done e.status) y.job_statuses)
      × (y.counts.failed ≡ count (λ e. is_lost e.status) y.job_statuses)
      × (y.counts.completed + y.counts.failed ≡ length y.job_statuses)
unfolding run_jobs run_one
run_jobs_settles db laws runner silent s tenant_id session_id x found id ids order d =
    let es = x.job_statuses in
    let (es1, at1, step) =
      run_found-At db laws runner silent tenant_id session_id s es id (db.find_job s id)
        (rw order d) (record { session = x; found = found; entries = refl }) in
    let (s1, o) = run_found db runner tenant_id session_id s id (db.find_job s id) in
    let (es2, at, same, settled) =
      run_jobs-At db laws runner silent tenant_id session_id s1 es1 (o ∷ []) (id ∷ []) ids
        (rw (step.same_ids, order) d)
        (λ v there. ap (settled_at es1) (sym ((===_iff id v).0 (ground arith))) ∙ step.settles)
        at1 in
    let named : ids_of es2 ≡ id ∷ ids = same ∙ (step.same_ids ∙ order) in
    let whole : all_settled es2 ≡ true =
      all_settled_at es2 (λ v there. settled v (rw named at there)) in
    (
      at.session,
      at.found,
      rw at.entries named,
      rw at.entries whole,
      rw at.entries (at.closes whole),
      rw at.entries at.done,
      rw at.entries at.lost,
      rw (at.done, at.lost, at.entries) (settled_counts es2 whole),
    )
