-- ===== src/Session/Run/Laws.antt =====
-- worker/importPipeline.js: how the entries of a session change.
use universal_data_onboarder.Base.{
  ◌≡◌, refl, ap, ◌+◌, ltb, Bool, true, false, not, ◌||◌, List, [], ◌∷◌, Option, some, Text, length,
  count, map, all, any, includes, ◌===◌, ===_iff, if◌then◌else◌, arith, inl, inr, Bool-cases,
}
use universal_data_onboarder.Base.Distinct.{IsDistinct}
use universal_data_onboarder.Session.Db.{
  SessionStatus, EntryStatus, completed, completed_with_errors, JobEntry, Session, SessionDb,
  IsSessionDb,
}
use universal_data_onboarder.Session.Manager.Laws.{saved-found}
use universal_data_onboarder.Session.Run.{
  is_done, is_lost, mark_entry, next_status, advanced, advance_session_job_status, save_advanced,
}

abbrev pub ids_of : List JobEntry → List Text
ids_of es = map (λ e. e.import_job_id) es

abbrev pub is_settled : EntryStatus → Bool
is_settled status = is_done status || is_lost status

-- The entries of the job `v` are settled.
abbrev pub settled_at : List JobEntry → Text → Bool
settled_at es v = all (λ e. not (e.import_job_id === v) || is_settled e.status) es

pub mark_entry-ids :
    (id : Text) (status : EntryStatus) (error : Option Text) (es : List JobEntry)
    → ids_of (mark_entry id status error es) ≡ ids_of es
unfolding mark_entry
mark_entry-ids id status error [] = refl
mark_entry-ids id status error (e ∷ es) = elim (Bool-cases (e.import_job_id === id)) [
  | inl same ↦ rw same refl
  | inr other ↦ rw other (ap (λ rest. e.import_job_id ∷ rest) (mark_entry-ids id status error es))
]

pub mark_entry-other :
    (id : Text) (status : EntryStatus) (error : Option Text) (es : List JobEntry) (v : Text)
    → (id === v) ≡ false
    → settled_at (mark_entry id status error es) v ≡ settled_at es v
unfolding mark_entry
mark_entry-other id status error [] v apart = refl
mark_entry-other id status error (e ∷ es) v apart = ground (
  arith,
  mark_entry-other id status error es v apart,
  ===_iff e.import_job_id id,
  ===_iff e.import_job_id v,
  ===_iff id v,
)

settled_absent :
    (es : List JobEntry) (v : Text) → includes (ids_of es) v ≡ false → settled_at es v ≡ true
settled_absent [] v absent = refl
settled_absent (e ∷ es) v absent = ground (arith, settled_absent es v)

pub mark_entry-settled :
    (id : Text) (status : EntryStatus) (error : Option Text) (es : List JobEntry)
    → IsDistinct (ids_of es)
    → is_settled status ≡ true
    → settled_at (mark_entry id status error es) id ≡ true
unfolding mark_entry
mark_entry-settled id status error [] d h = refl
mark_entry-settled id status error (e ∷ es) (new, d) h =
    elim (Bool-cases (e.import_job_id === id)) [
      | inl same ↦ rw same (
          ground (arith, h, settled_absent es id (rw ((===_iff e.import_job_id id).0 same) at new)))
      | inr other ↦ rw other (ground (arith, mark_entry-settled id status error es d h))
    ]

-- All are settled if those of each job are.
abbrev pub all_settled : List JobEntry → Bool
all_settled es = all (λ e. is_settled e.status) es

pub all_settled_at :
    (es : List JobEntry)
    → ((v : Text) → includes (ids_of es) v ≡ true → settled_at es v ≡ true)
    → all_settled es ≡ true
all_settled_at [] h = refl
all_settled_at (e ∷ es) h = ground (
  arith,
  h e.import_job_id,
  ===_iff e.import_job_id e.import_job_id,
  all_settled_at es (λ v there. ground (arith, h v)),
)

done_or_lost :
    (status : EntryStatus) → is_settled status ≡ true → is_done status ≡ not (is_lost status)
done_or_lost status h = ground arith

-- Each entry is counted once when all are settled.
pub settled_counts :
    (es : List JobEntry)
    → all_settled es ≡ true
    → count (λ e. is_done e.status) es + count (λ e. is_lost e.status) es ≡ length es
settled_counts [] h = omega arith
settled_counts (e ∷ es) h = ground (arith, settled_counts es, done_or_lost e.status)

any_lost :
    (es : List JobEntry) → ltb 0 (count (λ e. is_lost e.status) es) ≡ any (λ e. is_lost e.status) es
any_lost [] = refl
any_lost (e ∷ es) = ground (arith, any_lost es)

-- The status of a session whose entries are all settled.
abbrev pub settled_status : List JobEntry → SessionStatus
settled_status es = if any (λ e. is_lost e.status) es then completed_with_errors else completed

-- The session stands in the database with these entries, and with the status that the last
-- change of them gave it, and their counts.
pub record IsAt {S : Type 0} (db : SessionDb S) (session_id : Text) (s : S) (es : List JobEntry)
    : Type 0 where
  pub session : Session
  pub found : db.find_session s session_id ≡ some session
  pub entries : session.job_statuses ≡ es
  pub closes : all_settled es ≡ true → session.status ≡ settled_status es
  pub done : session.counts.completed ≡ count (λ e. is_done e.status) es
  pub lost : session.counts.failed ≡ count (λ e. is_lost e.status) es

next_status-settled :
    (status : EntryStatus) (es : List JobEntry)
    → all_settled es ≡ true
    → next_status status
        (count (λ e. is_done e.status) es)
        (count (λ e. is_lost e.status) es)
        (length es)
      ≡ settled_status es
unfolding next_status
next_status-settled status es h = ground (arith, settled_counts es h, any_lost es)

module _ {S : Type 0} (db : SessionDb S) (laws : IsSessionDb db) (session_id : Text) where
  -- An entry that is marked; what was known of the status before is not asked for.
  pub advance_IsAt :
      (s : S) (x : Session) (id : Text) (status : EntryStatus) (error : Option Text)
      → db.find_session s session_id ≡ some x
      → IsAt db session_id
          (advance_session_job_status db s session_id id status error)
          (mark_entry id status error x.job_statuses)
  unfolding advance_session_job_status save_advanced advanced
  advance_IsAt s x id status error found = rw found (record {
    session = advanced x id status error;
    found =
        saved-found db laws s (advanced x id status error) session_id
          (laws.found_id s session_id x found);
    entries = refl;
    closes = next_status-settled status (mark_entry id status error x.job_statuses);
    done = refl;
    lost = refl;
  })
