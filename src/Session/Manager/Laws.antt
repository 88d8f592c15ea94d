-- ===== src/Session/Manager/Laws.antt =====
-- orchestration/sessionManager.js: what a session holds after its operations.
use universal_data_onboarder.Base.{
  ◌≡◌, refl, sym, ap, ◌∙◌, true, false, List, [], ◌∷◌, ◌++◌, some, Text, length, map, includes,
  ◌===◌, ===_iff, arith, inl, inr, Bool-cases, Option-cases,
}
use universal_data_onboarder.Base.Distinct.{IsDistinct, IsDistinct-snoc, includes-append}
use universal_data_onboarder.Base.Result.{Result, ok, err, ok-injective}
use universal_data_onboarder.Session.Db.{SessionMember, Session, SessionDb, IsSessionDb}
use universal_data_onboarder.Session.Manager.{
  SessionError, push_job, holds_job, is_pending, add_job_to_session, add_to, add_found, not_pending,
  job_not_found, session_not_found,
}

-- Each job is a member once, and the total is their number.
pub record IsWellFormed (x : Session) : Type 0 where
  pub distinct : IsDistinct (map (λ j. j.import_job_id) x.jobs)
  pub total : x.counts.total ≡ length x.jobs

holds_includes :
    (jobs : List SessionMember) (id : Text)
    → holds_job jobs id ≡ includes (map (λ j. j.import_job_id) jobs) id
holds_includes [] id = refl
holds_includes (j ∷ jobs) id = ground (arith, holds_includes jobs id)

map-append :
    (jobs : List SessionMember) (j : SessionMember)
    → map (λ k. k.import_job_id) (jobs ++ j ∷ [])
      ≡ map (λ k. k.import_job_id) jobs ++ j.import_job_id ∷ []
map-append [] j = refl
map-append (k ∷ jobs) j = ap (λ ids. k.import_job_id ∷ ids) (map-append jobs j)

push_job-IsWellFormed :
    (x : Session) (j : SessionMember)
    → IsWellFormed x
    → holds_job x.jobs j.import_job_id ≡ false
    → IsWellFormed (push_job x j)
unfolding push_job
push_job-IsWellFormed x j w new = record {
  distinct = rw (map-append x.jobs j) (
      IsDistinct-snoc (map (λ k. k.import_job_id) x.jobs) j.import_job_id w.distinct
        (sym (holds_includes x.jobs j.import_job_id) ∙ new));
  total = refl;
}

push_job-holds :
    (x : Session) (j : SessionMember) → holds_job (push_job x j).jobs j.import_job_id ≡ true
unfolding push_job
push_job-holds x j =
    holds_includes (x.jobs ++ j ∷ []) j.import_job_id
    ∙ (ap (λ ids. includes ids j.import_job_id) (map-append x.jobs j)
        ∙ ground (
          arith,
          includes-append (map (λ k. k.import_job_id) x.jobs) (j.import_job_id ∷ [])
              j.import_job_id,
          ===_iff j.import_job_id j.import_job_id,
        ))

module _ {S : Type 0} (db : SessionDb S) (laws : IsSessionDb db) where
  -- Every session of the database is well formed.
  abbrev pub AllWellFormed : S → Type 0
  AllWellFormed s = (id : Text) (x : Session) → db.find_session s id ≡ some x → IsWellFormed x

  pub saved-AllWellFormed :
      (s : S) (x : Session) → IsWellFormed x → AllWellFormed s → AllWellFormed (db.save_session s x)
  saved-AllWellFormed s x w all id y found = elim (Bool-cases (x.id === id)) [
    | inl same ↦ let e : x ≡ y = cc (laws.find_saved s x id, same, found) in rw (← e) w
    | inr other ↦ all id y (rw (laws.find_saved s x id, other) at found)
  ]

  pub tenant-found :
      (s : S) (t id : Text) (x : Session)
      → db.find_tenant_session s t id ≡ some x
      → db.find_session s id ≡ some x
  tenant-found s t id x found = elim (Option-cases (db.find_session s id)) [
    | inl missing ↦ ground (arith, laws.find_of_tenant s t id)
    | inr (y, there) ↦ ground (arith, laws.find_of_tenant s t id)
  ]

  -- What `addJobToSession` leaves and returns, with a session that is found.
  pub record IsAdded (s : S) (session_id job_id : Text) (r : S × Result SessionError Session)
      : Type 0 where
    pub keeps : AllWellFormed s → AllWellFormed r.0
    pub refused : (e : SessionError) → r.1 ≡ err e → r.0 ≡ s
    pub added :
        (x : Session)
        → r.1 ≡ ok x
        → (holds_job x.jobs job_id ≡ true) × (db.find_session r.0 session_id ≡ some x)

  refusal-IsAdded :
      (s : S) (session_id job_id : Text) (e : SessionError) → IsAdded s session_id job_id (s, err e)
  refusal-IsAdded s session_id job_id e = record {
    keeps = λ w. w;
    refused = λ _ _. refl;
    added = λ x h. absurd (cc h);
  }

  pub saved-found :
      (s : S) (x : Session) (id : Text)
      → x.id ≡ id
      → db.find_session (db.save_session s x) id ≡ some x
  saved-found s x id same = rw (laws.find_saved s x id, (===_iff x.id id).1 same) refl

  pushed : S → Text → SessionMember → Session → S
  pushed s t j x = db.link_job (db.save_session s (push_job x j)) t j.import_job_id x.id

  linked-AllWellFormed :
      (s : S) (t session_id : Text) (j : SessionMember) (x : Session)
      → db.find_session s session_id ≡ some x
      → holds_job x.jobs j.import_job_id ≡ false
      → AllWellFormed s
      → AllWellFormed (pushed s t j x)
  unfolding pushed
  linked-AllWellFormed s t session_id j x found new all id y there =
      saved-AllWellFormed s (push_job x j) (push_job-IsWellFormed x j (all session_id x found) new)
        all id y
        (sym (laws.find_linked (db.save_session s (push_job x j)) t j.import_job_id x.id id)
          ∙ there)

  linked-found :
      (s : S) (t session_id : Text) (j : SessionMember) (x : Session)
      → db.find_session s session_id ≡ some x
      → db.find_session (pushed s t j x) session_id ≡ some (push_job x j)
  unfolding pushed push_job
  linked-found s t session_id j x found =
      laws.find_linked (db.save_session s (push_job x j)) t j.import_job_id x.id session_id
      ∙ saved-found s (push_job x j) session_id (laws.found_id s session_id x found)

  add_to-IsAdded :
      (s : S) (t session_id : Text) (j : SessionMember) (x : Session)
      → db.find_session s session_id ≡ some x
      → IsAdded s session_id j.import_job_id (add_to db s t j x)
  unfolding add_to pushed
  add_to-IsAdded s t session_id j x found = elim (Bool-cases (is_pending x.status)) [
    | inr busy ↦ rw busy (refusal-IsAdded s session_id j.import_job_id (not_pending x.status))
    | inl idle ↦ elim (Bool-cases (holds_job x.jobs j.import_job_id)) [
      | inl there ↦
          rw (idle, there)
            (record {
              keeps = λ w. w;
              refused = λ _ _. refl;
              added = λ y h. let e : x ≡ y = ok-injective h in rw (← e) (there, found);
            })
      | inr new ↦
          rw (idle, new)
            (record {
              keeps = linked-AllWellFormed s t session_id j x found new;
              refused = λ e h. absurd (cc h);
              added = λ y h.
                  let e : push_job x j ≡ y = ok-injective h in
                  rw (← e) (push_job-holds x j, linked-found s t session_id j x found);
            })
    ]
  ]

  -- Where `addJobToSession` throws, the database is as before. Else the session that it returns
  -- holds the job and is the one that the database holds now. In both cases the sessions keep each
  -- job once and their total the number of their jobs.
  pub add_job_to_session-IsAdded :
      (s : S) (t session_id : Text) (j : SessionMember)
      → IsAdded s session_id j.import_job_id (add_job_to_session db s t session_id j)
  unfolding add_job_to_session add_found
  add_job_to_session-IsAdded s t session_id j =
      elim (Option-cases (db.find_tenant_job s t j.import_job_id)) [
        | inl missing ↦ rw missing (refusal-IsAdded s session_id j.import_job_id job_not_found)
        | inr (job, known) ↦ elim (Option-cases (db.find_tenant_session s t session_id)) [
          | inl missing ↦
              rw (known, missing) (refusal-IsAdded s session_id j.import_job_id session_not_found)
          | inr (x, found) ↦
              rw (known, found)
                (add_to-IsAdded s t session_id j x (tenant-found s t session_id x found))
        ]
      ]
