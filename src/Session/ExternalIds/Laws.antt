-- ===== src/Session/ExternalIds/Laws.antt =====
-- orchestration/sessionManager.js: `populateSessionExternalIds` leaves the sessions alone.
use universal_data_onboarder.Base.{
  ◌≡◌, refl, ◌∙◌, ℕ, List, [], ◌∷◌, ◌++◌, Option, none, some, Text, length, leb, inl, inr,
  Bool-cases,
}
use universal_data_onboarder.Base.Result.{Result, ok, err}
use universal_data_onboarder.Value.{Host, field, is_null, to_text}
use universal_data_onboarder.Registry.{Registry, RegistryError, Descriptor}
use universal_data_onboarder.Session.Db.{SessionMember, Session, SessionDb}
use universal_data_onboarder.Session.ExternalIds.{
  ExternalOp, ExternalRow, ExternalDb, populate_rows, populate_job, populate_jobs, populate_in,
  populate_session_external_ids, flush, counted, and_then, is_empty, external_chunk_size, After,
}

module _ {S : Type 0} (db : SessionDb S) (rows : ExternalDb S) (h : Host) (registry : Registry)
    (id : Text)
    (bulk_keeps : (s : S) (ops : List ExternalOp)
      → db.find_session (rows.bulk_write s ops).0 id ≡ db.find_session s id) where
  -- The session is as it was.
  abbrev Keeps : S → After db rows h registry → Type 0
  Keeps s r = db.find_session r.0 id ≡ db.find_session s id

  counted-Keeps :
      (s : S) (total : ℕ) (r : S × Result Text ℕ)
      → db.find_session r.0 id ≡ db.find_session s id
      → Keeps s (counted db rows h registry total r)
  unfolding counted
  counted-Keeps s total (s', err message) same = same
  counted-Keeps s total (s', ok n) same = same

  and_then-Keeps :
      (s : S) (r : After db rows h registry) (later : S → ℕ → After db rows h registry)
      → Keeps s r
      → ((s' : S) (n : ℕ) → Keeps s' (later s' n))
      → Keeps s (and_then db rows h registry r later)
  and_then-Keeps s (s', err e) later same keeps = same
  and_then-Keeps s (s', ok n) later same keeps = keeps s' n ∙ same

  flush-Keeps :
      (s : S) (total : ℕ) (ops : List ExternalOp) → Keeps s (flush db rows h registry s total ops)
  unfolding flush
  flush-Keeps s total ops = elim (Bool-cases (is_empty ops)) [
    | inl y ↦ rw y refl
    | inr n ↦ rw n (counted-Keeps s total (rows.bulk_write s ops) (bulk_keeps s ops))
  ]

  populate_rows-Keeps :
      (entity_key : Text) (s : S) (total : ℕ) (ops : List ExternalOp) (identity : Text)
      (rs : List ExternalRow)
      → Keeps s (populate_rows db rows h registry entity_key s total ops identity rs)
  unfolding populate_rows
  populate_rows-Keeps entity_key s total ops identity [] = flush-Keeps s total ops
  populate_rows-Keeps entity_key s total ops identity (r ∷ rs) =
      let value = field r.mapped_fields identity in
      let grown =
        ops
        ++ record { row_id = r.id; external_id = to_text h value; entity_key = entity_key } ∷ [] in
      elim (Bool-cases (is_null value)) [
        | inl y ↦ rw y (populate_rows-Keeps entity_key s total ops identity rs)
        | inr n ↦ elim (Bool-cases (leb external_chunk_size (length grown))) [
          | inl full ↦
              rw (n, full)
                (and_then-Keeps s (counted db rows h registry total (rows.bulk_write s grown)) _
                  (counted-Keeps s total (rows.bulk_write s grown) (bulk_keeps s grown))
                  (λ s' total'. populate_rows-Keeps entity_key s' total' [] identity rs))
          | inr room ↦ rw (n, room) (populate_rows-Keeps entity_key s total grown identity rs)
        ]
      ]

  populate_job-Keeps :
      (s : S) (total : ℕ) (j : SessionMember) (d : Result RegistryError Descriptor)
      → Keeps s (populate_job db rows h registry s total j d)
  unfolding populate_job
  populate_job-Keeps s total j (err e) = refl
  populate_job-Keeps s total j (ok d) =
      populate_rows-Keeps j.entity_key s total [] d.identity_field _

  populate_jobs-Keeps :
      (s : S) (total : ℕ) (js : List SessionMember)
      → Keeps s (populate_jobs db rows h registry s total js)
  unfolding populate_jobs
  populate_jobs-Keeps s total [] = refl
  populate_jobs-Keeps s total (j ∷ js) =
      and_then-Keeps s _ _ (populate_job-Keeps s total j _)
        (λ s' total'. populate_jobs-Keeps s' total' js)

  populate_in-Keeps :
      (s : S) (found : Option Session) → Keeps s (populate_in db rows h registry s found)
  unfolding populate_in
  populate_in-Keeps s none = refl
  populate_in-Keeps s (some x) = populate_jobs-Keeps s 0 x.jobs

  pub populate-Keeps :
      (s : S) (session_id : Text)
      → Keeps s (populate_session_external_ids db rows h registry s session_id)
  unfolding populate_session_external_ids
  populate-Keeps s session_id = populate_in-Keeps s (db.find_session s session_id)
