-- ===== src/Import/Shared/Laws.antt =====
-- orchestration/migrationImport.service.js: the job and the rows that an upload
-- leaves in the database.
use mathlib.Core.Path.{subst}
use universal_data_onboarder.Base.{
  ℕ, suc, ◌≤◌, ◌≡◌, refl, true, false, List, [], ◌∷◌, Option, none, some, length, Text, Bool-cases,
  inl, inr, ap, ◌∙◌, Bool, ◌++◌, if◌then◌else◌,
}
use universal_data_onboarder.Base.Result.{Result, ok, err, >>=_inv, ok-injective}
use universal_data_onboarder.Value.{Fields, Host}
use universal_data_onboarder.Parsing.Formats.{Format, Upload, detect_upload_format}
use universal_data_onboarder.Parsing.Dispatch.{Source, ParseError}
use universal_data_onboarder.Guardrail.Tier.{Env}
use universal_data_onboarder.Guardrail.Reason.{Locale}
use universal_data_onboarder.Guardrail.Check.{
  Verdict, get_import_row_limit, check_guardrail_streaming,
}
use universal_data_onboarder.Guardrail.Laws.{check_guardrail_streaming_sound}
use universal_data_onboarder.Store.{staged, uploaded, guardrail_rejected}
use universal_data_onboarder.Import.Shared.{
  ImportError, ImportJob, Database, Answers, Draft, created, drafts_from, lift_format, lift_verdict,
  lift_place, stage, record_verdict, examine, import_as, create_import_job,
}

-- The drafts of the records, in their order and numbered from `index`.
abbrev pub DraftsOf : Text → ℕ → List Fields → List Draft → Type 0
DraftsOf id index records [] = records ≡ []
DraftsOf id index records (d ∷ ds) =
    (rest : List Fields) × (records ≡ d.raw_row ∷ rest)
    × (d.custom_fields ≡ d.raw_row)
    × (d.import_job_id ≡ id)
    × (d.row_index ≡ index)
    × DraftsOf id (suc index) rest ds

drafts_from-DraftsOf :
    (id : Text) (index : ℕ) (rs : List Fields) → DraftsOf id index rs (drafts_from id index rs)
unfolding drafts_from
drafts_from-DraftsOf id index [] = refl
drafts_from-DraftsOf id index (r ∷ rs) =
    (rs, refl, refl, refl, refl, drafts_from-DraftsOf id (suc index) rs)

-- What an import leaves in the database: the job, and its rows if it is staged; none if the
-- guardrail refused it.
pub record IsImported (db db' : Database) (records : List Fields) (j : ImportJob) : Type 0 where
  pub stored : db'.import_jobs ≡ j ∷ db.import_jobs
  pub total : j.total_rows ≡ length records
  pub staged_whole :
      j.status ≡ staged
      → (j.staged_rows ≡ length records)
        × (new : List Draft) × (db'.drafts ≡ db.drafts ++ new)
        × DraftsOf j.id 0 records new
  pub refused : j.passed ≡ false → (j.staged_rows ≡ 0) × (db'.drafts ≡ db.drafts)

stage-IsImported :
    (db : Database) (job : ImportJob) (rs : List Fields) (e : Option (Text × List Draft))
    → job.total_rows ≡ length rs
    → job.passed ≡ true
    → IsImported db (stage db job rs e).0 rs (stage db job rs e).1
unfolding stage
stage-IsImported db job rs none t y = record {
  stored = refl;
  total = t;
  staged_whole = λ _. (refl, drafts_from job.id 0 rs, refl, drafts_from-DraftsOf job.id 0 rs);
  refused = λ n. absurd (cc (y, n));
}
stage-IsImported db job rs (some (m, partial)) t y = record {
  stored = refl;
  total = t;
  staged_whole = λ k. absurd (cc k);
  refused = λ n. absurd (cc (y, n));
}

record_verdict-IsImported :
    (db : Database) (v : Verdict) (job : ImportJob) (e : Option (Text × List Draft))
    → job.staged_rows ≡ 0
    → job.total_rows ≡ length v.records
    → job.passed ≡ v.allowed
    → (v.allowed ≡ false → (job.status ≡ staged → ⊥))
    → IsImported db (record_verdict db v job e).0 v.records (record_verdict db v job e).1
unfolding record_verdict
record_verdict-IsImported db v job e z t p out = elim (Bool-cases v.allowed) [
  | inl y ↦ rw y (stage-IsImported db job v.records e t (p ∙ y))
  | inr n ↦ rw n (record {
    stored = refl;
    total = t;
    staged_whole = λ k. absurd (out n k);
    refused = λ _. (z, refl);
  })
]

refused_status :
    (allowed : Bool)
    → allowed ≡ false
    → (if allowed then uploaded else guardrail_rejected) ≡ staged
    → ⊥
refused_status true n k = cc n
refused_status false n k = cc k

lift_verdict-ok :
    (f : Format) (r : Result ParseError Verdict) (v : Verdict) → lift_verdict f r ≡ ok v → r ≡ ok v
unfolding lift_verdict
lift_verdict-ok f (ok w) v e = ap ok (ok-injective e)
lift_verdict-ok f (err w) v e = absurd (cc e)

module _ (env : Env) (l : Locale) (h : Host) where
  -- The verdict that the import goes by.
  abbrev pub IsJudged : Text → Source → Option Text → Verdict → Type 0
  IsJudged tenant_id source sql_table v =
      (f : Format) × (check_guardrail_streaming env l h tenant_id source f sql_table ≡ ok v)
      × (length v.records ≤ (get_import_row_limit env l tenant_id).limit)

  examine-IsJudged :
      (tenant_id : Text) (file : Upload) (source : Source) (sql_table : Option Text) (a : Answers)
      (x : Format × Verdict × Text)
      → examine env l h tenant_id file source sql_table a ≡ ok x
      → IsJudged tenant_id source sql_table x.1
  unfolding examine
  examine-IsJudged tenant_id file source sql_table a x e =
      let (f, e₁, _) = >>=_inv (lift_format (detect_upload_format file)) _ e in
      let (v, e₂, found) =
        >>=_inv (lift_verdict f (check_guardrail_streaming env l h tenant_id source f sql_table)) _
          e₁ in
      let (place, e₃, _) = >>=_inv (lift_place a.archived) _ e₂ in
      let judged = lift_verdict-ok f _ v found in
      subst (λ y. IsJudged tenant_id source sql_table y.1) (ok-injective e₃)
        (
          f,
          judged,
          (check_guardrail_streaming_sound env l h tenant_id source f sql_table v judged).0,
        )

  import_as-IsImported :
      (db : Database) (tenant_id module_name : Text) (file : Upload) (size : ℕ) (a : Answers)
      (source : Source) (sql_table : Option Text) (x : Result ImportError (Format × Verdict × Text))
      (j : ImportJob)
      → ((y : Format × Verdict × Text) → x ≡ ok y → IsJudged tenant_id source sql_table y.1)
      → (import_as env l h db tenant_id module_name file size a x).1 ≡ ok j
      → (v : Verdict) × IsJudged tenant_id source sql_table v
        × IsImported db (import_as env l h db tenant_id module_name file size a x).0 v.records j
  unfolding import_as
  import_as-IsImported db tenant_id module_name file size a source sql_table (err e) j b q =
      absurd (cc q)
  import_as-IsImported db tenant_id module_name file size a source sql_table (ok (f, v, place)) j b
        q =
      let job = created a.new_id tenant_id module_name file size f v place in
      (
        v,
        b (f, v, place) refl,
        subst (λ t. IsImported db (record_verdict db v job a.insert_error).0 v.records t)
            (ok-injective q)
            (record_verdict-IsImported db v job a.insert_error refl refl refl
              (refused_status v.allowed)),
      )

  -- An upload that gives a job was judged by the guardrail, on no more records than the tenant's
  -- ceiling. The database has the job as it is returned, with the number of these records. If the
  -- job is staged, the records are the new rows, each once and in their order, numbered from 0 and
  -- under the id of the job; and if the guardrail refused it, no row is new.
  pub create_import_job_stages :
      (db : Database) (tenant_id module_name : Text) (file : Upload) (size : ℕ) (source : Source)
      (sql_table : Option Text) (a : Answers) (db' : Database) (j : ImportJob)
      → create_import_job env l h db tenant_id module_name file size source sql_table a
        ≡ (db', ok j)
      → (v : Verdict) × IsJudged tenant_id source sql_table v × IsImported db db' v.records j
  unfolding create_import_job
  create_import_job_stages db tenant_id module_name file size source sql_table a db' j q =
      subst
        (λ t. (v : Verdict) × IsJudged tenant_id source sql_table v × IsImported db t v.records j)
        (ap (λ p. p.0) q)
        (import_as-IsImported db tenant_id module_name file size a source sql_table
          (examine env l h tenant_id file source sql_table a) j
          (λ x e. examine-IsJudged tenant_id file source sql_table a x e) (ap (λ p. p.1) q))
