-- ===== src/Session/ExternalIds.antt =====
-- orchestration/sessionManager.js: `populateSessionExternalIds`.
--
-- The cursor over the staged rows and `bulkWrite` are Mongoose's, and arguments.
pub mod Laws
use universal_data_onboarder.Base.{
  ℕ, ◌+◌, leb, Bool, true, false, List, [], ◌∷◌, ◌++◌, Option, none, some, Text, length,
  if◌then◌else◌,
}
use universal_data_onboarder.Base.Result.{Result, ok, err}
use universal_data_onboarder.Value.{Fields, Host, field, is_null, to_text}
use universal_data_onboarder.Registry.{Registry, RegistryError, Descriptor, get_target_descriptor}
use universal_data_onboarder.Session.Db.{SessionMember, Session, SessionDb}

-- `$set: { externalId, entityKey }` on the row with this id.
pub record ExternalOp : Type 0 where
  pub row_id : Text
  pub external_id : Text
  pub entity_key : Text

pub record ExternalRow : Type 0 where
  pub id : Text
  pub mapped_fields : Fields

pub record ExternalDb (S : Type 0) : Type 0 where
  -- The rows of a job with a value in the identity field and without an external id.
  pub candidates : S → Text → Text → List ExternalRow
  -- `bulkWrite(bulkOps, { ordered: false })`, with `modifiedCount`
  pub bulk_write : S → List ExternalOp → S × Result Text ℕ

pub data PopulateError : Type 0 where
  no_target : RegistryError → PopulateError
  not_written : Text → PopulateError

abbrev pub external_chunk_size : ℕ
external_chunk_size = 500

abbrev is_empty : List ExternalOp → Bool
is_empty [] = true
is_empty (op ∷ ops) = false

module _ {S : Type 0} (db : SessionDb S) (rows : ExternalDb S) (h : Host)
    (registry : Registry) where
  abbrev After : Type 0
  After = S × Result PopulateError ℕ

  counted : ℕ → S × Result Text ℕ → After
  counted total (s, err message) = (s, err (not_written message))
  counted total (s, ok n) = (s, ok (total + n))

  abbrev and_then : After → (S → ℕ → After) → After
  and_then (s, err e) later = (s, err e)
  and_then (s, ok total) later = later s total

  flush : S → ℕ → List ExternalOp → After
  unfolding counted
  flush s total ops = if is_empty ops then (s, ok total) else counted total (rows.bulk_write s ops)

  -- The loop over a cursor, with the operations that wait.
  unfoldable pub populate_rows : Text → S → ℕ → List ExternalOp → Text → List ExternalRow → After
  unfolding flush counted field to_text
  populate_rows entity_key s total ops identity [] = flush s total ops
  populate_rows entity_key s total ops identity (r ∷ rs) =
      let value = field r.mapped_fields identity in
      let grown =
        ops
        ++ record { row_id = r.id; external_id = to_text h value; entity_key = entity_key } ∷ [] in
      let skipped = populate_rows entity_key s total ops identity rs in
      let waiting = populate_rows entity_key s total grown identity rs in
      let written =
        and_then (counted total (rows.bulk_write s grown))
          (λ s' total'. populate_rows entity_key s' total' [] identity rs) in
      if is_null value
      then skipped
      else if leb external_chunk_size (length grown)
      then written
      else waiting

  populate_job : S → ℕ → SessionMember → Result RegistryError Descriptor → After
  unfolding populate_rows
  populate_job s total j (err e) = (s, err (no_target e))
  populate_job s total j (ok d) =
      populate_rows j.entity_key s total [] d.identity_field
        (rows.candidates s j.import_job_id d.identity_field)

  unfoldable pub populate_jobs : S → ℕ → List SessionMember → After
  unfolding populate_job get_target_descriptor
  populate_jobs s total [] = (s, ok total)
  populate_jobs s total (j ∷ js) =
      and_then (populate_job s total j (get_target_descriptor registry j.module_name j.entity_key))
        (λ s' total'. populate_jobs s' total' js)

  populate_in : S → Option Session → After
  unfolding populate_jobs
  populate_in s none = (s, ok 0)
  populate_in s (some x) = populate_jobs s 0 x.jobs

  -- `populateSessionExternalIds`
  unfoldable pub populate_session_external_ids : S → Text → After
  unfolding populate_in
  populate_session_external_ids s session_id = populate_in s (db.find_session s session_id)
