-- ===== src/Session/References.antt =====
-- orchestration/sessionManager.js: `resolveSessionReferences`, `resolveSessionEntityByExternalId`.
--
-- The target's `resolveReferences` and the queries on the collection of staged rows are arguments.
-- The values to resolve are texts. `fieldToEntity[baseName]` is its four keys: names that every
-- object has (`constructor`) are no field's.
pub mod Laws
mod Tests
use universal_data_onboarder.Base.{
  ℕ, ◌-◌, Bool, true, false, not, List, [], ◌∷◌, Option, none, some, Text, codes, length, map,
  filter, take, lower, includes, ◌===◌, if◌then◌else◌,
}
use universal_data_onboarder.Base.Dict.{Dict, get, put, has}
use universal_data_onboarder.Value.{Fields}
use universal_data_onboarder.Parsing.Formats.{has_extension}
use universal_data_onboarder.Store.{CommitStatus, committed}
use universal_data_onboarder.Session.Graph.{or_else}
use universal_data_onboarder.Session.Db.{SessionMember, Session, SessionDb}

-- What a value refers to: an entity that the target found, or a staged row of the session.
pub data Reference : Type 0 where
  entity : Fields → Reference
  staged_row : Text → Fields → Reference

-- For each field, the values that were found.
abbrev pub Resolved : Type 0
Resolved = Dict (Dict Reference)

-- The keys of a staged row that the queries select.
pub record FoundRow : Type 0 where
  pub id : Text
  pub external_id : Text
  pub mapped_fields : Fields
  pub commit_status : CommitStatus
  pub committed_entity_id : Option Text

pub record RowDb (S : Type 0) : Type 0 where
  -- `find({ importJobId: { $in }, entityKey, externalId: { $in }, validationStatus: { $in } })`
  pub find_rows : S → List Text → Text → List Text → List FoundRow
  -- `findOne({ importJobId: { $in }, entityKey, externalId, validationStatus: "valid",
  -- commitStatus: { $in: ["pending", "committed"] } })`
  pub find_row : S → List Text → Text → Text → Option FoundRow

-- `fieldKey.replace(/Name$/i, "").toLowerCase()`
unfoldable pub base_name : Text → Text
unfolding has_extension lower
base_name key =
    map lower (if has_extension (codes "name") key then take (length key - 4) key else key)

-- `fieldToEntity[baseName] ?? baseName`
unfoldable pub entity_for : Text → Text
unfolding base_name ◌===◌
entity_for key = let base = base_name key in if base === codes "org" then codes "orgunit" else base

-- `existingMap.set(row.externalId, …)` for each row.
unfoldable pub add_rows : Dict Reference → List FoundRow → Dict Reference
unfolding put
add_rows found [] = found
add_rows found (r ∷ rs) =
    add_rows (put found r.external_id (staged_row r.external_id r.mapped_fields)) rs

abbrev pub is_empty : {A : Type 0} → List A → Bool
is_empty [] = true
is_empty (x ∷ xs) = false

-- The values of a field that the target did not find.
unfoldable pub missing_values : Dict (List Text) → Resolved → Text → List Text
unfolding get
missing_values values resolved field =
    filter (λ v. not (has (or_else [] (get resolved field)) v)) (or_else [] (get values field))

module _ {S : Type 0} (db : SessionDb S) (rows : RowDb S) where
  -- One round of the loop over the fields.
  unfoldable pub resolve_field : S → List Text → Dict (List Text) → Resolved → Text → Resolved
  unfolding missing_values add_rows entity_for get put
  resolve_field s job_ids values resolved field =
      let missing = missing_values values resolved field in
      if is_empty missing
      then resolved
      else put resolved field (
          add_rows (or_else [] (get resolved field))
            (rows.find_rows s job_ids (entity_for field) missing))

  unfoldable pub resolve_fields : S → List Text → Dict (List Text) → Resolved → List Text → Resolved
  unfolding resolve_field
  resolve_fields s job_ids values resolved [] = resolved
  resolve_fields s job_ids values resolved (f ∷ fs) =
      resolve_fields s job_ids values (resolve_field s job_ids values resolved f) fs

  resolve_in : S → List Text → Dict (List Text) → Resolved → Option Session → Resolved
  unfolding resolve_fields entity_for
  resolve_in s reference_fields values own none = own
  resolve_in s reference_fields values own (some x) =
      let entities = map (λ j. j.entity_key) x.jobs in
      let matching = filter (λ f. includes entities (entity_for f)) reference_fields in
      if is_empty x.jobs
      then own
      else resolve_fields s (map (λ j. j.import_job_id) x.jobs) values own matching

  -- `resolveSessionReferences`, where `own` is what the target's `resolveReferences` answers, or `{}`.
  unfoldable pub resolve_session_references :
      S → Text → List Text → Dict (List Text) → Resolved → Resolved
  unfolding resolve_in
  resolve_session_references s session_id reference_fields values own =
      resolve_in s reference_fields values own (db.find_session s session_id)

  -- The entity of a row that is committed, or the id of the row that is still staged.
  pub data Located : Type 0 where
    committed_entity : Text → Located
    staged_only : Text → Located

  locate : FoundRow → Located
  locate r = elim r.commit_status [
    | committed ↦ elim r.committed_entity_id [
      | none ↦ staged_only r.id
      | some id ↦ committed_entity id
    ]
    | _ ↦ staged_only r.id
  ]

  locate_found : Option FoundRow → Option Located
  unfolding locate
  locate_found none = none
  locate_found (some r) = some (locate r)

  locate_in : S → Text → Text → Option Session → Option Located
  unfolding locate_found ◌===◌
  locate_in s entity_key external_id none = none
  locate_in s entity_key external_id (some x) =
      let job_ids = map (λ j. j.import_job_id) (filter (λ j. j.entity_key === entity_key) x.jobs) in
      if is_empty job_ids
      then none
      else locate_found (rows.find_row s job_ids entity_key external_id)

  -- `resolveSessionEntityByExternalId`; the empty text is no id.
  unfoldable pub resolve_session_entity_by_external_id : S → Text → Text → Text → Option Located
  unfolding locate_in
  resolve_session_entity_by_external_id s session_id entity_key external_id =
      if is_empty session_id
      then none
      else if is_empty external_id
      then none
      else locate_in s entity_key external_id (db.find_session s session_id)
