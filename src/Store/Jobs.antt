-- ===== src/Store/Jobs.antt =====
-- orchestration/adapters/inMemoryJobStore.js: the methods on jobs and mapping profiles; `updateJob`
-- is that of orchestration/adapters/mongooseJobStore.js, since the in-memory one sets a key that is
-- called "counts.validRows" and leaves the counts as they were.
use universal_data_onboarder.Base.{
  ◌≡◌, sym, ap, ◌===◌, ◌&&◌, [], ◌∷◌, ◌++◌, Option, none, some, Text, codes, trim, if◌then◌else◌,
  ===_iff, ◌∙◌, refl,
}
use universal_data_onboarder.Base.Dict.{Dict, get, put, get-put}
use universal_data_onboarder.Base.Result.{Result, ok, err, ok-injective}
use universal_data_onboarder.Store.{Job, Profile, Store, store_key}

-- Thrown with status code 404.
pub data StoreError : Type 0 where
  job_not_found : StoreError

job_or_error : Option Job → Result StoreError Job
job_or_error none = err job_not_found
job_or_error (some j) = ok j

unfoldable pub get_job : Store → Text → Text → Result StoreError Job
unfolding store_key job_or_error
get_job s tenant_id job_id = job_or_error (get s.jobs (store_key tenant_id job_id))

updated : Store → Text → (Job → Job) → Option Job → Store × Option Job
updated s key change none = (s, none)
updated s key change (some j) = (record s { jobs = put s.jobs key (change j) }, some (change j))

-- `updateJob` of orchestration/adapters/mongooseJobStore.js, `findOneAndUpdate` with `$set`: the
-- changed job, or null where there is none. `change` is what `$set` does; a key like
-- "counts.validRows" sets the count inside the job.
unfoldable pub update_job : Store → Text → Text → (Job → Job) → Store × Option Job
unfolding store_key updated
update_job s tenant_id job_id change =
    updated s (store_key tenant_id job_id) change (get s.jobs (store_key tenant_id job_id))

unfoldable pub save_job : Store → Job → Store
unfolding store_key
save_job s j = record s { jobs = put s.jobs (store_key j.tenant_id j.id) j }

-- `profileLabel?.trim() || "default"`
label_or_default : Text → Text
label_or_default [] = codes "default"
label_or_default (c ∷ s) = c ∷ s

unfoldable pub profile_label : Option Text → Text
unfolding label_or_default trim
profile_label none = codes "default"
profile_label (some raw) = label_or_default (trim raw)

-- `upsertMappingProfile`. The time of the update is left out.
unfoldable pub upsert_mapping_profile :
    Store → Text → Text → Text → Dict Text → Option Text → Option Text → Store × Profile
unfolding profile_label
upsert_mapping_profile s tenant_id module_name entity_key field_map raw created_by =
    let label = profile_label raw in
    let id = tenant_id ++ b':' ∷ (module_name ++ b':' ∷ (entity_key ++ b':' ∷ label)) in
    let p : Profile = record {
      id = id;
      tenant_id = tenant_id;
      module_name = module_name;
      entity_key = entity_key;
      field_map = field_map;
      label = label;
      created_by = created_by;
    } in
    (record s { mapping_profiles = put s.mapping_profiles id p }, p)

-- `updateJobModel` for the filter `{ _id, tenantId }`: the first job that matches is changed, if
-- there is one.
change_first : Text → Text → (Job → Job) → Dict Job → Dict Job
unfolding ◌===◌
change_first id tenant_id change [] = []
change_first id tenant_id change ((key, j) ∷ jobs) =
    let rest = change_first id tenant_id change jobs in
    if j.id === id && j.tenant_id === tenant_id then (key, change j) ∷ jobs else (key, j) ∷ rest

unfoldable pub update_job_model : Store → Text → Text → (Job → Job) → Store
unfolding change_first
update_job_model s id tenant_id change = record s { jobs = change_first id tenant_id change s.jobs }

updated-changed :
    (s : Store) (key : Text) (change : Job → Job) (found : Option Job) (j : Job)
    → get s.jobs key ≡ found
    → job_or_error (get (updated s key change found).0.jobs key) ≡ ok j
    → (old : Job) × (found ≡ some old) × (j ≡ change old)
unfolding updated job_or_error
updated-changed s key change none j same e = absurd (cc (rw same at e))
updated-changed s key change (some old) j same e =
    let there : get (put s.jobs key (change old)) key ≡ some (change old) =
      get-put s.jobs key key (change old) ∙ rw ((===_iff key key).1 refl) refl in
    (old, refl, sym (ok-injective (rw there at e)))

-- The job that `getJob` finds after `updateJob` is the changed one.
pub update_job-get_job :
    (s : Store) (tenant_id job_id : Text) (change : Job → Job) (j : Job)
    → get_job (update_job s tenant_id job_id change).0 tenant_id job_id ≡ ok j
    → (old : Job) × (get s.jobs (store_key tenant_id job_id) ≡ some old) × (j ≡ change old)
unfolding update_job get_job
update_job-get_job s tenant_id job_id change j e =
    let key = store_key tenant_id job_id in updated-changed s key change (get s.jobs key) j refl e

updated-returned :
    (s : Store) (key : Text) (change : Job → Job) (found : Option Job) (j : Job)
    → (updated s key change found).1 ≡ some j
    → (get (updated s key change found).0.jobs key ≡ some j) × (old : Job) × (j ≡ change old)
unfolding updated
updated-returned s key change none j e = absurd (cc e)
updated-returned s key change (some old) j e =
    let same : change old ≡ j = cc e in
    (
      get-put s.jobs key key (change old) ∙ rw ((===_iff key key).1 refl) (ap some same),
      old,
      sym same,
    )

-- The job that `updateJob` returns is a changed one, which `getJob` finds then.
pub update_job-returned :
    (s : Store) (tenant_id job_id : Text) (change : Job → Job) (j : Job)
    → (update_job s tenant_id job_id change).1 ≡ some j
    → (get_job (update_job s tenant_id job_id change).0 tenant_id job_id ≡ ok j)
      × (old : Job) × (j ≡ change old)
unfolding update_job get_job job_or_error
update_job-returned s tenant_id job_id change j e =
    let key = store_key tenant_id job_id in
    let (there, old, same) = updated-returned s key change (get s.jobs key) j e in
    (ap job_or_error there, old, same)

updated-rows :
    (s : Store) (key : Text) (change : Job → Job) (found : Option Job)
    → (updated s key change found).0.staged_records ≡ s.staged_records
unfolding updated
updated-rows s key change none = refl
updated-rows s key change (some old) = refl

-- `updateJob` leaves the rows alone.
pub update_job-rows :
    (s : Store) (tenant_id job_id : Text) (change : Job → Job)
    → (update_job s tenant_id job_id change).0.staged_records ≡ s.staged_records
unfolding update_job
update_job-rows s tenant_id job_id change =
    updated-rows s (store_key tenant_id job_id) change (get s.jobs (store_key tenant_id job_id))

pub save_job-rows : (s : Store) (j : Job) → (save_job s j).staged_records ≡ s.staged_records
unfolding save_job
save_job-rows s j = refl

-- `getJob` finds the job that `saveJob` wrote.
pub save_job-get_job : (s : Store) (j : Job) → get_job (save_job s j) j.tenant_id j.id ≡ ok j
unfolding save_job get_job job_or_error
save_job-get_job s j =
    let key = store_key j.tenant_id j.id in
    rw (get-put s.jobs key key j, (===_iff key key).1 refl) refl
