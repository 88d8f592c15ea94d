-- ===== src/Pipeline/Steps/Laws.antt =====
-- worker/importPipeline.js: which jobs a run leaves alone, and how a commit closes a job.
use universal_data_onboarder.Base.{
  ◌≡◌, refl, ◌⊎◌, inl, inr, Bool-cases, arith, Bool, true, false, ◌||◌, List, [], ◌∷◌, Option, none,
  some, Text, if◌then◌else◌,
}
use universal_data_onboarder.Base.Dict.{Dict}
use universal_data_onboarder.Base.Result.{Result, ok, err}
use universal_data_onboarder.Value.{Host}
use universal_data_onboarder.Registry.{Registry, Entity, list_target_entities}
use universal_data_onboarder.Store.{
  Store, Job, JobStatus, uploaded, guardrail_rejected, staged, mapped, validated,
}
use universal_data_onboarder.Mapping.Suggest.Job.{Suggested, SuggestError}
use universal_data_onboarder.Pipeline.Stage.{step_parse_and_stage, has_status}
use universal_data_onboarder.Pipeline.Steps.{
  is_staged, is_mapped, is_validated, is_missing, present, or_text, try_entity, try_entities,
  auto_map, step_auto_map, step_validate, step_commit, suggested_field_map, Setting, Place,
  first_step, last_step, run_job_pipeline,
}

-- No field map, or no entity that it is for.
abbrev pub lacks_mapping : Option (Dict Text) → Option Text → Bool
lacks_mapping (some fields) (some entity) = false
lacks_mapping _ _ = true

-- Statuses at which no step of the pipeline takes a job up; of the staged jobs, those without a
-- mapping.
abbrev pub at_rest : JobStatus → Bool → Bool
at_rest uploaded unmapped = false
at_rest guardrail_rejected unmapped = false
at_rest staged unmapped = unmapped
at_rest mapped unmapped = false
at_rest validated unmapped = false
at_rest _ unmapped = true

abbrev pub is_at_rest : Job → Bool
is_at_rest job = at_rest job.status (lacks_mapping job.field_map (present job.entity_key))

-- The gates of the steps.
record IsShut (status : JobStatus) (unmapped : Bool) : Type 0 where
  pub parse : has_status status ≡ false
  pub map : (is_staged status ≡ false) ⊎ (unmapped ≡ true)
  pub validate : is_mapped status ≡ false
  pub commit : is_validated status ≡ false

at_rest-IsShut :
    (status : JobStatus) (unmapped : Bool) → at_rest status unmapped ≡ true → IsShut status unmapped
at_rest-IsShut status unmapped rest = record {
  parse = ground arith;
  map = elim (Bool-cases (is_staged status)) [ inl y ↦ inr (ground arith) | inr n ↦ inl n ];
  validate = ground arith;
  commit = ground arith;
}

module _ (h : Host) (registry : Registry) (s : Store) (job : Job) where
  try_entity_later :
      (entity : Text) (r : Result SuggestError Suggested)
      → try_entity h registry s job entity (s, ok job) r ≡ (s, ok job)
  unfolding try_entity suggested_field_map
  try_entity_later entity (err e) = refl
  try_entity_later entity (ok suggestion) = refl

  try_entities_keeps : (es : List Entity) → try_entities h registry s job es ≡ (s, ok job)
  unfolding try_entities
  try_entities_keeps [] = refl
  try_entities_keeps (e ∷ es) = rw (try_entities_keeps es) (try_entity_later e.entity_key _)

  guess_keeps :
      (if is_missing job.module_name
        then (s, ok job)
        else try_entities h registry s job (list_target_entities registry job.module_name))
      ≡ (s, ok job)
  guess_keeps = elim (Bool-cases (is_missing job.module_name)) [
    | inl y ↦ rw y refl
    | inr n ↦ rw n (try_entities_keeps (list_target_entities registry job.module_name))
  ]

  auto_map_keeps :
      (fields : Option (Dict Text)) (entity : Option Text)
      → lacks_mapping fields entity ≡ true
      → auto_map h registry s job fields entity ≡ (s, ok job)
  unfolding auto_map
  auto_map_keeps (some fields) (some entity) lacks = absurd (cc lacks)
  auto_map_keeps none entity lacks = guess_keeps
  auto_map_keeps (some fields) none lacks = guess_keeps

  -- A job without a field map or without an entity key is returned as it is: no mapping that the
  -- pipeline suggests is ever applied.
  pub step_auto_map_keeps :
      lacks_mapping job.field_map (present job.entity_key) ≡ true
      → step_auto_map h registry s job ≡ (s, ok job)
  unfolding step_auto_map
  step_auto_map_keeps lacks = elim (Bool-cases (is_staged job.status)) [
    | inl y ↦ rw y (auto_map_keeps job.field_map (present job.entity_key) lacks)
    | inr n ↦ rw n refl
  ]

module _ {W : Type 0} (e : Setting W) (s : Store) (w : W) (job : Job) where
  first_step_keeps :
      (place : Place) (bucket object : Text)
      → has_status job.status ≡ false
      → first_step e s job place bucket object ≡ (s, ok job)
  unfolding first_step step_parse_and_stage
  first_step_keeps place bucket object shut =
      let b = or_text bucket place.bucket_name in
      let o = or_text object place.object_path in
      elim (Bool-cases (is_missing b || is_missing o)) [
        | inl y ↦ rw y refl
        | inr n ↦ rw (n, shut) refl
      ]

  auto_map_shut :
      (is_staged job.status ≡ false) ⊎ (lacks_mapping job.field_map (present job.entity_key) ≡ true)
      → step_auto_map e.host e.registry s job ≡ (s, ok job)
  unfolding step_auto_map
  auto_map_shut (inl n) = rw n refl
  auto_map_shut (inr lacks) = step_auto_map_keeps e.host e.registry s job lacks

  validate_shut :
      is_mapped job.status ≡ false → step_validate e.host e.registry e.answers s job ≡ (s, ok job)
  unfolding step_validate
  validate_shut n = rw n refl

  commit_shut :
      is_validated job.status ≡ false
      → step_commit e.commit_row e.aborted e.registry e.connection s w job ≡ (s, w, ok job)
  unfolding step_commit
  commit_shut n = rw n refl

  -- A run of a job that is not uploaded, rejected, mapped or validated, and not staged with a mapping
  -- at hand, returns the job and changes neither the store nor the target. So a job that was
  -- completed or failed can be run again; a job that a crash left in committing is not resumed,
  -- whatever rows wait for its commit; and a staged job without a mapping is never mapped.
  pub run_job_pipeline_rests :
      (place : Place) (bucket object : Text)
      → is_at_rest job ≡ true
      → run_job_pipeline e s w job place bucket object ≡ (s, w, ok job)
  unfolding run_job_pipeline last_step
  run_job_pipeline_rests place bucket object rest =
      let shut =
        at_rest-IsShut job.status (lacks_mapping job.field_map (present job.entity_key)) rest in
      rw
        (
          first_step_keeps place bucket object shut.parse,
          auto_map_shut shut.map,
          validate_shut shut.validate,
        )
        (commit_shut shut.commit)
