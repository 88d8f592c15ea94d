-- ===== src/Mapping/Suggest/Job.antt =====
-- core/mapping/applyMapping.js: `getTargetSchema`, `suggestMappingForJob`.
use universal_data_onboarder.Base.{List, [], ◌∷◌, Option, none, some, Text}
use universal_data_onboarder.Base.Dict.{keys}
use universal_data_onboarder.Base.Result.{Result, ok, err}
use universal_data_onboarder.Registry.{
  Registry, RegistryError, FieldSpec, Descriptor, get_target_descriptor,
}
use universal_data_onboarder.Store.{Store, Job, StagedRow}
use universal_data_onboarder.Store.Rows.{tenant_is, job_is, find_one_staged}
use universal_data_onboarder.Store.Jobs.{StoreError, get_job}
use universal_data_onboarder.Mapping.Suggest.{Suggestion, suggest_mapping}

pub data SuggestError : Type 0 where
  no_job : StoreError → SuggestError
  no_target : RegistryError → SuggestError

pub record Schema : Type 0 where
  pub module_name : Text
  pub entity_key : Text
  pub label : Text
  pub fields : List FieldSpec
  pub identity_field : Text

abbrev schema_of : Descriptor → Schema
schema_of d = record {
  module_name = d.namespace;
  entity_key = d.entity_key;
  label = d.label;
  fields = d.fields;
  identity_field = d.identity_field;
}

schema_result : Result RegistryError Descriptor → Result RegistryError Schema
schema_result (err e) = err e
schema_result (ok d) = ok (schema_of d)

unfoldable pub get_target_schema : Registry → Text → Text → Result RegistryError Schema
unfolding schema_result get_target_descriptor
get_target_schema registry module_name entity_key =
    schema_result (get_target_descriptor registry module_name entity_key)

pub record Suggested : Type 0 where
  pub source_columns : List Text
  pub suggestions : List Suggestion

suggest_for : StagedRow → Result RegistryError Schema → Result SuggestError Suggested
unfolding suggest_mapping
suggest_for sample (err e) = err (no_target e)
suggest_for sample (ok schema) =
    let columns = keys sample.raw_row in
    ok (record { source_columns = columns; suggestions = suggest_mapping columns schema.fields })

suggest_from_sample : Registry → Text → Text → Option StagedRow → Result SuggestError Suggested
unfolding suggest_for get_target_schema
suggest_from_sample registry module_name entity_key none =
    ok (record { source_columns = []; suggestions = [] })
suggest_from_sample registry module_name entity_key (some sample) =
    suggest_for sample (get_target_schema registry module_name entity_key)

suggest_found :
    Registry → Store → Text → Text → Text → Result StoreError Job → Result SuggestError Suggested
unfolding suggest_from_sample find_one_staged
suggest_found registry s tenant_id module_name entity_key (err e) = err (no_job e)
suggest_found registry s tenant_id module_name entity_key (ok job) =
    suggest_from_sample registry module_name entity_key
      (find_one_staged s (tenant_is tenant_id ∷ job_is job.id ∷ []))

unfoldable pub suggest_mapping_for_job :
    Registry → Store → Text → Text → Text → Text → Result SuggestError Suggested
unfolding suggest_found get_job
suggest_mapping_for_job registry s tenant_id job_id module_name entity_key =
    suggest_found registry s tenant_id module_name entity_key (get_job s tenant_id job_id)
