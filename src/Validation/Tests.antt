-- ===== src/Validation/Tests.antt =====
-- The theorems on validation at inputs that meet their hypotheses.
use universal_data_onboarder.Base.{
  All, ℕ, ◌≡◌, ◌≤◌, refl, true, false, [], ◌∷◌, none, some, count, codes,
}
use universal_data_onboarder.Base.Dict.{get, put}
use universal_data_onboarder.Base.Result.{ok}
use universal_data_onboarder.Value.{str}
use universal_data_onboarder.Value.Sample.{sample_host}
use universal_data_onboarder.Registry.{string, Descriptor, Registry, get_target_descriptor}
use universal_data_onboarder.Store.{Store, Job, StagedRow, mapped, invalid, excluded, pending}
use universal_data_onboarder.Store.Rows.{bulk_write_staged}
use universal_data_onboarder.Store.Jobs.{get_job, update_job}
use universal_data_onboarder.Validation.Rules.Sound.{FieldFits, row_errors_sound}
use universal_data_onboarder.Validation.Rules.{
  row_errors, mapped_of, Answers, same_value, check_rows,
}
use universal_data_onboarder.Validation.Rules.Laws.{is_owner, check_rows_one_owner}
use universal_data_onboarder.Validation.Job.{
  Validated, counted_job, validate_import_job, Patch, patch_staged_record_fields, count_results,
}
use universal_data_onboarder.Validation.Job.Laws.{validate_import_job_counts, IsCounted}

abbrev target : Descriptor
target = record {
  namespace = codes "hr";
  entity_key = codes "employee";
  label = codes "Employee";
  fields =
      record {
        key = codes "email";
        label = codes "E-mail";
        type = string;
        required = true;
        aliases = [];
        enum = [];
      }
      ∷ [];
  identity_field = codes "email";
  commit_in_transaction = false;
  dependencies = [];
  reference_fields = [];
}

abbrev registry : Registry
registry = (codes "hr:employee", target) ∷ []

abbrev answers : Answers
answers = record {
  duplicate_identity_values = str (codes "a@b") ∷ [];
  existing_identities = [];
  reference_lookups = none;
}

abbrev mapped_row : ℕ → StagedRow
mapped_row n = record {
  id = n;
  tenant_id = codes "t";
  import_job_id = codes "j";
  row_index = n;
  raw_row = [];
  custom_fields = [];
  mapped_fields = some ((codes "email", str (codes "a@b")) ∷ []);
  validation_status = none;
  validation_errors = [];
  commit_status = pending;
  committed_entity = none;
  commit_error = none;
}

check_rows_one_owner_example :
    count
      (is_owner sample_host target answers (codes "a@b"))
      (check_rows sample_host target answers [] (mapped_row 1 ∷ mapped_row 2 ∷ []))
    ≤ 1
unfolding same_value
check_rows_one_owner_example =
    check_rows_one_owner sample_host target answers (codes "a@b") []
      (mapped_row 1 ∷ mapped_row 2 ∷ []) refl

abbrev job : Job
job = record {
  id = codes "j";
  tenant_id = codes "t";
  module_name = codes "hr";
  entity_key = some (codes "employee");
  field_map = some [];
  mapping_profile_id = none;
  session_id = none;
  status = mapped;
  valid_rows = none;
  invalid_rows = 0;
  committed_rows = 0;
  commit_failed_rows = 0;
  skipped_rows = 0;
}

abbrev store : Store
store = record {
  jobs = (codes "t:j", job) ∷ [];
  staged_records = (codes "t:j", mapped_row 1 ∷ mapped_row 2 ∷ []) ∷ [];
  mapping_profiles = [];
  sequence = 2;
}

abbrev result : Validated
result = record { job = some (counted_job 1 1 job); valid_count = 1; invalid_count = 1 }

abbrev validated_store : Store
validated_store =
    (validate_import_job sample_host registry (λ s j d. answers) (codes "t") (codes "j") store).0

validate_import_job_counts_example :
    (j : Job) × (get_job store (codes "t") (codes "j") ≡ ok j)
    × IsCounted (codes "t") j store validated_store result (counted_job 1 1 job)
unfolding validate_import_job get_job update_job get put get_target_descriptor check_rows
    bulk_write_staged count_results
validate_import_job_counts_example =
    validate_import_job_counts sample_host registry (λ s j d. answers) (codes "t") (codes "j") store
      validated_store result (counted_job 1 1 job) ((refl, tt), (tt, tt)) refl refl

abbrev excluded_row : StagedRow
excluded_row = record (mapped_row 1) {
  validation_status = some invalid;
  validation_errors = excluded ∷ [];
}

abbrev excluding : Patch
excluding = record { overrides = none; exclude = true }

abbrev store_without : Store
store_without =
    (patch_staged_record_fields sample_host registry store (codes "t") (codes "j") 1 excluding).0

row_errors_sound_example : All (FieldFits (mapped_of (mapped_row 1))) target.fields
unfolding row_errors same_value get
row_errors_sound_example = row_errors_sound sample_host target answers [] (mapped_row 1) refl
