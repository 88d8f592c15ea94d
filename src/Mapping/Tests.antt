-- ===== src/Mapping/Tests.antt =====
-- The theorems on mappings at inputs that meet their hypotheses.
use universal_data_onboarder.Base.{
  ℕ, ◌≡◌, ◌≤◌, refl, true, false, List, [], ◌∷◌, map, none, some, Text, codes, includes, All,
  if◌then◌else◌,
}
use universal_data_onboarder.Base.Dict.{Dict, get}
use universal_data_onboarder.Base.Result.{ok}
use universal_data_onboarder.Value.{Fields, str}
use universal_data_onboarder.Value.Sample.{sample_host}
use universal_data_onboarder.Registry.{string, number, FieldSpec, Registry, get_target_descriptor}
use universal_data_onboarder.Store.{Store, Job, staged, mapped, committing, pending, StagedRow}
use universal_data_onboarder.Store.Rows.{all_rows, map_rows}
use universal_data_onboarder.Store.Jobs.{get_job}
use universal_data_onboarder.Mapping.Distance.{levenshtein}
use universal_data_onboarder.Mapping.Distance.Optimal.{Edits, levenshtein_least}
use universal_data_onboarder.Mapping.Suggest.{suggest_mapping}
use universal_data_onboarder.Mapping.Suggest.Claims.{Distinct, claimed, suggest_mapping_sound}
use universal_data_onboarder.Mapping.Reshape.{wrong_status, Options, plan, apply_mapping}
use universal_data_onboarder.Mapping.Reshape.Row.{reshape_row, fields_by_key, reshape_row_partition}
use universal_data_onboarder.Mapping.Reshape.Laws.{
  of_job, mapped_row, apply_mapping_atomic, apply_mapping_ok, IsMappedAs,
}

abbrev name : FieldSpec
name = record {
  key = codes "name";
  label = codes "Full name";
  type = string;
  required = true;
  aliases = codes "employee" ∷ [];
  enum = [];
}

abbrev age : FieldSpec
age = record {
  key = codes "age";
  label = codes "Age";
  type = number;
  required = false;
  aliases = [];
  enum = [];
}

levenshtein_least_example :
    Edits (codes "naem") (codes "name") (levenshtein (codes "naem") (codes "name"))
    × ((n : ℕ)
        → Edits (codes "naem") (codes "name") n
        → levenshtein (codes "naem") (codes "name") ≤ n)
levenshtein_least_example = levenshtein_least (codes "naem") (codes "name")

abbrev columns : List Text
columns = codes "Name" ∷ codes "agee" ∷ codes "name" ∷ []

suggest_mapping_sound_example :
    (map (λ s. s.source_column) (suggest_mapping columns (name ∷ age ∷ [])) ≡ columns)
    × All
        (λ k. includes (map (λ f. f.key) (name ∷ age ∷ [])) k ≡ true)
        (claimed (suggest_mapping columns (name ∷ age ∷ [])))
    × Distinct (claimed (suggest_mapping columns (name ∷ age ∷ [])))
suggest_mapping_sound_example = suggest_mapping_sound columns (name ∷ age ∷ [])

abbrev entries : Dict Text
entries = (codes "Name", codes "name") ∷ []

abbrev raw : Fields
raw = (codes "Name", str (codes "Ann")) ∷ (codes "Note", str (codes "x")) ∷ []

abbrev fields : Dict FieldSpec
fields = (codes "name", name) ∷ (codes "age", age) ∷ []

reshape_row_partition_example :
    (includes (map (λ e. e.1) entries) (codes "age") ≡ false
      → get (reshape_row sample_host fields entries raw).0 (codes "age") ≡ none)
    × (get (reshape_row sample_host fields entries raw).1 (codes "age")
        ≡ (if includes (map (λ e. e.0) entries) (codes "age") then none else get raw (codes "age")))
reshape_row_partition_example = reshape_row_partition sample_host fields entries raw (codes "age")

abbrev registry : Registry
registry =
    (
      codes "hr:employee",
      record {
        namespace = codes "hr";
        entity_key = codes "employee";
        label = codes "Employee";
        fields = name ∷ age ∷ [];
        identity_field = codes "name";
        commit_in_transaction = false;
        dependencies = [];
        reference_fields = [];
      },
    )
    ∷ []

abbrev job : Job
job = record {
  id = codes "j";
  tenant_id = codes "t";
  module_name = codes "hr";
  entity_key = none;
  field_map = none;
  mapping_profile_id = none;
  session_id = none;
  status = staged;
  valid_rows = none;
  invalid_rows = 0;
  committed_rows = 0;
  commit_failed_rows = 0;
  skipped_rows = 0;
}

abbrev staged_row : ℕ → StagedRow
staged_row n = record {
  id = n;
  tenant_id = codes "t";
  import_job_id = codes "j";
  row_index = n;
  raw_row = raw;
  custom_fields = raw;
  mapped_fields = none;
  validation_status = none;
  validation_errors = [];
  commit_status = pending;
  committed_entity = none;
  commit_error = none;
}

abbrev store : Store
store = record {
  jobs = (codes "t:j", job) ∷ [];
  staged_records = (codes "t:j", staged_row 1 ∷ staged_row 2 ∷ []) ∷ [];
  mapping_profiles = [];
  sequence = 2;
}

abbrev options : Options
options = record {
  entity_key = codes "employee";
  field_map = entries;
  save_as_profile = false;
  profile_label = none;
  created_by = none;
}

abbrev mapped_job : Job
mapped_job = record job {
  entity_key = some (codes "employee");
  field_map = some entries;
  status = mapped;
}

apply_mapping_ok_example :
    (j : Job) × (fs : Dict FieldSpec) × (plan registry store (codes "t") (codes "j") options
      ≡ ok (j, fs))
    × ((apply_mapping sample_host registry store (codes "t") (codes "j") options).0.staged_records
        ≡ map_rows
            (λ q. if of_job (codes "t") j q then mapped_row sample_host fs entries q q else q)
            store.staged_records)
    × IsMappedAs options.entity_key options.field_map j
        (apply_mapping sample_host registry store (codes "t") (codes "j") options).0
        mapped_job
unfolding apply_mapping all_rows plan get_job get get_target_descriptor fields_by_key
apply_mapping_ok_example =
    apply_mapping_ok sample_host registry store (codes "t") (codes "j") options mapped_job
      ((refl, tt), (tt, tt)) refl

abbrev busy_store : Store
busy_store = record store { jobs = (codes "t:j", record job { status = committing }) ∷ [] }

apply_mapping_atomic_example :
    (apply_mapping sample_host registry busy_store (codes "t") (codes "j") options).0 ≡ busy_store
unfolding apply_mapping plan get_job get
apply_mapping_atomic_example =
    apply_mapping_atomic sample_host registry busy_store (codes "t") (codes "j") options
      (wrong_status committing) refl (λ e. cc e)
