-- ===== src/Import/Tests.antt =====
-- The theorems on imports at inputs that meet their hypotheses.
use universal_data_onboarder.Base.{Option, ℕ, refl, true, [], ◌∷◌, none, some, Text, codes}
use universal_data_onboarder.Base.Result.{Result, ok}
use universal_data_onboarder.Value.{Fields, str}
use universal_data_onboarder.Value.Sample.{sample_host}
use universal_data_onboarder.Parsing.Formats.{csv, Upload, detect_upload_format}
use universal_data_onboarder.Parsing.Collect.{chunk, end_of_data}
use universal_data_onboarder.Parsing.Dispatch.{Source, parse_streaming}
use universal_data_onboarder.Guardrail.Tier.{Env}
use universal_data_onboarder.Guardrail.Reason.{Locale}
use universal_data_onboarder.Guardrail.Check.{
  get_import_row_limit, check_guardrail_streaming, Verdict,
}
use universal_data_onboarder.Store.{staged, pending_upload}
use universal_data_onboarder.Import.Shared.{ImportJob, Database, Answers, create_import_job}
use universal_data_onboarder.Import.Dedicated.{UploadJob}
use universal_data_onboarder.Import.Shared.Laws.{create_import_job_stages, IsJudged, IsImported}

-- Two rows for the shared mode.
abbrev pub env : Env
env = record {
  tier_storage_mode = [];
  shared_max_rows = some 2;
  dedicated_max_rows = none;
  shared_max_bytes = none;
  dedicated_max_bytes = none;
  migration_shared_rows = none;
  migration_dedicated_rows = none;
  migration_shared_bytes = none;
  migration_dedicated_bytes = none;
}

abbrev pub locale : Locale
locale = record { grouped = λ n. codes "n"; mega_bytes = λ n. codes "m"; digits = λ n. codes "d" }

abbrev row : Fields
row = (codes "id", str (codes "7")) ∷ []

abbrev pub source : Source
source = record {
  csv_events = chunk row ∷ end_of_data ∷ [];
  json_bytes = [];
  json_events = [];
  workbook = ok [];
  sql_text = [];
}

abbrev file : Upload
file = record { original_name = codes "a.csv"; mimetype = [] }

abbrev answers : Answers
answers = record { archived = ok (codes "p"); new_id = codes "j"; insert_error = none }

abbrev staged_job : ImportJob
staged_job = record {
  id = codes "j";
  tenant_id = codes "t";
  module_name = codes "hr";
  source_format = csv;
  sql_table = none;
  status = staged;
  original_name = codes "a.csv";
  public_id = codes "p";
  size_bytes = 9;
  total_rows = 1;
  staged_rows = 1;
  passed = true;
  limit = 2;
  rejection = none;
  error = none;
}

abbrev none_yet : Database
none_yet = record { import_jobs = []; drafts = [] }

abbrev after : Database
after = record {
  import_jobs = staged_job ∷ [];
  drafts =
      record { import_job_id = codes "j"; row_index = 0; raw_row = row; custom_fields = row } ∷ [];
}

create_import_job_stages_example :
    (v : Verdict) × IsJudged env locale sample_host (codes "t") source none v
    × IsImported none_yet after v.records staged_job
unfolding create_import_job check_guardrail_streaming parse_streaming get_import_row_limit
    detect_upload_format
create_import_job_stages_example =
    create_import_job_stages env locale sample_host none_yet (codes "t") (codes "hr") file 9 source
      none answers after staged_job refl

-- A bucket whose files have 5 bytes, and a job that waits for its file.
abbrev verify_upload : Text → Text → Result Text (Option ℕ)
verify_upload bucket_name object_path = ok (some 5)

abbrev trigger : UploadJob → Result Text Text
trigger j = ok (codes "run")

abbrev waiting_job : UploadJob
waiting_job = record {
  tenant_id = codes "t";
  status = pending_upload;
  object_path = codes "o";
  bucket_name = codes "b";
  execution_name = none;
  size_bytes = 0;
  passed = none;
  rejection = none;
}
