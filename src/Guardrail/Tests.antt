-- ===== src/Guardrail/Tests.antt =====
-- The guardrail's theorems at inputs that meet their hypotheses.
use universal_data_onboarder.Base.{
  ◌≡◌, ◌≤◌, ◌<◌, ◌↔◌, refl, ◌++◌, true, false, List, [], ◌∷◌, map, none, some, codes, length,
  if◌then◌else◌,
}
use universal_data_onboarder.Base.Result.{ok}
use universal_data_onboarder.Value.{Fields, str}
use universal_data_onboarder.Value.Sample.{sample_host}
use universal_data_onboarder.Parsing.Formats.{csv}
use universal_data_onboarder.Parsing.Collect.{chunk, end_of_data}
use universal_data_onboarder.Parsing.Dispatch.{Source, parse_streaming}
use universal_data_onboarder.Guardrail.Tier.{Env, resolve}
use universal_data_onboarder.Guardrail.Reason.{
  Locale, label, rows, Rejection, describe_guardrail_rejection,
}
use universal_data_onboarder.Guardrail.Check.{
  Verdict, get_import_row_limit, check_import_file_size, check_import_guardrail,
  check_guardrail_streaming,
}
use universal_data_onboarder.Guardrail.Laws.{
  check_guardrail_streaming_sound, streaming-eq-counted, check_import_file_size_iff,
}

-- One row, and 100 bytes, for the shared mode.
abbrev env : Env
env = record {
  tier_storage_mode = [];
  shared_max_rows = some 1;
  dedicated_max_rows = none;
  shared_max_bytes = some 100;
  dedicated_max_bytes = none;
  migration_shared_rows = none;
  migration_dedicated_rows = none;
  migration_shared_bytes = none;
  migration_dedicated_bytes = none;
}

abbrev locale : Locale
locale = record { grouped = λ n. codes "n"; mega_bytes = λ n. codes "m"; digits = λ n. codes "d" }

abbrev row : Fields
row = (codes "id", str (codes "7")) ∷ []

abbrev csv_source : List Fields → Source
csv_source found = record {
  csv_events = map chunk found ++ end_of_data ∷ [];
  json_bytes = [];
  json_events = [];
  workbook = ok [];
  sql_text = [];
}

abbrev refused : Verdict
refused = record {
  allowed = false;
  limit = 1;
  storage_mode = codes "shared";
  records = [];
  table_name = none;
  details = some (
      describe_guardrail_rejection env locale (codes "shared") rows 1
        (label (codes "more than n")));
}

check_guardrail_streaming_sound_example :
    (length refused.records ≤ 1)
    × (refused.allowed ≡ false
        → (refused.records ≡ []) × ((d : Rejection) × (refused.details ≡ some d)))
    × (refused.allowed ≡ true → refused.details ≡ none)
unfolding check_guardrail_streaming parse_streaming get_import_row_limit
check_guardrail_streaming_sound_example =
    check_guardrail_streaming_sound env locale sample_host (codes "t1")
      (csv_source (row ∷ row ∷ [])) csv none refused refl

streaming-eq-counted_example :
    (v : Verdict) × (check_guardrail_streaming env locale sample_host
        (codes "t1")
        (csv_source (row ∷ []))
        csv
        none
      ≡ ok v)
    × (v.allowed ≡ (check_import_guardrail env locale (codes "t1") 1).allowed)
    × (v.records ≡ (if v.allowed then row ∷ [] else []))
streaming-eq-counted_example =
    streaming-eq-counted env locale sample_host (codes "t1") (csv_source (row ∷ [])) (row ∷ []) []
      none refl

check_import_file_size_iff_example :
    (((check_import_file_size env locale (codes "t1") (some 101)).allowed ≡ false)
      ↔ ((resolve env (codes "t1")).limit_bytes < 101))
    × ((check_import_file_size env locale (codes "t1") none).allowed ≡ true)
check_import_file_size_iff_example = check_import_file_size_iff env locale (codes "t1") 101
