-- ===== src/Parsing/Tests.antt =====
-- The parsing theorems at inputs that meet their hypotheses.
use universal_data_onboarder.Base.{
  ◌≡◌, ◌≤◌, refl, ◌++◌, true, false, List, [], ◌∷◌, map, none, some, codes, length, exceeds,
}
use universal_data_onboarder.Base.Result.{ok}
use universal_data_onboarder.Value.{Fields, str}
use universal_data_onboarder.Value.Sample.{sample_host}
use universal_data_onboarder.Parsing.Formats.{json}
use universal_data_onboarder.Parsing.Collect.{
  chunk, end_of_data, closed, resolved, empty, collect, collect_bounded,
}
use universal_data_onboarder.Parsing.Collect.Laws.{collect_bounded-chunks, collect_memory}
use universal_data_onboarder.Parsing.JsonRoot.{
  assert_json_root_is_array, OpensArray, max_leading_whitespace, assert_json_root_is_array_iff,
}
use universal_data_onboarder.Parsing.Dispatch.{
  Element, scalar, object, Source, Parsed, as_record, parse_streaming,
}
use universal_data_onboarder.Parsing.Dispatch.Laws.{parse_streaming_bounded}

abbrev row : Fields
row = (codes "id", str (codes "7")) ∷ []

abbrev elements : List Element
elements = object row ∷ scalar (str (codes "skipped")) ∷ object row ∷ []

collect_bounded-chunks_example :
    collect_bounded as_record (some 1) (map chunk elements ++ end_of_data ∷ closed ∷ [])
    ≡ some (resolved [] true)
collect_bounded-chunks_example = collect_bounded-chunks as_record (some 1) elements (closed ∷ [])

collect_memory_example :
    length (collect as_record (some 2) empty (map chunk elements ++ closed ∷ [])).records ≤ 2
collect_memory_example = collect_memory as_record 2 (map chunk elements ++ closed ∷ [])

assert_json_root_is_array_iff_example :
    ((assert_json_root_is_array (codes " [1]") ≡ ok tt)
      → OpensArray max_leading_whitespace (codes " [1]"))
    × (OpensArray max_leading_whitespace (codes " [1]")
        → assert_json_root_is_array (codes " [1]") ≡ ok tt)
assert_json_root_is_array_iff_example = assert_json_root_is_array_iff (codes " [1]")

abbrev source : Source
source = record {
  csv_events = [];
  json_bytes = codes " [{}]";
  json_events = map chunk elements ++ end_of_data ∷ [];
  workbook = ok [];
  sql_text = [];
}

abbrev parsed : Parsed
parsed = record { records = row ∷ row ∷ []; exceeded = false; table_name = none }

parse_streaming_bounded_example :
    (exceeds (length parsed.records) (some 2) ≡ false)
    × (parsed.exceeded ≡ true → parsed.records ≡ [])
unfolding parse_streaming
parse_streaming_bounded_example =
    parse_streaming_bounded sample_host source json (some 2) none parsed refl
