-- ===== src/Parsing/Dispatch.antt =====
-- core/parsing/streamingParser.js: `parseStreaming` and its four formats.
--
-- What csv-parse, stream-json, exceljs and the file system hand out is an argument, a `Source`.
-- The default limit `Infinity` is `none`.
pub mod Laws
use universal_data_onboarder.Base.{
  ℕ, Bool, true, false, List, [], ◌∷◌, Option, none, some, length, exceeds, Text, if◌then◌else◌,
}
use universal_data_onboarder.Base.Result.{Result, ok, err, ◌>>=◌}
use universal_data_onboarder.Value.{Value, Fields, Host}
use universal_data_onboarder.Sql.Lexer.{SqlError}
use universal_data_onboarder.Sql.Scan.{Extracted, extract_sql_table}
use universal_data_onboarder.Parsing.Formats.{Format, csv, json, excel, sql}
use universal_data_onboarder.Parsing.Collect.{Event, Outcome, resolved, rejected, collect_bounded}
use universal_data_onboarder.Parsing.JsonRoot.{RootError, assert_json_root_is_array}
use universal_data_onboarder.Parsing.Excel.{
  ExcelError, unreadable, no_worksheet, Worksheet, sheet_records,
}

-- An element of a JSON array.
pub data Element : Type 0 where
  scalar : Value → Element
  array : List Value → Element
  object : Fields → Element

pub record Source : Type 0 where
  pub csv_events : List (Event Fields)
  pub json_bytes : List ℕ
  pub json_events : List (Event Element)
  pub workbook : Result Text (List Worksheet)
  pub sql_text : Text

pub data ParseError : Type 0 where
  stream_failed : Text → ParseError
  bad_root : RootError → ParseError
  bad_workbook : ExcelError → ParseError
  bad_dump : SqlError → ParseError
  -- The promise is never settled: the stream had no end and no error.
  unsettled : ParseError

pub record Parsed : Type 0 where
  pub records : List Fields
  pub exceeded : Bool
  pub table_name : Option Text

settled : Option (Outcome Fields) → Result ParseError Parsed
settled none = err unsettled
settled (some (rejected message)) = err (stream_failed message)
settled (some (resolved records exceeded)) =
    ok (record { records = records; exceeded = exceeded; table_name = none })

unfoldable pub parse_csv_bounded : List (Event Fields) → Option ℕ → Result ParseError Parsed
unfolding settled collect_bounded
parse_csv_bounded events limit = settled (collect_bounded some limit events)

-- The records among the elements of the array.
abbrev pub as_record : Element → Option Fields
as_record (object o) = some o
as_record _ = none

after_root : Result RootError (Unit {0}) → Result ParseError (Unit {0})
after_root (ok _) = ok tt
after_root (err e) = err (bad_root e)

unfoldable pub parse_json_bounded :
    List ℕ → List (Event Element) → Option ℕ → Result ParseError Parsed
unfolding settled collect_bounded assert_json_root_is_array after_root
parse_json_bounded bytes events limit = do
  _ ← after_root (assert_json_root_is_array bytes)
  settled (collect_bounded as_record limit events)

first_sheet : Result Text (List Worksheet) → Result ParseError Worksheet
first_sheet (err message) = err (bad_workbook (unreadable message))
first_sheet (ok []) = err (bad_workbook no_worksheet)
first_sheet (ok (w ∷ ws)) = ok w

unfoldable pub bounded : List Fields → Option ℕ → Parsed
bounded records limit =
    if exceeds (length records) limit
    then record { records = []; exceeded = true; table_name = none }
    else record { records = records; exceeded = false; table_name = none }

unfoldable pub parse_excel_bounded :
    Host → Result Text (List Worksheet) → Option ℕ → Result ParseError Parsed
unfolding first_sheet sheet_records bounded
parse_excel_bounded h workbook limit = do
  sheet ← first_sheet workbook
  ok (bounded (sheet_records h sheet.header sheet.rows) limit)

dump_result : Result SqlError Extracted → Result ParseError Parsed
dump_result (err e) = err (bad_dump e)
dump_result (ok x) = ok (record {
  records = if x.exceeded then [] else x.rows;
  exceeded = x.exceeded;
  table_name = some x.table_name;
})

unfoldable pub parse_sql_bounded : Host → Text → Option ℕ → Option Text → Result ParseError Parsed
unfolding extract_sql_table dump_result
parse_sql_bounded h sql_text limit sql_table =
    dump_result (extract_sql_table h sql_text sql_table limit)

unfoldable pub parse_streaming :
    Host → Source → Format → Option ℕ → Option Text → Result ParseError Parsed
unfolding parse_csv_bounded parse_json_bounded parse_excel_bounded parse_sql_bounded
parse_streaming h s csv limit sql_table = parse_csv_bounded s.csv_events limit
parse_streaming h s json limit sql_table = parse_json_bounded s.json_bytes s.json_events limit
parse_streaming h s excel limit sql_table = parse_excel_bounded h s.workbook limit
parse_streaming h s sql limit sql_table = parse_sql_bounded h s.sql_text limit sql_table
