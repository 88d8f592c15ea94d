-- ===== src/Parsing/Dispatch/Laws.antt =====
-- core/parsing/streamingParser.js: the row ceiling holds of every format.
use mathlib.Core.Path.{subst}
use universal_data_onboarder.Parsing.Excel.{sheet_records}
use universal_data_onboarder.Base.{
  ℕ, ◌≡◌, refl, true, false, List, [], ◌∷◌, map, ◌++◌, Option, none, some, length, exceeds,
  exceeds-zero, Text, arith, Bool-cases, inl, inr, if◌then◌else◌, ap, ◌∙◌,
}
use universal_data_onboarder.Base.Result.{Result, ok, err, >>=_inv, ok-injective}
use universal_data_onboarder.Value.{Fields, Host}
use universal_data_onboarder.Sql.Lexer.{SqlError}
use universal_data_onboarder.Sql.Scan.{Extracted, extract_sql_table}
use universal_data_onboarder.Sql.Scan.Extract.{extract_sql_table_bounded}
use universal_data_onboarder.Parsing.Formats.{Format, csv, json, excel, sql}
use universal_data_onboarder.Parsing.Collect.{
  Event, chunk, end_of_data, Outcome, resolved, rejected, collect_bounded,
}
use universal_data_onboarder.Parsing.Collect.Laws.{
  OutcomeFits, collect_bounded-OutcomeFits, collect_bounded-chunks, extracted,
}
use universal_data_onboarder.Parsing.JsonRoot.{assert_json_root_is_array}
use universal_data_onboarder.Parsing.Dispatch.{
  Source, Parsed, settled, parse_csv_bounded, as_record, after_root, bounded, first_sheet,
  dump_result, parse_streaming,
}

-- No more records than the limit, and none where it was passed.
abbrev pub ParsedFits : Option ℕ → Parsed → Type 0
ParsedFits limit p =
    (exceeds (length p.records) limit ≡ false) × (p.exceeded ≡ true → p.records ≡ [])

settled-ParsedFits :
    (limit : Option ℕ) (o : Option (Outcome Fields)) (p : Parsed)
    → OutcomeFits limit o
    → settled o ≡ ok p
    → ParsedFits limit p
unfolding settled
settled-ParsedFits limit none p h e = absurd (cc e)
settled-ParsedFits limit (some (rejected m)) p h e = absurd (cc e)
settled-ParsedFits limit (some (resolved rs over)) p h e = ground arith

bounded-ParsedFits :
    (records : List Fields) (limit : Option ℕ) → ParsedFits limit (bounded records limit)
unfolding bounded
bounded-ParsedFits records none = (refl, λ e. cc)
bounded-ParsedFits records (some k) = ground arith

dump_result-ParsedFits :
    (limit : Option ℕ) (r : Result SqlError Extracted) (p : Parsed)
    → ((x : Extracted)
        → r ≡ ok x
        → (exceeds (length x.rows) limit ≡ false) × (x.exceeded ≡ true → x.rows ≡ []))
    → dump_result r ≡ ok p
    → ParsedFits limit p
unfolding dump_result
dump_result-ParsedFits limit (err e) p h q = absurd (cc q)
dump_result-ParsedFits limit (ok x) p h q =
    subst (ParsedFits limit) (ok-injective q) (elim (Bool-cases x.exceeded) [
      | inl e ↦ (rw e (exceeds-zero limit), λ _. rw e)
      | inr e ↦ (rw e (h x refl).0, λ k. cc k)
    ])

-- Whatever the format and the file, a parse that succeeds holds no more records than the limit,
-- and none if it says that the limit was passed.
pub parse_streaming_bounded :
    (h : Host) (s : Source) (f : Format) (limit : Option ℕ) (sql_table : Option Text) (p : Parsed)
    → parse_streaming h s f limit sql_table ≡ ok p
    → (exceeds (length p.records) limit ≡ false) × (p.exceeded ≡ true → p.records ≡ [])
unfolding parse_streaming
parse_streaming_bounded h s csv limit t p e =
    settled-ParsedFits limit (collect_bounded some limit s.csv_events) p
      (collect_bounded-OutcomeFits some limit s.csv_events) e
parse_streaming_bounded h s json limit t p e =
    let (u, q, _) = >>=_inv (after_root (assert_json_root_is_array s.json_bytes)) _ e in
    settled-ParsedFits limit (collect_bounded as_record limit s.json_events) p
      (collect_bounded-OutcomeFits as_record limit s.json_events) q
parse_streaming_bounded h s excel limit t p e =
    let (sheet, q, _) = >>=_inv (first_sheet s.workbook) _ e in
    subst (ParsedFits limit) (ok-injective q)
      (bounded-ParsedFits (sheet_records h sheet.header sheet.rows) limit)
parse_streaming_bounded h s sql limit t p e =
    dump_result-ParsedFits limit (extract_sql_table h s.sql_text t limit) p
      (extract_sql_table_bounded h s.sql_text t limit) e

extracted-some : (rows : List Fields) → extracted some rows ≡ rows
extracted-some [] = refl
extracted-some (r ∷ rs) = ap (λ t. r ∷ t) (extracted-some rs)

-- A CSV stream of these rows, which then ends.
pub parse_csv-chunks :
    (rows : List Fields) (later : List (Event Fields)) (limit : Option ℕ)
    → parse_csv_bounded (map chunk rows ++ end_of_data ∷ later) limit
      ≡ ok (record {
        records = if exceeds (length rows) limit then [] else rows;
        exceeded = exceeds (length rows) limit;
        table_name = none;
      })
unfolding parse_csv_bounded
parse_csv-chunks rows later limit =
    rw (collect_bounded-chunks some limit rows later, extracted-some rows)
      (elim (Bool-cases (exceeds (length rows) limit)) [ inl e ↦ rw e | inr e ↦ rw e ])

pub parse_streaming-csv :
    (h : Host) (s : Source) (rows : List Fields) (later : List (Event Fields)) (limit : Option ℕ)
    (sql_table : Option Text)
    → s.csv_events ≡ map chunk rows ++ end_of_data ∷ later
    → parse_streaming h s csv limit sql_table
      ≡ ok (record {
        records = if exceeds (length rows) limit then [] else rows;
        exceeded = exceeds (length rows) limit;
        table_name = none;
      })
unfolding parse_streaming
parse_streaming-csv h s rows later limit sql_table e =
    ap (λ es. parse_csv_bounded es limit) e ∙ parse_csv-chunks rows later limit
