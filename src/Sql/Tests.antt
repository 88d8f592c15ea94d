-- ===== src/Sql/Tests.antt =====
-- Runs of the SQL parser, and its theorems at inputs that meet their hypotheses.
use universal_data_onboarder.Base.{
  ◌≡◌, ◌≢◌, refl, ◌++◌, true, false, List, [], ◌∷◌, none, some, Text, codes, length, exceeds, arith,
}
use universal_data_onboarder.Base.Result.{ok, err}
use universal_data_onboarder.Value.{Value, null, str}
use universal_data_onboarder.Value.Sample.{sample_host}
use universal_data_onboarder.Sql.Lexer.{out_of_fuel, several_tables, parse_tuple, read_sql_string}
use universal_data_onboarder.Sql.Lexer.RoundTrip.{
  nothing, quoted, print_tuple, escape, read_sql_string-escape, parse_tuple-print_tuple,
}
use universal_data_onboarder.Sql.Scan.{Extracted, extract_sql_table}
use universal_data_onboarder.Sql.Scan.Extract.{extract_sql_table_total, extract_sql_table_bounded}

abbrev dump : Text
dump = codes "-- x\nINSERT INTO `emp` (`id`,name) VALUES\n (NULL,'O''Brien'), ('a;b', 'c');"

abbrev brien : List Value
brien = str (codes "O'Brien") ∷ []

abbrev extracted : Extracted
extracted = record {
  table_name = codes "emp";
  rows =
      ((codes "id", null) ∷ (codes "name", str (codes "O'Brien")) ∷ [])
      ∷ ((codes "id", str (codes "a;b")) ∷ (codes "name", str (codes "c")) ∷ [])
      ∷ [];
  exceeded = false;
}

dump_is_read : extract_sql_table sample_host dump none none ≡ ok extracted
unfolding extract_sql_table
dump_is_read = refl

two_tables :
    extract_sql_table sample_host
      (codes "insert into a.b (x) values (1);insert into c (x) values ('insert into d (e) values')")
      none
      none
    ≡ err (several_tables (codes "b" ∷ codes "c" ∷ []))
unfolding extract_sql_table
two_tables = refl

-- The rows of a statement with no columns are passed over when a later statement has columns.
rows_passed_over :
    extract_sql_table sample_host
      (codes "INSERT INTO t VALUES ('lost');INSERT INTO t (x) VALUES ('kept')")
      none
      none
    ≡ ok (record {
      table_name = codes "t";
      rows = ((codes "x", str (codes "kept")) ∷ []) ∷ [];
      exceeded = false;
    })
unfolding extract_sql_table
rows_passed_over = refl

extract_sql_table_total_example : extract_sql_table sample_host dump none (some 1) ≢ err out_of_fuel
extract_sql_table_total_example = extract_sql_table_total sample_host dump none (some 1)

extract_sql_table_bounded_example :
    (exceeds (length extracted.rows) (some 2) ≡ false)
    × (extracted.exceeded ≡ true → extracted.rows ≡ [])
unfolding extract_sql_table
extract_sql_table_bounded_example =
    extract_sql_table_bounded sample_host dump none (some 2) extracted refl

read_sql_string-escape_example :
    read_sql_string [] (escape (codes "it's \\ ok") ++ 39 ∷ codes ", 2)")
    ≡ ok (codes "it's \\ ok", codes ", 2)")
read_sql_string-escape_example =
    read_sql_string-escape (codes "it's \\ ok") [] (codes ", 2)") (omega arith)

parse_tuple-print_tuple_example :
    parse_tuple sample_host 9 [] (print_tuple (quoted (codes "a,b)")) (nothing ∷ []) ++ codes ";")
    ≡ ok (str (codes "a,b)") ∷ null ∷ [], codes ";")
parse_tuple-print_tuple_example =
    parse_tuple-print_tuple sample_host 9 [] (quoted (codes "a,b)")) (nothing ∷ []) (codes ";")
      (omega arith)
