-- ===== src/Sql/Scan/Extract.antt =====
-- core/parsing/sqlDumpParser.js: what `extractSqlTable` returns.
use universal_data_onboarder.Base.{
  ℕ, ◌≡◌, ◌≢◌, true, false, not, ◌&&◌, List, [], ◌∷◌, Option, none, some, length, exceeds, Text,
  includes, Bool-cases, inl, inr,
}
use universal_data_onboarder.Base.Result.{ok, err}
use universal_data_onboarder.Value.{Host}
use universal_data_onboarder.Sql.Lexer.{out_of_fuel}
use universal_data_onboarder.Sql.Progress.{Returns, Returns-bind, Returns-ne_fuel, Returns-split}
use universal_data_onboarder.Sql.Scan.{
  Scan, list_sql_tables, choose_table, scan_sql_dump, checked, Extracted, extract_sql_table,
}
use universal_data_onboarder.Sql.Scan.Bounds.{scan_sql_dump-Returns, Sound, IsBounded}

-- No more rows than the limit, and none once it was passed.
abbrev pub IsWithin : Option ℕ → Extracted → Type 0
IsWithin limit x = IsBounded limit x.rows × (x.exceeded ≡ true → x.rows ≡ [])

choose_table-Returns :
    (t : Option Text) (names : List Text) → Returns (λ _. Unit {0}) (choose_table t names)
unfolding choose_table
choose_table-Returns t [] = tt
choose_table-Returns none (n ∷ []) = tt
choose_table-Returns none (n ∷ m ∷ ns) = tt
choose_table-Returns (some []) (n ∷ []) = tt
choose_table-Returns (some []) (n ∷ m ∷ ns) = tt
choose_table-Returns (some (c ∷ raw)) (n ∷ ns) =
    Returns-split (λ _. Unit {0}) (includes (n ∷ ns) _) _ _ (λ _. tt) (λ _. tt)

checked-Returns :
    (h : Host) (limit : Option ℕ) (name : Text) (sc : Scan)
    → Sound h limit sc
    → Returns (IsWithin limit) (checked name sc)
unfolding checked
checked-Returns h limit name sc s =
    Returns-split (IsWithin limit) (not sc.exceeded && not sc.target_had_columns) _ _ (λ _. tt)
      (λ _. elim (Bool-cases sc.exceeded) [
        | inl e ↦ (rw (← s.1 e) (rw e s.0), λ _. rw e)
        | inr e ↦ (rw e s.0, λ p. cc p)
      ])

list_sql_tables-Returns : (h : Host) (sql : Text) → Returns (λ _. Unit {0}) (list_sql_tables h sql)
unfolding list_sql_tables
list_sql_tables-Returns h sql =
    Returns-bind (Sound h none) (λ _. Unit {0}) (scan_sql_dump h none none sql) _
      (scan_sql_dump-Returns h none none sql) (λ sc _. tt)

pub extract_sql_table-Returns :
    (h : Host) (sql : Text) (sql_table : Option Text) (limit : Option ℕ)
    → Returns (IsWithin limit) (extract_sql_table h sql sql_table limit)
unfolding extract_sql_table
extract_sql_table-Returns h sql sql_table limit =
    Returns-bind (λ _. Unit {0}) (IsWithin limit) (list_sql_tables h sql) _
      (list_sql_tables-Returns h sql)
      (λ ns _.
        Returns-bind (λ _. Unit {0}) (IsWithin limit) (choose_table sql_table ns) _
          (choose_table-Returns sql_table ns)
          (λ name _.
            Returns-bind (Sound h limit) (IsWithin limit) (scan_sql_dump h (some name) limit sql) _
              (scan_sql_dump-Returns h (some name) limit sql)
              (λ sc s. checked-Returns h limit name sc s)))

-- `extractSqlTable` ends on every text: the fuel that its loops are given is enough.
pub extract_sql_table_total :
    (h : Host) (sql : Text) (sql_table : Option Text) (limit : Option ℕ)
    → extract_sql_table h sql sql_table limit ≢ err out_of_fuel
extract_sql_table_total h sql sql_table limit =
    Returns-ne_fuel (IsWithin limit) (extract_sql_table h sql sql_table limit)
      (extract_sql_table-Returns h sql sql_table limit)

-- A result never holds more rows than the limit, and holds none when the limit was passed.
pub extract_sql_table_bounded :
    (h : Host) (sql : Text) (sql_table : Option Text) (limit : Option ℕ) (x : Extracted)
    → extract_sql_table h sql sql_table limit ≡ ok x
    → (exceeds (length x.rows) limit ≡ false) × (x.exceeded ≡ true → x.rows ≡ [])
extract_sql_table_bounded h sql sql_table limit x e =
    rw e at (extract_sql_table-Returns h sql sql_table limit)
