-- ===== src/Sql/Scan.antt =====
-- core/parsing/sqlDumpParser.js: the walk over a dump's INSERT statements, and the choice of the
-- table.
--
-- `INSERT_PREFIX` is written out as a matcher. None of its parts can give back what it took and
-- still match (a table name holds no space and no bracket), so it needs no backtracking. A target
-- table with an empty name, for which `rows` is null in the code and a push to it throws, is
-- collected like any other.
pub mod Progress
pub mod Bounds
pub mod Extract
use universal_data_onboarder.Base.{
  ℕ, zero, suc, Bool, true, false, not, ◌&&◌, ◌||◌, ◌++◌, List, [], ◌∷◌, Option, none, some, ◌==◌,
  length, exceeds, lower, Text, codes, ◌===◌, includes, is_space, trim_start, if◌then◌else◌,
}
use universal_data_onboarder.Base.Result.{Result, ok, err, ◌>>=◌}
use universal_data_onboarder.Base.Dict.{put}
use universal_data_onboarder.Value.{Value, null, Fields, Host}
use universal_data_onboarder.Sql.Ident.{unquote_ident, split_columns}
use universal_data_onboarder.Sql.Lexer.{
  SqlError, no_inserts, table_not_found, several_tables, no_column_names, out_of_fuel, parse_tuple,
}

-- The text behind a keyword, in any case.
keyword : Text → Text → Option Text
unfolding lower
keyword [] s = some s
keyword (k ∷ ks) [] = none
keyword (k ∷ ks) (c ∷ s) = let rest = keyword ks s in if k == lower c then rest else none

-- `\s+`
spaces : Text → Option Text
unfolding is_space trim_start
spaces [] = none
spaces (c ∷ s) = if is_space c then some (trim_start s) else none

-- `[^\s(]*`, and what is behind it.
unfoldable pub read_name : Text → Text × Text
unfolding is_space
read_name [] = ([], [])
read_name (c ∷ s) =
    let (name, rest) = read_name s in
    if is_space c || c == b'(' then ([], c ∷ s) else (c ∷ name, rest)

-- `[^)]*\)`, and what is behind it.
unfoldable pub read_columns : Text → Option (Text × Text)
read_columns [] = none
read_columns (c ∷ s) =
    let more = read_columns s in
    if c == b')'
    then some ([], s)
    else elim more [ none ↦ none | some (cols, r) ↦ some (c ∷ cols, r) ]

infixl 5 ◌>=>◌
abbrev ◌>=>◌ {ℓ κ} : {A : Type ℓ} {B : Type κ} → Option A → (A → Option B) → Option B
none >=> f = none
some a >=> f = f a

-- A match of `INSERT_PREFIX`: both groups, and the text from `lastIndex`.
pub record Prefix : Type 0 where
  pub table : Text
  pub columns : Option Text
  pub rest : Text

-- `\s+VALUES` behind the name and the columns.
values_prefix : Text → Option Text → Text → Option Prefix
unfolding keyword spaces
values_prefix name cols s = spaces s >=> (λ t.
    keyword (codes "values") t >=> (λ u. some (record { table = name; columns = cols; rest = u })))

-- `(?:\(([^)]*)\))?\s+VALUES` behind the name and the white space `\s*`; the text `s` is that
-- from the end of the name, which holds the white space still.
bracketed : Text → Text → Text → Option Prefix
unfolding values_prefix read_columns
bracketed name s [] = none
bracketed name s (c ∷ r) =
    if c == b'('
    then read_columns r >=> (λ p. values_prefix name (some p.0) p.1)
    else values_prefix name none s

columns_then_values : Text → Text → Option Prefix
unfolding bracketed trim_start is_space
columns_then_values name s = bracketed name s (trim_start s)

named_prefix : Text × Text → Option Prefix
unfolding columns_then_values
named_prefix ([], s) = none
named_prefix (c ∷ name, s) = columns_then_values (c ∷ name) s

match_prefix : Text → Option Prefix
unfolding keyword spaces read_name named_prefix
match_prefix s = keyword (codes "insert") s >=> (λ a.
    spaces a
    >=> (λ b. keyword (codes "into") b >=> (λ c. spaces c >=> (λ d. named_prefix (read_name d)))))

or_else : Option Prefix → Option Prefix → Option Prefix
or_else none later = later
or_else (some p) later = some p

-- `INSERT_PREFIX.exec(sql)` from `lastIndex`: the first match.
unfoldable pub exec : Text → Option Prefix
unfolding match_prefix or_else
exec [] = none
exec (c ∷ s) = or_else (match_prefix (c ∷ s)) (exec s)

-- `columns.forEach((col, idx) => { row[col] = … })`
unfoldable pub make_row : List Text → List Value → Fields → Fields
unfolding put
make_row [] values row = row
make_row (col ∷ cols) [] row = make_row cols [] (put row col null)
make_row (col ∷ cols) (v ∷ values) row = make_row cols values (put row col v)

pub record Scan : Type 0 where
  pub table_names : List Text
  pub rows : List Fields
  pub target_had_columns : Bool
  pub exceeded : Bool

-- `while (i < n && (WS.test(sql[i]) || sql[i] === ",")) i += 1`
pub skip_separators : Text → Text
unfolding is_space
skip_separators [] = []
skip_separators (c ∷ s) =
    let rest = skip_separators s in if is_space c || c == b',' then rest else c ∷ s

-- What the tuple loop of one statement leaves: the rows, whether the limit was passed, and the
-- text from `i`.
abbrev Walked : Type 0
Walked = List Fields × Bool × Text

-- Where the loop stands behind the separators: at a `;`, at a tuple, or at its end.
pub data Ahead : Type 0 where
  semicolon tuple : Text → Ahead
  stop : Ahead

pub ahead : Text → Ahead
ahead [] = stop
ahead (c ∷ s) = if c == b';' then semicolon s else if c == b'(' then tuple s else stop

module _ (h : Host) (limit : Option ℕ) where
  -- The row of one tuple, and the test of the limit; no row where the columns are `none`.
  add_row :
      (List Fields → Text → Result SqlError Walked)
      → Option (List Text)
      → List Fields
      → List Value × Text
      → Result SqlError Walked
  unfolding make_row
  add_row again none rows (values, next) = again rows next
  add_row again (some names) rows (values, next) =
      let grown = rows ++ make_row names values [] ∷ [] in
      let more = again grown next in
      if exceeds (length grown) limit then ok ([], true, next) else more

  -- One round of the tuple loop, behind the separators.
  walk_at :
      (List Fields → Text → Result SqlError Walked)
      → Option (List Text)
      → List Fields
      → Text
      → Ahead
      → Result SqlError Walked
  unfolding parse_tuple add_row
  walk_at again cols rows s stop = ok (rows, false, s)
  walk_at again cols rows s (semicolon r) = ok (rows, false, r)
  walk_at again cols rows s (tuple r) =
      parse_tuple h (suc (length r)) [] r >>= add_row again cols rows

  -- The tuples of a statement; `cols` is `none` unless its rows are collected.
  walk : ℕ → Option (List Text) → List Fields → Text → Result SqlError Walked
  unfolding walk_at skip_separators ahead
  walk zero cols rows s = err out_of_fuel
  walk (suc f) cols rows s =
      walk_at (walk f cols) cols rows (skip_separators s) (ahead (skip_separators s))

add_name : List Text → Text → List Text
unfolding ◌===◌
add_name names name = if includes names name then names else names ++ name ∷ []

-- `columns != null && columns.length > 0`, and the columns where it holds.
usable_columns : Option Text → Option (List Text)
unfolding split_columns
usable_columns none = none
usable_columns (some raw) = elim (split_columns raw) [ [] ↦ none | c ∷ cs ↦ some (c ∷ cs) ]

is_target : Option Text → Text → Bool
unfolding ◌===◌
is_target none name = false
is_target (some target) name = name === target

abbrev has_columns : Option (List Text) → Bool
has_columns none = false
has_columns (some cols) = true

module _ (h : Host) (target : Option Text) (limit : Option ℕ) where
  -- The columns under which a statement's rows are collected.
  collect_columns : Prefix → Option (List Text)
  unfolding is_target usable_columns unquote_ident
  collect_columns p =
      if is_target target (unquote_ident p.table) then usable_columns p.columns else none

  enter : Scan → Prefix → Scan
  unfolding is_target usable_columns unquote_ident add_name
  enter sc p = record sc {
    table_names = add_name sc.table_names (unquote_ident p.table);
    target_had_columns =
        if is_target target (unquote_ident p.table)
        then has_columns (usable_columns p.columns)
        else sc.target_had_columns;
  }

  -- The state behind a statement: back to `exec`, or the early return.
  after_statement :
      (Scan → Text → Result SqlError Scan) → Scan → Prefix → Walked → Result SqlError Scan
  unfolding enter
  after_statement again sc p (rows, stopped, next) =
      let sc' : Scan = record (enter sc p) { rows = rows; exceeded = stopped } in
      let more = again sc' next in if stopped then ok sc' else more

  scan_at : (Scan → Text → Result SqlError Scan) → Scan → Option Prefix → Result SqlError Scan
  unfolding walk collect_columns after_statement
  scan_at again sc none = ok sc
  scan_at again sc (some p) =
      walk h limit (suc (length p.rest)) (collect_columns p) sc.rows p.rest
      >>= after_statement again sc p

  scan_from : ℕ → Scan → Text → Result SqlError Scan
  unfolding exec scan_at
  scan_from zero sc s = err out_of_fuel
  scan_from (suc f) sc s = scan_at (scan_from f) sc (exec s)

  -- `scanSqlDump`. Without a target no row is collected, where the code has `rows: null`.
  unfoldable pub scan_sql_dump : Text → Result SqlError Scan
  unfolding scan_from
  scan_sql_dump sql =
      scan_from (suc (length sql))
        (record { table_names = []; rows = []; target_had_columns = false; exceeded = false }) sql

unfoldable pub list_sql_tables : Host → Text → Result SqlError (List Text)
unfolding scan_sql_dump
list_sql_tables h sql = do sc ← scan_sql_dump h none none sql; ok sc.table_names

-- The table to import: the one that is named, or the only one.
unfoldable pub choose_table : Option Text → List Text → Result SqlError Text
unfolding unquote_ident ◌===◌
choose_table sql_table [] = err no_inserts
choose_table (some (c ∷ raw)) (t ∷ ts) =
    let name = unquote_ident (c ∷ raw) in
    if includes (t ∷ ts) name then ok name else err (table_not_found name (t ∷ ts))
choose_table _ (t ∷ []) = ok t
choose_table _ (t ∷ u ∷ ts) = err (several_tables (t ∷ u ∷ ts))

pub record Extracted : Type 0 where
  pub table_name : Text
  pub rows : List Fields
  pub exceeded : Bool

checked : Text → Scan → Result SqlError Extracted
checked name sc =
    if not sc.exceeded && not sc.target_had_columns
    then err (no_column_names name)
    else ok (record {
      table_name = name;
      rows = if sc.exceeded then [] else sc.rows;
      exceeded = sc.exceeded;
    })

-- `extractSqlTable`; `none` for the limit is `Infinity`.
unfoldable pub extract_sql_table : Host → Text → Option Text → Option ℕ → Result SqlError Extracted
unfolding list_sql_tables choose_table scan_sql_dump checked
extract_sql_table h sql sql_table limit = do
  names ← list_sql_tables h sql
  name ← choose_table sql_table names
  sc ← scan_sql_dump h (some name) limit sql
  checked name sc
