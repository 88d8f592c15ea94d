-- ===== src/Sql/Lexer.antt =====
-- core/parsing/sqlDumpParser.js: string literals, unquoted tokens and value tuples.
--
-- The pair `(sql, i)` of the code is the rest of the text from `i`. The tuple loop takes fuel;
-- `out_of_fuel` is no error of the code.
pub mod Progress
pub mod RoundTrip
use universal_data_onboarder.Base.{
  ℕ, zero, suc, Bool, true, false, ◌&&◌, ◌||◌, ◌++◌, List, [], ◌∷◌, ◌==◌, all, length, lower, Text,
  codes, ◌===◌, map, is_space, is_digit, trim_start, trim, if◌then◌else◌,
}
use universal_data_onboarder.Base.Result.{Result, ok, err, ◌>>=◌}
use universal_data_onboarder.Value.{Value, null, num, str, Host}

-- Each of these is thrown with status code 400, but the last.
pub data SqlError : Type 0 where
  unterminated_string unterminated_tuple expected_delimiter no_inserts : SqlError
  table_not_found : Text → List Text → SqlError
  several_tables : List Text → SqlError
  no_column_names : Text → SqlError
  out_of_fuel : SqlError

-- The `switch` on the character behind a backslash.
unfoldable pub unescape : ℕ → ℕ
unescape c =
    if c == b'n'
    then 10
    else if c == b't'
    then 9
    else if c == b'r'
    then 13
    else if c == b'0'
    then 0
    else if c == b'b'
    then 8
    else if c == b'Z'
    then 26
    else c

-- `readSqlString` from behind the opening quote; `out` is what was decoded so far.
unfoldable pub read_sql_string : Text → Text → Result SqlError (Text × Text)
read_sql_string out [] = err unterminated_string
read_sql_string out (c ∷ []) =
    if c == 92
    then err unterminated_string
    else if c == 39
    then ok (out, [])
    else err unterminated_string
read_sql_string out (c ∷ d ∷ s) =
    let escaped = read_sql_string (out ++ unescape d ∷ []) s in
    let doubled = read_sql_string (out ++ 39 ∷ []) s in
    let plain = read_sql_string (out ++ c ∷ []) (d ∷ s) in
    if c == 92
    then escaped
    else if c == 39
    then (if d == 39 then doubled else ok (out, d ∷ s))
    else plain

-- `/^\d+$/`, `/^\d+(\.\d+)?$/`, `/^-?\d+(\.\d+)?$/`
all_digits : Text → Bool
all_digits [] = false
all_digits (c ∷ s) = is_digit c && all is_digit s

is_decimal : Text → Bool
is_decimal [] = false
is_decimal (c ∷ []) = is_digit c
is_decimal (c ∷ d ∷ s) =
    let longer = is_decimal (d ∷ s) in is_digit c && (if d == b'.' then all_digits s else longer)

unfoldable pub is_numeric : Text → Bool
unfolding is_decimal all_digits is_digit
is_numeric [] = false
is_numeric (c ∷ s) = if c == b'-' then is_decimal s else is_decimal (c ∷ s)

module _ (h : Host) where
  interpret_trimmed : Text → Value
  unfolding is_numeric lower ◌===◌
  interpret_trimmed [] = str []
  interpret_trimmed (c ∷ t) =
      if map lower (c ∷ t) === codes "null"
      then null
      else if is_numeric (c ∷ t)
      then num (h.number_of_text (c ∷ t))
      else str (c ∷ t)

  unfoldable pub interpret_unquoted : Text → Value
  unfolding interpret_trimmed trim
  interpret_unquoted token = interpret_trimmed (trim token)

-- The text up to the next `,` or `)`, and from there on.
unfoldable pub read_token : Text → Text × Text
read_token [] = ([], [])
read_token (c ∷ s) =
    let (token, rest) = read_token s in
    if c == b',' || c == b')' then ([], c ∷ s) else (c ∷ token, rest)

-- The end of a round: a comma goes on, a bracket ends the tuple.
pub data Delimiter : Type 0 where
  comma close : Text → Delimiter
  other : Delimiter

delimiter : Text → Delimiter
delimiter [] = other
delimiter (c ∷ s) = if c == b',' then comma s else if c == b')' then close s else other

pub data Start : Type 0 where
  closing quote : Text → Start
  token : Start

start : Text → Start
start [] = token
start (c ∷ s) = if c == b')' then closing s else if c == 39 then quote s else token

module _ (h : Host) where
  -- One value, and the text behind it.
  read_value : Text → Start → Result SqlError (Value × Text)
  unfolding read_sql_string read_token interpret_unquoted
  read_value s (quote r) = do (value, next) ← read_sql_string [] r; ok (str value, next)
  read_value s _ = let (t, r) = read_token s in ok (interpret_unquoted h t, r)

  -- What follows a value: another round, the tuple, or the error.
  after_value :
      (Text → Result SqlError (List Value × Text))
      → List Value
      → Delimiter
      → Result SqlError (List Value × Text)
  after_value again values (comma more) = again more
  after_value again values (close more) = ok (values, more)
  after_value again values other = err expected_delimiter

  -- A round behind the leading white space.
  one_value :
      (List Value → Text → Result SqlError (List Value × Text))
      → List Value
      → Text
      → Start
      → Result SqlError (List Value × Text)
  unfolding read_value after_value delimiter trim_start is_space
  one_value again values s (closing r) = ok (values, r)
  one_value again values s begin = do
    (value, r) ← read_value s begin
    after_value (again (values ++ value ∷ [])) (values ++ value ∷ []) (delimiter (trim_start r))

  -- `parseTuple`; the empty text is the test `i < n` of the outer loop.
  unfoldable pub parse_tuple : ℕ → List Value → Text → Result SqlError (List Value × Text)
  unfolding one_value start
  parse_tuple zero values s = err out_of_fuel
  parse_tuple (suc f) values [] = err unterminated_tuple
  parse_tuple (suc f) values (c ∷ s) =
      one_value (parse_tuple f) values (trim_start (c ∷ s)) (start (trim_start (c ∷ s)))
