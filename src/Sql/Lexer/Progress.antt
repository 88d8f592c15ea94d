-- ===== src/Sql/Lexer/Progress.antt =====
-- core/parsing/sqlDumpParser.js: `parseTuple` ends within its fuel.
use universal_data_onboarder.Base.{
  ℕ, zero, suc, ◌≤◌, ◌<◌, ◌++◌, List, [], ◌∷◌, length, Text, arith, trim_start,
}
use universal_data_onboarder.Base.Result.{Result}
use universal_data_onboarder.Value.{Value, Host}
use universal_data_onboarder.Sql.Lexer.{
  SqlError, read_sql_string, parse_tuple, Start, closing, quote, token, start, Delimiter, comma,
  close, other, delimiter, read_value, after_value, one_value,
}
use universal_data_onboarder.Sql.Progress.{
  Returns, Returns-bind, Leaves, Returns-weaken, length-trim_start, read_sql_string-Returns,
  length-read_token,
}

-- What a start holds is shorter than the text that it was read from.
abbrev StartFits : ℕ → Start → Type 0
StartFits n (closing r) = length r < n
StartFits n (quote r) = length r < n
StartFits n token = Unit

start-fits : (s : Text) → StartFits (length s) (start s)
unfolding start
start-fits [] = tt
start-fits (c ∷ s) = ground arith

abbrev DelimiterFits : ℕ → Delimiter → Type 0
DelimiterFits n (comma r) = length r < n
DelimiterFits n (close r) = length r < n
DelimiterFits n other = Unit

delimiter-fits : (s : Text) → DelimiterFits (length s) (delimiter s)
unfolding delimiter
delimiter-fits [] = tt
delimiter-fits (c ∷ s) = ground arith

read_value-Returns :
    (h : Host) (s : Text) (st : Start)
    → StartFits (length s) st
    → Returns (Leaves (length s)) (read_value h s st)
unfolding read_value
read_value-Returns h s (quote r) fits =
    Returns-bind (Leaves (length r)) (Leaves (length s)) (read_sql_string [] r) _
      (read_sql_string-Returns [] r) (λ (value, next) k. omega arith)
read_value-Returns h s (closing r) fits = length-read_token s
read_value-Returns h s token fits = length-read_token s

module _ (h : Host) (n : ℕ) where
  after_value-Returns :
      (go : Text → Result SqlError (List Value × Text)) (values : List Value) (d : Delimiter)
      → ((s : Text) → length s < n → Returns (Leaves n) (go s))
      → DelimiterFits n d
      → Returns (Leaves n) (after_value h go values d)
  unfolding after_value
  after_value-Returns go values (comma more) ih fits = ih more fits
  after_value-Returns go values (close more) ih fits = omega arith
  after_value-Returns go values other ih fits = tt

DelimiterFits-weaken : (m n : ℕ) (d : Delimiter) → m ≤ n → DelimiterFits m d → DelimiterFits n d
DelimiterFits-weaken m n (comma r) le fits = omega arith
DelimiterFits-weaken m n (close r) le fits = omega arith
DelimiterFits-weaken m n other le fits = tt

module _ (h : Host) (again : List Value → Text → Result SqlError (List Value × Text)) (n : ℕ) where
  -- The value that was read leaves no more than `n`, so the delimiter's rest is shorter.
  rest_fits : (r : Text) → length r ≤ n → DelimiterFits n (delimiter (trim_start r))
  rest_fits r le =
      DelimiterFits-weaken (length (trim_start r)) n (delimiter (trim_start r))
        (omega (arith, length-trim_start r)) (delimiter-fits (trim_start r))

  one_value-Returns :
      (values : List Value) (s : Text) (st : Start)
      → ((vs : List Value) (s : Text) → length s < n → Returns (Leaves n) (again vs s))
      → length s ≤ n
      → StartFits (length s) st
      → Returns (Leaves n) (one_value h again values s st)
  unfolding one_value
  one_value-Returns values s (closing r) ih le fits = omega arith
  one_value-Returns values s (quote q) ih le fits =
      Returns-bind (Leaves (length s)) (Leaves n) (read_value h s (quote q)) _
        (read_value-Returns h s (quote q) fits)
        (λ (value, r) k.
          after_value-Returns h n (again (values ++ value ∷ [])) (values ++ value ∷ [])
            (delimiter (trim_start r)) (ih (values ++ value ∷ [])) (rest_fits r (omega arith)))
  one_value-Returns values s token ih le fits =
      Returns-bind (Leaves (length s)) (Leaves n) (read_value h s token) _
        (read_value-Returns h s token fits)
        (λ (value, r) k.
          after_value-Returns h n (again (values ++ value ∷ [])) (values ++ value ∷ [])
            (delimiter (trim_start r)) (ih (values ++ value ∷ [])) (rest_fits r (omega arith)))

-- With more fuel than text the loop ends, and leaves no more text than it was given.
pub parse_tuple-Returns :
    (h : Host) (f : ℕ) (values : List Value) (s : Text)
    → length s < f
    → Returns (Leaves (length s)) (parse_tuple h f values s)
unfolding parse_tuple
parse_tuple-Returns h zero values s lt = absurd (omega arith)
parse_tuple-Returns h (suc f) values [] lt = tt
parse_tuple-Returns h (suc f) values (c ∷ s) lt =
    one_value-Returns h (parse_tuple h f) (suc (length s)) values (trim_start (c ∷ s))
      (start (trim_start (c ∷ s)))
      (λ vs t k.
        Returns-weaken (length t) (suc (length s)) (parse_tuple h f vs t) (omega arith)
          (parse_tuple-Returns h f vs t (omega arith)))
      (omega (arith, length-trim_start (c ∷ s))) (start-fits (trim_start (c ∷ s)))
