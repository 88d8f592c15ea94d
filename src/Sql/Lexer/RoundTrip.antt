-- ===== src/Sql/Lexer/RoundTrip.antt =====
-- core/parsing/sqlDumpParser.js: what a dump writes, the parser reads back.
use universal_data_onboarder.Base.{
  ℕ, zero, suc, ◌<◌, ◌≡◌, ◌≢◌, refl, ◌++◌, List, [], ◌∷◌, Text, codes, length, ◌==◌, arith,
  if◌then◌else◌, append_assoc, append-nil, map, ◌∙◌, ap, Bool-cases, inl, inr,
}
use universal_data_onboarder.Base.Result.{ok}
use universal_data_onboarder.Value.{Value, null, str, Host}
use universal_data_onboarder.Sql.Lexer.{read_sql_string, unescape, parse_tuple}

-- How mysqldump writes a text between quotes: quotes doubled, backslashes too.
abbrev pub escape : Text → Text
escape [] = []
escape (c ∷ s) =
    let rest = escape s in
    if c == 39 then 39 ∷ 39 ∷ rest else if c == 92 then 92 ∷ 92 ∷ rest else c ∷ rest

abbrev pub StartsWithout : ℕ → Text → Type 0
StartsWithout c [] = Unit
StartsWithout c (d ∷ s) = d ≢ c

read-plain :
    (out : Text) (c : ℕ) (t : Text)
    → c ≢ 39
    → c ≢ 92
    → read_sql_string out (c ∷ t) ≡ read_sql_string (out ++ c ∷ []) t
unfolding read_sql_string
read-plain out c [] p q = ground arith
read-plain out c (d ∷ t) p q = ground arith

-- A quoted text is read back whole, up to its closing quote, if no quote follows that one.
pub read_sql_string-escape :
    (s out rest : Text)
    → StartsWithout 39 rest
    → read_sql_string out (escape s ++ 39 ∷ rest) ≡ ok (out ++ s, rest)
unfolding read_sql_string unescape
read_sql_string-escape [] out [] h = rw append-nil
read_sql_string-escape [] out (d ∷ rest) h = rw append-nil (ground arith)
read_sql_string-escape (c ∷ s) out rest h = elim (Bool-cases (c == 39)) [
  | inl e ↦
      (let e' : c ≡ 39 = ground arith in
        rw e' (
          read_sql_string-escape s (out ++ 39 ∷ []) rest h
          ∙ ap (λ t. ok (t, rest)) (append_assoc out (39 ∷ []) s)))
  | inr n ↦ elim (Bool-cases (c == 92)) [
    | inl e ↦
        (let e' : c ≡ 92 = ground arith in
          rw e' (
            read_sql_string-escape s (out ++ 92 ∷ []) rest h
            ∙ ap (λ t. ok (t, rest)) (append_assoc out (92 ∷ []) s)))
    | inr m ↦
        rw (n, m)
          (read-plain out c (escape s ++ 39 ∷ rest) (ground arith) (ground arith)
            ∙ read_sql_string-escape s (out ++ c ∷ []) rest h
            ∙ ap (λ t. ok (t, rest)) (append_assoc out (c ∷ []) s))
  ]
]

-- A literal of a dump: NULL, or a quoted text.
pub data Literal : Type 0 where
  nothing : Literal
  quoted : Text → Literal

abbrev pub value_of : Literal → Value
value_of nothing = null
value_of (quoted s) = str s

abbrev pub print_literal : Literal → Text
print_literal nothing = codes "NULL"
print_literal (quoted s) = 39 ∷ escape s ++ 39 ∷ []

-- The values with commas between them, and the closing bracket.
abbrev pub print_tuple : Literal → List Literal → Text
print_tuple l [] = print_literal l ++ b')' ∷ []
print_tuple l (m ∷ ls) = print_literal l ++ b',' ∷ print_tuple m ls

escape_then :
    (s t : Text) (d : ℕ)
    → d ≢ 39
    → read_sql_string [] ((escape s ++ 39 ∷ []) ++ d ∷ t) ≡ ok (s, d ∷ t)
escape_then s t d h =
    rw (append_assoc (escape s) (39 ∷ []) (d ∷ t)) (read_sql_string-escape s [] (d ∷ t) h)

module _ (h : Host) where
  parse-literal_comma :
      (f : ℕ) (values : List Value) (l : Literal) (t : Text)
      → parse_tuple h (suc f) values (print_literal l ++ b',' ∷ t)
        ≡ parse_tuple h f (values ++ value_of l ∷ []) t
  unfolding parse_tuple
  parse-literal_comma f values nothing t = refl
  parse-literal_comma f values (quoted s) t = rw (escape_then s t b',' (omega arith))

  parse-literal_close :
      (f : ℕ) (values : List Value) (l : Literal) (t : Text)
      → parse_tuple h (suc f) values (print_literal l ++ b')' ∷ t)
        ≡ ok (values ++ value_of l ∷ [], t)
  unfolding parse_tuple
  parse-literal_close f values nothing t = refl
  parse-literal_close f values (quoted s) t = rw (escape_then s t b')' (omega arith))

  -- The values of a printed tuple are read back in order, whatever follows it: the texts with
  -- their quotes, backslashes, commas and brackets, and NULL as null.
  pub parse_tuple-print_tuple :
      (f : ℕ) (values : List Value) (l : Literal) (ls : List Literal) (rest : Text)
      → length ls < f
      → parse_tuple h f values (print_tuple l ls ++ rest)
        ≡ ok (values ++ map value_of (l ∷ ls), rest)
  parse_tuple-print_tuple zero values l ls rest lt = absurd (omega arith)
  parse_tuple-print_tuple (suc f) values l [] rest lt =
      rw (append_assoc (print_literal l) (b')' ∷ []) rest) (parse-literal_close f values l rest)
  parse_tuple-print_tuple (suc f) values l (m ∷ ls) rest lt =
      rw (append_assoc (print_literal l) (b',' ∷ print_tuple m ls) rest) (
        parse-literal_comma f values l (print_tuple m ls ++ rest)
        ∙ parse_tuple-print_tuple f (values ++ value_of l ∷ []) m ls rest (omega arith)
        ∙ ap (λ vs. ok (vs, rest)) (append_assoc values (value_of l ∷ []) (map value_of (m ∷ ls))))
