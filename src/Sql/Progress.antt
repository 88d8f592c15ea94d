-- ===== src/Sql/Progress.antt =====
-- core/parsing/sqlDumpParser.js: every loop of the parser moves on, so the fuel is enough.
use universal_data_onboarder.Base.{
  ℕ, suc, ◌≤◌, ◌≡◌, ◌≢◌, refl, Bool, true, false, ◌++◌, [], ◌∷◌, ◌==◌, length, Text, arith,
  trim_start, if◌then◌else◌,
}
use universal_data_onboarder.Base.Result.{Result, ok, err, ◌>>=◌}
use universal_data_onboarder.Sql.Lexer.{
  SqlError, unterminated_string, unterminated_tuple, expected_delimiter, no_inserts,
  table_not_found, several_tables, no_column_names, out_of_fuel, read_sql_string, unescape,
  read_token,
}

-- A result that is no lack of fuel, and whose value satisfies `P`.
abbrev pub Returns : {A : Type 0} → (A → Type 0) → Result SqlError A → Type 0
Returns P (ok a) = P a
Returns P (err out_of_fuel) = ⊥
Returns P (err _) = Unit

pub Returns-bind :
    {A B : Type 0} (P : A → Type 0) (Q : B → Type 0) (m : Result SqlError A)
    (f : A → Result SqlError B)
    → Returns P m
    → ((a : A) → P a → Returns Q (f a))
    → Returns Q (m >>= f)
Returns-bind P Q (ok a) f h k = k a h
Returns-bind P Q (err out_of_fuel) f h k = h
Returns-bind P Q (err unterminated_string) f h k = tt
Returns-bind P Q (err unterminated_tuple) f h k = tt
Returns-bind P Q (err expected_delimiter) f h k = tt
Returns-bind P Q (err no_inserts) f h k = tt
Returns-bind P Q (err (table_not_found _ _)) f h k = tt
Returns-bind P Q (err (several_tables _)) f h k = tt
Returns-bind P Q (err (no_column_names _)) f h k = tt

pub Returns-if :
    {A : Type 0} (P : A → Type 0) (b : Bool) (m n : Result SqlError A)
    → Returns P m
    → Returns P n
    → Returns P (if b then m else n)
Returns-if P true m n h k = h
Returns-if P false m n h k = k

pub Returns-ne_fuel :
    {A : Type 0} (P : A → Type 0) (m : Result SqlError A) → Returns P m → m ≢ err out_of_fuel
Returns-ne_fuel P (ok a) h e = cc
Returns-ne_fuel P (err out_of_fuel) h e = h
Returns-ne_fuel P (err unterminated_string) h e = cc
Returns-ne_fuel P (err unterminated_tuple) h e = cc
Returns-ne_fuel P (err expected_delimiter) h e = cc
Returns-ne_fuel P (err no_inserts) h e = cc
Returns-ne_fuel P (err (table_not_found _ _)) h e = cc
Returns-ne_fuel P (err (several_tables _)) h e = cc
Returns-ne_fuel P (err (no_column_names _)) h e = cc

-- The text that is left is no longer than `n`.
abbrev pub Leaves : {A : Type 0} → ℕ → A × Text → Type 0
Leaves n p = length p.1 ≤ n

pub Returns-weaken :
    {A : Type 0} (m n : ℕ) (r : Result SqlError (A × Text))
    → m ≤ n
    → Returns (Leaves m) r
    → Returns (Leaves n) r
Returns-weaken m n (ok a) h k = omega arith
Returns-weaken m n (err out_of_fuel) h k = k
Returns-weaken m n (err unterminated_string) h k = tt
Returns-weaken m n (err unterminated_tuple) h k = tt
Returns-weaken m n (err expected_delimiter) h k = tt
Returns-weaken m n (err no_inserts) h k = tt
Returns-weaken m n (err (table_not_found _ _)) h k = tt
Returns-weaken m n (err (several_tables _)) h k = tt
Returns-weaken m n (err (no_column_names _)) h k = tt

pub length-trim_start : (s : Text) → length (trim_start s) ≤ length s
unfolding trim_start
length-trim_start [] = omega arith
length-trim_start (c ∷ s) = ground (arith, length-trim_start s)

pub read_sql_string-Returns : (out s : Text) → Returns (Leaves (length s)) (read_sql_string out s)
unfolding read_sql_string
read_sql_string-Returns out [] = tt
read_sql_string-Returns out (c ∷ []) =
    Returns-if (Leaves 1) (c == 92) _ _ tt (Returns-if (Leaves 1) (c == 39) _ _ (omega arith) tt)
read_sql_string-Returns out (c ∷ d ∷ s) =
    let n : ℕ = suc (suc (length s)) in
    Returns-if (Leaves n) (c == 92) _ _
      (Returns-weaken (length s) n (read_sql_string (out ++ unescape d ∷ []) s) (omega arith)
        (read_sql_string-Returns (out ++ unescape d ∷ []) s))
      (Returns-if (Leaves n) (c == 39) _ _
        (Returns-if (Leaves n) (d == 39) _ _
          (Returns-weaken (length s) n (read_sql_string (out ++ 39 ∷ []) s) (omega arith)
            (read_sql_string-Returns (out ++ 39 ∷ []) s))
          (omega arith))
        (Returns-weaken (suc (length s)) n (read_sql_string (out ++ c ∷ []) (d ∷ s)) (omega arith)
          (read_sql_string-Returns (out ++ c ∷ []) (d ∷ s))))

pub length-read_token : (s : Text) → length (read_token s).1 ≤ length s
unfolding read_token
length-read_token [] = omega arith
length-read_token (c ∷ s) = ground (arith, length-read_token s)

-- A split on a test, with its outcome.
pub Returns-split :
    {A : Type 0} (P : A → Type 0) (b : Bool) (m n : Result SqlError A)
    → (b ≡ true → Returns P m)
    → (b ≡ false → Returns P n)
    → Returns P (if b then m else n)
Returns-split P true m n h k = h refl
Returns-split P false m n h k = k refl
