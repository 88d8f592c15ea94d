-- ===== src/Sql/Scan/Bounds.antt =====
-- core/parsing/sqlDumpParser.js: the scan ends within its fuel, and never holds more rows than
-- the limit when it returns.
use universal_data_onboarder.Base.{
  ℕ, zero, suc, ◌≤◌, ◌<◌, ◌≡◌, refl, true, false, ◌++◌, List, [], ◌∷◌, Option, none, some, length,
  exceeds, exceeds-zero, Text, arith,
}
use universal_data_onboarder.Base.Result.{Result, ok, err, ◌>>=◌}
use universal_data_onboarder.Value.{Value, Fields, Host}
use universal_data_onboarder.Sql.Lexer.{SqlError, parse_tuple}
use universal_data_onboarder.Sql.Lexer.Progress.{parse_tuple-Returns}
use universal_data_onboarder.Sql.Progress.{Returns, Returns-bind, Returns-if, Returns-split, Leaves}
use universal_data_onboarder.Sql.Scan.{
  Walked, Ahead, semicolon, tuple, stop, add_row, walk_at, walk, skip_separators, ahead, make_row,
  Scan, Prefix, exec, collect_columns, enter, after_statement, scan_at, scan_from, scan_sql_dump,
}
use universal_data_onboarder.Sql.Scan.Progress.{
  Gives, exec-Gives, length-skip_separators, AheadFits, ahead-fits,
}

-- No more rows than the limit.
abbrev pub IsBounded : Option ℕ → List Fields → Type 0
IsBounded limit rows = exceeds (length rows) limit ≡ false

module _ (h : Host) (limit : Option ℕ) where
  -- What one statement leaves: bounded rows, none of them once the limit was passed, and no more
  -- text than `n`.
  abbrev Kept : ℕ → Walked → Type 0
  Kept n w = IsBounded limit w.0 × (w.1 ≡ true → w.0 ≡ []) × (length w.2 ≤ n)

  add_row-Returns :
      (again : List Fields → Text → Result SqlError Walked) (cols : Option (List Text))
      (rows : List Fields) (values : List Value) (next : Text) (n : ℕ)
      → ((rows : List Fields) (s : Text)
          → IsBounded limit rows
          → length s < n
          → Returns (Kept n) (again rows s))
      → IsBounded limit rows
      → length next < n
      → Returns (Kept n) (add_row h limit again cols rows (values, next))
  unfolding add_row
  add_row-Returns again none rows values next n ih b lt = ih rows next b lt
  add_row-Returns again (some names) rows values next n ih b lt =
      Returns-split (Kept n) (exceeds (length (rows ++ make_row names values [] ∷ [])) limit) _ _
        (λ _. (exceeds-zero limit, λ _. refl, omega arith))
        (λ e. ih (rows ++ make_row names values [] ∷ []) next e lt)

  walk_at-Returns :
      (again : List Fields → Text → Result SqlError Walked) (cols : Option (List Text))
      (rows : List Fields) (s : Text) (a : Ahead) (n : ℕ)
      → ((rows : List Fields) (s : Text)
          → IsBounded limit rows
          → length s < n
          → Returns (Kept n) (again rows s))
      → IsBounded limit rows
      → length s ≤ n
      → AheadFits (length s) a
      → Returns (Kept n) (walk_at h limit again cols rows s a)
  unfolding walk_at
  walk_at-Returns again cols rows s stop n ih b le fits = (b, λ e. cc, le)
  walk_at-Returns again cols rows s (semicolon r) n ih b le fits = (b, λ e. cc, omega arith)
  walk_at-Returns again cols rows s (tuple r) n ih b le fits =
      Returns-bind (Leaves (length r)) (Kept n) (parse_tuple h (suc (length r)) [] r) _
        (parse_tuple-Returns h (suc (length r)) [] r (omega arith))
        (λ (values, next) k. add_row-Returns again cols rows values next n ih b (omega arith))

  Kept-weaken : (m n : ℕ) (w : Walked) → m ≤ n → Kept m w → Kept n w
  Kept-weaken m n w le (b, e, l) = (b, e, omega arith)

  Returns-Kept-weaken :
      (m n : ℕ) (r : Result SqlError Walked) → m ≤ n → Returns (Kept m) r → Returns (Kept n) r
  Returns-Kept-weaken m n r le k =
      rw (← bind_ok r) (Returns-bind (Kept m) (Kept n) r ok k (λ w kept. Kept-weaken m n w le kept))
    where
      bind_ok : (r : Result SqlError Walked) → (r >>= ok) ≡ r
      bind_ok (ok a) = refl
      bind_ok (err e) = refl

  walk-Returns :
      (f : ℕ) (cols : Option (List Text)) (rows : List Fields) (s : Text)
      → IsBounded limit rows
      → length s < f
      → Returns (Kept (length s)) (walk h limit f cols rows s)
  unfolding walk
  walk-Returns zero cols rows s b lt = absurd (omega arith)
  walk-Returns (suc f) cols rows s b lt =
      walk_at-Returns (walk h limit f cols) cols rows (skip_separators s)
        (ahead (skip_separators s)) (length s)
        (λ rows' t b' lt'.
          Returns-Kept-weaken (length t) (length s) (walk h limit f cols rows' t) (omega arith)
            (walk-Returns f cols rows' t b' (omega arith)))
        b (length-skip_separators s) (ahead-fits (skip_separators s))

  -- The state between two statements, and at the end.
  abbrev pub Sound : Scan → Type 0
  Sound sc = IsBounded limit sc.rows × (sc.exceeded ≡ true → sc.rows ≡ [])

module _ (h : Host) (target : Option Text) (limit : Option ℕ) where
  after_statement-Returns :
      (again : Scan → Text → Result SqlError Scan) (sc : Scan) (p : Prefix) (w : Walked) (n : ℕ)
      → ((sc : Scan) (s : Text)
          → Sound h limit sc
          → length s < n
          → Returns (Sound h limit) (again sc s))
      → Kept h limit (length p.rest) w
      → length p.rest < n
      → Returns (Sound h limit) (after_statement h target limit again sc p w)
  unfolding after_statement
  after_statement-Returns again sc p (rows, stopped, next) n ih (b, e, le) lt =
      Returns-if (Sound h limit) stopped _ _ (b, e)
        (ih (record (enter h target limit sc p) { rows = rows; exceeded = stopped }) next (b, e)
          (omega arith))

  scan_at-Returns :
      (again : Scan → Text → Result SqlError Scan) (sc : Scan) (o : Option Prefix) (n : ℕ)
      → ((sc : Scan) (s : Text)
          → Sound h limit sc
          → length s < n
          → Returns (Sound h limit) (again sc s))
      → Sound h limit sc
      → Gives (λ p. length p.rest < n) o
      → Returns (Sound h limit) (scan_at h target limit again sc o)
  unfolding scan_at
  scan_at-Returns again sc none n ih b g = b
  scan_at-Returns again sc (some p) n ih b g =
      Returns-bind (Kept h limit (length p.rest)) (Sound h limit)
        (walk h limit (suc (length p.rest)) (collect_columns h target limit p) sc.rows p.rest) _
        (walk-Returns h limit (suc (length p.rest)) (collect_columns h target limit p) sc.rows
          p.rest b.0 (omega arith))
        (λ w kept. after_statement-Returns again sc p w n ih kept g)

  scan_from-Returns :
      (f : ℕ) (sc : Scan) (s : Text)
      → Sound h limit sc
      → length s < f
      → Returns (Sound h limit) (scan_from h target limit f sc s)
  unfolding scan_from
  scan_from-Returns zero sc s b lt = absurd (omega arith)
  scan_from-Returns (suc f) sc s b lt =
      scan_at-Returns (scan_from h target limit f) sc (exec s) (length s)
        (λ sc' t b' lt'. scan_from-Returns f sc' t b' (omega arith)) b (exec-Gives s)

  pub scan_sql_dump-Returns :
      (sql : Text) → Returns (Sound h limit) (scan_sql_dump h target limit sql)
  unfolding scan_sql_dump
  scan_sql_dump-Returns sql =
      scan_from-Returns (suc (length sql))
        (record { table_names = []; rows = []; target_had_columns = false; exceeded = false }) sql
        (exceeds-zero limit, λ e. refl) (omega arith)
