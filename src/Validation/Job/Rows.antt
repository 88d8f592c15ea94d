-- ===== src/Validation/Job/Rows.antt =====
-- core/validation/validateRows.js: the rows after the operations of a validation.
use mathlib.Core.Path.{subst}
use universal_data_onboarder.Base.{
  ◌≡◌, refl, sym, ap, ◌∙◌, Bool, true, false, List, [], ◌∷◌, map, filter, none, some, ◌==◌, arith,
  Bool-cases, inl, inr, All, All-filter,
}
use universal_data_onboarder.Value.{Value, Host}
use universal_data_onboarder.Registry.{Descriptor}
use universal_data_onboarder.Store.{Store, StagedRow, RowError}
use universal_data_onboarder.Store.Rows.{
  Condition, id_is, all_rows, map_rows, matches, update_where, cursor_staged,
}
use universal_data_onboarder.Store.Rows.Laws.{update_where-cases, all_rows-map_rows}
use universal_data_onboarder.Store.Laws.{DistinctIds, run, bulk_write-run}
use universal_data_onboarder.Mapping.Reshape.Chunks.{write_in_chunks, write_in_chunks-eq-bulk_write}
use universal_data_onboarder.Validation.Rules.{
  Answers, check_rows, now_seen, identity_of, status_of,
}
use universal_data_onboarder.Validation.Job.{result_op}

abbrev Results : Type 0
Results = List (StagedRow × List RowError)

-- A row with what validation says of it.
abbrev pub judged : List RowError → StagedRow → StagedRow
judged es q = record q { validation_status = some (status_of es); validation_errors = es }

abbrev pub rows_of : Results → List StagedRow
rows_of xs = map (λ x. x.0) xs

abbrev Apart : StagedRow → StagedRow → Type 0
Apart r q = (q.id == r.id) ≡ false

miss :
    (r q : StagedRow) (f : StagedRow → StagedRow)
    → Apart r q
    → update_where (id_is r.id ∷ []) f q ≡ q
miss r q f apart = elim (update_where-cases r.id f q) [
  | inl (u, e) ↦ absurd (cc (apart, e))
  | inr (u, e) ↦ u
]

hit : (r : StagedRow) (f : StagedRow → StagedRow) → update_where (id_is r.id ∷ []) f r ≡ f r
hit r f = elim (update_where-cases r.id f r) [
  | inl (u, e) ↦ u
  | inr (u, e) ↦ absurd (ground (arith, e))
]

run_others :
    (q : StagedRow) (xs : Results) → All (Apart q) (rows_of xs) → run (map result_op xs) q ≡ q
unfolding result_op
run_others q [] h = refl
run_others q ((r, es) ∷ xs) (a, h) =
    ap (run (map result_op xs)) (miss r q (judged es) (ground (arith, a))) ∙ run_others q xs h

run-later :
    (r : StagedRow) (es : List RowError) (xs : Results) (rows : List StagedRow)
    → All (Apart r) rows
    → map (run (map result_op ((r, es) ∷ xs))) rows ≡ map (run (map result_op xs)) rows
unfolding result_op
run-later r es xs [] h = refl
run-later r es xs (q ∷ rows) (a, h) =
    let first : run (map result_op ((r, es) ∷ xs)) q ≡ run (map result_op xs) q =
      ap (run (map result_op xs)) (miss r q (judged es) a) in
    rw (first, run-later r es xs rows h) refl

module _ (chosen : StagedRow → Bool)
    (keeps : (es : List RowError) (q : StagedRow) → chosen (judged es q) ≡ chosen q) where
  filter-run-first :
      (q : StagedRow) (rows : List StagedRow) (xs : Results)
      → chosen q ≡ true
      → rows_of xs ≡ q ∷ filter chosen rows
      → All (Apart q) rows
      → ((ys : Results)
          → rows_of ys ≡ filter chosen rows
          → filter chosen (map (run (map result_op ys)) rows) ≡ map (λ x. judged x.1 x.0) ys)
      → filter chosen (map (run (map result_op xs)) (q ∷ rows)) ≡ map (λ x. judged x.1 x.0) xs
  unfolding result_op
  filter-run-first q rows [] y e apart later = absurd (cc e)
  filter-run-first q rows ((r, es) ∷ xs) y e apart later =
      let first : r ≡ q = cc e in
      let rest : rows_of xs ≡ filter chosen rows = cc e in
      let apart_r : All (Apart r) rows = subst (λ t. All (Apart t) rows) (sym first) apart in
      let same : run (map result_op ((r, es) ∷ xs)) r ≡ judged es r =
        ap (run (map result_op xs)) (hit r (judged es))
        ∙ run_others (judged es r) xs
            (subst (All (Apart r)) (sym rest) (All-filter _ chosen rows apart_r)) in
      let taken : chosen (judged es r) ≡ true = keeps es r ∙ (ap chosen first ∙ y) in
      subst
        (λ t.
          filter chosen (map (run (map result_op ((r, es) ∷ xs))) (t ∷ rows))
          ≡ judged es r ∷ map (λ x. judged x.1 x.0) xs)
        first
        (rw (same, taken, run-later r es xs rows apart_r)
          (ap (λ t. judged es r ∷ t) (later xs rest)))

  -- Each chosen row has its result, and the others are none of them.
  pub filter-run :
      (rows : List StagedRow) (xs : Results)
      → rows_of xs ≡ filter chosen rows
      → DistinctIds rows
      → filter chosen (map (run (map result_op xs)) rows) ≡ map (λ x. judged x.1 x.0) xs
  filter-run [] [] e d = refl
  filter-run [] (x ∷ xs) e d = absurd (cc e)
  filter-run (q ∷ rows) xs e (apart, d) = elim (Bool-cases (chosen q)) [
    | inl y ↦ filter-run-first q rows xs y (rw y at e) apart (λ ys e'. filter-run rows ys e' d)
    | inr n ↦
        let e' : rows_of xs ≡ filter chosen rows = rw n at e in
        let same : run (map result_op xs) q ≡ q =
          run_others q xs (subst (All (Apart q)) (sym e') (All-filter _ chosen rows apart)) in
        rw (same, n) (filter-run rows xs e' d)
  ]

pub rows_of-check_rows :
    (h : Host) (d : Descriptor) (a : Answers) (seen : List Value) (rs : List StagedRow)
    → rows_of (check_rows h d a seen rs) ≡ rs
unfolding check_rows
rows_of-check_rows h d a seen [] = refl
rows_of-check_rows h d a seen (r ∷ rs) =
    ap (λ t. r ∷ t) (rows_of-check_rows h d a (now_seen a seen (identity_of d r)) rs)

-- After the writes of a validation the cursor over the same rows hands out each of them, in the
-- same order, with what was found of it.
pub cursor-write_in_chunks :
    (s : Store) (conditions : List Condition) (xs : Results)
    → ((es : List RowError) (q : StagedRow)
        → matches conditions (judged es q) ≡ matches conditions q)
    → DistinctIds (all_rows s.staged_records)
    → rows_of xs ≡ cursor_staged s conditions false none
    → cursor_staged (write_in_chunks s [] (map result_op xs)) conditions false none
      ≡ map (λ x. judged x.1 x.0) xs
unfolding cursor_staged
cursor-write_in_chunks s conditions xs keeps d e =
    let written : (write_in_chunks s [] (map result_op xs)).staged_records
        ≡ map_rows (run (map result_op xs)) s.staged_records =
      ap (λ (t : Store). t.staged_records) (write_in_chunks-eq-bulk_write s [] (map result_op xs))
      ∙ bulk_write-run s (map result_op xs) in
    ap (λ t. filter (matches conditions) (all_rows t)) written
    ∙ ap (filter (matches conditions)) (all_rows-map_rows (run (map result_op xs)) s.staged_records)
    ∙ filter-run (matches conditions) keeps (all_rows s.staged_records) xs e d
