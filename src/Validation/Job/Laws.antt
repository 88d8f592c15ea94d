-- ===== src/Validation/Job/Laws.antt =====
-- core/validation/validateRows.js: the counts of a validation, and the rows that it leaves.
use mathlib.Core.Path.{subst, ap₂}
use universal_data_onboarder.Base.{
  ℕ, suc, ◌+◌, ◌≡◌, refl, false, List, [], ◌∷◌, map, none, some, count, length, Text, arith, ap,
  ◌∙◌, sym, Bool-cases, inl, inr,
}
use universal_data_onboarder.Base.Result.{Result, ok, err, ok-injective}
use universal_data_onboarder.Value.{Host}
use universal_data_onboarder.Registry.{Registry, Descriptor}
use universal_data_onboarder.Store.{Store, Job, validated, RowError, StagedRow, valid, invalid}
use universal_data_onboarder.Store.Rows.{matches, all_rows, cursor_staged, same_validation}
use universal_data_onboarder.Store.Laws.{DistinctIds}
use universal_data_onboarder.Store.Jobs.{
  StoreError, get_job, update_job, update_job-returned, update_job-rows,
}
use universal_data_onboarder.Mapping.Reshape.Chunks.{write_in_chunks}
use universal_data_onboarder.Validation.Rules.{Answers}
use universal_data_onboarder.Validation.Job.{
  ValidationError, Validated, job_rows, count_one, count_results, counted_job, result_op,
  write_results, with_target, with_job, validate_import_job, can_validate, target_of,
}
use universal_data_onboarder.Validation.Job.Rows.{
  judged, rows_of, rows_of-check_rows, cursor-write_in_chunks,
}

-- The rows that validation has marked as valid, and as invalid.
abbrev pub marked_valid : List StagedRow → ℕ
marked_valid rows = count (λ r. same_validation r.validation_status valid) rows

abbrev pub marked_invalid : List StagedRow → ℕ
marked_invalid rows = count (λ r. same_validation r.validation_status invalid) rows

abbrev judged_rows : List (StagedRow × List RowError) → List StagedRow
judged_rows xs = map (λ x. judged x.1 x.0) xs

-- The counters of the loop are the rows with these marks.
count_results_marked :
    (m n : ℕ) (xs : List (StagedRow × List RowError))
    → count_results (m, n) xs
      ≡ (m + marked_valid (judged_rows xs), n + marked_invalid (judged_rows xs))
unfolding count_results count_one
count_results_marked m n [] = ap₂ (λ a b. (a, b)) (omega arith) (omega arith)
count_results_marked m n ((r, []) ∷ xs) =
    count_results_marked (suc m) n xs ∙ ap₂ (λ a b. (a, b)) (omega arith) refl
count_results_marked m n ((r, e ∷ es) ∷ xs) =
    count_results_marked m (suc n) xs ∙ ap₂ (λ a b. (a, b)) refl (omega arith)

marked_whole :
    (xs : List (StagedRow × List RowError))
    → marked_valid (judged_rows xs) + marked_invalid (judged_rows xs) ≡ length (rows_of xs)
marked_whole [] = omega arith
marked_whole ((r, []) ∷ xs) = omega (arith, marked_whole xs)
marked_whole ((r, e ∷ es) ∷ xs) = omega (arith, marked_whole xs)

-- What a validation that succeeds leaves in the store, and returns.
pub record IsCounted (tenant_id : Text) (job : Job) (s s' : Store) (v : Validated) (j : Job)
    : Type 0 where
  pub valid_is : v.valid_count ≡ marked_valid (cursor_staged s' (job_rows tenant_id job) false none)
  pub invalid_is :
      v.invalid_count ≡ marked_invalid (cursor_staged s' (job_rows tenant_id job) false none)
  pub whole :
      v.valid_count + v.invalid_count ≡ length (cursor_staged s (job_rows tenant_id job) false none)
  pub stored : get_job s' tenant_id job.id ≡ ok j
  pub status : j.status ≡ validated
  pub valid_rows : j.valid_rows ≡ some v.valid_count
  pub invalid_rows : j.invalid_rows ≡ v.invalid_count

job_rows_keeps :
    (tenant_id : Text) (job : Job) (es : List RowError) (q : StagedRow)
    → matches (job_rows tenant_id job) (judged es q) ≡ matches (job_rows tenant_id job) q
unfolding matches
job_rows_keeps tenant_id job es q = refl

cursor-rows :
    (tenant_id : Text) (job : Job) (s s' : Store)
    → s'.staged_records ≡ s.staged_records
    → cursor_staged s' (job_rows tenant_id job) false none
      ≡ cursor_staged s (job_rows tenant_id job) false none
unfolding cursor_staged
cursor-rows tenant_id job s s' same = rw same refl

write_results-IsCounted :
    (tenant_id : Text) (job : Job) (s : Store) (xs : List (StagedRow × List RowError))
    (v : Validated) (j : Job)
    → DistinctIds (all_rows s.staged_records)
    → rows_of xs ≡ cursor_staged s (job_rows tenant_id job) false none
    → (write_results tenant_id job s xs).1 ≡ ok v
    → v.job ≡ some j
    → IsCounted tenant_id job s (write_results tenant_id job s xs).0 v j
unfolding write_results
write_results-IsCounted tenant_id job s xs v j d from q there =
    let (m, n) = count_results (0, 0) xs in
    let written = write_in_chunks s [] (map result_op xs) in
    let same = ok-injective q in
    let returned : (update_job written tenant_id job.id (counted_job m n)).1 ≡ some j =
      ap (λ (x : Validated). x.job) same ∙ there in
    let (stored, old, changed) =
      update_job-returned written tenant_id job.id (counted_job m n) j returned in
    let rows : cursor_staged (update_job written tenant_id job.id (counted_job m n)).0
          (job_rows tenant_id job) false none
        ≡ judged_rows xs =
      cursor-rows tenant_id job written _
        (update_job-rows written tenant_id job.id (counted_job m n))
      ∙ cursor-write_in_chunks s (job_rows tenant_id job) xs (job_rows_keeps tenant_id job) d
          from in
    let counts = count_results_marked 0 0 xs in
    let m_is : v.valid_count ≡ marked_valid (judged_rows xs) =
      ap (λ (x : Validated). x.valid_count) (sym same) ∙ ap (λ c. c.0) counts ∙ omega arith in
    let n_is : v.invalid_count ≡ marked_invalid (judged_rows xs) =
      ap (λ (x : Validated). x.invalid_count) (sym same) ∙ ap (λ c. c.1) counts ∙ omega arith in
    record {
      valid_is = m_is ∙ ap marked_valid (sym rows);
      invalid_is = n_is ∙ ap marked_invalid (sym rows);
      whole = omega (arith, m_is, n_is, marked_whole xs, ap length from);
      stored = stored;
      status = ap (λ (t : Job). t.status) changed;
      valid_rows =
          ap (λ (t : Job). t.valid_rows) changed
          ∙ ap some (ap (λ (x : Validated). x.valid_count) same);
      invalid_rows =
          ap (λ (t : Job). t.invalid_rows) changed ∙ ap (λ (x : Validated). x.invalid_count) same;
    }

module _ (h : Host) (registry : Registry) (answers : Store → Job → Descriptor → Answers)
    (tenant_id : Text) (s : Store) (v : Validated) (j : Job)
    (distinct : DistinctIds (all_rows s.staged_records)) (there : v.job ≡ some j) where
  with_target-IsCounted :
      (job : Job) (d : Result ValidationError Descriptor)
      → (with_target h registry answers tenant_id job s d).1 ≡ ok v
      → IsCounted tenant_id job s (with_target h registry answers tenant_id job s d).0 v j
  unfolding with_target
  with_target-IsCounted job (err e) q = absurd (cc q)
  with_target-IsCounted job (ok d) q =
      write_results-IsCounted tenant_id job s _ v j distinct
        (rows_of-check_rows h d (answers s job d) []
          (cursor_staged s (job_rows tenant_id job) false none))
        q there

  with_job-IsCounted :
      (r : Result StoreError Job)
      → (with_job h registry answers tenant_id s r).1 ≡ ok v
      → (job : Job) × (r ≡ ok job)
        × IsCounted tenant_id job s (with_job h registry answers tenant_id s r).0 v j
  unfolding with_job
  with_job-IsCounted (err e) q = absurd (cc q)
  with_job-IsCounted (ok job) q = elim (Bool-cases (can_validate job.status)) [
    | inl can ↦
        (job, refl, rw can (with_target-IsCounted job (target_of registry job) (rw can at q)))
    | inr closed ↦ absurd (cc (rw closed at q))
  ]

-- When a validation succeeds in a store where no id stands on two rows, the numbers that it
-- returns are those of the rows of the job that the store then marks as valid and as invalid, and
-- they add up to all rows of the job. The job that it returns is the stored one, `validated`, with
-- these two counts.
pub validate_import_job_counts :
    (h : Host) (registry : Registry) (answers : Store → Job → Descriptor → Answers)
    (tenant_id job_id : Text) (s s' : Store) (v : Validated) (j : Job)
    → DistinctIds (all_rows s.staged_records)
    → validate_import_job h registry answers tenant_id job_id s ≡ (s', ok v)
    → v.job ≡ some j
    → (job : Job) × (get_job s tenant_id job_id ≡ ok job) × IsCounted tenant_id job s s' v j
unfolding validate_import_job
validate_import_job_counts h registry answers tenant_id job_id s s' v j distinct q there =
    let (job, found, counted) =
      with_job-IsCounted h registry answers tenant_id s v j distinct there
        (get_job s tenant_id job_id) (ap (λ p. p.1) q) in
    (job, found, subst (λ t. IsCounted tenant_id job s t v j) (ap (λ p. p.0) q) counted)
