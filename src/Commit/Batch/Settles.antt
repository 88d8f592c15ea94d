-- ===== src/Commit/Batch/Settles.antt =====
-- core/commit/commitBatch.js: what a batch leaves, and a second batch.
use mathlib.Core.Path.{subst}
use universal_data_onboarder.Base.{
  ℕ, ◌≡◌, refl, Bool, true, false, ◌&&◌, List, [], ◌∷◌, Option, none, some, zero, suc, Text, ap,
  ◌∙◌, sym, Bool-cases, inl, inr,
}
use universal_data_onboarder.Base.Result.{Result, ok, err}
use universal_data_onboarder.Value.{Fields}
use universal_data_onboarder.Store.{Store, Job, StagedRow}
use universal_data_onboarder.Store.Rows.{update_one_staged, slice_to, cursor_staged}
use universal_data_onboarder.Store.Jobs.{StoreError, get_job}
use universal_data_onboarder.Commit.Batch.{
  Failure, Connection, connection_supports_transactions, waiting, is_duplicate_key_error, Tally,
  in_transaction, settle_row, commit_one, commit_each, after_job, commit_batch,
}
use universal_data_onboarder.Commit.Batch.Laws.{commit_each-Left, cursor-none, AllCovered-cursor}

get_job-jobs :
    (s s' : Store) (tenant_id job_id : Text)
    → s.jobs ≡ s'.jobs
    → get_job s tenant_id job_id ≡ get_job s' tenant_id job_id
unfolding get_job
get_job-jobs s s' tenant_id job_id e = rw e refl

slice_to_nil : (limit : Option ℕ) → slice_to limit [] ≡ []
unfolding slice_to
slice_to_nil none = refl
slice_to_nil (some zero) = refl
slice_to_nil (some (suc n)) = refl

cursor_limit :
    (s : Store) (tenant_id job_id : Text) (limit : Option ℕ)
    → cursor_staged s (waiting tenant_id job_id) true none ≡ []
    → cursor_staged s (waiting tenant_id job_id) true limit ≡ []
unfolding cursor_staged
cursor_limit s tenant_id job_id limit e = ap (slice_to limit) e ∙ slice_to_nil limit

abbrev no_tally : Tally
no_tally = record { committed_rows = 0; failed_rows = 0 }

module _ {W : Type 0} (commit_row : W → Text → Option Fields → Result Failure (Text × Text) × W)
    (aborted : W → W → W) (tenant_id : Text) where
  in_transaction-jobs :
      (s : Store) (w : W) (t : Tally) (id : ℕ) (o : Result Failure (Text × Text) × W)
      → (in_transaction commit_row aborted s w t id o).0.jobs ≡ s.jobs
  unfolding in_transaction update_one_staged
  in_transaction-jobs s w t id (ok entity, w') = refl
  in_transaction-jobs s w t id (err e, w') = refl

  settle_row-jobs :
      (s : Store) (t : Tally) (id : ℕ) (was_reserved : Bool) (o : Result Failure (Text × Text) × W)
      → (settle_row commit_row aborted s t id was_reserved o).0.jobs ≡ s.jobs
  unfolding settle_row update_one_staged
  settle_row-jobs s t id was_reserved (ok entity, w') = refl
  settle_row-jobs s t id was_reserved (err e, w') =
      elim (Bool-cases (is_duplicate_key_error e && was_reserved)) [
        | inl b ↦ rw b refl
        | inr b ↦ rw b refl
      ]

  commit_one-jobs :
      (use_transaction : Bool) (s : Store) (w : W) (t : Tally) (r : StagedRow)
      → (commit_one commit_row aborted tenant_id use_transaction s w t r).0.jobs ≡ s.jobs
  unfolding commit_one update_one_staged
  commit_one-jobs true s w t r =
      in_transaction-jobs s w t r.id (commit_row w tenant_id r.mapped_fields)
  commit_one-jobs false s w t r =
      settle_row-jobs _ t r.id _ (commit_row w tenant_id r.mapped_fields)

  commit_each-jobs :
      (use_transaction : Bool) (s : Store) (w : W) (t : Tally) (rs : List StagedRow)
      → (commit_each commit_row aborted tenant_id use_transaction s w t rs).0.jobs ≡ s.jobs
  unfolding commit_each
  commit_each-jobs use_transaction s w t [] = refl
  commit_each-jobs use_transaction s w t (r ∷ rs) =
      commit_each-jobs use_transaction
        (commit_one commit_row aborted tenant_id use_transaction s w t r).0 _ _ rs
      ∙ commit_one-jobs use_transaction s w t r

  module _ (job_id : Text) where
    after_job-settled :
        (u : Bool) (s : Store) (w : W) (r : Result StoreError Job) (t : Tally)
        → (after_job commit_row aborted tenant_id job_id u none s w r).2 ≡ ok t
        → cursor_staged
            (after_job commit_row aborted tenant_id job_id u none s w r).0
            (waiting tenant_id job_id)
            true
            none
          ≡ []
    unfolding after_job
    after_job-settled u s w (err e) t h = absurd (cc h)
    after_job-settled u s w (ok job) t h =
        cursor-none (waiting tenant_id job_id)
          (commit_each commit_row aborted tenant_id u s w no_tally
            (cursor_staged s (waiting tenant_id job_id) true none)).0
          (commit_each-Left tenant_id job_id commit_row aborted u
            (cursor_staged s (waiting tenant_id job_id) true none) s w no_tally
            (AllCovered-cursor (waiting tenant_id job_id) s))

    after_job-jobs :
        (u : Bool) (limit : Option ℕ) (s : Store) (w : W) (r : Result StoreError Job)
        → (after_job commit_row aborted tenant_id job_id u limit s w r).0.jobs ≡ s.jobs
    unfolding after_job
    after_job-jobs u limit s w (err e) = refl
    after_job-jobs u limit s w (ok job) =
        commit_each-jobs u s w no_tally (cursor_staged s (waiting tenant_id job_id) true limit)

    after_job-err :
        (u : Bool) (limit : Option ℕ) (s : Store) (w : W) (e : StoreError)
        → (after_job commit_row aborted tenant_id job_id u limit s w (err e)).2 ≡ err e
    unfolding after_job
    after_job-err u limit s w e = refl

    after_job-idle :
        (u : Bool) (limit : Option ℕ) (s : Store) (w : W) (job : Job)
        → cursor_staged s (waiting tenant_id job_id) true none ≡ []
        → after_job commit_row aborted tenant_id job_id u limit s w (ok job) ≡ (s, w, ok no_tally)
    unfolding after_job commit_each
    after_job-idle u limit s w job e = rw (cursor_limit s tenant_id job_id limit e) refl

    after_job-again :
        (u u' : Bool) (limit : Option ℕ) (s s' : Store) (w w' : W) (t : Tally)
        (r : Result StoreError Job)
        → get_job s tenant_id job_id ≡ r
        → after_job commit_row aborted tenant_id job_id u none s w r ≡ (s', w', ok t)
        → (cursor_staged s' (waiting tenant_id job_id) true none ≡ [])
          × (after_job commit_row aborted tenant_id job_id u' limit s' w'
                (get_job s' tenant_id job_id)
              ≡ (s', w', ok no_tally))
    after_job-again u u' limit s s' w w' t (err e) g h =
        absurd (let found = ap (λ p. p.2) h in let none_found = after_job-err u none s w e in cc)
    after_job-again u u' limit s s' w w' t (ok job) g h =
        let done : cursor_staged s' (waiting tenant_id job_id) true none ≡ [] =
          subst (λ x. cursor_staged x (waiting tenant_id job_id) true none ≡ []) (ap (λ p. p.0) h)
            (after_job-settled u s w (ok job) t (ap (λ p. p.2) h)) in
        let same : s'.jobs ≡ s.jobs =
          sym (ap (λ p. p.0.jobs) h) ∙ after_job-jobs u none s w (ok job) in
        (
          done,
          ap (after_job commit_row aborted tenant_id job_id u' limit s' w')
                (get_job-jobs s' s tenant_id job_id same ∙ g)
              ∙ after_job-idle u' limit s' w' job done,
        )

    -- After a batch without a limit no valid row of the job is pending or committing, and a second
    -- batch, with whatever limit and connection, changes neither the store nor the target.
    pub commit_batch_idempotent :
        (in_txn in_txn' : Bool) (conn conn' : Connection) (limit : Option ℕ) (s s' : Store)
        (w w' : W) (t : Tally)
        → commit_batch commit_row aborted tenant_id job_id in_txn conn none s w ≡ (s', w', ok t)
        → (cursor_staged s' (waiting tenant_id job_id) true none ≡ [])
          × (commit_batch commit_row aborted tenant_id job_id in_txn' conn' limit s' w'
              ≡ (s', w', ok (record { committed_rows = 0; failed_rows = 0 })))
    unfolding commit_batch
    commit_batch_idempotent in_txn in_txn' conn conn' limit s s' w w' t h =
        after_job-again (in_txn && (connection_supports_transactions conn).0)
          (in_txn' && (connection_supports_transactions conn').0) limit s s' w w' t
          (get_job s tenant_id job_id) refl h
