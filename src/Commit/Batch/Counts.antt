-- ===== src/Commit/Batch/Counts.antt =====
-- core/commit/commitBatch.js: the counts of a batch, and the rows that it leaves.
use mathlib.Core.Path.{subst}
use universal_data_onboarder.Base.{
  ◌+◌, ◌≡◌, refl, ap, Bool, true, false, ◌&&◌, List, [], ◌∷◌, filter, Option, none, ◌==◌, Text,
  arith, Bool-cases, inl, inr, All, All-filter,
}
use universal_data_onboarder.Base.Result.{Result, ok, err, ok-injective}
use universal_data_onboarder.Value.{Fields}
use universal_data_onboarder.Store.{Store, Job, StagedRow}
use universal_data_onboarder.Store.Rows.{matches, all_rows, sort_by_index, cursor_staged}
use universal_data_onboarder.Store.Laws.{DistinctIds}
use universal_data_onboarder.Store.Rows.Laws.{
  has_row, All-sort, DistinctIds-sort, DistinctIds-filter,
}
use universal_data_onboarder.Store.Jobs.{StoreError, get_job}
use universal_data_onboarder.Commit.Batch.{
  Failure, Connection, connection_supports_transactions, waiting, Tally, commit_each, after_job,
  commit_batch,
}
use universal_data_onboarder.Commit.Batch.Ready.{is_open, Ready}
use universal_data_onboarder.Commit.Batch.Balanced.{
  committed_count, failed_count, stored, IsBalanced, commit_each-IsBalanced,
}

module _ {W : Type 0} (commit_row : W → Text → Option Fields → Result Failure (Text × Text) × W)
    (aborted : W → W → W) (tenant_id job_id : Text) where
  waiting-open :
      (q : StagedRow) → matches (waiting tenant_id job_id) q ≡ true → is_open q.commit_status ≡ true
  unfolding matches waiting
  waiting-open q h = ground (arith, h)

  apart_absent :
      (x : StagedRow) (rows : List StagedRow)
      → All (λ (q : StagedRow). (q.id == x.id) ≡ false) rows
      → has_row x.id rows ≡ false
  apart_absent x [] h = refl
  apart_absent x (q ∷ rows) (a, h) = ground (arith, a, apart_absent x rows h)

  behind :
      (x : StagedRow) (rows rs : List StagedRow)
      → All (λ (q : StagedRow). (q.id == x.id) ≡ false) rs
      → All (λ (q : StagedRow). Ready q.id rows) rs
      → All (λ (q : StagedRow). Ready q.id (x ∷ rows)) rs
  behind x rows [] n h = tt
  behind x rows (q ∷ rs) (a, n) (k, h) = (inr (ground (arith, a), k), behind x rows rs n h)

  -- Each row that waits is ready.
  waiting-Ready :
      (rows : List StagedRow)
      → DistinctIds rows
      → All (λ (q : StagedRow). Ready q.id rows) (filter (matches (waiting tenant_id job_id)) rows)
  waiting-Ready [] d = tt
  waiting-Ready (x ∷ rows) (n, d) =
      let later =
        behind x rows (filter (matches (waiting tenant_id job_id)) rows)
          (All-filter (λ q. (q.id == x.id) ≡ false) (matches (waiting tenant_id job_id)) rows n)
          (waiting-Ready rows d) in
      elim (Bool-cases (matches (waiting tenant_id job_id) x)) [
        | inl y ↦ rw y (inl (ground arith, waiting-open x y, apart_absent x rows n), later)
        | inr o ↦ rw o later
      ]

  after_job-IsBalanced :
      (u : Bool) (s : Store) (w : W) (r : Result StoreError Job) (t : Tally)
      → DistinctIds (stored s)
      → (after_job commit_row aborted tenant_id job_id u none s w r).2 ≡ ok t
      → IsBalanced s
          (record { committed_rows = 0; failed_rows = 0 })
          (after_job commit_row aborted tenant_id job_id u none s w r).0
          t
  unfolding after_job cursor_staged
  after_job-IsBalanced u s w (err e) t d q = absurd (cc q)
  after_job-IsBalanced u s w (ok job) t d q =
      let taken = filter (matches (waiting tenant_id job_id)) (stored s) in
      let none_yet : Tally = record { committed_rows = 0; failed_rows = 0 } in
      subst
        (λ x.
          IsBalanced s none_yet
            (commit_each commit_row aborted tenant_id u s w none_yet (sort_by_index taken)).0 x)
        (ok-injective q)
        (commit_each-IsBalanced commit_row aborted tenant_id u (sort_by_index taken) s w none_yet
          (DistinctIds-sort taken (DistinctIds-filter _ (stored s) d))
          (All-sort (λ x. Ready x.id (stored s)) taken (waiting-Ready (stored s) d)))

  -- In a store where no id stands on two rows, a batch without a limit returns as its two counts
  -- by how many the rows with status committed, and those with status failed, have grown.
  pub commit_batch_counts :
      (in_txn : Bool) (conn : Connection) (s s' : Store) (w w' : W) (t : Tally)
      → DistinctIds (all_rows s.staged_records)
      → commit_batch commit_row aborted tenant_id job_id in_txn conn none s w ≡ (s', w', ok t)
      → (committed_count s' ≡ committed_count s + t.committed_rows)
        × (failed_count s' ≡ failed_count s + t.failed_rows)
  unfolding commit_batch
  commit_batch_counts in_txn conn s s' w w' t d run =
      let balanced =
        after_job-IsBalanced (in_txn && (connection_supports_transactions conn).0) s w
          (get_job s tenant_id job_id) t d (ap (λ p. p.2) run) in
      let there = ap (λ p. p.0) run in
      (
        omega (arith, balanced.in_committed, ap committed_count there),
        omega (arith, balanced.in_failed, ap failed_count there),
      )
