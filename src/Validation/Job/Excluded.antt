-- ===== src/Validation/Job/Excluded.antt =====
-- core/validation/validateRows.js: `patchStagedRecordFields` for a row that is excluded.
use universal_data_onboarder.Base.{ℕ, ◌≡◌, true, false, map, none, Text}
use universal_data_onboarder.Base.Result.{Result}
use universal_data_onboarder.Registry.{Registry}
use universal_data_onboarder.Store.{Store, StagedRow}
use universal_data_onboarder.Store.Rows.{all_rows, matches, cursor_staged}
use universal_data_onboarder.Store.Rows.Laws.{has_row, replaced}
use universal_data_onboarder.Commit.Batch.{waiting}

-- The row that a patch saves: it has the id that was asked for, and no batch takes it.
record IsExcluded (row_id : ℕ) (r : StagedRow) : Type 0 where
  same_id : r.id ≡ row_id
  out : (tenant_id job_id : Text) → matches (waiting tenant_id job_id) r ≡ false

-- What the store holds after a row was excluded.
pub record IsPatchedOut (s s' : Store) (row_id : ℕ) (r : StagedRow) : Type 0 where
  pub rows : all_rows s'.staged_records ≡ map (replaced r) (all_rows s.staged_records)
  pub same_id : r.id ≡ row_id
  pub same_jobs : s'.jobs ≡ s.jobs
  pub skipped :
      (tenant_id job_id : Text)
      → has_row row_id (cursor_staged s' (waiting tenant_id job_id) true none) ≡ false
