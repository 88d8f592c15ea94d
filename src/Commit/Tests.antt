-- ===== src/Commit/Tests.antt =====
-- Runs of the commit engine, and its theorems at inputs that meet their hypotheses.
use universal_data_onboarder.Base.{
  ℕ, zero, suc, ◌≡◌, refl, true, false, [], ◌∷◌, Option, none, some, Text, codes, ◌+◌,
}
use universal_data_onboarder.Base.Dict.{get}
use universal_data_onboarder.Base.Result.{Result, ok, err}
use universal_data_onboarder.Value.{Fields}
use universal_data_onboarder.Store.{Store, Job, StagedRow, validated, valid, pending}
use universal_data_onboarder.Store.Rows.{cursor_staged, all_rows}
use universal_data_onboarder.Commit.Batch.{Failure, Connection, waiting, Tally, commit_batch}
use universal_data_onboarder.Commit.Batch.Settles.{commit_batch_idempotent}
use universal_data_onboarder.Commit.Batch.Counts.{commit_batch_counts}
use universal_data_onboarder.Commit.Batch.Balanced.{committed_count, failed_count}

abbrev duplicate : Failure
duplicate = record { code = some 11000; message = [] }

-- A target that takes one row, and refuses every other as its copy.
abbrev pub commit_row : ℕ → Text → Option Fields → Result Failure (Text × Text) × ℕ
commit_row zero tenant_id fields = (ok (codes "e1", codes "Employee"), 1)
commit_row (suc w) tenant_id fields = (err duplicate, suc w)

abbrev pub aborted : ℕ → ℕ → ℕ
aborted w w' = w

abbrev pub job : Job
job = record {
  id = codes "j";
  tenant_id = codes "t";
  module_name = codes "hr";
  entity_key = some (codes "employee");
  field_map = some [];
  mapping_profile_id = none;
  session_id = none;
  status = validated;
  valid_rows = some 2;
  invalid_rows = 0;
  committed_rows = 0;
  commit_failed_rows = 0;
  skipped_rows = 0;
}

abbrev pub valid_row : ℕ → StagedRow
valid_row n = record {
  id = n;
  tenant_id = codes "t";
  import_job_id = codes "j";
  row_index = n;
  raw_row = [];
  custom_fields = [];
  mapped_fields = some [];
  validation_status = some valid;
  validation_errors = [];
  commit_status = pending;
  committed_entity = none;
  commit_error = none;
}

abbrev pub store : Store
store = record {
  jobs = (codes "t:j", job) ∷ [];
  staged_records = (codes "t:j", valid_row 2 ∷ valid_row 1 ∷ []) ∷ [];
  mapping_profiles = [];
  sequence = 2;
}

abbrev pub conn : Connection
conn = record { transaction_support = none; topology_type = none }

abbrev one_of_two : Tally
one_of_two = record { committed_rows = 1; failed_rows = 1 }

abbrev after : Store × ℕ
after =
    let (s, w, t) =
      commit_batch commit_row aborted (codes "t") (codes "j") false conn none store 0 in
    (s, w)

commit_batch_counts_example :
    (committed_count after.0 ≡ committed_count store + one_of_two.committed_rows)
    × (failed_count after.0 ≡ failed_count store + one_of_two.failed_rows)
unfolding commit_batch get all_rows
commit_batch_counts_example =
    commit_batch_counts commit_row aborted (codes "t") (codes "j") false conn store after.0 0
      after.1 one_of_two ((refl, tt), (tt, tt)) refl

commit_batch_idempotent_example :
    (cursor_staged after.0 (waiting (codes "t") (codes "j")) true none ≡ [])
    × (commit_batch commit_row aborted (codes "t") (codes "j") true conn (some 5) after.0 after.1
        ≡ (after.0, after.1, ok (record { committed_rows = 0; failed_rows = 0 })))
unfolding commit_batch get
commit_batch_idempotent_example =
    commit_batch_idempotent commit_row aborted (codes "t") (codes "j") false true conn conn (some 5)
      store after.0 0 after.1 one_of_two refl
