-- ===== src/Store/Rows.antt =====
-- orchestration/adapters/inMemoryJobStore.js: the methods on staged rows.
pub mod Laws
use universal_data_onboarder.Base.{
  ℕ, zero, suc, ◌+◌, Bool, true, false, List, [], ◌∷◌, ◌++◌, map, Option, none, some, length, all,
  any, filter, take, ◌==◌, leb, Text, ◌===◌, if◌then◌else◌,
}
use universal_data_onboarder.Base.Dict.{Dict, get, put}
use universal_data_onboarder.Value.{Fields}
use universal_data_onboarder.Store.{
  ValidationStatus, unvalidated, valid, invalid, CommitStatus, pending, committing, committed,
  failed, RowError, StagedRow, Store, store_key,
}

abbrev pub same_validation : Option ValidationStatus → ValidationStatus → Bool
same_validation (some valid) valid = true
same_validation (some invalid) invalid = true
same_validation (some unvalidated) unvalidated = true
same_validation _ _ = false

abbrev pub same_commit : CommitStatus → CommitStatus → Bool
same_commit pending pending = true
same_commit committing committing = true
same_commit committed committed = true
same_commit failed failed = true
same_commit _ _ = false

-- One key of a filter; `commit_in` is `{ $in: … }`.
pub data Condition : Type 0 where
  id_is : ℕ → Condition
  tenant_is job_is : Text → Condition
  validation_is : ValidationStatus → Condition
  commit_in : List CommitStatus → Condition

unfoldable pub meets : StagedRow → Condition → Bool
unfolding ◌===◌
meets r (id_is n) = r.id == n
meets r (tenant_is t) = r.tenant_id === t
meets r (job_is j) = r.import_job_id === j
meets r (validation_is v) = same_validation r.validation_status v
meets r (commit_in cs) = any (same_commit r.commit_status) cs

unfoldable pub matches : List Condition → StagedRow → Bool
unfolding meets
matches conditions r = all (meets r) conditions

-- The loop `for (const [, list] of stagedRecords)`, with the lists one behind the other.
unfoldable pub all_rows : Dict (List StagedRow) → List StagedRow
all_rows [] = []
all_rows ((key, rows) ∷ d) = rows ++ all_rows d

rows_at : Option (List StagedRow) → List StagedRow
rows_at none = []
rows_at (some rows) = rows

-- The rows of one `push` each.
push_rows : Text → Text → ℕ → List StagedRow → List Fields → List StagedRow
push_rows tenant_id job_id sequence rows [] = rows
push_rows tenant_id job_id sequence rows (r ∷ rs) =
    push_rows tenant_id job_id (suc sequence)
      (rows
        ++ record {
          id = suc sequence;
          tenant_id = tenant_id;
          import_job_id = job_id;
          row_index = length rows;
          raw_row = r;
          custom_fields = r;
          mapped_fields = none;
          validation_status = none;
          validation_errors = [];
          commit_status = pending;
          committed_entity = none;
          commit_error = none;
        }
          ∷ [])
      rs

-- `insertRows`, with the number of rows that it returns.
unfoldable pub insert_rows : Store → Text → Text → List Fields → Store × ℕ
unfolding store_key rows_at push_rows
insert_rows s tenant_id job_id [] = (s, 0)
insert_rows s tenant_id job_id (r ∷ rs) =
    let key = store_key tenant_id job_id in
    (
      record s {
        staged_records =
            put s.staged_records key
              (push_rows tenant_id job_id s.sequence (rows_at (get s.staged_records key)) (r ∷ rs));
        sequence = s.sequence + length (r ∷ rs);
      },
      length (r ∷ rs),
    )

first_match : List Condition → List StagedRow → Option StagedRow
unfolding matches
first_match filter_by [] = none
first_match filter_by (r ∷ rs) =
    let later = first_match filter_by rs in if matches filter_by r then some r else later

-- `findOneStaged`
unfoldable pub find_one_staged : Store → List Condition → Option StagedRow
unfolding first_match all_rows
find_one_staged s filter_by = first_match filter_by (all_rows s.staged_records)

-- A function on every row, list by list.
unfoldable pub map_rows : (StagedRow → StagedRow) → Dict (List StagedRow) → Dict (List StagedRow)
map_rows f [] = []
map_rows f ((key, rows) ∷ d) = (key, map f rows) ∷ map_rows f d

unfoldable pub update_where : List Condition → (StagedRow → StagedRow) → StagedRow → StagedRow
unfolding matches
update_where filter_by set r = if matches filter_by r then set r else r

-- `updateOneStaged`, where `set` is what `Object.assign(record, update.$set)` does. It changes
-- every row that matches.
unfoldable pub update_one_staged : Store → List Condition → (StagedRow → StagedRow) → Store
unfolding map_rows update_where
update_one_staged s filter_by set = record s {
  staged_records = map_rows (update_where filter_by set) s.staged_records;
}

-- `saveRow`: the row with this id is replaced, in the first list that has one.
has_id : ℕ → List StagedRow → Bool
has_id n rows = any (λ r. r.id == n) rows

replace_first : StagedRow → List StagedRow → List StagedRow
replace_first new [] = []
replace_first new (r ∷ rs) =
    let rest = replace_first new rs in if r.id == new.id then new ∷ rs else r ∷ rest

replace_in : StagedRow → Dict (List StagedRow) → Dict (List StagedRow)
unfolding has_id replace_first
replace_in new [] = []
replace_in new ((key, rows) ∷ d) =
    let rest = replace_in new d in
    if has_id new.id rows then (key, replace_first new rows) ∷ d else (key, rows) ∷ rest

unfoldable pub save_row : Store → StagedRow → Store
unfolding replace_in
save_row s new = record s { staged_records = replace_in new s.staged_records }

-- `bulkWriteStaged`: each operation is an `updateOne` with its filter and its `$set`.
pub record BulkOp : Type 0 where
  pub filter_by : List Condition
  pub set : StagedRow → StagedRow

unfoldable pub bulk_write_staged : Store → List BulkOp → Store
unfolding update_one_staged
bulk_write_staged s [] = s
bulk_write_staged s (op ∷ ops) = bulk_write_staged (update_one_staged s op.filter_by op.set) ops

-- `records.sort` by `rowIndex`, which is stable.
insert_sorted : StagedRow → List StagedRow → List StagedRow
insert_sorted r [] = r ∷ []
insert_sorted r (q ∷ qs) =
    let rest = insert_sorted r qs in if leb r.row_index q.row_index then r ∷ q ∷ qs else q ∷ rest

unfoldable pub sort_by_index : List StagedRow → List StagedRow
unfolding insert_sorted
sort_by_index [] = []
sort_by_index (r ∷ rs) = insert_sorted r (sort_by_index rs)

-- `if (limit) records = records.slice(0, limit)`
unfoldable pub slice_to : Option ℕ → List StagedRow → List StagedRow
slice_to none rows = rows
slice_to (some zero) rows = rows
slice_to (some (suc n)) rows = take (suc n) rows

-- `cursorStaged`: the rows that the cursor will hand out. The sort is by `rowIndex`, where the
-- caller asks for one.
unfoldable pub cursor_staged : Store → List Condition → Bool → Option ℕ → List StagedRow
unfolding all_rows matches sort_by_index slice_to
cursor_staged s filter_by sorted limit =
    let found = filter (matches filter_by) (all_rows s.staged_records) in
    slice_to limit (if sorted then sort_by_index found else found)

-- `findSampleErrors`
unfoldable pub find_sample_errors : Store → Text → Text → ℕ → List (ℕ × List RowError)
unfolding store_key rows_at
find_sample_errors s tenant_id job_id limit =
    map (λ r. (r.row_index, r.validation_errors))
      (take limit (
        filter (λ r. same_validation r.validation_status invalid)
          (rows_at (get s.staged_records (store_key tenant_id job_id)))))
