-- ===== src/Commit/Batch.antt =====
-- core/commit/commitBatch.js: `commitBatch`; core/commit/idempotency.js.
--
-- A target's `commitRow` works on a world of its own (the tenant's models): it is an argument that
-- passes the world on. What the driver leaves of the world when a transaction is aborted is an
-- argument too. The batch runs on the in-memory store, whose updates do not fail.
pub mod Laws
pub mod Settles
pub mod Ready
pub mod Balanced
pub mod Counts
use universal_data_onboarder.Base.{
  ℕ, suc, ◌+◌, Bool, true, false, ◌&&◌, ◌||◌, List, [], ◌∷◌, map, Option, none, some, ◌==◌, Text,
  codes, ◌===◌, includes, if◌then◌else◌,
}
use universal_data_onboarder.Base.Result.{Result, ok, err}
use universal_data_onboarder.Value.{Fields}
use universal_data_onboarder.Store.{
  Store, Job, StagedRow, valid, CommitStatus, pending, committing, committed, failed,
}
use universal_data_onboarder.Store.Rows.{
  Condition, id_is, tenant_is, job_is, validation_is, commit_in, same_commit, cursor_staged,
  update_one_staged,
}
use universal_data_onboarder.Store.Jobs.{StoreError, get_job}

-- What `commitRow` throws.
pub record Failure : Type 0 where
  pub code : Option ℕ
  pub message : Text

starts : Text → Text → Bool
starts [] s = true
starts (k ∷ ks) [] = false
starts (k ∷ ks) (c ∷ s) = k == c && starts ks s

-- `/E11000/.test(s)`
mentions : Text → Text → Bool
unfolding starts
mentions part [] = starts part []
mentions part (c ∷ s) = starts part (c ∷ s) || mentions part s

has_code : Option ℕ → ℕ → Bool
has_code none n = false
has_code (some c) n = c == n

unfoldable pub is_duplicate_key_error : Failure → Bool
unfolding has_code mentions
is_duplicate_key_error e =
    has_code e.code 11000 || has_code e.code 11001 || mentions (codes "E11000") e.message

-- A connection: the answer that is kept on it, and the type of its topology, `none` where asking
-- for it throws or gives nothing.
pub record Connection : Type 0 where
  pub transaction_support : Option Bool
  pub topology_type : Option Text

abbrev transactional : List Text
transactional = map codes ("ReplicaSetWithPrimary" ∷ "Sharded" ∷ "LoadBalanced" ∷ [])

is_transactional : Option Text → Bool
unfolding ◌===◌
is_transactional none = false
is_transactional (some type) = includes transactional type

ask : Connection → Option Bool → Bool × Connection
unfolding is_transactional
ask conn (some known) = (known, conn)
ask conn none =
    let supported = is_transactional conn.topology_type in
    (supported, record conn { transaction_support = some supported })

-- `connectionSupportsTransactions`
unfoldable pub connection_supports_transactions : Connection → Bool × Connection
unfolding ask
connection_supports_transactions conn = ask conn conn.transaction_support

-- The rows that a batch takes.
unfoldable pub waiting : Text → Text → List Condition
waiting tenant_id job_id =
    tenant_is tenant_id
    ∷ job_is job_id
    ∷ validation_is valid
    ∷ commit_in (pending ∷ committing ∷ [])
    ∷ []

abbrev pub mark_reserved : StagedRow → StagedRow
mark_reserved q = record q { commit_status = committing }

abbrev pub mark_committed : Text × Text → StagedRow → StagedRow
mark_committed entity q = record q {
  commit_status = committed;
  committed_entity = some entity;
  commit_error = none;
}

abbrev pub mark_already_committed : StagedRow → StagedRow
mark_already_committed q = record q { commit_status = committed; commit_error = none }

abbrev pub mark_failed : Failure → StagedRow → StagedRow
mark_failed e q = record q { commit_status = failed; commit_error = some e.message }

pub record Tally : Type 0 where
  pub committed_rows : ℕ
  pub failed_rows : ℕ

-- `committed += 1`, and `failed += 1`.
unfoldable pub one_committed : Tally → Tally
one_committed t = record t { committed_rows = suc t.committed_rows }

unfoldable pub one_failed : Tally → Tally
one_failed t = record t { failed_rows = suc t.failed_rows }

module _ {W : Type 0} (commit_row : W → Text → Option Fields → Result Failure (Text × Text) × W)
    (aborted : W → W → W) where
  -- What a row leaves: the store, the world, and the counters of the batch.
  abbrev After : Type 0
  After = Store × W × Tally

  -- The transaction: `withTransaction` has aborted it when `commitRow` threw.
  in_transaction : Store → W → Tally → ℕ → Result Failure (Text × Text) × W → After
  unfolding update_one_staged one_committed one_failed
  in_transaction s w t id (ok entity, w') =
      (update_one_staged s (id_is id ∷ []) (mark_committed entity), w', one_committed t)
  in_transaction s w t id (err e, w') =
      (update_one_staged s (id_is id ∷ []) (mark_failed e), aborted w w', one_failed t)

  -- After the row was reserved.
  settle_row : Store → Tally → ℕ → Bool → Result Failure (Text × Text) × W → After
  unfolding update_one_staged is_duplicate_key_error one_committed one_failed
  settle_row s t id was_reserved (ok entity, w') =
      (update_one_staged s (id_is id ∷ []) (mark_committed entity), w', one_committed t)
  settle_row s t id was_reserved (err e, w') =
      if is_duplicate_key_error e && was_reserved
      then (update_one_staged s (id_is id ∷ []) mark_already_committed, w', one_committed t)
      else (update_one_staged s (id_is id ∷ []) (mark_failed e), w', one_failed t)

  -- The body of the loop, on the copy of the row that the cursor hands out.
  unfoldable pub commit_one : Text → Bool → Store → W → Tally → StagedRow → Store × W × Tally
  unfolding in_transaction settle_row update_one_staged
  commit_one tenant_id use_transaction s w t r =
      if use_transaction
      then in_transaction s w t r.id (commit_row w tenant_id r.mapped_fields)
      else settle_row (update_one_staged s (id_is r.id ∷ []) mark_reserved) t r.id
          (same_commit r.commit_status committing) (commit_row w tenant_id r.mapped_fields)

  unfoldable pub commit_each : Text → Bool → Store → W → Tally → List StagedRow → Store × W × Tally
  unfolding commit_one
  commit_each tenant_id use_transaction s w t [] = (s, w, t)
  commit_each tenant_id use_transaction s w t (r ∷ rs) =
      let (s', w', t') = commit_one tenant_id use_transaction s w t r in
      commit_each tenant_id use_transaction s' w' t' rs

  after_job :
      Text
      → Text
      → Bool
      → Option ℕ
      → Store
      → W
      → Result StoreError Job
      → Store × W × Result StoreError Tally
  unfolding commit_each cursor_staged waiting
  after_job tenant_id job_id use_transaction limit s w (err e) = (s, w, err e)
  after_job tenant_id job_id use_transaction limit s w (ok job) =
      let (s', w', t) =
        commit_each tenant_id use_transaction s w (record { committed_rows = 0; failed_rows = 0 })
          (cursor_staged s (waiting tenant_id job_id) true limit) in
      (s', w', ok t)

  -- `commitBatch`, for a descriptor that asks for transactions or does not.
  unfoldable pub commit_batch :
      Text → Text → Bool → Connection → Option ℕ → Store → W → Store × W × Result StoreError Tally
  unfolding connection_supports_transactions get_job after_job
  commit_batch tenant_id job_id commit_in_transaction conn limit s w =
      let use_transaction = commit_in_transaction && (connection_supports_transactions conn).0 in
      after_job tenant_id job_id use_transaction limit s w (get_job s tenant_id job_id)
