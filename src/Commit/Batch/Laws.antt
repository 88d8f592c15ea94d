-- ===== src/Commit/Batch/Laws.antt =====
-- core/commit/commitBatch.js: a batch settles each row that it takes.
use mathlib.Core.Path.{subst}
use universal_data_onboarder.Base.{
  ◌≡◌, refl, Bool, true, false, ◌&&◌, List, [], ◌∷◌, filter, Option, none, ◌==◌, Text, arith,
  Bool-cases, inl, inr, All, All-map, ◌∙◌, sym,
}
use universal_data_onboarder.Base.Result.{Result, ok, err}
use universal_data_onboarder.Value.{Fields}
use universal_data_onboarder.Store.{Store, StagedRow, committing}
use universal_data_onboarder.Store.Rows.{
  Condition, same_commit, id_is, matches, all_rows, update_where, update_one_staged, sort_by_index,
  cursor_staged,
}
use universal_data_onboarder.Store.Rows.Laws.{
  has_row, has_row-sort, update_where-cases, all_rows-map_rows, All-mapped,
}
use universal_data_onboarder.Commit.Batch.{
  Failure, waiting, mark_reserved, mark_committed, mark_already_committed, mark_failed,
  is_duplicate_key_error, Tally, in_transaction, settle_row, commit_one, commit_each,
}

module _ (conditions : List Condition) where
  -- A row that meets the conditions is still to be handled.
  abbrev pub Covered : List StagedRow → StagedRow → Type 0
  Covered rs q = matches conditions q ≡ true → has_row q.id rs ≡ true

  abbrev pub AllCovered : List StagedRow → Store → Type 0
  AllCovered rs s = All (Covered rs) (all_rows s.staged_records)

  AllCovered-update :
      (rs rs' : List StagedRow) (s : Store) (by : List Condition) (f : StagedRow → StagedRow)
      → ((q : StagedRow) → Covered rs q → Covered rs' (update_where by f q))
      → AllCovered rs s
      → AllCovered rs' (update_one_staged s by f)
  unfolding update_one_staged
  AllCovered-update rs rs' s by f step h =
      rw (all_rows-map_rows (update_where by f) s.staged_records) (
        All-mapped (Covered rs') (update_where by f) (all_rows s.staged_records)
          (All-map _ _ step (all_rows s.staged_records) h))

  Covered-settled :
      (r : StagedRow) (rs : List StagedRow) (f : StagedRow → StagedRow)
      → ((q : StagedRow) → matches conditions (f q) ≡ false)
      → (q : StagedRow) → Covered (r ∷ rs) q
      → Covered rs (update_where (id_is r.id ∷ []) f q)
  unfolding update_where
  Covered-settled r rs f out q h = elim (update_where-cases r.id f q) [
    | inl (u, e) ↦ rw u (λ m. absurd (let k = out q in cc))
    | inr (u, e) ↦ rw u (λ m. (let k = h m in ground arith))
  ]

  Covered-reserved :
      (r : StagedRow) (rs : List StagedRow) (q : StagedRow)
      → Covered (r ∷ rs) q
      → Covered (r ∷ rs) (update_where (id_is r.id ∷ []) mark_reserved q)
  unfolding update_where
  Covered-reserved r rs q h = elim (update_where-cases r.id mark_reserved q) [
    | inl (u, e) ↦ rw u (λ m. (let k : (r.id == q.id) ≡ true = ground arith in rw k))
    | inr (u, e) ↦ subst (Covered (r ∷ rs)) (sym u) h
  ]

  Covered-weaken :
      (x q : StagedRow) (rs : List StagedRow)
      → Covered (filter (matches conditions) rs) q
      → Covered (filter (matches conditions) (x ∷ rs)) q
  Covered-weaken x q rs h m = (let k = h m in ground arith)

  Covered-self :
      (q : StagedRow) (rs : List StagedRow) → Covered (filter (matches conditions) (q ∷ rs)) q
  Covered-self q rs m = rw m (let e : (q.id == q.id) ≡ true = ground arith in rw e)

  Covered-filter : (rows : List StagedRow) → All (Covered (filter (matches conditions) rows)) rows
  Covered-filter [] = tt
  Covered-filter (x ∷ rows) = (
    Covered-self x rows,
    All-map _ _ (λ q h. Covered-weaken x q rows h) rows (Covered-filter rows),
  )

  -- Each row that meets the conditions is among those that the cursor hands out.
  pub AllCovered-cursor : (s : Store) → AllCovered (cursor_staged s conditions true none) s
  unfolding cursor_staged
  AllCovered-cursor s =
      All-map _ _
        (λ q h m. has_row-sort q.id (filter (matches conditions) (all_rows s.staged_records)) ∙ h m)
        (all_rows s.staged_records) (Covered-filter (all_rows s.staged_records))

  no_rows : (rows : List StagedRow) → All (Covered []) rows → filter (matches conditions) rows ≡ []
  no_rows [] h = refl
  no_rows (x ∷ rows) (p, h) = elim (Bool-cases (matches conditions x)) [
    | inl e ↦ absurd (cc (p e))
    | inr e ↦ rw e (no_rows rows h)
  ]

  pub cursor-none : (s : Store) → AllCovered [] s → cursor_staged s conditions true none ≡ []
  unfolding cursor_staged sort_by_index
  cursor-none s h = rw (no_rows (all_rows s.staged_records) h)

module _ (tenant_id job_id : Text) where
  -- A row that the batch settled waits no more.
  mark_committed-out :
      (entity : Text × Text) (q : StagedRow)
      → matches (waiting tenant_id job_id) (mark_committed entity q) ≡ false
  unfolding matches waiting
  mark_committed-out entity q = ground arith

  mark_already_committed-out :
      (q : StagedRow) → matches (waiting tenant_id job_id) (mark_already_committed q) ≡ false
  unfolding matches waiting
  mark_already_committed-out q = ground arith

  mark_failed-out :
      (e : Failure) (q : StagedRow) → matches (waiting tenant_id job_id) (mark_failed e q) ≡ false
  unfolding matches waiting
  mark_failed-out e q = ground arith

  abbrev pub Left : List StagedRow → Store → Type 0
  Left = AllCovered (waiting tenant_id job_id)

  Left-settled :
      (r : StagedRow) (rs : List StagedRow) (s : Store) (f : StagedRow → StagedRow)
      → ((q : StagedRow) → matches (waiting tenant_id job_id) (f q) ≡ false)
      → Left (r ∷ rs) s
      → Left rs (update_one_staged s (id_is r.id ∷ []) f)
  Left-settled r rs s f out =
      AllCovered-update (waiting tenant_id job_id) (r ∷ rs) rs s (id_is r.id ∷ []) f
        (Covered-settled (waiting tenant_id job_id) r rs f out)

  module _ {W : Type 0} (commit_row : W → Text → Option Fields → Result Failure (Text × Text) × W)
      (aborted : W → W → W) where
    in_transaction-Left :
        (r : StagedRow) (rs : List StagedRow) (s : Store) (w : W) (t : Tally)
        (o : Result Failure (Text × Text) × W)
        → Left (r ∷ rs) s
        → Left rs (in_transaction commit_row aborted s w t r.id o).0
    unfolding in_transaction
    in_transaction-Left r rs s w t (ok entity, w') =
        Left-settled r rs s (mark_committed entity) (mark_committed-out entity)
    in_transaction-Left r rs s w t (err e, w') =
        Left-settled r rs s (mark_failed e) (mark_failed-out e)

    settle_row-Left :
        (r : StagedRow) (rs : List StagedRow) (s : Store) (t : Tally) (was_reserved : Bool)
        (o : Result Failure (Text × Text) × W)
        → Left (r ∷ rs) s
        → Left rs (settle_row commit_row aborted s t r.id was_reserved o).0
    unfolding settle_row
    settle_row-Left r rs s t was_reserved (ok entity, w') h =
        Left-settled r rs s (mark_committed entity) (mark_committed-out entity) h
    settle_row-Left r rs s t was_reserved (err e, w') h =
        elim (Bool-cases (is_duplicate_key_error e && was_reserved)) [
          | inl b ↦ rw b (Left-settled r rs s mark_already_committed mark_already_committed-out h)
          | inr b ↦ rw b (Left-settled r rs s (mark_failed e) (mark_failed-out e) h)
        ]

    commit_one-Left :
        (use_transaction : Bool) (r : StagedRow) (rs : List StagedRow) (s : Store) (w : W)
        (t : Tally)
        → Left (r ∷ rs) s
        → Left rs (commit_one commit_row aborted tenant_id use_transaction s w t r).0
    unfolding commit_one
    commit_one-Left true r rs s w t h =
        in_transaction-Left r rs s w t (commit_row w tenant_id r.mapped_fields) h
    commit_one-Left false r rs s w t h =
        settle_row-Left r rs _ t (same_commit r.commit_status committing)
          (commit_row w tenant_id r.mapped_fields)
          (AllCovered-update (waiting tenant_id job_id) (r ∷ rs) (r ∷ rs) s (id_is r.id ∷ [])
            mark_reserved (Covered-reserved (waiting tenant_id job_id) r rs) h)

    pub commit_each-Left :
        (use_transaction : Bool) (rs : List StagedRow) (s : Store) (w : W) (t : Tally)
        → Left rs s
        → Left [] (commit_each commit_row aborted tenant_id use_transaction s w t rs).0
    unfolding commit_each
    commit_each-Left use_transaction [] s w t h = h
    commit_each-Left use_transaction (r ∷ rs) s w t h =
        let after = commit_one commit_row aborted tenant_id use_transaction s w t r in
        commit_each-Left use_transaction rs after.0 after.1 after.2
          (commit_one-Left use_transaction r rs s w t h)
