-- ===== src/Commit/Batch/Balanced.antt =====
-- core/commit/commitBatch.js: each row that a batch takes is counted by its new status.
use mathlib.Core.Path.{subst}
use universal_data_onboarder.Base.{
  ℕ, ◌+◌, ◌≡◌, refl, sym, ap, ◌∙◌, Bool, true, false, ◌&&◌, List, [], ◌∷◌, map, Option, count, ◌==◌,
  Text, arith, Bool-cases, inl, inr, All,
}
use universal_data_onboarder.Base.Result.{Result, ok, err}
use universal_data_onboarder.Value.{Fields}
use universal_data_onboarder.Store.{Store, StagedRow, committing, committed, failed}
use universal_data_onboarder.Store.Rows.{
  same_commit, id_is, all_rows, update_where, update_one_staged,
}
use universal_data_onboarder.Store.Laws.{DistinctIds}
use universal_data_onboarder.Store.Rows.Laws.{all_rows-map_rows}
use universal_data_onboarder.Commit.Batch.{
  Failure, mark_reserved, mark_committed, mark_already_committed, mark_failed,
  is_duplicate_key_error, Tally, one_committed, one_failed, in_transaction, settle_row, commit_one,
  commit_each,
}
use universal_data_onboarder.Commit.Batch.Ready.{
  is_open, Ready, count_in, count_out, Ready-other, Ready-self,
}

abbrev pub is_committed : StagedRow → Bool
is_committed q = same_commit q.commit_status committed

abbrev pub is_failed : StagedRow → Bool
is_failed q = same_commit q.commit_status failed

abbrev pub committed_count : Store → ℕ
committed_count s = count is_committed (all_rows s.staged_records)

abbrev pub failed_count : Store → ℕ
failed_count s = count is_failed (all_rows s.staged_records)

open-committed : (q : StagedRow) → is_open q.commit_status ≡ true → is_committed q ≡ false
open-committed q h = ground (arith, h)

open-failed : (q : StagedRow) → is_open q.commit_status ≡ true → is_failed q ≡ false
open-failed q h = ground (arith, h)

-- The counters have grown by as much as the rows with these statuses.
pub record IsBalanced (s : Store) (t : Tally) (s' : Store) (t' : Tally) : Type 0 where
  pub in_committed : committed_count s' + t.committed_rows ≡ committed_count s + t'.committed_rows
  pub in_failed : failed_count s' + t.failed_rows ≡ failed_count s + t'.failed_rows

abbrev pub stored : Store → List StagedRow
stored s = all_rows s.staged_records

update-rows :
    (s : Store) (n : ℕ) (f : StagedRow → StagedRow)
    → stored (update_one_staged s (id_is n ∷ []) f) ≡ map (update_where (id_is n ∷ []) f) (stored s)
unfolding update_one_staged
update-rows s n f = all_rows-map_rows (update_where (id_is n ∷ []) f) s.staged_records

module _ (n : ℕ) (f : StagedRow → StagedRow) (keeps : (q : StagedRow) → (f q).id ≡ q.id) where
  as_committed :
      (s : Store) (t : Tally)
      → Ready n (stored s)
      → ((q : StagedRow) → (f q).commit_status ≡ committed)
      → IsBalanced s t (update_one_staged s (id_is n ∷ []) f) (one_committed t)
  unfolding one_committed
  as_committed s t ready after =
      let more =
        ap (count is_committed) (update-rows s n f)
        ∙ count_in n f keeps is_committed open-committed (λ q. rw (after q) refl) (stored s)
            ready in
      let same =
        ap (count is_failed) (update-rows s n f)
        ∙ count_out n f keeps is_failed open-failed (λ q. rw (after q) refl) (stored s) ready in
      record { in_committed = omega (arith, more); in_failed = omega (arith, same) }

  as_failed :
      (s : Store) (t : Tally)
      → Ready n (stored s)
      → ((q : StagedRow) → (f q).commit_status ≡ failed)
      → IsBalanced s t (update_one_staged s (id_is n ∷ []) f) (one_failed t)
  unfolding one_failed
  as_failed s t ready after =
      let same =
        ap (count is_committed) (update-rows s n f)
        ∙ count_out n f keeps is_committed open-committed (λ q. rw (after q) refl) (stored s)
            ready in
      let more =
        ap (count is_failed) (update-rows s n f)
        ∙ count_in n f keeps is_failed open-failed (λ q. rw (after q) refl) (stored s) ready in
      record { in_committed = omega (arith, same); in_failed = omega (arith, more) }

  as_open :
      (s : Store) (t : Tally)
      → Ready n (stored s)
      → ((q : StagedRow) → (f q).commit_status ≡ committing)
      → IsBalanced s t (update_one_staged s (id_is n ∷ []) f) t
  as_open s t ready after =
      let same =
        ap (count is_committed) (update-rows s n f)
        ∙ count_out n f keeps is_committed open-committed (λ q. rw (after q) refl) (stored s)
            ready in
      let same' =
        ap (count is_failed) (update-rows s n f)
        ∙ count_out n f keeps is_failed open-failed (λ q. rw (after q) refl) (stored s) ready in
      record { in_committed = omega (arith, same); in_failed = omega (arith, same') }

  others-Ready :
      (s : Store) (rs : List StagedRow)
      → All (λ (r : StagedRow). (r.id == n) ≡ false) rs
      → All (λ (r : StagedRow). Ready r.id (stored s)) rs
      → All (λ (r : StagedRow). Ready r.id (stored (update_one_staged s (id_is n ∷ []) f))) rs
  others-Ready s [] apart ready = tt
  others-Ready s (r ∷ rs) (a, apart) (h, ready) = (
    subst (Ready r.id) (sym (update-rows s n f)) (Ready-other n f keeps r.id a (stored s) h),
    others-Ready s rs apart ready,
  )

IsBalanced-trans :
    (s s' s'' : Store) (t t' t'' : Tally)
    → IsBalanced s t s' t'
    → IsBalanced s' t' s'' t''
    → IsBalanced s t s'' t''
IsBalanced-trans s s' s'' t t' t'' a b = record {
  in_committed = omega (arith, a.in_committed, b.in_committed);
  in_failed = omega (arith, a.in_failed, b.in_failed);
}

-- What a row leaves: balanced counters, and the other rows as ready as before.
record IsStep (r : StagedRow) (rs : List StagedRow) (s : Store) (t : Tally) (s' : Store)
    (t' : Tally) : Type 0 where
  balanced : IsBalanced s t s' t'
  ready : All (λ (q : StagedRow). Ready q.id (stored s')) rs

module _ {W : Type 0} (commit_row : W → Text → Option Fields → Result Failure (Text × Text) × W)
    (aborted : W → W → W) (tenant_id : Text) where
  in_transaction-IsStep :
      (r : StagedRow) (rs : List StagedRow) (s : Store) (w : W) (t : Tally)
      (o : Result Failure (Text × Text) × W)
      → All (λ (q : StagedRow). (q.id == r.id) ≡ false) rs
      → Ready r.id (stored s)
      → All (λ (q : StagedRow). Ready q.id (stored s)) rs
      → IsStep r rs s t
          (in_transaction commit_row aborted s w t r.id o).0
          (in_transaction commit_row aborted s w t r.id o).2
  unfolding in_transaction
  in_transaction-IsStep r rs s w t (ok entity, w') apart ready later = record {
    balanced = as_committed r.id (mark_committed entity) (λ q. refl) s t ready (λ q. refl);
    ready = others-Ready r.id (mark_committed entity) (λ q. refl) s rs apart later;
  }
  in_transaction-IsStep r rs s w t (err e, w') apart ready later = record {
    balanced = as_failed r.id (mark_failed e) (λ q. refl) s t ready (λ q. refl);
    ready = others-Ready r.id (mark_failed e) (λ q. refl) s rs apart later;
  }

  settle_row-IsStep :
      (r : StagedRow) (rs : List StagedRow) (s : Store) (t : Tally) (was_reserved : Bool)
      (o : Result Failure (Text × Text) × W)
      → All (λ (q : StagedRow). (q.id == r.id) ≡ false) rs
      → Ready r.id (stored s)
      → All (λ (q : StagedRow). Ready q.id (stored s)) rs
      → IsStep r rs s t
          (settle_row commit_row aborted s t r.id was_reserved o).0
          (settle_row commit_row aborted s t r.id was_reserved o).2
  unfolding settle_row
  settle_row-IsStep r rs s t was_reserved (ok entity, w') apart ready later = record {
    balanced = as_committed r.id (mark_committed entity) (λ q. refl) s t ready (λ q. refl);
    ready = others-Ready r.id (mark_committed entity) (λ q. refl) s rs apart later;
  }
  settle_row-IsStep r rs s t was_reserved (err e, w') apart ready later =
      elim (Bool-cases (is_duplicate_key_error e && was_reserved)) [
        | inl b ↦ rw b (record {
          balanced = as_committed r.id mark_already_committed (λ q. refl) s t ready (λ q. refl);
          ready = others-Ready r.id mark_already_committed (λ q. refl) s rs apart later;
        })
        | inr b ↦ rw b (record {
          balanced = as_failed r.id (mark_failed e) (λ q. refl) s t ready (λ q. refl);
          ready = others-Ready r.id (mark_failed e) (λ q. refl) s rs apart later;
        })
      ]

  commit_one-IsStep :
      (u : Bool) (r : StagedRow) (rs : List StagedRow) (s : Store) (w : W) (t : Tally)
      → All (λ (q : StagedRow). (q.id == r.id) ≡ false) rs
      → Ready r.id (stored s)
      → All (λ (q : StagedRow). Ready q.id (stored s)) rs
      → IsStep r rs s t
          (commit_one commit_row aborted tenant_id u s w t r).0
          (commit_one commit_row aborted tenant_id u s w t r).2
  unfolding commit_one
  commit_one-IsStep true r rs s w t apart ready later =
      in_transaction-IsStep r rs s w t (commit_row w tenant_id r.mapped_fields) apart ready later
  commit_one-IsStep false r rs s w t apart ready later =
      let s1 = update_one_staged s (id_is r.id ∷ []) mark_reserved in
      let step =
        settle_row-IsStep r rs s1 t (same_commit r.commit_status committing)
          (commit_row w tenant_id r.mapped_fields) apart
          (subst (Ready r.id) (sym (update-rows s r.id mark_reserved))
            (Ready-self r.id mark_reserved (λ q. refl) (λ q. refl) (stored s) ready))
          (others-Ready r.id mark_reserved (λ q. refl) s rs apart later) in
      record {
        balanced =
            IsBalanced-trans s s1 _ t t _
              (as_open r.id mark_reserved (λ q. refl) s t ready (λ q. refl)) step.balanced;
        ready = step.ready;
      }

  pub commit_each-IsBalanced :
      (u : Bool) (rs : List StagedRow) (s : Store) (w : W) (t : Tally)
      → DistinctIds rs
      → All (λ (q : StagedRow). Ready q.id (stored s)) rs
      → IsBalanced s t
          (commit_each commit_row aborted tenant_id u s w t rs).0
          (commit_each commit_row aborted tenant_id u s w t rs).2
  unfolding commit_each
  commit_each-IsBalanced u [] s w t d ready = record { in_committed = refl; in_failed = refl }
  commit_each-IsBalanced u (r ∷ rs) s w t (apart, d) (h, ready) =
      let (s', w', t') = commit_one commit_row aborted tenant_id u s w t r in
      let step = commit_one-IsStep u r rs s w t apart h ready in
      IsBalanced-trans s s' _ t t' _ step.balanced
        (commit_each-IsBalanced u rs s' w' t' d step.ready)
