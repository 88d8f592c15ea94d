-- ===== src/Commit/Batch/Ready.antt =====
-- core/commit/commitBatch.js: the count of the rows with a status, when one row is marked.
use universal_data_onboarder.Base.{
  ℕ, suc, ◌≡◌, refl, ap, ◌∙◌, Bool, true, false, List, [], ◌∷◌, map, count, ◌==◌, arith, Bool-cases,
  ◌⊎◌, inl, inr,
}
use universal_data_onboarder.Store.{StagedRow, CommitStatus, pending, committing, committed, failed}
use universal_data_onboarder.Store.Rows.{id_is, update_where}
use universal_data_onboarder.Store.Rows.Laws.{has_row, update_where-cases}

abbrev pub is_open : CommitStatus → Bool
is_open pending = true
is_open committing = true
is_open committed = false
is_open failed = false

-- One row has this id, and it is not settled.
abbrev pub Ready : ℕ → List StagedRow → Type 0
Ready n [] = ⊥
Ready n (q ∷ rows) =
    (((q.id == n) ≡ true) × (is_open q.commit_status ≡ true) × (has_row n rows ≡ false))
    ⊎ (((q.id == n) ≡ false) × Ready n rows)

module _ (n : ℕ) (f : StagedRow → StagedRow) (keeps : (q : StagedRow) → (f q).id ≡ q.id) where
  abbrev mark : StagedRow → StagedRow
  mark = update_where (id_is n ∷ []) f

  mark-hit : (q : StagedRow) → (q.id == n) ≡ true → mark q ≡ f q
  mark-hit q y = elim (update_where-cases n f q) [
    | inl (u, e) ↦ u
    | inr (u, e) ↦ absurd (cc (y, e))
  ]

  mark-miss : (q : StagedRow) → (q.id == n) ≡ false → mark q ≡ q
  mark-miss q y = elim (update_where-cases n f q) [
    | inl (u, e) ↦ absurd (cc (y, e))
    | inr (u, e) ↦ u
  ]

  mark-id : (q : StagedRow) → (mark q).id ≡ q.id
  mark-id q = elim (update_where-cases n f q) [
    | inl (u, e) ↦ ap (λ (t : StagedRow). t.id) u ∙ keeps q
    | inr (u, e) ↦ ap (λ (t : StagedRow). t.id) u
  ]

  mark_absent : (rows : List StagedRow) → has_row n rows ≡ false → map mark rows ≡ rows
  mark_absent [] h = refl
  mark_absent (q ∷ rows) h =
      rw (mark-miss q (ground (arith, h)), mark_absent rows (ground (arith, h))) refl

  has_row-mark : (m : ℕ) (rows : List StagedRow) → has_row m (map mark rows) ≡ has_row m rows
  has_row-mark m [] = refl
  has_row-mark m (q ∷ rows) = rw (mark-id q, has_row-mark m rows) refl

  -- A row that is marked enters the count of the rows with its new status.
  pub count_in :
      (p : StagedRow → Bool)
      → ((q : StagedRow) → is_open q.commit_status ≡ true → p q ≡ false)
      → ((q : StagedRow) → p (f q) ≡ true)
      → (rows : List StagedRow) → Ready n rows
      → count p (map mark rows) ≡ suc (count p rows)
  count_in p before after [] h = absurd h
  count_in p before after (q ∷ rows) (inl (y, o, h)) =
      rw (mark-hit q y, after q, before q o, mark_absent rows h) refl
  count_in p before after (q ∷ rows) (inr (y, h)) = rw (mark-miss q y) (
      let rest = count_in p before after rows h in
      elim (Bool-cases (p q)) [ inl c ↦ rw (c, rest) refl | inr c ↦ rw (c, rest) refl ])

  pub count_out :
      (p : StagedRow → Bool)
      → ((q : StagedRow) → is_open q.commit_status ≡ true → p q ≡ false)
      → ((q : StagedRow) → p (f q) ≡ false)
      → (rows : List StagedRow) → Ready n rows
      → count p (map mark rows) ≡ count p rows
  count_out p before after [] h = absurd h
  count_out p before after (q ∷ rows) (inl (y, o, h)) =
      rw (mark-hit q y, after q, before q o, mark_absent rows h) refl
  count_out p before after (q ∷ rows) (inr (y, h)) = rw (mark-miss q y) (
      let rest = count_out p before after rows h in
      elim (Bool-cases (p q)) [ inl c ↦ rw (c, rest) refl | inr c ↦ rw (c, rest) refl ])

  pub Ready-other :
      (m : ℕ) → (m == n) ≡ false → (rows : List StagedRow) → Ready m rows → Ready m (map mark rows)
  Ready-other m apart [] h = h
  Ready-other m apart (q ∷ rows) (inl (y, o, h)) =
      rw (mark-miss q (ground (arith, y, apart))) (inl (y, o, has_row-mark m rows ∙ h))
  Ready-other m apart (q ∷ rows) (inr (y, h)) = inr (rw (mark-id q) y, Ready-other m apart rows h)

  pub Ready-self :
      ((q : StagedRow) → is_open (f q).commit_status ≡ true)
      → (rows : List StagedRow) → Ready n rows
      → Ready n (map mark rows)
  Ready-self after [] h = h
  Ready-self after (q ∷ rows) (inl (y, o, h)) =
      inl (rw (mark-id q) y, rw (mark-hit q y) (after q), has_row-mark n rows ∙ h)
  Ready-self after (q ∷ rows) (inr (y, h)) = inr (rw (mark-id q) y, Ready-self after rows h)
