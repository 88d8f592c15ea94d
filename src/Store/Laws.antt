-- ===== src/Store/Laws.antt =====
-- orchestration/adapters/inMemoryJobStore.js: bulk writes by id are one change of each row.
use universal_data_onboarder.Base.{
  ℕ, ◌≡◌, refl, Bool, true, false, List, [], ◌∷◌, ◌++◌, map, filter, ◌==◌, arith, Bool-cases, inl,
  inr, All, All-map, if◌then◌else◌, ap, ◌∙◌, sym,
}
use universal_data_onboarder.Base.Dict.{Dict}
use universal_data_onboarder.Store.{StagedRow, Store}
use universal_data_onboarder.Store.Rows.{
  id_is, BulkOp, all_rows, map_rows, update_where, update_one_staged, bulk_write_staged,
}

All-zip {ℓ κ ι} :
    {A : Type ℓ} (P : A → Type κ) (Q : A → Type ι) (xs : List A)
    → All P xs
    → All Q xs
    → All (λ a. P a × Q a) xs
All-zip P Q [] h k = tt
All-zip P Q (x ∷ xs) (p, h) (q, k) = ((p, q), All-zip P Q xs h k)

-- No id stands on two rows.
abbrev pub DistinctIds : List StagedRow → Type 0
DistinctIds [] = Unit
DistinctIds (r ∷ rs) = All (λ (q : StagedRow). (q.id == r.id) ≡ false) rs × DistinctIds rs

-- The operation that changes the row with the id of `r` by what `r` says.
abbrev pub by_id : (StagedRow → StagedRow → StagedRow) → StagedRow → BulkOp
by_id change r = record { filter_by = id_is r.id ∷ []; set = change r }

-- What a sequence of operations does to one row.
abbrev pub run : List BulkOp → StagedRow → StagedRow
run [] q = q
run (op ∷ ops) q = run ops (update_where op.filter_by op.set q)

map-map_ext :
    (f g h : StagedRow → StagedRow) (rows : List StagedRow)
    → ((q : StagedRow) → f (g q) ≡ h q)
    → map f (map g rows) ≡ map h rows
map-map_ext f g h [] e = refl
map-map_ext f g h (q ∷ rows) e = rw (e q, map-map_ext f g h rows e)

pub map_rows-map_rows :
    (f g : StagedRow → StagedRow) (d : Dict (List StagedRow))
    → map_rows f (map_rows g d) ≡ map_rows (λ q. f (g q)) d
unfolding map_rows
map_rows-map_rows f g [] = refl
map_rows-map_rows f g ((key, rows) ∷ d) =
    rw (map-map_ext f g (λ q. f (g q)) rows (λ q. refl), map_rows-map_rows f g d)

map_rows-id : (d : Dict (List StagedRow)) → map_rows (λ q. q) d ≡ d
unfolding map_rows
map_rows-id [] = refl
map_rows-id ((key, rows) ∷ d) = rw (map-id rows, map_rows-id d)
  where
    map-id : (rows : List StagedRow) → map (λ q. q) rows ≡ rows
    map-id [] = refl
    map-id (q ∷ rows) = ap (λ t. q ∷ t) (map-id rows)

pub bulk_write-run :
    (s : Store) (ops : List BulkOp)
    → (bulk_write_staged s ops).staged_records ≡ map_rows (run ops) s.staged_records
unfolding bulk_write_staged update_one_staged
bulk_write-run s [] = sym (map_rows-id s.staged_records)
bulk_write-run s (op ∷ ops) =
    bulk_write-run (update_one_staged s op.filter_by op.set) ops
    ∙ map_rows-map_rows (run ops) (update_where op.filter_by op.set) s.staged_records

map-All :
    (f g : StagedRow → StagedRow) (rows rest : List StagedRow)
    → All (λ q. f q ≡ g q) (rows ++ rest)
    → (map f rows ≡ map g rows) × All (λ q. f q ≡ g q) rest
map-All f g [] rest h = (refl, h)
map-All f g (q ∷ rows) rest (e, h) = let (d, k) = map-All f g rows rest h in (rw (e, d), k)

map_rows-All :
    (f g : StagedRow → StagedRow) (d : Dict (List StagedRow))
    → All (λ q. f q ≡ g q) (all_rows d)
    → map_rows f d ≡ map_rows g d
unfolding map_rows all_rows
map_rows-All f g [] h = refl
map_rows-All f g ((key, rows) ∷ d) h =
    let (e, k) = map-All f g rows (all_rows d) h in rw (e, map_rows-All f g d k)

module _ (change : StagedRow → StagedRow → StagedRow)
    (keeps : (r q : StagedRow) → (change r q).id ≡ q.id) (chosen : StagedRow → Bool) where
  -- The change of one row.
  abbrev pub changed : StagedRow → StagedRow
  changed q = if chosen q then change q q else q

  update_where-miss :
      (x q : StagedRow) (f : StagedRow → StagedRow)
      → (q.id == x.id) ≡ false
      → update_where (id_is x.id ∷ []) f q ≡ q
  unfolding update_where
  update_where-miss x q f e = rw e

  update_where-hit :
      (x : StagedRow) (f : StagedRow → StagedRow) → update_where (id_is x.id ∷ []) f x ≡ f x
  unfolding update_where
  update_where-hit x f = (let e : (x.id == x.id) ≡ true = ground arith in rw e)

  flip : (m n : ℕ) → (m == n) ≡ false → (n == m) ≡ false
  flip m n e = ground arith

  run-other :
      (q : StagedRow) (xs : List StagedRow)
      → All (λ (r : StagedRow). (q.id == r.id) ≡ false) xs
      → run (map (by_id change) (filter chosen xs)) q ≡ q
  run-other q [] h = refl
  run-other q (x ∷ xs) (n, h) = elim (Bool-cases (chosen x)) [
    | inl e ↦ rw e (
        ap (run (map (by_id change) (filter chosen xs))) (update_where-miss x q (change x) n)
        ∙ run-other q xs h)
    | inr e ↦ rw e (run-other q xs h)
  ]

  run-first :
      (x : StagedRow) (xs : List StagedRow)
      → All (λ (q : StagedRow). (q.id == x.id) ≡ false) xs
      → run (map (by_id change) (filter chosen (x ∷ xs))) x ≡ changed x
  run-first x xs n = elim (Bool-cases (chosen x)) [
    | inl e ↦ rw e (
        ap (run (map (by_id change) (filter chosen xs))) (update_where-hit x (change x))
        ∙ run-other (change x x) xs (All-map _ _ (λ q m. rw (keeps x x) (flip q.id x.id m)) xs n))
    | inr e ↦ rw e (run-other x xs (All-map _ _ (λ q m. flip q.id x.id m) xs n))
  ]

  run-later :
      (x q : StagedRow) (xs : List StagedRow)
      → ((q.id == x.id) ≡ false) × (run (map (by_id change) (filter chosen xs)) q ≡ changed q)
      → run (map (by_id change) (filter chosen (x ∷ xs))) q ≡ changed q
  run-later x q xs (n, h) = elim (Bool-cases (chosen x)) [
    | inl e ↦
        rw e (
          ap (run (map (by_id change) (filter chosen xs))) (update_where-miss x q (change x) n) ∙ h)
    | inr e ↦ rw e h
  ]

  run-each :
      (xs : List StagedRow)
      → DistinctIds xs
      → All (λ q. run (map (by_id change) (filter chosen xs)) q ≡ changed q) xs
  run-each [] h = tt
  run-each (x ∷ xs) (n, h) = (
    run-first x xs n,
    All-map _ _ (λ q k. run-later x q xs k) xs (All-zip _ _ xs n (run-each xs h)),
  )

  -- Operations by id, one for each chosen row, change each chosen row once and no other, when no
  -- id stands on two rows.
  pub bulk_write-by_id :
      (s : Store)
      → DistinctIds (all_rows s.staged_records)
      → (bulk_write_staged s
          (map (by_id change) (filter chosen (all_rows s.staged_records)))).staged_records
        ≡ map_rows changed s.staged_records
  bulk_write-by_id s d =
      bulk_write-run s (map (by_id change) (filter chosen (all_rows s.staged_records)))
      ∙ map_rows-All _ changed s.staged_records (run-each (all_rows s.staged_records) d)
