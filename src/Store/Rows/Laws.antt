-- ===== src/Store/Rows/Laws.antt =====
-- orchestration/adapters/inMemoryJobStore.js: updates by id, a saved row, and the sort
-- of a cursor.
use universal_data_onboarder.Base.{
  ℕ, ◌≡◌, refl, Bool, true, false, ◌||◌, List, [], ◌∷◌, ◌++◌, map, any, ◌==◌, arith, Bool-cases,
  ◌⊎◌, inl, inr, All, ap, ◌∙◌, sym, some, none, filter, if◌then◌else◌, leb, All-filter,
}
use universal_data_onboarder.Base.Dict.{Dict}
use universal_data_onboarder.Store.{StagedRow, Store}
use universal_data_onboarder.Store.Rows.{
  id_is, all_rows, map_rows, update_where, sort_by_index, insert_sorted, Condition, matches,
  first_match, find_one_staged, replace_first, replace_in, has_id, save_row, cursor_staged,
}
use universal_data_onboarder.Store.Laws.{DistinctIds}

-- An update by id changes the row with this id, and no other.
pub update_where-cases :
    (n : ℕ) (f : StagedRow → StagedRow) (q : StagedRow)
    → ((update_where (id_is n ∷ []) f q ≡ f q) × ((q.id == n) ≡ true))
      ⊎ ((update_where (id_is n ∷ []) f q ≡ q) × ((q.id == n) ≡ false))
unfolding update_where
update_where-cases n f q = elim (Bool-cases (q.id == n)) [
  | inl e ↦ inl (rw e, e)
  | inr e ↦ inr (rw e, e)
]

map-append :
    (f : StagedRow → StagedRow) (xs ys : List StagedRow) → map f (xs ++ ys) ≡ map f xs ++ map f ys
map-append f [] ys = refl
map-append f (x ∷ xs) ys = ap (λ t. f x ∷ t) (map-append f xs ys)

pub all_rows-map_rows :
    (f : StagedRow → StagedRow) (d : Dict (List StagedRow))
    → all_rows (map_rows f d) ≡ map f (all_rows d)
unfolding all_rows map_rows
all_rows-map_rows f [] = refl
all_rows-map_rows f ((key, rows) ∷ d) =
    ap (λ t. map f rows ++ t) (all_rows-map_rows f d) ∙ sym (map-append f rows (all_rows d))

pub All-mapped :
    (P : StagedRow → Type 0) (f : StagedRow → StagedRow) (xs : List StagedRow)
    → All (λ q. P (f q)) xs
    → All P (map f xs)
All-mapped P f [] h = tt
All-mapped P f (x ∷ xs) (p, h) = (p, All-mapped P f xs h)

-- A row with this id stands in the list.
abbrev pub has_row : ℕ → List StagedRow → Bool
has_row n rows = any (λ r. r.id == n) rows

has_row-insert :
    (n : ℕ) (r : StagedRow) (rs : List StagedRow)
    → has_row n (insert_sorted r rs) ≡ (r.id == n || has_row n rs)
unfolding insert_sorted
has_row-insert n r [] = refl
has_row-insert n r (q ∷ qs) = ground (arith, has_row-insert n r qs)

pub has_row-sort : (n : ℕ) (rs : List StagedRow) → has_row n (sort_by_index rs) ≡ has_row n rs
unfolding sort_by_index
has_row-sort n [] = refl
has_row-sort n (r ∷ rs) =
    has_row-insert n r (sort_by_index rs) ∙ ap (λ b. r.id == n || b) (has_row-sort n rs)

first_match-matches :
    (conditions : List Condition) (rows : List StagedRow) (q : StagedRow)
    → first_match conditions rows ≡ some q
    → matches conditions q ≡ true
unfolding first_match
first_match-matches conditions [] q e = absurd (cc e)
first_match-matches conditions (r ∷ rows) q e = elim (Bool-cases (matches conditions r)) [
  | inl y ↦ let same : r ≡ q = cc (rw y at e) in ap (matches conditions) (sym same) ∙ y
  | inr n ↦ first_match-matches conditions rows q (rw n at e)
]

-- A row that is found meets the conditions.
pub find_one_staged-matches :
    (s : Store) (conditions : List Condition) (q : StagedRow)
    → find_one_staged s conditions ≡ some q
    → matches conditions q ≡ true
unfolding find_one_staged
find_one_staged-matches s conditions q e =
    first_match-matches conditions (all_rows s.staged_records) q e

-- A row in the place of the one with its id.
abbrev pub replaced : StagedRow → StagedRow → StagedRow
replaced new q = if q.id == new.id then new else q

replaced_others :
    (new : StagedRow) (rows : List StagedRow)
    → All (λ (q : StagedRow). (q.id == new.id) ≡ false) rows
    → map (replaced new) rows ≡ rows
replaced_others new [] h = refl
replaced_others new (q ∷ rows) (n, h) = rw (n, replaced_others new rows h) refl

absent_others :
    (n : ℕ) (rows : List StagedRow)
    → has_row n rows ≡ false
    → All (λ (q : StagedRow). (q.id == n) ≡ false) rows
absent_others n [] h = tt
absent_others n (q ∷ rows) h = (ground (arith, h), absent_others n rows (ground (arith, h)))

DistinctIds-drop : (xs ys : List StagedRow) → DistinctIds (xs ++ ys) → DistinctIds ys
DistinctIds-drop [] ys d = d
DistinctIds-drop (x ∷ xs) ys (n, d) = DistinctIds-drop xs ys d

replace_first-replaced :
    (new : StagedRow) (rows rest : List StagedRow)
    → DistinctIds (rows ++ rest)
    → has_row new.id rows ≡ true
    → replace_first new rows ++ rest ≡ map (replaced new) (rows ++ rest)
unfolding replace_first
replace_first-replaced new [] rest d h = absurd (cc h)
replace_first-replaced new (r ∷ rows) rest (n, d) h = elim (Bool-cases (r.id == new.id)) [
  | inl y ↦
      let same : r.id ≡ new.id = ground (arith, y) in
      rw (y, replaced_others new (rows ++ rest) (rw same at n)) refl
  | inr a ↦ rw a (ap (λ t. r ∷ t) (replace_first-replaced new rows rest d (ground (arith, h, a))))
]

replace_in-replaced :
    (new : StagedRow) (d : Dict (List StagedRow))
    → DistinctIds (all_rows d)
    → all_rows (replace_in new d) ≡ map (replaced new) (all_rows d)
unfolding replace_in all_rows has_id
replace_in-replaced new [] distinct = refl
replace_in-replaced new ((key, rows) ∷ d) distinct = elim (Bool-cases (has_row new.id rows)) [
  | inl y ↦ rw y (replace_first-replaced new rows (all_rows d) distinct y)
  | inr n ↦ rw n (
      ap (λ t. rows ++ t) (replace_in-replaced new d (DistinctIds-drop rows (all_rows d) distinct))
      ∙ ap (λ t. t ++ map (replaced new) (all_rows d))
          (sym (replaced_others new rows (absent_others new.id rows n)))
      ∙ sym (map-append (replaced new) rows (all_rows d)))
]

-- A saved row stands in the place of the one with its id, and no other row is changed.
pub save_row-rows :
    (s : Store) (new : StagedRow)
    → DistinctIds (all_rows s.staged_records)
    → all_rows (save_row s new).staged_records ≡ map (replaced new) (all_rows s.staged_records)
unfolding save_row
save_row-rows s new d = replace_in-replaced new s.staged_records d

gone :
    (conditions : List Condition) (new : StagedRow) (rows : List StagedRow)
    → matches conditions new ≡ false
    → has_row new.id (filter (matches conditions) (map (replaced new) rows)) ≡ false
gone conditions new [] out = refl
gone conditions new (q ∷ rows) out = elim (Bool-cases (q.id == new.id)) [
  | inl y ↦ rw (y, out) (gone conditions new rows out)
  | inr n ↦ rw n (elim (Bool-cases (matches conditions q)) [
    | inl m ↦ rw (m, n) (gone conditions new rows out)
    | inr m ↦ rw m (gone conditions new rows out)
  ])
]

-- A saved row that does not meet the conditions is not handed out by their cursor.
pub save_row-out :
    (s : Store) (new : StagedRow) (conditions : List Condition)
    → DistinctIds (all_rows s.staged_records)
    → matches conditions new ≡ false
    → has_row new.id (cursor_staged (save_row s new) conditions true none) ≡ false
unfolding cursor_staged
save_row-out s new conditions d out =
    has_row-sort new.id (filter (matches conditions) (all_rows (save_row s new).staged_records))
    ∙ ap (λ t. has_row new.id (filter (matches conditions) t)) (save_row-rows s new d)
    ∙ gone conditions new (all_rows s.staged_records) out

module _ {κ} (P : StagedRow → Type κ) where
  All-insert : (r : StagedRow) (qs : List StagedRow) → P r → All P qs → All P (insert_sorted r qs)
  unfolding insert_sorted
  All-insert r [] p h = (p, tt)
  All-insert r (q ∷ qs) p (k, h) = elim (Bool-cases (leb r.row_index q.row_index)) [
    | inl y ↦ rw y (p, (k, h))
    | inr n ↦ rw n (k, All-insert r qs p h)
  ]

  pub All-sort : (rs : List StagedRow) → All P rs → All P (sort_by_index rs)
  unfolding sort_by_index
  All-sort [] h = tt
  All-sort (r ∷ rs) (p, h) = All-insert r (sort_by_index rs) p (All-sort rs h)

DistinctIds-insert :
    (r : StagedRow) (qs : List StagedRow)
    → All (λ (q : StagedRow). (q.id == r.id) ≡ false) qs
    → DistinctIds qs
    → DistinctIds (insert_sorted r qs)
unfolding insert_sorted
DistinctIds-insert r [] h d = (tt, tt)
DistinctIds-insert r (q ∷ qs) (a, h) (n, d) = elim (Bool-cases (leb r.row_index q.row_index)) [
  | inl y ↦ rw y ((a, h), (n, d))
  | inr o ↦ rw o (
    All-insert (λ x. (x.id == q.id) ≡ false) r qs (ground (arith, a)) n,
    DistinctIds-insert r qs h d,
  )
]

-- Sorting and choosing keep the ids apart.
pub DistinctIds-sort : (rs : List StagedRow) → DistinctIds rs → DistinctIds (sort_by_index rs)
unfolding sort_by_index
DistinctIds-sort [] d = tt
DistinctIds-sort (r ∷ rs) (n, d) =
    DistinctIds-insert r (sort_by_index rs) (All-sort (λ q. (q.id == r.id) ≡ false) rs n)
      (DistinctIds-sort rs d)

pub DistinctIds-filter :
    (p : StagedRow → Bool) (rs : List StagedRow) → DistinctIds rs → DistinctIds (filter p rs)
DistinctIds-filter p [] d = tt
DistinctIds-filter p (r ∷ rs) (n, d) = elim (Bool-cases (p r)) [
  | inl y ↦ rw y (All-filter _ p rs n, DistinctIds-filter p rs d)
  | inr o ↦ rw o (DistinctIds-filter p rs d)
]
