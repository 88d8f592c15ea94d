-- ===== src/Session/References/Laws.antt =====
-- orchestration/sessionManager.js: what the session adds to the target's own resolution.
use universal_data_onboarder.Base.{
  ◌≡◌, refl, sym, ◌∙◌, ◌⊎◌, inl, inr, Bool-cases, Bool, true, false, not, List, [], ◌∷◌, Option,
  none, some, Text, map, filter, includes, ◌===◌, ===_iff, arith, All, Option-cases,
}
use universal_data_onboarder.Base.Dict.{Dict, get, put, has, get-put}
use universal_data_onboarder.Session.Graph.{or_else}
use universal_data_onboarder.Session.Db.{SessionDb}
use universal_data_onboarder.Session.References.{
  Reference, staged_row, Resolved, FoundRow, RowDb, add_rows, missing_values, is_empty,
  resolve_field, resolve_fields, resolve_in, resolve_session_references, entity_for,
}

-- What a value of a field refers to.
abbrev pub lookup : Resolved → Text → Text → Option Reference
lookup resolved field v = get (or_else [] (get resolved field)) v

abbrev pub is_staged : Option Reference → Bool
is_staged (some (staged_row id fields)) = true
is_staged _ = false

-- The rows that are found have external ids that were asked for.
abbrev pub AsksFor : {S : Type 0} → RowDb S → Type 0
AsksFor {S} rows =
    (s : S) (job_ids : List Text) (e : Text) (ids : List Text)
    → All (λ r. includes ids r.external_id ≡ true) (rows.find_rows s job_ids e ids)

-- An answer is kept, or a value that had none is given a staged row.
abbrev pub Extends : Option Reference → Option Reference → Type 0
Extends before after = (after ≡ before) ⊎ ((before ≡ none) × (is_staged after ≡ true))

Extends-trans : (a b c : Option Reference) → Extends a b → Extends b c → Extends a c
Extends-trans a b c (inl p) (inl q) = inl (q ∙ p)
Extends-trans a b c (inl p) (inr (n, st)) = inr (sym p ∙ n, st)
Extends-trans a b c (inr (n, st)) (inl q) = inr (n, rw q st)
Extends-trans a b c (inr (n, st)) (inr (m, st')) = inr (n, st')

add_rows-other :
    (ids : List Text) (found : Dict Reference) (rs : List FoundRow) (v : Text)
    → includes ids v ≡ false
    → All (λ r. includes ids r.external_id ≡ true) rs
    → get (add_rows found rs) v ≡ get found v
unfolding add_rows
add_rows-other ids found [] v unasked asked = refl
add_rows-other ids found (r ∷ rs) v unasked (a, asked) =
    let new = staged_row r.external_id r.mapped_fields in
    add_rows-other ids (put found r.external_id new) rs v unasked asked
    ∙ ground (arith, get-put found r.external_id v new, ===_iff r.external_id v)

add_rows-staged :
    (found : Dict Reference) (rs : List FoundRow) (v : Text)
    → (get (add_rows found rs) v ≡ get found v) ⊎ (is_staged (get (add_rows found rs) v) ≡ true)
unfolding add_rows
add_rows-staged found [] v = inl refl
add_rows-staged found (r ∷ rs) v =
    let new = staged_row r.external_id r.mapped_fields in
    elim (add_rows-staged (put found r.external_id new) rs v) [
      | inr st ↦ inr st
      | inl same ↦ elim (Bool-cases (r.external_id === v)) [
        | inl hit ↦ inr (rw (same, get-put found r.external_id v new, hit) refl)
        | inr miss ↦ inl (same ∙ rw (get-put found r.external_id v new, miss) refl)
      ]
    ]

missing_has :
    (found : Dict Reference) (values : List Text) (v : Text)
    → includes (filter (λ w. not (has found w)) values) v ≡ true
    → get found v ≡ none
missing_has found [] v there = absurd (cc there)
missing_has found (w ∷ values) v there = ground (arith, missing_has found values v, ===_iff w v)

found_Extends :
    (found : Dict Reference) (values : List Text) (rs : List FoundRow) (v : Text)
    → All (λ r. includes (filter (λ w. not (has found w)) values) r.external_id ≡ true) rs
    → Extends (get found v) (get (add_rows found rs) v)
found_Extends found values rs v asked =
    let ids = filter (λ w. not (has found w)) values in
    elim (Bool-cases (includes ids v)) [
      | inr unasked ↦ inl (add_rows-other ids found rs v unasked asked)
      | inl there ↦ elim (add_rows-staged found rs v) [
        | inl same ↦ inl same
        | inr st ↦ inr (missing_has found values v there, st)
      ]
    ]

module _ {S : Type 0} (db : SessionDb S) (rows : RowDb S) (asks : AsksFor rows) (s : S)
    (job_ids : List Text) (values : Dict (List Text)) where
  field_Extends :
      (resolved : Resolved) (field f v : Text)
      → Extends
          (lookup resolved f v)
          (lookup (resolve_field db rows s job_ids values resolved field) f v)
  unfolding resolve_field missing_values
  field_Extends resolved field f v =
      let missing = missing_values values resolved field in
      let found = or_else [] (get resolved field) in
      let rs = rows.find_rows s job_ids (entity_for field) missing in
      elim (Bool-cases (is_empty missing)) [
        | inl y ↦ rw y (inl refl)
        | inr n ↦
            rw (n, get-put resolved field f (add_rows found rs))
              (elim (Bool-cases (field === f)) [
                | inr other ↦ rw other (inl refl)
                | inl same ↦
                    rw (same, ← (===_iff field f).0 same)
                      (found_Extends found (or_else [] (get values field)) rs v
                        (asks s job_ids (entity_for field) missing))
              ])
      ]

  fields_Extends :
      (resolved : Resolved) (fields : List Text) (f v : Text)
      → Extends
          (lookup resolved f v)
          (lookup (resolve_fields db rows s job_ids values resolved fields) f v)
  unfolding resolve_fields
  fields_Extends resolved [] f v = inl refl
  fields_Extends resolved (g ∷ gs) f v =
      let next = resolve_field db rows s job_ids values resolved g in
      Extends-trans (lookup resolved f v) (lookup next f v)
        (lookup (resolve_fields db rows s job_ids values next gs) f v)
        (field_Extends resolved g f v) (fields_Extends next gs f v)

-- The session never changes an answer of the target's own resolution: for each field and each
-- value the answer is the target's, or the target had none and it is a staged row.
pub resolve_session_references-Extends :
    {S : Type 0} (db : SessionDb S) (rows : RowDb S)
    → AsksFor rows
    → (s : S) (session_id : Text) (reference_fields : List Text) (values : Dict (List Text))
    → (own : Resolved) (field v : Text)
    → Extends (lookup own field v) (
        lookup
          (resolve_session_references db rows s session_id reference_fields values own)
          field
          v)
unfolding resolve_session_references resolve_in
resolve_session_references-Extends db rows asks s session_id reference_fields values own field v =
    elim (Option-cases (db.find_session s session_id)) [
      | inl missing ↦ rw missing (inl refl)
      | inr (x, found) ↦ elim (Bool-cases (is_empty x.jobs)) [
        | inl y ↦ rw (found, y) (inl refl)
        | inr n ↦
            rw (found, n)
              (fields_Extends db rows asks s (map (λ j. j.import_job_id) x.jobs) values own
                (filter (λ f. includes (map (λ j. j.entity_key) x.jobs) (entity_for f))
                  reference_fields)
                field v)
      ]
    ]
