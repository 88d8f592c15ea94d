-- ===== src/Validation/Rules/Laws.antt =====
-- core/validation/validateRows.js: one valid row for each identity.
use universal_data_onboarder.Base.{
  ◌≤◌, ◌≡◌, refl, Bool, true, false, ◌&&◌, List, [], ◌∷◌, ◌++◌, count, Text, ===_iff, arith,
  Bool-cases, inl, inr, ◌∙◌, ap,
}
use universal_data_onboarder.Value.{Value, null, bool, num, str, date, Host}
use universal_data_onboarder.Registry.{Descriptor}
use universal_data_onboarder.Store.{RowError, StagedRow}
use universal_data_onboarder.Validation.Rules.{
  Answers, same_value, has_value, identity_errors, now_seen, identity_of, mapped_of, row_errors,
  check_rows, is_valid, required_errors, enum_errors, reference_errors,
}

pub is_valid-append : (xs ys : List RowError) → is_valid (xs ++ ys) ≡ (is_valid xs && is_valid ys)
is_valid-append [] ys = refl
is_valid-append (x ∷ xs) ys = refl

module _ (h : Host) (d : Descriptor) (a : Answers) (k : Text) where
  -- A row without errors whose identity is the text.
  abbrev pub is_owner : StagedRow × List RowError → Bool
  is_owner (r, es) = is_valid es && same_value (identity_of d r) (str k)

  same_value_str : (v : Value) → same_value v (str k) ≡ true → v ≡ str k
  unfolding same_value
  same_value_str (str s) e = (let same : s ≡ k = ground (arith, ===_iff s k) in ap str same)
  same_value_str null e = absurd (cc e)
  same_value_str (bool true) e = absurd (cc e)
  same_value_str (bool false) e = absurd (cc e)
  same_value_str (num n) e = absurd (cc e)
  same_value_str (date n) e = absurd (cc e)

  row_errors-identity :
      (seen : List Value) (r : StagedRow)
      → is_valid (identity_errors h a seen d.identity_field (identity_of d r)) ≡ false
      → is_valid (row_errors h d a seen r) ≡ false
  unfolding row_errors
  row_errors-identity seen r e =
      let own = identity_errors h a seen d.identity_field (identity_of d r) in
      let found = reference_errors d.fields a.reference_lookups (mapped_of r) d.reference_fields in
      let listed = enum_errors (mapped_of r) d.fields in
      let first = required_errors d.fields (mapped_of r) d.fields in
      let last = is_valid-append own found in
      let middle = is_valid-append listed (own ++ found) in
      let whole = is_valid-append first (listed ++ own ++ found) in ground arith

  identity_errors-repeated :
      (seen : List Value)
      → has_value a.duplicate_identity_values (str k) ≡ true
      → has_value seen (str k) ≡ true
      → is_valid (identity_errors h a seen d.identity_field (str k)) ≡ false
  unfolding identity_errors
  identity_errors-repeated seen dup s = rw (dup, s) refl

  -- Once the text was seen, no later row with it is valid.
  seen-invalid :
      (seen : List Value) (r : StagedRow)
      → has_value a.duplicate_identity_values (str k) ≡ true
      → has_value seen (str k) ≡ true
      → is_owner (r, row_errors h d a seen r) ≡ false
  seen-invalid seen r dup s = elim (Bool-cases (same_value (identity_of d r) (str k))) [
    | inl e ↦
        let bad : is_valid (row_errors h d a seen r) ≡ false = row_errors-identity seen r (
          ap (λ v. is_valid (identity_errors h a seen d.identity_field v))
            (same_value_str (identity_of d r) e)
          ∙ identity_errors-repeated seen dup s) in
        rw bad refl
    | inr e ↦ (let no = e in ground arith)
  ]

  now_seen-grows :
      (seen : List Value) (v : Value)
      → has_value seen (str k) ≡ true
      → has_value (now_seen a seen v) (str k) ≡ true
  unfolding now_seen
  now_seen-grows seen v s = ground arith

  same_value_refl : same_value (str k) (str k) ≡ true
  unfolding same_value
  same_value_refl = ground (arith, ===_iff k k)

  now_seen_self :
      (seen : List Value)
      → has_value a.duplicate_identity_values (str k) ≡ true
      → has_value (now_seen a seen (str k)) (str k) ≡ true
  unfolding now_seen
  now_seen_self seen dup = rw (dup, same_value_refl) refl

  count-seen :
      (seen : List Value) (rs : List StagedRow)
      → has_value a.duplicate_identity_values (str k) ≡ true
      → has_value seen (str k) ≡ true
      → count is_owner (check_rows h d a seen rs) ≡ 0
  unfolding check_rows
  count-seen seen [] dup s = refl
  count-seen seen (r ∷ rs) dup s = rw (seen-invalid seen r dup s) (
      count-seen (now_seen a seen (identity_of d r)) rs dup
        (now_seen-grows seen (identity_of d r) s))

  -- Of the rows whose identity is a text that the duplicate groups name, at most one passes the
  -- checks.
  pub check_rows_one_owner :
      (seen : List Value) (rs : List StagedRow)
      → has_value a.duplicate_identity_values (str k) ≡ true
      → count is_owner (check_rows h d a seen rs) ≤ 1
  unfolding check_rows
  check_rows_one_owner seen [] dup = omega arith
  check_rows_one_owner seen (r ∷ rs) dup =
      elim (Bool-cases (is_owner (r, row_errors h d a seen r))) [
        | inl e ↦
            let mine : same_value (identity_of d r) (str k) ≡ true = ground arith in
            let later : count is_owner (check_rows h d a (now_seen a seen (identity_of d r)) rs)
                ≡ 0 =
              count-seen (now_seen a seen (identity_of d r)) rs dup (
                ap (λ v. has_value (now_seen a seen v) (str k))
                  (same_value_str (identity_of d r) mine)
                ∙ now_seen_self seen dup) in
            rw e (omega (arith, later))
        | inr e ↦ rw e (check_rows_one_owner (now_seen a seen (identity_of d r)) rs dup)
      ]
