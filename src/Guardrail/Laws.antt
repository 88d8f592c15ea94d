-- ===== src/Guardrail/Laws.antt =====
-- core/guardrail/streamingGuardrail.js: what the decisions guarantee.
use mathlib.Core.Path.{subst}
use universal_data_onboarder.Base.{
  ℕ, ◌≤◌, ◌<◌, ◌≡◌, ◌↔◌, refl, true, false, List, [], ◌∷◌, ◌++◌, map, Option, none, some, length,
  exceeds, ltb, Text, arith, Bool-cases, inl, inr, if◌then◌else◌,
}
use universal_data_onboarder.Base.Result.{ok, >>=_inv, ok-injective}
use universal_data_onboarder.Value.{Fields, Host}
use universal_data_onboarder.Parsing.Formats.{Format, csv}
use universal_data_onboarder.Parsing.Collect.{Event, chunk, end_of_data}
use universal_data_onboarder.Parsing.Dispatch.{Source, Parsed, parse_streaming}
use universal_data_onboarder.Parsing.Dispatch.Laws.{parse_streaming_bounded, parse_streaming-csv}
use universal_data_onboarder.Guardrail.Tier.{Env, Tier, resolve}
use universal_data_onboarder.Guardrail.Reason.{Locale, Rejection}
use universal_data_onboarder.Guardrail.Check.{
  Verdict, after_parse, get_import_row_limit, check_import_guardrail, check_guardrail_streaming,
  check_import_file_size,
}

-- What a verdict of the streamed check must satisfy under a ceiling.
abbrev pub IsSound : ℕ → Verdict → Type 0
IsSound limit v =
    (length v.records ≤ limit)
    × (v.allowed ≡ false → (v.records ≡ []) × ((d : Rejection) × (v.details ≡ some d)))
    × (v.allowed ≡ true → v.details ≡ none)

module _ (env : Env) (l : Locale) where
  after_parse-IsSound :
      (tier : Tier) (p : Parsed)
      → exceeds (length p.records) (some tier.limit) ≡ false
      → IsSound tier.limit (after_parse env l tier p)
  unfolding check_guardrail_streaming
  after_parse-IsSound tier p fits = elim (Bool-cases p.exceeded) [
    | inl e ↦ rw e (omega arith, λ _. (refl, (_, refl)), λ k. cc k)
    | inr e ↦ rw e (ground arith, λ k. cc k, λ _. refl)
  ]

  -- The verdict of a streamed file, whatever its format: an import that is allowed holds at most
  -- the tenant's ceiling of records; one that is not holds none, and says why.
  pub check_guardrail_streaming_sound :
      (h : Host) (tenant_id : Text) (source : Source) (f : Format) (sql_table : Option Text)
      (v : Verdict)
      → check_guardrail_streaming env l h tenant_id source f sql_table ≡ ok v
      → (length v.records ≤ (get_import_row_limit env l tenant_id).limit)
        × (v.allowed ≡ false → (v.records ≡ []) × ((d : Rejection) × (v.details ≡ some d)))
        × (v.allowed ≡ true → v.details ≡ none)
  unfolding check_guardrail_streaming
  check_guardrail_streaming_sound h tenant_id source f sql_table v e =
      let limit : ℕ = (get_import_row_limit env l tenant_id).limit in
      let (p, q, parsed) = >>=_inv (parse_streaming h source f (some limit) sql_table) _ e in
      subst (IsSound limit) (ok-injective q) (
        after_parse-IsSound (get_import_row_limit env l tenant_id) p
          (parse_streaming_bounded h source f (some limit) sql_table p parsed).0)

  -- The streamed check of a CSV file and the check of its row count decide alike, and an allowed
  -- file comes with all its rows.
  pub streaming-eq-counted :
      (h : Host) (tenant_id : Text) (source : Source) (rows : List Fields)
      (later : List (Event Fields)) (sql_table : Option Text)
      → source.csv_events ≡ map chunk rows ++ end_of_data ∷ later
      → (v : Verdict) × (check_guardrail_streaming env l h tenant_id source csv sql_table ≡ ok v)
        × (v.allowed ≡ (check_import_guardrail env l tenant_id (length rows)).allowed)
        × (v.records ≡ (if v.allowed then rows else []))
  unfolding check_guardrail_streaming check_import_guardrail
  streaming-eq-counted h tenant_id source rows later sql_table e =
      let tier : Tier = get_import_row_limit env l tenant_id in
      rw (parse_streaming-csv h source rows later (some tier.limit) sql_table e)
        (elim (Bool-cases (ltb tier.limit (length rows))) [
          | inl over ↦ rw over (_, refl, refl, refl)
          | inr fits ↦ rw fits (_, refl, refl, refl)
        ])

  -- A size is refused exactly when it is above the tenant's byte ceiling; no size, never.
  pub check_import_file_size_iff :
      (tenant_id : Text) (size : ℕ)
      → (((check_import_file_size env l tenant_id (some size)).allowed ≡ false)
          ↔ ((resolve env tenant_id).limit_bytes < size))
        × ((check_import_file_size env l tenant_id none).allowed ≡ true)
  unfolding check_import_file_size
  check_import_file_size_iff tenant_id size = ground arith
