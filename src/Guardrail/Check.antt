-- ===== src/Guardrail/Check.antt =====
-- core/guardrail/streamingGuardrail.js: the three checks of an import against its ceilings.
use universal_data_onboarder.Base.{
  ℕ, Bool, true, false, List, [], ◌++◌, Option, none, some, ltb, Text, codes, if◌then◌else◌,
}
use universal_data_onboarder.Base.Result.{Result, ok, ◌>>=◌}
use universal_data_onboarder.Value.{Fields, Host}
use universal_data_onboarder.Parsing.Formats.{Format}
use universal_data_onboarder.Parsing.Dispatch.{Source, ParseError, Parsed, parse_streaming}
use universal_data_onboarder.Guardrail.Tier.{Env, Tier, resolve}
use universal_data_onboarder.Guardrail.Reason.{
  Locale, Current, counted, label, Dimension, rows, bytes, Rejection, describe_guardrail_rejection,
}

-- What the checks return. `reason` is that of `details`, null where the import is allowed;
-- `limit` is `limitBytes` for the check of a size.
pub record Verdict : Type 0 where
  pub allowed : Bool
  pub limit : ℕ
  pub storage_mode : Text
  pub records : List Fields
  pub table_name : Option Text
  pub details : Option Rejection

abbrev pub reason : Verdict → Option Text
reason v = elim v.details [ none ↦ none | some d ↦ some d.reason ]

module _ (env : Env) (l : Locale) where
  -- `getImportRowLimit`
  unfoldable pub get_import_row_limit : Text → Tier
  unfolding resolve
  get_import_row_limit tenant_id = resolve env tenant_id

  accept : Text → ℕ → Verdict
  accept mode limit = record {
    allowed = true;
    limit = limit;
    storage_mode = mode;
    records = [];
    table_name = none;
    details = none;
  }

  reject : Text → Dimension → ℕ → Current → Verdict
  unfolding describe_guardrail_rejection
  reject mode dimension limit current = record {
    allowed = false;
    limit = limit;
    storage_mode = mode;
    records = [];
    table_name = none;
    details = some (describe_guardrail_rejection env l mode dimension limit current);
  }

  -- `checkImportFileSize`; a size that is not given is not checked.
  unfoldable pub check_import_file_size : Text → Option ℕ → Verdict
  unfolding resolve accept reject
  check_import_file_size tenant_id none =
      let tier = resolve env tenant_id in accept tier.storage_mode tier.limit_bytes
  check_import_file_size tenant_id (some size) =
      let tier = resolve env tenant_id in
      if ltb tier.limit_bytes size
      then reject tier.storage_mode bytes tier.limit_bytes (counted size)
      else accept tier.storage_mode tier.limit_bytes

  -- `checkImportGuardrail`
  unfoldable pub check_import_guardrail : Text → ℕ → Verdict
  unfolding accept reject
  check_import_guardrail tenant_id row_count =
      let tier = get_import_row_limit tenant_id in
      if ltb tier.limit row_count
      then reject tier.storage_mode rows tier.limit (counted row_count)
      else accept tier.storage_mode tier.limit

  pub after_parse : Tier → Parsed → Verdict
  unfolding accept reject
  after_parse tier p =
      let no : Verdict =
        reject tier.storage_mode rows tier.limit
          (label (codes "more than " ++ l.grouped tier.limit)) in
      let allow : Verdict = accept tier.storage_mode tier.limit in
      if p.exceeded
      then record no { table_name = p.table_name }
      else record allow { records = p.records; table_name = p.table_name }

  -- `checkGuardrailStreaming`: the ceiling first, then the parse under it.
  unfoldable pub check_guardrail_streaming :
      Host → Text → Source → Format → Option Text → Result ParseError Verdict
  unfolding after_parse
  check_guardrail_streaming h tenant_id source format sql_table = do
    let tier = get_import_row_limit tenant_id
    parsed ← parse_streaming h source format (some tier.limit) sql_table
    ok (after_parse tier parsed)
