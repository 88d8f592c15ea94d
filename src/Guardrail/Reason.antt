-- ===== src/Guardrail/Reason.antt =====
-- core/guardrail/streamingGuardrail.js: the text and the structure of a rejection.
--
-- `toLocaleString`, `toFixed(1)` of a number of megabytes and `String` of a number are arguments
-- (a `Locale`).
use universal_data_onboarder.Base.{
  ℕ, ◌+◌, ◌/◌, Bool, true, false, List, [], ◌∷◌, ◌++◌, Option, none, some, Text, codes, ◌===◌,
  if◌then◌else◌,
}
use universal_data_onboarder.Guardrail.Tier.{
  Env, Limits, mega_byte, shared_limits, dedicated_limits, shared_max_import_rows,
  dedicated_max_import_rows, shared_max_import_bytes, dedicated_max_import_bytes,
}

pub record Locale : Type 0 where
  pub grouped : ℕ → Text
  pub mega_bytes : ℕ → Text
  pub digits : ℕ → Text

-- The count that a rejection names: a number, a label, or nothing.
pub data Current : Type 0 where
  counted : ℕ → Current
  label : Text → Current
  unknown : Current

concat : List Text → Text
concat [] = []
concat (s ∷ ss) = s ++ concat ss

module _ (env : Env) (l : Locale) where
  -- What a rejection says of the count; `undefined` prints as such in a template.
  count_text : Current → Text
  count_text (counted n) = l.grouped n
  count_text (label s) = s
  count_text unknown = codes "null"

  -- `buildGuardrailRejectionReason`
  unfoldable pub build_guardrail_rejection_reason : Text → ℕ → Current → Text
  unfolding concat count_text ◌===◌ shared_max_import_bytes dedicated_max_import_rows
  build_guardrail_rejection_reason mode limit current =
      let rows = l.grouped limit in
      let head =
        concat
          (codes "This import has " ∷ count_text current ∷ codes " rows, over the " ∷ rows ∷ []) in
      if mode === codes "shared"
      then head
        ++ concat (
            codes "-row limit for the shared tier (files are also capped at "
            ∷ l.digits ((shared_max_import_bytes env + mega_byte / 2) / mega_byte)
            ∷ codes
                "MB). The shared tier runs on a database shared with other organizations, which is why the ceiling is low. To import a file this size, move to your own database — either a dedicated database we provision and manage for you, or bring your own MongoDB (Admin Settings → Database). Either raises this limit to "
            ∷ l.grouped (dedicated_max_import_rows env)
            ∷ codes " rows. Splitting the file into batches under "
            ∷ rows
            ∷ codes " rows also works and needs no setup."
            ∷ [])
      else if mode === codes "byod"
      then head
        ++ concat (
            codes
              "-row per-import limit. This is a platform default for a bring-your-own database, not a limit of your own cluster — split the file into batches under "
            ∷ rows
            ∷ codes
                " rows and import them in sequence, or contact support to raise the cap if your cluster can take it."
            ∷ [])
      else head
        ++ concat (
            codes
              "-row ceiling for your dedicated database. This is a hard limit of its current storage tier, not a setting on your account — please split the file into batches of under "
            ∷ rows
            ∷ codes
                " rows and import them in sequence. Contact support if you need a single import larger than this."
            ∷ [])

  file_text : Current → Text
  unfolding concat
  file_text (counted n) =
      concat (codes "This file is " ∷ l.mega_bytes n ∷ codes "MB, over the" ∷ [])
  file_text _ = codes "This file exceeds the"

  -- `buildByteRejectionReason`; a count that is no number is passed on as `null`.
  unfoldable pub build_byte_rejection_reason : Text → ℕ → Current → Text
  unfolding concat file_text ◌===◌ dedicated_max_import_bytes
  build_byte_rejection_reason mode limit_bytes current =
      let head = concat (file_text current ∷ codes " " ∷ l.mega_bytes limit_bytes ∷ []) in
      if mode === codes "shared"
      then head
        ++ concat (
            codes
              "MB upload limit for the shared tier. Move to your own database — a platform-managed dedicated database, or bring your own MongoDB (Admin Settings → Database) — to raise the limit to "
            ∷ l.mega_bytes (dedicated_max_import_bytes env)
            ∷ codes "MB, or split the file into smaller batches."
            ∷ [])
      else head
        ++ codes
            "MB upload limit for your own database. Please split it into smaller batches and import them in sequence."

pub data ActionType : Type 0 where
  provision_dedicated connect_byod split_file contact_support : ActionType

pub record Action : Type 0 where
  pub type : ActionType
  pub label : Text

pub record UpgradeCta : Type 0 where
  pub available : Bool
  pub from_tier : Text
  pub to_tier : Option Text
  pub current_limit : Limits
  pub target_limit : Option Limits
  pub actions : List Action

module _ (env : Env) (l : Locale) where
  -- `buildUpgradeCta`. Each storage mode but "shared" has the limits of "dedicated".
  unfoldable pub build_upgrade_cta : Text → UpgradeCta
  unfolding concat ◌===◌ shared_limits dedicated_limits shared_max_import_rows
  build_upgrade_cta mode =
      if mode === codes "shared"
      then record {
        available = true;
        from_tier = codes "shared";
        to_tier = some (codes "own_database");
        current_limit = shared_limits env;
        target_limit = some (dedicated_limits env);
        actions =
            record {
              type = provision_dedicated;
              label = codes "Get a platform-managed dedicated database";
            }
            ∷ record {
              type = connect_byod;
              label = codes "Connect your own MongoDB (Admin Settings → Database)";
            }
            ∷ record {
              type = split_file;
              label = concat (
                  codes "Split into batches under "
                  ∷ l.grouped (shared_max_import_rows env)
                  ∷ codes " rows"
                  ∷ []);
            }
            ∷ [];
      }
      else record {
        available = false;
        from_tier = mode;
        to_tier = none;
        current_limit = dedicated_limits env;
        target_limit = none;
        actions =
            record {
              type = split_file;
              label = codes "Split into smaller batches and import them in sequence";
            }
            ∷ record { type = contact_support; label = codes "Contact support to raise the cap" }
            ∷ [];
      }

pub data Dimension : Type 0 where
  rows bytes : Dimension

-- The envelope; its `code` is always "MIGRATION_IMPORT_LIMIT_EXCEEDED".
pub record Rejection : Type 0 where
  pub dimension : Dimension
  pub storage_mode : Text
  pub limit : ℕ
  pub current : Current
  pub reason : Text
  pub upgrade : UpgradeCta

module _ (env : Env) (l : Locale) where
  reason_for : Dimension → Text → ℕ → Current → Text
  unfolding build_guardrail_rejection_reason build_byte_rejection_reason
  reason_for bytes mode limit current = build_byte_rejection_reason env l mode limit current
  reason_for rows mode limit current = build_guardrail_rejection_reason env l mode limit current

  -- `describeGuardrailRejection`
  unfoldable pub describe_guardrail_rejection : Text → Dimension → ℕ → Current → Rejection
  unfolding reason_for build_upgrade_cta
  describe_guardrail_rejection mode dimension limit current = record {
    dimension = dimension;
    storage_mode = mode;
    limit = limit;
    current = current;
    reason = reason_for dimension mode limit current;
    upgrade = build_upgrade_cta env l mode;
  }
