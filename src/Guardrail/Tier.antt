-- ===== src/Guardrail/Tier.antt =====
-- core/guardrail/tierPolicy.js: the ceilings of a tenant's storage mode.
--
-- The environment is an argument. A variable is what `Number(…)` reads in it, `none` where it is
-- unset or no number; the ceilings are whole numbers.
use universal_data_onboarder.Base.{
  ℕ, ◌*◌, not, Option, none, some, [], ◌∷◌, ◌==◌, Text, codes, ◌===◌, if◌then◌else◌,
}

pub record Env : Type 0 where
  pub tier_storage_mode : Text
  pub shared_max_rows : Option ℕ
  pub dedicated_max_rows : Option ℕ
  pub shared_max_bytes : Option ℕ
  pub dedicated_max_bytes : Option ℕ
  -- The variables that the guardrail itself reads, for its messages.
  pub migration_shared_rows : Option ℕ
  pub migration_dedicated_rows : Option ℕ
  pub migration_shared_bytes : Option ℕ
  pub migration_dedicated_bytes : Option ℕ

-- `Number(x) || fallback`
abbrev pub or_default : Option ℕ → ℕ → ℕ
or_default none fallback = fallback
or_default (some n) fallback = if n == 0 then fallback else n

abbrev pub mega_byte : ℕ
mega_byte = 1024 * 1024

pub record Tier : Type 0 where
  pub storage_mode : Text
  pub limit : ℕ
  pub limit_bytes : ℕ

-- `process.env.ONBOARDER_TIER_STORAGE_MODE || "shared"`
storage_mode_of : Text → Text
storage_mode_of [] = codes "shared"
storage_mode_of (c ∷ mode) = c ∷ mode

-- `envTierPolicy.resolve`; it does not look at the tenant.
unfoldable pub resolve : Env → Text → Tier
unfolding storage_mode_of ◌===◌
resolve env tenant_id =
    let mode = storage_mode_of env.tier_storage_mode in
    let is_own_db = not (mode === codes "shared") in
    record {
      storage_mode = mode;
      limit =
          if is_own_db
          then or_default env.dedicated_max_rows 50000
          else or_default env.shared_max_rows 20000;
      limit_bytes =
          if is_own_db
          then or_default env.dedicated_max_bytes (512 * mega_byte)
          else or_default env.shared_max_bytes (20 * mega_byte);
    }

-- The module constants of the guardrail.
unfoldable pub shared_max_import_rows : Env → ℕ
shared_max_import_rows env = or_default env.migration_shared_rows 20000

unfoldable pub dedicated_max_import_rows : Env → ℕ
dedicated_max_import_rows env = or_default env.migration_dedicated_rows 50000

unfoldable pub shared_max_import_bytes : Env → ℕ
shared_max_import_bytes env = or_default env.migration_shared_bytes (20 * mega_byte)

unfoldable pub dedicated_max_import_bytes : Env → ℕ
dedicated_max_import_bytes env = or_default env.migration_dedicated_bytes (512 * mega_byte)

pub record Limits : Type 0 where
  pub rows : ℕ
  pub bytes : ℕ

-- `TIER_LIMITS.shared`, and the entry that the three other modes share.
unfoldable pub shared_limits : Env → Limits
unfolding shared_max_import_rows shared_max_import_bytes
shared_limits env = record {
  rows = shared_max_import_rows env;
  bytes = shared_max_import_bytes env;
}

unfoldable pub dedicated_limits : Env → Limits
unfolding dedicated_max_import_rows dedicated_max_import_bytes
dedicated_limits env = record {
  rows = dedicated_max_import_rows env;
  bytes = dedicated_max_import_bytes env;
}
