-- ===== src/Access.antt =====
-- http/requireTarget.middleware.js: which import targets a request may name.
--
-- `getTenantConfig` and `getTenantAccessDenial` are neither declared in the file nor imported: a
-- call of them throws, which the `catch` answers. They are arguments here, `none` where they are not
-- there. A missing field of the request is the empty text.
mod Tests
use universal_data_onboarder.Base.{
  Bool, true, false, ◌&&◌, List, [], ◌∷◌, ◌++◌, Option, none, some, Text, codes, any, filter,
  includes, map, ◌===◌, if◌then◌else◌, add_new,
}

pub record Target : Type 0 where
  pub module_name : Text
  pub entity_key : Text

-- What the middleware answers: the next one, or the status 403 with a code.
pub data Decision : Type 0 where
  next : Decision
  resolution_failed : Decision
  access_denied : Text → Decision
  -- With the modules, and with the entities, that are there.
  module_not_unlocked entity_not_unlocked : List Text → Decision

-- A request: its tenant id, the tenant that another middleware resolved, and what it asks for.
pub record Request (Tenant : Type 0) : Type 0 where
  pub tenant_id : Text
  pub tenant : Option Tenant
  pub module_name : Text
  pub entity_key : Text

-- `resolveImportTargetsForModules`, which does not look at the flags.
unfoldable pub resolve_import_targets_for_modules : List Target
resolve_import_targets_for_modules = record { module_name = codes "*"; entity_key = codes "*" } ∷ []

abbrev is_missing : Text → Bool
is_missing [] = true
is_missing (c ∷ s) = false

distinct_from : List Text → List Text → List Text
unfolding add_new
distinct_from seen [] = seen
distinct_from seen (x ∷ xs) = distinct_from (add_new seen x) xs

unfoldable pub check_entity : List Target → Text → Text → Decision
unfolding ◌===◌
check_entity allowed module_name entity_key =
    if is_missing entity_key
    then next
    else if any (λ t. t.module_name === module_name && t.entity_key === entity_key) allowed
    then next
    else entity_not_unlocked
        (map (λ t. t.entity_key) (filter (λ t. t.module_name === module_name) allowed))

unfoldable pub check_module : List Target → Text → Text → Decision
unfolding ◌===◌ check_entity distinct_from
check_module allowed module_name entity_key =
    if is_missing module_name
    then next
    else if any (λ t. t.module_name === module_name) allowed
    then check_entity allowed module_name entity_key
    else module_not_unlocked (distinct_from [] (map (λ t. t.module_name) allowed))

module _ {Tenant : Type 0} (get_tenant_config : Option (Text → Option Tenant))
    (get_tenant_access_denial : Option (Tenant → Option Text)) where
  after_denial : Request Tenant → Option Text → Decision
  unfolding check_module resolve_import_targets_for_modules
  after_denial r (some code) = access_denied code
  after_denial r none = check_module resolve_import_targets_for_modules r.module_name r.entity_key

  check_tenant : Request Tenant → Option (Tenant → Option Text) → Option Tenant → Decision
  unfolding after_denial
  check_tenant r denial none = resolution_failed
  check_tenant r none (some tenant) = resolution_failed
  check_tenant r (some denial) (some tenant) = after_denial r (denial tenant)

  -- `req.tenant ?? await getTenantConfig(req.tenantId)`
  fetched_tenant : Text → Option (Text → Option Tenant) → Option Tenant → Option Tenant
  fetched_tenant tenant_id config (some tenant) = some tenant
  fetched_tenant tenant_id none none = none
  fetched_tenant tenant_id (some config) none = config tenant_id

  -- `requireMigrationTarget`, with `[]` for the entity where its field is null.
  unfoldable pub require_migration_target : Request Tenant → Decision
  unfolding check_tenant fetched_tenant
  require_migration_target r =
      if is_missing r.tenant_id
      then next
      else check_tenant r get_tenant_access_denial
          (fetched_tenant r.tenant_id get_tenant_config r.tenant)
