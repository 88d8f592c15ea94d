-- ===== src/Access/Tests.antt =====
-- Requests of a tenant, with and without the two functions that the file does not declare.
use universal_data_onboarder.Base.{◌≡◌, refl, [], ◌∷◌, none, some, codes, ◌===◌}
use universal_data_onboarder.Access.{
  Request, next, resolution_failed, module_not_unlocked, require_migration_target,
}

abbrev request : Request (Unit {0})
request = record {
  tenant_id = codes "t";
  tenant = some tt;
  module_name = codes "hr";
  entity_key = codes "role";
}

-- As the file stands, every request of a tenant is refused.
refuses_tenant : require_migration_target none none request ≡ resolution_failed
unfolding require_migration_target
refuses_tenant = refl

-- With the two functions there, the target that stands for all of them does not match a module.
refuses_module :
    require_migration_target (some (λ id. some tt)) (some (λ tenant. none)) request
    ≡ module_not_unlocked (codes "*" ∷ [])
unfolding require_migration_target ◌===◌
refuses_module = refl

passes_single_tenant :
    require_migration_target {Tenant = Unit {0}} none none (record request { tenant_id = [] })
    ≡ next
unfolding require_migration_target
passes_single_tenant = refl
