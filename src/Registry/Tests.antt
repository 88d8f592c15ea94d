-- ===== src/Registry/Tests.antt =====
-- The registry's theorems at inputs that meet their hypotheses.
use universal_data_onboarder.Base.{
  ◌≡◌, refl, false, [], ◌∷◌, none, some, Text, codes, ◌===◌, if◌then◌else◌,
}
use universal_data_onboarder.Base.Dict.{get, put}
use universal_data_onboarder.Value.{str}
use universal_data_onboarder.Value.Sample.{sample_host}
use universal_data_onboarder.Registry.{number, Descriptor, Registry, target_key, register_target}
use universal_data_onboarder.Registry.Coerce.{
  coerce_field_value, Coerced, coerce_field_value-Coerced,
}
use universal_data_onboarder.Registry.Laws.{registered, register_target_lem}

abbrev pub target : Descriptor
target = record {
  namespace = codes "hr";
  entity_key = codes "employee";
  label = codes "Employee";
  fields = [];
  identity_field = codes "email";
  commit_in_transaction = false;
  dependencies = [];
  reference_fields = [];
}

abbrev pub one : Registry
one = (codes "hr:employee", target) ∷ []

register_target_lem_example :
    (registered [] (codes "hr") (codes "employee") ≡ none)
    × ((namespace entity_key : Text)
        → registered one namespace entity_key ≡ (
            if target_key (codes "hr") (codes "employee") === target_key namespace entity_key
            then some target
            else registered [] namespace entity_key))
unfolding register_target get put
register_target_lem_example = register_target_lem [] one target refl

coerce_field_value-Coerced_example :
    Coerced number (coerce_field_value sample_host number (str (codes "42")) (codes "Age"))
coerce_field_value-Coerced_example =
    coerce_field_value-Coerced sample_host number (str (codes "42")) (codes "Age")
