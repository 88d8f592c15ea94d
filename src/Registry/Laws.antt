-- ===== src/Registry/Laws.antt =====
-- registry/registerTarget.js: what a look-up finds after a registration.
use universal_data_onboarder.Base.{◌≡◌, Option, none, some, Text, ◌===◌, arith, if◌then◌else◌}
use universal_data_onboarder.Base.Dict.{get, get-put}
use universal_data_onboarder.Base.Result.{ok}
use universal_data_onboarder.Registry.{Registry, Descriptor, target_key, register_target}

-- What a key names, if anything.
abbrev pub registered : Registry → Text → Text → Option Descriptor
registered r namespace entity_key = get r (target_key namespace entity_key)

-- A registration that succeeds makes its own key name its descriptor, which named nothing before,
-- and changes what no other key names.
pub register_target_lem :
    (r r' : Registry) (d : Descriptor)
    → register_target r d ≡ ok r'
    → (registered r d.namespace d.entity_key ≡ none)
      × ((namespace entity_key : Text)
          → registered r' namespace entity_key ≡ (
              if target_key d.namespace d.entity_key === target_key namespace entity_key
              then some d
              else registered r namespace entity_key))
unfolding register_target
register_target_lem r r' d h = (
  ground arith,
  λ n e. ground (arith, get-put r (target_key d.namespace d.entity_key) (target_key n e) d),
)
