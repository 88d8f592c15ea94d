-- ===== src/Registry.antt =====
-- registry/registerTarget.js, registry/TargetDescriptor.d.ts: the table of import targets.
--
-- A descriptor's functions (`commitRow`, `findExistingIdentities`, `resolveReferences`) are not in
-- the record: they belong to the targets, and are arguments where they are called.
pub mod Coerce
pub mod Laws
pub mod Tests
use universal_data_onboarder.Base.{
  ℕ, Bool, true, false, ◌||◌, List, [], ◌∷◌, ◌++◌, Option, none, some, Text, codes, ◌===◌, includes,
  split, if◌then◌else◌, add_new,
}
use universal_data_onboarder.Base.Dict.{Dict, get, put, has, keys}
use universal_data_onboarder.Base.Result.{Result, ok, err}

pub data FieldType : Type 0 where
  string number date boolean : FieldType

pub record FieldSpec : Type 0 where
  pub key : Text
  pub label : Text
  pub type : FieldType
  pub required : Bool
  pub aliases : List Text
  -- Empty where the field has no list of values.
  pub enum : List Text

pub record Descriptor : Type 0 where
  pub namespace : Text
  pub entity_key : Text
  pub label : Text
  pub fields : List FieldSpec
  pub identity_field : Text
  pub commit_in_transaction : Bool
  pub dependencies : List Text
  pub reference_fields : List Text

pub data RegistryError : Type 0 where
  missing_name : RegistryError
  already_registered : Text → RegistryError
  -- Thrown with status code 400, with the keys that are there.
  not_registered : Text → List Text → RegistryError

-- `_registry`
abbrev pub Registry : Type 0
Registry = Dict Descriptor

unfoldable pub target_key : Text → Text → Text
target_key namespace entity_key = namespace ++ b':' ∷ entity_key

abbrev is_missing : Text → Bool
is_missing [] = true
is_missing (c ∷ s) = false

unfoldable pub register_target : Registry → Descriptor → Result RegistryError Registry
unfolding target_key
register_target r d =
    if is_missing d.namespace || is_missing d.entity_key
    then err missing_name
    else if has r (target_key d.namespace d.entity_key)
    then err (already_registered (target_key d.namespace d.entity_key))
    else ok (put r (target_key d.namespace d.entity_key) d)

found_or : Registry → Text → Option Descriptor → Result RegistryError Descriptor
found_or r key none = err (not_registered key (keys r))
found_or r key (some d) = ok d

unfoldable pub get_target_descriptor : Registry → Text → Text → Result RegistryError Descriptor
unfolding target_key found_or
get_target_descriptor r namespace entity_key =
    found_or r (target_key namespace entity_key) (get r (target_key namespace entity_key))

-- `key.split(":")[0]` and `key.split(":")[1]`
head_of : List Text → Text
head_of [] = []
head_of (s ∷ ss) = s

second_of : List Text → Text
second_of [] = []
second_of (s ∷ []) = []
second_of (s ∷ t ∷ ss) = t

modules_from : List Text → Registry → List Text
unfolding split head_of add_new
modules_from names [] = names
modules_from names ((key, d) ∷ r) = modules_from (add_new names (head_of (split b':' key))) r

unfoldable pub list_target_modules : Registry → List Text
unfolding modules_from
list_target_modules r = modules_from [] r

pub record Entity : Type 0 where
  pub entity_key : Text
  pub label : Text
  pub fields : List FieldSpec

unfoldable pub list_target_entities : Registry → Text → List Entity
unfolding split head_of second_of ◌===◌
list_target_entities [] namespace = []
list_target_entities ((key, d) ∷ r) namespace =
    let rest = list_target_entities r namespace in
    if head_of (split b':' key) === namespace
    then record { entity_key = second_of (split b':' key); label = d.label; fields = d.fields }
      ∷ rest
    else rest

unfoldable pub reset_registry : Registry → Registry
reset_registry r = []
