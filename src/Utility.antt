-- ===== src/Utility.antt =====
-- dancex11/core/dancex11_utility.cpp and dancex11_utility_t.cpp: property sequences and maps.
-- A value is a `CORBA::Any`: its type, the insertion `<<=` and the extraction `>>=` (which leaves its
-- target as it was where it fails) are parameters.
pub mod Maps
pub mod Values
pub mod Tokenize
pub mod Exceptions
pub mod Tests
use dancex.Prelude.{
  List, [], ◌∷◌, ◌++◌, Option, none, some, Bool, true, false, String, if◌then◌else◌, str_eq, map,
  ◌||◌,
}
use dancex.StringMap.{SMap, find, assign}

pub record Property (Any : Type 0) : Type 0 where
  pub name : String
  pub value : Any

abbrev pub Properties : Type 0 → Type 0
Properties Any = List (Property Any)

abbrev pub PropertyMap : Type 0 → Type 0
PropertyMap Any = SMap Any

pub record Resource : Type 0 where
  pub name : String
  pub resource_type : List String

abbrev pub is_absent {ℓ} : {A : Type ℓ} → Option A → Bool
is_absent none = true
is_absent (some a) = false

module _ {Any : Type 0} where
  unfoldable pub build_property_map : PropertyMap Any → Properties Any → Bool → PropertyMap Any
  build_property_map m [] overwrite = m
  build_property_map m (property ∷ prop) overwrite =
      build_property_map
        (if overwrite || is_absent (find property.name m)
          then assign property.name property.value m
          else m)
        prop overwrite

  unfoldable pub build_property_sequence : Properties Any → PropertyMap Any → Properties Any
  build_property_sequence prop [] = prop
  build_property_sequence prop ((k, v) ∷ pmap) =
      build_property_sequence (prop ++ record { name = k; value = v } ∷ []) pmap

  unfoldable pub append_properties : Properties Any → Properties Any → Properties Any
  append_properties dest [] = dest
  append_properties dest (prop ∷ src) = append_properties (dest ++ prop ∷ []) src

-- The inner loop over the resource types of one resource.
unfoldable pub has_type : String → List String → Bool
has_type type [] = false
has_type type (resource_type ∷ types) =
    if str_eq type resource_type then true else has_type type types

-- `val` is an out-parameter.
unfoldable pub get_resource_value : String → List Resource → Resource → Bool × Resource
unfolding has_type
get_resource_value type [] val = (false, val)
get_resource_value type (resource ∷ resources) val =
    if has_type type resource.resource_type
    then (true, resource)
    else get_resource_value type resources val

-- `any >>= val` with what it answers.
abbrev pub extracted {ℓ} : {T : Type ℓ} → Option T → T → Bool × T
extracted none val = (false, val)
extracted (some x) val = (true, x)

module _ {Any T : Type 0} (extract : Any → Option T) where
  -- The overload on a map.
  unfoldable pub get_map_value : String → PropertyMap Any → T → Bool × T
  unfolding find
  get_map_value name properties val = elim (find name properties) [
    | none ↦ (false, val)
    | some any ↦ extracted (extract any) val
  ]

  -- The overload on a sequence; `get_satisfier_property_value` has the same loop.
  unfoldable pub get_property_value : String → Properties Any → T → Bool × T
  get_property_value name [] val = (false, val)
  get_property_value name (property ∷ properties) val =
      if str_eq property.name name
      then extracted (extract property.value) val
      else get_property_value name properties val

-- The loop of `update_property_value` up to its `return`. Its variable is a copy of the element, so
-- the value that it inserts is lost and the sequence is only searched.
unfoldable pub updates_copy : {Any : Type 0} → String → Properties Any → Bool
updates_copy name [] = false
updates_copy name (property ∷ properties) =
    if str_eq property.name name then true else updates_copy name properties

unfoldable pub update_property_value :
    {Any T : Type 0} → (T → Any) → String → Properties Any → T → Properties Any
unfolding updates_copy
update_property_value embed name properties val =
    if updates_copy name properties
    then properties
    else properties ++ record { name = name; value = embed val } ∷ []

-- dancex11/core/dancex11_properties.idl
abbrev pub home_factory : String
home_factory = "nl.remedy.it.DnCX11.Home.Factory"

abbrev pub component_factory : String
component_factory = "nl.remedy.it.DnCX11.Executor.Factory"

abbrev pub explicit_home : String
explicit_home = "nl.remedy.it.DnCX11.ExplicitHome"

abbrev pub impl_type : String
impl_type = "nl.remedy.it.DnCX11.ImplementationType"

abbrev pub ccm_home : String
ccm_home = "nl.remedy.it.CCM.Home"

abbrev pub ccm_component : String
ccm_component = "nl.remedy.it.CCM.Component"

abbrev pub ccm_homedcomponent : String
ccm_homedcomponent = "nl.remedy.it.CCM.HomedComponent"

module _ {Any : Type 0} (extract : Any → Option String) where
  -- The branch for an implementation type: it reads the first such property of the whole sequence,
  -- and goes on with the loop where that does not hold a text.
  unfoldable pub impl_type_or : Properties Any → String → String
  unfolding get_property_value
  impl_type_or prop later =
      let (found, val) = get_property_value extract impl_type prop "" in
      if found then val else later

  -- The loop of `get_instance_type`, on the rest of `prop`.
  unfoldable pub instance_type_from : Properties Any → Properties Any → String
  unfolding impl_type_or
  instance_type_from prop [] = ""
  instance_type_from prop (property ∷ rest) =
      let later = instance_type_from prop rest in
      if str_eq property.name home_factory
      then ccm_home
      else if str_eq property.name component_factory
      then ccm_component
      else if str_eq property.name explicit_home
      then ccm_homedcomponent
      else if str_eq property.name impl_type
      then impl_type_or prop later
      else later

  unfoldable pub get_instance_type : Properties Any → String
  unfolding instance_type_from
  get_instance_type prop = instance_type_from prop prop
