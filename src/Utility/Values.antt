-- ===== src/Utility/Values.antt =====
-- Reading and updating property values, and the instance type of a property sequence.
use dancex.Prelude.{
  List, [], ◌∷◌, ◌++◌, Option, none, some, Bool, true, false, String, if◌then◌else◌, str_eq,
  str_eq_refl, ◌≡◌, refl, arith, ◌∙◌, All,
}
use dancex.Utility.{
  Property, Properties, Resource, build_property_map, get_map_value, get_property_value,
  get_resource_value, has_type, extracted, updates_copy, update_property_value, home_factory,
  component_factory, explicit_home, impl_type, ccm_home, ccm_component, ccm_homedcomponent,
  instance_type_from, get_instance_type,
}
use dancex.Utility.Maps.{first_value, find-build_keep}

module _ {Any T : Type 0} (extract : Any → Option T) where
  -- What a read answers, from the value found.
  abbrev pub answer : Option Any → T → Bool × T
  answer none val = (false, val)
  answer (some any) val = extracted (extract any) val

  pub get_property_value-first :
      (name : String) (prop : Properties Any) (val : T)
      → get_property_value extract name prop val ≡ answer (first_value name prop) val
  unfolding get_property_value
  get_property_value-first name [] val = refl
  get_property_value-first name (p ∷ prop) val =
      ground (arith, get_property_value-first name prop val)

  -- The overloads of get_property_value on a map and on a sequence agree on the map that is built
  -- from the sequence without overwriting.
  pub get_map_value-build :
      (name : String) (prop : Properties Any) (val : T)
      → get_map_value extract name (build_property_map [] prop false) val
        ≡ get_property_value extract name prop val
  unfolding get_map_value
  get_map_value-build name prop val =
      ground (arith, find-build_keep name prop [], get_property_value-first name prop val)

module _ {Any T : Type 0} (extract : Any → Option T) (embed : T → Any) where
  updates_copy-first :
      (name : String) (prop : Properties Any) (any : Any)
      → first_value name prop ≡ some any
      → updates_copy name prop ≡ true
  unfolding updates_copy
  updates_copy-first name [] any h = ground arith
  updates_copy-first name (p ∷ prop) any h = ground (arith, updates_copy-first name prop any)

  -- A name that is in the sequence is not updated: the sequence stays as it was, whatever the new
  -- value.
  update_property_value-present :
      (name : String) (prop : Properties Any) (val : T) (any : Any)
      → first_value name prop ≡ some any
      → update_property_value embed name prop val ≡ prop
  unfolding update_property_value
  update_property_value-present name prop val any h =
      ground (arith, updates_copy-first name prop any h)

  first_value-none :
      (name : String) (prop : Properties Any)
      → first_value name prop ≡ none
      → updates_copy name prop ≡ false
  unfolding updates_copy
  first_value-none name [] h = refl
  first_value-none name (p ∷ prop) h = ground (arith, first_value-none name prop)

  first_value-snoc :
      (name : String) (prop : Properties Any) (any : Any)
      → first_value name prop ≡ none
      → first_value name (prop ++ record { name = name; value = any } ∷ []) ≡ some any
  first_value-snoc name [] any h = ground (arith, str_eq_refl name)
  first_value-snoc name (p ∷ prop) any h = ground (arith, first_value-snoc name prop any)

  -- A name that is not in the sequence is added with the value, and read back, where the Any of
  -- the value is.
  get_property_value-update :
      (name : String) (prop : Properties Any) (val old : T)
      → extract (embed val) ≡ some val
      → first_value name prop ≡ none
      → get_property_value extract name (update_property_value embed name prop val) old
        ≡ (true, val)
  unfolding update_property_value
  get_property_value-update name prop val old e h = ground (
    arith,
    first_value-none name prop h,
    first_value-snoc name prop (embed val) h,
    get_property_value-first extract name (prop ++ record { name = name; value = embed val } ∷ [])
        old,
  )

-- The first resource of the type is answered, where no resource before it has the type.
pub get_resource_value-first :
    (type : String) (before after : List Resource) (r val : Resource)
    → All (λ q. has_type type q.resource_type ≡ false) before
    → has_type type r.resource_type ≡ true
    → get_resource_value type (before ++ r ∷ after) val ≡ (true, r)
unfolding get_resource_value
get_resource_value-first type [] after r val a h = ground arith
get_resource_value-first type (q ∷ before) after r val a h =
    ground (arith, get_resource_value-first type before after r val a.1 h)

-- A property that says nothing of the type.
abbrev pub IsOther : String → Type 0
IsOther name =
    (str_eq name home_factory ≡ false)
    × (str_eq name component_factory ≡ false)
    × (str_eq name explicit_home ≡ false)
    × (str_eq name impl_type ≡ false)

module _ {Any : Type 0} (extract : Any → Option String) where
  -- The type that one property decides, and what is left to the rest of the sequence.
  abbrev pub decided : Property Any → String → String
  decided p later =
      if str_eq p.name home_factory
      then ccm_home
      else if str_eq p.name component_factory
      then ccm_component
      else if str_eq p.name explicit_home
      then ccm_homedcomponent
      else if str_eq p.name impl_type
      then elim (extract p.value) [ none ↦ later | some type ↦ type ]
      else later

  skips :
      (prop before rest : Properties Any)
      → All (λ p. IsOther p.name) before
      → instance_type_from extract prop (before ++ rest) ≡ instance_type_from extract prop rest
  unfolding instance_type_from
  skips prop [] rest a = refl
  skips prop (p ∷ before) rest a = ground (arith, skips prop before rest a.1)

  first_value-skips :
      (before rest : Properties Any)
      → All (λ p. IsOther p.name) before
      → first_value impl_type (before ++ rest) ≡ first_value impl_type rest
  first_value-skips [] rest a = refl
  first_value-skips (p ∷ before) rest a = ground (arith, first_value-skips before rest a.1)

  -- Behind properties that say nothing of the type, the first one that does decides it: a home, a
  -- component, an explicit home, or the text of an implementation type. An implementation type
  -- that holds no text leaves it to the rest.
  pub get_instance_type-first :
      (before after : Properties Any) (p : Property Any)
      → All (λ q. IsOther q.name) before
      → get_instance_type extract (before ++ p ∷ after)
        ≡ decided p (instance_type_from extract (before ++ p ∷ after) after)
  unfolding get_instance_type
  get_instance_type-first before after p a =
      skips (before ++ p ∷ after) before (p ∷ after) a
      ∙ ground (
        arith,
        get_property_value-first extract impl_type (before ++ p ∷ after) "",
        first_value-skips before (p ∷ after) a,
      )

  instance_type_from-none :
      (prop rest : Properties Any)
      → All (λ p. IsOther p.name) rest
      → instance_type_from extract prop rest ≡ ""
  unfolding instance_type_from
  instance_type_from-none prop [] a = refl
  instance_type_from-none prop (p ∷ rest) a = ground (arith, instance_type_from-none prop rest a.1)

  -- Where no property says anything of the type the result is the empty text.
  pub get_instance_type-none :
      (prop : Properties Any) → All (λ p. IsOther p.name) prop → get_instance_type extract prop ≡ ""
  unfolding get_instance_type
  get_instance_type-none prop a = instance_type_from-none prop prop a
