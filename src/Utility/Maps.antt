-- ===== src/Utility/Maps.antt =====
-- Property maps built from sequences, and sequences built from maps.
use mathlib.Core.List.{append-nil}
use dancex.Prelude.{
  [], ◌∷◌, ◌++◌, Option, none, some, Bool, true, false, String, if◌then◌else◌, str_eq, str_eq_iff,
  ◌≡◌, refl, arith, ap, sym, ◌∙◌, ◌||◌,
}
use dancex.StringMap.{find, assign}
use dancex.StringMap.Laws.{find-assign}
use dancex.StringMap.Order.{IsSorted, assign-IsSorted, find-Below}
use dancex.Utility.{
  Property, Properties, PropertyMap, build_property_map, build_property_sequence, is_absent,
}

abbrev pub or_else {ℓ} : {A : Type ℓ} → Option A → Option A → Option A
or_else none b = b
or_else (some a) b = some a

pub or_else-none {ℓ} : {A : Type ℓ} (o : Option A) → or_else o none ≡ o
or_else-none none = refl
or_else-none (some a) = refl

module _ {Any : Type 0} where
  -- The values of a name in a sequence: its first one, and its last one.
  abbrev pub first_value : String → Properties Any → Option Any
  first_value k [] = none
  first_value k (p ∷ ps) = if str_eq p.name k then some p.value else first_value k ps

  abbrev pub last_value : String → Properties Any → Option Any
  last_value k [] = none
  last_value k (p ∷ ps) = or_else (last_value k ps) (if str_eq p.name k then some p.value else none)

  -- Without overwriting, a name keeps the value of the map, and otherwise gets the first one of
  -- the sequence.
  pub find-build_keep :
      (k : String) (prop : Properties Any) (m : PropertyMap Any)
      → find k (build_property_map m prop false) ≡ or_else (find k m) (first_value k prop)
  unfolding build_property_map
  find-build_keep k [] m = ground arith
  find-build_keep k (p ∷ prop) m = ground (
    arith,
    find-build_keep k prop (if is_absent (find p.name m) then assign p.name p.value m else m),
    find-assign p.name k p.value m,
    str_eq_iff p.name k,
  )

  -- With overwriting, a name gets the last value of the sequence, and otherwise keeps that of the
  -- map.
  pub find-build_overwrite :
      (k : String) (prop : Properties Any) (m : PropertyMap Any)
      → find k (build_property_map m prop true) ≡ or_else (last_value k prop) (find k m)
  unfolding build_property_map
  find-build_overwrite k [] m = refl
  find-build_overwrite k (p ∷ prop) m =
      ground (
        arith,
        find-build_overwrite k prop (assign p.name p.value m),
        find-assign p.name k p.value m,
      )

  pub build_property_map-IsSorted :
      (prop : Properties Any) (m : PropertyMap Any) (overwrite : Bool)
      → IsSorted m
      → IsSorted (build_property_map m prop overwrite)
  unfolding build_property_map
  build_property_map-IsSorted [] m overwrite s = s
  build_property_map-IsSorted (p ∷ prop) m overwrite s =
      build_property_map-IsSorted prop _ overwrite (kept (overwrite || is_absent (find p.name m)))
    where
      kept : (b : Bool) → IsSorted (if b then assign p.name p.value m else m)
      kept true = assign-IsSorted p.name p.value m s
      kept false = s

  append_snoc : (xs ys : Properties Any) (p : Property Any) → (xs ++ p ∷ []) ++ ys ≡ xs ++ p ∷ ys
  append_snoc [] ys p = refl
  append_snoc (x ∷ xs) ys p = ap (◌∷◌ x) (append_snoc xs ys p)

  -- The sequence of a map, as a plain recursion.
  abbrev pub entries : PropertyMap Any → Properties Any
  entries [] = []
  entries ((k, v) ∷ m) = record { name = k; value = v } ∷ entries m

  pub build_property_sequence-entries :
      (prop : Properties Any) (m : PropertyMap Any)
      → build_property_sequence prop m ≡ prop ++ entries m
  unfolding build_property_sequence
  build_property_sequence-entries prop [] = sym (append-nil prop)
  build_property_sequence-entries prop ((k, v) ∷ m) =
      build_property_sequence-entries (prop ++ record { name = k; value = v } ∷ []) m
      ∙ append_snoc prop (entries m) (record { name = k; value = v })

  pub first_value-entries :
      (k : String) (m : PropertyMap Any) → first_value k (entries m) ≡ find k m
  unfolding find
  first_value-entries k [] = refl
  first_value-entries k ((j, v) ∷ m) = ground (arith, first_value-entries k m)

  last_value-entries :
      (k : String) (m : PropertyMap Any) → IsSorted m → last_value k (entries m) ≡ find k m
  unfolding find
  last_value-entries k [] s = refl
  last_value-entries k ((j, v) ∷ m) s =
      ground (arith, last_value-entries k m s.1, find-Below j m s.0, str_eq_iff j k)

  -- A map in key order is read back from its own sequence, with and without overwriting.
  build_property_map-sequence :
      (k : String) (m : PropertyMap Any) (overwrite : Bool)
      → IsSorted m
      → find k (build_property_map [] (build_property_sequence [] m) overwrite) ≡ find k m
  unfolding find
  build_property_map-sequence k m true s = rw (build_property_sequence-entries [] m) (
      find-build_overwrite k (entries m) []
      ∙ or_else-none (last_value k (entries m))
      ∙ last_value-entries k m s)
  build_property_map-sequence k m false s =
      rw (build_property_sequence-entries [] m)
        (find-build_keep k (entries m) [] ∙ first_value-entries k m)
