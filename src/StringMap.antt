-- ===== src/StringMap.antt =====
-- `std::map<std::string, V>` as an association list in key order, as far as the code uses it:
-- `find`, `m[k] = v`, `insert` (which keeps an entry that is there) and `erase` by key.
-- `SSet` is `std::set<std::string>`: the keys alone.
pub mod Laws
pub mod Order
use dancex.Prelude.{
  ℕ, List, [], ◌∷◌, Option, none, some, Bool, true, false, String, Ordering, str_eq, str_compare,
  if◌then◌else◌, map,
}

abbrev pub SMap {ℓ} : Type ℓ → Type ℓ
SMap V = List (String × V)

abbrev pub SSet : Type 0
SSet = List String

module _ {ℓ} {V : Type ℓ} where
  abbrev pub keys : SMap V → List String
  keys = map (λ e. e.0)

  -- `m.find (k)`
  unfoldable pub find : String → SMap V → Option V
  find k [] = none
  find k ((j, v) ∷ m) = if str_eq j k then some v else find k m

  -- `m[k] = v`
  unfoldable pub assign : String → V → SMap V → SMap V
  assign k v [] = (k, v) ∷ []
  assign k v ((j, w) ∷ m) = elim (str_compare k j) [
    | Ordering.lt ↦ (k, v) ∷ (j, w) ∷ m
    | Ordering.eq ↦ (k, v) ∷ m
    | Ordering.gt ↦ (j, w) ∷ assign k v m
  ]

  -- `m.insert ({k, v})`
  unfoldable pub insert : String → V → SMap V → SMap V
  unfolding find assign
  insert k v m = elim (find k m) [ none ↦ assign k v m | some w ↦ m ]

  -- `m.erase (k)`
  unfoldable pub erase : String → SMap V → SMap V
  erase k [] = []
  erase k ((j, v) ∷ m) = if str_eq j k then m else (j, v) ∷ erase k m

-- `s.insert (x)` of a set
unfoldable pub set_insert : String → SSet → SSet
set_insert x [] = x ∷ []
set_insert x (y ∷ s) = elim (str_compare x y) [
  | Ordering.lt ↦ x ∷ y ∷ s
  | Ordering.eq ↦ y ∷ s
  | Ordering.gt ↦ y ∷ set_insert x s
]

-- `std::set_intersection`, over two ranges in order
unfoldable pub set_intersection : SSet → SSet → List String
set_intersection [] t = []
set_intersection (x ∷ s) [] = []
set_intersection (x ∷ s) (y ∷ t) = elim (str_compare x y) [
  | Ordering.lt ↦ set_intersection s (y ∷ t)
  | Ordering.eq ↦ x ∷ set_intersection s t
  | Ordering.gt ↦ set_intersection (x ∷ s) t
]
