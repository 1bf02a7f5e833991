-- ===== src/Sorter/Tests.antt =====
-- Runs of the sorter on small maps, and its theorems at them.
use mathlib.Core.List.{Perm, Pairwise, not-mem-nil}
use mathlib.Core.List.Perm
use dancex.Prelude.{[], ◌∷◌, ◌≡◌, refl, List, String}
use dancex.StringMap.{SMap, SSet, find, assign, erase, set_insert}
use dancex.Sorter.{Sorter, empty_sorter, add_nondependent, add_dependency, calculate_order, ordered}
use dancex.Sorter.Order.{IsValid, calculate_order-Post}
use dancex.Sorter.Rounds.{Post}
use dancex.Sorter.Legal.{Legal, calculate_order-Legal}

abbrev chain : Sorter
unfolding add_nondependent add_dependency find assign set_insert
chain = add_dependency "a" "b" (add_dependency "b" "c" (add_nondependent "c" empty_sorter))

calculate_order-chain : calculate_order chain [] ≡ ordered ("c" ∷ "a" ∷ "b" ∷ [])
unfolding calculate_order chain erase set_insert find assign add_nondependent add_dependency
calculate_order-chain = refl

abbrev pair : Sorter
pair = record { dep_map = ("a", "b" ∷ []) ∷ ("b", []) ∷ [] }

abbrev pair_order : SMap SSet
pair_order = ("b", []) ∷ ("a", "b" ∷ []) ∷ []

pair-IsValid : IsValid pair
pair-IsValid = ((refl, tt), (tt, tt))

calculate_order-Post_example : Post pair.dep_map (calculate_order pair [])
calculate_order-Post_example = calculate_order-Post pair pair-IsValid

pair-Legal : Legal [] pair_order
pair-Legal = (
  Pairwise.nil,
  λ x m. m,
  (Pairwise.cons (λ a m. absurd (not-mem-nil m)) Pairwise.nil, λ x m. m, tt),
)

calculate_order-Legal_example :
    (r : List String) × (calculate_order pair [] ≡ ordered r) × Perm r ("a" ∷ "b" ∷ [])
calculate_order-Legal_example =
    calculate_order-Legal pair pair_order pair-IsValid (Perm.swap _ _ []) pair-Legal
