-- ===== src/Sorter/Order.antt =====
-- `Dependency_Sorter`: the operations keep the map in key order, and what `calculate_order` returns.
use mathlib.Core.List.{Perm}
use dancex.Prelude.{ℕ, ◌<◌, ◌≡◌, refl, List, [], String, arith, length, Option-cases, inl, inr}
use dancex.StringMap.{SSet, keys, find, set_insert}
use dancex.StringMap.Order.{IsSorted, assign-IsSorted}
use dancex.Sorter.Rounds.{count_le, Post, order_loop-Post}
use dancex.Sorter.{
  Sorter, Outcome, ordered, invalid_install_order, out_of_fuel, add_nondependent, add_dependencies,
  add_dependency, calculate_order,
}

abbrev pub IsValid : Sorter → Type 0
IsValid d = IsSorted d.dep_map

pub data Call : Type 0 where
  nondependent : String → Call
  dependencies : String → SSet → Call
  dependency : String → String → Call

abbrev pub add : Call → Sorter → Sorter
add (nondependent s) d = add_nondependent s d
add (dependencies s deps) d = add_dependencies s deps d
add (dependency s after) d = add_dependency s after d

-- Each of the three ways to add keeps the dependency map in key order, so that a subject stands
-- in it once.
pub add-IsValid : (c : Call) (d : Sorter) → IsValid d → IsValid (add c d)
unfolding add_nondependent add_dependencies add_dependency
add-IsValid (nondependent s) d v = assign-IsSorted s [] d.dep_map v
add-IsValid (dependencies s deps) d v = assign-IsSorted s deps d.dep_map v
add-IsValid (dependency s after) d v = elim (Option-cases (find s d.dep_map)) [
  | inl e ↦ rw (e, add_dependency) (assign-IsSorted s (set_insert after []) d.dep_map v)
  | inr (deps, e) ↦ rw (e, add_dependency) (assign-IsSorted s (set_insert after deps) d.dep_map v)
]

-- From an empty result vector, calculate_order ends within its fuel; an order that it returns
-- names every subject of the map once, each behind at least as many names as it has dependencies;
-- and it throws only where some k below the number of subjects has at most k subjects with at
-- most k dependencies.
pub calculate_order-Post : (d : Sorter) → IsValid d → Post d.dep_map (calculate_order d [])
unfolding calculate_order
calculate_order-Post d v = order_loop-Post d.dep_map v

-- Where each k below the number of subjects has more than k subjects with at most k dependencies,
-- an order is returned.
pub calculate_order-ordered :
    (d : Sorter)
    → IsValid d
    → ((k : ℕ) → k < length d.dep_map → k < count_le k d.dep_map)
    → (r : List String) × (calculate_order d [] ≡ ordered r) × Perm r (keys d.dep_map)
calculate_order-ordered d v h = go (calculate_order d []) refl (calculate_order-Post d v)
  where
    go :
        (o : Outcome)
        → calculate_order d [] ≡ o
        → Post d.dep_map o
        → (r : List String) × (calculate_order d [] ≡ ordered r) × Perm r (keys d.dep_map)
    go (ordered r) e p = (r, e, p.0)
    go (invalid_install_order r) e (k, below, few) = absurd (omega (arith, h k below))
    go out_of_fuel e p = absurd p
