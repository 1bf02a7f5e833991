-- ===== src/Sorter.antt =====
-- dancex11/scheduler/dependency_sorter.{h,cpp}: `Dependency_Sorter`, which orders the installation
-- handlers by what they depend on. The dependency map is the state; an order is computed on a copy.
pub mod Scan
pub mod Rounds
pub mod Order
pub mod Legal
pub mod Bug
pub mod Tests
use dancex.Prelude.{
  ℕ, zero, suc, List, [], ◌∷◌, ◌++◌, Option, none, some, Bool, true, false, String, if◌then◌else◌,
  length, replicate, leb, ◌==◌,
}
use dancex.StringMap.{SMap, SSet, find, assign, erase, set_insert, set_intersection}

pub record Sorter : Type 0 where
  pub dep_map : SMap SSet

abbrev pub empty_sorter : Sorter
empty_sorter = record { dep_map = [] }

unfoldable pub add_nondependent : String → Sorter → Sorter
add_nondependent subject d = record d { dep_map = assign subject [] d.dep_map }

-- The overload on a set of dependencies replaces what was there.
unfoldable pub add_dependencies : String → SSet → Sorter → Sorter
add_dependencies subject deps d = record d { dep_map = assign subject deps d.dep_map }

-- The overload on one name adds to what is there.
unfoldable pub add_dependency : String → String → Sorter → Sorter
add_dependency subject install_after d = elim (find subject d.dep_map) [
  | none ↦ record d { dep_map = assign subject (set_insert install_after []) d.dep_map }
  | some deps ↦ record d { dep_map = assign subject (set_insert install_after deps) d.dep_map }
]

-- What an algorithm writes through `tmp.begin ()` overwrites elements and leaves the size.
unfoldable pub write_into : List String → List String → List String
write_into [] xs = []
write_into (t ∷ tmp) [] = t ∷ tmp
write_into (t ∷ tmp) (x ∷ xs) = x ∷ write_into tmp xs

-- The two tests of the loop body on one entry, against the names selected so far.
unfoldable pub is_ready : SSet → SSet → Bool
unfolding write_into set_intersection
is_ready selected [] = true
is_ready selected (d ∷ ds) =
    let deps = d ∷ ds in
    if leb (length deps) (length selected)
    then length (write_into (replicate (length deps) "") (set_intersection deps selected))
      == length deps
    else false

-- The range-for over `tmp_dep`, up to its `break`: the first entry that passes.
unfoldable pub first_ready : SSet → SMap SSet → Option String
unfolding is_ready
first_ready selected [] = none
first_ready selected ((subject, deps) ∷ tmp_dep) =
    if is_ready selected deps then some subject else first_ready selected tmp_dep

-- `retval` is an out-parameter: on the throw of `Invalid_Install_Order` it keeps what was pushed.
pub data Outcome : Type 0 where
  ordered : List String → Outcome
  invalid_install_order : List String → Outcome
  out_of_fuel : Outcome

-- The `while` loop, `size` being that of `dep_map_`.
unfoldable pub order_loop : ℕ → ℕ → List String → SSet → SMap SSet → Outcome
unfolding first_ready
order_loop zero size retval selected tmp_dep = out_of_fuel
order_loop (suc fuel) size retval selected tmp_dep =
    if length retval == size then ordered retval else elim (first_ready selected tmp_dep) [
      | none ↦ invalid_install_order retval
      | some subject ↦
          order_loop fuel size (retval ++ subject ∷ []) (set_insert subject selected)
            (erase subject tmp_dep)
    ]

-- A round moves one entry out of `tmp_dep`, so one more round than entries is enough fuel.
unfoldable pub calculate_order : Sorter → List String → Outcome
unfolding order_loop
calculate_order d retval =
    order_loop (suc (length d.dep_map)) (length d.dep_map) retval [] d.dep_map
