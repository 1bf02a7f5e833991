-- ===== src/Sorter/Scan.antt =====
-- What the scan of `tmp_dep` finds. The intersection is written into a vector that has the size of
-- the dependencies already, so the comparison of the sizes always succeeds.
use dancex.Prelude.{
  suc, ◌≤◌, ◌<◌, ◌≡◌, refl, ap, List, [], ◌∷◌, none, some, String, arith, length, replicate,
  length-replicate, leb, All, str_eq_iff, Bool-cases, inl, inr,
}
use dancex.StringMap.{SMap, SSet, find, set_intersection}
use dancex.StringMap.Order.{IsSorted, find-Below}
use dancex.Sorter.{write_into, is_ready, first_ready}

pub length-write_into : (tmp xs : List String) → length (write_into tmp xs) ≡ length tmp
unfolding write_into
length-write_into [] xs = refl
length-write_into (t ∷ tmp) [] = refl
length-write_into (t ∷ tmp) (x ∷ xs) = ap suc (length-write_into tmp xs)

-- Whatever the names: an entry is ready as soon as enough names are selected.
pub is_ready_lem :
    (selected deps : SSet) → is_ready selected deps ≡ leb (length deps) (length selected)
unfolding is_ready
is_ready_lem selected [] = ground arith
is_ready_lem selected (d ∷ ds) = ground (
  arith,
  length-write_into (replicate (length (d ∷ ds)) "") (set_intersection (d ∷ ds) selected),
  length-replicate {A = String} (length (d ∷ ds)) "",
)

pub first_ready-some :
    (selected : SSet) (tmp_dep : SMap SSet) {subject : String}
    → IsSorted tmp_dep
    → first_ready selected tmp_dep ≡ some subject
    → (deps : SSet) × (find subject tmp_dep ≡ some deps) × (length deps ≤ length selected)
unfolding first_ready find
first_ready-some selected [] s h = ground arith
first_ready-some selected ((k, d) ∷ m) {subject} s h = elim (Bool-cases (is_ready selected d)) [
  | inl r ↦
      let e : k ≡ subject = ground arith in
      (d, ground (arith, str_eq_iff k subject), ground (arith, is_ready_lem selected d))
  | inr r ↦
      let (deps, found, fits) = first_ready-some selected m s.1 (rw (r, first_ready) at h) in
      (deps, ground (arith, str_eq_iff k subject, find-Below k m s.0), fits)
]

pub first_ready-none :
    (selected : SSet) (tmp_dep : SMap SSet)
    → first_ready selected tmp_dep ≡ none
    → All (λ e. length selected < length e.1) tmp_dep
unfolding first_ready
first_ready-none selected [] h = tt
first_ready-none selected ((k, d) ∷ m) h = elim (Bool-cases (is_ready selected d)) [
  | inl r ↦ ground arith
  | inr r ↦ (
    ground (arith, is_ready_lem selected d),
    first_ready-none selected m (rw (r, first_ready) at h),
  )
]
