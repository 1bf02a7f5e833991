-- ===== src/Sorter/Legal.antt =====
-- Where the dependencies can be met at all, `calculate_order` does not throw.
use native.Mathlib.Bridge.{from_ℕ, from_le}
use native.Mathlib.Nat.{ℕ_set}
use mathlib.Core.List
use mathlib.Core.List.{Perm, Permᴰ, Nodup, Subset}
use mathlib.Core.List.Nodup
use mathlib.Core.List.Subperm
use mathlib.Core.Logic.{∥∥₁_elim}
use dancex.Prelude.{
  ℕ, suc, ◌+◌, ◌≤◌, ◌<◌, ◌≡◌, refl, ap, ◌∙◌, List, [], ◌∷◌, String, arith, length, length-Perm,
}
use dancex.StringMap.{SMap, SSet, keys}
use dancex.Sorter.Rounds.{within, count_le}
use dancex.Sorter.Order.{IsValid, calculate_order-ordered}
use dancex.Sorter.{Sorter, ordered, calculate_order}

-- Each entry's dependencies are names of `before` or of entries that stand before it.
abbrev pub Legal : List String → SMap SSet → Type 0
Legal before [] = Unit
Legal before ((s, d) ∷ l) = Nodup d × Subset d before × Legal (s ∷ before) l

length-from_ℕ {ℓ} : {A : Type ℓ} (xs : List A) → from_ℕ (List.length xs) ≡ length xs
length-from_ℕ [] = refl
length-from_ℕ (x ∷ xs) = ap suc (length-from_ℕ xs)

length-le_of_subset : (xs ys : List String) → Nodup xs → Subset xs ys → length xs ≤ length ys
length-le_of_subset xs ys n s =
    omega
      (arith, length-from_ℕ xs, length-from_ℕ ys, from_le (Subperm.length-le (Nodup.subperm n s)))

Legal-counts :
    (j : ℕ) (before : List String) (l : SMap SSet)
    → Legal before l
    → j < length before + length l
    → j < length before + count_le j l
Legal-counts j before [] h lt = omega arith
Legal-counts j before ((s, d) ∷ l) h lt =
    ground (arith, length-le_of_subset d before h.0 h.1, Legal-counts j (s ∷ before) l h.2)

perm-count_le : (j : ℕ) {l m : SMap SSet} → Permᴰ l m → count_le j l ≡ count_le j m
perm-count_le j Permᴰ.nil = refl
perm-count_le j (Permᴰ.cons e p) = omega (arith, ap (within j) e, perm-count_le j p)
perm-count_le j (Permᴰ.swap e f) = omega (arith, ap (within j) e, ap (within j) f)
perm-count_le j (Permᴰ.trans p q) = perm-count_le j p ∙ perm-count_le j q

-- If the entries of the dependency map can be put in a sequence in which the dependencies of each
-- are names of earlier ones, calculate_order returns an order, which names every subject once.
pub calculate_order-Legal :
    (d : Sorter) (l : SMap SSet)
    → IsValid d
    → Perm l d.dep_map
    → Legal [] l
    → (r : List String) × (calculate_order d [] ≡ ordered r) × Perm r (keys d.dep_map)
calculate_order-Legal d l v p h = calculate_order-ordered d v λ k below.
    let n = length-Perm p in
    let c = ∥∥₁_elim p (ℕ_set _ _) (perm-count_le k) in omega (arith, n, c, Legal-counts k [] l h)
