-- ===== src/Prelude/Groups.antt =====
-- The positions in a list at which a test holds, and lists that are grouped by a key.
use Prim.Native.Nat.{ℕ, zero, suc, ◌+◌, ◌<◌}
use mathlib.Core.Path.{◌≡◌, ◌∙◌, refl, ap, subst}
use mathlib.Core.Logic.{◌≢◌, ◌⊎◌, inl, inr}
use mathlib.Core.Bool.{Bool, true, false, ◌||◌}
use mathlib.Core.List.{List, [], ◌∷◌, ◌++◌, map, Perm, perm_middle}
use mathlib.Core.List.Perm
use mathlib.Core.Option.{some}
use native.Mathlib.Omega.{arith}
use dancex.Prelude.Tests.{if◌then◌else◌, Bool-cases}
use dancex.Prelude.Lists.{length, All, All-imp, All-append, get_elem?}

abbrev pub concat_map {ℓ κ} : {A : Type ℓ} {B : Type κ} → (A → List B) → List A → List B
concat_map f [] = []
concat_map f (x ∷ xs) = f x ++ concat_map f xs

pub concat_map-cong {ℓ κ} :
    {A : Type ℓ} {B : Type κ} (f g : A → List B) (xs : List A)
    → ((a : A) → f a ≡ g a)
    → concat_map f xs ≡ concat_map g xs
concat_map-cong f g [] h = refl
concat_map-cong f g (x ∷ xs) h = rw h (ap (◌++◌ (g x)) (concat_map-cong f g xs h))

pub map-append {ℓ κ} :
    {A : Type ℓ} {B : Type κ} (f : A → B) (xs ys : List A) → map f (xs ++ ys) ≡ map f xs ++ map f ys
map-append f [] ys = refl
map-append f (x ∷ xs) ys = ap (◌∷◌ (f x)) (map-append f xs ys)

pub map-map {ℓ κ μ} :
    {A : Type ℓ} {B : Type κ} {C : Type μ} (f : A → B) (g : B → C) (xs : List A)
    → map g (map f xs) ≡ map (λ x. g (f x)) xs
map-map f g [] = refl
map-map f g (x ∷ xs) = ap (◌∷◌ (g (f x))) (map-map f g xs)

pub map-id {ℓ} : {A : Type ℓ} (xs : List A) → map (λ x. x) xs ≡ xs
map-id [] = refl
map-id (x ∷ xs) = ap (◌∷◌ x) (map-id xs)

pub map-concat_map {ℓ κ μ} :
    {A : Type ℓ} {B : Type κ} {C : Type μ} (f : A → List B) (g : B → C) (xs : List A)
    → map g (concat_map f xs) ≡ concat_map (λ x. map g (f x)) xs
map-concat_map f g [] = refl
map-concat_map f g (x ∷ xs) =
    map-append g (f x) (concat_map f xs) ∙ ap (◌++◌ (map g (f x))) (map-concat_map f g xs)

pub All-concat_map {ℓ κ μ} :
    {A : Type ℓ} {B : Type κ} (P : B → Type μ) (f : A → List B) (xs : List A)
    → ((a : A) → All P (f a))
    → All P (concat_map f xs)
All-concat_map P f [] h = tt
All-concat_map P f (x ∷ xs) h = All-append P (f x) (concat_map f xs) (h x) (All-concat_map P f xs h)

-- A predicate on the images.
pub All-map {ℓ κ μ} :
    {A : Type ℓ} {B : Type κ} (P : B → Type μ) (f : A → B) (xs : List A)
    → All (λ x. P (f x)) xs
    → All P (map f xs)
All-map P f [] h = tt
All-map P f (x ∷ xs) h = (h.0, All-map P f xs h.1)

-- No element twice.
abbrev pub Distinct {ℓ} : {A : Type ℓ} → List A → Type ℓ
Distinct [] = Unit
Distinct (x ∷ xs) = All (λ y. y ≢ x) xs × Distinct xs

abbrev pub count_from : ℕ → ℕ → List ℕ
count_from i zero = []
count_from i (suc n) = i ∷ count_from (suc i) n

module _ {ℓ} {A : Type ℓ} where
  -- The positions, the first element standing at `i`.
  abbrev pub positions : (A → Bool) → ℕ → List A → List ℕ
  positions p i [] = []
  positions p i (x ∷ xs) = let rest = positions p (suc i) xs in if p x then i ∷ rest else rest

  pub positions-All :
      (p : A → Bool) (i : ℕ) (xs : List A)
      → All (λ x. p x ≡ true) xs
      → positions p i xs ≡ count_from i (length xs)
  positions-All p i [] h = refl
  positions-All p i (x ∷ xs) h = rw (h.0, positions) (ap (◌∷◌ i) (positions-All p (suc i) xs h.1))

  pub positions-lt :
      (p : A → Bool) (i : ℕ) (xs : List A) → All (λ j. j < i + length xs) (positions p i xs)
  positions-lt p i [] = tt
  positions-lt p i (x ∷ xs) =
      let rest =
        All-imp {P = λ j. j < suc i + length xs} {Q = λ j. j < i + length (x ∷ xs)}
          (positions p (suc i) xs) (λ j lt. omega arith) (positions-lt p (suc i) xs) in
      elim (Bool-cases (p x)) [ inl e ↦ rw (e, All) (omega arith, rest) | inr e ↦ rw e rest ]

  -- An element at which the test holds stands at `j`.
  abbrev pub Hit : (A → Bool) → ℕ → List A → ℕ → Type ℓ
  Hit p i xs j = (n : ℕ) × (j ≡ i + n) × (x : A) × (get_elem? xs n ≡ some x) × (p x ≡ true)

  pub positions-Hit : (p : A → Bool) (i : ℕ) (xs : List A) → All (Hit p i xs) (positions p i xs)
  positions-Hit p i [] = tt
  positions-Hit p i (x ∷ xs) =
      let rest =
        All-imp {P = Hit p (suc i) xs} {Q = Hit p i (x ∷ xs)} (positions p (suc i) xs)
          (λ j h. (suc h.0, (let e = h.1 in omega arith), h.2, h.3, h.4))
          (positions-Hit p (suc i) xs) in
      elim (Bool-cases (p x)) [
        | inl e ↦ rw (e, All) ((0, omega arith, x, refl, e), rest)
        | inr e ↦ rw e rest
      ]

  -- The positions for two tests that exclude each other.
  pub positions-split :
      (p q : A → Bool) (i : ℕ) (xs : List A)
      → All (λ x. (p x ≡ false) ⊎ (q x ≡ false)) xs
      → Perm (positions p i xs ++ positions q i xs) (positions (λ x. p x || q x) i xs)
  positions-split p q i [] h = Perm.nil
  positions-split p q i (x ∷ xs) h =
      let rest = positions-split p q (suc i) xs h.1 in
      elim (Bool-cases (p x)) [
        | inl e ↦ elim h.0 [ inl f ↦ ground arith | inr f ↦ rw (e, f) (Perm.cons i rest) ]
        | inr e ↦ elim (Bool-cases (q x)) [
          | inl f ↦ rw (e, f) (Perm.trans (perm_middle _ _) (Perm.cons i rest))
          | inr f ↦ rw (e, f) rest
        ]
      ]

module _ {ℓ κ} {A : Type ℓ} {K : Type κ} (hit : K → A → Bool) where
  abbrev pub some_hit : List K → A → Bool
  some_hit [] x = false
  some_hit (k ∷ ks) x = hit k x || some_hit ks x

  abbrev pub grouped : ℕ → List A → List K → List ℕ
  grouped i xs = concat_map (λ k. positions (hit k) i xs)

  module _ (exclusive : (k j : K) (x : A) → hit k x ≡ true → hit j x ≡ true → k ≡ j) where
    some_hit-fresh :
        (k : K) (ks : List K) (x : A) → All (λ j. j ≢ k) ks → hit k x ≡ true → some_hit ks x ≡ false
    some_hit-fresh k [] x h e = refl
    some_hit-fresh k (j ∷ ks) x h e = elim (Bool-cases (hit j x)) [
      | inl f ↦ absurd (h.0 (exclusive j k x f e))
      | inr f ↦ rw (f, some_hit) (some_hit-fresh k ks x h.1 e)
    ]

    apart :
        (k : K) (ks : List K) (xs : List A)
        → All (λ j. j ≢ k) ks
        → All (λ x. (hit k x ≡ false) ⊎ (some_hit ks x ≡ false)) xs
    apart k ks [] h = tt
    apart k ks (x ∷ xs) h = (
      elim (Bool-cases (hit k x)) [ inl e ↦ inr (some_hit-fresh k ks x h e) | inr e ↦ inl e ],
      apart k ks xs h,
    )

    -- The groups of distinct keys together are the positions that some key hits.
    pub grouped-perm :
        (i : ℕ) (xs : List A) (ks : List K)
        → Distinct ks
        → Perm (grouped i xs ks) (positions (some_hit ks) i xs)
    grouped-perm i xs [] d = subst (Perm []) (none_hit xs i) Perm.nil
      where
        none_hit : (ys : List A) (n : ℕ) → [] ≡ positions (λ x. false) n ys
        none_hit [] n = refl
        none_hit (y ∷ ys) n = none_hit ys (suc n)
    grouped-perm i xs (k ∷ ks) d =
        Perm.trans (Perm.append_left (positions (hit k) i xs) (grouped-perm i xs ks d.1))
          (positions-split (hit k) (some_hit ks) i xs (apart k ks xs d.0))
