-- ===== src/Split/Locality/Constraints.antt =====
-- What the tests of `match_sub_plan` say of the constraints.
use dancex.Prelude.{ℕ, List, [], ◌∷◌, ◌++◌, true, false, if◌then◌else◌, ◌==◌, ◌≡◌, ◌≢◌, refl, arith}
use dancex.Split.Plan.{PlanLocality, same_process, different_process}
use dancex.Split.Locality.{LocalityKey, contains, has_instance, has_incompatible, is_violated}

pub contains-snoc :
    (xs : List ℕ) (i j : ℕ) → contains (xs ++ i ∷ []) j ≡ (if contains xs j then true else (i == j))
unfolding contains
contains-snoc [] i j = ground arith
contains-snoc (x ∷ xs) i j = ground (arith, contains-snoc xs i j)

-- Any two instances of the list may share a process, as far as the constraint goes.
abbrev pub Allows : List ℕ → PlanLocality → Type 0
Allows xs ploc =
    (i j : ℕ)
    → contains xs i ≡ true
    → contains xs j ≡ true
    → (ploc.constraint ≡ different_process
        → i ≢ j
        → contains ploc.constrained_instance_ref i ≡ true
        → contains ploc.constrained_instance_ref j ≡ false)
      × (ploc.constraint ≡ same_process
          → contains ploc.constrained_instance_ref i ≡ contains ploc.constrained_instance_ref j)

has_incompatible-false :
    (key : LocalityKey) (i j : ℕ) (refs : List ℕ)
    → has_incompatible key i refs ≡ false
    → has_instance key j ≡ true
    → i ≢ j
    → contains refs j ≡ false
unfolding has_incompatible contains
has_incompatible-false key i j [] h k n = refl
has_incompatible-false key i j (ref ∷ refs) h k n =
    ground (arith, has_incompatible-false key i j refs)

module _ (key : LocalityKey) (i : ℕ) (ploc : PlanLocality)
    (ok : is_violated key i ploc ≡ false) where
  open ploc use {constraint, constrained_instance_ref as refs}

  apart :
      (j : ℕ)
      → constraint ≡ different_process
      → has_instance key j ≡ true
      → i ≢ j
      → contains refs i ≡ true
      → contains refs j ≡ false
  unfolding is_violated
  apart j d h n r = ground (arith, has_incompatible-false key i j refs)

  first_agrees :
      (xs : List ℕ) (j : ℕ)
      → key.instances ≡ xs
      → constraint ≡ same_process
      → contains xs j ≡ true
      → Allows xs ploc
      → contains refs i ≡ contains refs j
  unfolding is_violated contains
  first_agrees [] j e s h a = ground arith
  first_agrees (f ∷ xs) j e s h a = ground (arith, a f j)

  -- A constraint that is not violated stays allowed when the instance is added.
  pub Allows-add : Allows key.instances ploc → Allows (key.instances ++ i ∷ []) ploc
  unfolding has_instance
  Allows-add a b c hb hc = (
    λ d n r. ground (
      arith,
      contains-snoc key.instances i b,
      contains-snoc key.instances i c,
      a b c,
      apart c,
      apart b,
    ),
    λ s. ground (
      arith,
      contains-snoc key.instances i b,
      contains-snoc key.instances i c,
      a b c,
      first_agrees key.instances c refl,
      first_agrees key.instances b refl,
    ),
  )
