-- ===== src/StringMap/Order.antt =====
-- The key order of the maps and sets, and that every update keeps it: a key stands once.
use Prim.Native.String.compare
use dancex.Prelude.{
  ◌≡◌, refl, [], ◌∷◌, none, String, Ordering, str_eq, str_compare, if◌then◌else◌, arith, All,
  str_eq_iff, str_compare-eq, str_compare_refl, inl, inr, Ordering-cases, Bool-cases, Option-cases,
  false,
}
use dancex.StringMap.{SMap, find, assign, insert, erase}

pub str_compare_trans :
    (r s t : String)
    → str_compare r s ≡ Ordering.lt
    → str_compare s t ≡ Ordering.lt
    → str_compare r t ≡ Ordering.lt
str_compare_trans String.[] String.[] t h k = ground (arith, compare.nil-nil)
str_compare_trans String.[] (String.◌∷◌ d s) String.[] h k = ground (arith, compare.cons-nil d s)
str_compare_trans String.[] (String.◌∷◌ d s) (String.◌∷◌ e t) h k = compare.nil-cons e t
str_compare_trans (String.◌∷◌ c r) String.[] t h k = ground (arith, compare.cons-nil c r)
str_compare_trans (String.◌∷◌ c r) (String.◌∷◌ d s) String.[] h k =
    ground (arith, compare.cons-nil d s)
str_compare_trans (String.◌∷◌ c r) (String.◌∷◌ d s) (String.◌∷◌ e t) h k = ground (
  arith,
  compare.cons-cons c d r s,
  compare.cons-cons d e s t,
  compare.cons-cons c e r t,
  str_compare_trans r s t,
)

pub str_compare-gt : (s t : String) → str_compare s t ≡ Ordering.gt → str_compare t s ≡ Ordering.lt
str_compare-gt String.[] String.[] h = ground (arith, compare.nil-nil)
str_compare-gt String.[] (String.◌∷◌ d t) h = ground (arith, compare.nil-cons d t)
str_compare-gt (String.◌∷◌ c s) String.[] h = compare.nil-cons c s
str_compare-gt (String.◌∷◌ c s) (String.◌∷◌ d t) h =
    ground (arith, compare.cons-cons c d s t, compare.cons-cons d c t s, str_compare-gt s t)

pub str_compare-lt-ne : (s t : String) → str_compare s t ≡ Ordering.lt → str_eq s t ≡ false
str_compare-lt-ne s t h = ground (arith, str_eq_iff s t, str_compare_refl s)

pub str_compare-lt-ne' : (s t : String) → str_compare s t ≡ Ordering.lt → str_eq t s ≡ false
str_compare-lt-ne' s t h = ground (arith, str_eq_iff t s, str_compare_refl s)

module _ {ℓ} {V : Type ℓ} where
  -- `k` stands before every key of `m`.
  abbrev pub Below : String → SMap V → Type 0
  Below k m = All (λ e. str_compare k e.0 ≡ Ordering.lt) m

  abbrev pub IsSorted : SMap V → Type 0
  IsSorted [] = Unit
  IsSorted ((k, v) ∷ m) = Below k m × IsSorted m

  pub Below-trans :
      (i k : String) (m : SMap V) → str_compare i k ≡ Ordering.lt → Below k m → Below i m
  Below-trans i k [] h b = tt
  Below-trans i k ((j, v) ∷ m) h b = (str_compare_trans i k j h b.0, Below-trans i k m h b.1)

  pub find-Below : (k : String) (m : SMap V) → Below k m → find k m ≡ none
  unfolding find
  find-Below k [] b = refl
  find-Below k ((j, v) ∷ m) b = ground (arith, str_compare-lt-ne' k j b.0, find-Below k m b.1)

  Below-assign :
      (i k : String) (v : V) (m : SMap V)
      → str_compare i k ≡ Ordering.lt
      → Below i m
      → Below i (assign k v m)
  unfolding assign
  Below-assign i k v [] h b = (h, tt)
  Below-assign i k v ((j, w) ∷ m) h b = elim (Ordering-cases (str_compare k j)) [
    | inl e ↦ rw (e, assign) (h, b)
    | inr (inl e) ↦ rw (e, assign) (h, b.1)
    | inr (inr e) ↦ rw (e, assign) (b.0, Below-assign i k v m h b.1)
  ]

  pub assign-IsSorted : (k : String) (v : V) (m : SMap V) → IsSorted m → IsSorted (assign k v m)
  unfolding assign
  assign-IsSorted k v [] s = (tt, tt)
  assign-IsSorted k v ((j, w) ∷ m) s = elim (Ordering-cases (str_compare k j)) [
    | inl e ↦ rw (e, assign) ((e, Below-trans k j m e s.0), s)
    | inr (inl e) ↦ rw (e, assign) (rw (str_compare-eq k j e) s.0, s.1)
    | inr (inr e) ↦
        rw (e, assign) (Below-assign j k v m (str_compare-gt k j e) s.0, assign-IsSorted k v m s.1)
  ]

  pub Below-erase : (i k : String) (m : SMap V) → Below i m → Below i (erase k m)
  unfolding erase
  Below-erase i k [] b = tt
  Below-erase i k ((j, w) ∷ m) b = elim (Bool-cases (str_eq j k)) [
    | inl e ↦ rw (e, erase) b.1
    | inr e ↦ rw (e, erase) (b.0, Below-erase i k m b.1)
  ]

  pub erase-IsSorted : (k : String) (m : SMap V) → IsSorted m → IsSorted (erase k m)
  unfolding erase
  erase-IsSorted k [] s = tt
  erase-IsSorted k ((j, w) ∷ m) s = elim (Bool-cases (str_eq j k)) [
    | inl e ↦ rw (e, erase) s.1
    | inr e ↦ rw (e, erase) (Below-erase j k m s.0, erase-IsSorted k m s.1)
  ]

  pub insert-IsSorted : (k : String) (v : V) (m : SMap V) → IsSorted m → IsSorted (insert k v m)
  unfolding insert
  insert-IsSorted k v m s = elim (Option-cases (find k m)) [
    | inl e ↦ rw (e, insert) (assign-IsSorted k v m s)
    | inr (w, e) ↦ rw (e, insert) s
  ]

  -- In key order, erasing a key takes it out of the map, and nothing else.
  pub find-erase :
      (k j : String) (m : SMap V)
      → IsSorted m
      → find j (erase k m) ≡ (if str_eq k j then none else find j m)
  unfolding find erase
  find-erase k j [] s = ground arith
  find-erase k j ((i, w) ∷ m) s = ground (
    arith,
    find-erase k j m s.1,
    str_eq_iff i k,
    str_eq_iff k j,
    str_eq_iff i j,
    find-Below i m s.0,
  )

pub str_compare-lt-gt :
    (s t : String) → str_compare s t ≡ Ordering.lt → str_compare t s ≡ Ordering.gt
str_compare-lt-gt s t h =
    ground (arith, str_compare_trans s t s h, str_compare_refl s, str_compare-eq t s)
