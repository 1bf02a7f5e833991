-- ===== src/StringMap/Laws.antt =====
-- Laws of the maps and sets of `StringMap`: what an update does to later reads and to the keys.
use mathlib.Core.List.{Perm}
use mathlib.Core.List.Perm
use dancex.Prelude.{
  ◌+◌, ◌≡◌, refl, [], ◌∷◌, none, some, String, str_eq, str_compare, if◌then◌else◌, arith, length,
  str_eq_iff, str_compare-eq, str_compare_refl, inl, inr, Ordering-cases, ◌≢◌, Bool-cases, All,
  subst,
}
use dancex.StringMap.{SMap, SSet, keys, find, assign, insert, erase, set_insert}

module _ {ℓ} {V : Type ℓ} where
  pub find-assign :
      (k j : String) (v : V) (m : SMap V)
      → find j (assign k v m) ≡ (if str_eq k j then some v else find j m)
  unfolding find assign
  find-assign k j v [] = refl
  find-assign k j v ((i, w) ∷ m) = ground (
    arith,
    str_compare-eq k i,
    str_compare_refl i,
    str_eq_iff k j,
    str_eq_iff i k,
    str_eq_iff i j,
    find-assign k j v m,
  )

  pub find-insert :
      (k j : String) (v : V) (m : SMap V)
      → find j (insert k v m)
        ≡ elim (find j m) [ none ↦ if str_eq k j then some v else none | some w ↦ some w ]
  unfolding insert
  find-insert k j v m = ground (arith, str_eq_iff k j, find-assign k j v m)

  pub length-erase :
      (k : String) (v : V) (m : SMap V) → find k m ≡ some v → length (erase k m) + 1 ≡ length m
  unfolding find erase
  length-erase k v [] h = ground arith
  length-erase k v ((j, w) ∷ m) h = elim (Bool-cases (str_eq j k)) [
    | inl e ↦ rw (e, erase) (ground arith)
    | inr e ↦ rw (e, erase) (ground (arith, length-erase k v m))
  ]

  pub keys-erase-perm :
      (k : String) (v : V) (m : SMap V) → find k m ≡ some v → Perm (keys m) (k ∷ keys (erase k m))
  unfolding find erase
  keys-erase-perm k v [] h = ground arith
  keys-erase-perm k v ((j, w) ∷ m) h = elim (Bool-cases (str_eq j k)) [
    | inl e ↦
        rw (e, erase)
          (subst (λ i. Perm (j ∷ keys m) (i ∷ keys m)) ((str_eq_iff j k).0 e) (Perm.refl _))
    | inr e ↦
        rw (e, erase)
          (Perm.trans (Perm.cons j (keys-erase-perm k v m (ground arith)))
            (Perm.swap k j (keys (erase k m))))
  ]

pub All-set_insert {κ} :
    (P : String → Type κ) (x : String) (s : SSet) → P x → All P s → All P (set_insert x s)
unfolding set_insert
All-set_insert P x [] h a = (h, tt)
All-set_insert P x (y ∷ s) h a = elim (Ordering-cases (str_compare x y)) [
  | inl e ↦ rw (e, set_insert) (h, a)
  | inr (inl e) ↦ rw (e, set_insert) a
  | inr (inr e) ↦ rw (e, set_insert) (a.0, All-set_insert P x s h a.1)
]

-- A name that is not in the set makes it grow by one.
pub length-set_insert :
    (x : String) (s : SSet) → All (λ y. y ≢ x) s → length (set_insert x s) ≡ length s + 1
unfolding set_insert
length-set_insert x [] h = refl
length-set_insert x (y ∷ s) h = ground (arith, str_compare-eq x y, h.0, length-set_insert x s h.1)

module _ {ℓ κ} {V : Type ℓ} (P : V → Type κ) where
  -- A predicate on every value of a map.
  abbrev pub Values : SMap V → Type κ
  Values m = All (λ e. P e.1) m

  pub assign-Values : (k : String) (v : V) (m : SMap V) → P v → Values m → Values (assign k v m)
  unfolding assign
  assign-Values k v [] h a = (h, tt)
  assign-Values k v ((j, w) ∷ m) h a = elim (Ordering-cases (str_compare k j)) [
    | inl e ↦ rw (e, assign) (h, a)
    | inr (inl e) ↦ rw (e, assign) (h, a.1)
    | inr (inr e) ↦ rw (e, assign) (a.0, assign-Values k v m h a.1)
  ]

  pub erase-Values : (k : String) (m : SMap V) → Values m → Values (erase k m)
  unfolding erase
  erase-Values k [] a = tt
  erase-Values k ((j, w) ∷ m) a = elim (Bool-cases (str_eq j k)) [
    | inl e ↦ rw (e, erase) a.1
    | inr e ↦ rw (e, erase) (a.0, erase-Values k m a.1)
  ]

  pub find-Values : (k : String) (m : SMap V) {v : V} → Values m → find k m ≡ some v → P v
  unfolding find
  find-Values k [] a h = ground arith
  find-Values k ((j, w) ∷ m) {v} a h = elim (Bool-cases (str_eq j k)) [
    | inl e ↦ let same : w ≡ v = ground arith in subst P same a.0
    | inr e ↦ find-Values k m a.1 (rw (e, find) at h)
  ]
