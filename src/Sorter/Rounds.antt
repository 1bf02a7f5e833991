-- ===== src/Sorter/Rounds.antt =====
-- The invariant of the `while` loop of `calculate_order`, and what it gives at each way out.
use mathlib.Core.List.{Perm, append-nil, append_assoc}
use mathlib.Core.List.Perm
use dancex.Prelude.{
  ℕ, zero, suc, ◌+◌, ◌≤◌, ◌<◌, ◌≡◌, ◌≢◌, refl, List, [], ◌∷◌, ◌++◌, none, some, String,
  if◌then◌else◌, arith, length, length-append, leb, All, All-imp, str_eq_iff, Bool-cases,
  Option-cases, inl, inr, ◌==◌, ==_iff,
}
use dancex.StringMap.{SMap, SSet, keys, find, erase, set_insert}
use dancex.StringMap.Laws.{length-erase, keys-erase-perm, All-set_insert, length-set_insert}
use dancex.StringMap.Order.{IsSorted, erase-IsSorted, find-erase}
use dancex.Sorter.Scan.{first_ready-some, first_ready-none}
use dancex.Sorter.{Outcome, ordered, invalid_install_order, out_of_fuel, first_ready, order_loop}

abbrev pub within : ℕ → String × SSet → ℕ
within j e = if leb (length e.1) j then 1 else 0

-- How many entries have at most `j` dependencies.
abbrev pub count_le : ℕ → SMap SSet → ℕ
count_le j [] = 0
count_le j (e ∷ m) = within j e + count_le j m

-- From position `i` on, each name has a map entry with no more dependencies than names before it.
abbrev pub Backed : SMap SSet → ℕ → List String → Type 0
Backed m i [] = Unit
Backed m i (s ∷ r) = ((d : SSet) × (find s m ≡ some d) × (length d ≤ i)) × Backed m (suc i) r

-- What each outcome of the loop means for the map `m` that it started from.
abbrev pub Post : SMap SSet → Outcome → Type 0
Post m (ordered r) = Perm r (keys m) × Backed m 0 r
Post m (invalid_install_order r) = (k : ℕ) × (k < length m) × (count_le k m ≤ k)
Post m out_of_fuel = ⊥

Backed-snoc :
    (m : SMap SSet) (i : ℕ) (r : List String) (s : String) (d : SSet)
    → find s m ≡ some d
    → length d ≤ i + length r
    → Backed m i r
    → Backed m i (r ++ s ∷ [])
Backed-snoc m i [] s d f h b = ((d, f, omega arith), tt)
Backed-snoc m i (x ∷ r) s d f h b = (b.0, Backed-snoc m (suc i) r s d f (omega arith) b.1)

count_le-erase : (j : ℕ) (s : String) (m : SMap SSet) → count_le j m ≤ count_le j (erase s m) + 1
unfolding erase
count_le-erase j s [] = omega arith
count_le-erase j s ((k, d) ∷ m) = ground (arith, count_le-erase j s m)

count_le-none : (j : ℕ) (m : SMap SSet) → All (λ e. j < length e.1) m → count_le j m ≡ 0
count_le-none j [] a = refl
count_le-none j ((k, d) ∷ m) a = ground (arith, count_le-none j m a.1)

record Inv (m : SMap SSet) (retval : List String) (selected : SSet) (tmp_dep : SMap SSet)
    : Type 0 where
  in_order : IsSorted tmp_dep
  fresh : All (λ y. find y tmp_dep ≡ none) selected
  sizes : length selected + length tmp_dep ≡ length m
  pushed : length retval ≡ length selected
  names : Perm (retval ++ keys tmp_dep) (keys m)
  backed : Backed m 0 retval
  same : (s : String) (d : SSet) → find s tmp_dep ≡ some d → find s m ≡ some d
  counts : (j : ℕ) → count_le j m ≤ length selected + count_le j tmp_dep

module _ {m : SMap SSet} {retval : List String} {selected : SSet} {tmp_dep : SMap SSet}
    (v : Inv m retval selected tmp_dep) where
  -- One round: the chosen name moves from `tmp_dep` to `retval` and `selected`.
  round-Inv :
      (s : String) (d : SSet)
      → find s tmp_dep ≡ some d
      → length d ≤ length selected
      → Inv m (retval ++ s ∷ []) (set_insert s selected) (erase s tmp_dep)
  round-Inv s d found fits = record {
    in_order = erase-IsSorted s tmp_dep v.in_order;
    fresh = All-set_insert _ s selected gone (All-imp selected stays v.fresh);
    sizes = omega (arith, grown, length-erase s d tmp_dep found, v.sizes);
    pushed = omega (arith, grown, length-append retval (s ∷ []), v.pushed);
    names = rw append_assoc (Perm.trans (Perm.append_left retval moved) v.names);
    backed = Backed-snoc m 0 retval s d (v.same s d found) (omega (arith, v.pushed)) v.backed;
    same = λ t e h. v.same t e (kept t e h);
    counts = λ j. omega (arith, grown, count_le-erase j s tmp_dep, v.counts j);
  }
    where
      clash : (y : String) → find y tmp_dep ≡ none → y ≡ s → ⊥
      clash y h e = cc

      gone : find s (erase s tmp_dep) ≡ none
      gone = ground (arith, find-erase s s tmp_dep v.in_order, str_eq_iff s s)

      stays : (y : String) → find y tmp_dep ≡ none → find y (erase s tmp_dep) ≡ none
      stays y h = ground (arith, find-erase s y tmp_dep v.in_order)

      moved : Perm (s ∷ keys (erase s tmp_dep)) (keys tmp_dep)
      moved = Perm.symm (keys-erase-perm s d tmp_dep found)

      kept : (t : String) (e : SSet) → find t (erase s tmp_dep) ≡ some e → find t tmp_dep ≡ some e
      kept t e h = ground (arith, find-erase s t tmp_dep v.in_order)

      grown : length (set_insert s selected) ≡ length selected + 1
      grown = length-set_insert s selected (All-imp selected (λ y h e. clash y h e) v.fresh)

  done-Post : length retval ≡ length m → Post m (ordered retval)
  done-Post h = (used_up tmp_dep (omega (arith, v.sizes, v.pushed)) v.names, v.backed)
    where
      used_up :
          (t : SMap SSet) → length t ≡ 0 → Perm (retval ++ keys t) (keys m) → Perm retval (keys m)
      used_up [] e p = rw (append-nil retval) at p
      used_up (x ∷ t) e p = absurd (omega arith)

  stuck-Post :
      length retval ≢ length m
      → first_ready selected tmp_dep ≡ none
      → Post m (invalid_install_order retval)
  stuck-Post h e = (
    length selected,
    omega (arith, v.sizes, v.pushed),
    omega (
      arith,
      v.counts (length selected),
      count_le-none (length selected) tmp_dep (first_ready-none selected tmp_dep e),
    ),
  )

module _ (m : SMap SSet) where
  loop-Post :
      (fuel : ℕ) (retval : List String) (selected : SSet) (tmp_dep : SMap SSet)
      → Inv m retval selected tmp_dep
      → length tmp_dep < fuel
      → Post m (order_loop fuel (length m) retval selected tmp_dep)
  unfolding order_loop
  loop-Post zero retval selected tmp_dep v h = absurd (omega arith)
  loop-Post (suc fuel) retval selected tmp_dep v h = elim (Bool-cases (length retval == length m)) [
    | inl e ↦ rw (e, order_loop) (done-Post v ((==_iff _ _).0 e))
    | inr e ↦ elim (Option-cases (first_ready selected tmp_dep)) [
      | inl f ↦ rw (e, f, order_loop) (stuck-Post v (ground arith) f)
      | inr (s, f) ↦
          let (d, found, fits) = first_ready-some selected tmp_dep v.in_order f in
          rw (e, f, order_loop)
            (loop-Post fuel (retval ++ s ∷ []) (set_insert s selected) (erase s tmp_dep)
              (round-Inv v s d found fits) (omega (arith, length-erase s d tmp_dep found)))
    ]
  ]

start-Inv : (m : SMap SSet) → IsSorted m → Inv m [] [] m
start-Inv m s = record {
  in_order = s;
  fresh = tt;
  sizes = omega arith;
  pushed = refl;
  names = Perm.refl (keys m);
  backed = tt;
  same = λ t d h. h;
  counts = λ j. omega arith;
}

pub order_loop-Post :
    (m : SMap SSet) → IsSorted m → Post m (order_loop (suc (length m)) (length m) [] [] m)
order_loop-Post m s = loop-Post m (suc (length m)) [] [] m (start-Inv m s) (omega arith)
