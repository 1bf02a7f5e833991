-- ===== src/Sorter/Bug.antt =====
-- `calculate_order` compares the number of selected names with the number of dependencies, not the
-- names: a handler can come out before the handler that it depends on.
use dancex.Prelude.{◌≡◌, [], ◌∷◌, String, Ordering, str_compare, str_eq_refl, arith, ap, ◌∙◌}
use dancex.StringMap.{find, assign, erase, set_insert}
use dancex.StringMap.Order.{
  str_compare_trans, str_compare-lt-gt, str_compare-lt-ne, str_compare-lt-ne',
}
use dancex.Sorter.{Sorter, empty_sorter, add_nondependent, add_dependency, calculate_order, ordered}

-- Two handlers without dependencies, and one between them by name that depends on the last.
abbrev pub between : String → String → String → Sorter
between a b c = add_dependency b c (add_nondependent c (add_nondependent a empty_sorter))

module _ (a b c : String) (h : str_compare a b ≡ Ordering.lt)
    (k : str_compare b c ≡ Ordering.lt) where
  ac : str_compare a c ≡ Ordering.lt
  ac = str_compare_trans a b c h k

  abbrev two : Sorter
  two = record { dep_map = (a, []) ∷ (c, []) ∷ [] }

  abbrev three : Sorter
  three = record { dep_map = (a, []) ∷ (b, c ∷ []) ∷ (c, []) ∷ [] }

  add_nondependent-two : add_nondependent c (add_nondependent a empty_sorter) ≡ two
  unfolding add_nondependent assign
  add_nondependent-two = ground (arith, str_compare-lt-gt a c ac)

  add_dependency-three : add_dependency b c two ≡ three
  unfolding add_dependency find assign set_insert
  add_dependency-three =
      ground (arith, k, str_compare-lt-gt a b h, str_compare-lt-ne a b h, str_compare-lt-ne' b c k)

  between_lem : between a b c ≡ three
  between_lem = ap (add_dependency b c) add_nondependent-two ∙ add_dependency-three

  calculate_order-three : calculate_order three [] ≡ ordered (a ∷ b ∷ c ∷ [])
  unfolding calculate_order erase set_insert find
  calculate_order-three = ground (
    arith,
    str_eq_refl a,
    str_eq_refl b,
    str_eq_refl c,
    str_compare-lt-gt a b h,
    str_compare-lt-gt b c k,
    str_compare-lt-gt a c ac,
  )

  -- For any three names in order, the middle one, which depends on the last, is put before it.
  calculate_order-between : calculate_order (between a b c) [] ≡ ordered (a ∷ b ∷ c ∷ [])
  calculate_order-between = ap (λ d. calculate_order d []) between_lem ∙ calculate_order-three
