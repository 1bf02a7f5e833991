-- ===== src/Plugins/Order.antt =====
-- `get_installation_order` against the registered installation handlers.
use mathlib.Core.List.Perm
use mathlib.Core.List.{Mem, mem-cons_self, mem-cons_of_mem}
use dancex.Prelude.{
  ℕ, List, [], ◌∷◌, false, String, ◌≡◌, refl, arith, ◌⊎◌, inl, inr, str_eq, str_eq_iff, subst,
  Option-cases, Bool-cases,
}
use dancex.StringMap.{SSet, SMap, find, insert, keys, set_insert}
use dancex.StringMap.Laws.{find-insert, find-assign}
use dancex.Utility.{PropertyMap, is_absent, build_property_sequence}
use dancex.Sorter.{Sorter, ordered, add_dependencies, add_dependency}
use dancex.Sorter.Order.{IsValid, add-IsValid, dependencies, dependency, calculate_order-Post}
use dancex.Sorter.Rounds.{Post}
use dancex.Plugins.{
  PluginManager, Handler, Failure, Loaded, plugin_config, enter_handler, configure_handler,
  register_installation_handler, fetch_installation_handler, add_dependency_list,
  get_installation_order,
}
use dancex.Plugins.Handlers.{load_plugin-outcome}

-- A type stands in the dependency map.
abbrev Known : String → Sorter → Type 0
Known t d = is_absent (find t d.dep_map) ≡ false

add_dependencies-Known :
    (t subject : String) (deps : SSet) (d : Sorter)
    → Known t d ⊎ (subject ≡ t)
    → Known t (add_dependencies subject deps d)
unfolding add_dependencies
add_dependencies-Known t subject deps d h =
    ground (arith, find-assign subject t deps d.dep_map, str_eq_iff subject t)

add_dependency-Known :
    (t subject after : String) (d : Sorter) → Known t d → Known t (add_dependency subject after d)
unfolding add_dependency
add_dependency-Known t subject after d h = elim (Option-cases (find subject d.dep_map)) [
  | inl e ↦
      rw (e, add_dependency) (ground (arith, find-assign subject t (set_insert after []) d.dep_map))
  | inr (deps, e) ↦
      rw (e, add_dependency)
        (ground (arith, find-assign subject t (set_insert after deps) d.dep_map))
]

add_dependency_list-Known :
    (t subject : String) (deps : List String) (d : Sorter)
    → Known t d
    → Known t (add_dependency_list subject deps d)
unfolding add_dependency_list
add_dependency_list-Known t subject [] d h = h
add_dependency_list-Known t subject (dep ∷ deps) d h =
    add_dependency_list-Known t subject deps (add_dependency subject dep d)
      (add_dependency-Known t subject dep d h)

add_dependency_list-IsValid :
    (subject : String) (deps : List String) (d : Sorter)
    → IsValid d
    → IsValid (add_dependency_list subject deps d)
unfolding add_dependency_list
add_dependency_list-IsValid subject [] d v = v
add_dependency_list-IsValid subject (dep ∷ deps) d v =
    add_dependency_list-IsValid subject deps (add_dependency subject dep d)
      (add-IsValid (dependency subject dep) d v)

Mem-keys : {V : Type 0} (t : String) (m : SMap V) → is_absent (find t m) ≡ false → Mem t (keys m)
unfolding find
Mem-keys t [] h = ground arith
Mem-keys t ((j, v) ∷ m) h = elim (Bool-cases (str_eq j t)) [
  | inl e ↦ subst (λ i. Mem i (j ∷ keys m)) ((str_eq_iff j t).0 e) mem-cons_self
  | inr e ↦ mem-cons_of_mem j (Mem-keys t m (ground arith))
]

module _ {Any : Type 0} where
  insert-held :
      (type t : String) (plugin : Handler Any) (m : SMap (Handler Any))
      → is_absent (find t (insert type plugin m)) ≡ false
      → (is_absent (find t m) ≡ false) ⊎ (type ≡ t)
  insert-held type t plugin m h = elim (Bool-cases (str_eq type t)) [
    | inl e ↦ inr ((str_eq_iff type t).0 e)
    | inr e ↦ inl (ground (arith, find-insert type t plugin m))
  ]

  -- The dependency map is in key order, and has every type that a handler is registered for.
  unfoldable pub IsConsistent : PluginManager Any → Type 0
  IsConsistent m =
      IsValid m.ih_dep
      × ((t : String) → is_absent (fetch_installation_handler t m) ≡ false → Known t m.ih_dep)

  enter_handler-IsConsistent :
      (artifact : String) (plugin : Handler Any) (depends : SSet) (m : PluginManager Any)
      → IsConsistent m
      → IsConsistent (enter_handler artifact plugin depends m).1
  unfolding enter_handler IsConsistent fetch_installation_handler
  enter_handler-IsConsistent artifact plugin depends m (v, k) = entered plugin.dependencies refl
    where
      held :
          (t : String)
          → (is_absent (find t m.handler_map) ≡ false) ⊎ (plugin.instance_type ≡ t)
          → Known t m.ih_dep ⊎ (plugin.instance_type ≡ t)
      held t (inl h) = inl (k t h)
      held t (inr e) = inr e

      entered :
          (d : List String ⊎ Failure)
          → plugin.dependencies ≡ d
          → IsConsistent (enter_handler artifact plugin depends m).1
      entered (inl deps) e =
          rw (e, enter_handler)
            (
              add_dependency_list-IsValid plugin.instance_type deps _
                  (add-IsValid (dependencies plugin.instance_type depends) m.ih_dep v),
              λ t h. add_dependency_list-Known t plugin.instance_type deps _ (
                  add_dependencies-Known t plugin.instance_type depends m.ih_dep
                    (held t (insert-held plugin.instance_type t plugin m.handler_map h))),
            )
      entered (inr f) e =
          rw (e, enter_handler)
            (
              add-IsValid (dependencies plugin.instance_type depends) m.ih_dep v,
              λ t h. add_dependencies-Known t plugin.instance_type depends m.ih_dep (inl (k t h)),
            )

  -- Whatever a registration of an installation handler does, fail or not, the dependency map
  -- stays in key order and has every registered type.
  pub register-IsConsistent :
      (load : String → String → ℕ → Loaded (Handler Any)) (artifact entrypoint : String)
      (depends : SSet) (open_mode : ℕ) (config : PropertyMap Any) (m : PluginManager Any)
      → IsConsistent m
      → IsConsistent
          (register_installation_handler load artifact entrypoint depends open_mode config m).2
  unfolding register_installation_handler configure_handler
  register-IsConsistent load artifact entrypoint depends open_mode config m c =
      elim (load_plugin-outcome load artifact entrypoint open_mode) [
        | inr (name, reason, e) ↦ rw (e, register_installation_handler) c
        | inl (plugin, e) ↦ rw (e, register_installation_handler) (configured plugin)
      ]
    where
      configured :
          (plugin : Handler Any)
          → IsConsistent (configure_handler artifact plugin depends config m).2
      configured plugin =
          elim (Option-cases
            (plugin.configure (build_property_sequence [] (plugin_config config m)))) [
              | inr (f, e) ↦ rw (e, configure_handler) c
              | inl e ↦
                  rw (e, configure_handler) (enter_handler-IsConsistent artifact plugin depends m c)
            ]

  -- Where the dependency map is in key order and has every registered type, and
  -- get_installation_order is given an empty vector, an order that it returns has the type of
  -- every installation handler that can be fetched.
  pub get_installation_order-registered :
      (t : String) (r : List String) (m : PluginManager Any)
      → IsConsistent m
      → is_absent (fetch_installation_handler t m) ≡ false
      → get_installation_order [] m ≡ ordered r
      → Mem t r
  unfolding get_installation_order IsConsistent
  get_installation_order-registered t r m (v, k) h e =
      (Perm.mem_iff (subst (Post m.ih_dep.dep_map) e (calculate_order-Post m.ih_dep v)).0).1
        (Mem-keys t m.ih_dep.dep_map (k t h))
