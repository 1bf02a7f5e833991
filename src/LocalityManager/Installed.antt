-- ===== src/LocalityManager/Installed.antt =====
-- Which instances `install_instances` reaches.
use dancex.Prelude.{
  ℕ, ◌<◌, ◌+◌, ◌≤◌, ◌^◌, List, [], ◌++◌, Option, some, true, String, length, ◌≡◌, sym, ◌∙◌, ap,
  arith, subst, All, All-imp, concat_map, concat_map-cong, map, map-map, map-id, map-concat_map,
  All-concat_map, All-map, ◌>>=◌, get_elem?, str_eq_iff, positions, positions-All, positions-lt,
  positions-Hit, Hit, count_from, Distinct, some_hit, grouped, grouped-perm, Option-cases, inl, inr,
}
use mathlib.Core.List.{Perm}
use dancex.StringMap.{SMap}
use dancex.Split.Plan.{DeploymentPlan, Instance}
use dancex.Plugins.{PluginManager, Interceptor}
use dancex.LocalityManager.{
  LocalityManager, install_instance, Scheduled, start_error, implementation_type, preprocess_all,
  prepare_plan, subscript,
}
use dancex.LocalityManager.Phase.{Runtime, check_results}
use dancex.LocalityManager.Launch.{install_errors, install_instances}
use dancex.LocalityManager.Prepared.{listed, is_of_type, IsTyped, prepare_plan-listed}
use dancex.LocalityManager.Dispatch.{key, listed_keys, IsInRange, instance_phase-schedules}

module _ {Any : Type 0} (extract : Any → Option String) where
  -- Under each type stand the instances of that type, in the order of the plan.
  abbrev pub IsPrepared : LocalityManager Any → Type 0
  IsPrepared m =
      (t : String)
      → listed t m.instance_handlers ≡ positions (is_of_type extract m.plan t) 0 m.plan.instances

  -- The type of an instance of the plan.
  abbrev pub type_at : DeploymentPlan Any → ℕ → Option String
  type_at plan ref = get_elem? plan.instances ref >>= implementation_type extract plan

  pub IsPrepared-IsInRange :
      (m : LocalityManager Any)
      → IsPrepared m
      → IsInRange (length m.plan.instances) m.instance_handlers
  IsPrepared-IsInRange m h t = rw h (
      All-imp {P = λ ref. ref < 0 + length m.plan.instances}
        {Q = λ ref. ref < length m.plan.instances}
        (positions (is_of_type extract m.plan t) 0 m.plan.instances) (λ ref lt. omega arith)
        (positions-lt (is_of_type extract m.plan t) 0 m.plan.instances))

  is_of_type-same :
      (plan : DeploymentPlan Any) (t u : String) (instance_ : Instance Any)
      → is_of_type extract plan t instance_ ≡ true
      → is_of_type extract plan u instance_ ≡ true
      → t ≡ u
  unfolding is_of_type
  is_of_type-same plan t u instance_ h k =
      elim (Option-cases (implementation_type extract plan instance_)) [
        | inl e ↦ ground arith
        | inr (v, e) ↦ ground (arith, str_eq_iff v t, str_eq_iff v u)
      ]

  is_of_type-at :
      (plan : DeploymentPlan Any) (t : String) (ref : ℕ)
      → Hit (is_of_type extract plan t) 0 plan.instances ref
      → type_at plan ref ≡ some t
  unfolding is_of_type
  is_of_type-at plan t ref (n, same, instance_, e, h) =
      elim (Option-cases (implementation_type extract plan instance_)) [
        | inl f ↦ ground arith
        | inr (v, f) ↦ ground (arith, str_eq_iff v t)
      ]

  -- The events for the types of a prepared manager, one for each instance that has one of the types.
  keys-types :
      (m : LocalityManager Any) (orders : List String)
      → IsPrepared m
      → All
          (λ k. type_at m.plan k.1 ≡ some k.0)
          (concat_map (listed_keys m.instance_handlers) orders)
  keys-types m orders h =
      All-concat_map (λ k. type_at m.plan k.1 ≡ some k.0) (listed_keys m.instance_handlers) orders
        (λ t.
          All-map (λ k. type_at m.plan k.1 ≡ some k.0) (λ ref. (t, ref))
            (listed t m.instance_handlers)
            (rw h (
              All-imp {P = Hit (is_of_type extract m.plan t) 0 m.plan.instances}
                {Q = λ ref. type_at m.plan ref ≡ some t}
                (positions (is_of_type extract m.plan t) 0 m.plan.instances)
                (λ ref hit. is_of_type-at m.plan t ref hit)
                (positions-Hit (is_of_type extract m.plan t) 0 m.plan.instances))))

  keys-refs :
      (m : LocalityManager Any) (orders : List String)
      → IsPrepared m
      → map (λ k. k.1) (concat_map (listed_keys m.instance_handlers) orders)
        ≡ grouped (is_of_type extract m.plan) 0 m.plan.instances orders
  keys-refs m orders h =
      map-concat_map (listed_keys m.instance_handlers) (λ k. k.1) orders
      ∙ concat_map-cong (λ t. map (λ k. k.1) (listed_keys m.instance_handlers t))
          (λ t. positions (is_of_type extract m.plan t) 0 m.plan.instances) orders
          (λ t.
            map-map (λ ref. (t, ref)) (λ k. k.1) (listed t m.instance_handlers)
            ∙ map-id (listed t m.instance_handlers)
            ∙ h t)

module _ {Any Obj S : Type 0} (runtime : Runtime Any Obj S) where
  -- Where the instances stand under their types in the order of the plan, the installation order
  -- names no type twice, and every instance has a type of the order, install_instances schedules
  -- installation events only, one for each instance of the plan, under the type of the instance,
  -- and ends as the check of their results does.
  pub install_instances-once :
      (m : LocalityManager Any) (s : S)
      → IsPrepared runtime.extract_text m
      → Distinct m.handler_order
      → All
          (λ instance_.
            some_hit (is_of_type runtime.extract_text m.plan) m.handler_order instance_ ≡ true)
          m.plan.instances
      → (events : List (Scheduled Obj)) × (handlers : SMap (List ℕ)) × (install_instances runtime m
            s
          ≡ (let (results, plan, t) = runtime.wait m.spawn_delay m.plan events s in
              (
                check_results runtime install_errors start_error "Unknown exception" results,
                record m { plan = plan; instance_handlers = handlers },
                t,
              )))
        × Perm (map (λ event. event.ref) events) (count_from 0 (length m.plan.instances))
        × All (λ k. type_at runtime.extract_text m.plan k.1 ≡ some k.0) (map key events)
        × All (λ event. event.kind ≡ install_instance) events
  unfolding install_instances
  install_instances-once m s h distinct covered =
      let test = is_of_type runtime.extract_text m.plan in
      let (events, final, run, keys, kinds, same) =
        instance_phase-schedules runtime install_instance m.handler_order install_errors start_error
          "Unknown exception" m s (IsPrepared-IsInRange runtime.extract_text m h) in
      let refs : map (λ event. event.ref) events ≡ grouped test 0 m.plan.instances m.handler_order =
        sym (map-map key (λ k. k.1) events)
        ∙ ap (map (λ k. k.1)) keys
        ∙ keys-refs runtime.extract_text m m.handler_order h in
      (
        events,
        final,
        run,
        rw refs (
            subst (Perm (grouped test 0 m.plan.instances m.handler_order))
              (positions-All (some_hit test m.handler_order) 0 m.plan.instances covered)
              (grouped-perm test (is_of_type-same runtime.extract_text m.plan) 0 m.plan.instances
                m.handler_order distinct)),
        rw keys (keys-types runtime.extract_text m m.handler_order h),
        kinds,
      )

-- From a manager that has prepared no plan yet.
module _ {Any : Type 0} (extract : Any → Option String) (truncate_cast : ℕ → ℕ)
    (truncate_cast-small : (n : ℕ) → n < 2 ^ 32 → truncate_cast n ≡ n) where
  pub prepare_plan-IsPrepared :
      (preprocess : Interceptor Any → DeploymentPlan Any → DeploymentPlan Any)
      (plugins : PluginManager Any) (plan : DeploymentPlan Any) (m : LocalityManager Any)
      → m.instance_handlers ≡ []
      → let prepared = preprocess_all preprocess plugins.interceptors plan in
        IsTyped extract prepared prepared.instances
        → length prepared.instances ≤ 2 ^ 32
        → let (result, n) = prepare_plan extract truncate_cast preprocess plugins plan m in
          (n.plan ≡ prepared) × IsPrepared extract n
  unfolding subscript
  prepare_plan-IsPrepared preprocess plugins plan m empty typed small =
      let (ok, same, spread) =
        prepare_plan-listed extract truncate_cast truncate_cast-small preprocess plugins plan m
          typed small in
      (
        same,
        λ t. rw same (
            spread t
            ∙ ap
                (λ handlers.
                  listed t handlers
                  ++ positions
                      (is_of_type extract (preprocess_all preprocess plugins.interceptors plan) t) 0
                      (preprocess_all preprocess plugins.interceptors plan).instances)
                empty),
      )
