-- ===== src/LocalityManager/Reversed.antt =====
-- `stop` and `destroyApplication` take the types in the reverse order.
use dancex.Prelude.{
  ℕ, List, [], ◌∷◌, length, ◌≡◌, sym, ◌∙◌, ap, All, concat_map, concat_map-cong, map,
}
use mathlib.Core.List.{reverse}
use dancex.Split.Plan.{DeploymentPlan}
use dancex.LocalityManager.{
  LocalityManager, start_instance, passivate_instance, Scheduled, start_error, stop_error,
}
use dancex.LocalityManager.Phase.{Runtime, check_results}
use dancex.LocalityManager.Launch.{start}
use dancex.LocalityManager.Teardown.{stop}
use dancex.LocalityManager.Dispatch.{key, listed_keys, IsInRange, instance_phase-schedules}

module _ {Any Obj S : Type 0} (runtime : Runtime Any Obj S)
    (wait-length : (delay : ℕ) (plan : DeploymentPlan Any) (events : List (Scheduled Obj)) (s : S)
      → length (runtime.wait delay plan events s).1.instances ≡ length plan.instances) where
  -- Where the instance lists are in the range of the plan, and interceptors keep the number of
  -- instances, start schedules start events for the instances under each type, in the order of
  -- the types, and stop after it passivation events for the same instances, with the types in the
  -- reverse order; each ends as the check of the results does.
  pub start-stop :
      (m : LocalityManager Any) (s u : S)
      → IsInRange (length m.plan.instances) m.instance_handlers
      → let (result, n, t) = start runtime m s in
        (up : List (Scheduled Obj)) × (down : List (Scheduled Obj)) × ((start runtime m s).0
          ≡ check_results runtime
              (start_error ∷ [])
              start_error
              "Unknown exception"
              (runtime.wait m.spawn_delay m.plan up s).0)
        × ((stop runtime n u).0
            ≡ check_results runtime
                (stop_error ∷ [])
                stop_error
                "Unknown exception"
                (runtime.wait m.spawn_delay n.plan down u).0)
        × (map key up ≡ concat_map (listed_keys m.instance_handlers) m.handler_order)
        × (map key down ≡ concat_map (listed_keys m.instance_handlers) (reverse m.handler_order))
        × All (λ event. event.kind ≡ start_instance) up
        × All (λ event. event.kind ≡ passivate_instance) down
  unfolding start stop
  start-stop m s u h =
      let (up, handlers, run, keys, kinds, same) =
        instance_phase-schedules runtime start_instance m.handler_order (start_error ∷ [])
          start_error "Unknown exception" m s h in
      let after = (runtime.wait m.spawn_delay m.plan up s).1 in
      let n : LocalityManager Any = record m { plan = after; instance_handlers = handlers } in
      let (down, final, back, back_keys, back_kinds, back_same) =
        instance_phase-schedules runtime passivate_instance (reverse m.handler_order)
          (stop_error ∷ []) stop_error "Unknown exception" n u
          (λ t. rw (wait-length m.spawn_delay m.plan up s, same t) (h t)) in
      let reached : (start runtime m s).1 ≡ n = ap (λ r. r.1) run in
      (
        up,
        down,
        ap (λ r. r.0) run,
        ap (λ w. (stop runtime w u).0) reached
            ∙ ap (λ r. r.0) back
            ∙ ap
                (λ w.
                  check_results runtime (stop_error ∷ []) stop_error "Unknown exception"
                    (runtime.wait m.spawn_delay w.plan down u).0)
                (sym reached),
        keys,
        back_keys
            ∙ concat_map-cong (listed_keys handlers) (listed_keys m.instance_handlers)
                (reverse m.handler_order) (λ t. ap (map (λ ref. (t, ref))) (same t)),
        kinds,
        back_kinds,
      )
