-- ===== src/LocalityManager/Safety.antt =====
-- No operation of `LocalityManager_i` ends in an undefined read, and each keeps the manager valid.
use dancex.Prelude.{ℕ, ◌<◌, ◌^◌, List, [], ◌∷◌, ◌++◌, Bool, length, ◌≡◌, arith, All}
use dancex.Plugins.{PluginManager}
use dancex.Split.Plan.{DeploymentPlan}
use dancex.LocalityManager.{Scheduled, LocalityManager, start_error, invalid_connection, Provided}
use dancex.LocalityManager.Phase.{Runtime, connection_table}
use dancex.LocalityManager.Actions.{◌>>◌, defined}
use dancex.LocalityManager.Launch.{
  configured_instances, start_if, install_instances, collect_references, read_order, start_launch,
  start, connect_connections, finish_launch,
}
use dancex.LocalityManager.Teardown.{
  disconnect_connections, remove_instances, stop, destroy_application,
}
use dancex.LocalityManager.Bounds.{
  IsValidPlan, reference_events-Defined, connect_events-Defined, connection_table-Values,
  disconnect_events-Defined,
}
use dancex.LocalityManager.Keeping.{
  completed-IsValid, IsValid, IsSafe, Safe, >>=-Safe, check_results-ne, collect_results-ne,
  read_order-Safe, install_instances-Safe, start-Safe, stop-Safe, configured_instances-Safe,
  start_if-Safe, remove_instances-Safe,
}

module _ {Any Obj S : Type 0} (runtime : Runtime Any Obj S)
    (truncate_cast-small : (n : ℕ) → n < 2 ^ 32 → runtime.truncate_cast n ≡ n)
    (wait-IsValidPlan : (delay : ℕ) (plan : DeploymentPlan Any) (events : List (Scheduled Obj))
        (s : S)
      → IsValidPlan runtime.extract_text plan
      → let after = (runtime.wait delay plan events s).1 in
        IsValidPlan runtime.extract_text after
        × (length after.instances ≡ length plan.instances)) where
  collect_references-Safe :
      (provided : List (Provided Obj)) → Safe runtime (collect_references runtime provided)
  unfolding collect_references
  collect_references-Safe provided m s v =
      let ((external, events), e) =
        reference_events-Defined runtime truncate_cast-small m.plan v.plan_valid 0 m.plan.connection
          (omega arith) v.plan_valid.endpoints in
      rw (e, defined)
        (
          collect_results-ne runtime (runtime.wait m.spawn_delay m.plan events s).0
              (provided ++ external),
          completed-IsValid runtime wait-IsValidPlan m events s v,
        )

  disconnect_connections-Safe : Safe runtime (disconnect_connections runtime)
  unfolding disconnect_connections
  disconnect_connections-Safe m s v =
      let (events, e) =
        disconnect_events-Defined runtime truncate_cast-small m.plan v.plan_valid 0
          m.plan.connection (omega arith) v.plan_valid.endpoints in
      rw (e, defined)
        (
          check_results-ne runtime (start_error ∷ invalid_connection ∷ []) start_error
              "Unknown exception" (runtime.wait m.spawn_delay m.plan events s).0,
          completed-IsValid runtime wait-IsValidPlan m events s v,
        )

  connect_connections-Safe :
      (provided : List (Provided Obj))
      → All (λ connection. 0 < length connection.endpoint) provided
      → Safe runtime (connect_connections runtime provided)
  unfolding connect_connections
  connect_connections-Safe provided all m s v =
      let (events, e) =
        connect_events-Defined runtime truncate_cast-small m.plan v.plan_valid
          (connection_table runtime 0 m.plan.connection []) provided
          (connection_table-Values runtime truncate_cast-small m.plan v.plan_valid 0
            m.plan.connection [] (omega arith) tt)
          all in
      rw (e, defined)
        (
          check_results-ne runtime (start_error ∷ invalid_connection ∷ []) start_error
              "Unknown exception" (runtime.wait m.spawn_delay m.plan events s).0,
          completed-IsValid runtime wait-IsValidPlan m events s v,
        )

  start_launch-Safe :
      (plugins : PluginManager Any) (provided : List (Provided Obj))
      → Safe runtime (start_launch runtime plugins provided)
  unfolding start_launch
  start_launch-Safe plugins provided =
      >>=-Safe runtime (read_order runtime plugins)
        (λ u. install_instances runtime >> collect_references runtime provided)
        (read_order-Safe runtime wait-IsValidPlan plugins)
        (λ u.
          >>=-Safe runtime (install_instances runtime) (λ w. collect_references runtime provided)
            (install_instances-Safe runtime wait-IsValidPlan)
            (λ w. collect_references-Safe provided))

  finish_launch-Safe :
      (provided : List (Provided Obj)) (with_start : Bool)
      → All (λ connection. 0 < length connection.endpoint) provided
      → Safe runtime (finish_launch runtime provided with_start)
  unfolding finish_launch
  finish_launch-Safe provided with_start all =
      >>=-Safe runtime (connect_connections runtime provided)
        (λ u. configured_instances runtime >> start_if runtime with_start)
        (connect_connections-Safe provided all)
        (λ u.
          >>=-Safe runtime (configured_instances runtime) (λ w. start_if runtime with_start)
            (configured_instances-Safe runtime wait-IsValidPlan)
            (λ w. start_if-Safe runtime wait-IsValidPlan with_start))

  destroy_application-Safe : Safe runtime (destroy_application runtime)
  unfolding destroy_application
  destroy_application-Safe =
      >>=-Safe runtime (disconnect_connections runtime) (λ u. remove_instances runtime)
        disconnect_connections-Safe (λ u. remove_instances-Safe runtime wait-IsValidPlan)

  -- Where the references of the plan are in range and its connections fewer than 2 ^ 32, and
  -- interceptors keep it so and keep the number of instances, startLaunch, finishLaunch with
  -- references that have an endpoint, start, stop and destroyApplication read nothing past the
  -- end of a sequence, and leave the manager with such a plan and with instance lists in its
  -- range.
  pub operations-Safe :
      (plugins : PluginManager Any) (provided : List (Provided Obj)) (with_start : Bool)
      (m : LocalityManager Any) (s : S)
      → IsValid runtime m
      → All (λ connection. 0 < length connection.endpoint) provided
      → IsSafe runtime (start_launch runtime plugins provided m s)
        × IsSafe runtime (finish_launch runtime provided with_start m s)
        × IsSafe runtime (start runtime m s)
        × IsSafe runtime (stop runtime m s)
        × IsSafe runtime (destroy_application runtime m s)
  operations-Safe plugins provided with_start m s v all = (
    start_launch-Safe plugins provided m s v,
    finish_launch-Safe provided with_start all m s v,
    start-Safe runtime wait-IsValidPlan m s v,
    stop-Safe runtime wait-IsValidPlan m s v,
    destroy_application-Safe m s v,
  )
