-- ===== src/LocalityManager/Teardown.antt =====
-- `stop`, `disconnect_connections` and `destroyApplication` of `LocalityManager_i`.
use dancex.Prelude.{[], ◌∷◌}
use mathlib.Core.List.{reverse}
use dancex.LocalityManager.{
  passivate_instance, remove_instance, start_error, stop_error, invalid_connection,
}
use dancex.LocalityManager.Actions.{Action, ◌>>=◌, ◌>>◌, gets, lift, defined}
use dancex.LocalityManager.Phase.{Runtime, disconnect_events, check_results}
use dancex.LocalityManager.Launch.{completed, instance_phase}

module _ {Any Obj S : Type 0} (runtime : Runtime Any Obj S) where
  unfoldable pub disconnect_connections : Action Any S Unit
  unfolding disconnect_events check_results
  disconnect_connections = do
    scheduled ← gets (λ m. disconnect_events runtime m.plan 0 m.plan.connection)
    events ← defined scheduled
    results ← completed runtime events
    lift (
        check_results runtime (start_error ∷ invalid_connection ∷ []) start_error
          "Unknown exception" results)

  unfoldable pub stop : Action Any S Unit
  unfolding instance_phase
  stop = do
    orders ← gets (λ m. reverse m.handler_order)
    instance_phase runtime passivate_instance orders (stop_error ∷ []) stop_error
        "Unknown exception"

  -- The loop of `destroyApplication` over the types.
  unfoldable pub remove_instances : Action Any S Unit
  unfolding instance_phase
  remove_instances = do
    orders ← gets (λ m. reverse m.handler_order)
    instance_phase runtime remove_instance orders (stop_error ∷ []) stop_error "Unknown exception"

  unfoldable pub destroy_application : Action Any S Unit
  unfolding disconnect_connections remove_instances
  destroy_application = do disconnect_connections; remove_instances
