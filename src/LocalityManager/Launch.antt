-- ===== src/LocalityManager/Launch.antt =====
-- `startLaunch`, `install_instances`, `collect_references`, `finishLaunch` and `start` of
-- `LocalityManager_i`, as actions on the manager and on what the scheduler changes.
use dancex.Prelude.{List, [], ◌∷◌, ◌++◌, Option, Bool, true, false, String}
use dancex.Sorter.{Outcome, ordered, invalid_install_order, out_of_fuel}
use dancex.Plugins.{PluginManager, get_installation_order}
use dancex.Events.Action.{EventResult}
use dancex.LocalityManager.{
  EventKind, install_instance, instance_configured, start_instance, Scheduled, ErrorKind,
  start_error, invalid_property, invalid_node_exec_parameter, invalid_component_exec_parameter,
  invalid_connection, done, install_order_error, diverged, Provided,
}
use dancex.LocalityManager.Actions.{Action, ◌>>=◌, ◌>>◌, pure, gets, lift, defined, set_handlers}
use dancex.LocalityManager.Phase.{
  Runtime, order_events, reference_events, connection_table, connect_events, check_results,
  collect_results,
}

-- What `install_instances` extracts.
abbrev pub install_errors : List ErrorKind
install_errors =
    start_error ∷ invalid_property ∷ invalid_node_exec_parameter ∷ invalid_component_exec_parameter
    ∷ []

module _ {Any Obj S : Type 0} (runtime : Runtime Any Obj S) where
  -- `wait_on_completion` and `completed_events`.
  abbrev pub completed : List (Scheduled Obj) → Action Any S (List (Option (EventResult Any)))
  completed events m s =
      let (results, plan, t) = runtime.wait m.spawn_delay m.plan events s in
      (done results, record m { plan = plan }, t)

  -- An event of one kind for each instance of each type of `orders`, the waiting and the check.
  unfoldable pub instance_phase :
      EventKind Obj → List String → List ErrorKind → ErrorKind → String → Action Any S Unit
  unfolding order_events check_results
  instance_phase kind orders kinds error reason = do
    scheduled ← gets (λ m. order_events kind m.plan orders m.instance_handlers)
    (events, handlers) ← defined scheduled
    set_handlers handlers
    results ← completed events
    lift (check_results runtime kinds error reason results)

  unfoldable pub install_instances : Action Any S Unit
  unfolding instance_phase
  install_instances = do
    orders ← gets (λ m. m.handler_order)
    instance_phase install_instance orders install_errors start_error "Unknown exception"

  -- `providedReference` is an in/out parameter.
  unfoldable pub collect_references : List (Provided Obj) → Action Any S (List (Provided Obj))
  unfolding reference_events collect_results
  collect_references provided = do
    scheduled ← gets (λ m. reference_events runtime m.plan 0 m.plan.connection)
    (external, events) ← defined scheduled
    results ← completed events
    lift (collect_results runtime results (provided ++ external))

  -- What `get_installation_order` leaves in `handler_order_`, and throws.
  abbrev pub from_outcome : Outcome → Action Any S Unit
  from_outcome (ordered order) m s = (done tt, record m { handler_order = order }, s)
  from_outcome (invalid_install_order order) m s =
      (install_order_error order, record m { handler_order = order }, s)
  from_outcome out_of_fuel m s = (diverged, m, s)

  -- `get_installation_order (this->handler_order_)`
  unfoldable pub read_order : PluginManager Any → Action Any S Unit
  unfolding get_installation_order
  read_order plugins m s = from_outcome (get_installation_order m.handler_order plugins) m s

  unfoldable pub start_launch :
      PluginManager Any → List (Provided Obj) → Action Any S (List (Provided Obj))
  unfolding read_order install_instances collect_references
  start_launch plugins provided = do
    read_order plugins
    install_instances
    collect_references provided

  unfoldable pub start : Action Any S Unit
  unfolding instance_phase
  start = do
    orders ← gets (λ m. m.handler_order)
    instance_phase start_instance orders (start_error ∷ []) start_error "Unknown exception"

  -- The first half of `finishLaunch`.
  unfoldable pub connect_connections : List (Provided Obj) → Action Any S Unit
  unfolding connect_events connection_table check_results
  connect_connections provided = do
    scheduled ← gets (λ m.
        connect_events runtime m.plan (connection_table runtime 0 m.plan.connection []) provided)
    events ← defined scheduled
    results ← completed events
    lift (
        check_results runtime (start_error ∷ invalid_connection ∷ []) start_error
          "Unknown exception" results)

  -- The second half of `finishLaunch`.
  unfoldable pub configured_instances : Action Any S Unit
  unfolding instance_phase
  configured_instances = do
    orders ← gets (λ m. m.handler_order)
    instance_phase instance_configured orders (start_error ∷ []) start_error
        "Unknown exception from instance_configured"

  unfoldable pub start_if : Bool → Action Any S Unit
  unfolding start
  start_if true = start
  start_if false = pure tt

  unfoldable pub finish_launch : List (Provided Obj) → Bool → Action Any S Unit
  unfolding connect_connections configured_instances start_if
  finish_launch provided with_start = do
    connect_connections provided
    configured_instances
    start_if with_start
