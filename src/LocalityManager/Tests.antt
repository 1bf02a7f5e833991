-- ===== src/LocalityManager/Tests.antt =====
-- Instances of the theorems about the locality manager.
use dancex.Prelude.{
  ℕ, List, [], ◌∷◌, ◌++◌, some, true, String, ◌≡◌, refl, arith, map, All, concat_map, count_from,
  positions,
}
use mathlib.Core.List.{Perm}
use dancex.StringMap.{SMap}
use dancex.Utility.{ccm_home, ccm_component}
use dancex.LocalityManager.{
  install_instance, start_instance, passivate_instance, Scheduled, start_error, stop_error, done,
  new_locality_manager, preprocess_all, prepare_plan, implementation_type,
}
use dancex.LocalityManager.Phase.{
  check_results, connection_table, connect_events, disconnect_events,
}
use dancex.LocalityManager.Launch.{
  install_errors, install_instances, start_launch, finish_launch, start,
}
use dancex.LocalityManager.Teardown.{stop, destroy_application}
use dancex.LocalityManager.Prepared.{listed, is_of_type, prepare_plan-listed}
use dancex.LocalityManager.Dispatch.{key, listed_keys}
use dancex.LocalityManager.Installed.{type_at, install_instances-once}
use dancex.LocalityManager.Reversed.{start-stop}
use dancex.LocalityManager.Keeping.{IsSafe}
use dancex.LocalityManager.Safety.{operations-Safe}
use dancex.LocalityManager.Agreement.{connection_key, connect_events-disconnect}
use dancex.LocalityManager.Performing.{local_wait}
use dancex.LocalityManager.Completed.{id_of, local_wait-completes}
use dancex.LocalityManager.Samples.{
  text_of, is_nothing, same, same-small, runtime, link, plan, unchanged_plan, plugins, manager,
  plan-IsTyped, manager-IsPrepared, manager-IsInRange, plan-IsValidPlan, manager-IsValid,
  component-ne-home, fetched, embedded, any_of, any_of_object, one_second, starting, nothing,
}

prepare_plan-listed_example :
    let (result, n) = prepare_plan text_of same unchanged_plan plugins plan new_locality_manager in
    (result ≡ done tt)
    × (n.plan ≡ plan)
    × ((t : String)
        → listed t n.instance_handlers
          ≡ listed t [] ++ positions (is_of_type text_of plan t) 0 plan.instances)
unfolding preprocess_all
prepare_plan-listed_example =
    prepare_plan-listed text_of same same-small unchanged_plan plugins plan new_locality_manager
      plan-IsTyped (omega arith)

install_instances-once_example :
    (events : List (Scheduled ℕ)) × (handlers : SMap (List ℕ)) × (install_instances runtime manager
        0
      ≡ (let (results, after, t) = runtime.wait 30 plan events 0 in
          (
            check_results runtime install_errors start_error "Unknown exception" results,
            record manager { plan = after; instance_handlers = handlers },
            t,
          )))
    × Perm (map (λ event. event.ref) events) (count_from 0 3)
    × All (λ k. type_at text_of plan k.1 ≡ some k.0) (map key events)
    × All (λ event. event.kind ≡ install_instance) events
unfolding is_of_type implementation_type
install_instances-once_example =
    install_instances-once runtime manager 0 manager-IsPrepared ((component-ne-home, tt), (tt, tt))
      (refl, (refl, (refl, tt)))

start-stop_example :
    let (result, n, t) = start runtime manager 0 in
    (up : List (Scheduled ℕ)) × (down : List (Scheduled ℕ)) × ((start runtime manager 0).0
      ≡ check_results runtime
          (start_error ∷ [])
          start_error
          "Unknown exception"
          (runtime.wait 30 plan up 0).0)
    × ((stop runtime n 7).0
        ≡ check_results runtime
            (stop_error ∷ [])
            stop_error
            "Unknown exception"
            (runtime.wait 30 n.plan down 7).0)
    × (map key up
        ≡ concat_map (listed_keys manager.instance_handlers) (ccm_home ∷ ccm_component ∷ []))
    × (map key down
        ≡ concat_map (listed_keys manager.instance_handlers) (ccm_component ∷ ccm_home ∷ []))
    × All (λ event. event.kind ≡ start_instance) up
    × All (λ event. event.kind ≡ passivate_instance) down
start-stop_example = start-stop runtime (λ delay p events s. refl) manager 0 7 manager-IsInRange

operations-Safe_example :
    IsSafe runtime (
      start_launch runtime plugins
        (record { name = "link"; endpoint = some 5 ∷ [] } ∷ [])
        manager
        0)
    × IsSafe runtime (
        finish_launch runtime
          (record { name = "link"; endpoint = some 5 ∷ [] } ∷ [])
          true
          manager
          0)
    × IsSafe runtime (start runtime manager 0)
    × IsSafe runtime (stop runtime manager 0)
    × IsSafe runtime (destroy_application runtime manager 0)
operations-Safe_example =
    operations-Safe runtime same-small (λ delay p events s v. (v, refl)) plugins
      (record { name = "link"; endpoint = some 5 ∷ [] } ∷ []) true manager 0 manager-IsValid
      (omega arith, tt)

connect_events-disconnect_example :
    (connects : List (Scheduled ℕ)) × (disconnects : List (Scheduled ℕ)) × (connect_events runtime
        plan
        (connection_table runtime 0 (link ∷ []) [])
        (record { name = "link"; endpoint = some 5 ∷ [] } ∷ [])
      ≡ some connects)
    × (disconnect_events runtime plan 0 (link ∷ []) ≡ some disconnects)
    × (map connection_key connects ≡ map connection_key disconnects)
connect_events-disconnect_example =
    connect_events-disconnect runtime same-small plan
      (record { name = "link"; endpoint = some 5 ∷ [] } ∷ []) plan-IsValidPlan (tt, tt)
      (refl, omega arith, tt)

local_wait-completes_example :
    let (results, after, queue, u) =
      local_wait nothing is_nothing any_of embedded any_of_object [] fetched one_second 30 plan
        (starting "a" 1 ∷ starting "b" 2 ∷ [])
        ([], 0) in
    (map id_of results ≡ some "a" ∷ some "b" ∷ []) × (queue ≡ [])
local_wait-completes_example =
    local_wait-completes nothing is_nothing any_of embedded any_of_object [] fetched (λ event. tt)
      (λ event. tt) (λ ex. refl) one_second 1 30 plan (starting "a" 1 ∷ starting "b" 2 ∷ []) 0
      (λ event t. omega arith) (omega arith)
