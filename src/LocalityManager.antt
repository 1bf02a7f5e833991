-- ===== src/LocalityManager.antt =====
-- dancex11/locality_deployment_handler/dancex11_locality_manager_impl.{h,cpp}: `LocalityManager_i`.
-- The scheduling of an event and the waiting are a parameter: `wait delay plan events s` performs the
-- events that were scheduled, as `wait_on_completion` does, with interceptors that may change the
-- plan, and gives what the futures of the completed events hold, `none` where `get` fails. The calls
-- of a configuration handler and of `preprocess_plan` return. `Launch` has the way up, `Teardown` the
-- way down.
pub mod Phase
pub mod Actions
pub mod Launch
pub mod Teardown
pub mod Prepared
pub mod Dispatch
pub mod Installed
pub mod Reversed
pub mod Bounds
pub mod Keeping
pub mod Safety
pub mod Agreement
pub mod Outcomes
pub mod Performing
pub mod Completed
pub mod Samples
pub mod Tests
use dancex.Prelude.{
  ℕ, zero, suc, ◌+◌, List, [], ◌∷◌, ◌++◌, Option, none, some, Bool, true, false, String, length,
  if◌then◌else◌, get_elem?, map, not, leb, ◌==◌, ◌&&◌, ◌>>=◌,
}
use dancex.StringMap.{SMap, find, assign, insert}
use dancex.Utility.{Properties, Property, get_property_value, get_instance_type}
use dancex.Utility.Exceptions.{ExceptionInfo}
use dancex.Split.Plan.{
  DeploymentPlan, Instance, Implementation, Connection, Endpoint, PortKind, facet, empty_plan,
}
use dancex.Plugins.{PluginManager, Configurator, Interceptor}
use dancex.Plugins.Additions.{get_configuration_handler}
use dancex.Events.Action.{EventResult}

pub record LocalityManager (Any : Type 0) : Type 0 where
  pub plan : DeploymentPlan Any
  pub instance_handlers : SMap (List ℕ)
  pub handler_order : List String
  pub spawn_delay : ℕ

-- The event classes of dancex11/scheduler/events; a `connect_instance` holds its reference.
pub data EventKind (Obj : Type 0) : Type 0 where
  install_instance instance_configured start_instance passivate_instance remove_instance
        endpoint_reference disconnect_instance :
      EventKind Obj
  connect_instance : Option Obj → EventKind Obj

-- An event as its constructor leaves it: the index is that of an instance or of a connection.
pub record Scheduled (Obj : Type 0) : Type 0 where
  pub kind : EventKind Obj
  pub name : String
  pub ref : ℕ
  pub instance_type : String

pub data ErrorKind : Type 0 where
  start_error stop_error invalid_property invalid_node_exec_parameter
        invalid_component_exec_parameter invalid_connection :
      ErrorKind

-- How a call ends. `undefined` is a read past the end of a sequence.
pub data Result (A : Type 0) : Type 0 where
  done : A → Result A
  raised : ErrorKind → ExceptionInfo → Result A
  install_order_error : List String → Result A
  undefined diverged : Result A

-- `Deployment::Connection`, `none` being a nil reference.
pub record Provided (Obj : Type 0) : Type 0 where
  pub name : String
  pub endpoint : List (Option Obj)

abbrev pub locality_timeout : String
locality_timeout = "nl.remedy.it.DnCX11.Locality.Timeout"

abbrev pub new_locality_manager : {Any : Type 0} → LocalityManager Any
new_locality_manager = record {
  plan = empty_plan;
  instance_handlers = [];
  handler_order = [];
  spawn_delay = 30;
}

-- `instance_handlers_[order]`, which makes an empty list where there is none.
unfoldable pub subscript : String → SMap (List ℕ) → List ℕ × SMap (List ℕ)
unfolding find assign
subscript order handlers = elim (find order handlers) [
  | none ↦ ([], assign order [] handlers)
  | some list ↦ (list, handlers)
]

-- The branches on the endpoints, the same in `finishLaunch` and `disconnect_connections`: the index
-- `j` of the endpoint that connects, or `none` where the connection is skipped. `external` is the
-- number of external references and endpoints.
abbrev pub select_among : ℕ → List Endpoint → Option ℕ
select_among external [] = none
select_among external (first ∷ []) = elim first.kind [
  | facet ↦ if external == 0 then none else if leb external 1 then some 0 else none
  | _ ↦ if leb external 1 then some 0 else none
]
select_among external (first ∷ second ∷ []) = some (if second.provider then 0 else 1)
select_among external (first ∷ second ∷ third ∷ rest) = none

unfoldable pub select_endpoint : Connection → Option ℕ
select_endpoint conn =
    select_among (length conn.external_reference + length conn.external_endpoint)
      conn.internal_endpoint

-- `preprocess` is `preprocess_plan` of an interceptor.
unfoldable pub preprocess_all :
    {Any : Type 0}
    → (Interceptor Any → DeploymentPlan Any → DeploymentPlan Any)
    → List (Interceptor Any)
    → DeploymentPlan Any
    → DeploymentPlan Any
preprocess_all preprocess [] plan = plan
preprocess_all preprocess (di ∷ interceptors) plan =
    preprocess_all preprocess interceptors (preprocess di plan)

module _ {Any : Type 0} (extract : Any → Option String) where
  unfoldable pub implementation_type : DeploymentPlan Any → Instance Any → Option String
  unfolding get_instance_type
  implementation_type plan instance_ = do
    implementation ← get_elem? plan.implementation instance_.implementation_ref
    some (get_instance_type extract implementation.exec_parameter)

  -- The type of the instance of an endpoint.
  unfoldable pub endpoint_type : DeploymentPlan Any → Endpoint → Option String
  unfolding implementation_type
  endpoint_type plan ep = do
    instance_ ← get_elem? plan.instances ep.instance_ref
    implementation_type plan instance_

  -- The loop of `preparePlan`, from the index `i` on.
  unfoldable pub fill_handlers :
      (ℕ → ℕ)
      → DeploymentPlan Any
      → ℕ
      → List (Instance Any)
      → SMap (List ℕ)
      → Option (SMap (List ℕ))
  unfolding implementation_type insert subscript assign
  fill_handlers truncate_cast plan i [] handlers = some handlers
  fill_handlers truncate_cast plan i (instance_ ∷ instances) handlers =
      elim (implementation_type plan instance_) [
        | none ↦ none
        | some inst_type ↦
            let (list, table) = subscript inst_type (insert inst_type [] handlers) in
            fill_handlers truncate_cast plan (suc i) instances
              (assign inst_type (list ++ truncate_cast i ∷ []) table)
      ]

  unfoldable pub prepare_plan :
      (ℕ → ℕ)
      → (Interceptor Any → DeploymentPlan Any → DeploymentPlan Any)
      → PluginManager Any
      → DeploymentPlan Any
      → LocalityManager Any
      → Result Unit × LocalityManager Any
  unfolding fill_handlers preprocess_all
  prepare_plan truncate_cast preprocess plugins plan m =
      let prepared = preprocess_all preprocess plugins.interceptors plan in
      elim (fill_handlers truncate_cast prepared 0 prepared.instances m.instance_handlers) [
        | none ↦ (undefined, record m { plan = prepared })
        | some handlers ↦ (done tt, record m { plan = prepared; instance_handlers = handlers })
      ]

module _ {Any S : Type 0} (plugins : PluginManager Any)
    (configure_with : Configurator → Property Any → S → S) where
  unfoldable pub configure_each : Properties Any → S → S
  unfolding get_configuration_handler
  configure_each [] s = s
  configure_each (property ∷ props) s =
      configure_each props (elim (get_configuration_handler property.name plugins) [
        | none ↦ s
        | some config ↦ configure_with config property s
      ])

  -- An empty sequence only leads to a warning.
  unfoldable pub configure :
      (Any → Option ℕ) → Properties Any → LocalityManager Any → S → LocalityManager Any × S
  unfolding get_property_value configure_each
  configure extract props m s =
      let (found, delay) = get_property_value extract locality_timeout props m.spawn_delay in
      (record m { spawn_delay = delay }, configure_each props s)
