-- ===== src/Plugins.antt =====
-- dancex11/scheduler/events/plugin_manager.{h,cpp}: `Plugin_Manager`.
-- A plugin is a record of what its virtual calls do; a handler's `instance_type`, which is called
-- outside the `try` block, returns. The loading of the shared library and the factory, and
-- `ACE_Service_Config::process_directive`, are parameters. `Additions` has the registration of
-- interceptors and configurators, `Service` that of services, `Closing` the destructor.
pub mod Configuration
pub mod Handlers
pub mod Order
pub mod Service
pub mod Closing
pub mod Additions
pub mod Tests
use dancex.Prelude.{
  ℕ, List, [], ◌∷◌, ◌++◌, Option, none, some, Bool, true, false, String, if◌then◌else◌, is_empty,
  str_eq, str_append, ◌||◌, ◌⊎◌, inl, inr,
}
use dancex.StringMap.{SMap, SSet, find, insert}
use dancex.Utility.{Property, Properties, PropertyMap, build_property_map, build_property_sequence}
use dancex.Sorter.{Sorter, empty_sorter, Outcome, add_dependencies, add_dependency, calculate_order}

-- What a virtual call throws, by the handler that catches it, with the text that it logs.
pub data Failure : Type 0 where
  corba standard : String → Failure
  other : Failure

-- A call returns, throws a `PlanError` with its name and reason, or lets a failure through.
pub data Result (A : Type 0) : Type 0 where
  returned : A → Result A
  plan_error : String → String → Result A
  thrown : Failure → Result A

abbrev pub from_failure : {A : Type 0} → String → String → Failure → Result A
from_failure artifact unknown (corba text) = plan_error artifact text
from_failure artifact unknown (standard text) = plan_error artifact text
from_failure artifact unknown other = plan_error artifact unknown

pub record Handler (Any : Type 0) : Type 0 where
  pub instance_type : String
  pub configure : Properties Any → Option Failure
  pub dependencies : List String ⊎ Failure

pub record Interceptor (Any : Type 0) : Type 0 where
  pub configure : Properties Any → Option Failure

pub record Configurator : Type 0 where
  pub type : String ⊎ Failure

pub record PluginManager (Any : Type 0) : Type 0 where
  pub config : Properties Any
  pub handler_map : SMap (Handler Any)
  pub interceptors : List (Interceptor Any)
  pub config_plugins : SMap Configurator
  pub service_objects : List String
  pub ih_dep : Sorter

-- What resolving the entry point and calling the factory gives.
pub data Loaded (Plugin : Type 0) : Type 0 where
  unresolved : String → Loaded Plugin
  produced : Option Plugin → Loaded Plugin

unfoldable pub load_plugin :
    {Plugin : Type 0} → (String → String → ℕ → Loaded Plugin) → String → String → ℕ → Result Plugin
load_plugin load artifact entrypoint open_mode =
    if is_empty artifact || is_empty entrypoint
    then plan_error "" "Invalid parameters for plug-in installation"
    else elim (load artifact entrypoint open_mode) [
      | unresolved error ↦ plan_error artifact error
      | produced none ↦ plan_error artifact "Nil result from factory"
      | produced (some plugin) ↦ returned plugin
    ]

unfoldable pub add_dependency_list : String → List String → Sorter → Sorter
unfolding add_dependency
add_dependency_list subject [] d = d
add_dependency_list subject (dep ∷ deps) d =
    add_dependency_list subject deps (add_dependency subject dep d)

module _ {Any : Type 0} where
  abbrev pub new_manager : PluginManager Any
  new_manager = record {
    config = [];
    handler_map = [];
    interceptors = [];
    config_plugins = [];
    service_objects = [];
    ih_dep = empty_sorter;
  }

  unfoldable pub set_configuration : Properties Any → PluginManager Any → PluginManager Any
  set_configuration config m = record m { config = config }

  -- The merge of the `else` branch.
  unfoldable pub merged : Properties Any → Properties Any → Properties Any
  unfolding build_property_map build_property_sequence
  merged old config =
      build_property_sequence [] (build_property_map (build_property_map [] old true) config true)

  unfoldable pub add_configuration : Properties Any → PluginManager Any → PluginManager Any
  unfolding merged
  add_configuration config m = elim m.config [
    | [] ↦ record m { config = config }
    | p ∷ ps ↦ record m { config = merged (p ∷ ps) config }
  ]

  -- What a plugin is configured with, `config` being an in/out parameter of the registration.
  unfoldable pub plugin_config : PropertyMap Any → PluginManager Any → PropertyMap Any
  unfolding build_property_map
  plugin_config config m = build_property_map config m.config false

  -- The end of the `try` block, from the first `add_dependency` on.
  unfoldable pub enter_handler :
      String → Handler Any → SSet → PluginManager Any → Result String × PluginManager Any
  unfolding add_dependencies add_dependency_list insert
  enter_handler artifact plugin depends m =
      let entered = add_dependencies plugin.instance_type depends m.ih_dep in
      elim plugin.dependencies [
        | inr failure ↦ (
          from_failure artifact "Unknown C++ exception during handler configuration" failure,
          record m { ih_dep = entered },
        )
        | inl deps ↦ (
          returned plugin.instance_type,
          record m {
            ih_dep = add_dependency_list plugin.instance_type deps entered;
            handler_map = insert plugin.instance_type plugin m.handler_map;
          },
        )
      ]

  unfoldable pub configure_handler :
      String
      → Handler Any
      → SSet
      → PropertyMap Any
      → PluginManager Any
      → Result String × PropertyMap Any × PluginManager Any
  unfolding plugin_config build_property_sequence enter_handler
  configure_handler artifact plugin depends config m =
      let full = plugin_config config m in
      elim (plugin.configure (build_property_sequence [] full)) [
        | some failure ↦ (
          from_failure artifact "Unknown C++ exception during handler configuration" failure,
          full,
          m,
        )
        | none ↦ let (result, n) = enter_handler artifact plugin depends m in (result, full, n)
      ]

  unfoldable pub register_installation_handler :
      (String → String → ℕ → Loaded (Handler Any))
      → String
      → String
      → SSet
      → ℕ
      → PropertyMap Any
      → PluginManager Any
      → Result String × PropertyMap Any × PluginManager Any
  unfolding load_plugin configure_handler
  register_installation_handler load artifact entrypoint depends open_mode config m =
      elim (load_plugin load artifact entrypoint open_mode) [
        | plan_error name reason ↦ (plan_error name reason, config, m)
        | thrown failure ↦ (thrown failure, config, m)
        | returned plugin ↦ configure_handler artifact plugin depends config m
      ]

  unfoldable pub get_installation_order : List String → PluginManager Any → Outcome
  unfolding calculate_order
  get_installation_order io m = calculate_order m.ih_dep io

  unfoldable pub fetch_installation_handler : String → PluginManager Any → Option (Handler Any)
  unfolding find
  fetch_installation_handler instance_type m = find instance_type m.handler_map
