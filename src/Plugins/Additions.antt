-- ===== src/Plugins/Additions.antt =====
-- `register_interceptor`, `register_configuration_plugin` and `get_configuration_handler` of
-- dancex11/scheduler/events/plugin_manager.cpp.
use dancex.Prelude.{ℕ, [], ◌∷◌, ◌++◌, Option, none, some, String, inl, inr}
use dancex.StringMap.{find, insert}
use dancex.Utility.{PropertyMap, build_property_sequence}
use dancex.Plugins.{
  Failure, corba, standard, other, Result, returned, plan_error, thrown, Interceptor, Configurator,
  PluginManager, Loaded, load_plugin, plugin_config,
}

-- The catch ladder without `std::exception`, which its `catch (...)` then takes.
abbrev pub from_failure_corba : {A : Type 0} → String → String → Failure → Result A
from_failure_corba artifact unknown (corba text) = plan_error artifact text
from_failure_corba artifact unknown (standard text) = plan_error artifact unknown
from_failure_corba artifact unknown other = plan_error artifact unknown

module _ {Any : Type 0} where
  unfoldable pub configure_interceptor :
      String
      → Interceptor Any
      → PropertyMap Any
      → PluginManager Any
      → Result Unit × PropertyMap Any × PluginManager Any
  unfolding plugin_config build_property_sequence
  configure_interceptor artifact plugin config m =
      let full = plugin_config config m in
      elim (plugin.configure (build_property_sequence [] full)) [
        | some failure ↦ (
          from_failure_corba artifact "Unknown C++ exception during handler configuration\n"
              failure,
          full,
          m,
        )
        | none ↦ (returned tt, full, record m { interceptors = m.interceptors ++ plugin ∷ [] })
      ]

  unfoldable pub register_interceptor :
      (String → String → ℕ → Loaded (Interceptor Any))
      → String
      → String
      → ℕ
      → PropertyMap Any
      → PluginManager Any
      → Result Unit × PropertyMap Any × PluginManager Any
  unfolding load_plugin configure_interceptor
  register_interceptor load artifact entrypoint open_mode config m =
      elim (load_plugin load artifact entrypoint open_mode) [
        | plan_error name reason ↦ (plan_error name reason, config, m)
        | thrown failure ↦ (thrown failure, config, m)
        | returned plugin ↦ configure_interceptor artifact plugin config m
      ]

  unfoldable pub enter_configurator :
      String → Configurator → PluginManager Any → Result Unit × PluginManager Any
  unfolding insert
  enter_configurator artifact plugin m = elim plugin.type [
    | inr failure ↦ (
      from_failure_corba artifact "Unknown C++ exception during plugin configuration\n" failure,
      m,
    )
    | inl type ↦ (returned tt, record m { config_plugins = insert type plugin m.config_plugins })
  ]

  unfoldable pub register_configuration_plugin :
      (String → String → ℕ → Loaded Configurator)
      → String
      → String
      → ℕ
      → PluginManager Any
      → Result Unit × PluginManager Any
  unfolding load_plugin enter_configurator
  register_configuration_plugin load artifact entrypoint open_mode m =
      elim (load_plugin load artifact entrypoint open_mode) [
        | plan_error name reason ↦ (plan_error name reason, m)
        | thrown failure ↦ (thrown failure, m)
        | returned plugin ↦ enter_configurator artifact plugin m
      ]

  unfoldable pub get_configuration_handler : String → PluginManager Any → Option Configurator
  unfolding find
  get_configuration_handler id m = find id m.config_plugins
