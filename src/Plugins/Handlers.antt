-- ===== src/Plugins/Handlers.antt =====
-- The registration of installation handlers, and the order in which they install.
use dancex.Prelude.{
  ℕ, List, [], none, some, Bool, true, false, String, ◌≡◌, refl, arith, ◌⊎◌, inl, inr, is_empty,
  if◌then◌else◌, str_eq, Option-cases, ◌||◌,
}
use dancex.StringMap.{SSet}
use dancex.StringMap.Laws.{find-insert}
use dancex.Utility.{PropertyMap, build_property_sequence}
use dancex.Utility.Maps.{or_else}
use dancex.Plugins.{
  PluginManager, Handler, Loaded, produced, unresolved, Failure, corba, standard, other,
  from_failure, Result, returned, plan_error, load_plugin, plugin_config, enter_handler,
  configure_handler, register_installation_handler, fetch_installation_handler,
}

-- `load_plugin` gives a plugin or throws a `PlanError`.
pub load_plugin-outcome :
    {Plugin : Type 0} (load : String → String → ℕ → Loaded Plugin) (artifact entrypoint : String)
    (open_mode : ℕ)
    → ((plugin : Plugin) × (load_plugin load artifact entrypoint open_mode ≡ returned plugin))
      ⊎ ((name : String) × (reason : String) × (load_plugin load artifact entrypoint open_mode
            ≡ plan_error name reason))
unfolding load_plugin
load_plugin-outcome {Plugin} load artifact entrypoint open_mode =
    go (is_empty artifact || is_empty entrypoint) (load artifact entrypoint open_mode)
  where
    made : Bool → Loaded Plugin → Result Plugin
    made b l = if b then plan_error "" "Invalid parameters for plug-in installation" else elim l [
      | unresolved error ↦ plan_error artifact error
      | produced none ↦ plan_error artifact "Nil result from factory"
      | produced (some plugin) ↦ returned plugin
    ]

    go :
        (b : Bool) (l : Loaded Plugin)
        → ((plugin : Plugin) × (made b l ≡ returned plugin))
          ⊎ ((name : String) × (reason : String) × (made b l ≡ plan_error name reason))
    go true l = inr (_, _, refl)
    go false (unresolved error) = inr (_, _, refl)
    go false (produced none) = inr (_, _, refl)
    go false (produced (some plugin)) = inl (plugin, refl)

load_plugin-returned :
    {Plugin : Type 0} (load : String → String → ℕ → Loaded Plugin) (artifact entrypoint : String)
    (open_mode : ℕ) (plugin : Plugin)
    → is_empty artifact ≡ false
    → is_empty entrypoint ≡ false
    → load artifact entrypoint open_mode ≡ produced (some plugin)
    → load_plugin load artifact entrypoint open_mode ≡ returned plugin
unfolding load_plugin
load_plugin-returned load artifact entrypoint open_mode plugin a e l = ground arith

from_failure-plan_error :
    {A : Type 0} (artifact unknown : String) (f : Failure)
    → (reason : String) × (from_failure {A = A} artifact unknown f ≡ plan_error artifact reason)
from_failure-plan_error artifact unknown (corba text) = (text, refl)
from_failure-plan_error artifact unknown (standard text) = (text, refl)
from_failure-plan_error artifact unknown other = (unknown, refl)

module _ {Any : Type 0} where
  -- A call of the operation that returns, or throws and leaves the handlers.
  abbrev Settled : PluginManager Any → Result String × PropertyMap Any × PluginManager Any → Type 0
  Settled m r =
      ((type : String) × (r.0 ≡ returned type))
      ⊎ ((name : String) × (reason : String) × (r.0 ≡ plan_error name reason)
          × (r.2.handler_map ≡ m.handler_map))

  configure_handler-Settled :
      (artifact : String) (plugin : Handler Any) (depends : SSet) (config : PropertyMap Any)
      (m : PluginManager Any)
      → Settled m (configure_handler artifact plugin depends config m)
  unfolding configure_handler enter_handler
  configure_handler-Settled artifact plugin depends config m =
      elim (Option-cases (plugin.configure (build_property_sequence [] (plugin_config config m)))) [
        | inr (f, e) ↦
            rw (e, configure_handler)
              (let (reason, q) =
                  from_failure-plan_error artifact
                    "Unknown C++ exception during handler configuration" f in
                inr (artifact, reason, q, refl))
        | inl e ↦ rw (e, configure_handler) (entered plugin.dependencies refl)
      ]
    where
      entered :
          (d : List String ⊎ Failure)
          → plugin.dependencies ≡ d
          → Settled m (
              let (result, n) = enter_handler artifact plugin depends m in
              (result, plugin_config config m, n))
      entered (inl deps) e = rw (e, enter_handler) (inl (plugin.instance_type, refl))
      entered (inr f) e =
          rw (e, enter_handler)
            (let (reason, q) =
                from_failure-plan_error artifact
                  "Unknown C++ exception during handler configuration" f in
              inr (artifact, reason, q, refl))

  configure_handler-fetch :
      (artifact : String) (plugin : Handler Any) (deps : List String) (depends : SSet)
      (config : PropertyMap Any) (m : PluginManager Any)
      → plugin.configure (build_property_sequence [] (plugin_config config m)) ≡ none
      → plugin.dependencies ≡ inl deps
      → ((configure_handler artifact plugin depends config m).0 ≡ returned plugin.instance_type)
        × ((t : String)
            → fetch_installation_handler t (configure_handler artifact plugin depends config m).2
              ≡ or_else
                  (fetch_installation_handler t m)
                  (if str_eq plugin.instance_type t then some plugin else none))
  unfolding configure_handler enter_handler fetch_installation_handler
  configure_handler-fetch artifact plugin deps depends config m c d =
      rw (c, configure_handler, d, enter_handler)
        (refl, λ t. ground (arith, find-insert plugin.instance_type t plugin m.handler_map))

  module _ (load : String → String → ℕ → Loaded (Handler Any)) (artifact entrypoint : String)
      (depends : SSet) (open_mode : ℕ) (config : PropertyMap Any) (m : PluginManager Any) where
    -- What one call of the operation leads to.
    abbrev registration : Result String × PropertyMap Any × PluginManager Any
    registration = register_installation_handler load artifact entrypoint depends open_mode config m

    -- Where the names are not empty, the factory makes a plugin, and its calls return, the
    -- registration answers its type and the plugin is found under it from then on, unless another
    -- one was registered for that type earlier; what the other types have stays.
    pub register-fetch :
        (plugin : Handler Any) (deps : List String)
        → is_empty artifact ≡ false
        → is_empty entrypoint ≡ false
        → load artifact entrypoint open_mode ≡ produced (some plugin)
        → plugin.configure (build_property_sequence [] (plugin_config config m)) ≡ none
        → plugin.dependencies ≡ inl deps
        → (registration.0 ≡ returned plugin.instance_type)
          × ((t : String)
              → fetch_installation_handler t registration.2
                ≡ or_else
                    (fetch_installation_handler t m)
                    (if str_eq plugin.instance_type t then some plugin else none))
    unfolding register_installation_handler
    register-fetch plugin deps a e l c d =
        rw
          (
            load_plugin-returned load artifact entrypoint open_mode plugin a e l,
            register_installation_handler,
          )
          (configure_handler-fetch artifact plugin deps depends config m c d)

    -- A registration of an installation handler returns or throws a PlanError, whatever the
    -- plugin throws; where it throws, the handlers are those from before.
    register-outcome :
        ((type : String) × (registration.0 ≡ returned type))
        ⊎ ((name : String) × (reason : String) × (registration.0 ≡ plan_error name reason)
            × (registration.2.handler_map ≡ m.handler_map))
    unfolding register_installation_handler
    register-outcome = elim (load_plugin-outcome load artifact entrypoint open_mode) [
      | inl (plugin, e) ↦
          rw (e, register_installation_handler)
            (configure_handler-Settled artifact plugin depends config m)
      | inr (name, reason, e) ↦
          rw (e, register_installation_handler) (inr (name, reason, refl, refl))
    ]
