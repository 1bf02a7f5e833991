-- ===== src/Plugins/Tests.antt =====
-- The theorems of the plugin manager, the values being texts.
use mathlib.Core.List.{Mem}
use dancex.Prelude.{
  ℕ, [], ◌∷◌, none, some, Bool, true, false, String, ◌≡◌, refl, inl, if◌then◌else◌, str_eq, arith,
}
use dancex.StringMap.{find}
use dancex.Utility.{Property, PropertyMap}
use dancex.Utility.Maps.{or_else}
use dancex.Sorter.{calculate_order}
use dancex.Plugins.{
  PluginManager, new_manager, Handler, Loaded, produced, Result, returned,
  register_installation_handler, fetch_installation_handler, get_installation_order,
}
use dancex.Plugins.Handlers.{register-fetch}
use dancex.Plugins.Order.{IsConsistent, register-IsConsistent, get_installation_order-registered}
use dancex.Plugins.Closing.{Closed, handler}

abbrev old : Property String
old = record { name = "a"; value = "1" }

abbrev configured : PluginManager String
configured = record new_manager { config = old ∷ [] }

abbrev connector : Handler String
connector = record {
  instance_type = "connector";
  configure = λ props. none;
  dependencies = inl ("component" ∷ []);
}

abbrev load : String → String → ℕ → Loaded (Handler String)
load artifact entrypoint open_mode = produced (some connector)

abbrev registered : Result String × PropertyMap String × PluginManager String
registered = register_installation_handler load "lib" "create" [] 1 [] configured

register-fetch_example :
    (registered.0 ≡ returned "connector")
    × ((t : String)
        → fetch_installation_handler t registered.2
          ≡ or_else
              (fetch_installation_handler t configured)
              (if str_eq "connector" t then some connector else none))
register-fetch_example =
    register-fetch load "lib" "create" [] 1 [] configured connector ("component" ∷ []) refl refl
      refl refl refl

configured-IsConsistent : IsConsistent configured
unfolding IsConsistent fetch_installation_handler find
configured-IsConsistent = (tt, λ t h. h)

register-IsConsistent_example : IsConsistent registered.2
register-IsConsistent_example =
    register-IsConsistent load "lib" "create" [] 1 [] configured configured-IsConsistent

-- One handler, that depends on nothing.
abbrev alone : PluginManager String
alone = record new_manager {
  handler_map = ("connector", connector) ∷ [];
  ih_dep = record { dep_map = ("connector", []) ∷ [] };
}

alone-IsConsistent : IsConsistent alone
unfolding IsConsistent fetch_installation_handler find
alone-IsConsistent = ((tt, tt), λ t h. ground arith)

get_installation_order-registered_example : Mem {A = String} "connector" ("connector" ∷ [])
unfolding fetch_installation_handler find get_installation_order calculate_order
get_installation_order-registered_example =
    get_installation_order-registered "connector" ("connector" ∷ []) alone alone-IsConsistent refl
      refl

abbrev same : String → String
same s = s

abbrev accepts : String → Bool
accepts directive = true

-- Each handler throws when it is closed.
abbrev throws : Closed String → Bool
throws (handler h) = true
throws other = false
