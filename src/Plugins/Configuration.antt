-- ===== src/Plugins/Configuration.antt =====
-- `set_configuration`, `add_configuration` and the configuration that a plugin gets.
use dancex.Prelude.{[], ◌∷◌, true, String, ◌≡◌, ap, ◌∙◌}
use dancex.StringMap.{find}
use dancex.Utility.{Property, Properties, PropertyMap, build_property_map, build_property_sequence}
use dancex.Utility.Maps.{
  or_else, or_else-none, first_value, last_value, find-build_overwrite, find-build_keep,
  build_property_sequence-entries, first_value-entries,
}
use dancex.Plugins.{PluginManager, add_configuration, plugin_config, merged}

module _ {Any : Type 0} where
  merged-value :
      (k : String) (old config : Properties Any)
      → first_value k (merged old config) ≡ or_else (last_value k config) (last_value k old)
  unfolding merged find
  merged-value k old config =
      ap (first_value k) (build_property_sequence-entries [] _)
      ∙ first_value-entries k _
      ∙ find-build_overwrite k config (build_property_map [] old true)
      ∙ ap (or_else (last_value k config)) (find-build_overwrite k old [] ∙ or_else-none _)

  -- Where the manager has a configuration, adding one leaves, for each name, the last value given
  -- to it in the new sequence, or else the last one in the old sequence.
  add_configuration-value :
      (k : String) (config : Properties Any) (p : Property Any) (ps : Properties Any)
      (m : PluginManager Any)
      → m.config ≡ p ∷ ps
      → first_value k (add_configuration config m).config
        ≡ or_else (last_value k config) (last_value k (p ∷ ps))
  unfolding add_configuration
  add_configuration-value k config p ps m h =
      rw (h, add_configuration) (merged-value k (p ∷ ps) config)

  -- A plugin is configured with the properties given for it and, for the names that these do not
  -- have, with the first value in the manager's configuration.
  pub plugin_config-value :
      (k : String) (config : PropertyMap Any) (m : PluginManager Any)
      → first_value k (build_property_sequence [] (plugin_config config m))
        ≡ or_else (find k config) (first_value k m.config)
  unfolding plugin_config
  plugin_config-value k config m =
      ap (first_value k) (build_property_sequence-entries [] _)
      ∙ first_value-entries k _
      ∙ find-build_keep k m.config config
