-- ===== src/Config/Load/Choice.antt =====
-- Which document the settings come from.
use agy_identity_bridge.Base.{◌≡◌, refl, ap, Bool, true, false, Option, none, some}
use agy_identity_bridge.Text.{Text}
use agy_identity_bridge.Value.{Map, bind, or_else}
use agy_identity_bridge.Config.{PluginSettings, default_plugin_settings, normalize_settings}
use agy_identity_bridge.Config.Load.{
  Decoded, ParsedMap, ConfigFile, settings_from_map, find_plugin_config, found_map, parse_yaml_map,
  file_map, take_section, read_section, load_plugin_configuration,
}

abbrev pub is_some {ℓ} : {A : Type ℓ} → Option A → Bool
is_some none = false
is_some (some a) = true

abbrev pub settings_of : Option Map → PluginSettings
settings_of none = default_plugin_settings
settings_of (some cfg) = settings_from_map default_plugin_settings (some cfg)

module _ (yaml : Text → Decoded) where
  -- The plugin section of a document, if it can be parsed and has one.
  abbrev pub section_of : ParsedMap → Option Map
  section_of m = bind (found_map m) find_plugin_config

  take_both :
      (a b : Option Map)
      → take_section yaml (take_section yaml (default_plugin_settings, false) a) b
        ≡ (settings_of (or_else a b), is_some (or_else a b))
  take_both none none = refl
  take_both none (some cfg) = refl
  take_both (some cfg) none = refl
  take_both (some cfg) (some other) = refl

  -- The settings are read from the plugin section of the lifecycle document, from that of the
  -- mounted file when the first has none or cannot be parsed, and are the defaults without either.
  -- They are normalised, and the snapshot says whether a section was found.
  pub load_plugin_configuration-section :
      (lifecycle : Text) (file : ConfigFile)
      → ((load_plugin_configuration yaml lifecycle file).settings
          ≡ normalize_settings (
              settings_of (
                or_else
                  (section_of (parse_yaml_map yaml lifecycle))
                  (section_of (file_map yaml file)))))
        × ((load_plugin_configuration yaml lifecycle file).plugin_config_found
            ≡ is_some (
                or_else
                  (section_of (parse_yaml_map yaml lifecycle))
                  (section_of (file_map yaml file))))
  unfolding load_plugin_configuration read_section
  load_plugin_configuration-section lifecycle file =
      let both =
        take_both (section_of (parse_yaml_map yaml lifecycle)) (section_of (file_map yaml file)) in
      (
        ap (λ (settings, found). normalize_settings settings) both,
        ap (λ (settings, found). found) both,
      )
