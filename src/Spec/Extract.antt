-- ===== src/Spec/Extract.antt =====
-- src/providerspec.go `extractProviderSpec`: which configured provider is mirrored.
use agy_identity_bridge.Base.{
  ◌⊎◌, inl, inr, Bool, true, false, not, Option, none, some, List, [], ◌∷◌, if◌then◌else◌, is_nil,
}
use agy_identity_bridge.Text.{Text, text}
use agy_identity_bridge.Int64.{Int64, add64, max64}
use agy_identity_bridge.Value.{Map, or_else, string_or_empty, bool_or_false, int_or_zero}
use agy_identity_bridge.Config.{PluginSettings}
use agy_identity_bridge.Discovery.{compat_provider, match_discovered_provider}
use agy_identity_bridge.Catalog.{ModelCache, load_model_cache, load_model_catalog}
use agy_identity_bridge.Spec.{ModelSpec, ProviderSpec}
use agy_identity_bridge.Spec.Compat.{
  open_ai_compat_entries, compat_api_keys, compat_headers, compat_models,
}

unfoldable pub mirrored_priority : Int64 → Int64
mirrored_priority priority = max64 (add64 priority 100) 10

-- The specification of one section.
unfoldable pub compat_spec : Map → ProviderSpec
unfolding mirrored_priority compat_api_keys compat_headers compat_models
compat_spec provider =
    let priority = int_or_zero provider (text "priority" ∷ []) in
    record {
      name = string_or_empty provider (text "name" ∷ []);
      prefix = string_or_empty provider (text "prefix" ∷ []);
      base_url = string_or_empty provider (text "base-url" ∷ text "base_url" ∷ text "url" ∷ []);
      api_keys = compat_api_keys provider;
      headers = compat_headers provider;
      priority = mirrored_priority priority;
      source_priority = priority;
      disable_cooling =
          bool_or_false provider (text "disable-cooling" ∷ text "disable_cooling" ∷ []);
      models = compat_models provider;
      enabled = not (bool_or_false provider (text "disabled" ∷ []));
    }

abbrev pub is_owned : PluginSettings → Map → Bool
is_owned settings provider = (match_discovered_provider settings (compat_provider provider)).0

abbrev pub is_live : Map → Bool
is_live provider = not (bool_or_false provider (text "disabled" ∷ []))

-- The loop with its `fallback`: `inl` is a return out of it.
unfoldable pub extract_loop :
    PluginSettings → List Map → Option ProviderSpec → ProviderSpec ⊎ Option ProviderSpec
extract_loop settings [] fallback = inr fallback
extract_loop settings (provider ∷ providers) fallback =
    let skipped = extract_loop settings providers fallback in
    let later = extract_loop settings providers (or_else fallback (some (compat_spec provider))) in
    if not (is_owned settings provider)
    then skipped
    else if is_live provider
    then inl (compat_spec provider)
    else later

abbrev pub no_spec : ProviderSpec
no_spec = record {
  name = [];
  prefix = [];
  base_url = [];
  api_keys = [];
  headers = [];
  priority = 0;
  source_priority = 0;
  disable_cooling = false;
  models = [];
  enabled = false;
}

-- The cache file and the JSON codec are parameters; `current` is the global copy of the settings.
module _ (unmarshal : Text → Option ModelCache) (file : Option Text)
    (current : PluginSettings) where
  unfoldable pub cached_model_specs : Text → List ModelSpec
  unfolding load_model_catalog
  cached_model_specs base_url = load_model_catalog unmarshal file

  unfoldable pub cached_provider_spec_from_cache : ProviderSpec
  unfolding load_model_cache cached_model_specs
  cached_provider_spec_from_cache =
      if is_nil (load_model_cache unmarshal file) then no_spec else record no_spec {
        name = current.executor_provider;
        prefix = current.model_namespace;
        models = cached_model_specs [];
        enabled = false;
        priority = 110;
      }

  abbrev pub with_cached_models : ProviderSpec → ProviderSpec
  with_cached_models spec = record spec {
    models = if is_nil spec.models then cached_model_specs spec.base_url else spec.models;
  }

  abbrev pub extracted : ProviderSpec ⊎ Option ProviderSpec → ProviderSpec × Bool
  extracted (inl spec) = (spec, true)
  extracted (inr (some fallback)) = (with_cached_models fallback, true)
  extracted (inr none) =
      (cached_provider_spec_from_cache, not (is_nil cached_provider_spec_from_cache.base_url))

  unfoldable pub extract_provider_spec : Option Map → PluginSettings → ProviderSpec × Bool
  unfolding extract_loop cached_provider_spec_from_cache cached_model_specs open_ai_compat_entries
  extract_provider_spec root settings =
      extracted (extract_loop settings (open_ai_compat_entries root) none)
