-- ===== src/Config.antt =====
-- src/config.go: the settings record, its defaults, and `normalizeSettings`.
pub mod Keys
pub mod Glob
pub mod Selectors
pub mod Secret
pub mod Load
pub mod Normal
use agy_identity_bridge.Base.{Bool, true, false, ◌||◌, List, [], ◌∷◌, ◌++◌, if◌then◌else◌, is_nil}
use agy_identity_bridge.Text.{Text, text, ◌==◌, trim_space, to_lower}
use agy_identity_bridge.Int64.{Int64}
use agy_identity_bridge.Unique.{unique_selectors}
use Keys.{normalize_executor_provider_key}

pub record PluginSettings : Type 0 where
  pub enabled : Bool
  pub priority : Int64
  pub auto_discover : Bool
  pub include_native_antigravity : Bool
  pub allow_explicit_client_identity_headers : Bool
  pub principal_fallback_mode : Text
  pub debug_logging : Bool
  pub match_mode : Text
  pub match_name : Text
  pub match_url : Text
  pub match_api_key : Text
  pub match_provider : Text
  pub match_providers : List Text
  pub match_model : Text
  pub match_models : List Text
  pub hmac_secret : Text
  pub hmac_secret_source : Text
  pub agy2api_identity_secret : Text
  pub executor_enabled : Bool
  pub executor_provider : Text
  pub model_namespace : Text

abbrev pub default_executor_provider : Text
default_executor_provider = text "ln.Antigravity"

unfoldable pub default_plugin_settings : PluginSettings
default_plugin_settings = record {
  enabled = true;
  priority = 0;
  auto_discover = true;
  include_native_antigravity = true;
  allow_explicit_client_identity_headers = true;
  principal_fallback_mode = text "client_key_hash";
  debug_logging = false;
  match_mode = text "any";
  match_name = [];
  match_url = [];
  match_api_key = [];
  match_provider = [];
  match_providers = [];
  match_model = [];
  match_models = [];
  hmac_secret = [];
  hmac_secret_source = text "env";
  agy2api_identity_secret = [];
  executor_enabled = false;
  executor_provider = default_executor_provider;
  model_namespace = [];
}

unfoldable pub normalize_match_mode : Text → Text
normalize_match_mode mode =
    if to_lower (trim_space mode) == text "all" then text "all" else text "any"

unfoldable pub normalize_fallback_mode : Text → Text
normalize_fallback_mode raw =
    let mode = to_lower (trim_space raw) in
    if mode == [] || mode == text "client_key_hash"
    then text "client_key_hash"
    else if mode == text "user_agent_plus_session" || mode == text "disabled"
    then mode
    else text "client_key_hash"

unfoldable pub normalize_secret_source : Text → Text
normalize_secret_source raw =
    let source = to_lower (trim_space raw) in
    if source == text "env"
      || source == text "config"
      || source == text "provider_api_key"
      || source == text "none"
    then source
    else text "env"

unfoldable pub executor_provider_or_default : Text → Text
executor_provider_or_default raw =
    let provider = normalize_executor_provider_key raw in
    if is_nil provider then default_executor_provider else provider

-- The last `if` of the source gives the flag its own value, so it is left out.
unfoldable pub normalize_settings : PluginSettings → PluginSettings
normalize_settings s = record s {
  match_mode = normalize_match_mode s.match_mode;
  principal_fallback_mode = normalize_fallback_mode s.principal_fallback_mode;
  hmac_secret_source = normalize_secret_source s.hmac_secret_source;
  match_name = trim_space s.match_name;
  match_url = trim_space s.match_url;
  match_api_key = trim_space s.match_api_key;
  match_provider = trim_space s.match_provider;
  match_model = trim_space s.match_model;
  hmac_secret = trim_space s.hmac_secret;
  agy2api_identity_secret = trim_space s.agy2api_identity_secret;
  match_providers = unique_selectors (s.match_providers ++ trim_space s.match_provider ∷ []);
  match_models = unique_selectors (s.match_models ++ trim_space s.match_model ∷ []);
  model_namespace = trim_space s.model_namespace;
  executor_provider = executor_provider_or_default s.executor_provider;
}
