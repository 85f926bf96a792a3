-- ===== src/Diagnostics.antt =====
-- src/providers.go: the diagnostics that the status pages show, and what of them is public.
pub mod Hidden
pub mod Counters
pub mod Warnings
pub mod Report
pub mod Registered
use agy_identity_bridge.Base.{ℕ, Bool, false, not, ◌||◌, List, [], ◌∷◌, map, if◌then◌else◌, is_nil}
use agy_identity_bridge.Text.{Text, trim_space}
use agy_identity_bridge.Int64.{Int64}
use agy_identity_bridge.Unique.{unique_strings}
use agy_identity_bridge.Config.{PluginSettings}
use agy_identity_bridge.Registry.{DashboardEvent}
use agy_identity_bridge.Scan.{ProviderStatus}
use agy_identity_bridge.Spec.{ModelInfo, ProviderSpec, can_serve_models}

pub record ProviderDiagnostics : Type 0 where
  pub version : Text
  pub enabled : Bool
  pub priority : Int64
  pub auto_discover : Bool
  pub include_native_antigravity : Bool
  pub match_mode : Text
  pub match_name : Text
  pub match_url : Text
  pub match_api_key_configured : Bool
  pub match_provider : Text
  pub match_providers : List Text
  pub match_model : Text
  pub match_models : List Text
  pub configured_selector_count : ℕ
  pub hmac_secret_configured : Bool
  pub hmac_secret_source : Text
  pub config_path_found : Bool
  pub config_path : Text
  pub plugin_config_found : Bool
  pub scanned_record_count : ℕ
  pub configured_record_count : ℕ
  pub runtime_record_count : ℕ
  pub runtime_auth_count : ℕ
  pub matched_record_count : ℕ
  pub matched_provider_count : ℕ
  pub unmatched_record_count : ℕ
  pub last_scan_at : Text
  pub scanned_providers : List ProviderStatus
  pub providers : List ProviderStatus
  pub mirrored_provider : Text
  pub mirrored_priority : Int64
  pub mirrored_disable_cooling : Bool
  pub mirrored_model_count : ℕ
  pub mirrored_has_api_key : Bool
  pub mirrored_base_url : Text
  pub mirrored_model_ids : List Text
  pub published_model_ids : List Text
  pub executor_enabled : Bool
  pub executor_provider : Text
  pub executor_auth_ensured : Bool
  pub model_namespace : Text
  pub mirrored_provider_enabled : Bool
  pub replacement_mode : Text
  pub provider_original_enabled : Bool
  pub agy2api_secret_configured : Bool
  pub models_served : Bool
  pub last_executor_status : Int64
  pub last_executor_error_at : Text
  pub intercept_count : Int64
  pub last_intercept_at : Text
  pub last_intercept_provider : Text
  pub active_prefixes : List Text
  pub recent_events : List DashboardEvent
  pub warnings : List Text

-- What is left of a status for a page that needs no login.
abbrev pub public_status : ProviderStatus → ProviderStatus
public_status item = record item { url = []; auth_index = []; label = [] }

unfoldable pub public_provider_diagnostics : ProviderDiagnostics → ProviderDiagnostics
public_provider_diagnostics d = record d {
  config_path = [];
  match_name = [];
  match_url = [];
  match_provider = [];
  match_providers = [];
  match_model = [];
  match_models = [];
  config_path_found = false;
  scanned_providers = [];
  mirrored_base_url = [];
  providers = map public_status d.providers;
}

abbrev not_blank_ids : List ModelInfo → List Text
not_blank_ids [] = []
not_blank_ids (info ∷ infos) =
    let rest = not_blank_ids infos in
    if is_nil (trim_space info.id) then rest else trim_space info.id ∷ rest

unfoldable pub model_ids_from_infos : List ModelInfo → List Text
model_ids_from_infos infos = unique_strings (not_blank_ids infos)

-- `infos` are the models of the specification for registration.
unfoldable pub published_model_ids_of : List ModelInfo → ProviderSpec → PluginSettings → List Text
unfolding model_ids_from_infos can_serve_models
published_model_ids_of infos spec settings =
    if is_nil infos || not (can_serve_models settings spec) then [] else model_ids_from_infos infos
