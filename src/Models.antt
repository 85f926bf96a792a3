-- ===== src/Models.antt =====
-- src/models.go: the mirrored provider that is cached, and what is registered with the host.
pub mod Withheld
use agy_identity_bridge.Base.{
  Bool, true, false, not, ◌||◌, Option, none, some, List, [], if◌then◌else◌, is_nil,
}
use agy_identity_bridge.Text.{Text, text}
use agy_identity_bridge.Int64.{Int64}
use agy_identity_bridge.Config.{PluginSettings}
use agy_identity_bridge.Config.Load.{
  PluginConfigSnapshot, Decoded, ParsedMap, parsed, refused, parse_yaml_map,
}
use agy_identity_bridge.Catalog.{ModelCache}
use agy_identity_bridge.Registry.{record_dashboard_event}
use agy_identity_bridge.Spec.{ProviderSpec, ModelInfo, can_serve_models, model_infos}
use agy_identity_bridge.Spec.Extract.{no_spec, extract_provider_spec}
use agy_identity_bridge.Auth.{AuthWorld, AuthResult, ensure_auth_record}

pub record ProviderSpecCache : Type 0 where
  pub spec : ProviderSpec
  pub found : Bool
  pub refresh : Int64

unfoldable pub store_provider_spec : Int64 → ProviderSpec → Bool → ProviderSpecCache
store_provider_spec now spec found = record { spec = spec; found = found; refresh = now }

unfoldable pub cached_provider_spec : ProviderSpecCache → ProviderSpec × Bool
cached_provider_spec cache = (cache.spec, cache.found)

pub record ModelRegistrationResponse : Type 0 where
  pub provider : Text
  pub models : List ModelInfo

-- `okEnvelope` of a response, and `errorEnvelope` of a code and a message.
pub data ModelReply : Type 0 where
  ok_envelope : ModelRegistrationResponse → ModelReply
  error_envelope : Text → Text → ModelReply

-- The YAML and JSON codecs, sorting by identifier and the cache file are parameters.
module _ (yaml : Text → Decoded) (unmarshal : Text → Option ModelCache) (file : Option Text)
    (sort_by_id : List ModelInfo → List ModelInfo)
    (marshal : List (Text × Text) → Option Text) where
  abbrev Resolved : Type 0
  Resolved = (ProviderSpec × Bool) × ProviderSpecCache

  -- What is found is stored.
  abbrev keep_found : Int64 → ProviderSpecCache → ProviderSpec × Bool → Resolved
  keep_found now cache (spec, found) =
      ((spec, found), if found then store_provider_spec now spec true else cache)

  -- Nothing is found where there is no document, or none that can be read.
  abbrev extract_parsed : PluginSettings → ParsedMap → ProviderSpec × Bool
  extract_parsed current (refused error) = (no_spec, false)
  extract_parsed current (parsed root) = extract_provider_spec unmarshal file current root current

  unfoldable pub extract_configured : PluginConfigSnapshot → ProviderSpec × Bool
  unfolding parse_yaml_map extract_provider_spec
  extract_configured snapshot =
      if is_nil snapshot.config_yaml
      then (no_spec, false)
      else extract_parsed snapshot.settings (parse_yaml_map yaml snapshot.config_yaml)

  unfoldable pub resolve_provider_spec : Int64 → PluginConfigSnapshot → ProviderSpecCache → Resolved
  unfolding extract_configured
  resolve_provider_spec now snapshot cache =
      if (cached_provider_spec cache).1
      then ((cache.spec, true), cache)
      else keep_found now cache (extract_configured snapshot)

  -- A failure to save the auth record is reported, and the models are published all the same.
  abbrev report : Text → AuthResult → AuthWorld
  report clock (none, w) = w
  report clock (some error, w) = record w {
    events =
        record_dashboard_event clock (text "error")
          (text "Plugin executor auth record could not be created during model registration")
          w.events;
  }

  abbrev Registered : Type 0
  Registered = ModelRegistrationResponse × (ProviderSpecCache × AuthWorld)

  abbrev respond : Int64 → Text → PluginSettings → Option Text → AuthWorld → Resolved → Registered
  respond now clock settings answer w ((spec, found), cache) =
      if not found || not (can_serve_models settings spec)
      then (record { provider = settings.executor_provider; models = [] }, (cache, w))
      else (
        record { provider = settings.executor_provider; models = model_infos sort_by_id now spec },
        (cache, report clock (ensure_auth_record marshal clock spec settings answer w)),
      )

  unfoldable pub current_model_response :
      Int64 → Text → PluginConfigSnapshot → Option Text → ProviderSpecCache × AuthWorld → Registered
  unfolding resolve_provider_spec can_serve_models ensure_auth_record
  current_model_response now clock snapshot answer (cache, w) =
      respond now clock snapshot.settings answer w (resolve_provider_spec now snapshot cache)

  abbrev answer_for_auth :
      Option Text
      → Registered
      → ProviderSpecCache × AuthWorld
      → ModelReply × (ProviderSpecCache × AuthWorld)
  answer_for_auth (some error) registered state = (error_envelope (text "parse_error") error, state)
  answer_for_auth none (response, state) before = (ok_envelope response, state)

  -- `refusal` is the error of `json.Unmarshal` on a request.
  unfoldable pub handle_model_for_auth :
      (Text → Option Text)
      → Text
      → Int64
      → Text
      → PluginConfigSnapshot
      → Option Text
      → ProviderSpecCache × AuthWorld
      → ModelReply × (ProviderSpecCache × AuthWorld)
  unfolding current_model_response
  handle_model_for_auth refusal request now clock snapshot answer state =
      answer_for_auth (if is_nil request then none else refusal request)
        (current_model_response now clock snapshot answer state) state
