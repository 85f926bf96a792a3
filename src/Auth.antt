-- ===== src/Auth.antt =====
-- src/executor.go: the auth record that the plugin saves with the host for its own provider. The
-- answer of the host to the one call that an operation may make is an argument.
pub mod Saved
use agy_identity_bridge.Base.{
  Bool, true, false, ◌&&◌, ◌||◌, Option, none, some, List, [], ◌∷◌, ◌++◌, if◌then◌else◌, is_nil,
}
use agy_identity_bridge.Text.{Text, text, ◌==◌}
use agy_identity_bridge.Config.{PluginSettings, default_executor_provider}
use agy_identity_bridge.Config.Keys.{normalize_executor_provider_key}
use agy_identity_bridge.Spec.{ProviderSpec, upstream_base_url, primary_api_key, model_namespace}
use agy_identity_bridge.Registry.{DashboardEvent, record_dashboard_event}

pub record ExecutorAuthRecordState : Type 0 where
  pub fingerprint : Text
  pub ensured : Bool

-- A call of `host.auth.save`, and whether the host took it.
pub record SaveCall : Type 0 where
  pub name : Text
  pub json : Text
  pub accepted : Bool

-- The locked state, the calls that were made, the last one first, and the dashboard events.
pub record AuthWorld : Type 0 where
  pub auth : ExecutorAuthRecordState
  pub calls : List SaveCall
  pub events : List DashboardEvent

pub data AuthError : Type 0 where
  missing_base_url_or_api_key : AuthError
  marshal_failed : AuthError
  host_auth_save_failed : Text → AuthError

-- The result of an operation and the state after it; `none` is a nil error.
abbrev pub AuthResult : Type 0
AuthResult = Option AuthError × AuthWorld

unfoldable pub auth_provider : PluginSettings → Text
auth_provider settings =
    let provider = normalize_executor_provider_key settings.executor_provider in
    if is_nil provider then default_executor_provider else provider

-- The fields of the auth record, in the order of the fingerprint.
abbrev pub auth_parts : ProviderSpec → PluginSettings → List Text
auth_parts spec settings =
    auth_provider settings
    ∷ upstream_base_url spec
    ∷ primary_api_key spec
    ∷ model_namespace settings.model_namespace spec.prefix
    ∷ []

unfoldable pub auth_fingerprint : ProviderSpec → PluginSettings → Text
auth_fingerprint spec settings =
    auth_provider settings
    ++ 0
      ∷ (upstream_base_url spec
          ++ 0 ∷ (primary_api_key spec ++ 0 ∷ model_namespace settings.model_namespace spec.prefix))

abbrev auth_fields : List Text → List (Text × Text)
auth_fields (provider ∷ base_url ∷ api_key ∷ prefix ∷ []) =
    (text "type", provider)
    ∷ (text "base_url", base_url)
    ∷ (text "api_key", api_key)
    ∷ (text "email", text "agy-identity-bridge@local")
    ∷ (text "prefix", prefix)
    ∷ []
auth_fields _ = []

unfoldable pub reset_executor_auth_record_state : AuthWorld → AuthWorld
reset_executor_auth_record_state w = record w {
  auth = record { fingerprint = []; ensured = false };
}

unfoldable pub executor_auth_record_ensured : AuthWorld → Bool
executor_auth_record_ensured w = w.auth.ensured

-- What is left of the operation once the record is marshalled: the host is called. `none` is the
-- answer of a host that saved the record.
unfoldable pub save_auth_record : Text → Text → Text → Text → Option Text → AuthWorld → AuthResult
save_auth_record now fingerprint name json (some error) w = (
  some (host_auth_save_failed error),
  record w { calls = record { name = name; json = json; accepted = false } ∷ w.calls },
)
save_auth_record now fingerprint name json none w = (
  none,
  record {
    auth = record { fingerprint = fingerprint; ensured = true };
    calls = record { name = name; json = json; accepted = true } ∷ w.calls;
    events =
        record_dashboard_event now (text "success") (text "Plugin executor auth record is ready")
          w.events;
  },
)

-- `json.Marshal` of a map of strings.
module _ (marshal : List (Text × Text) → Option Text) where
  unfoldable pub executor_auth_json : ProviderSpec → PluginSettings → Option Text
  executor_auth_json spec settings = marshal (auth_fields (auth_parts spec settings))

  abbrev save_json : Text → Text → Text → Option Text → Option Text → AuthWorld → AuthResult
  save_json now fingerprint name none answer w = (some marshal_failed, w)
  save_json now fingerprint name (some json) answer w =
      save_auth_record now fingerprint name json answer w

  abbrev pub ensure_enabled :
      Text → ProviderSpec → PluginSettings → Option Text → AuthWorld → AuthResult
  ensure_enabled now spec settings answer w =
      if is_nil (upstream_base_url spec) || is_nil (primary_api_key spec)
      then (some missing_base_url_or_api_key, w)
      else if w.auth.ensured && (w.auth.fingerprint == auth_fingerprint spec settings)
      then (none, w)
      else save_json now (auth_fingerprint spec settings) (auth_provider settings ++ text ".json")
          (executor_auth_json spec settings) answer w

  unfoldable pub ensure_auth_record :
      Text → ProviderSpec → PluginSettings → Option Text → AuthWorld → AuthResult
  unfolding auth_fingerprint executor_auth_json save_auth_record
  ensure_auth_record now spec settings answer w =
      if settings.executor_enabled then ensure_enabled now spec settings answer w else (none, w)
