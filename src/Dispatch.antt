-- ===== src/Dispatch.antt =====
-- src/dispatch.go: the request interceptor and the declared capabilities. JSON, base64, HMAC, SHA-256,
-- URLs, the clock and the environment are parameters.
pub mod HeaderTable
pub mod Injected
use agy_identity_bridge.Base.{
  ◌⊎◌, inl, inr, Bool, true, false, not, ◌&&◌, Option, none, some, List, [], ◌∷◌, if◌then◌else◌,
  is_nil,
}
use agy_identity_bridge.Text.{Text, text}
use agy_identity_bridge.Value.{
  Map, put, as_map, map_value, string_value, string_or_empty, bool_or_false, bind,
}
use agy_identity_bridge.Headers.{Headers, header_map_from_any}
use agy_identity_bridge.Candidate.{ProviderCandidate}
use agy_identity_bridge.Config.{PluginSettings}
use agy_identity_bridge.Config.Secret.{hmac_secret_for_candidate}
use agy_identity_bridge.Config.Selectors.{should_intercept_candidate}
use agy_identity_bridge.Identity.{
  ClientIdentityContext, identity_signature_message, derive_client_identity_from_intercept,
}
use agy_identity_bridge.Registry.{MatchedProviderRecord, DashboardEvent, record_dashboard_event}
use agy_identity_bridge.Intercept.{InterceptRequestPayload, candidate_from_payload}
use agy_identity_bridge.Spec.{ProviderSpec, can_serve_models}
use agy_identity_bridge.Routes.{request_path_from_metadata, signed_upstream_path}
use agy_identity_bridge.Upstream.{signature_header}
use agy_identity_bridge.Diagnostics.Counters.{InterceptState, record_intercept}

pub record InterceptResponsePayload : Type 0 where
  pub headers : Headers
  pub body : Text
  pub clear_headers : List Text

abbrev pub no_response : InterceptResponsePayload
no_response = record { headers = []; body = []; clear_headers = [] }

abbrev pub no_payload : InterceptRequestPayload
no_payload = record {
  source_format = [];
  to_format = [];
  model = [];
  requested_model = [];
  stream = false;
  headers = [];
  body = [];
  metadata = none;
}

abbrev pub value_map : Map → Text → Option Map
value_map decoded key = bind (map_value decoded (key ∷ [])) as_map

-- What JSON makes of a request: an error, or a map that may be nil.
abbrev pub Parsed : Type 0
Parsed = Text ⊎ Option Map

module _ (unmarshal : Text → Parsed) (decode64 : Text → Option Text) where
  -- A text that is not base64 leaves the field empty.
  abbrev pub decoded_text : Option Text → Text
  decoded_text none = []
  decoded_text (some raw) = elim (decode64 raw) [ none ↦ [] | some decoded ↦ decoded ]

  abbrev payload_of : Parsed → Text ⊎ InterceptRequestPayload
  payload_of (inl error) = inl error
  payload_of (inr none) = inr no_payload
  payload_of (inr (some m)) = inr (record {
    source_format = string_or_empty m (text "source_format" ∷ []);
    to_format = string_or_empty m (text "to_format" ∷ []);
    model = string_or_empty m (text "model" ∷ []);
    requested_model = string_or_empty m (text "requested_model" ∷ []);
    stream = bool_or_false m (text "stream" ∷ []);
    headers = header_map_from_any (value_map m (text "headers"));
    body = decoded_text (string_value m (text "body" ∷ []));
    metadata = value_map m (text "metadata");
  })

  unfoldable pub parse_intercept_payload : Text → Text ⊎ InterceptRequestPayload
  unfolding header_map_from_any
  parse_intercept_payload raw = if is_nil raw then inr no_payload else payload_of (unmarshal raw)

-- The counter of interceptions and the dashboard events.
abbrev pub Noted : Type 0
Noted = InterceptState × List DashboardEvent

-- The state that an interception reads: the settings and the mirrored provider are those of the
-- moment, `spec` is the one that `resolveProviderSpec` gives, empty where none is found.
pub record InterceptInputs : Type 0 where
  pub settings : PluginSettings
  pub env : Text
  pub records : List MatchedProviderRecord
  pub spec : ProviderSpec
  pub version : Text
  pub timestamp : Text
  pub clock : Text

-- A header for a value that is not empty.
abbrev pub put_unless_nil : Text → Text → Headers → Headers
put_unless_nil key value headers = if is_nil value then headers else put key (value ∷ []) headers

abbrev pub injected_headers : Text → ClientIdentityContext → Text → Headers
injected_headers version identity provider =
    put_unless_nil (text "X-AGY-Connector-Id") identity.connector_id (
      put_unless_nil (text "X-AGY-Capability-Profile") identity.capability_profile (
        put_unless_nil (text "X-AGY-Client-Instance") identity.client_instance (
          (text "X-AGY-Principal", identity.principal ∷ [])
          ∷ (text "X-AGY-Timestamp", identity.timestamp ∷ [])
          ∷ (text "X-AGY-Client-App", identity.client_app ∷ [])
          ∷ (text "X-AGY-Plugin-Version", version ∷ [])
          ∷ (text "X-AGY-CPA-Provider-Name", provider ∷ [])
          ∷ [])))

module _ (sha256_hex : Text → Text) (compute_hmac : Text → Text → Text)
    (url_path : Text → Option Text) where
  abbrev pub injected :
      InterceptInputs
      → InterceptRequestPayload
      → ProviderCandidate
      → ClientIdentityContext
      → Headers
  injected i payload candidate identity =
      let secret = hmac_secret_for_candidate i.env i.settings candidate.api_key in
      let headers = injected_headers i.version identity candidate.name in
      if is_nil secret
      then headers
      else put signature_header
          (compute_hmac
              (identity_signature_message identity (text "POST") (
                signed_upstream_path url_path payload.model payload.to_format []
                  (request_path_from_metadata payload.metadata) i.spec))
              secret
            ∷ [])
          headers

  -- A matched request with its identity.
  abbrev pub inject :
      InterceptInputs
      → InterceptRequestPayload
      → ProviderCandidate
      → ClientIdentityContext
      → Noted
      → InterceptResponsePayload × Noted
  inject i payload candidate derived (state, events) =
      let identity = record derived { provider_name = candidate.name } in
      if is_nil derived.principal
      then (
        no_response,
        (
          state,
          record_dashboard_event i.clock (text "warning")
              (text
                "Client request matched the mirrored provider but no stable identity could be derived")
              events,
        ),
      )
      else (
        record no_response { headers = injected i payload candidate identity },
        record_intercept i.clock candidate identity (state, events),
      )

  unfoldable pub intercept_payload :
      InterceptInputs → InterceptRequestPayload → Noted → InterceptResponsePayload × Noted
  unfolding should_intercept_candidate candidate_from_payload derive_client_identity_from_intercept
      signed_upstream_path record_intercept
  intercept_payload i payload noted =
      let candidate = candidate_from_payload i.records payload in
      if not i.settings.enabled
      then (no_response, noted)
      else if not (should_intercept_candidate i.settings candidate).0
      then (no_response, noted)
      else inject i payload candidate
          (derive_client_identity_from_intercept sha256_hex i.timestamp payload.headers
            payload.metadata i.settings)
          noted

-- `okEnvelope` and `errorEnvelope` of the response.
pub data InterceptReply : Type 0 where
  ok_envelope : InterceptResponsePayload → InterceptReply
  error_envelope : Text → Text → InterceptReply

module _ (unmarshal : Text → Parsed) (decode64 : Text → Option Text) (sha256_hex : Text → Text)
    (compute_hmac : Text → Text → Text) (url_path : Text → Option Text) where
  abbrev reply_of :
      InterceptInputs → Noted → Text ⊎ InterceptRequestPayload → InterceptReply × Noted
  reply_of i noted (inl error) = (error_envelope (text "parse_error") error, noted)
  reply_of i noted (inr payload) =
      let r = intercept_payload sha256_hex compute_hmac url_path i payload noted in
      (ok_envelope r.0, r.1)

  unfoldable pub handle_intercept_after : InterceptInputs → Text → Noted → InterceptReply × Noted
  unfolding parse_intercept_payload intercept_payload
  handle_intercept_after i request noted =
      reply_of i noted (parse_intercept_payload unmarshal decode64 request)

pub record RegistrationCapability : Type 0 where
  pub request_interceptor : Bool
  pub management_api : Bool
  pub model_registrar : Bool
  pub model_provider : Bool
  pub executor : Bool
  pub executor_model_scope : Text
  pub executor_input_formats : List Text
  pub executor_output_formats : List Text

-- `spec` and `mirrored` are the cached provider.
unfoldable pub registration_capabilities :
    PluginSettings → ProviderSpec → Bool → RegistrationCapability
unfolding can_serve_models
registration_capabilities settings spec mirrored =
    let serves = settings.executor_enabled && mirrored && can_serve_models settings spec in
    let formats = if serves then text "chat-completions" ∷ text "openai-image" ∷ [] else [] in
    record {
      request_interceptor = true;
      management_api = true;
      model_registrar = serves;
      model_provider = serves;
      executor = serves;
      executor_model_scope = if serves then text "both" else [];
      executor_input_formats = formats;
      executor_output_formats = formats;
    }
