-- ===== src/Executor/Handlers.antt =====
-- src/executor.go: the handlers of an execution and of a count of tokens, from the request of the
-- host to the answer, with what they record on the way.
use agy_identity_bridge.Base.{Option}
use agy_identity_bridge.Headers.{Headers}
use agy_identity_bridge.Int64.{Int64, lt64}
use agy_identity_bridge.Spec.{ProviderSpec}
use agy_identity_bridge.Registry.{record_dashboard_event}
use agy_identity_bridge.Identity.{ClientIdentityContext}
use agy_identity_bridge.Identity.Executor.{identity_from_executor_request}
use agy_identity_bridge.Payload.{Outcome, returned, panicked, normalize_executor_model}
use agy_identity_bridge.Stream.{
  is_non_success_stream_start, truncate_upstream_error_body, max_upstream_error_body_bytes,
}
use agy_identity_bridge.Upstream.{
  ExecutorRequest, settings_model_prefix, Built, no_base_url, no_api_key, panic, built,
  build_upstream_request,
}
use agy_identity_bridge.Executor.{
  RawKeys, HostHttpResponse, Called, refused, answered, parse_executor_request, host_http_response,
}
use agy_identity_bridge.Base.{
  inl, inr, ◌⊎◌, inl, inr, not, none, some, [], ◌∷◌, ◌++◌, if◌then◌else◌, is_nil,
}
use agy_identity_bridge.Text.{Text, text}
use agy_identity_bridge.Executor.Context.{
  ExecutorContext, ExecutorWorld, Reply, error_reply, ok_reply, panic_reply, error_of, UpstreamCall,
  Prepared, failed, prepared,
}

abbrev pub status_level : Int64 → Text
status_level status =
    if not (lt64 status 400)
    then text "error"
    else if not (lt64 status 300)
    then text "warning"
    else text "info"

abbrev pub forced : (Text → Outcome) → Outcome → Outcome
forced force panicked = panicked
forced force (returned payload) = force payload

abbrev pub built_call : ProviderSpec → ExecutorRequest → ClientIdentityContext → Built → Prepared
built_call spec req identity no_base_url =
    failed (error_of (text "executor_config_error") (text "mirrored provider has no base URL"))
built_call spec req identity no_api_key =
    failed
      (error_of (text "executor_config_error") (text "mirrored provider has no API key configured"))
built_call spec req identity panic = failed panic_reply
built_call spec req identity (built request) = prepared (record {
  request = request;
  spec = spec;
  model = req.model;
  identity = identity;
  stream_id = req.stream_id;
})

module _ (x : ExecutorContext) where
  unfoldable pub record_executor_upstream_status : Int64 → ExecutorWorld → ExecutorWorld
  record_executor_upstream_status status w = record w {
    last_status = status;
    last_at = x.clock;
    events =
        record_dashboard_event x.clock (status_level status)
          (text "agy2api responded HTTP " ++ x.decimal status) w.events;
  }

  abbrev pub record_use : Text → UpstreamCall → Text → Headers → ExecutorWorld → ExecutorWorld
  record_use mode call body headers w = record w {
    usage_calls =
        w.usage_calls
        ++ record {
          body = body;
          headers = headers;
          provider = call.spec.name;
          model = call.model;
          client_app = call.identity.client_app;
          principal = call.identity.principal;
          mode = mode;
        }
          ∷ [];
  }

  -- The request with its final payload, for the provider.
  abbrev pub build : ProviderSpec → ExecutorRequest → Outcome → Prepared
  build spec req panicked = failed panic_reply
  build spec req (returned payload) =
      let sent = record req { payload = payload } in
      let identity =
        identity_from_executor_request x.sha256_hex x.timestamp x.settings req.headers in
      built_call spec sent identity (
        build_upstream_request x.compute_hmac x.env x.settings x.b64 x.unmarshal x.marshal
          x.url_path x.version sent spec identity)

  abbrev pub prepare_for : (Text → Outcome) → ProviderSpec → ExecutorRequest → Prepared
  prepare_for force spec req =
      let (model, payload) =
        normalize_executor_model x.unmarshal x.marshal (settings_model_prefix x.settings spec) spec
          req.model req.payload req.metadata in
      build spec (record req { model = model }) (forced force payload)

  abbrev pub resolved :
      (Text → Outcome) → Text → Option ExecutorRequest → Option ProviderSpec → Prepared
  resolved force raw none spec = failed (error_of (text "parse_error") (x.parse_message raw))
  resolved force raw (some req) none =
      failed (error_of (text "provider_unresolved") (text "no mirrored provider is configured"))
  resolved force raw (some req) (some spec) = prepare_for force spec req

  -- The part that the three handlers begin with; `force` is what the streamed one does to a payload.
  unfoldable pub prepare : (Text → Outcome) → Text → Prepared
  prepare force raw = resolved force raw (parse_executor_request x.unmarshal x.decode raw) x.spec

  unfoldable pub executor_upstream_error : Int64 → Text → Reply
  executor_upstream_error status body =
      let detail = truncate_upstream_error_body body max_upstream_error_body_bytes in
      let message = text "agy2api returned HTTP " ++ x.decimal status in
      error_reply (text "upstream_error")
        (if is_nil detail then message else message ++ (text ": " ++ detail)) status

  abbrev pub ok_response : HostHttpResponse → Reply
  ok_response r =
      ok_reply (record { payload = x.b64 (x.unb64 r.body); headers = r.headers; chunks = [] })

  -- The answer to an execution: a status that is set and is no success is an error.
  unfoldable pub execute_response : HostHttpResponse → Reply
  execute_response r =
      if is_non_success_stream_start r.status_code
      then executor_upstream_error r.status_code (x.unb64 r.body)
      else ok_response r

  abbrev pub on_decoded :
      (HostHttpResponse → Reply)
      → Text
      → UpstreamCall
      → Text ⊎ RawKeys
      → ExecutorWorld
      → Reply × ExecutorWorld
  on_decoded reply mode call (inl e) w = (error_of (text "upstream_decode_failed") e, w)
  on_decoded reply mode call (inr keys) w =
      let r = host_http_response x.json keys in
      (
        reply r,
        record_use mode call (x.unb64 r.body) r.headers
            (record_executor_upstream_status r.status_code w),
      )

  -- From the host's answer on, for the handlers that do not stream.
  unfoldable pub on_response :
      (HostHttpResponse → Reply)
      → Text
      → UpstreamCall
      → Called
      → ExecutorWorld
      → Reply × ExecutorWorld
  on_response reply mode call (refused e) w = (error_of (text "upstream_call_failed") e, w)
  on_response reply mode call (answered raw) w = on_decoded reply mode call (x.json.object_of raw) w

  abbrev pub respond :
      (HostHttpResponse → Reply) → Text → Prepared → ExecutorWorld → Reply × ExecutorWorld
  respond reply mode (failed early) w = (early, w)
  respond reply mode (prepared call) w = on_response reply mode call (x.host_do call.request) w

  unfoldable pub handle_executor_execute : Text → ExecutorWorld → Reply × ExecutorWorld
  handle_executor_execute raw w = respond execute_response (text "execute") (prepare returned raw) w

  unfoldable pub handle_executor_count_tokens : Text → ExecutorWorld → Reply × ExecutorWorld
  handle_executor_count_tokens raw w =
      respond ok_response (text "count_tokens") (prepare returned raw) w
