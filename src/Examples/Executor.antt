-- ===== src/Examples/Executor.antt =====
-- Witnesses about the handlers of the executor and the usage that they record.
use agy_identity_bridge.Value.{Value, object, field, no_fields, string, Map}
use agy_identity_bridge.Config.{default_plugin_settings}
use agy_identity_bridge.Spec.{ProviderSpec}
use agy_identity_bridge.Spec.Extract.{no_spec}
use agy_identity_bridge.Payload.{Body, not_json}
use agy_identity_bridge.Executor.{RawJson, RawKeys, answered}
use agy_identity_bridge.Executor.Context.{ExecutorContext, ExecutorWorld}
use agy_identity_bridge.Payload.{force_streaming_payload}
use agy_identity_bridge.Executor.Handlers.{
  prepare, handle_executor_execute, handle_executor_count_tokens,
}
use agy_identity_bridge.Executor.Streamed.{handle_executor_execute_stream}
use agy_identity_bridge.Executor.Honest.{Agree, handle_executor_execute-count_tokens}
use agy_identity_bridge.Executor.Started.{IsServed, handle_executor_execute_stream-IsServed}
use agy_identity_bridge.Base.{
  inl, inr, true, Option, none, some, [], ◌∷◌, ◌++◌, if◌then◌else◌, is_nil,
}
use agy_identity_bridge.Text.{Text, text}

-- Every answer of the host has the status 413, a body and a stream.
abbrev keys : RawKeys
keys =
    (text "StatusCode", text "413")
    ∷ (text "Body", text "too large")
    ∷ (text "stream_id", text "s1")
    ∷ []

abbrev json : RawJson
json = record {
  object_of = λ raw. if is_nil raw then inl (text "no JSON") else inr keys;
  int_of = λ raw. some 413;
  string_of = λ raw. some raw;
  headers_of = λ raw. none;
  bool_of = λ raw. none;
}

abbrev spec : ProviderSpec
spec = record no_spec { base_url = text "http://a/v1"; api_keys = text "k" ∷ [] }

abbrev same_text : Text → Text
same_text s = s

abbrev hmac : Text → Text → Text
hmac message secret = message ++ secret

abbrev refuse_json : Text → Body
refuse_json raw = not_json

abbrev no_json : Map → Option Text
no_json m = none

abbrev no_path : Text → Option Text
no_path url = none

abbrev context : ExecutorContext
context = record {
  sha256_hex = same_text;
  compute_hmac = hmac;
  b64 = same_text;
  unb64 = same_text;
  decode = some;
  unmarshal = refuse_json;
  marshal = no_json;
  json = json;
  url_path = no_path;
  decimal = λ status. text "413";
  parse_message = same_text;
  settings = default_plugin_settings;
  env = [];
  version = text "1";
  timestamp = text "1700000000";
  clock = text "t1";
  spec = some spec;
  host_do = λ request. answered (text "{}");
  host_do_stream = λ request. answered (text "{}");
  reads = answered [] ∷ [];
  accepts = λ before event. true;
}

abbrev world : ExecutorWorld
world = record { last_status = 0; last_at = []; events = []; usage_calls = [] }

handle_executor_execute-count_tokens_example :
    Agree context world
      (handle_executor_execute context [] world)
      (handle_executor_count_tokens context [] world)
handle_executor_execute-count_tokens_example = handle_executor_execute-count_tokens context [] world

handle_executor_execute_stream-IsServed_example :
    IsServed context world
      (prepare context (force_streaming_payload context.unmarshal context.marshal) [])
      (handle_executor_execute_stream context [] world)
handle_executor_execute_stream-IsServed_example =
    handle_executor_execute_stream-IsServed context world []

-- A decoder that finds one object with a count.
abbrev usage_json : Text → Option Value
usage_json raw = some (object (field (text "total_tokens") (string (text "7")) no_fields))
