-- ===== src/Executor.antt =====
-- src/executor.go: the request of the host read into a record, and the answers of the host. JSON and
-- base64 are parameters; a decoder of one raw value says whether the value has the wanted type.
pub mod Context
pub mod Handlers
pub mod Honest
pub mod Streamed
pub mod Started
use agy_identity_bridge.Value.{
  Map, string, get, map_value, as_map, string_or_empty, string_value, bool_or_false, or_zero, bind,
}
use agy_identity_bridge.Headers.{Headers, header_map_from_any}
use agy_identity_bridge.Int64.{Int64}
use agy_identity_bridge.Payload.{Body, not_json, into_map}
use agy_identity_bridge.Stream.{StreamRead, Answer, call_failed, undecodable, read}
use agy_identity_bridge.Upstream.{ExecutorRequest}
use agy_identity_bridge.Base.{
  ◌⊎◌, inl, inr, Bool, false, Option, none, some, List, [], ◌∷◌, if◌then◌else◌, is_nil,
}
use agy_identity_bridge.Text.{Text, text}

-- `none` is the nil map, whose loop makes no entry.
unfoldable pub string_map_from_any : Option Map → List (Text × Text)
string_map_from_any none = []
string_map_from_any (some []) = []
string_map_from_any (some ((key, string value) ∷ raw)) =
    (key, value) ∷ string_map_from_any (some raw)
string_map_from_any (some ((key, _) ∷ raw)) = string_map_from_any (some raw)

-- A field that holds a map, read through `asMap`.
abbrev pub map_field : Map → Text → Option Map
map_field decoded name = bind (map_value decoded (name ∷ [])) as_map

-- A field that holds base64; text that does not decode leaves the field empty.
abbrev pub bytes_field : (Text → Option Text) → Map → Text → Text
bytes_field decode decoded name = or_zero [] (bind (string_value decoded (name ∷ [])) decode)

abbrev pub text_field : Map → Text → Text
text_field decoded name = string_or_empty decoded (name ∷ [])

abbrev pub request_of : (Text → Option Text) → Map → ExecutorRequest
request_of decode decoded = record {
  auth_id = text_field decoded (text "auth_id");
  auth_provider = text_field decoded (text "auth_provider");
  model = text_field decoded (text "model");
  format = text_field decoded (text "format");
  stream = bool_or_false decoded (text "stream" ∷ []);
  alt = text_field decoded (text "alt");
  headers = header_map_from_any (map_field decoded (text "headers"));
  payload = bytes_field decode decoded (text "payload");
  source_format = text_field decoded (text "source_format");
  original_request = bytes_field decode decoded (text "original_request");
  metadata = map_field decoded (text "metadata");
  auth_attributes = string_map_from_any (map_field decoded (text "auth_attributes"));
  host_callback_id = text_field decoded (text "host_callback_id");
  stream_id = text_field decoded (text "stream_id");
}

abbrev request_in : (Text → Option Text) → Body → Option ExecutorRequest
request_in decode not_json = none
request_in decode (into_map m) = some (request_of decode (or_zero [] m))

-- `none` is the error of the decoder; an empty text gives the zero request, as a map without
-- entries does.
unfoldable pub parse_executor_request :
    (Text → Body) → (Text → Option Text) → Text → Option ExecutorRequest
parse_executor_request unmarshal decode raw =
    if is_nil raw then some (request_of decode []) else request_in decode (unmarshal raw)

-- A JSON object whose values are left raw.
abbrev pub RawKeys : Type 0
RawKeys = List (Text × Text)

-- `intFromKeys`, `stringFromKeys`, `headersFromKeys` and `boolFromKeys` are this loop with the
-- decoder of their type: a name that is missing or does not decode is passed over.
unfoldable pub from_keys {ℓ} : {A : Type ℓ} → (Text → Option A) → RawKeys → List Text → Option A
unfolding get
from_keys decode keys [] = none
from_keys decode keys (name ∷ names) = elim (bind (get name keys) decode) [
  | none ↦ from_keys decode keys names
  | some value ↦ some value
]

-- `json.Unmarshal` into an object of raw values (`inr`, or `inl` and the error's message), an int,
-- a string, a map of headers and a bool.
pub record RawJson : Type 0 where
  pub object_of : Text → Text ⊎ RawKeys
  pub int_of : Text → Option Int64
  pub string_of : Text → Option Text
  pub headers_of : Text → Option Headers
  pub bool_of : Text → Option Bool

pub record HostHttpResponse : Type 0 where
  pub status_code : Int64
  pub headers : Headers
  pub body : Text

pub record HostHttpStreamStart : Type 0 where
  pub status_code : Int64
  pub headers : Headers
  pub stream_id : Text

-- `hostCall`: the message of its error, or the answer.
pub data Called : Type 0 where
  refused answered : Text → Called

module _ (json : RawJson) where
  abbrev status_in : RawKeys → Int64
  status_in keys = or_zero 0 (
      from_keys json.int_of keys
        (text "status_code" ∷ text "statusCode" ∷ text "StatusCode" ∷ text "status" ∷ []))

  abbrev headers_in : RawKeys → Headers
  headers_in keys =
      or_zero [] (from_keys json.headers_of keys (text "headers" ∷ text "Headers" ∷ []))

  abbrev string_in : RawKeys → List Text → Text
  string_in keys names = or_zero [] (from_keys json.string_of keys names)

  unfoldable pub host_http_response : RawKeys → HostHttpResponse
  host_http_response keys = record {
    status_code = status_in keys;
    headers = headers_in keys;
    body = string_in keys (text "body" ∷ text "Body" ∷ []);
  }

  unfoldable pub host_http_stream_start : RawKeys → HostHttpStreamStart
  host_http_stream_start keys = record {
    status_code = status_in keys;
    headers = headers_in keys;
    stream_id = string_in keys (text "stream_id" ∷ text "StreamID" ∷ []);
  }

  unfoldable pub host_http_stream_read : RawKeys → StreamRead
  host_http_stream_read keys = record {
    payload = string_in keys (text "payload" ∷ text "Payload" ∷ []);
    error = string_in keys (text "error" ∷ text "Error" ∷ []);
    done = or_zero false (from_keys json.bool_of keys (text "done" ∷ text "Done" ∷ []));
  }

  -- What the loops that read a stream make of a call.
  unfoldable pub stream_answer : Called → Answer
  stream_answer (refused e) = call_failed e
  stream_answer (answered raw) = elim (json.object_of raw) [
    | inl e ↦ undecodable e
    | inr keys ↦ read (host_http_stream_read keys)
  ]
